-- ===== src/HashMap/Keys.antt =====
-- Types whose values can be compared, as the keys of a map or the members of a set.
use nakamoto_electrs.Prelude.{ℕ, ◌≡◌, refl, Bool, true, arith, beq, beq_iff, ◌==◌}
use nakamoto_electrs.Bytes.{Bytes}
use nakamoto_electrs.Bitcoin.{OutPoint, same_outpoint}
use nakamoto_electrs.Store.Codec.Outpoints.{eq_of_same_outpoint, same_outpoint_refl}

pub record Eq {ℓ} (A : Type ℓ) : Type ℓ where
  pub same : A → A → Bool
  pub same_refl : (a : A) → same a a ≡ true
  pub eq_of_same : (a b : A) → same a b ≡ true → a ≡ b

infix 50 ◌≐◌
abbrev pub ◌≐◌ {ℓ} : {A : Type ℓ} ⦃e : Eq A⦄ → A → A → Bool
◌≐◌ ⦃e⦄ = e.same

pub same_nat_refl : (a : ℕ) → (a == a) ≡ true
same_nat_refl a = ground arith

pub eq_of_same_nat : (a b : ℕ) → (a == b) ≡ true → a ≡ b
eq_of_same_nat a b h = ground arith

instance abbrev pub nat_eq : Eq ℕ
nat_eq = record { same = ◌==◌; same_refl = same_nat_refl; eq_of_same = eq_of_same_nat }

pub bytes_refl : (a : Bytes) → beq a a ≡ true
bytes_refl a = (beq_iff a a).1 refl

instance abbrev pub bytes_eq : Eq Bytes
bytes_eq = record { same = beq; same_refl = bytes_refl; eq_of_same = λ a b. (beq_iff a b).0 }

instance abbrev pub outpoint_eq : Eq OutPoint
outpoint_eq = record {
  same = same_outpoint;
  same_refl = same_outpoint_refl;
  eq_of_same = eq_of_same_outpoint;
}
