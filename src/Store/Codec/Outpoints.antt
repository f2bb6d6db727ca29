-- ===== src/Store/Codec/Outpoints.antt =====
-- Two outpoints have one key exactly if they are the same outpoint.
use nakamoto_electrs.Prelude.{
  ℕ, ◌^◌, ◌<◌, ◌≡◌, refl, sym, ap, ◌∙◌, true, [], ◌∷◌, ◌++◌, ◌&&◌, ◌==◌, arith, length, beq,
  eq_of_beq, beq_refl, Bool-cases, inl, inr,
}
use nakamoto_electrs.Bytes.{Bytes, IsArray, be_bytes, from_be_bytes, from_be_bytes-be_bytes}
use nakamoto_electrs.Bitcoin.{OutPoint, same_outpoint}
use nakamoto_electrs.Store.Codec.{outpoint_key}

-- An outpoint whose fields fit their types.
pub record IsOutPoint (o : OutPoint) : Type 0 where
  pub txid : IsArray 32 o.txid
  pub vout : o.vout < 2 ^ 32

pub beq-append :
    (xs ys us vs : Bytes)
    → length xs ≡ length ys
    → beq (xs ++ us) (ys ++ vs) ≡ (beq xs ys && beq us vs)
unfolding beq
beq-append [] [] us vs h = refl
beq-append [] (y ∷ ys) us vs h = absurd (omega arith)
beq-append (x ∷ xs) [] us vs h = absurd (omega arith)
beq-append (x ∷ xs) (y ∷ ys) us vs h = ground (arith, beq-append xs ys us vs (omega arith))

pub beq-be_bytes :
    (n v w : ℕ) → v < 256 ^ n → w < 256 ^ n → beq (be_bytes n v) (be_bytes n w) ≡ (v == w)
beq-be_bytes n v w hv hw =
    let back = λ (h : beq (be_bytes n v) (be_bytes n w) ≡ true).
      sym (from_be_bytes-be_bytes n v hv)
      ∙ ap from_be_bytes (eq_of_beq (be_bytes n v) (be_bytes n w) h)
      ∙ from_be_bytes-be_bytes n w hw in
    elim (Bool-cases (beq (be_bytes n v) (be_bytes n w))) [
      | inl h ↦ ground (arith, h, back h)
      | inr h ↦ ground (arith, h, beq_refl (be_bytes n v))
    ]

pub beq-outpoint_key :
    (a b : OutPoint)
    → IsOutPoint a
    → IsOutPoint b
    → beq (outpoint_key a) (outpoint_key b) ≡ same_outpoint a b
unfolding outpoint_key same_outpoint
beq-outpoint_key a b ha hb =
    rw
      (
        beq-append a.txid b.txid (be_bytes 4 a.vout) (be_bytes 4 b.vout)
            (ha.txid.sized ∙ sym hb.txid.sized),
        beq-be_bytes 4 a.vout b.vout ha.vout hb.vout,
      )
      refl

pub eq_of_same_outpoint : (a b : OutPoint) → same_outpoint a b ≡ true → a ≡ b
unfolding same_outpoint
eq_of_same_outpoint a b h = ground (arith, eq_of_beq a.txid b.txid)

pub same_outpoint_refl : (a : OutPoint) → same_outpoint a a ≡ true
unfolding same_outpoint
same_outpoint_refl a = ground (arith, beq_refl a.txid)
