-- ===== src/Prelude/Exec/Keeps.antt =====
-- Properties of the state that a method keeps, whether it returns a value or an error.
use nakamoto_electrs.Prelude.Results.{Result, ok, err}
use nakamoto_electrs.Prelude.Exec.{Exec, pure, asks, continue, ◌>>=◌}

-- Where the property holds before the method, it holds of the state that the method leaves.
pub record Keeps {ℓ} {State Value : Type ℓ} (P : State → Type ℓ) (method : Exec State Value)
    : Type ℓ where
  pub at : (before : State) → P before → P (method before).1

module _ {ℓ} {State Value Other : Type ℓ} {P : State → Type ℓ} where
  -- the part of a method that follows a result
  rest_keeps :
      (result : Result Value) (rest : Value → Exec State Other) (now : State)
      → ((v : Value) → Keeps P (rest v))
      → P now
      → P (continue result rest now).1
  rest_keeps (err e) rest now each h = h
  rest_keeps (ok v) rest now each h = (each v).at now h

  pub bind-Keeps :
      (method : Exec State Value) (rest : Value → Exec State Other)
      → Keeps P method
      → ((v : Value) → Keeps P (rest v))
      → Keeps P (method >>= rest)
  bind-Keeps method rest first each = record {
    at = λ before h. rest_keeps (method before).0 rest (method before).1 each (first.at before h);
  }

-- a method that only reads
module _ {ℓ} {State Value : Type ℓ} {P : State → Type ℓ} where
  pub asks-Keeps : (read : State → Result Value) → Keeps P (asks read)
  asks-Keeps read = record { at = λ before h. h }

  pub pure-Keeps : (v : Value) → Keeps P (pure v)
  pure-Keeps v = record { at = λ before h. h }

pub ruleset method_rules = (asks-Keeps, bind-Keeps, pure-Keeps)
