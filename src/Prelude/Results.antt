-- ===== src/Prelude/Results.antt =====
-- Results as the code's `Result`, a panic that unwinds the task, and what
-- `tokio::time::timeout(...).await` gives.
pub data Result {ℓ} (A E : Type ℓ) : Type ℓ where
  ok : A → Result A E
  err : E → Result A E

-- A call returns a value, returns an error, or panics. `out_of_fuel` is the model's own: a loop
-- was given too little fuel.
pub data Outcome {ℓ} (A E : Type ℓ) : Type ℓ where
  returned : A → Outcome A E
  failed : E → Outcome A E
  panicked : Outcome A E
  out_of_fuel : Outcome A E

-- `Err(Elapsed)` or the value of the future.
pub data Timed {ℓ} (A : Type ℓ) : Type ℓ where
  elapsed : Timed A
  finished : A → Timed A

abbrev pub to_outcome {ℓ} : {A E : Type ℓ} → Result A E → Outcome A E
to_outcome (ok a) = returned a
to_outcome (err e) = failed e

-- The error path `?` of a stateful call: only a returned value goes on.
abbrev pub and_then {ℓ κ} :
    {A B E : Type ℓ} {S : Type κ} → Outcome A E × S → (A → S → Outcome B E × S) → Outcome B E × S
and_then (returned a, s) k = k a s
and_then (failed e, s) k = (failed e, s)
and_then (panicked, s) k = (panicked, s)
and_then (out_of_fuel, s) k = (out_of_fuel, s)
