-- ===== src/Runtime/Flow.antt =====
-- Calls that raise, on the world: an outcome is a value or a fault, with the world that it leaves.
use spark_pulse.Prelude.{String, ◌∷◌}
use spark_pulse.Records.{Result, ok, err}
use spark_pulse.Runtime.Lifecycle.{World, Kind}

-- `NativeRuntimeError`, `PullCancelled`, and any other exception.
pub data Fault : Type 0 where
  native pull_cancelled foreign : (message : String) → Fault

pub data Outcome {ℓ} (A : Type ℓ) : Type ℓ where
  done : A × World → Outcome A
  broke : Fault → World → Outcome A

infixl 5 ◌>>=◌
abbrev pub ◌>>=◌ {ℓ κ} : {A : Type ℓ} {B : Type κ} → Outcome A → (A × World → Outcome B) → Outcome B
done p >>= f = f p
broke e w >>= f = broke e w

-- What the record store raises is no error of the runtime's own.
abbrev pub lift : {A : Type 0} → World → Result (A × World) → Outcome A
lift w (ok p) = done p
lift w (err e) = broke (foreign "the state file could not be read") w

abbrev pub publish : Kind → String → String → World → World
publish kind id text w = record w {
  frames = record { kind = kind; deployment = id; text = text } ∷ w.frames;
}
