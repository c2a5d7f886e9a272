-- ===== src/Runtime/Status.antt =====
-- The status that a deployment is reported with, and the one state that has to say why.
use spark_pulse.Prelude.{
  String, Bool, true, false, ◌||◌, Option, none, some, ◌∷◌, ◌≡◌, ◌⊎◌, inl, inr, refl, arith,
  or_text, truthy, if◌then◌else◌, Bool-cases,
}
use spark_pulse.Prelude.Text.{strip}
use spark_pulse.Records.{Deployment, Status, Result, Redactor}
use spark_pulse.Runtime.Nodes.{Container, Nodes, is_confirmed_gone}
use spark_pulse.Runtime.Lifecycle.{World, Frame, deployment_error, update_record}

-- `_ever_ready`: an absent time of readiness is "".
abbrev has_time : Option String → Bool
has_time none = false
has_time (some t) = truthy t

unfoldable pub ever_ready : Deployment → Bool
ever_ready r = has_time r.ready_at || r.reconciled

-- `_derive_status`, by the recorded status. `up` is whether the container runs.
abbrev observed : Deployment → (up ready : Bool) → Status
observed r up ready =
    if up
    then (if ready || ever_ready r then Status.running else Status.starting)
    else Status.stopped

abbrev derive_from : Status → Deployment → Container → (up ready : Bool) → Status
derive_from Status.stopped r c up ready = Status.stopped
derive_from Status.error r c up ready = Status.error
derive_from Status.pulling r c up ready = Status.pulling
derive_from Status.pending r c up ready = Status.pending
derive_from Status.starting r c up ready =
    if is_confirmed_gone c then Status.starting else observed r up ready
derive_from _ r c up ready = observed r up ready

unfoldable pub derive_status : Deployment → Container → (up ready : Bool) → Status
unfolding ever_ready is_confirmed_gone
derive_status r c up ready = derive_from r.status r c up ready

abbrev pub unexplained_error : String
unexplained_error =
    "this deploy failed and nothing recorded why — please report it, and read the run's logs for the engine's own last words"

unfoldable pub error_text : String → String
unfolding strip
error_text message = or_text (strip message) unexplained_error

-- `_record_error`, where `f` sets the other fields
unfoldable pub record_error :
    Redactor
    → Nodes
    → (id message : String) → (Deployment → Deployment)
    → World
    → Result (Option Deployment × World)
unfolding error_text
record_error R N id message f w =
    let text = error_text message in
    let frame : Frame = record { kind = deployment_error; deployment = id; text = text } in
    update_record R id
      (λ r. f (record r {
        status = Status.error;
        error_message = some text;
        stopped_at = some (N.now w.history);
      }))
      (record w { frames = frame ∷ w.frames })

observed_running :
    (r : Deployment) (up ready : Bool)
    → observed r up ready ≡ Status.running
    → (up ≡ true) × ((ready ≡ true) ⊎ (ever_ready r ≡ true))
observed_running r true true e = (refl, inl refl)
observed_running r true false e = elim (Bool-cases (ever_ready r)) [
  | inl before ↦ (refl, inr before)
  | inr never ↦ absurd (ground (arith, never))
]
observed_running r false ready e = absurd (cc)

derive_from-running :
    (s : Status) (r : Deployment) (c : Container) (up ready : Bool)
    → derive_from s r c up ready ≡ Status.running
    → (up ≡ true) × ((ready ≡ true) ⊎ (ever_ready r ≡ true))
derive_from-running Status.stopped r c up ready e = absurd (cc)
derive_from-running Status.error r c up ready e = absurd (cc)
derive_from-running Status.pulling r c up ready e = absurd (cc)
derive_from-running Status.pending r c up ready e = absurd (cc)
derive_from-running Status.starting r c up ready e = elim (Bool-cases (is_confirmed_gone c)) [
  | inl gone ↦ absurd (ground (arith, gone))
  | inr there ↦ observed_running r up ready (ground (arith, there))
]
derive_from-running Status.running r c up ready e = observed_running r up ready e
derive_from-running (Status.other s) r c up ready e = observed_running r up ready e

-- A deployment is reported as running only if its container runs, and it is ready now or was ever
-- observed to be.
pub derive_status-running :
    (r : Deployment) (c : Container) (up ready : Bool)
    → derive_status r c up ready ≡ Status.running
    → (up ≡ true) × ((ready ≡ true) ⊎ (ever_ready r ≡ true))
unfolding derive_status
derive_status-running r c up ready e = derive_from-running r.status r c up ready e

or_text-truthy : (s d : String) → truthy d ≡ true → truthy (or_text s d) ≡ true
or_text-truthy s d t = elim (Bool-cases (truthy s)) [
  | inl said ↦ ground (arith, said)
  | inr blank ↦ ground (arith, blank)
]

-- The text of an error is never empty.
pub error_text-truthy : (message : String) → truthy (error_text message) ≡ true
unfolding error_text
error_text-truthy message = or_text-truthy (strip message) unexplained_error refl
