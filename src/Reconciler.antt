-- ===== src/Reconciler.antt =====
-- The reconciler (spark_pulse/tools/reconciler.py): the intent that a request leaves on a record,
-- and the sweep that makes it true through the runtime. Its thread and its clock are left out.
use Prim.Native.String.{◌++◌ as text_append}
use spark_pulse.Prelude.{
  ℕ, String, Bool, true, false, ◌||◌, Option, none, some, List, [], ◌∷◌, or_text, truthy, str_eq,
  if◌then◌else◌,
}
use spark_pulse.Records.{
  Deployment, Status, Orphan, in_creation, Error, value_error, Result, ok, err, ◌>>=◌, Redactor,
  load, update, get,
}
use spark_pulse.Runtime.Nodes.{Nodes}
use spark_pulse.Runtime.Lifecycle.{
  World, Frame, deployment_sync, deployment_deleted, stop_deployment, delete_deployment,
}
use spark_pulse.Runtime.Flow.{publish}
use spark_pulse.Runtime.Listing.{Machine, list_deployments}
pub mod Convergence
pub mod Examples

-- `SYNC_STATES`
pub data Sync : Type 0 where
  in_sync in_progress deleting unknown : Sync

abbrev pub text_of_sync : Sync → String
text_of_sync in_sync = "in_sync"
text_of_sync in_progress = "in_progress"
text_of_sync deleting = "deleting"
text_of_sync unknown = "unknown"

-- `value in SYNC_STATES`
abbrev pub parse_sync : String → Option Sync
parse_sync value =
    if str_eq value "in_sync"
    then some in_sync
    else if str_eq value "in_progress"
    then some in_progress
    else if str_eq value "deleting"
    then some deleting
    else if str_eq value "unknown"
    then some unknown
    else none

abbrev or_settled : Option Sync → Sync
or_settled none = in_sync
or_settled (some s) = s

unfoldable pub sync_state : Deployment → Sync
sync_state r = or_settled (parse_sync (or_text r.sync "in_sync"))

abbrev pub intent_stop : String
intent_stop = "stop"

-- What a step of the sweep answers: the record as marked, or that the record is gone.
pub data Touched : Type 0 where
  marked : Deployment → Touched
  deleted : (id : String) → Touched

abbrev pub with_sync : (state reason intent : String) → Deployment → Deployment
with_sync state reason intent r = record r {
  sync = state;
  sync_reason = reason;
  sync_intent = intent;
}

abbrev pub tell_mark : (id text : String) → Option Deployment → World → Option Deployment × World
tell_mark id text none w = (none, w)
tell_mark id text (some r) w = (some r, publish deployment_sync id text w)

-- `mark`, on a state that there is
unfoldable pub mark :
    (id : String) → Sync → (reason intent : String) → World → Result (Option Deployment × World)
mark id state reason intent w = do
  u ← update id (with_sync (text_of_sync state) reason intent) w.store
  ok (
      tell_mark id (or_text reason (text_append "sync: " (text_of_sync state))) u.0
        (record w { store = u.1 }))

-- `mark`, on any text
unfoldable pub mark_text :
    (id state reason intent : String) → World → Result (Option Deployment × World)
unfolding mark
mark_text id state reason intent w = elim (parse_sync state) [
  | none ↦ err value_error
  | some s ↦ mark id s reason intent w
]

abbrev pub as_touched : Option Deployment × World → Option Touched × World
as_touched (none, w) = (none, w)
as_touched (some r, w) = (some (marked r), w)

unfoldable pub marking :
    (id : String) → Sync → (reason intent : String) → World → Result (Option Touched × World)
unfolding mark
marking id state reason intent w = do m ← mark id state reason intent w; ok (as_touched m)

abbrev pub unconfirmed : String
unconfirmed = "waiting for a rank whose container could not be confirmed gone"

abbrev pub waiting_on_node : String
waiting_on_node = "waiting on a node: the state file could not be read"

module _ (text_of : ℕ → String) (R : Redactor) (N : Nodes) (M : Machine) where
  -- A rank that is outstanding keeps the stop in flight.
  abbrev pub judge_orphans : String → World → List Orphan → Result (Option Touched × World)
  judge_orphans id w [] = marking id in_sync "" "" w
  judge_orphans id w (o ∷ os) = marking id in_progress unconfirmed intent_stop w

  abbrev pub judge_stop :
      String → World → Result (Option Deployment × World) → Result (Option Touched × World)
  judge_stop id w (err e) = marking id in_progress waiting_on_node intent_stop w
  judge_stop id w (ok (none, v)) = ok (some (deleted id), v)
  judge_stop id w (ok (some r, v)) = judge_orphans id v r.orphans

  -- `_finish_stop`
  unfoldable pub finish_stop : String → World → Result (Option Touched × World)
  unfolding stop_deployment marking
  finish_stop id w = judge_stop id w (stop_deployment text_of R N id w)

  abbrev pub judge_delete : String → World → Result (Bool × World) → Result (Option Touched × World)
  judge_delete id w (err e) = marking id deleting waiting_on_node "" w
  judge_delete id w (ok (true, v)) =
      ok (some (deleted id), publish deployment_deleted id "removed from every node" v)
  judge_delete id w (ok (false, v)) = marking id deleting unconfirmed "" v

  -- `_finish_delete`, but for the metrics that are forgotten
  unfoldable pub finish_delete : String → World → Result (Option Touched × World)
  unfolding delete_deployment marking
  finish_delete id w = judge_delete id w (delete_deployment text_of R N id w)

  abbrev pub judge_current : String → Option Deployment → World → Result (Option Touched × World)
  judge_current id none w = ok (some (deleted id), w)
  judge_current id (some r) w =
      if in_creation r.status then ok (none, w) else marking id in_sync "" "" w

  abbrev pub judge_listing :
      String → World → Result (List Deployment × World) → Result (Option Touched × World)
  judge_listing id w (err e) =
      marking id unknown "a node could not be asked: the state file could not be read" "" w
  judge_listing id w (ok (rs, v)) = do
    g ← get id v.store
    judge_current id g.0 (record v { store = g.1 })

  -- `_settle`: a record that its pull still owns is left alone.
  unfoldable pub settle : String → Deployment → World → Result (Option Touched × World)
  unfolding list_deployments marking
  settle id r w =
      let listing = judge_listing id w (list_deployments M R N w) in
      if in_creation r.status then ok (none, w) else listing

  abbrev pub converge_from : Sync → Deployment → World → Result (Option Touched × World)
  converge_from deleting r w = finish_delete r.id w
  converge_from in_progress r w =
      if str_eq r.sync_intent intent_stop then finish_stop r.id w else settle r.id r w
  converge_from _ r w = ok (none, w)

  -- `_converge`
  unfoldable pub converge : Sync → Deployment → World → Result (Option Touched × World)
  unfolding finish_delete finish_stop settle
  converge state r w = if truthy r.id then converge_from state r w else ok (none, w)

  abbrev pub noting : Option Touched → List Touched × World → List Touched × World
  noting none (ts, w) = (ts, w)
  noting (some t) (ts, w) = (t ∷ ts, w)

  abbrev pub is_settled : Sync → Bool
  is_settled in_sync = true
  is_settled _ = false

  unfoldable pub sweep_each : List Deployment → World → Result (List Touched × World)
  unfolding converge sync_state
  sweep_each [] w = ok ([], w)
  sweep_each (r ∷ rs) w = do
    t ← elim (is_settled (sync_state r)) [
      | true ↦ ok (none, w)
      | false ↦ converge (sync_state r) r w
    ]
    rest ← sweep_each rs t.1
    ok (noting t.0 rest)

  -- `Reconciler.sweep`
  unfoldable pub sweep : World → Result (List Touched × World)
  unfolding sweep_each
  sweep w = do l ← load R w.store; sweep_each l.0 (record w { store = l.1 })
