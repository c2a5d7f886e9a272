-- ===== src/Runtime/Lifecycle.antt =====
-- Stopping and deleting a deployment, the pulls that they cancel, and the orphans that a sweep
-- clears (spark_pulse/tools/native_runtime.py). What other threads do between the first look of a stop
-- at the record and its lock is not modelled.
use Prim.Native.String.{◌++◌ as text_append}
use spark_pulse.Prelude.{
  ℕ, String, Bool, true, false, not, Option, none, some, List, [], ◌∷◌, keep, length, or_text,
  is_some, or_default, str_eq, if◌then◌else◌, ◌==◌,
}
use spark_pulse.Prelude.Dict.{Dict, lookup, insert, erase}
use spark_pulse.Records.{Deployment, Status, Rank, Result, ok, ◌>>=◌, Store, Redactor, load, save}
use spark_pulse.Runtime.Nodes.{History, Nodes}
use spark_pulse.Runtime.Teardown.{TornDown, teardown_entries}

-- An event that the runtime publishes: its type, the deployment, and its text.
pub data Kind : Type 0 where
  deployment_stopped deployment_error deployment_planned deployment_container_started : Kind
  deployment_mods_applied deployment_serving deployment_ready : Kind
  deployment_sync deployment_deleted : Kind
  image_pull_started image_pull_progress image_pull_cancelled image_pull_failed : Kind
  image_pull_completed : Kind

pub record Frame : Type 0 where
  pub kind : Kind
  pub deployment : String
  pub text : String

-- The stored records, the registry of active pulls with the flag of a cancel, what the nodes were
-- asked, and the published frames, the newest first.
pub record World : Type 0 where
  pub store : Store
  pub pulls : Dict Bool
  pub history : History
  pub frames : List Frame

-- `next((r for r in records if r.get("id") == id), None)`
unfoldable pub find_record : String → List Deployment → Option Deployment
find_record id [] = none
find_record id (r ∷ rs) = if str_eq r.id id then some r else find_record id rs

unfoldable pub update_first : String → (Deployment → Deployment) → List Deployment → List Deployment
update_first id f [] = []
update_first id f (r ∷ rs) = if str_eq r.id id then f r ∷ rs else r ∷ update_first id f rs

unfoldable pub get_deployment : Redactor → String → World → Result (Option Deployment × World)
get_deployment R id w = do l ← load R w.store; ok (find_record id l.0, record w { store = l.1 })

-- `_update_record`: one transaction, so nothing comes between the load and the save.
abbrev pub update_found :
    String
    → (Deployment → Deployment)
    → List Deployment
    → World
    → Option Deployment
    → Option Deployment × World
update_found id f rs w none = (none, w)
update_found id f rs w (some r) =
    (some (f r), record w { store = save (update_first id f rs) w.store })

unfoldable pub update_record :
    Redactor → String → (Deployment → Deployment) → World → Result (Option Deployment × World)
unfolding find_record
update_record R id f w = do
  l ← load R w.store
  ok (update_found id f l.0 (record w { store = l.1 }) (find_record id l.0))

unfoldable pub register_pull : String → World → World
register_pull id w = record w { pulls = insert id false w.pulls }

unfoldable pub unregister_pull : String → World → World
unregister_pull id w = record w { pulls = erase id w.pulls }

unfoldable pub pull_is_active : String → World → Bool
pull_is_active id w = is_some (lookup id w.pulls)

unfoldable pub cancel_pull : String → World → Bool × World
cancel_pull id w =
    if is_some (lookup id w.pulls)
    then (true, record w { pulls = insert id true w.pulls })
    else (false, w)

unfoldable pub pull_cancel_requested : String → World → Bool
pull_cancel_requested id w = or_default (lookup id w.pulls) false

abbrev torn_down : Option Deployment → Bool
torn_down none = true
torn_down (some r) = elim r.status [ Status.stopped ↦ true | _ ↦ false ]

unfoldable pub is_torn_down : Redactor → String → World → Result (Bool × World)
is_torn_down R id w = do g ← get_deployment R id w; ok (torn_down g.0, g.1)

-- The record is read only when no cancel is on the registry.
unfoldable pub teardown_requested : Redactor → String → World → Result (Bool × World)
unfolding pull_cancel_requested
teardown_requested R id w = if pull_cancel_requested id w then ok (true, w) else is_torn_down R id w

abbrev pub container_name_for : String → String
container_name_for id = text_append "spark-pulse-" id

-- `rank_entries`: a record with no ranks is one rank on this machine.
abbrev pub entries_of : (id container_name : String) → List Rank → List Rank
entries_of id name [] =
    record {
      rank = 0;
      node = "";
      host = "";
      container_name = or_text name (container_name_for id);
      is_head = true;
    }
    ∷ []
entries_of id name (q ∷ qs) = q ∷ qs

unfoldable pub rank_entries : Deployment → List Rank
rank_entries r = entries_of r.id r.container_name r.ranks

abbrev pub names : List Rank → String
names [] = ""
names (r ∷ []) = r.container_name
names (r ∷ q ∷ rs) = text_append (text_append r.container_name ", ") (names (q ∷ rs))

-- `{str(rank): logs}`, where `text_of` is Python's `str` on a number.
unfoldable pub logs_by_rank : (ℕ → String) → List (ℕ × String) → Dict String → Dict String
logs_by_rank text_of [] d = d
logs_by_rank text_of ((n, text) ∷ l) d = logs_by_rank text_of l (insert (text_of n) text d)

module _ (text_of : ℕ → String) (R : Redactor) (N : Nodes) where
  -- The fields that `stop_deployment` writes.
  abbrev pub as_stopped : TornDown → Deployment → Deployment
  as_stopped torn r = record r {
    status = Status.stopped;
    stopped_at = some (N.now torn.history);
    orphans = torn.orphans;
    final_logs = logs_by_rank text_of torn.logs [];
  }

  -- The part of `stop_deployment` under the lock, once the record is found.
  unfoldable pub stop_found : String → Deployment → World → Result (Option Deployment × World)
  unfolding teardown_entries rank_entries
  stop_found id r w =
      let entries = rank_entries r in
      let torn = teardown_entries N entries w.history in
      let frame : Frame = record {
        kind = deployment_stopped;
        deployment = id;
        text = text_append "stopped " (names entries);
      } in
      update_record R id (as_stopped torn)
        (record w { history = torn.history; frames = frame ∷ w.frames })

  abbrev pub stop_locked : String → Option Deployment × World → Result (Option Deployment × World)
  stop_locked id (none, w) = ok (none, w)
  stop_locked id (some r, w) = stop_found id r w

  -- A missing record is no stop; a pull is cancelled before the lock is taken, under which the
  -- record is read again.
  abbrev pub stop_checked : String → Option Deployment × World → Result (Option Deployment × World)
  stop_checked id (none, w) = ok (none, w)
  stop_checked id (some _, w) = do g ← get_deployment R id (cancel_pull id w).1; stop_locked id g

  unfoldable pub stop_deployment : String → World → Result (Option Deployment × World)
  unfolding get_deployment cancel_pull
  stop_deployment id w = do g ← get_deployment R id w; stop_checked id g

  abbrev pub other_than : String → Deployment → Bool
  other_than id r = not (str_eq r.id id)

  abbrev pub drop_record : String → World → Result (Bool × World)
  drop_record id w = do
    l ← load R w.store
    let remaining = keep (other_than id) l.0
    ok (
        if length remaining == length l.0
        then (false, record w { store = l.1 })
        else (true, record w { store = save remaining l.1 }))

  -- A rank that was not confirmed gone keeps the record.
  abbrev pub drop_stopped : String → Option Deployment × World → Result (Bool × World)
  drop_stopped id (none, w) = drop_record id w
  drop_stopped id (some r, w) = elim r.orphans [ [] ↦ drop_record id w | _ ∷ _ ↦ ok (false, w) ]

  abbrev pub delete_locked : String → Option Deployment × World → Result (Bool × World)
  delete_locked id (none, w) = ok (false, w)
  delete_locked id (some _, w) = do s ← stop_deployment id w; drop_stopped id s

  abbrev pub delete_checked : String → Option Deployment × World → Result (Bool × World)
  delete_checked id (none, w) = ok (false, w)
  delete_checked id (some _, w) = do
    g ← get_deployment R id (cancel_pull id w).1
    delete_locked id g

  unfoldable pub delete_deployment : String → World → Result (Bool × World)
  unfolding get_deployment stop_deployment cancel_pull
  delete_deployment id w = do g ← get_deployment R id w; delete_checked id g
