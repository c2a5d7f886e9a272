-- ===== src/Runtime/Listing.antt =====
-- `list_deployments` of spark_pulse/tools/native_runtime.py: the records, judged by the containers
-- of this machine, and the containers that no record knows.
use Prim.Native.String.{[] as text_end, ◌∷◌ as text_cons}
use text.Mathlib.Text.{starts_with}
use spark_pulse.Prelude.{
  ℕ, zero, suc, String, Bool, true, false, not, ◌&&◌, ◌||◌, Option, none, some, List, [], ◌∷◌, ◌++◌,
  map, keep, any, or_text, truthy, str_eq, if◌then◌else◌, ◌==◌,
}
use spark_pulse.Records.{Deployment, Status, Rank, Result, ok, err, ◌>>=◌, Redactor, load, save}
use spark_pulse.Runtime.Nodes.{
  Answer, got, raised, Container, running, created, listed, History, Nodes,
}
use spark_pulse.Runtime.Lifecycle.{World, rank_entries}
use spark_pulse.Runtime.Sweep.{sweep_orphans}

-- A container that this machine's daemon lists. A label that is absent is "" or zero.
pub record Listed : Type 0 where
  pub name : String
  pub status : Container
  pub deployment : String
  pub recipe : String
  pub created_at : String
  pub rank : ℕ
  pub generation : ℕ

pub record Machine : Type 0 where
  pub list_containers : History → Answer (List Listed)
  -- `is_local_address`, which counts as no where it raises
  pub is_local : String → Bool
  -- whether the stored record has the key `stopped_at`, with a time or with None
  pub has_stopped_at : Deployment → Bool

abbrev pub is_alive : Container → Bool
is_alive running = true
is_alive created = true
is_alive _ = false

-- `by_name.get(name)`: the last of a name.
abbrev latest : Option Listed → Listed → Option Listed
latest none c = some c
latest (some d) c = some d

unfoldable pub by_name : String → List Listed → Option Listed
by_name name [] = none
by_name name (c ∷ cs) =
    let later = by_name name cs in if str_eq c.name name then latest later c else later

abbrev pub is_lost : Option Listed → Bool
is_lost none = true
is_lost (some c) = not (is_alive c.status)

unfoldable pub text_drop : ℕ → String → String
text_drop zero s = s
text_drop (suc n) text_end = text_end
text_drop (suc n) (text_cons c s) = text_drop n s

-- `CONTAINER_PREFIX`
abbrev pub container_prefix : String
container_prefix = "spark-pulse-"

-- A record that `start` still owns, or that is finished.
abbrev pub is_exempt : Status → Option String → Bool
is_exempt Status.stopped started = true
is_exempt Status.error started = true
is_exempt Status.pulling started = true
is_exempt Status.starting none = true
is_exempt Status.starting (some t) = not (truthy t)
is_exempt _ started = false

module _ (M : Machine) where
  -- `_rank_is_here`
  abbrev pub is_here : Rank → Bool
  is_here r = not (truthy r.node) || M.is_local r.node

  abbrev pub is_evidence : List Listed → Rank → Bool
  is_evidence cs r = is_here r && is_lost (by_name r.container_name cs)

  -- `record.setdefault("stopped_at", _now())`
  abbrev pub stopped_time : (now : String) → Deployment → Option String
  stopped_time now r = if M.has_stopped_at r then r.stopped_at else some now

  -- One round of the first loop.
  unfoldable pub judge_record : (now : String) → List Listed → Deployment → Deployment
  unfolding by_name rank_entries
  judge_record now cs r =
      if not (is_exempt r.status r.started_at) && any (is_evidence cs) (rank_entries r)
      then record r { status = Status.stopped; stopped_at = stopped_time now r }
      else r

  abbrev pub id_of : Listed → String
  id_of c = or_text c.deployment (text_drop 12 c.name)

  abbrev pub adopted_status : Container → Status
  adopted_status running = Status.running
  adopted_status _ = Status.stopped

  -- The record of a container that no record knows.
  unfoldable pub adopt : (now : String) → Listed → Deployment
  unfolding text_drop
  adopt now c = record {
    id = id_of c;
    name = or_text c.recipe (id_of c);
    status = adopted_status c.status;
    runtime = "native";
    created_at = or_text c.created_at now;
    started_at = if truthy c.created_at then some c.created_at else none;
    ready_at = none;
    stopped_at = none;
    error_message = none;
    port = none;
    rendezvous_port = none;
    rpc_port = none;
    nodes = [];
    ranks =
        record {
          rank = c.rank;
          node = "";
          host = "";
          container_name = c.name;
          is_head = c.rank == 0;
        }
        ∷ [];
    orphans = [];
    container_name = c.name;
    generation = c.generation;
    reconciled = true;
    launch_command = "";
    final_logs = [];
    sync = "";
    sync_reason = "";
    sync_intent = "";
  }

  abbrev is_id : String → Deployment → Bool
  is_id id r = str_eq r.id id

  -- The ids that are known are those of the records that were loaded.
  unfoldable pub adopt_each : (now : String) → List Deployment → List Listed → List Deployment
  unfolding adopt
  adopt_each now known [] = []
  adopt_each now known (c ∷ cs) =
      let rest = adopt_each now known cs in
      if starts_with container_prefix c.name && not (any (is_id (id_of c)) known)
      then adopt now c ∷ rest
      else rest

  abbrev pub is_native : Deployment → Bool
  is_native r = str_eq r.runtime "native"

  abbrev pub changes : List Listed → Deployment → Bool
  changes cs r = not (is_exempt r.status r.started_at) && any (is_evidence cs) (rank_entries r)

  abbrev pub judge_native : (now : String) → List Listed → Deployment → Deployment
  judge_native now cs r = if is_native r then judge_record now cs r else r

  -- Whether there is anything to save.
  abbrev pub is_changed : List Listed → List Deployment → List Deployment → Bool
  is_changed cs native [] = any (changes cs) native
  is_changed cs native (a ∷ adopted) = true

  module _ (R : Redactor) (N : Nodes) where
    -- An error of the sweep is swallowed.
    abbrev pub swept : World → World
    swept w = elim (sweep_orphans R N "" w) [ ok a ↦ a.1 | err e ↦ w ]

    abbrev pub judge_listing :
        List Deployment → Answer (List Listed) → World → List Deployment × World
    judge_listing records (raised e) w = (keep is_native records, w)
    judge_listing records (got cs) w =
        let native = keep is_native records in
        let now = N.now w.history in
        let adopted = adopt_each now native cs in
        let judged = map (judge_record now cs) native ++ adopted in
        let all = map (judge_native now cs) records ++ adopted in
        (
          judged,
          swept (if is_changed cs native adopted then record w { store = save all w.store } else w),
        )

    unfoldable pub list_deployments : World → Result (List Deployment × World)
    unfolding judge_record adopt_each sweep_orphans
    list_deployments w = do
      l ← load R w.store
      ok (
          judge_listing l.0 (M.list_containers w.history)
            (record w { store = l.1; history = listed "" ∷ w.history }))
