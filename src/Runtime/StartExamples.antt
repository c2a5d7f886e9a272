-- ===== src/Runtime/StartExamples.antt =====
-- Starting a run of two ranks, on machines that can and on one that cannot.
use spark_pulse.Prelude.{
  Option, ◌<◌, String, ◌≡◌, ◌⊎◌, inl, inr, refl, true, false, none, some, [], ◌∷◌, ◌++◌, map,
  str_eq, if◌then◌else◌, All, Any,
}
use spark_pulse.Prelude.Dict.{lookup, insert, select}
use spark_pulse.Prelude.Text.{strip}
use spark_pulse.Records.{
  Deployment, Status, fields_of, load, redact, redact_each, migrate, save, wanted, write_each,
}
use spark_pulse.Records.Examples.{base, store}
use spark_pulse.Runtime.Nodes.{
  Container, Nodes, got, raised, confirm_loop, confirm_gone, is_confirmed_gone, final_logs,
}
use spark_pulse.Runtime.Teardown.{
  insert_rank, by_rank, teardown_entry, teardown_rank, teardown_each, teardown_entries, orphan,
}
use spark_pulse.Runtime.Evidence.{evidence}
use spark_pulse.Runtime.Lifecycle.{
  World, find_record, update_first, get_deployment, update_record, is_torn_down, teardown_requested,
  pull_cancel_requested, logs_by_rank, rank_entries,
}
use spark_pulse.Runtime.Examples.{silent, calm, digits, world}
use spark_pulse.Runtime.Status.{error_text, record_error}
use spark_pulse.Runtime.Flow.{Outcome, done, broke}
use spark_pulse.Runtime.Plan.{RankPlan, Plan, reversed, start_order}
use spark_pulse.Runtime.Agents.{Agents, applied, image_here, Message}
use spark_pulse.Runtime.Reap.{service, reap, reap_each}
use spark_pulse.Runtime.Wait.{wait_ready, wait_rpc_workers}
use spark_pulse.Runtime.Gang.{
  Verdict, settled, create_rank, launch_rank, fail, tear_and_fail, abort, create_each, launch_each,
  mark_starting, start_locked,
}
use spark_pulse.Runtime.Traces.{Grows}
use spark_pulse.Runtime.Covering.{IsCovered}
use spark_pulse.Runtime.Failing.{start_locked-IsCovered}
use spark_pulse.Runtime.Stopped.{start_locked-torn, await_ready-torn}
use spark_pulse.Runtime.Start.{await_ready}
use spark_pulse.Runtime.Wait.{ready_round, ready_loop}
use spark_pulse.Runtime.Acts.{acts, creation, launching}
use spark_pulse.Runtime.Launching.{start_locked-order}
use spark_pulse.Runtime.Reaped.{reap_each-Seen}
use spark_pulse.Runtime.Listing.{Machine, judge_record}
use spark_pulse.Runtime.Marks.{IsLaunched, IsGoneHere, judge_record-evidence}

abbrev say : Message → String
say m = "said"

-- Every container comes up, and the engine answers in the fourth round at the latest.
abbrev able : Agents
able = record {
  list_managed = λ h node. got [];
  run_container = λ h r image. got tt;
  apply_mods = λ h r. applied;
  deploy_script = λ h r. applied;
  image_exists = λ h node ref. got true;
  registry_copy = λ ref. "";
  relayed_source = λ h node ref. none;
  pull_image = λ w node ref. (image_here, w);
  rpc_listening = λ h node port. true;
  rpc_rounds = λ h. 3;
  serve_alive = λ h r. some true;
  probe_ready = λ h. true;
  ready_rounds = λ h. 3;
}

-- The other machine makes no container.
abbrev unable : Agents
unable = record able {
  run_container = λ h r image. if str_eq r.node "" then got tt else raised "no such image";
}

abbrev head_rank : RankPlan
head_rank = record {
  entry = record { rank = 0; node = ""; host = "10.0.0.1"; container_name = "h"; is_head = true };
  image = "engine";
}

abbrev worker : RankPlan
worker = record {
  entry = record {
    rank = 1;
    node = "10.0.0.2";
    host = "10.0.0.2";
    container_name = "w";
    is_head = false;
  };
  image = "engine";
}

abbrev plan : Plan
plan = record {
  deployment_id = "d1";
  recipe_id = "qwen";
  name = "qwen";
  created_at = "t0";
  port = 8000;
  rendezvous_port = none;
  rpc_port = none;
  nodes = "10.0.0.2" ∷ [];
  launch_command = "serve";
  image_ref = "engine";
  container_name = "h";
  generation = 1;
  has_mods = false;
  rank_plans = head_rank ∷ worker ∷ [];
}

abbrev record_of : Outcome Verdict → Deployment
record_of (done (settled d, w)) = d
record_of _ = base

abbrev world_of : Outcome Verdict → World
world_of (done (v, w)) = w
world_of (broke e w) = w

abbrev failed : Outcome Verdict
failed = start_locked say digits silent calm unable base plan true world

start_locked-IsCovered_example :
    Grows
      (IsCovered (record_of failed).orphans [] (world_of failed).history)
      []
      (world_of failed).history
unfolding fields_of
start_locked-IsCovered_example =
    start_locked-IsCovered say digits silent calm unable base (record_of failed) base plan true
      world (world_of failed) (inl refl) (unfold find_record in refl)
      (unfold start_locked create_each create_rank abort tear_and_fail fail record_error error_text
          strip service teardown_requested pull_cancel_requested is_torn_down get_deployment
          update_record load migrate redact redact_each find_record update_first teardown_entries
          teardown_each teardown_rank teardown_entry final_logs confirm_gone confirm_loop
          is_confirmed_gone by_rank insert_rank orphan save wanted write_each lookup insert select
          logs_by_rank in
        refl)
      (unfold start_locked create_each create_rank abort tear_and_fail fail record_error error_text
          strip service teardown_requested pull_cancel_requested is_torn_down get_deployment
          update_record load migrate redact redact_each find_record update_first teardown_entries
          teardown_each teardown_rank teardown_entry final_logs confirm_gone confirm_loop
          is_confirmed_gone by_rank insert_rank orphan save wanted write_each lookup insert select
          logs_by_rank in
        refl)

abbrev halted : Deployment
halted = record base { status = Status.stopped }

abbrev halted_world : World
halted_world = record world { store = record store { rows = ("d1", fields_of halted) ∷ [] } }

start_locked-torn_example :
    (d : Deployment) × ((w' : World) × ((start_locked say digits silent calm able halted plan true
            halted_world
          ≡ done (settled d, w'))
        × ((d.status ≡ Status.stopped) × (w'.history ≡ []))))
unfolding fields_of
start_locked-torn_example =
    start_locked-torn say digits silent calm able halted plan true halted_world (inl refl)
      (inr (halted, unfold find_record in refl, refl))

abbrev started : Outcome Verdict
started = start_locked say digits silent calm able base plan true world

start_locked-order_example :
    acts (world_of started).history
    ≡ map launching plan.rank_plans ++ (map creation (reversed plan.rank_plans) ++ acts [])
start_locked-order_example =
    start_locked-order say digits silent calm able base plan world (world_of started) (
      unfold start_locked create_each create_rank launch_each launch_rank wait_rpc_workers
        mark_starting start_order reversed service teardown_requested pull_cancel_requested
        is_torn_down get_deployment update_record load migrate redact redact_each find_record
        update_first fields_of save wanted write_each lookup insert select in
      refl)

abbrev reaped : Outcome (Unit {0})
reaped = reap_each say calm able "" ("old" ∷ "older" ∷ []) world

abbrev left_by : Outcome (Unit {0}) → World
left_by (done (u, w)) = w
left_by (broke e w) = w

reap_each-Seen_example :
    All
      (λ name. evidence "" name [] < evidence "" name (left_by reaped).history)
      ("old" ∷ "older" ∷ [])
reap_each-Seen_example =
    reap_each-Seen say calm able "" ("old" ∷ "older" ∷ []) world (left_by reaped)
      (unfold reap_each reap confirm_gone confirm_loop is_confirmed_gone in refl)

abbrev pub machine : Machine
machine = record {
  list_containers = λ h. got [];
  is_local = λ address. false;
  has_stopped_at = λ r. true;
}

judge_record-evidence_example :
    (judge_record machine "t9" [] base ≡ base)
    ⊎ ((t : Option String) × (judge_record machine "t9" [] base
          ≡ record base { status = Status.stopped; stopped_at = t })
        × ((t ≡ base.stopped_at) ⊎ ((machine.has_stopped_at base ≡ false) × (t ≡ some "t9")))
        × IsLaunched Status.running (some "t1")
        × Any (IsGoneHere machine []) (rank_entries base))
judge_record-evidence_example = judge_record-evidence machine "t9" [] base

-- Every container runs.
abbrev upright : Nodes
upright = record calm { status = λ h node name. got Container.running }

abbrev waited : World → World
waited w = left_by (wait_ready say upright able plan w)

-- A stop that comes while the start waits.
abbrev halting : World → World
halting w = record w { store = halted_world.store }

await_ready-torn_example :
    (q : Deployment) × ((w' : World) × ((await_ready say digits silent upright able halting base
            plan world
          ≡ done (settled q, w'))
        × ((q.status ≡ Status.stopped) × (w'.history ≡ (halting (waited world)).history))))
unfolding fields_of
await_ready-torn_example =
    await_ready-torn say digits silent upright able halting base plan "" world (waited world)
      (inl (unfold wait_ready ready_loop ready_round service in refl)) (inl refl)
      (inr (halted, unfold find_record in refl, refl))
