-- ===== src/Runtime/Start.antt =====
-- `start` and `_fail_launched_gang` in spark_pulse/tools/native_runtime.py.
use spark_pulse.Prelude.{ℕ, String, Bool, true, false, none, some, [], or_default}
use spark_pulse.Records.{Deployment, Status, Redactor}
use spark_pulse.Runtime.Nodes.{Nodes}
use spark_pulse.Runtime.Lifecycle.{
  World, deployment_planned, deployment_ready, get_deployment, update_record, is_torn_down,
}
use spark_pulse.Runtime.Flow.{
  native, pull_cancelled, foreign, Outcome, done, broke, ◌>>=◌, lift, publish,
}
use spark_pulse.Runtime.Plan.{Plan, persist_planned_record, pull_targets}
use spark_pulse.Runtime.Agents.{Agents, Message, planned, unreachable, pulls_failed, ready}
use spark_pulse.Runtime.Reap.{reap_earlier_generations}
use spark_pulse.Runtime.Pull.{pull_each}
use spark_pulse.Runtime.Wait.{wait_ready}
use spark_pulse.Runtime.Gang.{
  Verdict, settled, next, fail, tear_and_fail, settle_stopped, start_locked,
}

-- `meanwhile` is what other threads make of the world before this one holds the lock.
module _ (say : Message → String) (text_of : ℕ → String) (R : Redactor) (N : Nodes) (A : Agents)
    (meanwhile : World → World) where
  abbrev pub no_more : Deployment → Deployment
  no_more r = record r { orphans = []; final_logs = [] }

  abbrev pub judge_pulls :
      Deployment → Outcome Plan → (Plan → World → Outcome Verdict) → Outcome Verdict
  judge_pulls d (done (p, w)) k = k p w
  judge_pulls d (broke (pull_cancelled e) w) k = settle_stopped say text_of R N A d e w
  judge_pulls d (broke (native e) w) k = fail say text_of R N A d e no_more w
  judge_pulls d (broke (foreign e) w) k = fail say text_of R N A d (say (pulls_failed e)) no_more w

  abbrev pub judge_reaping :
      Deployment → Outcome (Unit {0}) → (World → Outcome Verdict) → Outcome Verdict
  judge_reaping d (done (u, w)) k = k w
  judge_reaping d (broke (native e) w) k = fail say text_of R N A d e no_more w
  judge_reaping d (broke (pull_cancelled e) w) k =
      fail say text_of R N A d (say (unreachable e)) no_more w
  judge_reaping d (broke (foreign e) w) k = fail say text_of R N A d (say (unreachable e)) no_more w

  -- `get_deployment(...) or {...}`
  abbrev pub torn_record : Deployment → World → Outcome Verdict
  torn_record d w = do
    g ← lift w (get_deployment R d.id w)
    done (settled (or_default g.0 (record d { status = Status.stopped })), g.1)

  abbrev pub as_running : World → Deployment → Deployment
  as_running w r = record r {
    status = Status.running;
    ready_at = some (N.now w.history);
    error_message = none;
  }

  abbrev pub settle_ready : Deployment → World → Outcome Verdict
  settle_ready d w = do
    let told = publish deployment_ready d.id (say ready) w
    u ← lift told (update_record R d.id (as_running told) told)
    done (settled (or_default u.0 d), u.1)

  abbrev pub unless_torn : Deployment → (World → Outcome Verdict) → Bool × World → Outcome Verdict
  unless_torn d k (true, w) = torn_record d w
  unless_torn d k (false, w) = k w

  abbrev pub locked_unless_torn : Deployment → (World → Outcome Verdict) → World → Outcome Verdict
  locked_unless_torn d k w = do t ← lift w (is_torn_down R d.id w); unless_torn d k t

  -- What follows the wait for readiness, with the lock held again.
  abbrev pub judge_ready : Deployment → Plan → Outcome (Unit {0}) → Outcome Verdict
  judge_ready d p (done (u, w)) = locked_unless_torn d (settle_ready d) (meanwhile w)
  judge_ready d p (broke (native e) w) =
      locked_unless_torn d (tear_and_fail say text_of R N A d p.rank_plans e) (meanwhile w)
  judge_ready d p (broke (pull_cancelled e) w) = broke (pull_cancelled e) w
  judge_ready d p (broke (foreign e) w) = broke (foreign e) w

  unfoldable pub await_ready : Deployment → Plan → World → Outcome Verdict
  unfolding wait_ready tear_and_fail is_torn_down update_record get_deployment
  await_ready d p w = judge_ready d p (wait_ready say N A p w)

  abbrev pub locked_then_wait : Deployment → (wait : Bool) → Plan → World → Outcome Verdict
  locked_then_wait d wait p w = do
    a ← start_locked say text_of R N A d p wait (meanwhile w)
    next (await_ready d p) a

  -- The pulls, and what follows them.
  abbrev pub pull_then_lock : Deployment → Plan → (wait : Bool) → World → Outcome Verdict
  pull_then_lock d p wait w =
      judge_pulls d (pull_each say R N A (pull_targets p) p w) (locked_then_wait d wait)

  -- `start`, once the record is written
  unfoldable pub start_planned : Deployment → Plan → (wait : Bool) → World → Outcome Verdict
  unfolding reap_earlier_generations pull_each pull_targets fail settle_stopped start_locked
      await_ready
  start_planned d p wait w =
      judge_reaping d
        (reap_earlier_generations say N A text_of p
          (publish deployment_planned d.id (say planned) w))
        (pull_then_lock d p wait)

  unfoldable pub start : Plan → (wait : Bool) → (initial : Status) → World → Outcome Verdict
  unfolding persist_planned_record start_planned
  start p wait initial w = do
    a ← lift w (persist_planned_record R p initial w)
    start_planned a.0 p wait a.1
