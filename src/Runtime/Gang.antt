-- ===== src/Runtime/Gang.antt =====
-- The part of `start` that holds the lock of a deployment (spark_pulse/tools/native_runtime.py):
-- every container is created, then every rank is launched, and a failure tears down what there is.
use spark_pulse.Prelude.{
  ℕ, String, Bool, true, false, ◌&&◌, some, List, [], ◌∷◌, ◌++◌, map, any, str_eq, or_default,
  if◌then◌else◌, ◌==◌,
}
use spark_pulse.Records.{Deployment, Status, Redactor}
use spark_pulse.Runtime.Nodes.{Answer, got, raised, ran, modded, launched, Nodes}
use spark_pulse.Runtime.Teardown.{TornDown, teardown_entries}
use spark_pulse.Runtime.Lifecycle.{
  World, deployment_stopped, deployment_container_started, deployment_mods_applied,
  deployment_serving, update_record, teardown_requested, logs_by_rank,
}
use spark_pulse.Runtime.Status.{error_text, record_error}
use spark_pulse.Runtime.Flow.{
  native, pull_cancelled, foreign, Outcome, done, broke, ◌>>=◌, lift, publish,
}
use spark_pulse.Runtime.Plan.{RankPlan, Plan, rank_record, teardown_order, start_order}
use spark_pulse.Runtime.Agents.{
  Agents, Applied, applied, refused, crashed, Message, container_failed, container_started,
  mods_applied, launch_failed, rank_failed, deploy_cancelled, serving,
}
use spark_pulse.Runtime.Reap.{noted, service}
use spark_pulse.Runtime.Wait.{wait_rpc_workers}

-- How far a phase came: on to the next, or to the record that `start` returns.
pub data Verdict : Type 0 where
  goes_on : Verdict
  settled : Deployment → Verdict

abbrev pub next : (World → Outcome Verdict) → Verdict × World → Outcome Verdict
next k (goes_on, w) = k w
next k (settled d, w) = done (settled d, w)

-- `except NativeRuntimeError`
abbrev pub caught : Outcome (Unit {0}) → (String → World → Outcome Verdict) → Outcome Verdict
caught (done (u, w)) handler = done (goes_on, w)
caught (broke (native e) w) handler = handler e w
caught (broke (pull_cancelled e) w) handler = broke (pull_cancelled e) w
caught (broke (foreign e) w) handler = broke (foreign e) w

abbrev same_flag : Bool → Bool → Bool
same_flag true b = b
same_flag false true = false
same_flag false false = true

-- `==` on rank plans.
abbrev pub same_plan : RankPlan → RankPlan → Bool
same_plan r q =
    str_eq q.entry.node r.entry.node
    && (str_eq q.entry.container_name r.entry.container_name
        && (q.entry.rank == r.entry.rank
            && (str_eq q.entry.host r.entry.host
                && (same_flag q.entry.is_head r.entry.is_head && str_eq q.image r.image))))

-- `[*touched] if rank_plan in touched else [*touched, rank_plan]`
abbrev pub pending_ranks : List RankPlan → RankPlan → List RankPlan
pending_ranks touched r = if any (same_plan r) touched then touched else touched ++ r ∷ []

module _ (say : Message → String) (text_of : ℕ → String) (R : Redactor) (N : Nodes)
    (A : Agents) where
  abbrev pub judge_mods : Plan → Applied → World → Outcome (Unit {0})
  judge_mods p applied w =
      done (tt, publish deployment_mods_applied p.deployment_id (say mods_applied) w)
  judge_mods p (refused e) w = broke (native e) w
  judge_mods p (crashed e) w = broke (foreign e) w

  -- Without mods the node is asked nothing.
  abbrev pub modify : Plan → RankPlan → World → Outcome (Unit {0})
  modify p r w =
      if p.has_mods
      then judge_mods p (A.apply_mods w.history r.entry)
          (noted (modded r.entry.node r.entry.container_name) w)
      else done (tt, w)

  abbrev pub judge_ran : Plan → RankPlan → Answer (Unit {0}) → World → Outcome (Unit {0})
  judge_ran p r (raised e) w = broke (native (say (container_failed r.entry.container_name e))) w
  judge_ran p r (got u) w = modify p r (
      publish deployment_container_started p.deployment_id
        (say (container_started r.entry.container_name r.image)) w)

  -- `_create_rank`, but for the directories of the mounts, whose failure is a warning.
  unfoldable pub create_rank : Plan → RankPlan → World → Outcome (Unit {0})
  create_rank p r w =
      let answer = A.run_container w.history r.entry r.image in
      judge_ran p r answer (noted (ran r.entry.rank r.entry.node r.entry.container_name answer) w)

  abbrev pub judge_script : RankPlan → Applied → World → Outcome (Unit {0})
  judge_script r applied w = done (tt, w)
  judge_script r (refused e) w = broke (native e) w
  judge_script r (crashed e) w = broke (native (say (launch_failed r.entry.container_name e))) w

  unfoldable pub launch_rank : RankPlan → World → Outcome (Unit {0})
  launch_rank r w =
      judge_script r (A.deploy_script w.history r.entry)
        (noted (launched r.entry.node r.entry.container_name) w)

  -- `_record_error(...) or {...}`
  unfoldable pub fail :
      (planned : Deployment) → String → (Deployment → Deployment) → World → Outcome Verdict
  unfolding record_error
  fail planned message f w = do
    u ← lift w (record_error R N planned.id message f w)
    done (
      settled (
          or_default u.0
            (record planned { status = Status.error; error_message = some (error_text message) })),
      u.1,
    )

  -- What `_abort` and `_fail_launched_gang` write besides.
  abbrev pub left_by : TornDown → Deployment → Deployment
  left_by torn r = record r {
    orphans = torn.orphans;
    final_logs = logs_by_rank text_of torn.logs [];
  }

  unfoldable pub tear_and_fail :
      (planned : Deployment) → List RankPlan → String → World → Outcome Verdict
  unfolding teardown_entries
  tear_and_fail planned ranks message w =
      let torn = teardown_entries N (map rank_record ranks) w.history in
      fail planned message (left_by torn) (record w { history = torn.history })

  unfoldable pub abort :
      (planned : Deployment)
      → (touched : List RankPlan) → RankPlan
      → (phase cause : String) → World
      → Outcome Verdict
  unfolding tear_and_fail
  abort planned touched r phase cause w =
      tear_and_fail planned (pending_ranks touched r)
        (say (rank_failed r.entry.rank r.entry.node phase cause)) w

  abbrev pub as_cancelled : World → Deployment → Deployment
  as_cancelled w r = record r { status = Status.stopped; stopped_at = some (N.now w.history) }

  -- The record of a start that a teardown cut short.
  unfoldable pub settle_stopped : (planned : Deployment) → String → World → Outcome Verdict
  unfolding update_record
  settle_stopped planned message w = do
    let told = publish deployment_stopped planned.id message w
    u ← lift told (update_record R planned.id (as_cancelled told) told)
    done (settled (or_default u.0 (record planned { status = Status.stopped })), u.1)

  -- `_cancelled`; it does not read what the teardown leaves outstanding.
  unfoldable pub cancelled :
      (planned : Deployment) → (touched : List RankPlan) → World → Outcome Verdict
  unfolding teardown_entries settle_stopped
  cancelled planned touched w =
      let torn = teardown_entries N (map rank_record touched) w.history in
      settle_stopped planned (say deploy_cancelled) (record w { history = torn.history })

  -- A re-check of the record.
  abbrev pub unless_requested :
      (planned : Deployment)
      → (touched : List RankPlan) → (World → Outcome Verdict)
      → Bool × World
      → Outcome Verdict
  unless_requested planned touched k (true, w) = cancelled planned touched w
  unless_requested planned touched k (false, w) = k w

  abbrev pub create_one :
      (planned : Deployment) → Plan → (touched : List RankPlan) → RankPlan → World → Outcome Verdict
  create_one planned p touched r w =
      caught (do a ← service N r.entry.node w; create_rank p r a.1)
        (abort planned touched r "start")

  -- `touched` are the ranks that were created, in the order of the teardown.
  unfoldable pub create_each :
      (planned : Deployment) → Plan → (touched ranks : List RankPlan) → World → Outcome Verdict
  unfolding create_rank abort
  create_each planned p touched [] w = done (goes_on, w)
  create_each planned p touched (r ∷ rs) w = do
    a ← create_one planned p touched r w
    next (create_each planned p (touched ++ r ∷ []) rs) a

  abbrev pub await_workers : Plan → Bool → World → Outcome (Unit {0})
  await_workers p true w = wait_rpc_workers say N A p w
  await_workers p false w = done (tt, w)

  abbrev pub launch_one :
      (planned : Deployment) → Plan → (touched : List RankPlan) → RankPlan → World → Outcome Verdict
  launch_one planned p touched r w =
      caught
        (do
          a ← await_workers p r.entry.is_head w
          b ← service N r.entry.node a.1
          launch_rank r b.1)
        (abort planned touched r "launch")

  unfoldable pub launch_each :
      (planned : Deployment) → Plan → (touched ranks : List RankPlan) → World → Outcome Verdict
  unfolding launch_rank abort
  launch_each planned p touched [] w = done (goes_on, w)
  launch_each planned p touched (r ∷ rs) w = do
    a ← launch_one planned p touched r w
    next (launch_each planned p touched rs) a

  abbrev pub as_starting : World → Deployment → Deployment
  as_starting w r = record r { status = Status.starting; started_at = some (N.now w.history) }

  -- After the last launch. Without a wait, this is the end of `start`.
  unfoldable pub mark_starting :
      (planned : Deployment) → Plan → (wait : Bool) → World → Outcome Verdict
  unfolding update_record
  mark_starting planned p wait w = do
    u ← lift w (update_record R planned.id (as_starting w) w)
    let told = publish deployment_serving planned.id (say serving) u.1
    done (if wait then goes_on else settled (or_default u.0 planned), told)

  abbrev pub launch_all : (planned : Deployment) → Plan → (wait : Bool) → World → Outcome Verdict
  launch_all planned p wait w = do
    a ← launch_each planned p (teardown_order p) (start_order p) w
    next (mark_starting planned p wait) a

  -- Every container exists, and none serves.
  abbrev pub recheck : (planned : Deployment) → Plan → (wait : Bool) → World → Outcome Verdict
  recheck planned p wait w = do
    t ← lift w (teardown_requested R planned.id w)
    unless_requested planned (teardown_order p) (launch_all planned p wait) t

  abbrev pub create_all : (planned : Deployment) → Plan → (wait : Bool) → World → Outcome Verdict
  create_all planned p wait w = do
    a ← create_each planned p [] (teardown_order p) w
    next (recheck planned p wait) a

  -- The section of `start` under the lifecycle lock.
  unfoldable pub start_locked :
      (planned : Deployment) → Plan → (wait : Bool) → World → Outcome Verdict
  unfolding create_each launch_each start_order mark_starting
  start_locked planned p wait w = do
    t ← lift w (teardown_requested R planned.id w)
    unless_requested planned [] (create_all planned p wait) t
