-- ===== src/Runtime/Create.antt =====
-- `create_deployment` and its threads (spark_pulse/tools/native_runtime.py), once the plan is made.
use spark_pulse.Prelude.{ℕ, String, Bool, true, false, List, [], ◌∷◌, truthy, if◌then◌else◌}
use spark_pulse.Records.{Status, finished, Redactor}
use spark_pulse.Runtime.Nodes.{Nodes}
use spark_pulse.Runtime.Lifecycle.{World, deployment_ready, update_record, is_torn_down}
use spark_pulse.Runtime.Status.{record_error}
use spark_pulse.Runtime.Flow.{
  Fault, native, pull_cancelled, foreign, Outcome, done, broke, ◌>>=◌, lift, publish,
}
use spark_pulse.Runtime.Plan.{Plan, persist_planned_record, record_from_plan, pull_targets}
use spark_pulse.Runtime.Agents.{Agents, Message, failed_to_start, ready}
use spark_pulse.Runtime.Reap.{service}
use spark_pulse.Runtime.Pull.{upstream_ref, image_on_node}
use spark_pulse.Runtime.Wait.{wait_ready}
use spark_pulse.Runtime.Gang.{Verdict, goes_on, settled, tear_and_fail}
use spark_pulse.Runtime.Start.{start, as_running}

-- The thread that is started when the call returns.
pub data Thread : Type 0 where
  no_thread watching pulling : Thread

-- What a fault says.
abbrev pub fault_text : Fault → String
fault_text (native e) = e
fault_text (pull_cancelled e) = e
fault_text (foreign e) = e

module _ (say : Message → String) (text_of : ℕ → String) (R : Redactor) (N : Nodes) (A : Agents)
    (meanwhile : World → World) where
  -- One round of `_image_missing`: an error is not evidence.
  abbrev pub is_missing : Outcome String → (World → Bool × World) → Bool × World
  is_missing (broke e w) rest = rest w
  is_missing (done (name, w)) rest = if truthy name then rest w else (true, w)

  unfoldable pub missing_on : List String → (ref : String) → World → Bool × World
  unfolding image_on_node
  missing_on [] ref w = (false, w)
  missing_on (node ∷ nodes) ref w =
      is_missing (do a ← service N node w; image_on_node say R N A node ref a.1)
        (missing_on nodes ref)

  unfoldable pub image_missing : Plan → World → Bool × World
  unfolding missing_on pull_targets upstream_ref
  image_missing p w = missing_on (pull_targets p) (upstream_ref p) w

  -- The verdict of a teardown stands.
  abbrev pub left_alone : (World → Outcome (Unit {0})) → Bool × World → Outcome (Unit {0})
  left_alone k (true, w) = done (tt, w)
  left_alone k (false, w) = k w

  abbrev pub unless_torn : String → (World → Outcome (Unit {0})) → World → Outcome (Unit {0})
  unless_torn id k w = do t ← lift w (is_torn_down R id w); left_alone k t

  abbrev pub without_record : Outcome Verdict → Outcome (Unit {0})
  without_record (done (v, w)) = done (tt, w)
  without_record (broke e w) = broke e w

  abbrev pub mark_running : String → World → Outcome (Unit {0})
  mark_running id w = do
    u ← lift w (update_record R id (as_running say text_of R N A meanwhile w) w)
    done (tt, publish deployment_ready id (say ready) u.1)

  abbrev pub judge_watch : Plan → Outcome (Unit {0}) → Outcome (Unit {0})
  judge_watch p (done (u, w)) =
      unless_torn p.deployment_id (mark_running p.deployment_id) (meanwhile w)
  judge_watch p (broke (native e) w) =
      unless_torn p.deployment_id
        (λ v.
          without_record
            (tear_and_fail say text_of R N A (record_from_plan p Status.starting) p.rank_plans e v))
        (meanwhile w)
  judge_watch p (broke (pull_cancelled e) w) = broke (pull_cancelled e) w
  judge_watch p (broke (foreign e) w) = broke (foreign e) w

  -- `_watch`
  unfoldable pub watch : Plan → World → Outcome (Unit {0})
  unfolding wait_ready is_torn_down update_record tear_and_fail
  watch p w = judge_watch p (wait_ready say N A p w)

  abbrev pub record_failure : String → String → World → Outcome (Unit {0})
  record_failure id text w = do u ← lift w (record_error R N id text (λ r. r) w); done (tt, u.1)

  abbrev pub judge_started : Plan → Outcome Verdict → Outcome (Unit {0})
  judge_started p (broke e w) =
      unless_torn p.deployment_id
        (record_failure p.deployment_id (say (failed_to_start (fault_text e)))) w
  judge_started p (done (goes_on, w)) = watch p w
  judge_started p (done (settled d, w)) = if finished d.status then done (tt, w) else watch p w

  -- `_pull_then_start`
  unfoldable pub pull_then_start : Plan → World → Outcome (Unit {0})
  unfolding start record_error watch
  pull_then_start p w = judge_started p (start say text_of R N A meanwhile p false Status.pulling w)

  abbrev pub is_error : Status → Bool
  is_error Status.error = true
  is_error _ = false

  abbrev pub judge_inline : Outcome Verdict → Outcome (Verdict × Thread)
  judge_inline (broke e w) = broke e w
  judge_inline (done (goes_on, w)) = done ((goes_on, watching), w)
  judge_inline (done (settled d, w)) =
      done ((settled d, if is_error d.status then no_thread else watching), w)

  abbrev pub with_no_thread : Outcome Verdict → Outcome (Verdict × Thread)
  with_no_thread (broke e w) = broke e w
  with_no_thread (done (v, w)) = done ((v, no_thread), w)

  abbrev pub judge_missing : Plan → Bool × World → Outcome (Verdict × Thread)
  judge_missing p (true, w) = do
    a ← lift w (persist_planned_record R p Status.pulling w)
    done ((settled a.0, pulling), a.1)
  judge_missing p (false, w) =
      judge_inline (start say text_of R N A meanwhile p false Status.starting w)

  -- What it returns, and the thread that goes on.
  unfoldable pub create_deployment : Plan → (wait : Bool) → World → Outcome (Verdict × Thread)
  unfolding start image_missing persist_planned_record
  create_deployment p true w =
      with_no_thread (start say text_of R N A meanwhile p true Status.starting w)
  create_deployment p false w = judge_missing p (image_missing p w)
