-- ===== src/Runtime/Pull.antt =====
-- Pulling the image of a plan to each node (`_image_on_node`, `_pull_with_retries`,
-- `_pull_from_registry` and `_pull_image_if_missing` in spark_pulse/tools/native_runtime.py).
use spark_pulse.Prelude.{
  ℕ, zero, suc, ◌+◌, ◌-◌, String, Bool, true, false, Option, none, some, List, [], ◌∷◌, truthy,
  or_text, if◌then◌else◌,
}
use spark_pulse.Records.{Deployment, Status, Redactor}
use spark_pulse.Runtime.Nodes.{Answer, got, raised, asked_image, pulled, Nodes}
use spark_pulse.Runtime.Lifecycle.{
  World, image_pull_started, image_pull_progress, image_pull_cancelled, image_pull_failed,
  image_pull_completed, update_record, register_pull, unregister_pull, teardown_requested,
}
use spark_pulse.Runtime.Flow.{
  native, pull_cancelled, foreign, Outcome, done, broke, ◌>>=◌, lift, publish,
}
use spark_pulse.Runtime.Plan.{RankPlan, Plan, run_from}
use spark_pulse.Runtime.Agents.{
  Agents, PullEnd, image_here, cancelled_pull, failed_pull, Message, pull_started, pull_done,
  retrying, pull_failed, from_upstream,
}
use spark_pulse.Runtime.Reap.{noted, service}

-- `PULL_ATTEMPTS`
abbrev pub pull_attempts : ℕ
pull_attempts = 3

-- `_upstream_ref`; the head's image stands for the plan's container.
abbrev head_image : List RankPlan → String
head_image [] = ""
head_image (r ∷ rs) = r.image

unfoldable pub upstream_ref : Plan → String
upstream_ref p = or_text p.image_ref (head_image p.rank_plans)

module _ (say : Message → String) (R : Redactor) (N : Nodes) (A : Agents) where
  abbrev pub found_copy : String → Answer Bool → World → Outcome String
  found_copy copy (raised e) w = broke (foreign e) w
  found_copy copy (got there) w = done (if there then copy else "", w)

  abbrev pub found_image : (node ref : String) → Answer Bool → World → Outcome String
  found_image node ref (raised e) w = broke (foreign e) w
  found_image node ref (got true) w = done (ref, w)
  found_image node ref (got false) w =
      let copy = A.registry_copy ref in
      let asked = noted (asked_image node copy) w in
      if truthy copy
      then found_copy copy (A.image_exists w.history node copy) asked
      else done ("", w)

  -- `_image_on_node`: the name that the image is present under, or "".
  unfoldable pub image_on_node : (node ref : String) → World → Outcome String
  image_on_node node ref w =
      found_image node ref (A.image_exists w.history node ref) (noted (asked_image node ref) w)

  -- A failure is retried, unless a teardown was requested or the attempts are spent. `left` is the
  -- number of attempts after this one.
  abbrev pub after_failure :
      (id ref node cause : String)
      → (attempt : ℕ) → (retry : World → Outcome (Unit {0})) → Bool × World
      → Outcome (Unit {0})
  after_failure id ref node cause attempt retry (true, w) =
      broke (pull_cancelled (say (Message.pull_cancelled ref))) w
  after_failure id ref node cause attempt retry (false, w) = retry w

  abbrev pub retry_or_fail :
      (id ref node cause : String)
      → (attempt left : ℕ) → (World → Outcome (Unit {0}))
      → World
      → Outcome (Unit {0})
  retry_or_fail id ref node cause attempt zero again w =
      let text = say (pull_failed ref node cause attempt) in
      broke (native text) (publish image_pull_failed id text w)
  retry_or_fail id ref node cause attempt (suc left) again w =
      again (publish image_pull_progress id (say (retrying ref node cause (attempt + 1))) w)

  abbrev pub judge_pull :
      (id ref node : String)
      → (attempt left : ℕ) → (again : World → Outcome (Unit {0})) → PullEnd × World
      → Outcome (Unit {0})
  judge_pull id ref node attempt left again (image_here, w) = done (tt, w)
  judge_pull id ref node attempt left again (cancelled_pull, w) =
      let text = say (Message.pull_cancelled ref) in
      broke (pull_cancelled text) (publish image_pull_cancelled id text w)
  judge_pull id ref node attempt left again (failed_pull e, w) = do
    t ← lift w (teardown_requested R id w)
    after_failure id ref node e attempt (retry_or_fail id ref node e attempt left again) t

  -- The rounds of `_pull_with_retries` from the given attempt.
  unfoldable pub pull_rounds :
      (id ref node : String) → (attempt left : ℕ) → World → Outcome (Unit {0})
  pull_rounds id ref node attempt zero w =
      judge_pull id ref node attempt zero (λ v. done (tt, v))
        (A.pull_image (noted (pulled node ref) w) node ref)
  pull_rounds id ref node attempt (suc left) w =
      judge_pull id ref node attempt (suc left) (pull_rounds id ref node (attempt + 1) left)
        (A.pull_image (noted (pulled node ref) w) node ref)

  unfoldable pub pull_with_retries : (id ref node : String) → World → Outcome (Unit {0})
  unfolding pull_rounds
  pull_with_retries id ref node w = pull_rounds id ref node 1 (pull_attempts - 1) w

  abbrev pub fall_back : (id copy ref node cause : String) → Bool × World → Outcome String
  fall_back id copy ref node cause (true, v) =
      broke (pull_cancelled (say (Message.pull_cancelled copy))) v
  fall_back id copy ref node cause (false, v) =
      done ("", publish image_pull_progress id (say (from_upstream copy node cause ref)) v)

  abbrev pub judge_copy : (id copy ref node : String) → PullEnd × World → Outcome String
  judge_copy id copy ref node (image_here, w) = done (copy, w)
  judge_copy id copy ref node (cancelled_pull, w) =
      broke (pull_cancelled (say (Message.pull_cancelled copy))) w
  judge_copy id copy ref node (failed_pull e, w) = do
    t ← lift w (teardown_requested R id w)
    fall_back id copy ref node e t

  abbrev pub from_source : (id ref node : String) → Option String → World → Outcome String
  from_source id ref node none w = done ("", w)
  from_source id ref node (some copy) w =
      judge_copy id copy ref node (A.pull_image (noted (pulled node copy) w) node copy)

  -- `_pull_from_registry`: the name that was pulled, or "" to pull from upstream.
  unfoldable pub pull_from_registry : (id ref node : String) → World → Outcome String
  pull_from_registry id ref node w = from_source id ref node (A.relayed_source w.history node ref) w

  abbrev pub pull_upstream : (id ref node : String) → String × World → Outcome String
  pull_upstream id ref node (copy, w) =
      if truthy copy
      then done (copy, w)
      else (do a ← pull_with_retries id ref node w; done (ref, a.1))

  -- The `finally` of the pull.
  abbrev pub unregistered : {B : Type 0} → String → Outcome B → Outcome B
  unregistered id (done (b, w)) = done (b, unregister_pull id w)
  unregistered id (broke e w) = broke e (unregister_pull id w)

  abbrev pub at_status : Status → Deployment → Deployment
  at_status status r = record r { status = status }

  unfoldable pub pull_missing : (node ref : String) → Plan → World → Outcome Plan
  unfolding pull_from_registry pull_with_retries
  pull_missing node ref p w = do
    let id = p.deployment_id
    a ← lift w (update_record R id (at_status Status.pulling) w)
    b ← unregistered id (do
      copy ←
          pull_from_registry id ref node
            (register_pull id (publish image_pull_started id (say (pull_started ref)) a.1))
      pull_upstream id ref node copy)
    let told = publish image_pull_completed id (say (pull_done b.0)) b.1
    c ← lift told (update_record R id (at_status Status.starting) told)
    done (run_from node b.0 p, c.1)

  -- A presence check that raises counts as an image that is missing.
  abbrev pub judge_presence : (node ref : String) → Plan → Outcome String → Outcome Plan
  judge_presence node ref p (broke e w) = pull_missing node ref p w
  judge_presence node ref p (done (present, w)) =
      if truthy present then done (run_from node present p, w) else pull_missing node ref p w

  unfoldable pub pull_image_if_missing : (node : String) → Plan → World → Outcome Plan
  unfolding image_on_node
  pull_image_if_missing node p w =
      judge_presence node (upstream_ref p) p (image_on_node node (upstream_ref p) w)

  unfoldable pub pull_each : List String → Plan → World → Outcome Plan
  pull_each [] p w = done (p, w)
  pull_each (node ∷ nodes) p w = do
    a ← service N node w
    b ← pull_image_if_missing node p a.1
    pull_each nodes b.0 b.1
