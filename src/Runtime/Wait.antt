-- ===== src/Runtime/Wait.antt =====
-- Waiting for the workers of a head, and for a gang to serve (`_wait_rpc_workers` and `_wait_ready`
-- in spark_pulse/tools/native_runtime.py). The log tails in their messages are left out.
use spark_pulse.Prelude.{
  ℕ, zero, suc, String, Bool, true, false, not, ◌&&◌, Option, none, some, List, [], ◌∷◌, keep,
  length, nonzero, or_text, leb, if◌then◌else◌,
}
use spark_pulse.Records.{Rank}
use spark_pulse.Runtime.Nodes.{Answer, got, raised, Container, running, looked, probed, Nodes}
use spark_pulse.Runtime.Lifecycle.{World}
use spark_pulse.Runtime.Flow.{native, Outcome, done, broke, ◌>>=◌}
use spark_pulse.Runtime.Plan.{RankPlan, Plan}
use spark_pulse.Runtime.Agents.{Agents, Message, exited, engine_gone, not_listening, not_ready}
use spark_pulse.Runtime.Reap.{noted, service}

-- `status.get("running")`
abbrev pub is_up : Container → Bool
is_up running = true
is_up _ = false

abbrev pub cons_waiting : Bool → RankPlan → List RankPlan × World → Outcome (List RankPlan)
cons_waiting true r (waiting, w) = done (waiting, w)
cons_waiting false r (waiting, w) = done (r ∷ waiting, w)

module _ (say : Message → String) (N : Nodes) (A : Agents) where
  -- A container that exited fails the wait at once; one that cannot be asked waits on.
  abbrev pub judge_worker : Rank → Answer Container → World → Outcome (Unit {0})
  judge_worker e (raised x) w = done (tt, noted (looked e.node e.container_name (raised x)) w)
  judge_worker e (got c) w =
      let seen = noted (looked e.node e.container_name (got c)) w in
      if is_up c
      then done (tt, seen)
      else broke (native (say (exited e.container_name e.node))) seen

  abbrev pub check_worker : Bool → RankPlan → World → Outcome (Unit {0})
  check_worker true r w = done (tt, w)
  check_worker false r w = do
    a ← service N r.entry.node w
    judge_worker r.entry (N.status a.1.history r.entry.node r.entry.container_name) a.1

  -- One round over the workers that did not listen yet: those that still do not.
  unfoldable pub rpc_round : ℕ → List RankPlan → World → Outcome (List RankPlan)
  rpc_round port [] w = done ([], w)
  rpc_round port (r ∷ rs) w = do
    let up = A.rpc_listening w.history (or_text r.entry.node r.entry.host) port
    a ← check_worker up r w
    b ← rpc_round port rs a.1
    cons_waiting up r b

  abbrev pub again_or_fail :
      (World → List RankPlan → Outcome (Unit {0})) → List RankPlan × World → Outcome (Unit {0})
  again_or_fail again ([], w) = done (tt, w)
  again_or_fail again (r ∷ rs, w) = again w (r ∷ rs)

  -- `n` is the number of rounds that are left after this one.
  unfoldable pub rpc_loop : ℕ → ℕ → List RankPlan → World → Outcome (Unit {0})
  unfolding rpc_round
  rpc_loop port zero pending w = do
    a ← rpc_round port pending w
    again_or_fail (λ v waiting. broke (native (say not_listening)) v) a
  rpc_loop port (suc n) pending w = do
    a ← rpc_round port pending w
    again_or_fail (λ v waiting. rpc_loop port n waiting v) a

  abbrev pub wait_on_port : Option ℕ → Plan → World → Outcome (Unit {0})
  wait_on_port none p w = done (tt, w)
  wait_on_port (some port) p w =
      if nonzero port && not (leb (length p.rank_plans) 1)
      then rpc_loop port (A.rpc_rounds w.history)
          (keep (λ (r : RankPlan). not r.entry.is_head) p.rank_plans) w
      else done (tt, w)

  unfoldable pub wait_rpc_workers : Plan → World → Outcome (Unit {0})
  unfolding rpc_loop
  wait_rpc_workers p w = wait_on_port p.rpc_port p w

  -- Only "no such process" fails a rank whose container is up.
  abbrev pub judge_serving : Rank → Option Bool → World → Outcome (Unit {0})
  judge_serving e (some false) w = broke (native (say (engine_gone e.container_name e.node))) w
  judge_serving e _ w = done (tt, w)

  abbrev pub judge_probe : Rank → Option Bool → World → Outcome (Unit {0})
  judge_probe e alive w = judge_serving e alive (noted (probed e.node e.container_name alive) w)

  abbrev pub judge_rank : Rank → Answer Container → World → Outcome (Unit {0})
  judge_rank e (raised x) w = done (tt, noted (looked e.node e.container_name (raised x)) w)
  judge_rank e (got c) w =
      let seen = noted (looked e.node e.container_name (got c)) w in
      if is_up c
      then judge_probe e (A.serve_alive seen.history e) seen
      else broke (native (say (exited e.container_name e.node))) seen

  unfoldable pub ready_round : List RankPlan → World → Outcome (Unit {0})
  ready_round [] w = done (tt, w)
  ready_round (r ∷ rs) w = do
    a ← service N r.entry.node w
    b ← judge_rank r.entry (N.status a.1.history r.entry.node r.entry.container_name) a.1
    ready_round rs b.1

  abbrev pub poll_again : Bool → (World → Outcome (Unit {0})) → World → Outcome (Unit {0})
  poll_again true again w = done (tt, w)
  poll_again false again w = again w

  -- `n` is the number of rounds before the deadline.
  unfoldable pub ready_loop : ℕ → List RankPlan → World → Outcome (Unit {0})
  unfolding ready_round
  ready_loop zero rs w = broke (native (say not_ready)) w
  ready_loop (suc n) rs w = do
    a ← ready_round rs w
    poll_again (A.probe_ready a.1.history) (ready_loop n rs) a.1

  unfoldable pub wait_ready : Plan → World → Outcome (Unit {0})
  unfolding ready_loop
  wait_ready p w = ready_loop (A.ready_rounds w.history) p.rank_plans w
