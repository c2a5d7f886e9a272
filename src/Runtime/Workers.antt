-- ===== src/Runtime/Workers.antt =====
-- Waiting, creating and launching, step by step: what a steady property survives
-- (spark_pulse/tools/native_runtime.py).
use spark_pulse.Prelude.{
  ℕ, zero, suc, String, inl, inr, Bool, true, false, not, ◌&&◌, Option, none, some, List, [], ◌∷◌,
  arith, keep, length, nonzero, leb, or_text, Bool-cases,
}
use spark_pulse.Records.{Rank}
use spark_pulse.Runtime.Nodes.{Answer, got, raised, Container, resolved, looked, Nodes}
use spark_pulse.Runtime.Lifecycle.{World}
use spark_pulse.Runtime.Flow.{native, Outcome, broke, ◌>>=◌}
use spark_pulse.Runtime.Plan.{RankPlan, Plan}
use spark_pulse.Runtime.Agents.{Agents, Message, not_listening}
use spark_pulse.Runtime.Reap.{judge_service, service}
use spark_pulse.Runtime.Wait.{
  is_up, cons_waiting, judge_worker, check_worker, rpc_round, again_or_fail, rpc_loop, wait_on_port,
  wait_rpc_workers,
}
use spark_pulse.Runtime.Gang.{await_workers}
use spark_pulse.Runtime.Outcomes.{After, After-bind, Steady}

module _ (say : Message → String) (N : Nodes) (A : Agents) (I : World → Type 0) (S : Steady I) where
  -- The outcome has the property, whether it is a value or a fault.
  abbrev pub Keeps : {B : Type 0} → Outcome B → Type 0
  Keeps o = After (λ b w. I w) I o

  bind-Keeps :
      {B C : Type 0} (o : Outcome B) (k : B × World → Outcome C)
      → Keeps o
      → ((b : B) (w : World) → I w → Keeps (k (b, w)))
      → Keeps (o >>= k)
  bind-Keeps o k q rest = After-bind (λ b w. I w) (λ c w. I w) I o k q rest

  judge_service-Keeps :
      (node : String) (x : Answer (Unit {0})) (w : World) → I w → Keeps (judge_service node x w)
  judge_service-Keeps node (got u) w i = S.ask (resolved node (got u)) tt w i
  judge_service-Keeps node (raised e) w i = S.ask (resolved node (raised e)) tt w i

  pub service-Keeps : (node : String) (w : World) → I w → Keeps (service N node w)
  unfolding service
  service-Keeps node w i = judge_service-Keeps node (N.resolve w.history node) w i

  judge_worker-Keeps :
      (e : Rank) (x : Answer Container) (w : World) → I w → Keeps (judge_worker say N A e x w)
  judge_worker-Keeps e (raised x) w i = S.ask (looked e.node e.container_name (raised x)) tt w i
  judge_worker-Keeps e (got c) w i =
      let i' = S.ask (looked e.node e.container_name (got c)) tt w i in
      elim (Bool-cases (is_up c)) [
        | inl up ↦ ground (arith, up, i')
        | inr down ↦ ground (arith, down, i')
      ]

  check_worker-Keeps :
      (up : Bool) (r : RankPlan) (w : World) → I w → Keeps (check_worker say N A up r w)
  check_worker-Keeps true r w i = i
  check_worker-Keeps false r w i =
      bind-Keeps (service N r.entry.node w)
        (λ a.
          judge_worker say N A r.entry (N.status a.1.history r.entry.node r.entry.container_name)
            a.1)
        (service-Keeps r.entry.node w i)
        (λ u v j.
          judge_worker-Keeps r.entry (N.status v.history r.entry.node r.entry.container_name) v j)

  cons_waiting-Keeps :
      (up : Bool) (r : RankPlan) (l : List RankPlan) (w : World)
      → I w
      → Keeps (cons_waiting up r (l, w))
  cons_waiting-Keeps true r l w i = i
  cons_waiting-Keeps false r l w i = i

  rpc_round-Keeps :
      (port : ℕ) (rs : List RankPlan) (w : World) → I w → Keeps (rpc_round say N A port rs w)
  unfolding rpc_round
  rpc_round-Keeps port [] w i = i
  rpc_round-Keeps port (r ∷ rs) w i =
      let up = A.rpc_listening w.history (or_text r.entry.node r.entry.host) port in
      bind-Keeps (check_worker say N A up r w)
        (λ a. do b ← rpc_round say N A port rs a.1; cons_waiting up r b)
        (check_worker-Keeps up r w i)
        (λ u v j.
          bind-Keeps (rpc_round say N A port rs v) (cons_waiting up r) (rpc_round-Keeps port rs v j)
            (λ l x m. cons_waiting-Keeps up r l x m))

  again-Keeps :
      (again : World → List RankPlan → Outcome (Unit {0}))
      → ((l : List RankPlan) (w : World) → I w → Keeps (again w l))
      → (l : List RankPlan) (w : World) → I w
      → Keeps (again_or_fail say N A again (l, w))
  again-Keeps again f [] w i = i
  again-Keeps again f (r ∷ rs) w i = f (r ∷ rs) w i

  rpc_loop-Keeps :
      (port n : ℕ) (l : List RankPlan) (w : World) → I w → Keeps (rpc_loop say N A port n l w)
  unfolding rpc_loop
  rpc_loop-Keeps port zero l w i =
      let give_up : World → List RankPlan → Outcome (Unit {0}) =
        λ v waiting. broke (native (say not_listening)) v in
      bind-Keeps (rpc_round say N A port l w) (again_or_fail say N A give_up)
        (rpc_round-Keeps port l w i) (again-Keeps give_up (λ k v j. j))
  rpc_loop-Keeps port (suc n) l w i =
      let again : World → List RankPlan → Outcome (Unit {0}) =
        λ v waiting. rpc_loop say N A port n waiting v in
      bind-Keeps (rpc_round say N A port l w) (again_or_fail say N A again)
        (rpc_round-Keeps port l w i) (again-Keeps again (λ k v j. rpc_loop-Keeps port n k v j))

  wait_on_port-Keeps :
      (port : Option ℕ) (p : Plan) (w : World) → I w → Keeps (wait_on_port say N A port p w)
  wait_on_port-Keeps none p w i = i
  wait_on_port-Keeps (some port) p w i =
      elim (Bool-cases (nonzero port && not (leb (length p.rank_plans) 1))) [
        | inl waits ↦ ground (
          arith,
          waits,
          rpc_loop-Keeps port (A.rpc_rounds w.history)
              (keep (λ (r : RankPlan). not r.entry.is_head) p.rank_plans) w i,
        )
        | inr skips ↦ ground (arith, skips, i)
      ]

  pub await_workers-Keeps :
      (text_of : _) (R : _) (p : Plan) (head : Bool) (w : World)
      → I w
      → Keeps (await_workers say text_of R N A p head w)
  unfolding wait_rpc_workers
  await_workers-Keeps text_of R p true w i = wait_on_port-Keeps p.rpc_port p w i
  await_workers-Keeps text_of R p false w i = i
