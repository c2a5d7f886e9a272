-- ===== src/Runtime/Launching.antt =====
-- The order in which a start creates and launches its ranks (spark_pulse/tools/native_runtime.py).
use spark_pulse.Prelude.{
  ℕ, String, ◌≡◌, inl, inr, refl, ap, subst, Bool, true, false, Option, List, [], ◌∷◌, ◌++◌, map,
  or_default, if◌then◌else◌, Bool-cases,
}
use spark_pulse.Records.{Deployment, Result, ok, err, Redactor}
use spark_pulse.Runtime.Nodes.{Answer, got, raised, ran, modded, launched, Nodes}
use spark_pulse.Runtime.Teardown.{teardown_entries}
use spark_pulse.Runtime.Lifecycle.{
  deployment_mods_applied, deployment_container_started, World, deployment_serving, update_record,
  teardown_requested,
}
use spark_pulse.Runtime.Status.{record_error}
use spark_pulse.Runtime.Flow.{Outcome, done, ◌>>=◌, lift, publish}
use spark_pulse.Runtime.Plan.{RankPlan, Plan, rank_record, reversed, teardown_order, start_order}
use spark_pulse.Runtime.Agents.{
  container_started, mods_applied, Agents, Applied, applied, refused, crashed, Message, serving,
}
use spark_pulse.Runtime.Reap.{noted, service}
use spark_pulse.Runtime.Gang.{
  Verdict, goes_on, settled, next, pending_ranks, judge_mods, modify, judge_ran, create_rank,
  judge_script, launch_rank, fail, left_by, tear_and_fail, abort, settle_stopped, cancelled,
  unless_requested, create_one, create_each, await_workers, launch_one, launch_each, as_starting,
  mark_starting, launch_all, recheck, create_all, start_locked,
}
use spark_pulse.Runtime.Outcomes.{
  AnyWorld, After, After-bind, After-weaken, After-caught, requested-history, update-history,
}
use spark_pulse.Runtime.Workers.{service-Keeps, await_workers-Keeps}
use spark_pulse.Runtime.Acts.{
  Act, acts, creation, launching, Did, Did-Steady, Then, reversed-reversed, loosely, launched-Did,
  mapped,
}

module _ (say : Message → String) (text_of : ℕ → String) (R : Redactor) (N : Nodes)
    (A : Agents) where
  module _ (P : World → Type 0) where
    settles :
        (d : Option Deployment × World → Deployment) (w : World)
        (r : Result (Option Deployment × World))
        → After (Then P) AnyWorld (do u ← lift w r; done (settled (d u), u.1))
    settles d w (ok (u, v)) = λ never. absurd never
    settles d w (err e) = tt

    fail-settles :
        (planned : Deployment) (message : String) (f : Deployment → Deployment) (w : World)
        → After (Then P) AnyWorld (fail say text_of R N A planned message f w)
    unfolding fail
    fail-settles planned message f w = settles _ w (record_error R N planned.id message f w)

    abort-settles :
        (planned : Deployment) (touched : List RankPlan) (r : RankPlan) (phase cause : String)
        (w : World)
        → After (Then P) AnyWorld (abort say text_of R N A planned touched r phase cause w)
    unfolding abort tear_and_fail
    abort-settles planned touched r phase cause w =
        let torn = teardown_entries N (map rank_record (pending_ranks touched r)) w.history in
        fail-settles planned _ (left_by say text_of R N A torn)
          (record w { history = torn.history })

    cancelled-settles :
        (planned : Deployment) (touched : List RankPlan) (w : World)
        → After (Then P) AnyWorld (cancelled say text_of R N A planned touched w)
    unfolding cancelled settle_stopped
    cancelled-settles planned touched w = settles _ _ _

  judge_mods-Did :
      (l : List Act) (p : Plan) (x : Applied) (w : World)
      → Did l w
      → After (λ u v. Did l v) AnyWorld (judge_mods say text_of R N A p x w)
  judge_mods-Did l p applied w d =
      (Did-Steady l).tell deployment_mods_applied p.deployment_id (say mods_applied) w d
  judge_mods-Did l p (refused e) w d = tt
  judge_mods-Did l p (crashed e) w d = tt

  modify-Did :
      (l : List Act) (p : Plan) (r : RankPlan) (w : World)
      → Did l w
      → After (λ u v. Did l v) AnyWorld (modify say text_of R N A p r w)
  modify-Did l p r w d = elim (Bool-cases p.has_mods) [
    | inr none_there ↦ rw none_there d
    | inl some_there ↦
        let asked = modded r.entry.node r.entry.container_name in
        rw some_there (
          judge_mods-Did l p (A.apply_mods w.history r.entry) (noted asked w)
            ((Did-Steady l).ask asked tt w d))
  ]

  judge_ran-Did :
      (l : List Act) (p : Plan) (r : RankPlan) (x : Answer (Unit {0})) (w : World)
      → Did l w
      → After
          (λ u v. Did (creation r ∷ l) v)
          AnyWorld
          (judge_ran say text_of R N A p r x
            (noted (ran r.entry.rank r.entry.node r.entry.container_name x) w))
  unfolding Did acts
  judge_ran-Did l p r (raised e) w d = tt
  judge_ran-Did l p r (got u) w d =
      modify-Did (creation r ∷ l) p r
        (publish deployment_container_started p.deployment_id
          (say (container_started r.entry.container_name r.image))
          (noted (ran r.entry.rank r.entry.node r.entry.container_name (got u)) w))
        (ap (λ k. creation r ∷ k) d)

  create_one-Did :
      (l : List Act) (planned : Deployment) (p : Plan) (touched : List RankPlan) (r : RankPlan)
      (w : World)
      → Did l w
      → After
          (Then (Did (creation r ∷ l)))
          AnyWorld
          (create_one say text_of R N A planned p touched r w)
  unfolding create_rank
  create_one-Did l planned p touched r w d =
      After-caught (Did (creation r ∷ l)) AnyWorld AnyWorld (Then (Did (creation r ∷ l)))
        (do a ← service N r.entry.node w; create_rank say text_of R N A p r a.1)
        (abort say text_of R N A planned touched r "start")
        (After-bind (λ u v. Did l v) (λ u v. Did (creation r ∷ l) v) AnyWorld
          (service N r.entry.node w) (λ a. create_rank say text_of R N A p r a.1)
          (After-weaken (λ u v. Did l v) (λ u v. Did l v) (Did l) AnyWorld
            (service N r.entry.node w) (λ u v k. k) (λ v k. tt)
            (service-Keeps say N A (Did l) (Did-Steady l) r.entry.node w d))
          (λ u v k. judge_ran-Did l p r (A.run_container v.history r.entry r.image) v k))
        (λ v k going. k)
        (λ e v k. abort-settles (Did (creation r ∷ l)) planned touched r "start" e v) (λ v k. tt)

  -- A next phase follows only where the verdict is to go on.
  next-Then :
      (P T : World → Type 0) (k : World → Outcome Verdict)
      → ((w : World) → P w → After (Then T) AnyWorld (k w))
      → (v : Verdict) (w : World) → Then P v w
      → After (Then T) AnyWorld (next k (v, w))
  next-Then P T k f goes_on w t = f w (t tt)
  next-Then P T k f (settled d) w t = λ never. absurd never

  bind-Then :
      (P T : World → Type 0) (o : Outcome Verdict) (k : World → Outcome Verdict)
      → After (Then P) AnyWorld o
      → ((w : World) → P w → After (Then T) AnyWorld (k w))
      → After (Then T) AnyWorld (do a ← o; next k a)
  bind-Then P T o k a f =
      After-bind (Then P) (Then T) AnyWorld o (next k) a (λ v w t. next-Then P T k f v w t)

  create_each-Did :
      (l : List Act) (planned : Deployment) (p : Plan) (touched rs : List RankPlan) (w : World)
      → Did l w
      → After
          (Then (Did (map creation (reversed rs) ++ l)))
          AnyWorld
          (create_each say text_of R N A planned p touched rs w)
  unfolding create_each reversed
  create_each-Did l planned p touched [] w d = λ going. d
  create_each-Did l planned p touched (r ∷ rs) w d =
      bind-Then (Did (creation r ∷ l)) (Did (map creation (reversed rs ++ r ∷ []) ++ l))
        (create_one say text_of R N A planned p touched r w)
        (create_each say text_of R N A planned p (touched ++ r ∷ []) rs)
        (create_one-Did l planned p touched r w d)
        (λ v k.
          subst
            (λ m.
              After (Then (Did m)) AnyWorld
                (create_each say text_of R N A planned p (touched ++ r ∷ []) rs v))
            (mapped creation (reversed rs) r l)
            (create_each-Did (creation r ∷ l) planned p (touched ++ r ∷ []) rs v k))

  judge_script-Did :
      (l : List Act) (r : RankPlan) (x : Applied) (w : World)
      → Did l w
      → After (λ u v. Did l v) AnyWorld (judge_script say text_of R N A r x w)
  judge_script-Did l r applied w d = d
  judge_script-Did l r (refused e) w d = tt
  judge_script-Did l r (crashed e) w d = tt

  launch_one-Did :
      (l : List Act) (planned : Deployment) (p : Plan) (touched : List RankPlan) (r : RankPlan)
      (w : World)
      → Did l w
      → After
          (Then (Did (launching r ∷ l)))
          AnyWorld
          (launch_one say text_of R N A planned p touched r w)
  unfolding launch_rank
  launch_one-Did l planned p touched r w d =
      After-caught (Did (launching r ∷ l)) AnyWorld AnyWorld (Then (Did (launching r ∷ l)))
        (do
          a ← await_workers say text_of R N A p r.entry.is_head w
          b ← service N r.entry.node a.1
          launch_rank say text_of R N A r b.1)
        (abort say text_of R N A planned touched r "launch")
        (After-bind (λ u v. Did l v) (λ u v. Did (launching r ∷ l) v) AnyWorld
          (await_workers say text_of R N A p r.entry.is_head w)
          (λ a. do b ← service N r.entry.node a.1; launch_rank say text_of R N A r b.1)
          (loosely l (await_workers say text_of R N A p r.entry.is_head w)
            (await_workers-Keeps say N A (Did l) (Did-Steady l) text_of R p r.entry.is_head w d))
          (λ u v j.
            After-bind (λ u x. Did l x) (λ u x. Did (launching r ∷ l) x) AnyWorld
              (service N r.entry.node v) (λ b. launch_rank say text_of R N A r b.1)
              (loosely l (service N r.entry.node v)
                (service-Keeps say N A (Did l) (Did-Steady l) r.entry.node v j))
              (λ u x m.
                judge_script-Did (launching r ∷ l) r (A.deploy_script x.history r.entry)
                  (noted (launched r.entry.node r.entry.container_name) x) (launched-Did l r x m))))
        (λ v k going. k)
        (λ e v k. abort-settles (Did (launching r ∷ l)) planned touched r "launch" e v) (λ v k. tt)

  launch_each-Did :
      (l : List Act) (planned : Deployment) (p : Plan) (touched rs : List RankPlan) (w : World)
      → Did l w
      → After
          (Then (Did (map launching (reversed rs) ++ l)))
          AnyWorld
          (launch_each say text_of R N A planned p touched rs w)
  unfolding launch_each reversed
  launch_each-Did l planned p touched [] w d = λ going. d
  launch_each-Did l planned p touched (r ∷ rs) w d =
      bind-Then (Did (launching r ∷ l)) (Did (map launching (reversed rs ++ r ∷ []) ++ l))
        (launch_one say text_of R N A planned p touched r w)
        (launch_each say text_of R N A planned p touched rs)
        (launch_one-Did l planned p touched r w d)
        (λ v k.
          subst
            (λ m.
              After (Then (Did m)) AnyWorld (launch_each say text_of R N A planned p touched rs v))
            (mapped launching (reversed rs) r l)
            (launch_each-Did (launching r ∷ l) planned p touched rs v k))

  mark_starting-Did :
      (l : List Act) (planned : Deployment) (p : Plan) (wait : Bool) (w : World)
      → Did l w
      → After (Then (Did l)) AnyWorld (mark_starting say text_of R N A planned p wait w)
  unfolding mark_starting Did
  mark_starting-Did l planned p wait w d =
      let update = update_record R planned.id (as_starting say text_of R N A w) w in
      After-bind (λ u v. v.history ≡ w.history) (Then (Did l)) AnyWorld (lift w update)
        (λ u. done (
          if wait then goes_on else settled (or_default u.0 planned),
          publish deployment_serving planned.id (say serving) u.1,
        ))
        (After-weaken (λ u v. v.history ≡ w.history) (λ u v. v.history ≡ w.history)
          (λ v. v.history ≡ w.history) AnyWorld (lift w update) (λ u v k. k) (λ v k. tt)
          (update-history R planned.id (as_starting say text_of R N A w) w))
        (λ u v same going. rw same d)

  -- A re-check goes on with what was done.
  requested-Did :
      (l : List Act) (P : World → Type 0) (planned : Deployment) (touched : List RankPlan)
      (k : World → Outcome Verdict) (w : World)
      → Did l w
      → ((v : World) → Did l v → After (Then P) AnyWorld (k v))
      → After (Then P) AnyWorld (do
        t ← lift w (teardown_requested R planned.id w)
        unless_requested say text_of R N A planned touched k t)
  unfolding Did
  requested-Did l P planned touched k w d f =
      let asked = teardown_requested R planned.id w in
      After-bind (λ t v. v.history ≡ w.history) (Then P) AnyWorld (lift w asked)
        (unless_requested say text_of R N A planned touched k)
        (After-weaken (λ t v. v.history ≡ w.history) (λ t v. v.history ≡ w.history)
          (λ v. v.history ≡ w.history) AnyWorld (lift w asked) (λ t v e. e) (λ v e. tt)
          (requested-history R planned.id w))
        (λ t v same.
          (elim t
            as (λ (b : Bool).
              After (Then P) AnyWorld
                (unless_requested say text_of R N A planned touched k (b, v))) [
                  | true ↦ cancelled-settles P planned touched v
                  | false ↦ f v (rw same d)
                ]))

  locked-Did :
      (l : List Act) (planned : Deployment) (p : Plan) (w : World)
      → Did l w
      → After
          (Then (Did (map launching p.rank_plans ++ (map creation (reversed p.rank_plans) ++ l))))
          AnyWorld
          (start_locked say text_of R N A planned p true w)
  unfolding start_locked start_order
  locked-Did l planned p w d =
      let made = map creation (reversed p.rank_plans) ++ l in
      let all = map launching p.rank_plans ++ made in
      requested-Did l (Did all) planned [] (create_all say text_of R N A planned p true) w d (λ v j.
        bind-Then (Did made) (Did all)
          (create_each say text_of R N A planned p [] (teardown_order p) v)
          (recheck say text_of R N A planned p true)
          (create_each-Did l planned p [] (teardown_order p) v j)
          (λ x m.
            requested-Did made (Did all) planned (teardown_order p)
              (launch_all say text_of R N A planned p true) x m
              (λ y n.
                bind-Then (Did all) (Did all)
                  (launch_each say text_of R N A planned p (teardown_order p) (start_order p) y)
                  (mark_starting say text_of R N A planned p true)
                  (subst
                    (λ rs. After (Then (Did (map launching rs ++ made))) AnyWorld (
                      launch_each say text_of R N A planned p (teardown_order p) (start_order p) y))
                    (reversed-reversed p.rank_plans)
                    (launch_each-Did made planned p (teardown_order p) (start_order p) y n))
                  (mark_starting-Did all planned p true))))

  -- When the section of `start` under the lock goes on, every container of the plan was made
  -- once, rank zero first, before any engine was launched, and then every engine was launched
  -- once, the workers first and rank zero last; nothing else was made or launched.
  pub start_locked-order :
      (planned : Deployment) (p : Plan) (w w' : World)
      → start_locked say text_of R N A planned p true w ≡ done (goes_on, w')
      → acts w'.history
        ≡ map launching p.rank_plans ++ (map creation (reversed p.rank_plans) ++ acts w.history)
  unfolding Did
  start_locked-order planned p w w' e =
      subst
        (After
          (Then (
            Did (
              map launching p.rank_plans
              ++ (map creation (reversed p.rank_plans) ++ acts w.history))))
          AnyWorld)
        e (locked-Did (acts w.history) planned p w refl) tt
