-- ===== src/Runtime/Failing.antt =====
-- What a start that fails tears down (`_abort` and the section under the lock in
-- spark_pulse/tools/native_runtime.py).
use spark_pulse.Prelude.{
  ℕ, String, ◌≡◌, inl, inr, refl, sym, ap, subst, Bool, true, false, some, List, [], ◌∷◌, ◌++◌, map,
  arith, or_default, if◌then◌else◌, Bool-cases,
}
use spark_pulse.Records.{Deployment, Status, Rank, Redactor, documents}
use spark_pulse.Records.Views.{IsOpen}
use spark_pulse.Runtime.Nodes.{Answer, got, raised, ran, modded, launched, History, Nodes}
use spark_pulse.Runtime.Teardown.{teardown_entries}
use spark_pulse.Runtime.Evidence.{teardown_entries-IsAccounted}
use spark_pulse.Runtime.Lifecycle.{
  World, deployment_error, deployment_container_started, deployment_mods_applied,
  deployment_serving, find_record, update_record, teardown_requested, pull_cancel_requested,
  is_torn_down, rank_entries,
}
use spark_pulse.Runtime.Reading.{IsReady, loaded, loaded-IsReady, get_lem, update_lem}
use spark_pulse.Runtime.Status.{error_text, record_error}
use spark_pulse.Runtime.Flow.{Outcome, done, ◌>>=◌, lift, publish}
use spark_pulse.Runtime.Plan.{RankPlan, Plan, rank_record, teardown_order, start_order}
use spark_pulse.Runtime.Agents.{
  Agents, Applied, applied, refused, crashed, Message, container_started, mods_applied, serving,
}
use spark_pulse.Runtime.Reap.{noted, service}
use spark_pulse.Runtime.Gang.{
  Verdict, goes_on, settled, pending_ranks, judge_mods, modify, judge_ran, create_rank,
  judge_script, launch_rank, fail, left_by, tear_and_fail, abort, settle_stopped, cancelled,
  unless_requested, create_one, create_each, await_workers, launch_one, launch_each, as_starting,
  mark_starting, launch_all, recheck, create_all, start_locked,
}
use spark_pulse.Runtime.Outcomes.{AnyWorld, After, After-bind, After-weaken, After-caught, IsQuiet}
use spark_pulse.Runtime.Traces.{
  Grows, same, Grows-weaken, Grows-trans, Grows-evidence, teardown-IsQuiet,
}
use spark_pulse.Runtime.Workers.{service-Keeps, await_workers-Keeps}
use spark_pulse.Runtime.Covering.{IsOf, IsCovered, IsQuiet-IsOf, pending-covers, IsCovered-torn}
use spark_pulse.Runtime.Owing.{
  Inv, Inv-Steady, Inv-map, Inv-left, Ended, Ends, bind-Ends, ran-Inv, launched-Inv,
}

append_assoc :
    (l : List RankPlan) (r : RankPlan) (rs : List RankPlan) → (l ++ r ∷ []) ++ rs ≡ l ++ r ∷ rs
append_assoc [] r rs = refl
append_assoc (q ∷ l) r rs = ap (λ k. q ∷ k) (append_assoc l r rs)

module _ (say : Message → String) (text_of : ℕ → String) (R : Redactor) (N : Nodes) (A : Agents)
    (planned : Deployment) (ranks : List Rank) (h : History) where
  abbrev Held : List RankPlan → World → Type 0
  Held l w = Inv planned ranks h l w

  abbrev Due : (World → Type 0) → Verdict → World → Type 0
  Due P v w = Ends planned ranks h P v w

  -- A record that is written on the way out.
  recorded :
      (P : World → Type 0) (l : List RankPlan) (f : Deployment → Deployment) (other : Deployment)
      (w w' : World)
      → Held l w
      → ((r : Deployment) (v : World) → v.history ≡ w.history → Ended planned ranks h (f r) v)
      → After (Due P) AnyWorld (do
        u ← lift w' (update_record R planned.id f w)
        done (settled (or_default u.0 other), u.1))
  unfolding Inv
  recorded P l f other w w' (o, (held, g)) ended =
      let (r, (v, e, kept)) = update_lem R planned.id ranks h f w o held in rw e (ended r v kept)

  tear-Ends :
      (P : World → Type 0) (l : List RankPlan) (message : String) (w : World)
      → Held l w
      → After (Due P) AnyWorld (tear_and_fail say text_of R N A planned l message w)
  unfolding tear_and_fail fail record_error Inv
  tear-Ends P l message w (o, (held, g)) =
      let torn = teardown_entries N (map rank_record l) w.history in
      let text = error_text message in
      let after =
        Grows-weaken IsQuiet (IsOf l) (IsQuiet-IsOf l) w.history torn.history
          (teardown-IsQuiet N w.history (map rank_record l)) in
      let all = Grows-trans (IsOf l) h w.history torn.history g after in
      let told = publish deployment_error planned.id text (record w { history = torn.history }) in
      recorded P l
        (λ r. left_by say text_of R N A torn (record r {
          status = Status.error;
          error_message = some text;
          stopped_at = some (N.now torn.history);
        }))
        (record planned { status = Status.error; error_message = some text }) told
        (record w { history = torn.history }) (o, (held, all))
        (λ r v kept failed.
          subst (λ (t : History). Grows (IsCovered torn.orphans h t) h t) (sym kept)
            (Grows-weaken (IsOf l) (IsCovered torn.orphans h torn.history)
              (IsCovered-torn torn.orphans h w.history torn.history l
                (λ node name. Grows-evidence (IsOf l) node name h w.history g)
                (teardown_entries-IsAccounted N (map rank_record l) w.history))
              h torn.history all))

  abort-Ends :
      (P : World → Type 0) (l : List RankPlan) (r : RankPlan) (phase cause : String) (w : World)
      → Held (l ++ r ∷ []) w
      → After (Due P) AnyWorld (abort say text_of R N A planned l r phase cause w)
  unfolding abort
  abort-Ends P l r phase cause w i =
      tear-Ends P (pending_ranks l r) _ w
        (Inv-map planned ranks h (l ++ r ∷ []) (pending_ranks l r) (pending-covers l r) w i)

  cancelled-Ends :
      (P : World → Type 0) (l : List RankPlan) (w : World)
      → Held l w
      → After (Due P) AnyWorld (cancelled say text_of R N A planned l w)
  unfolding cancelled settle_stopped Inv
  cancelled-Ends P l w (o, (held, g)) =
      let torn = teardown_entries N (map rank_record l) w.history in
      let after =
        Grows-weaken IsQuiet (IsOf l) (IsQuiet-IsOf l) w.history torn.history
          (teardown-IsQuiet N w.history (map rank_record l)) in
      recorded P l _ _ _ _ (o, (held, Grows-trans (IsOf l) h w.history torn.history g after))
        (λ r v kept failed. absurd (cc))

  judge_mods-Inv :
      (l : List RankPlan) (p : Plan) (x : Applied) (w : World)
      → Held l w
      → After (λ u v. Held l v) (Held l) (judge_mods say text_of R N A p x w)
  judge_mods-Inv l p applied w i =
      (Inv-Steady planned ranks h l).tell deployment_mods_applied p.deployment_id (say mods_applied)
        w i
  judge_mods-Inv l p (refused e) w i = i
  judge_mods-Inv l p (crashed e) w i = i

  modify-Inv :
      (l : List RankPlan) (p : Plan) (r : RankPlan) (w : World)
      → Held l w
      → After (λ u v. Held l v) (Held l) (modify say text_of R N A p r w)
  modify-Inv l p r w i = elim (Bool-cases p.has_mods) [
    | inr none_there ↦ rw none_there i
    | inl some_there ↦
        let asked = modded r.entry.node r.entry.container_name in
        rw some_there (
          judge_mods-Inv l p (A.apply_mods w.history r.entry) (noted asked w)
            ((Inv-Steady planned ranks h l).ask asked tt w i))
  ]

  judge_ran-Inv :
      (l : List RankPlan) (p : Plan) (r : RankPlan) (x : Answer (Unit {0})) (w : World)
      → Held l w
      → After (λ u v. Held l v) (Held l) (judge_ran say text_of R N A p r x w)
  judge_ran-Inv l p r (raised e) w i = i
  judge_ran-Inv l p r (got u) w i =
      let text = say (container_started r.entry.container_name r.image) in
      modify-Inv l p r (publish deployment_container_started p.deployment_id text w)
        ((Inv-Steady planned ranks h l).tell deployment_container_started p.deployment_id text w i)

  create_one-Ends :
      (p : Plan) (l : List RankPlan) (r : RankPlan) (w : World)
      → Held l w
      → After (Due (Held (l ++ r ∷ []))) AnyWorld (create_one say text_of R N A planned p l r w)
  unfolding create_rank
  create_one-Ends p l r w i =
      let J = Held (l ++ r ∷ []) in
      After-caught J J AnyWorld (Due J)
        (do a ← service N r.entry.node w; create_rank say text_of R N A p r a.1)
        (abort say text_of R N A planned l r "start")
        (After-bind (λ u v. Held l v) (λ u v. J v) J (service N r.entry.node w)
          (λ a. create_rank say text_of R N A p r a.1)
          (After-weaken (λ u v. Held l v) (λ u v. Held l v) (Held l) J (service N r.entry.node w)
            (λ u v k. k) (Inv-left planned ranks h l (r ∷ []))
            (service-Keeps say N A (Held l) (Inv-Steady planned ranks h l) r.entry.node w i))
          (λ u v k.
            let x = A.run_container v.history r.entry r.image in
            judge_ran-Inv (l ++ r ∷ []) p r x
              (noted (ran r.entry.rank r.entry.node r.entry.container_name x) v)
              (ran-Inv planned ranks h l r x v k)))
        (λ v k. k) (λ e v k. abort-Ends J l r "start" e v k) (λ v k. tt)

  create_each-Ends :
      (p : Plan) (l rs : List RankPlan) (w : World)
      → Held l w
      → After (Due (Held (l ++ rs))) AnyWorld (create_each say text_of R N A planned p l rs w)
  unfolding create_each
  create_each-Ends p l [] w i = Inv-left planned ranks h l [] w i
  create_each-Ends p l (r ∷ rs) w i =
      bind-Ends planned ranks h (Held (l ++ r ∷ [])) (Held (l ++ r ∷ rs))
        (create_one say text_of R N A planned p l r w)
        (create_each say text_of R N A planned p (l ++ r ∷ []) rs) (create_one-Ends p l r w i)
        (λ v k.
          subst
            (λ m.
              After (Due (Held m)) AnyWorld
                (create_each say text_of R N A planned p (l ++ r ∷ []) rs v))
            (append_assoc l r rs) (create_each-Ends p (l ++ r ∷ []) rs v k))

  judge_script-Inv :
      (l : List RankPlan) (r : RankPlan) (x : Applied) (w : World)
      → Held l w
      → After (λ u v. Held l v) (Held l) (judge_script say text_of R N A r x w)
  judge_script-Inv l r applied w i = i
  judge_script-Inv l r (refused e) w i = i
  judge_script-Inv l r (crashed e) w i = i

  launch_one-Ends :
      (p : Plan) (l : List RankPlan) (r : RankPlan) (w : World)
      → Held l w
      → After (Due (Held l)) AnyWorld (launch_one say text_of R N A planned p l r w)
  unfolding launch_rank
  launch_one-Ends p l r w i =
      let J = Held l in
      After-caught J J AnyWorld (Due J)
        (do
          a ← await_workers say text_of R N A p r.entry.is_head w
          b ← service N r.entry.node a.1
          launch_rank say text_of R N A r b.1)
        (abort say text_of R N A planned l r "launch")
        (After-bind (λ u v. J v) (λ u v. J v) J
          (await_workers say text_of R N A p r.entry.is_head w)
          (λ a. do b ← service N r.entry.node a.1; launch_rank say text_of R N A r b.1)
          (await_workers-Keeps say N A J (Inv-Steady planned ranks h l) text_of R p r.entry.is_head
            w i)
          (λ u v j.
            After-bind (λ u x. J x) (λ u x. J x) J (service N r.entry.node v)
              (λ b. launch_rank say text_of R N A r b.1)
              (service-Keeps say N A J (Inv-Steady planned ranks h l) r.entry.node v j)
              (λ u x m.
                judge_script-Inv l r (A.deploy_script x.history r.entry)
                  (noted (launched r.entry.node r.entry.container_name) x)
                  (launched-Inv planned ranks h l r x m))))
        (λ v k. k)
        (λ e v k. abort-Ends J l r "launch" e v (Inv-left planned ranks h l (r ∷ []) v k))
        (λ v k. tt)

  launch_each-Ends :
      (p : Plan) (l rs : List RankPlan) (w : World)
      → Held l w
      → After (Due (Held l)) AnyWorld (launch_each say text_of R N A planned p l rs w)
  unfolding launch_each
  launch_each-Ends p l [] w i = i
  launch_each-Ends p l (r ∷ rs) w i =
      bind-Ends planned ranks h (Held l) (Held l) (launch_one say text_of R N A planned p l r w)
        (launch_each say text_of R N A planned p l rs) (launch_one-Ends p l r w i)
        (λ v k. launch_each-Ends p l rs v k)

  mark_starting-Ends :
      (l : List RankPlan) (p : Plan) (wait : Bool) (w : World)
      → Held l w
      → After (Due AnyWorld) AnyWorld (mark_starting say text_of R N A planned p wait w)
  unfolding mark_starting Inv
  mark_starting-Ends l p wait w (o, (held, g)) =
      let f = as_starting say text_of R N A w in
      let (r, (v, e, kept)) = update_lem R planned.id ranks h f w o held in
      rw e
        (elim wait
          as (λ (b : Bool).
            Due AnyWorld (if b then goes_on else settled (f r))
              (publish deployment_serving planned.id (say serving) v)) [
                | true ↦ tt
                | false ↦ λ failed. absurd (cc)
              ])

  torn-Inv :
      (l : List RankPlan) (w : World)
      → Held l w
      → After (λ t v. Held l v) AnyWorld (lift w (is_torn_down R planned.id w))
  unfolding is_torn_down Inv loaded
  torn-Inv l w (o, (held, g)) =
      let y : IsReady planned.id ranks w.history w = record {
        open_store = o;
        holds = held;
        asked = refl;
      } in
      let (r, e, _) = get_lem R planned.id ranks w.history w y in
      let y' = loaded-IsReady R planned.id ranks w.history w y in
      rw e (y'.open_store, (y'.holds, g))

  requested-Inv :
      (l : List RankPlan) (w : World)
      → Held l w
      → After (λ t v. Held l v) AnyWorld (lift w (teardown_requested R planned.id w))
  unfolding teardown_requested
  requested-Inv l w i = elim (Bool-cases (pull_cancel_requested planned.id w)) [
    | inl asked ↦ ground (arith, asked, i)
    | inr never ↦ ground (arith, never, torn-Inv l w i)
  ]

  requested-Ends :
      (P : World → Type 0) (l : List RankPlan) (k : World → Outcome Verdict) (w : World)
      → Held l w
      → ((v : World) → Held l v → After (Due P) AnyWorld (k v))
      → After (Due P) AnyWorld (do
        t ← lift w (teardown_requested R planned.id w)
        unless_requested say text_of R N A planned l k t)
  requested-Ends P l k w i f =
      After-bind (λ t v. Held l v) (Due P) AnyWorld (lift w (teardown_requested R planned.id w))
        (unless_requested say text_of R N A planned l k) (requested-Inv l w i)
        (λ t v j.
          (elim t
            as (λ (b : Bool).
              After (Due P) AnyWorld (unless_requested say text_of R N A planned l k (b, v))) [
                | true ↦ cancelled-Ends P l v j
                | false ↦ f v j
              ]))

  locked-Ends :
      (p : Plan) (wait : Bool) (w : World)
      → Held [] w
      → After (Due AnyWorld) AnyWorld (start_locked say text_of R N A planned p wait w)
  unfolding start_locked
  locked-Ends p wait w i =
      let l = teardown_order p in
      requested-Ends AnyWorld [] (create_all say text_of R N A planned p wait) w i (λ v j.
        bind-Ends planned ranks h (Held l) AnyWorld (create_each say text_of R N A planned p [] l v)
          (recheck say text_of R N A planned p wait) (create_each-Ends p [] l v j)
          (λ x m.
            requested-Ends AnyWorld l (launch_all say text_of R N A planned p wait) x m (λ y n.
              bind-Ends planned ranks h (Held l) AnyWorld
                (launch_each say text_of R N A planned p l (start_order p) y)
                (mark_starting say text_of R N A planned p wait)
                (launch_each-Ends p l (start_order p) y n) (mark_starting-Ends l p wait))))

-- When the section of `start` under the lock ends with a record in error, the failure was cleaned
-- up: for each container that the section asked a node to make, with or without success, it has no
-- name, or it is among the orphans of the answered record, or a daemon answered since the section
-- began that it is missing. The record stood in an open store when the section began.
pub start_locked-IsCovered :
    (say : Message → String) (text_of : ℕ → String) (R : Redactor) (N : Nodes) (A : Agents)
    (planned d r : Deployment) (p : Plan) (wait : Bool) (w w' : World)
    → IsOpen w.store
    → find_record planned.id (documents w.store.rows) ≡ some r
    → start_locked say text_of R N A planned p wait w ≡ done (settled d, w')
    → d.status ≡ Status.error
    → Grows (IsCovered d.orphans w.history w'.history) w.history w'.history
unfolding Inv
start_locked-IsCovered say text_of R N A planned d r p wait w w' o found e failed =
    subst (After (Ends planned (rank_entries r) w.history AnyWorld) AnyWorld) e
      (locked-Ends say text_of R N A planned (rank_entries r) w.history p wait w
        (o, ((r, found, refl), same)))
      failed
