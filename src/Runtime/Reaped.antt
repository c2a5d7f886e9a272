-- ===== src/Runtime/Reaped.antt =====
-- The evidence for the containers that a reap removes (`_reap` and `_reap_earlier_generations` in
-- spark_pulse/tools/native_runtime.py).
use spark_pulse.Prelude.{
  ◌≤◌, ◌<◌, String, ◌≡◌, ◌⊎◌, inl, inr, refl, subst, Bool, true, false, List, [], ◌∷◌, arith, All,
}
use spark_pulse.Runtime.Nodes.{Answer, got, raised, stopped, History, Nodes, confirm_gone}
use spark_pulse.Runtime.Evidence.{evidence, Owes, confirm_loop-Owes}
use spark_pulse.Runtime.Lifecycle.{World}
use spark_pulse.Runtime.Flow.{Fault, Outcome, done, broke}
use spark_pulse.Runtime.Agents.{Agents, Message}
use spark_pulse.Runtime.Reap.{noted, judge_reaped, judge_reap, reap, reap_each}
use spark_pulse.Runtime.Outcomes.{AnyWorld, After, After-bind, After-weaken}

module _ (say : Message → String) (N : Nodes) (A : Agents) where
  -- No evidence was taken back, and there is new evidence that the container is gone.
  abbrev Gone : (a b node name : String) → History → World → Type 0
  Gone a b node name h w =
      (evidence a b h ≤ evidence a b w.history)
      × (evidence node name h < evidence node name w.history)

  judge_reaped-Gone :
      (a b node name : String) (h : History) (w : World) (x : Answer Bool × History)
      → Owes node name a b h x
      → After (λ u v. Gone a b node name h v) AnyWorld (judge_reaped say N A node name w x)
  judge_reaped-Gone a b node name h w (got true, t) o = (o.0, o.1 refl)
  judge_reaped-Gone a b node name h w (got false, t) o = tt
  judge_reaped-Gone a b node name h w (raised e, t) o = tt

  judge_reap-Gone :
      (a b node name : String) (x : Answer (Unit {0})) (w : World)
      → After (λ u v. Gone a b node name w.history v) AnyWorld (judge_reap say N A node name x w)
  unfolding confirm_gone evidence
  judge_reap-Gone a b node name (raised e) w = tt
  judge_reap-Gone a b node name (got u) w =
      let h = stopped node name (got u) ∷ w.history in
      judge_reaped-Gone a b node name w.history (noted (stopped node name (got u)) w)
        (confirm_gone N node name h) (confirm_loop-Owes N node name a b (N.looks h node name) h)

  reap-Gone :
      (a b node name : String) (w : World)
      → After (λ u v. Gone a b node name w.history v) AnyWorld (reap say N A node name w)
  unfolding reap
  reap-Gone a b node name w = judge_reap-Gone a b node name (N.stop w.history node name) w

  reap_each-monotone :
      (a b node : String) (names : List String) (w : World)
      → After
          (λ u v. evidence a b w.history ≤ evidence a b v.history)
          AnyWorld
          (reap_each say N A node names w)
  unfolding reap_each
  reap_each-monotone a b node [] w = omega arith
  reap_each-monotone a b node (name ∷ names) w =
      After-bind (λ u v. Gone a b node name w.history v)
        (λ u v. evidence a b w.history ≤ evidence a b v.history) AnyWorld (reap say N A node name w)
        (λ x. reap_each say N A node names x.1) (reap-Gone a b node name w)
        (λ u v g.
          After-weaken (λ u x. evidence a b v.history ≤ evidence a b x.history)
            (λ u x. evidence a b w.history ≤ evidence a b x.history) AnyWorld AnyWorld
            (reap_each say N A node names v) (λ u x le. omega (arith, le, g.0)) (λ x k. k)
            (reap_each-monotone a b node names v))

  abbrev Seen : String → (h t : History) → String → Type 0
  Seen node h t name = evidence node name h < evidence node name t

  Seen-earlier :
      (node : String) (h m t : History) (names : List String)
      → ((name : String) → evidence node name h ≤ evidence node name m)
      → All (Seen node m t) names
      → All (Seen node h t) names
  Seen-earlier node h m t [] le all = tt
  Seen-earlier node h m t (n ∷ names) le (first, others) =
      let here = le n in (omega arith, Seen-earlier node h m t names le others)

  Outcome-cases :
      (o : Outcome (Unit {0}))
      → ((w : World) × (o ≡ done (tt, w))) ⊎ ((e : Fault) × ((w : World) × (o ≡ broke e w)))
  Outcome-cases (done (u, w)) = inl (w, refl)
  Outcome-cases (broke e w) = inr (e, (w, refl))

  -- When every leftover of a node is reaped, a daemon answered of each of them, since the reap of
  -- the list began, that it is missing.
  pub reap_each-Seen :
      (node : String) (names : List String) (w w' : World)
      → reap_each say N A node names w ≡ done (tt, w')
      → All (λ name. evidence node name w.history < evidence node name w'.history) names
  unfolding reap_each
  reap_each-Seen node [] w w' e = tt
  reap_each-Seen node (name ∷ names) w w' e = elim (Outcome-cases (reap say N A node name w)) [
    | inl (v, made) ↦
        let rest : reap_each say N A node names v ≡ done (tt, w') = ground (arith, made) in
        let gone : (a b : String) → Gone a b node name w.history v = λ a b.
          subst (After (λ u x. Gone a b node name w.history x) AnyWorld) made
            (reap-Gone a b node name w) in
        let later : evidence node name v.history ≤ evidence node name w'.history =
          subst
            (After (λ u x. evidence node name v.history ≤ evidence node name x.history) AnyWorld)
            rest (reap_each-monotone node name node names v) in
        let here = (gone node name).1 in
        (
          omega arith,
          Seen-earlier node w.history v.history w'.history names (λ n. (gone node n).0)
              (reap_each-Seen node names v w' rest),
        )
    | inr (x, (v, failed)) ↦ absurd (ground (arith, failed))
  ]
