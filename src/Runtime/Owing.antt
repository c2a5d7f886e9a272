-- ===== src/Runtime/Owing.antt =====
-- What a start owes while it holds the lock, and when it ends in error
-- (spark_pulse/tools/native_runtime.py).
use spark_pulse.Prelude.{ℕ, String, ◌≡◌, refl, List, [], ◌∷◌, ◌++◌, Any}
use spark_pulse.Records.{Deployment, Status, Rank, documents}
use spark_pulse.Records.Views.{IsOpen}
use spark_pulse.Runtime.Nodes.{Answer, ran, launched, History}
use spark_pulse.Runtime.Lifecycle.{World}
use spark_pulse.Runtime.Reading.{Holds}
use spark_pulse.Runtime.Flow.{Outcome, ◌>>=◌}
use spark_pulse.Runtime.Plan.{RankPlan}
use spark_pulse.Runtime.Reap.{noted}
use spark_pulse.Runtime.Gang.{Verdict, goes_on, settled, next}
use spark_pulse.Runtime.Outcomes.{AnyWorld, After, After-bind, Steady}
use spark_pulse.Runtime.Traces.{Grows, more, Grows-weaken}
use spark_pulse.Runtime.Covering.{IsOf, IsCovered, IsQuiet-IsOf, IsOf-map, Any-left, Any-last, Is}

module _ (planned : Deployment) (ranks : List Rank) (h : History) where
  -- The record is in an open store, and the containers that were asked for since `h` are of `l`.
  unfoldable pub Inv : List RankPlan → World → Type 0
  Inv l w =
      IsOpen w.store
      × (Holds planned.id ranks (documents w.store.rows) × Grows (IsOf l) h w.history)

  pub Inv-Steady : (l : List RankPlan) → Steady (Inv l)
  unfolding Inv
  Inv-Steady l = record {
    ask = λ e q w (o, (held, g)). (o, (held, more e (IsQuiet-IsOf l e q) g));
    tell = λ k id text w i. i;
  }

  pub Inv-map :
      (l k : List RankPlan)
      → ((n : ℕ) (node name : String)
          → Any (λ r. Is r n node name) l
          → Any (λ r. Is r n node name) k)
      → (w : World) → Inv l w
      → Inv k w
  unfolding Inv
  Inv-map l k f w (o, (held, g)) =
      (o, (held, Grows-weaken (IsOf l) (IsOf k) (IsOf-map l k f) h w.history g))

  pub Inv-left : (l k : List RankPlan) (w : World) → Inv l w → Inv (l ++ k) w
  Inv-left l k w i =
      Inv-map l (l ++ k) (λ n node name a. Any-left (λ r. Is r n node name) l k a) w i

  -- What the record that a start returns in error owes.
  abbrev pub Ended : Deployment → World → Type 0
  Ended d w = d.status ≡ Status.error → Grows (IsCovered d.orphans h w.history) h w.history

  abbrev pub Ends : (World → Type 0) → Verdict → World → Type 0
  Ends P goes_on w = P w
  Ends P (settled d) w = Ended d w

  pub ran-Inv :
      (l : List RankPlan) (r : RankPlan) (x : Answer (Unit {0})) (w : World)
      → Inv l w
      → Inv (l ++ r ∷ []) (noted (ran r.entry.rank r.entry.node r.entry.container_name x) w)
  unfolding Inv
  ran-Inv l r x w i =
      let (o, (held, g)) = Inv-left l (r ∷ []) w i in
      let mine =
        Any-last (λ q. Is q r.entry.rank r.entry.node r.entry.container_name) l r
          (refl, (refl, refl)) in
      (o, (held, more (ran r.entry.rank r.entry.node r.entry.container_name x) mine g))

  pub next-Ends :
      (P T : World → Type 0) (k : World → Outcome Verdict)
      → ((w : World) → P w → After (Ends T) AnyWorld (k w))
      → (v : Verdict) (w : World) → Ends P v w
      → After (Ends T) AnyWorld (next k (v, w))
  next-Ends P T k f goes_on w t = f w t
  next-Ends P T k f (settled d) w t = t

  pub bind-Ends :
      (P T : World → Type 0) (o : Outcome Verdict) (k : World → Outcome Verdict)
      → After (Ends P) AnyWorld o
      → ((w : World) → P w → After (Ends T) AnyWorld (k w))
      → After (Ends T) AnyWorld (do a ← o; next k a)
  bind-Ends P T o k a f =
      After-bind (Ends P) (Ends T) AnyWorld o (next k) a (λ v w t. next-Ends P T k f v w t)

  pub launched-Inv :
      (l : List RankPlan) (r : RankPlan) (w : World)
      → Inv l w
      → Inv l (noted (launched r.entry.node r.entry.container_name) w)
  unfolding Inv
  launched-Inv l r w (o, (held, g)) =
      (o, (held, more (launched r.entry.node r.entry.container_name) tt g))
