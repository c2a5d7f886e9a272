-- ===== src/Runtime/Outcomes.antt =====
-- What holds of the world that an outcome leaves, by the way that outcomes are chained.
use spark_pulse.Prelude.{String, ◌≡◌, inl, inr, arith, Bool-cases, Option-cases}
use spark_pulse.Records.{Deployment, Result, Redactor, load}
use spark_pulse.Records.Views.{Result-cases}
use spark_pulse.Runtime.Nodes.{
  Event, resolved, stopped, looked, probed, read_logs, listed, ran, modded, launched, asked_image,
  pulled,
}
use spark_pulse.Runtime.Lifecycle.{
  World, Kind, find_record, get_deployment, update_record, is_torn_down, teardown_requested,
  pull_cancel_requested,
}
use spark_pulse.Runtime.Flow.{
  native, pull_cancelled, foreign, Outcome, done, broke, ◌>>=◌, lift, publish,
}
use spark_pulse.Runtime.Reap.{noted}
use spark_pulse.Runtime.Gang.{Verdict, goes_on, caught}

-- What holds of every world.
abbrev pub AnyWorld : World → Type 0
AnyWorld w = Unit

-- `Q` of the value and the world, or `E` of the world that a fault leaves.
abbrev pub After : {A : Type 0} → (A → World → Type 0) → (World → Type 0) → Outcome A → Type 0
After Q E (done (a, w)) = Q a w
After Q E (broke e w) = E w

module _ {A : Type 0} {B : Type 0} where
  pub After-bind :
      (Q : A → World → Type 0) (T : B → World → Type 0) (E : World → Type 0) (o : Outcome A)
      (k : A × World → Outcome B)
      → After Q E o
      → ((a : A) (w : World) → Q a w → After T E (k (a, w)))
      → After T E (o >>= k)
  After-bind Q T E (done (a, w)) k q rest = rest a w q
  After-bind Q T E (broke e w) k q rest = q

module _ {A : Type 0} where
  pub After-weaken :
      (Q T : A → World → Type 0) (E F : World → Type 0) (o : Outcome A)
      → ((a : A) (w : World) → Q a w → T a w)
      → ((w : World) → E w → F w)
      → After Q E o
      → After T F o
  After-weaken Q T E F (done (a, w)) f g q = f a w q
  After-weaken Q T E F (broke e w) f g q = g w q

-- A phase that catches an error goes on where its work leaves the world well, and otherwise ends as
-- its handler does.
pub After-caught :
    (I F E : World → Type 0) (T : Verdict → World → Type 0) (o : Outcome (Unit {0}))
    (handler : String → World → Outcome Verdict)
    → After (λ u w. I w) F o
    → ((w : World) → I w → T goes_on w)
    → ((e : String) (w : World) → F w → After T E (handler e w))
    → ((w : World) → F w → E w)
    → After T E (caught o handler)
After-caught I F E T (done (u, w)) handler a good bad out = good w a
After-caught I F E T (broke (native e) w) handler a good bad out = bad e w a
After-caught I F E T (broke (pull_cancelled e) w) handler a good bad out = out w a
After-caught I F E T (broke (foreign e) w) handler a good bad out = out w a

-- Questions that neither run a container nor launch an engine.
abbrev pub IsQuiet : Event → Type 0
IsQuiet (resolved n a) = Unit
IsQuiet (stopped n m a) = Unit
IsQuiet (looked n m a) = Unit
IsQuiet (probed n m a) = Unit
IsQuiet (read_logs n m a) = Unit
IsQuiet (listed n) = Unit
IsQuiet (ran k n m a) = ⊥
IsQuiet (modded n m) = Unit
IsQuiet (launched n m) = ⊥
IsQuiet (asked_image n r) = Unit
IsQuiet (pulled n r) = Unit

-- What stays true when a quiet question is asked, and when a frame is published.
pub record Steady (I : World → Type 0) : Type 0 where
  pub ask : (e : Event) → IsQuiet e → (w : World) → I w → I (noted e w)
  pub tell : (k : Kind) (id text : String) (w : World) → I w → I (publish k id text w)

-- The questions to the store ask no node.
module _ (R : Redactor) (id : String) where
  abbrev pub Asks : {A : Type 0} → World → Result (A × World) → Type 0
  Asks w r = After (λ a v. v.history ≡ w.history) (λ v. v.history ≡ w.history) (lift w r)

  pub get-history : (w : World) → Asks w (get_deployment R id w)
  unfolding get_deployment
  get-history w = elim (Result-cases (load R w.store)) [
    | inl (x, e) ↦ ground (arith, e)
    | inr (x, e) ↦ ground (arith, e)
  ]

  pub torn-history : (w : World) → Asks w (is_torn_down R id w)
  unfolding is_torn_down get_deployment
  torn-history w = elim (Result-cases (load R w.store)) [
    | inl (x, e) ↦ ground (arith, e)
    | inr (x, e) ↦ ground (arith, e)
  ]

  pub requested-history : (w : World) → Asks w (teardown_requested R id w)
  unfolding teardown_requested
  requested-history w = elim (Bool-cases (pull_cancel_requested id w)) [
    | inl asked ↦ ground (arith, asked)
    | inr never ↦ ground (arith, never, torn-history w)
  ]

  pub update-history : (f : Deployment → Deployment) (w : World) → Asks w (update_record R id f w)
  unfolding update_record
  update-history f w = elim (Result-cases (load R w.store)) [
    | inl ((l, t), e) ↦ elim (Option-cases (find_record id l)) [
      | inl gone ↦ ground (arith, e, gone)
      | inr (r, found) ↦ ground (arith, e, found)
    ]
    | inr (x, e) ↦ ground (arith, e)
  ]
