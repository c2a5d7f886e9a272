-- ===== src/Runtime/Acts.antt =====
-- What a start makes and launches, in the order in which it does
-- (spark_pulse/tools/native_runtime.py).
use spark_pulse.Prelude.{String, ◌≡◌, refl, ap, ◌∙◌, List, [], ◌∷◌, ◌++◌, map, arith}
use spark_pulse.Runtime.Nodes.{
  got, Event, resolved, stopped, looked, probed, read_logs, listed, ran, modded, launched,
  asked_image, pulled, History,
}
use spark_pulse.Runtime.Lifecycle.{World}
use spark_pulse.Runtime.Flow.{Outcome}
use spark_pulse.Runtime.Plan.{RankPlan, reversed}
use spark_pulse.Runtime.Reap.{noted}
use spark_pulse.Runtime.Gang.{Verdict, goes_on, settled}
use spark_pulse.Runtime.Outcomes.{AnyWorld, After, After-weaken, IsQuiet, Steady}

-- A container that was made, and a launch.
pub data Act : Type 0 where
  creates launches : (node name : String) → Act

abbrev pub act_of : Event → List Act
act_of (ran k node name (got u)) = creates node name ∷ []
act_of (launched node name) = launches node name ∷ []
act_of _ = []

-- The newest first.
unfoldable pub acts : History → List Act
acts [] = []
acts (e ∷ h) = act_of e ++ acts h

abbrev pub creation : RankPlan → Act
creation r = creates r.entry.node r.entry.container_name

abbrev pub launching : RankPlan → Act
launching r = launches r.entry.node r.entry.container_name

pub act_of-quiet : (e : Event) → IsQuiet e → act_of e ≡ []
act_of-quiet (resolved n a) q = refl
act_of-quiet (stopped n m a) q = refl
act_of-quiet (looked n m a) q = refl
act_of-quiet (probed n m a) q = refl
act_of-quiet (read_logs n m a) q = refl
act_of-quiet (listed n) q = refl
act_of-quiet (ran k n m a) q = absurd q
act_of-quiet (modded n m) q = refl
act_of-quiet (launched n m) q = absurd q
act_of-quiet (asked_image n r) q = refl
act_of-quiet (pulled n r) q = refl

unfoldable pub Did : List Act → World → Type 0
Did l w = acts w.history ≡ l

pub Did-Steady : (l : List Act) → Steady (Did l)
unfolding Did acts
Did-Steady l = record {
  ask = λ e q w d. ground (arith, act_of-quiet e q, d);
  tell = λ k id text w d. d;
}

abbrev pub GoesOn : Verdict → Type 0
GoesOn goes_on = Unit
GoesOn (settled d) = ⊥

-- Whenever the verdict is to go on.
abbrev pub Then : (World → Type 0) → Verdict → World → Type 0
Then P v w = GoesOn v → P w

reversed-append : (rs : List RankPlan) (r : RankPlan) → reversed (rs ++ r ∷ []) ≡ r ∷ reversed rs
unfolding reversed
reversed-append [] r = refl
reversed-append (q ∷ rs) r = ap (λ k. k ++ q ∷ []) (reversed-append rs r)

pub reversed-reversed : (rs : List RankPlan) → reversed (reversed rs) ≡ rs
unfolding reversed
reversed-reversed [] = refl
reversed-reversed (r ∷ rs) =
    reversed-append (reversed rs) r ∙ ap (λ k. r ∷ k) (reversed-reversed rs)

pub loosely :
    {B : Type 0} (l : List Act) (o : Outcome B)
    → After (λ b v. Did l v) (Did l) o
    → After (λ b v. Did l v) AnyWorld o
loosely l o k =
    After-weaken (λ b v. Did l v) (λ b v. Did l v) (Did l) AnyWorld o (λ b v j. j) (λ v j. tt) k

pub launched-Did :
    (l : List Act) (r : RankPlan) (w : World)
    → Did l w
    → Did (launching r ∷ l) (noted (launched r.entry.node r.entry.container_name) w)
unfolding Did acts
launched-Did l r w d = ap (λ k. launching r ∷ k) d

pub mapped :
    (f : RankPlan → Act) (rs : List RankPlan) (r : RankPlan) (l : List Act)
    → map f rs ++ f r ∷ l ≡ map f (rs ++ r ∷ []) ++ l
mapped f [] r l = refl
mapped f (q ∷ rs) r l = ap (λ k. f q ∷ k) (mapped f rs r l)
