-- ===== src/Runtime/Covering.antt =====
-- The containers that a start asked for, and the ranks that its abort tears down (`_abort` in
-- spark_pulse/tools/native_runtime.py).
use spark_pulse.Prelude.{
  ℕ, ◌≤◌, ◌<◌, String, ◌≡◌, ◌⊎◌, inl, inr, sym, ◌∙◌, true, false, List, [], ◌∷◌, ◌++◌, map, arith,
  eq_iff, truthy, any, Bool-cases, All, Any,
}
use spark_pulse.Records.{Rank, Orphan}
use spark_pulse.Runtime.Nodes.{
  Event, resolved, stopped, looked, probed, read_logs, listed, ran, modded, launched, asked_image,
  pulled, History,
}
use spark_pulse.Runtime.Evidence.{evidence, Stands, IsAccounted}
use spark_pulse.Runtime.Plan.{RankPlan, rank_record}
use spark_pulse.Runtime.Gang.{same_plan, pending_ranks}
use spark_pulse.Runtime.Outcomes.{IsQuiet}

abbrev pub Is : RankPlan → ℕ → String → String → Type 0
Is r k node name = (r.entry.rank ≡ k) × ((r.entry.node ≡ node) × (r.entry.container_name ≡ name))

-- If a container was asked for, it is that of one of these ranks.
abbrev pub IsOf : List RankPlan → Event → Type 0
IsOf l (ran k node name a) = Any (λ r. Is r k node name) l
IsOf l _ = Unit

-- If a container was asked for, then it has no name, or is listed as an orphan, or a daemon answered
-- meanwhile that it is missing.
abbrev pub IsCovered : List Orphan → (before after : History) → Event → Type 0
IsCovered os before after (ran k node name a) =
    (truthy name ≡ false)
    ⊎ (Any (λ (o : Orphan). (o.rank ≡ k) × ((o.node ≡ node) × (o.container_name ≡ name))) os
        ⊎ (evidence node name before < evidence node name after))
IsCovered os before after _ = Unit

pub IsQuiet-IsOf : (l : List RankPlan) (e : Event) → IsQuiet e → IsOf l e
IsQuiet-IsOf l (resolved n a) q = tt
IsQuiet-IsOf l (stopped n m a) q = tt
IsQuiet-IsOf l (looked n m a) q = tt
IsQuiet-IsOf l (probed n m a) q = tt
IsQuiet-IsOf l (read_logs n m a) q = tt
IsQuiet-IsOf l (listed n) q = tt
IsQuiet-IsOf l (ran k n m a) q = absurd q
IsQuiet-IsOf l (modded n m) q = tt
IsQuiet-IsOf l (launched n m) q = tt
IsQuiet-IsOf l (asked_image n r) q = tt
IsQuiet-IsOf l (pulled n r) q = tt

-- Between two lists of ranks it is enough that they have the same containers.
pub IsOf-map :
    (l k : List RankPlan)
    → ((n : ℕ) (node name : String) → Any (λ r. Is r n node name) l → Any (λ r. Is r n node name) k)
    → (e : Event) → IsOf l e
    → IsOf k e
IsOf-map l k f (resolved n a) q = tt
IsOf-map l k f (stopped n m a) q = tt
IsOf-map l k f (looked n m a) q = tt
IsOf-map l k f (probed n m a) q = tt
IsOf-map l k f (read_logs n m a) q = tt
IsOf-map l k f (listed n) q = tt
IsOf-map l k f (ran r n m a) q = f r n m q
IsOf-map l k f (modded n m) q = tt
IsOf-map l k f (launched n m) q = tt
IsOf-map l k f (asked_image n r) q = tt
IsOf-map l k f (pulled n r) q = tt

pub Any-left : (P : RankPlan → Type 0) (l k : List RankPlan) → Any P l → Any P (l ++ k)
Any-left P [] k a = absurd a
Any-left P (r ∷ l) k (inl a) = inl a
Any-left P (r ∷ l) k (inr a) = inr (Any-left P l k a)

pub Any-last :
    (P : RankPlan → Type 0) (l : List RankPlan) (r : RankPlan) → P r → Any P (l ++ r ∷ [])
Any-last P [] r p = inl p
Any-last P (q ∷ l) r p = inr (Any-last P l r p)

Any-append :
    (P : RankPlan → Type 0) (l : List RankPlan) (r : RankPlan) → Any P (l ++ r ∷ []) → Any P l ⊎ P r
Any-append P [] r (inl p) = inr p
Any-append P [] r (inr p) = absurd p
Any-append P (q ∷ l) r (inl p) = inl (inl p)
Any-append P (q ∷ l) r (inr p) = elim (Any-append P l r p) [ inl a ↦ inl (inr a) | inr b ↦ inr b ]

same_plan-Is :
    (r q : RankPlan) (n : ℕ) (node name : String)
    → same_plan r q ≡ true
    → Is r n node name
    → Is q n node name
same_plan-Is r q n node name e (a, (b, c)) =
    ground (
      arith,
      eq_iff q.entry.node r.entry.node,
      eq_iff q.entry.container_name r.entry.container_name,
    )

known :
    (r : RankPlan) (l : List RankPlan) (n : ℕ) (node name : String)
    → any (same_plan r) l ≡ true
    → Is r n node name
    → Any (λ q. Is q n node name) l
known r [] n node name e i = absurd (cc)
known r (q ∷ l) n node name e i = elim (Bool-cases (same_plan r q)) [
  | inl here ↦ inl (same_plan-Is r q n node name here i)
  | inr there ↦ inr (known r l n node name (ground (arith, there)) i)
]

-- The ranks that an abort tears down have every container that was asked for.
pub pending-covers :
    (l : List RankPlan) (r : RankPlan) (n : ℕ) (node name : String)
    → Any (λ q. Is q n node name) (l ++ r ∷ [])
    → Any (λ q. Is q n node name) (pending_ranks l r)
pending-covers l r n node name a = elim (Bool-cases (any (same_plan r) l)) [
  | inr fresh ↦ ground (arith, fresh, a)
  | inl there ↦ elim (Any-append (λ q. Is q n node name) l r a) [
    | inl old ↦ ground (arith, there, old)
    | inr new ↦ ground (arith, there, known r l n node name there new)
  ]
]

Stands-at :
    (r : Rank) (os : List Orphan) (k : ℕ) (node name : String)
    → r.rank ≡ k
    → r.node ≡ node
    → r.container_name ≡ name
    → Any (Stands r) os
    → Any (λ (o : Orphan). (o.rank ≡ k) × ((o.node ≡ node) × (o.container_name ≡ name))) os
Stands-at r [] k node name a b c there = absurd there
Stands-at r (o ∷ os) k node name a b c (inl (x, y, z)) = inl (x ∙ a, (y ∙ b, z ∙ c))
Stands-at r (o ∷ os) k node name a b c (inr there) = inr (Stands-at r os k node name a b c there)

IsAccounted-covers :
    (os : List Orphan) (h mid t : History) (l : List RankPlan) (k : ℕ) (node name : String)
    → evidence node name h ≤ evidence node name mid
    → All (IsAccounted os mid t) (map rank_record l)
    → Any (λ r. Is r k node name) l
    → (truthy name ≡ false)
      ⊎ (Any (λ (o : Orphan). (o.rank ≡ k) × ((o.node ≡ node) × (o.container_name ≡ name))) os
          ⊎ (evidence node name h < evidence node name t))
IsAccounted-covers os h mid t [] k node name le all a = absurd a
IsAccounted-covers os h mid t (r ∷ l) k node name le (first, others) (inr a) =
    IsAccounted-covers os h mid t l k node name le others a
IsAccounted-covers os h mid t (r ∷ l) k node name le (inl blank, others) (inl (a, (b, c))) =
    inl (rw (sym c) blank)
IsAccounted-covers os h mid t (r ∷ l) k node name le (inr (inl there), others) (inl (a, (b, c))) =
    inr (inl (Stands-at r.entry os k node name a b c there))
IsAccounted-covers os h mid t (r ∷ l) k node name le (inr (inr new), others) (inl (a, (b, c))) =
    let new' : evidence node name mid < evidence node name t = rw (sym b) (rw (sym c) new) in
    inr (inr (omega arith))

-- After the teardown of the ranks of `l`, what was asked for is IsCovered-torn.
pub IsCovered-torn :
    (os : List Orphan) (h mid t : History) (l : List RankPlan)
    → ((node name : String) → evidence node name h ≤ evidence node name mid)
    → All (IsAccounted os mid t) (map rank_record l)
    → (e : Event) → IsOf l e
    → IsCovered os h t e
IsCovered-torn os h mid t l le all (resolved n a) q = tt
IsCovered-torn os h mid t l le all (stopped n m a) q = tt
IsCovered-torn os h mid t l le all (looked n m a) q = tt
IsCovered-torn os h mid t l le all (probed n m a) q = tt
IsCovered-torn os h mid t l le all (read_logs n m a) q = tt
IsCovered-torn os h mid t l le all (listed n) q = tt
IsCovered-torn os h mid t l le all (ran r n m a) q =
    IsAccounted-covers os h mid t l r n m (le n m) all q
IsCovered-torn os h mid t l le all (modded n m) q = tt
IsCovered-torn os h mid t l le all (launched n m) q = tt
IsCovered-torn os h mid t l le all (asked_image n r) q = tt
IsCovered-torn os h mid t l le all (pulled n r) q = tt
