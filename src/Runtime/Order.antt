-- ===== src/Runtime/Order.antt =====
-- The order of a teardown (`_teardown_entries` in spark_pulse/tools/native_runtime.py).
use spark_pulse.Prelude.{
  ℕ, ◌≤◌, inl, inr, List, [], ◌∷◌, arith, leb, if◌then◌else◌, All, Bool-cases,
}
use spark_pulse.Records.{Rank}
use spark_pulse.Runtime.Teardown.{insert_rank, by_rank}

-- No entry comes before one of a lower rank.
abbrev pub InOrder : List Rank → Type 0
InOrder [] = Unit
InOrder (r ∷ rs) = All (λ (q : Rank). r.rank ≤ q.rank) rs × InOrder rs

insert-bounds :
    (n : ℕ) (r : Rank) (qs : List Rank)
    → n ≤ r.rank
    → All (λ (q : Rank). n ≤ q.rank) qs
    → All (λ (q : Rank). n ≤ q.rank) (insert_rank r qs)
unfolding insert_rank
insert-bounds n r [] le all = (le, tt)
insert-bounds n r (q ∷ qs) le all = ground (arith, insert-bounds n r qs le all.1)

raise_bound :
    (m n : ℕ) (qs : List Rank)
    → m ≤ n
    → All (λ (q : Rank). n ≤ q.rank) qs
    → All (λ (q : Rank). m ≤ q.rank) qs
raise_bound m n [] le all = tt
raise_bound m n (q ∷ qs) le (here, there) = (omega arith, raise_bound m n qs le there)

insert-InOrder : (r : Rank) (qs : List Rank) → InOrder qs → InOrder (insert_rank r qs)
unfolding insert_rank
insert-InOrder r [] o = (tt, tt)
insert-InOrder r (q ∷ qs) (bound, o) =
    elim (Bool-cases (leb r.rank q.rank))
      as (λ x. InOrder (if leb r.rank q.rank then r ∷ q ∷ qs else q ∷ insert_rank r qs)) [
        | inl before ↦
            let le : r.rank ≤ q.rank = ground arith in
            ground (arith, raise_bound r.rank q.rank qs le bound)
        | inr after ↦
            let le : q.rank ≤ r.rank = ground arith in
            ground (arith, insert-InOrder r qs o, insert-bounds q.rank r qs le bound)
      ]

-- The ranks are torn down in order, rank zero first.
by_rank-InOrder : (rs : List Rank) → InOrder (by_rank rs)
unfolding by_rank
by_rank-InOrder [] = tt
by_rank-InOrder (r ∷ rs) = insert-InOrder r (by_rank rs) (by_rank-InOrder rs)
