-- ===== src/Runtime/Choice.antt =====
-- The port that a run gets (`_choose_port` in spark_pulse/tools/native_runtime.py).
use spark_pulse.Prelude.{
  ℕ, zero, suc, ◌+◌, ◌-◌, ◌≤◌, ◌<◌, String, ◌≡◌, ◌⊎◌, inl, inr, refl, Bool, true, false, not, ◌&&◌,
  Option, none, some, List, nonzero, arith, Bool-cases, Option-cases, ◌||◌, [], ◌∷◌, ◌++◌, map,
  member, All, str_eq, eq_iff, if◌then◌else◌,
}
use spark_pulse.Records.{Deployment}
use spark_pulse.Runtime.Nodes.{Answer}
use spark_pulse.Runtime.Ports.{
  Ports, allocate_from, allocate_port, Listener, Warning, Range, moved_to, chosen, taken_on, moved,
  not_listed, find_port, node_key, or_here, choose_port, unlisted,
}
use spark_pulse.Runtime.Free.{is_taken, is_busy, taken_on-is_busy, held_on, listens, reserves}

-- The warnings name the node as one that did not answer, with the reason.
abbrev pub is_warned : Listener → List Warning → Bool
is_warned l [] = false
is_warned l (not_listed label why ∷ ws) =
    if str_eq label l.label && str_eq why l.why then true else is_warned l ws
is_warned l (moved q holder p ∷ ws) = is_warned l ws

-- The node answered with a list that does not have the port, or it is among the warnings.
abbrev pub IsHeeded : ℕ → List Warning → Listener → Type 0
IsHeeded p ws l =
    ((ps : List ℕ) × (l.listening ≡ some ps) × (member p ps ≡ false))
    ⊎ ((l.listening ≡ none) × (is_warned l ws ≡ true))

is_warned-append :
    (l : Listener) (ws us : List Warning) → is_warned l ws ≡ true → is_warned l (ws ++ us) ≡ true
is_warned-append l [] us h = absurd (cc)
is_warned-append l (not_listed label why ∷ ws) us h = ground (arith, is_warned-append l ws us)
is_warned-append l (moved q holder p ∷ ws) us h = is_warned-append l ws us h

All-IsHeeded :
    (p : ℕ) (us : List Warning) (ls : List Listener)
    → listens p ls ≡ false
    → ((l : Listener) → is_warned l (unlisted ls) ≡ true → is_warned l us ≡ true)
    → All (IsHeeded p us) ls
unfolding listens unlisted
All-IsHeeded p us [] h w = tt
All-IsHeeded p us (l ∷ ls) h w = elim (Option-cases l.listening) [
  | inl e ↦ (
    inr (e, w l (ground (arith, e, eq_iff l.label l.label, eq_iff l.why l.why))),
    All-IsHeeded p us ls (ground (arith, e)) (λ k there. w k (ground (arith, e))),
  )
  | inr (ps, e) ↦ (
    inl (ps, e, ground (arith, e)),
    All-IsHeeded p us ls (ground (arith, e)) (λ k there. w k (ground (arith, e))),
  )
]

none_of : (a b c : Bool) → a || (b || c) ≡ false → (a ≡ false) × (b ≡ false) × (c ≡ false)
none_of false false false h = (refl, refl, refl)
none_of true b c h = absurd (cc)
none_of false true c h = absurd (cc)
none_of false false true h = absurd (cc)

moved_to-warned :
    (l : Listener) (preferred : Option ℕ) (taken : Ports) (found : Option ℕ) (ws us : List Warning)
    (p : ℕ)
    → moved_to preferred taken found ws ≡ some (p, us)
    → is_warned l ws ≡ true
    → is_warned l us ≡ true
moved_to-warned l preferred taken none ws us p e h = absurd (cc)
moved_to-warned l none taken (some r) ws us p e h = ground arith
moved_to-warned l (some q) taken (some r) ws us p e h =
    ground (arith, is_warned-append l ws (moved q (find_port q taken) r ∷ []))

allocate_from-some :
    (taken : Ports) (s n p : ℕ)
    → allocate_from taken s n ≡ some p
    → (is_taken p taken ≡ false) × (s ≤ p) × (p < s + n)
unfolding allocate_from
allocate_from-some taken s zero p e = absurd (cc)
allocate_from-some taken s (suc n) p e = elim (Bool-cases (is_taken s taken)) [
  | inl busy ↦
      let (free, above, below) = allocate_from-some taken (suc s) n p (ground (arith, busy)) in
      (free, omega (arith, above), omega (arith, below))
  | inr idle ↦ ground (arith, idle)
]

allocate_from-none :
    (taken : Ports) (s n p : ℕ)
    → allocate_from taken s n ≡ none
    → s ≤ p
    → p < s + n
    → is_taken p taken ≡ true
unfolding allocate_from
allocate_from-none taken s zero p e above below = absurd (omega arith)
allocate_from-none taken s (suc n) p e above below = elim (Bool-cases (is_taken s taken)) [
  | inl busy ↦ ground (arith, busy, allocate_from-none taken (suc s) n p)
  | inr idle ↦ absurd (ground (arith, idle))
]

moved_to-some :
    (preferred : Option ℕ) (taken : Ports) (found : Option ℕ) (ws us : List Warning) (p : ℕ)
    → moved_to preferred taken found ws ≡ some (p, us)
    → found ≡ some p
moved_to-some preferred taken none ws us p e = absurd (cc)
moved_to-some none taken (some q) ws us p e = cc
moved_to-some (some r) taken (some q) ws us p e = cc

moved_to-none :
    (preferred : Option ℕ) (taken : Ports) (found : Option ℕ) (ws : List Warning)
    → moved_to preferred taken found ws ≡ none
    → found ≡ none
moved_to-none preferred taken none ws e = refl
moved_to-none none taken (some q) ws e = absurd (cc)
moved_to-none (some r) taken (some q) ws e = absurd (cc)

module _ (taken : Ports) (range : Range) (ws : List Warning) where
  allocated :
      (p : ℕ)
      → allocate_port taken range.first range.last ≡ some p
      → (is_taken p taken ≡ false) × (range.first ≤ p) × (p ≤ range.last)
  unfolding allocate_port
  allocated p e =
      let (free, above, below) =
        allocate_from-some taken range.first (suc range.last - range.first) p e in
      (free, above, omega (arith, above, below))

  chosen-some :
      (preferred : Option ℕ) (us : List Warning) (p : ℕ)
      → chosen preferred taken range ws ≡ some (p, us)
      → (is_taken p taken ≡ false) × ((preferred ≡ some p) ⊎ ((range.first ≤ p) × (p ≤ range.last)))
  chosen-some none us p e =
      let (free, above, below) =
        allocated p
          (moved_to-some none taken (allocate_port taken range.first range.last) ws us p e) in
      (free, inr (above, below))
  chosen-some (some q) us p e = elim (Bool-cases (nonzero q && not (is_taken q taken))) [
    | inl kept ↦ ground (arith, kept)
    | inr not_kept ↦
        let (free, above, below) = allocated p (
          moved_to-some (some q) taken (allocate_port taken range.first range.last) ws us p
            (ground (arith, not_kept))) in
        (free, inr (above, below))
  ]

  chosen-warned :
      (l : Listener) (preferred : Option ℕ) (us : List Warning) (p : ℕ)
      → chosen preferred taken range ws ≡ some (p, us)
      → is_warned l ws ≡ true
      → is_warned l us ≡ true
  chosen-warned l none us p e h =
      moved_to-warned l none taken (allocate_port taken range.first range.last) ws us p e h
  chosen-warned l (some q) us p e h = elim (Bool-cases (nonzero q && not (is_taken q taken))) [
    | inl kept ↦ ground (arith, kept)
    | inr not_kept ↦
        moved_to-warned l (some q) taken (allocate_port taken range.first range.last) ws us p
          (ground (arith, not_kept)) h
  ]

  chosen-none :
      (preferred : Option ℕ) (p : ℕ)
      → chosen preferred taken range ws ≡ none
      → range.first ≤ p
      → p ≤ range.last
      → is_taken p taken ≡ true
  unfolding allocate_port
  chosen-none none p e above below =
      allocate_from-none taken range.first (suc range.last - range.first) p
        (moved_to-none none taken (allocate_port taken range.first range.last) ws e) above
        (omega arith)
  chosen-none (some q) p e above below = elim (Bool-cases (nonzero q && not (is_taken q taken))) [
    | inl kept ↦ absurd (ground (arith, kept))
    | inr not_kept ↦
        allocate_from-none taken range.first (suc range.last - range.first) p
          (moved_to-none (some q) taken (allocate_port taken range.first range.last) ws
            (ground (arith, not_kept)))
          above (omega arith)
  ]

module _ (is_local : String → Answer Bool) (nodes : List String) (listeners : List Listener)
    (reserved : List (Option ℕ × String)) (exclude : String) (range : Range)
    (rs : List Deployment) where
  -- The port that a run gets, unless it is zero: no run on record but the excluded one has it on a
  -- node of the run; the engine does not reserve it; every node of the run that answered does not
  -- list it, and every one that did not answer is named in the warnings, with the reason; and it is
  -- the preferred port or lies in the configured range.
  pub choose_port-free :
      (preferred : Option ℕ) (p : ℕ) (ws : List Warning)
      → choose_port is_local preferred nodes listeners reserved exclude range rs ≡ some (p, ws)
      → nonzero p ≡ true
      → (held_on is_local exclude rs p (or_here (map (node_key is_local) nodes)) ≡ false)
        × (reserves p reserved ≡ false)
        × All (IsHeeded p ws) listeners
        × ((preferred ≡ some p) ⊎ ((range.first ≤ p) × (p ≤ range.last)))
  unfolding choose_port
  choose_port-free preferred p ws e z =
      let taken = taken_on is_local nodes listeners reserved exclude rs in
      let (free, place) = chosen-some taken range (unlisted listeners) preferred ws p e in
      let keys = or_here (map (node_key is_local) nodes) in
      let idle : is_busy is_local exclude rs p nodes listeners reserved ≡ false =
        ground (arith, free, taken_on-is_busy is_local exclude rs p nodes listeners reserved z) in
      let (unheld, unheard, unreserved) =
        none_of (held_on is_local exclude rs p keys) (listens p listeners) (reserves p reserved)
          idle in
      (
        unheld,
        unreserved,
        All-IsHeeded p ws listeners unheard
            (λ l. chosen-warned taken range (unlisted listeners) l preferred ws p e),
        place,
      )

  -- A preferred port other than zero is kept, with no warning but of the nodes that could not be
  -- asked, where no run on record has it on a node of the run, no node that answered listens on it
  -- and the engine does not reserve it.
  pub choose_port-preferred :
      (q : ℕ)
      → nonzero q ≡ true
      → is_busy is_local exclude rs q nodes listeners reserved ≡ false
      → choose_port is_local (some q) nodes listeners reserved exclude range rs
        ≡ some (q, unlisted listeners)
  unfolding choose_port
  choose_port-preferred q z free =
      ground (arith, taken_on-is_busy is_local exclude rs q nodes listeners reserved z)

  -- The choice fails only when every port of the configured range, zero aside, is busy: a run on
  -- record has it on a node of the run, or a node that answered listens on it, or the engine
  -- reserves it.
  pub choose_port-none :
      (preferred : Option ℕ) (p : ℕ)
      → choose_port is_local preferred nodes listeners reserved exclude range rs ≡ none
      → nonzero p ≡ true
      → range.first ≤ p
      → p ≤ range.last
      → is_busy is_local exclude rs p nodes listeners reserved ≡ true
  unfolding choose_port
  choose_port-none preferred p e z above below =
      let taken = taken_on is_local nodes listeners reserved exclude rs in
      let busy = chosen-none taken range (unlisted listeners) preferred p e above below in
      ground (arith, busy, taken_on-is_busy is_local exclude rs p nodes listeners reserved z)
