-- ===== src/Runtime/Marks.antt =====
-- When `list_deployments` of spark_pulse/tools/native_runtime.py marks a record as stopped, by the
-- containers that this machine lists.
use spark_pulse.Prelude.{
  ℕ, String, ◌≡◌, ◌≢◌, ◌⊎◌, inl, inr, refl, ap, true, false, Option, none, some, List, [], ◌∷◌,
  ◌++◌, any, arith, str_eq, Bool-cases, Option-cases, Any, All, eq_iff,
}
use spark_pulse.Records.{Deployment, Status, Rank, expired}
use spark_pulse.Runtime.Nodes.{Container, running, created}
use spark_pulse.Runtime.Lifecycle.{rank_entries}
use spark_pulse.Runtime.Listing.{
  Listed, Machine, is_alive, by_name, is_lost, is_exempt, is_evidence, changes, stopped_time,
  judge_record,
}

-- The record should have its containers: it is not stopped, not an error and not being pulled, and
-- where it is starting it has a time of its start.
abbrev pub IsLaunched : Status → Option String → Type 0
IsLaunched status started =
    (status ≢ Status.stopped)
    × (status ≢ Status.error)
    × (status ≢ Status.pulling)
    × ((status ≢ Status.starting) ⊎ ((t : String) × (started ≡ some t) × (t ≢ "")))

-- No container in the list has the name.
abbrev pub HasNone : String → List Listed → Type 0
HasNone name cs = All (λ (c : Listed). c.name ≢ name) cs

-- No container of the list has the name, or the last that has it is neither running nor created.
abbrev pub IsDown : String → List Listed → Type 0
IsDown name cs =
    HasNone name cs
    ⊎ ((front : List Listed) × (c : Listed) × (back : List Listed) × (cs ≡ front ++ c ∷ back)
        × (c.name ≡ name)
        × (c.status ≢ running)
        × (c.status ≢ created)
        × HasNone name back)

by_name-HasNone : (name : String) (cs : List Listed) → by_name name cs ≡ none → HasNone name cs
unfolding by_name
by_name-HasNone name [] e = tt
by_name-HasNone name (c ∷ cs) e = elim (Option-cases (by_name name cs)) [
  | inl later ↦
      ((λ same. absurd (ground (arith, later, eq_iff c.name name))), by_name-HasNone name cs later)
  | inr (d, later) ↦ elim (Bool-cases (str_eq c.name name)) [
    | inl here ↦ absurd (ground (arith, later, here))
    | inr there ↦ absurd (ground (arith, later, there))
  ]
]

not_alive : (s : Container) → is_alive s ≡ false → (s ≢ running) × (s ≢ created)
not_alive s h = ((λ e. absurd (ground (arith, e))), (λ e. absurd (ground (arith, e))))

-- The last container of a name.
by_name-last :
    (name : String) (d : Listed) (cs : List Listed)
    → by_name name cs ≡ some d
    → (front : List Listed) × (back : List Listed) × (cs ≡ front ++ d ∷ back)
      × (d.name ≡ name)
      × HasNone name back
unfolding by_name
by_name-last name d [] e = absurd (cc)
by_name-last name d (c ∷ cs) e = elim (Option-cases (by_name name cs)) [
  | inl later ↦
      let here : c ≡ d = ground (arith, later) in
      let named : d.name ≡ name = ground (arith, later, eq_iff c.name name) in
      ([], cs, ap (λ (x : Listed). x ∷ cs) here, named, by_name-HasNone name cs later)
  | inr (x, later) ↦
      let same : by_name name cs ≡ some d = ground (arith, later) in
      let (front, back, split, named, rest) = by_name-last name d cs same in
      (c ∷ front, back, ap (λ (l : List Listed). c ∷ l) split, named, rest)
]

lost-IsDown : (name : String) (cs : List Listed) → is_lost (by_name name cs) ≡ true → IsDown name cs
lost-IsDown name cs e = elim (Option-cases (by_name name cs)) [
  | inl gone ↦ inl (by_name-HasNone name cs gone)
  | inr (d, there) ↦
      let (front, back, split, named, rest) = by_name-last name d cs there in
      let (a, b) = not_alive d.status (ground (arith, there)) in
      inr (front, d, back, split, named, a, b, rest)
]

begun :
    (s : Status) (t : Option String)
    → is_exempt s t ≡ false
    → (s ≢ Status.starting) ⊎ ((x : String) × (t ≡ some x) × (x ≢ ""))
begun Status.starting none h = absurd (cc)
begun Status.starting (some x) h = inr (x, refl, (λ e. absurd (ground (arith, eq_iff x "", e))))
begun Status.stopped t h = absurd (cc)
begun Status.error t h = absurd (cc)
begun Status.pulling t h = absurd (cc)
begun Status.pending t h = inl (λ e. absurd (cc))
begun Status.running t h = inl (λ e. absurd (cc))
begun (Status.other s) t h = inl (λ e. absurd (cc))

launched : (s : Status) (t : Option String) → is_exempt s t ≡ false → IsLaunched s t
launched s t h = (
  (λ e. absurd (ground (arith, e))),
  (λ e. absurd (ground (arith, e))),
  (λ e. absurd (ground (arith, e))),
  begun s t h,
)

module _ (M : Machine) where
  -- The rank names no node, or this machine's address, and its container is down.
  abbrev pub IsGoneHere : List Listed → Rank → Type 0
  IsGoneHere cs q = ((q.node ≡ "") ⊎ (M.is_local q.node ≡ true)) × IsDown q.container_name cs

  is_evidence-IsGoneHere :
      (cs : List Listed) (q : Rank) → is_evidence M cs q ≡ true → IsGoneHere cs q
  is_evidence-IsGoneHere cs q e = (
    elim (Bool-cases (M.is_local q.node)) [
      | inl here ↦ inr here
      | inr there ↦ inl (ground (arith, there, eq_iff q.node ""))
    ],
    lost-IsDown q.container_name cs (ground arith),
  )

  Any-IsGoneHere :
      (cs : List Listed) (rs : List Rank)
      → any (is_evidence M cs) rs ≡ true
      → Any (IsGoneHere cs) rs
  Any-IsGoneHere cs [] e = absurd (cc)
  Any-IsGoneHere cs (q ∷ rs) e = elim (Bool-cases (is_evidence M cs q)) [
    | inl here ↦ inl (is_evidence-IsGoneHere cs q here)
    | inr there ↦ inr (Any-IsGoneHere cs rs (ground (arith, there)))
  ]

  -- The listing's first loop leaves a record as it is, or marks it stopped, and changes nothing else
  -- of it but a time of stopping whose key was absent. It marks only a record that is not stopped, not
  -- an error, not being pulled and, where it is starting, has a time of its start; and only where
  -- some rank of it names no node or an address of this machine, and the last container listed under
  -- the rank's name is neither running nor created, or there is none.
  pub judge_record-evidence :
      (now : String) (cs : List Listed) (r : Deployment)
      → (judge_record M now cs r ≡ r)
        ⊎ ((t : Option String) × (judge_record M now cs r
              ≡ record r { status = Status.stopped; stopped_at = t })
            × ((t ≡ r.stopped_at) ⊎ ((M.has_stopped_at r ≡ false) × (t ≡ some now)))
            × IsLaunched r.status r.started_at
            × Any (IsGoneHere cs) (rank_entries r))
  unfolding judge_record
  judge_record-evidence now cs r = elim (Bool-cases (changes M cs r)) [
    | inr keeps ↦ inl (rw keeps refl)
    | inl marks ↦ inr (
      stopped_time M now r,
      rw marks refl,
      elim (Bool-cases (M.has_stopped_at r)) [
        | inl there ↦ inl (rw there refl)
        | inr absent ↦ inr (absent, rw absent refl)
      ],
      launched r.status r.started_at (ground arith),
      Any-IsGoneHere cs (rank_entries r) (ground arith),
    )
  ]

  -- A record that has the key of its time of stopping, with no time, gets none from the listing:
  -- whether the listing marks it stopped or not, it is then expired at no cutoff.
  pub judge_record-expired :
      (parse : String → Option ℕ) (cutoff : ℕ) (now : String) (cs : List Listed) (r : Deployment)
      → M.has_stopped_at r ≡ true
      → r.stopped_at ≡ none
      → expired parse cutoff (judge_record M now cs r) ≡ false
  unfolding judge_record
  judge_record-expired parse cutoff now cs r key e = elim (Bool-cases (changes M cs r)) [
    | inr keeps ↦ ground (arith, keeps, e)
    | inl marks ↦ ground (arith, marks, e, key)
  ]
