-- ===== src/EventLog/Retention.antt =====
-- The bound on the rows of a resource (`trim`, `sweep` and `record` in
-- spark_pulse/tools/event_log.py).
use spark_pulse.Prelude.{
  ℕ, zero, suc, ◌+◌, ◌-◌, ◌≤◌, String, ◌≡◌, inl, inr, refl, ap, Bool, true, false, not, ◌&&◌, List,
  [], ◌∷◌, ◌++◌, keep, any, length, arith, eq_iff, str_eq, truthy, ltb, nonzero, if◌then◌else◌,
  Bool-cases,
}
use spark_pulse.EventLog.{
  Event, Row, Log, is_of, of, drop_oldest, trim, is_since, sweep, sweep_if_due, row_of, is_taken,
  record_event, forget, max_per_resource, retention, age_sweep_interval,
}

module _ {A : Type 0} (p : A → Bool) where
  pub keep-append : (xs ys : List A) → keep p (xs ++ ys) ≡ keep p xs ++ keep p ys
  keep-append [] ys = refl
  keep-append (x ∷ xs) ys = elim (Bool-cases (p x)) [
    | inl kept ↦ ground (arith, kept, keep-append xs ys)
    | inr dropped ↦ ground (arith, dropped, keep-append xs ys)
  ]

  pub keep-shorter : (xs : List A) → length (keep p xs) ≤ length xs
  keep-shorter [] = omega arith
  keep-shorter (x ∷ xs) =
      let h = keep-shorter xs in
      elim (Bool-cases (p x)) [
        | inl kept ↦ ground (arith, kept, h)
        | inr dropped ↦ ground (arith, dropped, h)
      ]

-- Two filters in either order leave no more than one.
keep-keep-shorter :
    {A : Type 0} (p q : A → Bool) (xs : List A) → length (keep p (keep q xs)) ≤ length (keep p xs)
keep-keep-shorter p q [] = omega arith
keep-keep-shorter p q (x ∷ xs) =
    let h = keep-keep-shorter p q xs in
    elim (Bool-cases (q x)) [
      | inl kept ↦ elim (Bool-cases (p x)) [
        | inl both ↦ ground (arith, kept, both, h)
        | inr one ↦ ground (arith, kept, one, h)
      ]
      | inr dropped ↦ elim (Bool-cases (p x)) [
        | inl both ↦ ground (arith, dropped, both, h)
        | inr one ↦ ground (arith, dropped, one, h)
      ]
    ]

unfoldable pub drop : {A : Type 0} → ℕ → List A → List A
drop zero xs = xs
drop (suc n) [] = []
drop (suc n) (x ∷ xs) = drop n xs

pub length-drop : {A : Type 0} (n : ℕ) (xs : List A) → length (drop n xs) ≡ length xs - n
unfolding drop
length-drop zero xs = omega arith
length-drop (suc n) [] = omega arith
length-drop (suc n) (x ∷ xs) = omega (arith, length-drop n xs)

-- The rows of the resource lose their oldest, and those of every other resource stay.
pub drop_oldest-of :
    (n : ℕ) (resource : String) (rows : List Row)
    → of resource (drop_oldest n resource rows) ≡ drop n (of resource rows)
unfolding drop_oldest drop
drop_oldest-of zero resource [] = refl
drop_oldest-of (suc n) resource [] = refl
drop_oldest-of zero resource (row ∷ rows) = refl
drop_oldest-of (suc n) resource (row ∷ rows) = elim (Bool-cases (is_of resource row)) [
  | inl mine ↦ ground (arith, mine, drop_oldest-of n resource rows)
  | inr other ↦ ground (arith, other, drop_oldest-of (suc n) resource rows)
]

drop_oldest-other :
    (n : ℕ) (resource other : String) (rows : List Row)
    → str_eq resource other ≡ false
    → of other (drop_oldest n resource rows) ≡ of other rows
unfolding drop_oldest
drop_oldest-other zero resource other [] e = refl
drop_oldest-other (suc n) resource other [] e = refl
drop_oldest-other zero resource other (row ∷ rows) e = refl
drop_oldest-other (suc n) resource other (row ∷ rows) e = elim (Bool-cases (is_of resource row)) [
  | inl mine ↦
      let not_theirs : is_of other row ≡ false =
        ground (arith, eq_iff row.event.resource resource) in
      ground (arith, mine, not_theirs, drop_oldest-other n resource other rows e)
  | inr else_ ↦ elim (Bool-cases (is_of other row)) [
    | inl theirs ↦ ground (arith, else_, theirs, drop_oldest-other (suc n) resource other rows e)
    | inr neither ↦ ground (arith, else_, neither, drop_oldest-other (suc n) resource other rows e)
  ]
]

-- A trim of a resource with a name leaves the newest thousand of its events, and every event of
-- another resource.
pub trim-of :
    (resource other : String) (log : Log)
    → truthy resource ≡ true
    → of other (trim resource log).1.rows ≡ (
        if str_eq resource other
        then drop (length (of other log.rows) - max_per_resource) (of other log.rows)
        else of other log.rows)
unfolding trim
trim-of resource other log named = elim (Bool-cases (str_eq resource other)) [
  | inl mine ↦
      let q : resource ≡ other = ground (arith, eq_iff resource other) in
      let n = length (of other log.rows) - max_per_resource in
      rw named (rw mine (rw q (drop_oldest-of n other log.rows)))
  | inr theirs ↦
      let n = length (of resource log.rows) - max_per_resource in
      rw named (rw theirs (drop_oldest-other n resource other log.rows theirs))
]

-- At most a thousand events of each resource that has a name.
abbrev pub IsBounded : Log → Type 0
IsBounded log =
    (resource : String) → truthy resource ≡ true → length (of resource log.rows) ≤ max_per_resource

-- A trim of a resource bounds it, whatever was there, and enlarges no other.
trim-bounds :
    (resource other : String) (log : Log)
    → truthy other ≡ true
    → (str_eq resource other ≡ false → length (of other log.rows) ≤ max_per_resource)
    → length (of other (trim resource log).1.rows) ≤ max_per_resource
trim-bounds resource other log named small = elim (Bool-cases (truthy resource)) [
  | inl has_name ↦
      let split = trim-of resource other log has_name in
      elim (Bool-cases (str_eq resource other)) [
        | inl mine ↦
            let n = length (of other log.rows) - max_per_resource in
            ground (arith, split, mine, length-drop n (of other log.rows))
        | inr theirs ↦ let le = small theirs in ground (arith, split, theirs, le)
      ]
  | inr blank ↦
      let theirs : str_eq resource other ≡ false =
        ground (arith, eq_iff resource other, eq_iff resource "") in
      let le = small theirs in unfold trim in ground (arith, blank, le)
]

sweep-IsBounded : (now : ℕ) (log : Log) → IsBounded log → IsBounded (sweep now log).1
unfolding sweep
sweep-IsBounded now log b resource named =
    let le = keep-keep-shorter (is_of resource) (is_since (now - retention)) log.rows in
    let small = b resource named in omega (arith, le, small)

sweep_if_due-IsBounded : (now : ℕ) (log : Log) → IsBounded log → IsBounded (sweep_if_due now log).1
unfolding sweep_if_due
sweep_if_due-IsBounded now log b =
    elim (Bool-cases (nonzero log.last_sweep && ltb (now - log.last_sweep) age_sweep_interval)) [
      | inl early ↦ rw early b
      | inr due ↦ rw due (sweep-IsBounded now (record log { last_sweep = now }) b)
    ]

pub of-append :
    (resource : String) (rows : List Row) (row : Row)
    → is_of resource row ≡ false
    → of resource (rows ++ row ∷ []) ≡ of resource rows
of-append resource [] row e = rw e refl
of-append resource (q ∷ rows) row e = elim (Bool-cases (is_of resource q)) [
  | inl mine ↦ ground (arith, mine, of-append resource rows row e)
  | inr other ↦ ground (arith, other, of-append resource rows row e)
]

record_event-IsBounded :
    (accepts : Bool) (e : Event) (now : ℕ) (log : Log)
    → IsBounded log
    → IsBounded (record_event accepts e now log).1
unfolding record_event
record_event-IsBounded accepts e now log b =
    let added : Log = record log {
      rows = log.rows ++ row_of log.next e ∷ [];
      next = log.next + 1;
    } in
    let trimmed : IsBounded (trim e.resource added).1 = λ resource named.
      trim-bounds e.resource resource added named (λ theirs.
        let same = of-append resource log.rows (row_of log.next e) theirs in
        let small = b resource named in omega (arith, ap length same, small)) in
    elim (Bool-cases (accepts && not (any (is_taken e.event_id) log.rows))) [
      | inl taken ↦ rw taken (sweep_if_due-IsBounded now (trim e.resource added).1 trimmed)
      | inr refused ↦ rw refused b
    ]

forget-IsBounded : (gone : String) (log : Log) → IsBounded log → IsBounded (forget gone log).1
unfolding forget
forget-IsBounded gone log b resource named =
    let le = keep-keep-shorter (is_of resource) (λ row. not (is_of gone row)) log.rows in
    let small = b resource named in omega (arith, le, small)

-- One operation on the log.
pub data Step (log : Log) : Log → Type 0 where
  recording :
      (accepts : Bool) → (e : Event) → (now : ℕ) → Step log (record_event accepts e now log).1
  trimming : (resource : String) → Step log (trim resource log).1
  sweeping : (now : ℕ) → Step log (sweep now log).1
  forgetting : (resource : String) → Step log (forget resource log).1

-- The logs that operations lead to, from an empty one.
pub data Reaches : Log → Type 0 where
  empty : Reaches (record { rows = []; next = 1; last_sweep = 0 })
  after : {log log' : Log} → Reaches log → Step log log' → Reaches log'

step-IsBounded : (log log' : Log) → Step log log' → IsBounded log → IsBounded log'
step-IsBounded log _ (recording accepts e now) b = record_event-IsBounded accepts e now log b
step-IsBounded log _ (trimming resource) b =
    λ other named. trim-bounds resource other log named (λ theirs. b other named)
step-IsBounded log _ (sweeping now) b = sweep-IsBounded now log b
step-IsBounded log _ (forgetting resource) b = forget-IsBounded resource log b

-- Whatever operations a log went through since it was empty, it holds at most a thousand events of
-- each resource that has a name.
pub Reaches-IsBounded :
    (log : Log) (resource : String)
    → Reaches log
    → truthy resource ≡ true
    → length (of resource log.rows) ≤ max_per_resource
Reaches-IsBounded log resource reach named = bounded log reach resource named
  where
    bounded : (log : Log) → Reaches log → IsBounded log
    bounded _ empty = λ resource named. omega arith
    bounded _ (after {log = l} {log' = k} reach step) = step-IsBounded l k step (bounded l reach)
