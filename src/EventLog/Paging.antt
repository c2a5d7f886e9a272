-- ===== src/EventLog/Paging.antt =====
-- Reading the log back (`history` in spark_pulse/tools/event_log.py): its bounds, the walk backwards
-- by the time of an event, and an event that was just recorded.
use spark_pulse.Prelude.{
  ℕ, zero, suc, ◌+◌, ◌-◌, ◌≤◌, ◌<◌, String, ◌≡◌, inl, inr, refl, ap, ◌∙◌, Bool, true, false, not,
  ◌&&◌, Option, none, some, List, [], ◌∷◌, ◌++◌, map, keep, any, length, arith, eq_refl, truthy,
  ltb, nonzero, length-append, if◌then◌else◌, Bool-cases, subst, All,
}
use spark_pulse.EventLog.{
  Event, Row, Log, is_of, of, trim, is_since, sweep, sweep_if_due, row_of, is_taken, record_event,
  max_per_resource, retention, age_sweep_interval, Limit, at_most, negative, capped, take,
  newest_first, is_before, page_rows, parse, history, max_limit, frame_of,
}
use spark_pulse.EventLog.Retention.{drop, keep-append, keep-shorter, trim-of}

module _ {A : Type 0} where
  length-take : (n : ℕ) (xs : List A) → (length (take n xs) ≤ n) × (length (take n xs) ≤ length xs)
  unfolding take
  length-take zero xs = (omega arith, omega arith)
  length-take (suc n) [] = (omega arith, omega arith)
  length-take (suc n) (x ∷ xs) =
      let (a, b) = length-take n xs in (omega (arith, a), omega (arith, b))

  length-map : {B : Type 0} (f : A → B) (xs : List A) → length (map f xs) ≡ length xs
  length-map f [] = refl
  length-map f (x ∷ xs) = ap suc (length-map f xs)

  append-nil : (xs : List A) → xs ++ [] ≡ xs
  append-nil [] = refl
  append-nil (x ∷ xs) = ap (λ l. x ∷ l) (append-nil xs)

  newest_first-keep :
      (p : A → Bool) (xs : List A) → newest_first (keep p xs) ≡ keep p (newest_first xs)
  unfolding newest_first
  newest_first-keep p [] = refl
  newest_first-keep p (x ∷ xs) =
      let split = keep-append p (newest_first xs) (x ∷ []) in
      elim (Bool-cases (p x)) [
        | inl kept ↦ ground (arith, kept, split, newest_first-keep p xs)
        | inr dropped ↦
            ground
              (arith, dropped, split, newest_first-keep p xs, append-nil (keep p (newest_first xs)))
      ]

-- The times fall, from the newest row on.
abbrev pub IsFalling : List Row → Type 0
IsFalling [] = Unit
IsFalling (x ∷ xs) = All (λ (y : Row). y.recorded_at < x.recorded_at) xs × IsFalling xs

keep-none_after :
    (t : ℕ) (xs : List Row)
    → All (λ (y : Row). y.recorded_at < t) xs
    → keep (is_before (some t)) xs ≡ xs
keep-none_after t [] all = refl
keep-none_after t (x ∷ xs) (le, all) = ground (arith, keep-none_after t xs all)

not_before : (t : ℕ) (row : Row) → t ≤ row.recorded_at → is_before (some t) row ≡ false
not_before t row le = ground arith

All-at :
    (P : Row → Type 0) (front : List Row) (x : Row) (back : List Row)
    → All P (front ++ x ∷ back)
    → P x
All-at P [] x back (p, all) = p
All-at P (y ∷ front) x back (p, all) = All-at P front x back all

-- From the row at the time of the cursor on, the rows come back; those before it do not.
keep-behind :
    (front : List Row) (x : Row) (back : List Row)
    → IsFalling (front ++ x ∷ back)
    → keep (is_before (some x.recorded_at)) (front ++ x ∷ back) ≡ back
keep-behind [] x back (all, f) =
    let skip = not_before x.recorded_at x (omega arith) in
    rw skip (keep-none_after x.recorded_at back all)
keep-behind (y ∷ front) x back (all, f) =
    let le = All-at (λ (z : Row). z.recorded_at < y.recorded_at) front x back all in
    let skip = not_before x.recorded_at y (omega arith) in rw skip (keep-behind front x back f)

-- Where the times of a resource's events fall strictly from the newest on, the page before the time
-- of an event has the events that come next, up to the limit: a reader that takes the time of the
-- last event it has as its cursor misses none and sees none twice.
pub page_rows-before :
    (resource : String) (limit : Limit) (log : Log) (front back : List Row) (x : Row)
    → newest_first (of resource log.rows) ≡ front ++ x ∷ back
    → IsFalling (front ++ x ∷ back)
    → page_rows resource limit (some x.recorded_at) log ≡ take (capped limit) back
unfolding page_rows
page_rows-before resource limit log front back x split falls = ap (take (capped limit)) (
    newest_first-keep (is_before (some x.recorded_at)) (of resource log.rows)
    ∙ ap (keep (is_before (some x.recorded_at))) split
    ∙ keep-behind front x back falls)

keep-none : (rows : List Row) → keep (is_before none) rows ≡ rows
keep-none [] = refl
keep-none (x ∷ rows) = ap (λ l. x ∷ l) (keep-none rows)

capped-bounds : (limit : Limit) → (1 ≤ capped limit) × (capped limit ≤ max_limit)
unfolding capped
capped-bounds negative = (omega arith, omega arith)
capped-bounds (at_most n) = ground arith

newest_first-length : {A : Type 0} (xs : List A) → length (newest_first xs) ≡ length xs
unfolding newest_first
newest_first-length [] = refl
newest_first-length (x ∷ xs) =
    length-append (newest_first xs) (x ∷ []) ∙ omega (arith, newest_first-length xs)

-- A page has at most as many events as its limit and as its total say, and its limit is between one
-- and a thousand, whatever limit was asked for.
pub history-bounds :
    (iso : String → Option ℕ) (respaced : String → String) (resource before : String)
    (limit : Limit) (log : Log)
    → (length (history iso respaced resource limit before log).events
        ≤ (history iso respaced resource limit before log).limit)
      × ((length (history iso respaced resource limit before log).events
            ≤ (history iso respaced resource limit before log).total)
          × ((1 ≤ (history iso respaced resource limit before log).limit)
              × ((history iso respaced resource limit before log).limit ≤ max_limit)))
unfolding history page_rows
history-bounds iso respaced resource before limit log =
    let cutoff = if truthy before then parse iso respaced before else none in
    let chosen = keep (is_before cutoff) (of resource log.rows) in
    let (a, b) = length-take (capped limit) (newest_first chosen) in
    let c = newest_first-length chosen in
    let d = keep-shorter (is_before cutoff) (of resource log.rows) in
    let e = length-map frame_of (take (capped limit) (newest_first chosen)) in
    let (low, high) = capped-bounds limit in
    (omega (arith, a, e), (omega (arith, b, c, d, e), (low, high)))

-- The rows end with a row.
abbrev EndsWith : Row → List Row → Type 0
EndsWith row rows = (init : List Row) × (rows ≡ init ++ row ∷ [])

keep-EndsWith :
    (p : Row → Bool) (row : Row) (rows : List Row)
    → p row ≡ true
    → EndsWith row rows
    → EndsWith row (keep p rows)
keep-EndsWith p row rows yes_ (init, e) =
    (keep p init, ap (keep p) e ∙ keep-append p init (row ∷ []) ∙ rw yes_ refl)

drop-EndsWith :
    (n : ℕ) (row : Row) (init : List Row)
    → n ≤ length init
    → drop n (init ++ row ∷ []) ≡ drop n init ++ row ∷ []
unfolding drop
drop-EndsWith zero row init le = refl
drop-EndsWith (suc n) row [] le = absurd (omega arith)
drop-EndsWith (suc n) row (x ∷ init) le = drop-EndsWith n row init (omega arith)

pub keep-swap : (p q : Row → Bool) (rows : List Row) → keep p (keep q rows) ≡ keep q (keep p rows)
keep-swap p q [] = refl
keep-swap p q (x ∷ rows) =
    let h = keep-swap p q rows in
    elim (Bool-cases (p x)) [
      | inl one ↦ elim (Bool-cases (q x)) [
        | inl both ↦ ground (arith, one, both, h)
        | inr only ↦ ground (arith, one, only, h)
      ]
      | inr no_p ↦ elim (Bool-cases (q x)) [
        | inl only ↦ ground (arith, no_p, only, h)
        | inr neither ↦ ground (arith, no_p, neither, h)
      ]
    ]

sweep_if_due-EndsWith :
    (now : ℕ) (resource : String) (row : Row) (log : Log)
    → now - retention ≤ row.recorded_at
    → EndsWith row (of resource log.rows)
    → EndsWith row (of resource (sweep_if_due now log).1.rows)
unfolding sweep_if_due sweep
sweep_if_due-EndsWith now resource row log fresh ends =
    elim (Bool-cases (nonzero log.last_sweep && ltb (now - log.last_sweep) age_sweep_interval)) [
      | inl early ↦ rw early ends
      | inr due ↦
          let since : is_since (now - retention) row ≡ true = ground arith in
          rw due (
            subst (EndsWith row) (keep-swap (is_since (now - retention)) (is_of resource) log.rows)
              (keep-EndsWith (is_since (now - retention)) row (of resource log.rows) since ends))
    ]

trim-EndsWith :
    (resource : String) (row : Row) (log : Log)
    → EndsWith row (of resource log.rows)
    → EndsWith row (of resource (trim resource log).1.rows)
trim-EndsWith resource row log (init, e) = elim (Bool-cases (truthy resource)) [
  | inl named ↦
      let n = length (of resource log.rows) - max_per_resource in
      let count = ap length e ∙ length-append init (row ∷ []) in
      let split = trim-of resource resource log named in
      (
        drop n init,
        split
            ∙ rw (eq_refl resource)
                (ap (drop n) e ∙ drop-EndsWith n row init (omega (arith, count))),
      )
  | inr blank ↦ unfold trim in rw blank (init, e)
]

newest_first-EndsWith :
    (init : List Row) (row : Row) → newest_first (init ++ row ∷ []) ≡ row ∷ newest_first init
unfolding newest_first
newest_first-EndsWith [] row = refl
newest_first-EndsWith (x ∷ init) row = ap (λ l. l ++ x ∷ []) (newest_first-EndsWith init row)

less_one : (n : ℕ) → suc n - 1 ≡ n
less_one n = omega arith

take-first : (n : ℕ) (x : Row) (xs : List Row) → 1 ≤ n → take n (x ∷ xs) ≡ x ∷ take (n - 1) xs
unfolding take
take-first zero x xs le = absurd (omega arith)
take-first (suc n) x xs le = rw (less_one n) refl

recorded-EndsWith :
    (e : Event) (now : ℕ) (log : Log)
    → now - retention ≤ e.moment
    → EndsWith (row_of log.next e) (
        of e.resource
          (sweep_if_due now
            (trim e.resource (record log {
              rows = log.rows ++ row_of log.next e ∷ [];
              next = log.next + 1;
            })).1).1.rows)
recorded-EndsWith e now log fresh =
    let row = row_of log.next e in
    let added : Log = record log { rows = log.rows ++ row ∷ []; next = log.next + 1 } in
    let ends : EndsWith row (of e.resource added.rows) = (
      of e.resource log.rows,
      keep-append (is_of e.resource) log.rows (row ∷ []) ∙ rw (eq_refl e.resource) refl,
    ) in
    sweep_if_due-EndsWith now e.resource row (trim e.resource added).1 fresh
      (trim-EndsWith e.resource row added ends)

-- The row of an event that was recorded, and that is not older than the retention, is the newest
-- of its resource, whatever limit is asked for.
pub page_rows-first :
    (accepts : Bool) (e : Event) (now : ℕ) (log log' : Log) (limit : Limit)
    → record_event accepts e now log ≡ (true, log')
    → now - retention ≤ e.moment
    → (rest : List Row) × (page_rows e.resource limit none log' ≡ row_of log.next e ∷ rest)
unfolding record_event page_rows
page_rows-first accepts e now log log' limit done fresh =
    elim (Bool-cases (accepts && not (any (is_taken e.event_id) log.rows))) [
      | inl taken ↦
          let row = row_of log.next e in
          let added : Log = record log { rows = log.rows ++ row ∷ []; next = log.next + 1 } in
          let kept = (sweep_if_due now (trim e.resource added).1).1 in
          let same : kept ≡ log' = ground (arith, taken) in
          let (init, ends) = recorded-EndsWith e now log fresh in
          let read =
            ap newest_first (keep-none (of e.resource kept.rows) ∙ ends)
            ∙ newest_first-EndsWith init row in
          (
            take (capped limit - 1) (newest_first init),
            subst
                (λ (l : Log).
                  take (capped limit) (newest_first (keep (is_before none) (of e.resource l.rows)))
                  ≡ row ∷ take (capped limit - 1) (newest_first init))
                same
                (ap (take (capped limit)) read
                  ∙ take-first (capped limit) row (newest_first init) (capped-bounds limit).0),
          )
      | inr refused ↦ absurd (ground (arith, refused))
    ]
