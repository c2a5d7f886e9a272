-- ===== src/EventLog/Timelines.antt =====
-- The event log as one timeline per resource: what recording an event means for each of them
-- (`record` in spark_pulse/tools/event_log.py).
use spark_pulse.Prelude.{
  leb, ℕ, ◌+◌, ◌-◌, String, ◌≡◌, inl, inr, refl, ap, ◌∙◌, subst, Bool, true, not, ◌&&◌, List, [],
  ◌∷◌, ◌++◌, keep, any, length, arith, eq_iff, eq_refl, str_eq, truthy, ltb, nonzero, if◌then◌else◌,
  Bool-cases,
}
use spark_pulse.EventLog.{
  Event, Row, Log, is_of, of, trim, is_since, sweep, sweep_if_due, row_of, is_taken, record_event,
  max_per_resource, retention, age_sweep_interval,
}
use spark_pulse.EventLog.Retention.{drop, keep-append, of-append, trim-of}
use spark_pulse.EventLog.Paging.{keep-swap}

-- The abstract log.
abbrev pub Timelines : Type 0
Timelines = String → List Row

abbrev pub timelines : Log → Timelines
timelines log = λ resource. of resource log.rows

-- The last thousand of a resource that has a name, and all of the others'.
abbrev pub newest : String → List Row → List Row
newest resource rows = if truthy resource then drop (length rows - max_per_resource) rows else rows

abbrev pub add : Row → Timelines → Timelines
add row t = λ resource.
    if str_eq row.event.resource resource
    then newest resource (t resource ++ row ∷ [])
    else t resource

abbrev pub age : ℕ → Timelines → Timelines
age cutoff t = λ resource. keep (λ row. leb cutoff row.recorded_at) (t resource)

abbrev pub is_due : ℕ → Log → Bool
is_due now log = not (nonzero log.last_sweep && ltb (now - log.last_sweep) age_sweep_interval)

is_since_lem : (cutoff : ℕ) (row : Row) → is_since cutoff row ≡ leb cutoff row.recorded_at
is_since_lem cutoff row = ground arith

keep-since :
    (cutoff : ℕ) (rows : List Row)
    → keep (is_since cutoff) rows ≡ keep (λ row. leb cutoff row.recorded_at) rows
keep-since cutoff [] = refl
keep-since cutoff (x ∷ rows) = ground (arith, keep-since cutoff rows, is_since_lem cutoff x)

sweep_if_due-timelines :
    (now : ℕ) (log : Log) (resource : String)
    → timelines (sweep_if_due now log).1 resource ≡ (
        if is_due now log
        then age (now - retention) (timelines log) resource
        else timelines log resource)
unfolding sweep_if_due sweep
sweep_if_due-timelines now log resource =
    elim (Bool-cases (nonzero log.last_sweep && ltb (now - log.last_sweep) age_sweep_interval)) [
      | inl early ↦ rw early refl
      | inr due ↦ rw due (
          keep-swap (is_of resource) (is_since (now - retention)) log.rows
          ∙ keep-since (now - retention) (of resource log.rows))
    ]

own_timeline :
    (row : Row) (log : Log) (n : ℕ)
    → of row.event.resource
        (trim row.event.resource (record log { rows = log.rows ++ row ∷ []; next = n })).1.rows
      ≡ newest row.event.resource (of row.event.resource log.rows ++ row ∷ [])
own_timeline row log n =
    let r = row.event.resource in
    let more : Log = record log { rows = log.rows ++ row ∷ []; next = n } in
    let split : of r more.rows ≡ of r log.rows ++ row ∷ [] =
      keep-append (is_of r) log.rows (row ∷ []) ∙ rw (eq_refl r) refl in
    elim (Bool-cases (truthy r)) [
      | inl named ↦
          let cut : of r (trim r more).1.rows
              ≡ drop (length (of r more.rows) - max_per_resource) (of r more.rows) =
            trim-of r r more named ∙ rw (eq_refl r) refl in
          rw named (cut ∙ ap (λ (l : List Row). drop (length l - max_per_resource) l) split)
      | inr blank ↦ unfold trim in rw blank split
    ]

added-timelines :
    (row : Row) (log : Log) (n : ℕ) (resource : String)
    → timelines
        (trim row.event.resource (record log { rows = log.rows ++ row ∷ []; next = n })).1
        resource
      ≡ add row (timelines log) resource
added-timelines row log n resource =
    let more : Log = record log { rows = log.rows ++ row ∷ []; next = n } in
    elim (Bool-cases (str_eq row.event.resource resource)) [
      | inl mine ↦
          let q : row.event.resource ≡ resource =
            ground (arith, eq_iff row.event.resource resource) in
          rw mine (
            subst
              (λ (s : String).
                of s (trim row.event.resource more).1.rows ≡ newest s (of s log.rows ++ row ∷ []))
              q (own_timeline row log n))
      | inr theirs ↦
          let split : of resource more.rows ≡ of resource log.rows =
            of-append resource log.rows row theirs in
          elim (Bool-cases (truthy row.event.resource)) [
            | inl named ↦
                let kept : of resource (trim row.event.resource more).1.rows
                    ≡ of resource more.rows =
                  trim-of row.event.resource resource more named ∙ rw theirs refl in
                rw theirs (kept ∙ split)
            | inr blank ↦ unfold trim in rw theirs (rw blank split)
          ]
    ]

trim-last_sweep :
    (resource : String) (log : Log) → (trim resource log).1.last_sweep ≡ log.last_sweep
unfolding trim
trim-last_sweep resource log = elim (Bool-cases (truthy resource)) [
  | inl named ↦ rw named refl
  | inr blank ↦ rw blank refl
]

-- The log implements the timelines: recording an event that is taken adds it to the timeline of its
-- resource, of which the newest thousand stay if it has a name, and to no other; and if the age sweep is
-- due, every timeline loses the events older than the retention.
pub record_event-timelines :
    (accepts : Bool) (e : Event) (now : ℕ) (log log' : Log) (resource : String)
    → record_event accepts e now log ≡ (true, log')
    → timelines log' resource ≡ (
        if is_due now log
        then age (now - retention) (add (row_of log.next e) (timelines log)) resource
        else add (row_of log.next e) (timelines log) resource)
unfolding record_event
record_event-timelines accepts e now log log' resource done =
    elim (Bool-cases (accepts && not (any (is_taken e.event_id) log.rows))) [
      | inl taken ↦
          let row = row_of log.next e in
          let added : Log = record log { rows = log.rows ++ row ∷ []; next = log.next + 1 } in
          let trimmed = (trim e.resource added).1 in
          let same : (sweep_if_due now trimmed).1 ≡ log' = ground (arith, taken) in
          let swept = sweep_if_due-timelines now trimmed resource in
          let due : is_due now trimmed ≡ is_due now log =
            ap (λ (n : ℕ). not (nonzero n && ltb (now - n) age_sweep_interval))
              (trim-last_sweep e.resource added) in
          let line = added-timelines row log (log.next + 1) resource in
          subst
            (λ (l : Log). timelines l resource ≡ (
              if is_due now log
              then age (now - retention) (add row (timelines log)) resource
              else add row (timelines log) resource))
            same
            (swept
              ∙ ap
                  (λ (b : Bool).
                    if b
                    then age (now - retention) (timelines trimmed) resource
                    else timelines trimmed resource)
                  due
              ∙ ap
                  (λ (l : List Row).
                    if is_due now log then age (now - retention) (λ r. l) resource else l)
                  line)
      | inr refused ↦ absurd (ground (arith, refused))
    ]
