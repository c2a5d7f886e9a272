-- ===== src/EventLog.antt =====
-- The event log (spark_pulse/tools/event_log.py): the `deployment_events` table with its retention,
-- and the pages that are read from it. A database that fails a retention query is not modelled.
use Prim.Native.String.{[] as text_end, ◌∷◌ as text_cons}
use spark_pulse.Prelude.{
  ℕ, zero, suc, ◌+◌, ◌-◌, ◌*◌, String, Bool, true, false, not, ◌&&◌, Option, none, some, List, [],
  ◌∷◌, ◌++◌, map, keep, any, length, ltb, leb, nonzero, truthy, str_eq, if◌then◌else◌, max,
}
pub mod Retention
pub mod Paging
pub mod Kept
pub mod Timelines
pub mod Examples

-- Times are in microseconds since the epoch.
abbrev pub second : ℕ
second = 1000000

-- `MAX_PER_RESOURCE`
abbrev pub max_per_resource : ℕ
max_per_resource = 1000

-- `RETENTION_DAYS`, as a span of time
abbrev pub retention : ℕ
retention = 30 * 86400 * second

abbrev pub age_sweep_interval : ℕ
age_sweep_interval = 300 * second

abbrev pub default_limit : ℕ
default_limit = 200

abbrev pub max_limit : ℕ
max_limit = 1000

-- `DeploymentEvent`, as the log reads it
pub record Event : Type 0 where
  pub event_id : String
  pub resource : String
  pub resource_type : String
  pub event_type : String
  pub severity : String
  pub node : String
  pub message : String
  pub timestamp : String
  pub moment : ℕ

-- `DeploymentEventRow`
pub record Row : Type 0 where
  pub seq : ℕ
  pub event : Event
  pub recorded_at : ℕ

-- The rows by their sequence numbers, the next of those, and `_last_sweep`, which is zero before the
-- first.
pub record Log : Type 0 where
  pub rows : List Row
  pub next : ℕ
  pub last_sweep : ℕ

-- `text[:n]`
unfoldable pub text_take : ℕ → String → String
text_take zero s = text_end
text_take (suc n) text_end = text_end
text_take (suc n) (text_cons c s) = text_cons c (text_take n s)

abbrev pub is_of : String → Row → Bool
is_of resource row = str_eq row.event.resource resource

-- The rows of a resource, the oldest first.
abbrev pub of : String → List Row → List Row
of resource rows = keep (is_of resource) rows

-- Without the oldest rows of a resource, that many.
unfoldable pub drop_oldest : ℕ → String → List Row → List Row
drop_oldest n resource [] = []
drop_oldest zero resource (row ∷ rows) = row ∷ rows
drop_oldest (suc n) resource (row ∷ rows) =
    let fewer = drop_oldest n resource rows in
    let as_many = drop_oldest (suc n) resource rows in
    if is_of resource row then fewer else row ∷ as_many

-- `trim`: how many were dropped, and the log.
unfoldable pub trim : String → Log → ℕ × Log
unfolding drop_oldest
trim resource log =
    let excess = length (of resource log.rows) - max_per_resource in
    if truthy resource
    then (excess, record log { rows = drop_oldest excess resource log.rows })
    else (0, log)

abbrev pub is_since : ℕ → Row → Bool
is_since cutoff row = not (ltb row.recorded_at cutoff)

unfoldable pub sweep : ℕ → Log → ℕ × Log
sweep now log =
    let kept = keep (is_since (now - retention)) log.rows in
    (length log.rows - length kept, record log { rows = kept })

unfoldable pub sweep_if_due : ℕ → Log → ℕ × Log
unfolding sweep
sweep_if_due now log =
    if nonzero log.last_sweep && ltb (now - log.last_sweep) age_sweep_interval
    then (0, log)
    else sweep now (record log { last_sweep = now })

abbrev pub row_of : ℕ → Event → Row
row_of seq e = record {
  seq = seq;
  event = record e { node = text_take 255 e.node };
  recorded_at = e.moment;
}

abbrev pub is_taken : String → Row → Bool
is_taken id row = str_eq row.event.event_id id

-- `record`: the id of an event is unique, and `accepts` is whether the database takes the row
-- otherwise.
unfoldable pub record_event : (accepts : Bool) → Event → (now : ℕ) → Log → Bool × Log
unfolding trim sweep_if_due text_take
record_event accepts e now log =
    let added = record log { rows = log.rows ++ row_of log.next e ∷ []; next = log.next + 1 } in
    if accepts && not (any (is_taken e.event_id) log.rows)
    then (true, (sweep_if_due now (trim e.resource added).1).1)
    else (false, log)

-- A `limit` that is given; zero stands for none.
pub data Limit : Type 0 where
  at_most : ℕ → Limit
  negative : Limit

-- `max(1, min(int(limit or DEFAULT_LIMIT), MAX_LIMIT))`
unfoldable pub capped : Limit → ℕ
capped negative = 1
capped (at_most n) =
    let asked = if nonzero n then n else default_limit in
    if leb asked max_limit then max 1 asked else max_limit

unfoldable pub take : {A : Type 0} → ℕ → List A → List A
take zero xs = []
take (suc n) [] = []
take (suc n) (x ∷ xs) = x ∷ take n xs

unfoldable pub newest_first : {A : Type 0} → List A → List A
newest_first [] = []
newest_first (x ∷ xs) = newest_first xs ++ x ∷ []

abbrev pub is_before : Option ℕ → Row → Bool
is_before none row = true
is_before (some cutoff) row = ltb row.recorded_at cutoff

pub record Page : Type 0 where
  pub resource : String
  pub events : List Event
  pub total : ℕ
  pub limit : ℕ

abbrev pub frame_of : Row → Event
frame_of row = row.event

unfoldable pub page_rows : String → Limit → Option ℕ → Log → List Row
unfolding capped take newest_first
page_rows resource limit cutoff log =
    take (capped limit) (newest_first (keep (is_before cutoff) (of resource log.rows)))

-- `_parse`, where `iso` reads an instant, and `respaced` puts back a "+" that arrived as a space.
abbrev pub or_else : Option ℕ → Option ℕ → Option ℕ
or_else none other = other
or_else (some n) other = some n

unfoldable pub parse : (iso : String → Option ℕ) → (respaced : String → String) → String → Option ℕ
parse iso respaced moment = or_else (iso moment) (iso (respaced moment))

unfoldable pub history :
    (iso : String → Option ℕ)
    → (respaced : String → String) → (resource : String) → Limit
    → (before : String) → Log
    → Page
unfolding page_rows parse
history iso respaced resource limit before log =
    let cutoff = if truthy before then parse iso respaced before else none in
    record {
      resource = resource;
      events = map frame_of (page_rows resource limit cutoff log);
      total = length (of resource log.rows);
      limit = capped limit;
    }

unfoldable pub forget : String → Log → ℕ × Log
forget resource log = (
  length (of resource log.rows),
  record log { rows = keep (λ row. not (is_of resource row)) log.rows },
)
