-- ===== src/EventLog/Kept.antt =====
-- What a page of `history` (spark_pulse/tools/event_log.py) says of an event that was just recorded.
use Prim.Native.String.{count, [] as text_end, ◌∷◌ as text_cons, ◌++◌ as text_append}
use text.Mathlib.TextLemmas.{nil-append, cons-append, length-cons}
use spark_pulse.Prelude.{
  ℕ, zero, suc, ◌-◌, ◌≤◌, String, ◌≡◌, ◌⊎◌, inl, inr, refl, ap, sym, ◌∙◌, true, Bool, Option, List,
  ◌∷◌, map, arith,
}
use spark_pulse.EventLog.{
  Event, Log, row_of, record_event, retention, Limit, text_take, history, frame_of,
}
use spark_pulse.EventLog.Paging.{page_rows-first}

-- The text is the other one, without what comes after its first 255 characters.
abbrev pub IsCut : String → String → Type 0
IsCut cut whole =
    (tail : String) × (whole ≡ text_append cut tail)
    × (count cut ≤ 255)
    × ((tail ≡ "") ⊎ (count cut ≡ 255))

-- The event that is read is the one that was recorded, field by field, its node cut.
pub record IsKept (e read : Event) : Type 0 where
  pub event_id : read.event_id ≡ e.event_id
  pub resource : read.resource ≡ e.resource
  pub resource_type : read.resource_type ≡ e.resource_type
  pub event_type : read.event_type ≡ e.event_type
  pub severity : read.severity ≡ e.severity
  pub message : read.message ≡ e.message
  pub timestamp : read.timestamp ≡ e.timestamp
  pub node : IsCut read.node e.node

text_take-cuts :
    (n : ℕ) (s : String)
    → (tail : String) × (s ≡ text_append (text_take n s) tail)
      × (count (text_take n s) ≤ n)
      × ((tail ≡ "") ⊎ (count (text_take n s) ≡ n))
unfolding text_take
text_take-cuts zero s = (s, sym (nil-append s), omega arith, inr refl)
text_take-cuts (suc n) text_end = ("", sym (nil-append ""), omega arith, inl refl)
text_take-cuts (suc n) (text_cons c s) =
    let (tail, joined, short, whole) = text_take-cuts n s in
    let longer = length-cons c (text_take n s) in
    (
      tail,
      ap (text_cons c) joined ∙ sym (cons-append c (text_take n s) tail),
      omega (arith, longer),
      elim whole [ inl e ↦ inl e | inr e ↦ inr (omega (arith, longer, e)) ],
    )

-- An event that was recorded, and that is not older than the retention, comes first in the history
-- of its resource, whatever limit is asked for: with the id, the resource, the kinds, the severity,
-- the message and the time of the event, and its node, of which the first 255 characters are kept.
pub record_event-first :
    (accepts : Bool) (e : Event) (now : ℕ) (log log' : Log) (limit : Limit)
    (iso : String → Option ℕ) (respaced : String → String)
    → record_event accepts e now log ≡ (true, log')
    → now - retention ≤ e.moment
    → (read : Event) × (rest : List Event) × ((history iso respaced e.resource limit "" log').events
        ≡ read ∷ rest)
      × IsKept e read
unfolding history
record_event-first accepts e now log log' limit iso respaced done fresh =
    let (rest, first) = page_rows-first accepts e now log log' limit done fresh in
    (
      frame_of (row_of log.next e),
      map frame_of rest,
      ap (map frame_of) first,
      record {
        event_id = refl;
        resource = refl;
        resource_type = refl;
        event_type = refl;
        severity = refl;
        message = refl;
        timestamp = refl;
        node = text_take-cuts 255 e.node;
      },
    )
