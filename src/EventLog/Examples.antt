-- ===== src/EventLog/Examples.antt =====
-- The event log at small inputs.
use spark_pulse.Prelude.{
  ℕ, ◌-◌, ◌≤◌, String, ◌≡◌, refl, true, Option, none, some, List, [], ◌∷◌, length, arith,
  if◌then◌else◌,
}
use spark_pulse.EventLog.{
  Event, Log, of, drop_oldest, trim, sweep, sweep_if_due, text_take, row_of, record_event, at_most,
  negative, capped, take, newest_first, page_rows, history, max_limit, retention,
}
use spark_pulse.EventLog.Retention.{empty, after, recording, Reaches-IsBounded}
use spark_pulse.EventLog.Paging.{page_rows-before, history-bounds}
use spark_pulse.EventLog.Kept.{IsKept, record_event-first}
use spark_pulse.EventLog.Timelines.{timelines, add, age, is_due, record_event-timelines}

abbrev planned : Event
planned = record {
  event_id = "e1";
  resource = "d1";
  resource_type = "deployment";
  event_type = "planned";
  severity = "info";
  node = "10.0.0.2";
  message = "planned";
  timestamp = "t1";
  moment = 100;
}

abbrev ready : Event
ready = record planned { event_id = "e2"; event_type = "ready"; timestamp = "t2"; moment = 200 }

abbrev nothing : Log
nothing = record { rows = []; next = 1; last_sweep = 0 }

abbrev one : Log
one = (record_event true planned 100 nothing).1

abbrev both : Log
both = (record_event true ready 200 one).1

Reaches-IsBounded_example : length (of "d1" both.rows) ≤ 1000
Reaches-IsBounded_example =
    Reaches-IsBounded both "d1"
      (after (after empty (recording true planned 100)) (recording true ready 200)) refl

record_event-first_example :
    (read : Event) × (rest : List Event) × ((history
        (λ s. none)
        (λ s. s)
        "d1"
        (at_most 5)
        ""
        both).events
      ≡ read ∷ rest)
    × IsKept ready read
record_event-first_example =
    record_event-first true ready 200 one both (at_most 5) (λ s. none) (λ s. s)
      (unfold record_event trim drop_oldest sweep_if_due sweep text_take in refl) (omega arith)

record_event-timelines_example : timelines both "d1" ≡ (
    if is_due 200 one
    then age (200 - retention) (add (row_of one.next ready) (timelines one)) "d1"
    else add (row_of one.next ready) (timelines one) "d1")
record_event-timelines_example =
    record_event-timelines true ready 200 one both "d1"
      (unfold record_event trim drop_oldest sweep_if_due sweep text_take in refl)

page_rows-before_example :
    page_rows "d1" negative (some 200) both ≡ take (capped negative) (row_of 1 planned ∷ [])
page_rows-before_example =
    page_rows-before "d1" negative both [] (row_of 1 planned ∷ []) (row_of 2 ready)
      (unfold record_event trim drop_oldest sweep_if_due sweep text_take newest_first in refl)
      ((omega arith, tt), (tt, tt))

abbrev no_instant : String → Option ℕ
no_instant s = none

abbrev unchanged : String → String
unchanged s = s

history-bounds_example :
    (length (history no_instant unchanged "d1" (at_most 0) "" both).events
      ≤ (history no_instant unchanged "d1" (at_most 0) "" both).limit)
    × ((length (history no_instant unchanged "d1" (at_most 0) "" both).events
          ≤ (history no_instant unchanged "d1" (at_most 0) "" both).total)
        × ((1 ≤ (history no_instant unchanged "d1" (at_most 0) "" both).limit)
            × ((history no_instant unchanged "d1" (at_most 0) "" both).limit ≤ max_limit)))
history-bounds_example = history-bounds no_instant unchanged "d1" "" (at_most 0) both
