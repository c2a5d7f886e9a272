-- ===== src/Reconciler/Examples.antt =====
-- The reconciler on a run whose machines answer.
use spark_pulse.Prelude.{◌≡◌, refl, inl, Option, none, some, [], All}
use spark_pulse.Prelude.Dict.{lookup, insert, select}
use spark_pulse.Records.{
  Deployment, Result, ok, err, load, redact, redact_each, migrate, save, wanted, write_each, update,
  fields_of,
}
use spark_pulse.Records.Examples.{base}
use spark_pulse.Runtime.Nodes.{confirm_loop, confirm_gone, is_confirmed_gone, final_logs}
use spark_pulse.Runtime.Teardown.{
  insert_rank, by_rank, teardown_entry, teardown_rank, teardown_each, teardown_entries, orphan,
}
use spark_pulse.Runtime.Lifecycle.{
  World, find_record, update_first, get_deployment, update_record, cancel_pull, rank_entries,
  stop_found, stop_deployment, delete_deployment, logs_by_rank,
}
use spark_pulse.Runtime.Release.{IsReleased}
use spark_pulse.Runtime.Examples.{silent, calm, digits, world}
use spark_pulse.Runtime.StartExamples.{machine}
use spark_pulse.Reconciler.{Touched, marked, mark, marking, finish_stop, finish_delete}
use spark_pulse.Reconciler.Convergence.{finish_stop-IsReleased, finish_delete-IsReleased}

abbrev record_of : Result (Option Touched × World) → Deployment
record_of (ok (some (marked r), w)) = r
record_of _ = base

abbrev world_of : Result (Option Touched × World) → World
world_of (ok (t, w)) = w
world_of (err e) = world

abbrev finished : Result (Option Touched × World)
finished = finish_stop digits silent calm machine "d1" world

finish_stop-IsReleased_example : All (IsReleased [] (world_of finished).history) (rank_entries base)
unfolding fields_of
finish_stop-IsReleased_example =
    finish_stop-IsReleased digits silent calm machine base (record_of finished) "d1" world
      (world_of finished) (inl refl) (unfold find_record in refl)
      (unfold finish_stop marking mark update stop_deployment stop_found get_deployment cancel_pull
          update_record load migrate redact redact_each find_record update_first rank_entries
          teardown_entries teardown_each teardown_rank teardown_entry final_logs confirm_gone
          confirm_loop is_confirmed_gone by_rank insert_rank orphan save wanted write_each lookup
          insert select logs_by_rank in
        refl)
      (unfold finish_stop marking mark update stop_deployment stop_found get_deployment cancel_pull
          update_record load migrate redact redact_each find_record update_first rank_entries
          teardown_entries teardown_each teardown_rank teardown_entry final_logs confirm_gone
          confirm_loop is_confirmed_gone by_rank insert_rank orphan save wanted write_each lookup
          insert select logs_by_rank in
        refl)

abbrev cleared : Result (Option Touched × World)
cleared = finish_delete digits silent calm machine "d1" world

finish_delete-IsReleased_example :
    (lookup "d1" (world_of cleared).store.rows ≡ none)
    × All (IsReleased [] (world_of cleared).history) (rank_entries base)
unfolding fields_of
finish_delete-IsReleased_example =
    finish_delete-IsReleased digits silent calm machine base "d1" world (world_of cleared)
      (inl refl) (unfold find_record in refl)
      (unfold finish_delete delete_deployment stop_deployment stop_found get_deployment cancel_pull
          update_record load migrate redact redact_each find_record update_first rank_entries
          teardown_entries teardown_each teardown_rank teardown_entry final_logs confirm_gone
          confirm_loop is_confirmed_gone by_rank insert_rank orphan save wanted write_each lookup
          insert select logs_by_rank in
        refl)
