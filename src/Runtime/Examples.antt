-- ===== src/Runtime/Examples.antt =====
-- The runtime at a small cluster: rank zero here, rank one on another machine.
use spark_pulse.Prelude.{
  ◌≡◌, refl, inl, Bool, true, false, Option, none, some, String, List, [], ◌∷◌, str_eq,
  if◌then◌else◌, ℕ, arith, All, nonzero, ◌≤◌, ◌⊎◌, or_default, map,
}
use spark_pulse.Prelude.Dict.{lookup, insert, select}
use spark_pulse.Prelude.Text.{strip}
use spark_pulse.Records.{
  Deployment, Status, Orphan, Redactor, Result, ok, err, load, redact, redact_each, migrate, save,
  wanted, write_each, fields_of,
}
use spark_pulse.Records.Examples.{base, idle, store}
use spark_pulse.Runtime.Nodes.{
  Answer, got, raised, missing, Nodes, confirm_loop, confirm_gone, is_confirmed_gone, final_logs,
}
use spark_pulse.Runtime.Teardown.{
  insert_rank, by_rank, teardown_entry, teardown_rank, teardown_each, teardown_entries, orphan,
}
use spark_pulse.Runtime.Evidence.{IsAccounted}
use spark_pulse.Runtime.Lifecycle.{
  World, find_record, update_first, get_deployment, update_record, cancel_pull, rank_entries,
  stop_found, stop_deployment, delete_deployment, logs_by_rank,
}
use spark_pulse.Runtime.Release.{stop-IsAccounted, delete-IsReleased, IsReleased}
use spark_pulse.Runtime.Sweep.{check_orphans}
use spark_pulse.Runtime.Cleared.{IsClearable, check_orphans-IsClearable}
use spark_pulse.Runtime.Ports.{
  find_port, set_default, claim, claim_on, node_key, occupied_nodes, ports_from, ports_in_use,
  allocate_from, allocate_port, Listener, Warning, not_listed, moved, or_here, unlisted, take_run,
  take_runs, take_list, take_listeners, take_reserved, Range, taken_on, choose_port,
}
use spark_pulse.Runtime.Free.{is_taken, is_held, is_busy, held_on, reserves, ports_in_use-held}
use spark_pulse.Runtime.Choice.{IsHeeded, choose_port-free, choose_port-none}

abbrev pub silent : Redactor
silent = record { search = λ s. false; sub = λ s. s }

-- Every machine answers, and what was stopped is gone.
abbrev pub calm : Nodes
calm = record {
  resolve = λ h node. got tt;
  stop = λ h node name. got tt;
  status = λ h node name. got missing;
  logs = λ h node name. got "";
  looks = λ h node name. 2;
  now = λ h. "t5";
}

-- The other machine does not answer.
abbrev pub cut_off : Nodes
cut_off = record calm { resolve = λ h node. if str_eq node "" then got tt else raised "no route" }

abbrev pub digits : ℕ → String
digits n = if nonzero n then "1" else "0"

abbrev pub world : World
world = record { store = store; pulls = []; history = []; frames = [] }

abbrev left : Result (Bool × World) → World
left (ok (b, w)) = w
left (err e) = world

abbrev deleted : World
deleted = left (delete_deployment digits silent calm "d1" world)

stop-IsAccounted_example :
    (q : Deployment) × ((w' : World) × ((stop_deployment digits silent cut_off "d1" world
          ≡ ok (some q, w'))
        × ((q.status ≡ Status.stopped)
            × All (IsAccounted q.orphans [] w'.history) (rank_entries base))))
unfolding fields_of
stop-IsAccounted_example =
    stop-IsAccounted digits silent cut_off "d1" base world (inl refl) (unfold find_record in refl)

delete-IsReleased_example :
    (lookup "d1" deleted.store.rows ≡ none)
    × All (IsReleased [] deleted.history) (rank_entries base)
unfolding fields_of
delete-IsReleased_example =
    delete-IsReleased digits silent calm "d1" base world deleted (inl refl)
      (unfold find_record in refl)
      (unfold delete_deployment stop_deployment stop_found get_deployment cancel_pull update_record
          load migrate redact redact_each find_record update_first rank_entries teardown_entries
          teardown_each teardown_rank teardown_entry final_logs confirm_gone confirm_loop
          is_confirmed_gone by_rank insert_rank orphan save wanted write_each lookup insert select
          logs_by_rank in
        refl)

abbrev lost : List Orphan
lost =
    record { rank = 1; node = "10.0.0.2"; container_name = "w"; reason = "no route"; since = "t5" }
    ∷ record { rank = 0; node = ""; container_name = "h"; reason = "stuck"; since = "t5" }
    ∷ []

check_orphans-IsClearable_example :
    All (IsClearable (check_orphans cut_off lost []).0 [] (check_orphans cut_off lost []).1) lost
check_orphans-IsClearable_example = check_orphans-IsClearable cut_off lost []

abbrev here_only : String → Answer Bool
here_only address = got false

abbrev range : Range
range = record { first = 8000; last = 8001 }

abbrev some_port : ℕ → Option ℕ
some_port p = some p

-- The other machine answers that it listens on 22, and a third one does not answer.
abbrev heard : List Listener
heard =
    record { label = "10.0.0.2"; listening = some (22 ∷ []); why = "" }
    ∷ record { label = "10.0.0.3"; listening = none; why = "no route" }
    ∷ []

abbrev warned : List Warning
warned = not_listed "10.0.0.3" "no route" ∷ moved 8000 (some "run qwen") 8001 ∷ []

-- The run `base` holds 8000 on the other machine, so a second run moves to 8001.
choose_port-free_example :
    (held_on here_only ""
        (base ∷ idle ∷ [])
        8001
        (or_here (map (node_key here_only) ("10.0.0.2" ∷ "10.0.0.3" ∷ [])))
      ≡ false)
    × (reserves 8001 ((some 8002, "API") ∷ []) ≡ false)
    × All (IsHeeded 8001 warned) heard
    × ((some_port 8000 ≡ some 8001) ⊎ ((8000 ≤ 8001) × (8001 ≤ 8001)))
choose_port-free_example =
    choose_port-free here_only ("10.0.0.2" ∷ "10.0.0.3" ∷ []) heard ((some 8002, "API") ∷ []) ""
      range (base ∷ idle ∷ []) (some 8000) 8001 warned
      (unfold choose_port taken_on ports_in_use ports_from occupied_nodes node_key strip
          rank_entries claim_on claim set_default find_port take_runs take_run take_listeners
          take_list take_reserved unlisted allocate_port allocate_from lookup insert in
        refl)
      refl

choose_port-none_example : is_busy here_only "" (base ∷ []) 8000 ("10.0.0.2" ∷ []) [] [] ≡ true
choose_port-none_example =
    choose_port-none here_only ("10.0.0.2" ∷ []) [] [] "" (record { first = 8000; last = 8000 })
      (base ∷ []) none 8000
      (unfold choose_port taken_on ports_in_use ports_from occupied_nodes node_key strip
          rank_entries claim_on claim set_default find_port take_runs take_run take_listeners
          take_list take_reserved unlisted allocate_port allocate_from lookup insert in
        refl)
      refl (omega arith) (omega arith)

ports_in_use-held_example :
    is_taken 8000 (or_default (lookup "10.0.0.2" (ports_in_use here_only "" (base ∷ idle ∷ []))) [])
    ≡ is_held here_only "" 8000 "10.0.0.2" (base ∷ idle ∷ [])
ports_in_use-held_example = ports_in_use-held here_only "" 8000 "10.0.0.2" (base ∷ idle ∷ []) refl
