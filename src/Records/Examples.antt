-- ===== src/Records/Examples.antt =====
-- The record store at small inputs.
use mathlib.Core.Bool.{false≢true}
use spark_pulse.Prelude.{
  eq_iff, ◌≡◌, refl, inl, true, false, Option, none, some, String, [], ◌∷◌, str_eq, if◌then◌else◌,
  ℕ,
}
use spark_pulse.Prelude.Dict.{lookup, insert, erase}
use spark_pulse.Records.{
  Deployment, Status, Store, LegacyFile, ok, ◌>>=◌, fields_of, migrate, update, upsert, save,
  delete, delete_many, drop_rows, purge_expired, expired_ids, write_row,
}
use spark_pulse.Records.Views.{view, changed, last_of, view-update, view-save}
use spark_pulse.Records.Safety.{update-delete, view-purge}
use spark_pulse.Records.Consistency.{IsTable, upserting, Write-IsTable}

abbrev pub base : Deployment
base = record {
  id = "d1";
  name = "qwen";
  status = Status.running;
  runtime = "native";
  created_at = "t0";
  started_at = some "t1";
  ready_at = none;
  stopped_at = none;
  error_message = none;
  port = some 8000;
  rendezvous_port = some 29500;
  rpc_port = none;
  nodes = "10.0.0.2" ∷ [];
  ranks =
      record {
        rank = 1;
        node = "10.0.0.2";
        host = "10.0.0.2";
        container_name = "w";
        is_head = false;
      }
      ∷ record { rank = 0; node = ""; host = "10.0.0.1"; container_name = "h"; is_head = true }
      ∷ [];
  orphans = [];
  container_name = "h";
  generation = 1;
  reconciled = true;
  launch_command = "";
  final_logs = [];
  sync = "";
  sync_reason = "";
  sync_intent = "";
}

abbrev pub idle : Deployment
idle = record base { id = "d2"; status = Status.stopped; stopped_at = some "t9"; port = some 8001 }

abbrev pub store : Store
store = record {
  rows = ("d1", fields_of base) ∷ ("d2", fields_of idle) ∷ [];
  imported = true;
  file = LegacyFile.missing;
  forgotten = [];
}

abbrev named : Deployment → Deployment
named r = record r { name = "renamed" }

abbrev after_update : Store
after_update = record store { rows = ("d1", fields_of (named base)) ∷ ("d2", fields_of idle) ∷ [] }

view-update_example :
    (ok (some (named base)) ≡ (do r ← view "d1" store; ok (changed named r)))
    × (view "d1" after_update
        ≡ (if str_eq "d1" "d1" then ok (some (named base)) else view "d1" store))
unfolding fields_of
view-update_example =
    view-update "d1" "d1" named store after_update (some (named base))
      (unfold update migrate lookup insert in refl)

view-save_example : view "d2" (save (named idle ∷ idle ∷ []) store) ≡ ok (some idle)
unfolding last_of
view-save_example =
    view-save (named idle ∷ idle ∷ []) "d2" store (inl refl) (unfold lookup in (refl, (refl, tt)))

abbrev after_delete : Store
after_delete = record store { rows = ("d2", fields_of idle) ∷ []; forgotten = "d1" ∷ [] }

update-delete_example : update "d1" named after_delete ≡ ok (none, after_delete)
update-delete_example =
    update-delete "d1" named true store after_delete
      (unfold delete delete_many migrate drop_rows lookup erase in refl)

abbrev parse : String → Option ℕ
parse s = if str_eq s "t9" then some 100 else none

abbrev after_purge : Store
after_purge = record store { rows = ("d1", fields_of base) ∷ []; forgotten = "d2" ∷ [] }

-- A live record that has an old end on record.
abbrev ended : Deployment
ended = record base { stopped_at = some "t9" }

view-purge_example : view "d1" after_purge ≡ view "d1" store
view-purge_example =
    view-purge parse 86501 1 (ended ∷ idle ∷ []) (ended ∷ []) "d1" store after_purge
      (unfold purge_expired expired_ids delete_many migrate drop_rows lookup erase in refl)
      (
        (λ e. inl ((λ h. absurd (cc)), (λ h. absurd (cc)))),
        ((λ e. absurd (false≢true ((eq_iff "d2" "d1").1 e))), tt),
      )

abbrev fresh : Store
fresh = record store { rows = [] }

abbrev one_row : Store
one_row = record fresh { rows = ("d1", fields_of base) ∷ [] }

Write-IsTable_example : IsTable one_row.rows
unfolding lookup
Write-IsTable_example =
    Write-IsTable {s = fresh} {s' = one_row}
      (upserting base one_row (unfold upsert migrate write_row insert in refl))
      (record { consistent = λ k row e. absurd (cc); unique = tt })
