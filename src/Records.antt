-- ===== src/Records.antt =====
-- The deployment record store (spark_pulse/tools/deployment_records.py): the `deployments` table,
-- the legacy JSON file that is imported once, and every operation on them. A call that may raise
-- returns a `Result`. The mutex serialises a process's operations, so each is one step.
mod Types
pub mod Rows
pub mod Views
pub mod Safety
pub mod Consistency
pub mod Examples
pub use Types.*
use spark_pulse.Prelude.{
  ℕ, ◌-◌, ◌*◌, ◌+◌, String, Bool, true, false, not, ◌&&◌, ◌||◌, Option, none, some, List, [], ◌∷◌,
  ◌++◌, length, map, keep, ltb, leb, nonzero, truthy, is_some, if◌then◌else◌, ◌==◌,
}
use spark_pulse.Prelude.Dict.{Dict, lookup, insert, erase, select, values}

-- `DeploymentRow`: the columns that queries use, and the whole record.
pub record Row : Type 0 where
  pub id : String
  pub status : Status
  pub runtime : String
  pub created_at : String
  pub document : Deployment

abbrev pub Table : Type 0
Table = Dict Row

-- The legacy file: absent, or there and unreadable, or a list of records.
pub data LegacyFile : Type 0 where
  missing unreadable : LegacyFile
  records : List Deployment → LegacyFile

pub record Store : Type 0 where
  pub rows : Table
  -- the `meta` marker of the import
  pub imported : Bool
  pub file : LegacyFile
  -- the calls of `event_log.forget`, in order
  pub forgotten : List String

unfoldable pub fields_of : Deployment → Row
fields_of r = record {
  id = r.id;
  status = r.status;
  runtime = r.runtime;
  created_at = r.created_at;
  document = r;
}

-- `_write_row`, and the get-then-write of `upsert`: `_apply` leaves each column as `_fields_of`
-- has it, so an insert and an update end in the same row.
unfoldable pub write_row : Deployment → Table → Table
write_row r rows = insert r.id (fields_of r) rows

-- A record with no id is skipped.
unfoldable pub write_rows : List Deployment → Table → Table
unfolding write_row
write_rows [] rows = rows
write_rows (r ∷ rs) rows = write_rows rs (if truthy r.id then write_row r rows else rows)

abbrev import_file : LegacyFile → Store → Result Store
import_file missing s = ok s
import_file unreadable s = err state_file_error
import_file (records rs) s = ok (record s { rows = write_rows rs s.rows; imported = true })

-- `_migrate_from_json`: once, and never again once the marker stands.
unfoldable pub migrate : Store → Result Store
migrate s = if s.imported then ok s else import_file s.file s

-- The records of the rows, as `load` reads them before it redacts.
abbrev pub documents : Table → List Deployment
documents rows = map (λ (row : Row). row.document) (values rows)

-- `f` sets the named fields, the id never among them.
abbrev pub update_row :
    String → (Deployment → Deployment) → Option Row → Table → Option Deployment × Table
update_row id f none rows = (none, rows)
update_row id f (some row) rows =
    (some (f row.document), insert id (fields_of (f row.document)) rows)

-- `update(id, **fields)`
unfoldable pub update :
    String → (Deployment → Deployment) → Store → Result (Option Deployment × Store)
update id f s = do
  m ← migrate s
  let found = update_row id f (lookup id m.rows) m.rows
  ok (found.0, record m { rows = found.1 })

-- The library `re`, on the pattern of a secret: whether it occurs, and the text with each
-- occurrence replaced.
pub record Redactor : Type 0 where
  pub search : String → Bool
  pub sub : String → String

unfoldable pub redact : Redactor → Deployment → Deployment
redact R r = record r {
  launch_command =
      if truthy r.launch_command && R.search r.launch_command
      then R.sub r.launch_command
      else r.launch_command;
}

-- Redacting writes the records that need it back, one row at a time.
unfoldable pub redact_each : Redactor → List Deployment → Table → Table
unfolding redact
redact_each R [] rows = rows
redact_each R (r ∷ rs) rows = redact_each R rs (
    if (truthy r.launch_command && R.search r.launch_command) && truthy r.id
    then (update_row r.id (λ d. record d { launch_command = R.sub r.launch_command })
        (lookup r.id rows) rows).1
    else rows)

unfoldable pub load : Redactor → Store → Result (List Deployment × Store)
load R s = do
  m ← migrate s
  let found = documents m.rows
  ok (map (redact R) found, record m { rows = redact_each R found m.rows })

-- The set that `save` is given, by id: a later record replaces an earlier one of the same id.
unfoldable pub wanted : List Deployment → Dict Deployment → Dict Deployment
wanted [] d = d
wanted (r ∷ rs) d = wanted rs (if truthy r.id then insert r.id r d else d)

unfoldable pub write_each : Dict Deployment → Table → Table
write_each [] rows = rows
write_each ((id, r) ∷ d) rows = write_each d (insert id (fields_of r) rows)

unfoldable pub save : List Deployment → Store → Store
save rs s =
    let set = wanted rs [] in
    record s { rows = write_each set (select (λ id row. is_some (lookup id set)) s.rows) }

unfoldable pub upsert : Deployment → Store → Result Store
upsert r s =
    if truthy r.id
    then (do m ← migrate s; ok (record m { rows = write_row r m.rows }))
    else err value_error

abbrev document_of : Option Row → Option Deployment
document_of none = none
document_of (some row) = some row.document

unfoldable pub get : String → Store → Result (Option Deployment × Store)
get id s = do m ← migrate s; ok (document_of (lookup id m.rows), m)

-- The number of rows that there were, and the rows that are left.
unfoldable pub drop_rows : List String → Table → ℕ × Table
drop_rows [] rows = (0, rows)
drop_rows (id ∷ ids) rows =
    let (n, left) = drop_rows ids (erase id rows) in
    ((if is_some (lookup id rows) then n + 1 else n), left)

unfoldable pub delete_many : List String → Store → Result (ℕ × Store)
delete_many ids s = do
  m ← migrate s
  let dropped = drop_rows ids m.rows
  ok (dropped.0, record m { rows = dropped.1; forgotten = m.forgotten ++ ids })

unfoldable pub delete : String → Store → Result (Bool × Store)
delete id s = do r ← delete_many (id ∷ []) s; ok (r.0 == 1, r.1)

-- `check_state_file`: startup refuses a file that cannot be read, whatever the marker says.
unfoldable pub check_state_file : Store → Result (Unit {0})
check_state_file s = elim s.file [ unreadable ↦ err state_file_error | _ ↦ ok tt ]

module _ (parse : String → Option ℕ) where
  -- `datetime.fromisoformat` is the parameter `parse`: `none` where it raises. Times are seconds.
  abbrev pub before : ℕ → Option String → Bool
  before cutoff none = false
  before cutoff (some moment) = elim (parse moment) [ none ↦ false | some ts ↦ ltb ts cutoff ]

  abbrev pub expired : ℕ → Deployment → Bool
  expired cutoff r = finished r.status && before cutoff r.stopped_at

  unfoldable pub expired_ids : ℕ → List Deployment → List String
  expired_ids cutoff [] = []
  expired_ids cutoff (r ∷ rs) =
      let ids = expired_ids cutoff rs in if expired cutoff r && truthy r.id then r.id ∷ ids else ids

  abbrev drop_expired : List String → Store → Result Store
  drop_expired [] s = ok s
  drop_expired (id ∷ ids) s = do r ← delete_many (id ∷ ids) s; ok r.1

  -- `purge_expired`, at the time `now` and for a retention in days
  unfoldable pub purge_expired : ℕ → ℕ → List Deployment → Store → Result (List Deployment × Store)
  unfolding expired_ids
  purge_expired now retention rs s =
      let cutoff = now - retention * 86400 in
      if retention == 0 then ok (rs, s) else (do
        s' ← drop_expired (expired_ids cutoff rs) s
        ok (keep (λ r. not (expired cutoff r)) rs, s'))
