-- ===== src/Records/Consistency.antt =====
-- The columns of the `deployments` table and the documents beside them, over every write of
-- spark_pulse/tools/deployment_records.py.
use spark_pulse.Prelude.{
  ℕ, String, ◌≡◌, inl, inr, subst, ap, ◌++◌, Bool, true, false, Option, none, some, List, [], ◌∷◌,
  arith, eq_iff, is_some, truthy, if◌then◌else◌, Bool-cases,
}
use spark_pulse.Prelude.Dict.{
  Dict, lookup, insert, erase, select, IsUnique, lookup-insert, lookup-select, insert-IsUnique,
  select-IsUnique, erase-IsUnique,
}
use spark_pulse.Records.Rows.{lookup-write_each, lookup-drop_rows, wanted-IsUnique, IsConsistent}
use spark_pulse.Records.Views.{Result-cases}
use spark_pulse.Records.Safety.{write_row-IsConsistent, update_row-IsConsistent}
use spark_pulse.Records.{
  Table, Row, Deployment, Store, LegacyFile, missing, unreadable, records, Result, ok, err, ◌>>=◌,
  fields_of, write_row, write_rows, write_each, wanted, migrate, import_file, update, update_row,
  upsert, save, delete_many, drop_rows,
}

-- Rows under their own ids, one for each id.
pub record IsTable (rows : Table) : Type 0 where
  pub consistent : IsConsistent rows
  pub unique : IsUnique rows

write_row-IsTable : (r : Deployment) (rows : Table) → IsTable rows → IsTable (write_row r rows)
write_row-IsTable r rows t = record {
  consistent = write_row-IsConsistent rows t.consistent r;
  unique = unfold write_row in insert-IsUnique r.id (fields_of r) rows t.unique;
}

write_rows-IsTable :
    (rs : List Deployment) (rows : Table) → IsTable rows → IsTable (write_rows rs rows)
unfolding write_rows
write_rows-IsTable [] rows t = t
write_rows-IsTable (r ∷ rs) rows t = elim (Bool-cases (truthy r.id)) [
  | inl named ↦ rw named (write_rows-IsTable rs (write_row r rows) (write_row-IsTable r rows t))
  | inr blank ↦ rw blank (write_rows-IsTable rs rows t)
]

from_result : {s m : Store} → ok s ≡ ok m → s.rows ≡ m.rows
from_result e = ground arith

import_file-IsTable :
    (f : LegacyFile) (s m : Store) → import_file f s ≡ ok m → IsTable s.rows → IsTable m.rows
import_file-IsTable missing s m e t = subst IsTable (from_result e) t
import_file-IsTable unreadable s m e t = absurd (cc)
import_file-IsTable (records rs) s m e t =
    subst IsTable (from_result e) (write_rows-IsTable rs s.rows t)

migrated-IsTable :
    (b : Bool) (s m : Store)
    → (if b then ok s else import_file s.file s) ≡ ok m
    → IsTable s.rows
    → IsTable m.rows
migrated-IsTable true s m e t = subst IsTable (from_result e) t
migrated-IsTable false s m e t = import_file-IsTable s.file s m e t

migrate-IsTable : (s m : Store) → migrate s ≡ ok m → IsTable s.rows → IsTable m.rows
unfolding migrate
migrate-IsTable s m e t = migrated-IsTable s.imported s m e t

abbrev IsKeyed : Dict Deployment → Type 0
IsKeyed d = (j : String) (q : Deployment) → lookup j d ≡ some q → q.id ≡ j

insert-IsKeyed : (q : Deployment) (d : Dict Deployment) → IsKeyed d → IsKeyed (insert q.id q d)
insert-IsKeyed q d h j p e = ground (arith, lookup-insert q.id j q d, eq_iff q.id j, h j p)

wanted-IsKeyed : (rs : List Deployment) (d : Dict Deployment) → IsKeyed d → IsKeyed (wanted rs d)
unfolding wanted
wanted-IsKeyed [] d h = h
wanted-IsKeyed (q ∷ rs) d h = elim (Bool-cases (truthy q.id)) [
  | inl named ↦ rw named (wanted-IsKeyed rs (insert q.id q d) (insert-IsKeyed q d h))
  | inr blank ↦ rw blank (wanted-IsKeyed rs d h)
]

write_each-IsUnique :
    (d : Dict Deployment) (rows : Table) → IsUnique rows → IsUnique (write_each d rows)
unfolding write_each
write_each-IsUnique [] rows u = u
write_each-IsUnique ((id, r) ∷ d) rows u =
    write_each-IsUnique d (insert id (fields_of r) rows) (insert-IsUnique id (fields_of r) rows u)

drop_rows-IsUnique :
    (ids : List String) (rows : Table) → IsUnique rows → IsUnique (drop_rows ids rows).1
unfolding drop_rows
drop_rows-IsUnique [] rows u = u
drop_rows-IsUnique (id ∷ ids) rows u =
    drop_rows-IsUnique ids (erase id rows) (erase-IsUnique id rows u)

save-IsTable : (rs : List Deployment) (s : Store) → IsTable s.rows → IsTable (save rs s).rows
unfolding save
save-IsTable rs s t =
    let set = wanted rs [] in
    let p = λ (id : String) (row : Row). is_some (lookup id set) in
    record {
      consistent = λ k row e.
          unfold fields_of in
          ground (
            arith,
            e,
            lookup-write_each set k (select p s.rows) (wanted-IsUnique rs [] tt),
            lookup-select p k s.rows t.unique,
            t.consistent k row,
            wanted-IsKeyed rs [] (λ j q f. unfold lookup in cc) k row.document,
          );
      unique = write_each-IsUnique set (select p s.rows) (select-IsUnique p s.rows t.unique);
    }

update_row-IsUnique :
    (id : String) (f : Deployment → Deployment) (m : Option Row) (rows : Table)
    → IsUnique rows
    → IsUnique (update_row id f m rows).1
update_row-IsUnique id f none rows u = u
update_row-IsUnique id f (some row) rows u = insert-IsUnique id (fields_of (f row.document)) rows u

-- An operation that migrates and then changes the rows by `g`.
after_migrate :
    {A : Type 0} (s s' : Store) (g : Store → A × Store) (a : A)
    → (do m ← migrate s; ok (g m)) ≡ ok (a, s')
    → (m : Store) × (migrate s ≡ ok m) × ((g m).1 ≡ s')
after_migrate {A} s s' g a h = elim (Result-cases (migrate s)) [
  | inl (m, e) ↦
      (m, e, ap (λ (r : Result (A × Store)). elim r [ ok b ↦ b.1 | err _ ↦ s' ]) (rw e at h))
  | inr (x, e) ↦ absurd (ground (arith, e))
]

upsert_rows :
    (r : Deployment) (s s' : Store)
    → upsert r s ≡ ok s'
    → (m : Store) × (migrate s ≡ ok m) × (write_row r m.rows ≡ s'.rows)
unfolding upsert
upsert_rows r s s' h = elim (Result-cases (migrate s)) [
  | inl (m, e) ↦ (m, e, ground (arith, e))
  | inr (x, e) ↦ absurd (ground (arith, e))
]

drop_rows-IsTable :
    (ids : List String) (rows : Table) → IsTable rows → IsTable (drop_rows ids rows).1
drop_rows-IsTable ids rows t = record {
  consistent = λ k row e. ground (arith, lookup-drop_rows ids k rows, t.consistent k row);
  unique = drop_rows-IsUnique ids rows t.unique;
}

-- The operations that write the table.
pub data Write (s : Store) : Store → Type 0 where
  upserting : (r : Deployment) (s' : Store) → upsert r s ≡ ok s' → Write s s'
  updating :
      (id : String) (f : Deployment → Deployment) (found : Option Deployment) (s' : Store)
      → ((r : Deployment) → (f r).id ≡ r.id)
      → update id f s ≡ ok (found, s')
      → Write s s'
  saving : (rs : List Deployment) → Write s (save rs s)
  deleting : (ids : List String) (n : ℕ) (s' : Store) → delete_many ids s ≡ ok (n, s') → Write s s'

-- From a table with one row under each id, the row of its own document, every write that succeeds
-- leaves such a table, its import included: an upsert, an update that does not change the id, a
-- whole-set save, and a deletion.
pub Write-IsTable : {s s' : Store} → Write s s' → IsTable s.rows → IsTable s'.rows
unfolding update delete_many
Write-IsTable {s} {s'} (upserting r _ e) t =
    let (m, made, done) = upsert_rows r s s' e in
    subst IsTable done (write_row-IsTable r m.rows (migrate-IsTable s m made t))
Write-IsTable {s} {s'} (updating id f found _ same e) t =
    let (m, made, done) =
      after_migrate s s'
        (λ m. (
          (update_row id f (lookup id m.rows) m.rows).0,
          record m { rows = (update_row id f (lookup id m.rows) m.rows).1 },
        ))
        found e in
    let tm = migrate-IsTable s m made t in
    subst (λ (u : Store). IsTable u.rows) done
      (record {
        consistent = update_row-IsConsistent m.rows tm.consistent id f same;
        unique = update_row-IsUnique id f (lookup id m.rows) m.rows tm.unique;
      })
Write-IsTable {s} (saving rs) t = save-IsTable rs s t
Write-IsTable {s} {s'} (deleting ids n _ e) t =
    let (m, made, done) =
      after_migrate s s'
        (λ m. (
          (drop_rows ids m.rows).0,
          record m { rows = (drop_rows ids m.rows).1; forgotten = m.forgotten ++ ids },
        ))
        n e in
    subst (λ (u : Store). IsTable u.rows) done
      (drop_rows-IsTable ids m.rows (migrate-IsTable s m made t))
