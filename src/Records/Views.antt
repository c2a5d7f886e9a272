-- ===== src/Records/Views.antt =====
-- What `get` of spark_pulse/tools/deployment_records.py finds under an id, after each operation.
use spark_pulse.Prelude.{
  ℕ, String, ◌≡◌, ◌⊎◌, inl, inr, refl, Bool, true, false, Option, none, some, List, [], ◌++◌, arith,
  eq_iff, str_eq, is_some, if◌then◌else◌, Option-cases, not, ◌&&◌, ◌∷◌,
}
use spark_pulse.Prelude.Dict.{Dict, insert, lookup, select, IsUnique, lookup-insert, lookup-select}
use spark_pulse.Records.Rows.{lookup-write_each, lookup-drop_rows, wanted-IsUnique, among}
use spark_pulse.Records.{
  Table, Deployment, Store, LegacyFile, missing, unreadable, records, Error, Result, ok, err, ◌>>=◌,
  fields_of, write_row, wanted, migrate, update, upsert, save, get, delete_many, drop_rows,
  write_each, import_file, document_of, update_row,
}

-- What `get` answers.
abbrev pub view : String → Store → Result (Option Deployment)
view j s = do r ← get j s; ok r.0

abbrev pub changed : (Deployment → Deployment) → Option Deployment → Option Deployment
changed f none = none
changed f (some r) = some (f r)

import-IsOpen :
    (f : LegacyFile) (s m : Store)
    → s.file ≡ f
    → import_file f s ≡ ok m
    → (m.imported ≡ true) ⊎ (m.file ≡ missing)
import-IsOpen missing s m e h = inr (ground arith)
import-IsOpen unreadable s m e h = absurd (cc)
import-IsOpen (records rs) s m e h = inl (ground arith)

-- The import is settled: it was made, or there is no file.
abbrev pub IsOpen : Store → Type 0
IsOpen s = (s.imported ≡ true) ⊎ (s.file ≡ missing)

IsOpen-either_way :
    (b : Bool) (s m : Store)
    → s.imported ≡ b
    → (if b then ok s else import_file s.file s) ≡ ok m
    → IsOpen m
IsOpen-either_way true s m e h = inl (ground arith)
IsOpen-either_way false s m e h = import-IsOpen s.file s m refl h

pub migrate-IsOpen : (s m : Store) → migrate s ≡ ok m → IsOpen m
unfolding migrate
migrate-IsOpen s m h = IsOpen-either_way s.imported s m refl h

pub migrate-open : (s : Store) → IsOpen s → migrate s ≡ ok s
unfolding migrate
migrate-open s o = ground arith

pub Result-cases :
    {A : Type 0} (r : Result A) → ((a : A) × (r ≡ ok a)) ⊎ ((e : Error) × (r ≡ err e))
Result-cases (ok a) = inl (a, refl)
Result-cases (err e) = inr (e, refl)

pub view-open : (j : String) (s : Store) → IsOpen s → view j s ≡ ok (document_of (lookup j s.rows))
unfolding get
view-open j s o = rw (migrate-open s o)

pub view-migrate :
    (j : String) (s m : Store) → migrate s ≡ ok m → view j s ≡ ok (document_of (lookup j m.rows))
unfolding get
view-migrate j s m h = rw h

-- After an upsert that succeeds, the record is found under its id, and every other record as it
-- was before.
pub view-upsert :
    (r : Deployment) (j : String) (s s' : Store)
    → upsert r s ≡ ok s'
    → view j s' ≡ (if str_eq r.id j then ok (some r) else view j s)
unfolding upsert write_row fields_of
view-upsert r j s s' h = elim (Result-cases (migrate s)) [
  | inl (m, e) ↦
      let after = view-open j (record m { rows = write_row r m.rows }) (migrate-IsOpen s m e) in
      ground (arith, view-migrate j s m e, after, lookup-insert r.id j (fields_of r) m.rows, e)
  | inr (x, e) ↦ ground (arith, e)
]

update_row_lem :
    (id j : String) (f : Deployment → Deployment) (rows : Table)
    → ((update_row id f (lookup id rows) rows).0 ≡ changed f (document_of (lookup id rows)))
      × (document_of (lookup j (update_row id f (lookup id rows) rows).1) ≡ (
          if str_eq id j
          then (update_row id f (lookup id rows) rows).0
          else document_of (lookup j rows)))
unfolding fields_of
update_row_lem id j f rows = elim (Option-cases (lookup id rows)) [
  | inl e ↦ ground (arith, e, eq_iff id j)
  | inr (row, e) ↦
      ground (arith, e, eq_iff id j, lookup-insert id j (fields_of (f row.document)) rows)
]

-- An update that succeeds changes the named fields of the record that is stored now, answers what it stored, and
-- leaves every other record as it was; where there is none it answers `none` and creates nothing.
pub view-update :
    (id j : String) (f : Deployment → Deployment) (s s' : Store) (found : Option Deployment)
    → update id f s ≡ ok (found, s')
    → (ok found ≡ (do r ← view id s; ok (changed f r)))
      × (view j s' ≡ (if str_eq id j then ok found else view j s))
unfolding update
view-update id j f s s' found h = elim (Result-cases (migrate s)) [
  | inl (m, e) ↦
      let new = update_row id f (lookup id m.rows) m.rows in
      let after = view-open j (record m { rows = new.1 }) (migrate-IsOpen s m e) in
      let (answer, left) = update_row_lem id j f m.rows in
      ground (arith, e, after, answer, left, view-migrate j s m e, view-migrate id s m e)
  | inr (x, e) ↦ ground (arith, e)
]

-- The last of the records that has the id `j`, for an id that is not empty.
unfoldable pub last_of : String → List Deployment → Option Deployment
last_of j [] = none
last_of j (r ∷ rs) = elim (last_of j rs) [
  | none ↦ if str_eq r.id j && not (str_eq j "") then some r else none
  | some q ↦ some q
]

abbrev or_else : Option Deployment → Option Deployment → Option Deployment
or_else none q = q
or_else (some r) q = some r

lookup-wanted :
    (j : String) (rs : List Deployment) (d : Dict Deployment)
    → lookup j (wanted rs d) ≡ or_else (last_of j rs) (lookup j d)
unfolding wanted last_of
lookup-wanted j [] d = refl
lookup-wanted j (r ∷ rs) d = elim (Option-cases (last_of j rs)) [
  | inl e ↦ ground (
    arith,
    e,
    lookup-wanted j rs (insert r.id r d),
    lookup-wanted j rs d,
    lookup-insert r.id j r d,
    eq_iff r.id j,
    eq_iff j "",
    eq_iff r.id "",
  )
  | inr (q, e) ↦ ground (arith, e, lookup-wanted j rs (insert r.id r d), lookup-wanted j rs d)
]

-- Once the import is settled, a whole-set save over a table of distinct ids leaves under each id
-- that is not empty the last of the given records with that id, and no other record: nothing under
-- an id that none of them has, nor under the empty one.
pub view-save :
    (rs : List Deployment) (j : String) (s : Store)
    → IsOpen s
    → IsUnique s.rows
    → view j (save rs s) ≡ ok (last_of j rs)
unfolding save fields_of lookup
view-save rs j s o u =
    let set = wanted rs [] in
    let left = select (λ id row. is_some (lookup id set)) s.rows in
    ground (
      arith,
      view-open j (record s { rows = write_each set left }) o,
      lookup-write_each set j left (wanted-IsUnique rs [] tt),
      lookup-wanted j rs [],
      lookup-select (λ id row. is_some (lookup id set)) j s.rows u,
    )

-- A deletion that succeeds drops exactly the named records.
pub view-delete_many :
    (ids : List String) (j : String) (n : ℕ) (s s' : Store)
    → delete_many ids s ≡ ok (n, s')
    → view j s' ≡ (if among j ids then ok none else view j s)
unfolding delete_many
view-delete_many ids j n s s' h = elim (Result-cases (migrate s)) [
  | inl (m, e) ↦
      let after =
        view-open j (record m { rows = (drop_rows ids m.rows).1; forgotten = m.forgotten ++ ids })
          (migrate-IsOpen s m e) in
      ground (arith, e, after, view-migrate j s m e, lookup-drop_rows ids j m.rows)
  | inr (x, e) ↦ ground (arith, e)
]
