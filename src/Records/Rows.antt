-- ===== src/Records/Rows.antt =====
-- The rows after each operation, one lookup at a time.
use spark_pulse.Prelude.{
  String, ◌≡◌, inl, inr, refl, Bool, true, false, Option, none, some, List, [], ◌∷◌, arith, eq_iff,
  str_eq, truthy, if◌then◌else◌, Bool-cases,
}
use spark_pulse.Prelude.Dict.{
  Dict, lookup, insert, erase, IsUnique, lookup-insert, lookup-erase, insert-IsUnique,
}
use spark_pulse.Records.{Table, Row, Deployment, fields_of, write_each, wanted, drop_rows}

-- `id in ids`
unfoldable pub among : String → List String → Bool
among id [] = false
among id (j ∷ ids) = if str_eq j id then true else among id ids

pub lookup-drop_rows :
    (ids : List String) (j : String) (rows : Table)
    → lookup j (drop_rows ids rows).1 ≡ (if among j ids then none else lookup j rows)
unfolding drop_rows among
lookup-drop_rows [] j rows = refl
lookup-drop_rows (id ∷ ids) j rows =
    ground (arith, lookup-drop_rows ids j (erase id rows), lookup-erase id j rows)

abbrev pub written : Option Deployment → Option Row → Option Row
written none old = old
written (some r) old = some (fields_of r)

pub lookup-write_each :
    (d : Dict Deployment) (j : String) (rows : Table)
    → IsUnique d
    → lookup j (write_each d rows) ≡ written (lookup j d) (lookup j rows)
unfolding write_each lookup
lookup-write_each [] j rows u = refl
lookup-write_each ((id, r) ∷ d) j rows u = ground (
  arith,
  lookup-write_each d j (insert id (fields_of r) rows) u.1,
  lookup-insert id j (fields_of r) rows,
  eq_iff id j,
)

pub wanted-IsUnique :
    (rs : List Deployment) (d : Dict Deployment) → IsUnique d → IsUnique (wanted rs d)
unfolding wanted
wanted-IsUnique [] d u = u
wanted-IsUnique (r ∷ rs) d u = elim (Bool-cases (truthy r.id)) [
  | inl named ↦ rw named (wanted-IsUnique rs (insert r.id r d) (insert-IsUnique r.id r d u))
  | inr blank ↦ rw blank (wanted-IsUnique rs d u)
]

-- Every row is the projection of its own document, under the document's id.
abbrev pub IsConsistent : Table → Type 0
IsConsistent rows =
    (k : String) (row : Row)
    → lookup k rows ≡ some row
    → (row ≡ fields_of row.document) × (row.document.id ≡ k)
