-- ===== src/Records/Safety.antt =====
-- Deletions, the retention purge, the one import and the columns of
-- spark_pulse/tools/deployment_records.py.
use spark_pulse.Prelude.{
  ℕ, ◌-◌, ◌*◌, String, ◌≡◌, ◌≢◌, ◌⊎◌, ◌≤◌, inl, inr, refl, subst, Bool, true, false, Option, none,
  some, List, [], ◌∷◌, ◌++◌, arith, eq_iff, str_eq, Option-cases, Bool-cases, ◌==◌, All,
}
use spark_pulse.Prelude.Dict.{lookup, lookup-insert}
use spark_pulse.Records.Rows.{lookup-drop_rows, among, IsConsistent}
use spark_pulse.Records.Views.{view, view-delete_many, Result-cases, migrate-IsOpen, migrate-open}
use spark_pulse.Records.{
  Table, Deployment, Status, finished, Store, LegacyFile, ok, fields_of, write_row, migrate, update,
  update_row, delete, delete_many, drop_rows, expired, expired_ids, purge_expired, drop_expired,
}

lookup-dropped : (id : String) (rows : Table) → lookup id (drop_rows (id ∷ []) rows).1 ≡ none
unfolding among
lookup-dropped id rows = ground (arith, lookup-drop_rows (id ∷ []) id rows, eq_iff id id)

-- After a deletion that succeeds, an update of the deleted record finds nothing and leaves the
-- store as it is, so a thread that goes on updating does not bring the record back.
pub update-delete :
    (id : String) (f : Deployment → Deployment) (gone : Bool) (s s' : Store)
    → delete id s ≡ ok (gone, s')
    → update id f s' ≡ ok (none, s')
unfolding delete delete_many
update-delete id f gone s s' h = elim (Result-cases (migrate s)) [
  | inl (m, e) ↦
      let (n, left) = drop_rows (id ∷ []) m.rows in
      let m' : Store = record m { rows = left; forgotten = m.forgotten ++ id ∷ [] } in
      let same : m' ≡ s' = ground (arith, e) in
      subst (λ (t : Store). update id f t ≡ ok (none, t)) same
        (unfold update in
          rw (migrate-open m' (migrate-IsOpen s m e)) (rw (lookup-dropped id m.rows) refl))
  | inr (x, e) ↦ absurd (ground (arith, e))
]

-- The run goes on, by its status: it is neither stopped nor an error.
abbrev pub IsLive : Deployment → Type 0
IsLive r = (r.status ≢ Status.stopped) × (r.status ≢ Status.error)

-- The recorded end of the run is not known to lie before the cut-off: there is none, or it cannot
-- be read as a time, or that time is the cut-off or later.
abbrev pub IsRecent : (String → Option ℕ) → ℕ → Deployment → Type 0
IsRecent parse cutoff r =
    (r.stopped_at ≡ none)
    ⊎ ((moment : String) × (r.stopped_at ≡ some moment)
        × ((parse moment ≡ none) ⊎ ((t : ℕ) × (parse moment ≡ some t) × (cutoff ≤ t))))

not_finished : (s : Status) → s ≢ Status.stopped → s ≢ Status.error → finished s ≡ false
not_finished Status.stopped a b = absurd (a refl)
not_finished Status.error a b = absurd (b refl)
not_finished _ a b = refl

spared :
    (parse : String → Option ℕ) (cutoff : ℕ) (r : Deployment)
    → IsLive r ⊎ IsRecent parse cutoff r
    → expired parse cutoff r ≡ false
spared parse cutoff r (inl (a, b)) = ground (arith, not_finished r.status a b)
spared parse cutoff r (inr (inl e)) = ground (arith, e)
spared parse cutoff r (inr (inr (moment, e, inl p))) = ground (arith, e, p)
spared parse cutoff r (inr (inr (moment, e, inr (t, p, late)))) = ground (arith, e, p, late)

not_expired :
    (parse : String → Option ℕ) (cutoff : ℕ) (j : String) (rs : List Deployment)
    → All (λ (r : Deployment). r.id ≡ j → IsLive r ⊎ IsRecent parse cutoff r) rs
    → among j (expired_ids parse cutoff rs) ≡ false
unfolding expired_ids among
not_expired parse cutoff j [] live = refl
not_expired parse cutoff j (r ∷ rs) live = elim (Bool-cases (str_eq r.id j)) [
  | inl same ↦
      let kept = spared parse cutoff r (live.0 ((eq_iff r.id j).0 same)) in
      ground (arith, not_expired parse cutoff j rs live.1, kept)
  | inr else_where ↦ ground (arith, not_expired parse cutoff j rs live.1, else_where)
]

view-drop_expired :
    (parse : String → Option ℕ) (ids : List String) (j : String) (s t : Store)
    → drop_expired parse ids s ≡ ok t
    → among j ids ≡ false
    → view j t ≡ view j s
view-drop_expired parse [] j s t h a = ground arith
view-drop_expired parse (id ∷ ids) j s t h a = elim (Result-cases (delete_many (id ∷ ids) s)) [
  | inl ((n, u), e) ↦ ground (arith, e, view-delete_many (id ∷ ids) j n s u e)
  | inr (x, e) ↦ ground (arith, e)
]

-- A purge that succeeds leaves alone what is found under an id, where each record of that id in the
-- given set is neither stopped nor an error, or has no recorded end, or one that cannot be read, or
-- one at the cut-off or later.
pub view-purge :
    (parse : String → Option ℕ) (now days : ℕ) (rs kept : List Deployment) (j : String)
    (s s' : Store)
    → purge_expired parse now days rs s ≡ ok (kept, s')
    → All (λ (r : Deployment). r.id ≡ j → IsLive r ⊎ IsRecent parse (now - days * 86400) r) rs
    → view j s' ≡ view j s
unfolding purge_expired
view-purge parse now days rs kept j s s' h live = elim (Bool-cases (days == 0)) [
  | inl forever ↦ ground arith
  | inr some_days ↦
      elim (Result-cases (drop_expired parse (expired_ids parse (now - days * 86400) rs) s)) [
        | inl (t, e) ↦ ground (
          arith,
          e,
          view-drop_expired parse (expired_ids parse (now - days * 86400) rs) j s t e
              (not_expired parse (now - days * 86400) j rs live),
        )
        | inr (x, e) ↦ ground (arith, e)
      ]
]

-- Once the import is made, the migration that every operation starts with leaves the store as it
-- is, whatever the file and the table hold by then, so emptying the table never brings an imported
-- record back.
pub import_once :
    (s m : Store) (f : LegacyFile) (rows : Table)
    → migrate s ≡ ok m
    → m.imported ≡ true
    → migrate (record m { file = f; rows = rows }) ≡ ok (record m { file = f; rows = rows })
unfolding migrate
import_once s m f rows h made = ground arith

module _ (rows : Table) (c : IsConsistent rows) where
  pub write_row-IsConsistent : (r : Deployment) → IsConsistent (write_row r rows)
  unfolding write_row fields_of
  write_row-IsConsistent r k row e =
      ground (arith, lookup-insert r.id k (fields_of r) rows, eq_iff r.id k, c k row)

  pub update_row-IsConsistent :
      (id : String) (f : Deployment → Deployment)
      → ((r : Deployment) → (f r).id ≡ r.id)
      → IsConsistent (update_row id f (lookup id rows) rows).1
  unfolding fields_of
  update_row-IsConsistent id f same k row e = elim (Option-cases (lookup id rows)) [
    | inl none_there ↦ ground (arith, none_there, c k row)
    | inr (old, there) ↦ ground (
      arith,
      there,
      lookup-insert id k (fields_of (f old.document)) rows,
      eq_iff id k,
      c k row,
      c id old there,
      same old.document,
    )
  ]
