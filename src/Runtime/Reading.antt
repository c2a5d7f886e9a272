-- ===== src/Runtime/Reading.antt =====
-- Reading a record through the redaction of its launch command, as `get_deployment` and
-- `_update_record` of spark_pulse/tools/native_runtime.py do.
use spark_pulse.Prelude.{
  String, ◌≡◌, inl, inr, refl, sym, ap, subst, Bool, true, false, none, some, List, [], ◌∷◌, map,
  arith, str_eq, is_some, if◌then◌else◌, Bool-cases, Option-cases,
}
use spark_pulse.Prelude.Dict.{lookup, insert}
use spark_pulse.Records.{
  Deployment, Rank, ok, Table, Row, Redactor, load, save, redact, redact_each, update_row,
  documents, fields_of,
}
use spark_pulse.Records.Views.{IsOpen, migrate-open}
use spark_pulse.Runtime.Nodes.{History}
use spark_pulse.Runtime.Lifecycle.{
  World, find_record, update_first, get_deployment, update_record, cancel_pull, rank_entries,
}

-- A record but for its launch command, which reading may redact.
outline : Deployment → Deployment
outline r = record r { launch_command = "" }

outline-insert :
    (id : String) (v w : Row) (rows : Table)
    → lookup id rows ≡ some w
    → outline v.document ≡ outline w.document
    → map outline (documents (insert id v rows)) ≡ map outline (documents rows)
unfolding lookup insert
outline-insert id v w [] e same = absurd (cc)
outline-insert id v w ((k, u) ∷ rows) e same = elim (Bool-cases (str_eq k id)) [
  | inl here ↦ ground (arith, here)
  | inr there ↦ ground (arith, there, outline-insert id v w rows)
]

outline-update :
    (id : String) (f : Deployment → Deployment) (rows : Table)
    → ((r : Deployment) → outline (f r) ≡ outline r)
    → map outline (documents (update_row id f (lookup id rows) rows).1)
      ≡ map outline (documents rows)
unfolding fields_of
outline-update id f rows same = elim (Option-cases (lookup id rows)) [
  | inl none_there ↦ ground (arith, none_there)
  | inr (w, there) ↦
      let kept = outline-insert id (fields_of (f w.document)) w rows there (same w.document) in
      ground (arith, there, kept)
]

outline-redact_each :
    (R : Redactor) (rs : List Deployment) (rows : Table)
    → map outline (documents (redact_each R rs rows)) ≡ map outline (documents rows)
unfolding redact_each outline
outline-redact_each R [] rows = refl
outline-redact_each R (r ∷ rs) rows =
    let redacted : Table =
      (update_row r.id (λ d. record d { launch_command = R.sub r.launch_command })
        (lookup r.id rows) rows).1 in
    let same =
      outline-update r.id (λ d. record d { launch_command = R.sub r.launch_command }) rows
        (λ d. refl) in
    ground (arith, same, outline-redact_each R rs rows, outline-redact_each R rs redacted)

outline-redact :
    (R : Redactor) (rs : List Deployment) → map outline (map (redact R) rs) ≡ map outline rs
unfolding redact outline
outline-redact R [] = refl
outline-redact R (r ∷ rs) = ap (λ l. outline r ∷ l) (outline-redact R rs)

-- A record that `l` holds under `id`, but for its launch command.
abbrev pub Holds : String → List Rank → List Deployment → Type 0
Holds id ranks l = (r : Deployment) × (find_record id l ≡ some r) × (rank_entries r ≡ ranks)

Holds-outline :
    (id : String) (ranks : List Rank) (l k : List Deployment)
    → map outline l ≡ map outline k
    → Holds id ranks l
    → Holds id ranks k
unfolding find_record outline rank_entries
Holds-outline id ranks [] k same (r, e, q) = absurd (cc)
Holds-outline id ranks (d ∷ l) [] same (r, e, q) = absurd (ground arith)
Holds-outline id ranks (d ∷ l) (c ∷ k) same (r, e, q) = elim (Bool-cases (str_eq d.id id)) [
  | inl here ↦ (c, ground (arith, here), ground (arith, here))
  | inr there ↦
      let (x, found, entries) =
        Holds-outline id ranks l k (ground arith) (r, ground (arith, there), q) in
      (x, ground (arith, there, found), entries)
]

find-outline :
    (id : String) (l k : List Deployment) (r : Deployment)
    → map outline l ≡ map outline k
    → find_record id l ≡ some r
    → (q : Deployment) × (find_record id k ≡ some q) × (q.status ≡ r.status)
unfolding find_record outline
find-outline id [] k r same e = absurd (cc)
find-outline id (d ∷ l) [] r same e = absurd (ground arith)
find-outline id (d ∷ l) (c ∷ k) r same e = elim (Bool-cases (str_eq d.id id)) [
  | inl here ↦ (c, ground (arith, here), ground (arith, here))
  | inr there ↦
      let (x, found, status) = find-outline id l k r (ground arith) (ground (arith, there)) in
      (x, ground (arith, there, found), status)
]

find-none :
    (id : String) (l k : List Deployment)
    → map outline l ≡ map outline k
    → find_record id l ≡ none
    → find_record id k ≡ none
unfolding find_record outline
find-none id [] [] same e = refl
find-none id [] (c ∷ k) same e = absurd (ground arith)
find-none id (d ∷ l) [] same e = absurd (ground arith)
find-none id (d ∷ l) (c ∷ k) same e = elim (Bool-cases (str_eq d.id id)) [
  | inl here ↦ absurd (ground (arith, here))
  | inr there ↦ ground (arith, there, find-none id l k (ground arith) (ground (arith, there)))
]

-- The store is open, the record `id` has these ranks, and so far the nodes were asked `h`.
pub record IsReady (id : String) (ranks : List Rank) (h : History) (w : World) : Type 0 where
  pub open_store : IsOpen w.store
  pub holds : Holds id ranks (documents w.store.rows)
  pub asked : w.history ≡ h

module _ (R : Redactor) (id : String) (ranks : List Rank) (h : History) where
  unfoldable pub loaded : World → World
  loaded w = record w {
    store = record w.store { rows = redact_each R (documents w.store.rows) w.store.rows };
  }

  pub loaded-IsReady : (w : World) → IsReady id ranks h w → IsReady id ranks h (loaded w)
  unfolding loaded
  loaded-IsReady w y = record {
    open_store = y.open_store;
    holds =
        Holds-outline id ranks (documents w.store.rows) (documents (loaded w).store.rows)
          (sym (outline-redact_each R (documents w.store.rows) w.store.rows)) y.holds;
    asked = y.asked;
  }

  load_lem :
      (w : World)
      → IsOpen w.store
      → load R w.store ≡ ok (map (redact R) (documents w.store.rows), (loaded w).store)
  unfolding load loaded
  load_lem w o = rw (migrate-open w.store o) refl

  found_lem :
      (w : World) → IsReady id ranks h w → Holds id ranks (map (redact R) (documents w.store.rows))
  found_lem w y =
      Holds-outline id ranks (documents w.store.rows) (map (redact R) (documents w.store.rows))
        (sym (outline-redact R (documents w.store.rows))) y.holds

  pub get_lem :
      (w : World)
      → IsReady id ranks h w
      → (r : Deployment) × (get_deployment R id w ≡ ok (some r, loaded w))
        × (rank_entries r ≡ ranks)
  unfolding get_deployment loaded
  get_lem w y =
      let (r, found, entries) = found_lem w y in
      (r, rw (load_lem w y.open_store) (rw found refl), entries)

  cancel_either :
      (c : Bool) (w : World)
      → IsReady id ranks h w
      → (x : Bool × World)
      → x ≡ (if c then (true, record w { pulls = insert id true w.pulls }) else (false, w))
      → IsReady id ranks h x.1
  cancel_either true w y x e =
      subst (λ (x : Bool × World). IsReady id ranks h x.1) (sym e)
        (record { open_store = y.open_store; holds = y.holds; asked = y.asked })
  cancel_either false w y x e = subst (λ (x : Bool × World). IsReady id ranks h x.1) (sym e) y

  pub cancel-IsReady : (w : World) → IsReady id ranks h w → IsReady id ranks h (cancel_pull id w).1
  unfolding cancel_pull
  cancel-IsReady w y = cancel_either (is_some (lookup id w.pulls)) w y (cancel_pull id w) refl

  pub update_lem :
      (f : Deployment → Deployment) (w : World)
      → IsOpen w.store
      → Holds id ranks (documents w.store.rows)
      → (r : Deployment) × ((w' : World) × (update_record R id f w ≡ ok (some (f r), w'))
          × (w'.history ≡ w.history))
  unfolding update_record loaded
  update_lem f w o held =
      let (r, found, entries) =
        found_lem (record w { history = h })
          (record { open_store = o; holds = held; asked = refl }) in
      (
        r,
        (
          record w {
            store =
                save (update_first id f (map (redact R) (documents w.store.rows))) (loaded w).store;
          },
          rw (load_lem w o) (rw found refl),
          refl,
        ),
      )

  pub get-status :
      (r : Deployment) (w : World)
      → IsOpen w.store
      → find_record id (documents w.store.rows) ≡ some r
      → (q : Deployment) × (get_deployment R id w ≡ ok (some q, loaded w)) × (q.status ≡ r.status)
  unfolding get_deployment loaded
  get-status r w o e =
      let (q, found, status) =
        find-outline id (documents w.store.rows) (map (redact R) (documents w.store.rows)) r
          (sym (outline-redact R (documents w.store.rows))) e in
      (q, rw (load_lem w o) (rw found refl), status)

  pub get-none :
      (w : World)
      → IsOpen w.store
      → find_record id (documents w.store.rows) ≡ none
      → get_deployment R id w ≡ ok (none, loaded w)
  unfolding get_deployment loaded
  get-none w o e =
      let gone =
        find-none id (documents w.store.rows) (map (redact R) (documents w.store.rows))
          (sym (outline-redact R (documents w.store.rows))) e in
      rw (load_lem w o) (rw gone refl)

  pub loaded-none :
      (w : World)
      → find_record id (documents w.store.rows) ≡ none
      → find_record id (documents (loaded w).store.rows) ≡ none
  unfolding loaded
  loaded-none w e =
      find-none id (documents w.store.rows) (documents (loaded w).store.rows)
        (sym (outline-redact_each R (documents w.store.rows) w.store.rows)) e

  pub loaded-status :
      (r : Deployment) (w : World)
      → find_record id (documents w.store.rows) ≡ some r
      → (q : Deployment) × (find_record id (documents (loaded w).store.rows) ≡ some q)
        × (q.status ≡ r.status)
  unfolding loaded
  loaded-status r w e =
      find-outline id (documents w.store.rows) (documents (loaded w).store.rows) r
        (sym (outline-redact_each R (documents w.store.rows) w.store.rows)) e

  pub update-none :
      (f : Deployment → Deployment) (w : World)
      → IsOpen w.store
      → find_record id (documents w.store.rows) ≡ none
      → update_record R id f w ≡ ok (none, loaded w)
  unfolding update_record loaded
  update-none f w o e =
      let gone =
        find-none id (documents w.store.rows) (map (redact R) (documents w.store.rows))
          (sym (outline-redact R (documents w.store.rows))) e in
      rw (load_lem w o) (rw gone refl)
