-- ===== src/Runtime/Release.antt =====
-- What `stop_deployment` and `delete_deployment` of spark_pulse/tools/native_runtime.py release, and
-- on what evidence.
use Prim.Native.String.{◌++◌ as text_append}
use spark_pulse.Prelude.{
  ℕ, ◌<◌, String, ◌≡◌, ◌⊎◌, inl, inr, refl, sym, subst, Bool, true, false, none, some, List, [],
  ◌∷◌, keep, arith, eq_iff, str_eq, is_some, truthy, All, Bool-cases,
}
use spark_pulse.Prelude.Dict.{Dict, lookup, insert, select, lookup-insert}
use spark_pulse.Records.{
  Deployment, Status, Rank, Orphan, ok, Table, Row, Redactor, load, save, documents, wanted,
}
use spark_pulse.Records.Rows.{lookup-write_each, wanted-IsUnique}
use spark_pulse.Records.Views.{Result-cases, IsOpen}
use spark_pulse.Runtime.Nodes.{History, Nodes}
use spark_pulse.Runtime.Teardown.{teardown_entries}
use spark_pulse.Runtime.Evidence.{evidence, IsAccounted, teardown_entries-IsAccounted}
use spark_pulse.Runtime.Lifecycle.{
  World, find_record, cancel_pull, rank_entries, as_stopped, Frame, deployment_stopped, names,
  stop_found, stop_deployment, other_than, drop_record, drop_stopped, delete_deployment,
}
use spark_pulse.Runtime.Reading.{
  IsReady, loaded, loaded-IsReady, get_lem, cancel-IsReady, update_lem,
}

IsAccounted-at :
    (os : List Orphan) (h h' t t' : History) (rs qs : List Rank)
    → h ≡ h'
    → t ≡ t'
    → rs ≡ qs
    → All (IsAccounted os h t) rs
    → All (IsAccounted os h' t') qs
IsAccounted-at os h h' t t' rs qs e f g all =
    subst (λ (l : List Rank). All (IsAccounted os h' t') l) g
      (subst (λ (u : History). All (IsAccounted os h' u) rs) f
        (subst (λ (u : History). All (IsAccounted os u t) rs) e all))

-- A rank is released when it has no container, or was seen missing meanwhile.
abbrev pub IsReleased : History → History → Rank → Type 0
IsReleased before after r =
    (truthy r.container_name ≡ false)
    ⊎ (evidence r.node r.container_name before < evidence r.node r.container_name after)

module _ (text_of : ℕ → String) (R : Redactor) (N : Nodes) (id : String) where
  module _ (ranks : List Rank) (h : History) where
    -- What a stop that found the record leaves.
    abbrev Stops : World → Type 0
    Stops w =
        (r : Deployment) × ((w' : World) × ((stop_deployment text_of R N id w ≡ ok (some r, w'))
            × ((r.status ≡ Status.stopped) × All (IsAccounted r.orphans h w'.history) ranks)))

    stop_ready : (w : World) → IsReady id ranks h w → Stops w
    unfolding stop_deployment stop_found
    stop_ready w y =
        let (r, e, _) = get_lem R id ranks h w y in
        let mid = loaded R id ranks h w in
        let cut = (cancel_pull id mid).1 in
        let y' = cancel-IsReady R id ranks h mid (loaded-IsReady R id ranks h w y) in
        let (q, e', entries) = get_lem R id ranks h cut y' in
        let here = loaded R id ranks h cut in
        let y'' = loaded-IsReady R id ranks h cut y' in
        let torn = teardown_entries N (rank_entries q) here.history in
        let frame : Frame = record {
          kind = deployment_stopped;
          deployment = id;
          text = text_append "stopped " (names (rank_entries q));
        } in
        let (x, (w', done, same)) =
          update_lem R id ranks h (as_stopped text_of R N torn)
            (record here { history = torn.history; frames = frame ∷ here.frames }) y''.open_store
            y''.holds in
        let accounted = teardown_entries-IsAccounted N (rank_entries q) here.history in
        (
          as_stopped text_of R N torn x,
          (
            w',
            (
              rw e (rw e' done),
              (
                refl,
                IsAccounted-at torn.orphans here.history h torn.history w'.history (rank_entries q)
                    ranks y''.asked (sym same) entries accounted,
              ),
            ),
          ),
        )

    drop_none :
        (l : List Deployment) (d : Dict Deployment)
        → lookup id d ≡ none
        → lookup id (wanted (keep (other_than text_of R N id) l) d) ≡ none
    unfolding wanted
    drop_none [] d e = e
    drop_none (r ∷ l) d e = elim (Bool-cases (str_eq r.id id)) [
      | inl here ↦ ground (arith, here, drop_none l d e)
      | inr there ↦
          let absent : lookup id (insert r.id r d) ≡ none =
            ground (arith, there, lookup-insert r.id id r d) in
          ground (arith, there, drop_none l d e, drop_none l (insert r.id r d) absent)
    ]

    select-none :
        (p : String → Row → Bool) (rows : Table)
        → ((v : Row) → p id v ≡ false)
        → lookup id (select p rows) ≡ none
    unfolding select lookup
    select-none p [] e = refl
    select-none p ((k, v) ∷ rows) e = ground (arith, eq_iff k id, e v, select-none p rows e)

    drop_true :
        (w w' : World)
        → drop_record text_of R N id w ≡ ok (true, w')
        → (lookup id w'.store.rows ≡ none) × (w'.history ≡ w.history)
    drop_true w w' e = elim (Result-cases (load R w.store)) [
      | inl ((l, t), made) ↦
          let remaining = keep (other_than text_of R N id) l in
          let set = wanted remaining [] in
          let left = select (λ k row. is_some (lookup k set)) t.rows in
          let absent = drop_none l [] (unfold lookup in refl) in
          unfold save in
          ground (
            arith,
            made,
            lookup-write_each set id left (wanted-IsUnique remaining [] tt),
            absent,
            select-none (λ k row. is_some (lookup k set)) t.rows (λ v. ground (arith, absent)),
          )
      | inr (x, failed) ↦ absurd (ground (arith, failed))
    ]

    pub released :
        (before after : History) (rs : List Rank)
        → All (IsAccounted [] before after) rs
        → All (IsReleased before after) rs
    released before after [] all = tt
    released before after (r ∷ rs) (inl blank, all) = (inl blank, released before after rs all)
    released before after (r ∷ rs) (inr (inl none_there), all) = absurd none_there
    released before after (r ∷ rs) (inr (inr new), all) = (inr new, released before after rs all)

    drop_stopped_lem :
        (r : Deployment) (w w' : World) (os : List Orphan)
        → r.orphans ≡ os
        → All (IsAccounted os h w.history) ranks
        → drop_stopped text_of R N id (some r, w) ≡ ok (true, w')
        → (lookup id w'.store.rows ≡ none) × All (IsReleased h w'.history) ranks
    drop_stopped_lem r w w' [] e all dropped =
        let (gone, same) = drop_true w w' (ground arith) in
        (
          gone,
          subst (λ (u : History). All (IsReleased h u) ranks) (sym same)
              (released h w.history ranks all),
        )
    drop_stopped_lem r w w' (o ∷ os) e all dropped = absurd (ground arith)

    delete_ready :
        (w w' : World)
        → IsReady id ranks h w
        → delete_deployment text_of R N id w ≡ ok (true, w')
        → (lookup id w'.store.rows ≡ none) × All (IsReleased h w'.history) ranks
    unfolding delete_deployment
    delete_ready w w' y deleted =
        let (r, e, _) = get_lem R id ranks h w y in
        let mid = loaded R id ranks h w in
        let cut = (cancel_pull id mid).1 in
        let y' = cancel-IsReady R id ranks h mid (loaded-IsReady R id ranks h w y) in
        let (q, e', _) = get_lem R id ranks h cut y' in
        let here = loaded R id ranks h cut in
        let (x, (t, (stops, (_, all)))) = stop_ready here (loaded-IsReady R id ranks h cut y') in
        drop_stopped_lem x t w' x.orphans refl all (ground (arith, e, e', stops))

  -- Once the import is settled, a stop of a record that is there succeeds, answers the record as
  -- stopped, and accounts for every rank of it: the rank has no container, or is among the
  -- answered record's orphans, or a daemon answered during the stop that its container is missing.
  pub stop-IsAccounted :
      (r : Deployment) (w : World)
      → IsOpen w.store
      → find_record id (documents w.store.rows) ≡ some r
      → (q : Deployment) × ((w' : World) × ((stop_deployment text_of R N id w ≡ ok (some q, w'))
            × ((q.status ≡ Status.stopped)
                × All (IsAccounted q.orphans w.history w'.history) (rank_entries r))))
  stop-IsAccounted r w o found =
      stop_ready (rank_entries r) w.history w
        (record { open_store = o; holds = (r, found, refl); asked = refl })

  -- Once the import is settled, a delete of a record that is there and that answers `true` leaves
  -- no row under its id, and releases on evidence only: for each rank of the record that has a
  -- container, a daemon answered during the delete that it is missing.
  pub delete-IsReleased :
      (r : Deployment) (w w' : World)
      → IsOpen w.store
      → find_record id (documents w.store.rows) ≡ some r
      → delete_deployment text_of R N id w ≡ ok (true, w')
      → (lookup id w'.store.rows ≡ none) × All (IsReleased w.history w'.history) (rank_entries r)
  delete-IsReleased r w w' o found deleted =
      delete_ready (rank_entries r) w.history w w'
        (record { open_store = o; holds = (r, found, refl); asked = refl }) deleted
