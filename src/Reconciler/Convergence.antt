-- ===== src/Reconciler/Convergence.antt =====
-- What the reconciler calls settled or deleted, and on what evidence (`_finish_stop` and
-- `_finish_delete` in spark_pulse/tools/reconciler.py, over the runtime's stop and delete).
use spark_pulse.Prelude.{
  ℕ, String, ◌≡◌, inl, inr, refl, sym, subst, true, false, Option, none, some, List, [], ◌∷◌, arith,
  str_eq, All, Option-cases,
}
use spark_pulse.Prelude.Dict.{lookup}
use spark_pulse.Records.{
  Deployment, Orphan, Rank, Result, ok, err, Redactor, Store, update, migrate, documents,
}
use spark_pulse.Records.Views.{Result-cases, IsOpen}
use spark_pulse.Runtime.Nodes.{History, Nodes}
use spark_pulse.Runtime.Evidence.{IsAccounted}
use spark_pulse.Runtime.Lifecycle.{World, find_record, rank_entries, delete_deployment}
use spark_pulse.Runtime.Release.{released, IsReleased, stop-IsAccounted, delete-IsReleased}
use spark_pulse.Runtime.Listing.{Machine}
use spark_pulse.Reconciler.{
  Sync, in_sync, in_progress, deleting, text_of_sync, with_sync, tell_mark, mark, Touched, marked,
  deleted, as_touched, marking, intent_stop, unconfirmed, judge_orphans, judge_stop, finish_stop,
  finish_delete, waiting_on_node,
}

-- What the answer of a mark says, and what it asked.
abbrev Marks : Sync → World → Result (Option Touched × World) → Type 0
Marks s w (err e) = Unit
Marks s w (ok (none, v)) = v.history ≡ w.history
Marks s w (ok (some (marked q), v)) = (q.sync ≡ text_of_sync s) × (v.history ≡ w.history)
Marks s w (ok (some (deleted id), v)) = ⊥

told-Marks :
    (id text reason intent : String) (s : Sync) (w : World) (o : Option Deployment)
    → ((q : Deployment) → o ≡ some q → q.sync ≡ text_of_sync s)
    → Marks s w (ok (as_touched (tell_mark id text o w)))
told-Marks id text reason intent s w none f = refl
told-Marks id text reason intent s w (some q) f = (f q refl, refl)

update-sync :
    (id state reason intent : String) (s s' : Store) (q : Deployment)
    → update id (with_sync state reason intent) s ≡ ok (some q, s')
    → q.sync ≡ state
unfolding update
update-sync id state reason intent s s' q e = elim (Result-cases (migrate s)) [
  | inr (x, failed) ↦ absurd (ground (arith, failed))
  | inl (m, made) ↦ elim (Option-cases (lookup id m.rows)) [
    | inl gone ↦ absurd (ground (arith, made, gone))
    | inr (row, there) ↦
        let same : with_sync state reason intent row.document ≡ q = ground (arith, made, there) in
        subst (λ (d : Deployment). d.sync ≡ state) same refl
  ]
]

marking-Marks :
    (id : String) (s : Sync) (reason intent : String) (w : World)
    → Marks s w (marking id s reason intent w)
unfolding marking mark
marking-Marks id s reason intent w =
    elim (Result-cases (update id (with_sync (text_of_sync s) reason intent) w.store)) [
      | inr (x, failed) ↦ rw failed tt
      | inl ((o, t), made) ↦ rw made (
          told-Marks id _ reason intent s (record w { store = t }) o
            (λ q found.
              update-sync id (text_of_sync s) reason intent w.store t q
                (ground (arith, made, found))))
    ]

-- A mark that says more than its state does not come about.
other_mark :
    (s : Sync) (w w' : World) (r : Result (Option Touched × World)) (q : Deployment)
    → Marks s w r
    → r ≡ ok (some (marked q), w')
    → (q.sync ≡ text_of_sync s) × (w'.history ≡ w.history)
other_mark s w w' r q m e = subst (Marks s w) e m

in_progress-in_sync : (q : Deployment) → q.sync ≡ "in_progress" → q.sync ≡ "in_sync" → ⊥
in_progress-in_sync q a b =
    let told : str_eq q.sync "in_sync" ≡ true = rw b refl in
    let said : str_eq q.sync "in_sync" ≡ false = rw a refl in absurd (ground (arith, told, said))

module _ (text_of : ℕ → String) (R : Redactor) (N : Nodes) (M : Machine) where
  judge_stop-IsReleased :
      (id : String) (w v w' : World) (r q : Deployment) (os : List Orphan) (ranks : List Rank)
      → r.orphans ≡ os
      → All (IsAccounted os w.history v.history) ranks
      → judge_stop text_of R N M id w (ok (some r, v)) ≡ ok (some (marked q), w')
      → q.sync ≡ "in_sync"
      → All (IsReleased w.history w'.history) ranks
  judge_stop-IsReleased id w v w' r q [] ranks e all said settled =
      let said' : marking id in_sync "" "" v ≡ ok (some (marked q), w') =
        subst (λ (l : List Orphan). judge_orphans text_of R N M id v l ≡ ok (some (marked q), w')) e
          said in
      let (_, same) =
        other_mark in_sync v w' (marking id in_sync "" "" v) q (marking-Marks id in_sync "" "" v)
          said' in
      subst (λ (h : History). All (IsReleased w.history h) ranks) (sym same)
        (released text_of R N id ranks w.history w.history v.history ranks all)
  judge_stop-IsReleased id w v w' r q (o ∷ os) ranks e all said settled =
      let said' : marking id in_progress unconfirmed intent_stop v ≡ ok (some (marked q), w') =
        subst (λ (l : List Orphan). judge_orphans text_of R N M id v l ≡ ok (some (marked q), w')) e
          said in
      let (waits, _) =
        other_mark in_progress v w' (marking id in_progress unconfirmed intent_stop v) q
          (marking-Marks id in_progress unconfirmed intent_stop v) said' in
      absurd (in_progress-in_sync q waits settled)

  -- When the reconciler finishes a stop and marks the record as in sync, every rank of the record
  -- is released: it has no container, or a daemon answered during the stop that its container is
  -- missing. The record stood in an open store.
  pub finish_stop-IsReleased :
      (r q : Deployment) (id : String) (w w' : World)
      → IsOpen w.store
      → find_record id (documents w.store.rows) ≡ some r
      → finish_stop text_of R N M id w ≡ ok (some (marked q), w')
      → q.sync ≡ "in_sync"
      → All (IsReleased w.history w'.history) (rank_entries r)
  unfolding finish_stop
  finish_stop-IsReleased r q id w w' o found said settled =
      let (x, (v, (stops, (_, all)))) = stop-IsAccounted text_of R N id r w o found in
      judge_stop-IsReleased id w v w' x q x.orphans (rank_entries r) refl all
        (ground (arith, stops)) settled

  -- When the reconciler finishes a delete and says that the record is deleted, the store has no row
  -- under its id, and every rank that it had is released. The record stood in an open store.
  pub finish_delete-IsReleased :
      (r : Deployment) (id : String) (w w' : World)
      → IsOpen w.store
      → find_record id (documents w.store.rows) ≡ some r
      → finish_delete text_of R N M id w ≡ ok (some (deleted id), w')
      → (lookup id w'.store.rows ≡ none) × All (IsReleased w.history w'.history) (rank_entries r)
  unfolding finish_delete
  finish_delete-IsReleased r id w w' o found said =
      elim (Result-cases (delete_deployment text_of R N id w)) [
        | inr (x, failed) ↦
            let said' : marking id deleting waiting_on_node "" w ≡ ok (some (deleted id), w') =
              ground (arith, failed) in
            absurd (subst (Marks deleting w) said' (marking-Marks id deleting waiting_on_node "" w))
        | inl ((true, v), done) ↦
            let (gone, all) = delete-IsReleased text_of R N id r w v o found done in
            ground (arith, done, gone, all)
        | inl ((false, v), done) ↦
            let said' : marking id deleting unconfirmed "" v ≡ ok (some (deleted id), w') =
              ground (arith, done) in
            absurd (subst (Marks deleting v) said' (marking-Marks id deleting unconfirmed "" v))
      ]
