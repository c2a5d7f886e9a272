-- ===== src/Runtime/Stopped.antt =====
-- A start whose deployment was stopped or deleted while it waited for the lock
-- (`_teardown_requested`, `_cancelled` and `start` in spark_pulse/tools/native_runtime.py).
use spark_pulse.Prelude.{
  ℕ, String, ◌≡◌, ◌⊎◌, inl, inr, refl, ◌∙◌, Bool, true, none, some, [], arith, Bool-cases,
}
use spark_pulse.Records.{Deployment, Status, Redactor, ok, documents}
use spark_pulse.Records.Views.{IsOpen}
use spark_pulse.Runtime.Nodes.{Nodes}
use spark_pulse.Runtime.Teardown.{teardown_entries, teardown_each, by_rank}
use spark_pulse.Runtime.Lifecycle.{
  World, deployment_stopped, find_record, rank_entries, is_torn_down, teardown_requested,
  pull_cancel_requested,
}
use spark_pulse.Runtime.Reading.{
  loaded, get-status, get-none, loaded-none, loaded-status, update_lem, update-none,
}
use spark_pulse.Runtime.Flow.{native, Outcome, done, broke, publish}
use spark_pulse.Runtime.Wait.{wait_ready}
use spark_pulse.Runtime.Start.{torn_record, locked_unless_torn, settle_ready, await_ready}
use spark_pulse.Runtime.Plan.{Plan}
use spark_pulse.Runtime.Agents.{Agents, Message, deploy_cancelled}
use spark_pulse.Runtime.Gang.{
  Verdict, settled, tear_and_fail, as_cancelled, settle_stopped, cancelled, start_locked,
}

-- The record is deleted, or stopped.
abbrev pub IsTorn : String → World → Type 0
IsTorn id w =
    (find_record id (documents w.store.rows) ≡ none)
    ⊎ ((r : Deployment) × (find_record id (documents w.store.rows) ≡ some r)
        × (r.status ≡ Status.stopped))

module _ (say : Message → String) (text_of : ℕ → String) (R : Redactor) (N : Nodes)
    (A : Agents) where
  IsTorn-asked :
      (id : String) (w : World)
      → IsOpen w.store
      → IsTorn id w
      → (is_torn_down R id w ≡ ok (true, loaded R id [] [] w)) × IsTorn id (loaded R id [] [] w)
  unfolding is_torn_down
  IsTorn-asked id w o (inl gone) =
      (rw (get-none R id [] [] w o gone) refl, inl (loaded-none R id [] [] w gone))
  IsTorn-asked id w o (inr (r, found, stopped)) =
      let (q, e, s) = get-status R id [] [] r w o found in
      let (x, f, t) = loaded-status R id [] [] r w found in
      (ground (arith, e), inr (x, f, ground arith))

  -- The start settles as stopped, and asked no node anything.
  abbrev Settles : World → Outcome Verdict → Type 0
  Settles w o =
      (d : Deployment) × ((w' : World) × ((o ≡ done (settled d, w'))
          × ((d.status ≡ Status.stopped) × (w'.history ≡ w.history))))

  cancelled-Settles :
      (planned : Deployment) (w : World)
      → IsOpen w.store
      → IsTorn planned.id w
      → Settles w (cancelled say text_of R N A planned [] w)
  unfolding cancelled settle_stopped teardown_entries teardown_each by_rank loaded
  cancelled-Settles planned w o (inl gone) =
      let told = publish deployment_stopped planned.id (say deploy_cancelled) w in
      let e = update-none R planned.id [] [] (as_cancelled say text_of R N A told) told o gone in
      (
        record planned { status = Status.stopped },
        (loaded R planned.id [] [] told, rw e (refl, (refl, refl))),
      )
  cancelled-Settles planned w o (inr (r, found, halted)) =
      let told = publish deployment_stopped planned.id (say deploy_cancelled) w in
      let f = as_cancelled say text_of R N A told in
      let (q, (v, e, kept)) =
        update_lem R planned.id (rank_entries r) [] f told o (r, found, refl) in
      (f q, (v, rw e (refl, (refl, kept))))

  -- When a deployment was stopped or deleted before a start has the lock, the section of `start`
  -- under the lock answers a stopped record and asks no node for anything: no container is made,
  -- no engine is launched. The store is open, and its record is absent or stopped.
  pub start_locked-torn :
      (planned : Deployment) (p : Plan) (wait : Bool) (w : World)
      → IsOpen w.store
      → IsTorn planned.id w
      → (d : Deployment) × ((w' : World) × ((start_locked say text_of R N A planned p wait w
              ≡ done (settled d, w'))
            × ((d.status ≡ Status.stopped) × (w'.history ≡ w.history))))
  unfolding start_locked teardown_requested loaded
  start_locked-torn planned p wait w o torn =
      elim (Bool-cases (pull_cancel_requested planned.id w)) [
        | inl asked ↦
            let (d, (v, (e, (halted, kept)))) = cancelled-Settles planned w o torn in
            (d, (v, (rw asked e, (halted, kept))))
        | inr never ↦
            let (e', torn') = IsTorn-asked planned.id w o torn in
            let (d, (v, (e, (halted, kept)))) =
              cancelled-Settles planned (loaded R planned.id [] [] w) o torn' in
            (d, (v, (rw never (rw e' e), (halted, kept))))
      ]

  -- What a start reads of a record that was torn down: it is stopped, and no node is asked.
  torn_record-Settles :
      (meanwhile : World → World) (d : Deployment) (w : World)
      → IsOpen w.store
      → IsTorn d.id w
      → Settles w (torn_record say text_of R N A meanwhile d w)
  unfolding loaded
  torn_record-Settles meanwhile d w o (inl gone) =
      let e = get-none R d.id [] [] w o gone in
      (record d { status = Status.stopped }, (loaded R d.id [] [] w, (rw e refl, (refl, refl))))
  torn_record-Settles meanwhile d w o (inr (r, found, halted)) =
      let (q, e, s) = get-status R d.id [] [] r w o found in
      (q, (loaded R d.id [] [] w, (rw e refl, (s ∙ halted, refl))))

  locked-Settles :
      (meanwhile : World → World) (d : Deployment) (k : World → Outcome Verdict) (w : World)
      → IsOpen w.store
      → IsTorn d.id w
      → Settles w (locked_unless_torn say text_of R N A meanwhile d k w)
  unfolding loaded
  locked-Settles meanwhile d k w o torn =
      let (e, torn') = IsTorn-asked d.id w o torn in
      let (q, (v, (read, (halted, kept)))) =
        torn_record-Settles meanwhile d (loaded R d.id [] [] w) o torn' in
      (q, (v, (rw e read, (halted, kept))))

  -- The verdict of a stop or a delete stands: when the wait for readiness ended, well or with an
  -- error of the runtime, and the deployment was stopped or deleted before the lock was taken again,
  -- the start answers a stopped record and asks no node anything more, whatever the wait had found.
  -- The store is open then.
  pub await_ready-torn :
      (meanwhile : World → World) (d : Deployment) (p : Plan) (e : String) (w v : World)
      → (wait_ready say N A p w ≡ done (tt, v)) ⊎ (wait_ready say N A p w ≡ broke (native e) v)
      → IsOpen (meanwhile v).store
      → IsTorn d.id (meanwhile v)
      → (q : Deployment) × ((w' : World) × ((await_ready say text_of R N A meanwhile d p w
              ≡ done (settled q, w'))
            × ((q.status ≡ Status.stopped) × (w'.history ≡ (meanwhile v).history))))
  unfolding await_ready
  await_ready-torn meanwhile d p e w v (inl waited) o torn =
      let (q, (w', (said, rest))) =
        locked-Settles meanwhile d (settle_ready say text_of R N A meanwhile d) (meanwhile v) o
          torn in
      (q, (w', (rw waited said, rest)))
  await_ready-torn meanwhile d p e w v (inr waited) o torn =
      let (q, (w', (said, rest))) =
        locked-Settles meanwhile d (tear_and_fail say text_of R N A d p.rank_plans e) (meanwhile v)
          o torn in
      (q, (w', (rw waited said, rest)))
