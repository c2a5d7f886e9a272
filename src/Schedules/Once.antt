-- ===== src/Schedules/Once.antt =====
-- Creations counted against the rows of the scheduled deploys (`_claim` and its callers in
-- spark_pulse/tools/scheduled_deploys.py).
use spark_pulse.Prelude.{
  ℕ, ◌+◌, ◌≤◌, String, ◌≡◌, refl, Bool, true, false, Option, none, some, List, [], ◌∷◌, ◌++◌, arith,
  eq_iff, str_eq, truthy, if◌then◌else◌, Option-cases, Bool-cases, inl, inr, or_text,
}
use spark_pulse.Prelude.Dict.{lookup, insert, lookup-insert}
use spark_pulse.Schedules.{
  Status, waiting, deploying, is_active, is_waiting, Request, Entry, Table, World, schedule, shares,
  stop_download, stop_unshared, cancelled_or_kept, cancel, finish, prefix, claim, Created, created,
  raised, settle, Job, JobStatus, deploy, end_with, on_entry, on_each, on_download_finished,
  for_model, listing, reconcile_waiting, reconcile_entry, reconcile_each, reconcile,
}

unfoldable pub count : String → List String → ℕ
count id [] = 0
count id (j ∷ l) = let n = count id l in if str_eq j id then n + 1 else n

count-append :
    (id j : String) (l : List String)
    → count id (l ++ j ∷ []) ≡ (if str_eq j id then count id l + 1 else count id l)
unfolding count
count-append id j [] = ground arith
count-append id j (k ∷ l) = ground (arith, count-append id j l)

-- 1 for a row that is past waiting, else 0.
abbrev pub spent_by : Option Entry → ℕ
spent_by none = 0
spent_by (some e) = if is_waiting e.status then 0 else 1

abbrev pub spent : String → Table → ℕ
spent id rows = spent_by (lookup id rows)

-- No entry has created more than one deployment, and none that has no row or still waits created any.
abbrev pub Once : World → Type 0
Once w = (id : String) → count id w.created ≤ spent id w.rows

-- The rows `after` have every entry past waiting that `before` has.
abbrev Grows : Table → Table → Type 0
Grows before after = (id : String) → spent id before ≤ spent id after

insert-Grows :
    (id : String) (e : Entry) (rows : Table)
    → is_waiting e.status ≡ false
    → Grows rows (insert id e rows)
insert-Grows id e rows past j = ground (arith, lookup-insert id j e rows)

finish-Grows :
    (id : String) (st : Status) (f : Entry → Entry) (now : String) (rows : Table)
    → is_waiting st ≡ false
    → ((r : Entry) → (f r).status ≡ r.status)
    → Grows rows (finish id st f now rows)
unfolding finish
finish-Grows id st f now rows past same j = elim (Option-cases (lookup id rows)) [
  | inl absent ↦ ground (arith, absent)
  | inr (e, found) ↦
      let new : Entry = f (record e { status = st; finished_at = now }) in
      let kept = same (record e { status = st; finished_at = now }) in
      ground (arith, found, insert-Grows id new rows (ground (arith, kept)) j)
]

settle-Grows :
    (e : Entry) (now : String) (c : Created) (rows : Table) → Grows rows (settle e now c rows)
settle-Grows e now (created d) rows =
    finish-Grows e.id Status.done (λ r. record r { deployment_id = d }) now rows refl (λ r. refl)
settle-Grows e now (raised m) rows =
    finish-Grows e.id Status.failed (λ r. record r { error = prefix 2000 m }) now rows refl
      (λ r. refl)

-- An entry that is taken waited before, and is past waiting then.
claim-taken :
    (id j : String) (rows : Table)
    → (claim id rows).0 ≡ true
    → (spent id rows ≡ 0) × (spent j (claim id rows).1 ≡ (if str_eq id j then 1 else spent j rows))
unfolding claim
claim-taken id j rows taken = elim (Option-cases (lookup id rows)) [
  | inl absent ↦ absurd (ground (arith, absent))
  | inr (e, found) ↦
      ground (arith, found, lookup-insert id j (record e { status = deploying }) rows)
]

claim-left : (id : String) (rows : Table) → (claim id rows).0 ≡ false → (claim id rows).1 ≡ rows
unfolding claim
claim-left id rows left = elim (Option-cases (lookup id rows)) [
  | inl absent ↦ ground (arith, absent)
  | inr (e, found) ↦ ground (arith, found)
]

module _ (create : List String → Entry → Created) (now : String) where
  deploy-Once : (e : Entry) (w : World) → Once w → Once (deploy create now e w)
  unfolding deploy
  deploy-Once e w o j = elim (Bool-cases (claim e.id w.rows).0) [
    | inl mine ↦
        let rows = (claim e.id w.rows).1 in
        let (fresh, taken) = claim-taken e.id j w.rows mine in
        ground (
          arith,
          mine,
          fresh,
          taken,
          settle-Grows e now (create w.created e) rows j,
          o j,
          o e.id,
          count-append j e.id w.created,
          eq_iff e.id j,
        )
    | inr theirs ↦ ground (arith, theirs, o j)
  ]

  end_with-Once :
      (job : Job) (e : Entry) (st : Status) (fallback : String) (w : World)
      → is_waiting st ≡ false
      → Once w
      → Once (end_with create now job e st fallback w)
  end_with-Once job e st fallback w past o j =
      let grows =
        finish-Grows e.id st (λ r. record r { error = or_text (prefix 2000 job.error) fallback })
          now w.rows past (λ r. refl) j in
      ground (arith, grows, o j)

  on_entry-Once :
      (job : Job) (s : JobStatus) (e : Entry) (w : World)
      → Once w
      → Once (on_entry create now job s e w)
  on_entry-Once job JobStatus.completed e w o = deploy-Once e w o
  on_entry-Once job JobStatus.failed e w o =
      end_with-Once job e Status.failed "the download was failed" w refl o
  on_entry-Once job JobStatus.cancelled e w o =
      end_with-Once job e Status.cancelled "the download was cancelled" w refl o
  on_entry-Once job JobStatus.other e w o = o

  on_each-Once :
      (job : Job) (es : List Entry) (w : World) → Once w → Once (on_each create now job es w)
  unfolding on_each
  on_each-Once job [] w o = o
  on_each-Once job (e ∷ es) w o =
      on_each-Once job es (on_entry create now job job.status e w)
        (on_entry-Once job job.status e w o)

  on_download_finished-Once :
      (job : Job) (w : World) → Once w → Once (on_download_finished create now job w)
  unfolding on_download_finished
  on_download_finished-Once job w o = elim (Bool-cases (truthy job.model)) [
    | inl named ↦ rw named (on_each-Once job (for_model job.model w.rows) w o)
    | inr blank ↦ rw blank o
  ]

  module _ (present : String → Option Bool) (job_of : String → Option JobStatus) where
    reconcile_waiting-Once :
        (e : Entry) (m : Option Bool) (w : World)
        → Once w
        → Once (reconcile_waiting create now present job_of e m w).1
    reconcile_waiting-Once e none w o = o
    reconcile_waiting-Once e (some true) w o = o
    reconcile_waiting-Once e (some false) w o = λ j.
        let grows =
          finish-Grows e.id Status.failed
            (λ r. record r { error = "the download this was waiting on is no longer running" }) now
            w.rows refl (λ r. refl) j in
        ground (arith, grows, o j)

    reconcile_entry-Once :
        (e : Entry) (s : Status) (w : World)
        → Once w
        → Once (reconcile_entry create now present job_of e s w).1
    reconcile_entry-Once e deploying w o = λ j.
        let grows =
          finish-Grows e.id Status.failed
            (λ r. record r {
              error =
                  "the control plane restarted while this was deploying; check whether the deployment exists and re-issue it if not";
            })
            now w.rows refl (λ r. refl) j in
        let once = o j in omega (arith, grows, once)
    reconcile_entry-Once e waiting w o = reconcile_waiting-Once e (present e.model) w o
    reconcile_entry-Once e Status.done w o = reconcile_waiting-Once e (present e.model) w o
    reconcile_entry-Once e Status.failed w o = reconcile_waiting-Once e (present e.model) w o
    reconcile_entry-Once e Status.cancelled w o = reconcile_waiting-Once e (present e.model) w o

    reconcile_each-Once :
        (es : List Entry) (w : World)
        → Once w
        → Once (reconcile_each create now present job_of es w).1
    unfolding reconcile_each
    reconcile_each-Once [] w o = o
    reconcile_each-Once (e ∷ es) w o =
        reconcile_each-Once es (reconcile_entry create now present job_of e e.status w).1
          (reconcile_entry-Once e e.status w o)

stop_shared :
    (es : List Entry) (e : Entry) (w : World)
    → ((stop_unshared es e w).created ≡ w.created) × ((stop_unshared es e w).rows ≡ w.rows)
stop_shared [] e w = (refl, refl)
stop_shared (x ∷ es) e w = (refl, refl)

stop_download_lem :
    (b : Bool) (e : Entry) (w : World)
    → ((stop_download b e w).created ≡ w.created) × ((stop_download b e w).rows ≡ w.rows)
stop_download_lem b e w = ground (arith, stop_shared (shares e (for_model e.model w.rows)) e w)

active_or_not-Once :
    (c : Bool) (id : String) (b : Bool) (e stored : Entry) (w : World)
    → Once (stop_download b stored (record w { rows = insert id stored w.rows }))
    → Once w
    → Once (cancelled_or_kept c id b e stored w).1
active_or_not-Once true id b e stored w ended o = ended
active_or_not-Once false id b e stored w ended o = o

stop_download-Once : (b : Bool) (e : Entry) (w : World) → Once w → Once (stop_download b e w)
stop_download-Once b e w o j =
    let (same_created, same_rows) = stop_download_lem b e w in
    ground (arith, same_created, same_rows, o j)

cancel-Once :
    (id : String) (b : Bool) (now : String) (w : World) → Once w → Once (cancel id b now w).1
unfolding cancel
cancel-Once id b now w o = elim (Option-cases (lookup id w.rows)) [
  | inl absent ↦ rw absent o
  | inr (e, found) ↦
      let stored : Entry = record e { status = Status.cancelled; finished_at = now } in
      let rows = insert id stored w.rows in
      rw found (
        active_or_not-Once (is_active e.status) id b e stored w
          (stop_download-Once b stored (record w { rows = rows })
            (λ j.
              let le = insert-Grows id stored w.rows refl j in
              let once = o j in omega (arith, le, once)))
          o)
]

-- An operation on the schedules. A new schedule has a fresh id.
pub data Step (create : List String → Entry → Created) (w : World) : World → Type 0 where
  scheduling :
      (id model job now : String) (request : Request)
      → lookup id w.rows ≡ none
      → Step create w (schedule id model job now request w).1
  cancelling : (id : String) (b : Bool) (now : String) → Step create w (cancel id b now w).1
  deploying_entry : (e : Entry) (now : String) → Step create w (deploy create now e w)
  downloaded : (job : Job) (now : String) → Step create w (on_download_finished create now job w)
  reconciling :
      (now : String) (present : String → Option Bool) (job_of : String → Option JobStatus)
      → Step create w (reconcile create now present job_of w).1

pub data Reach (create : List String → Entry → Created) (w : World) : World → Type 0 where
  here : Reach create w w
  next : {u v : World} → Reach create w u → Step create u v → Reach create w v

Step-Once :
    (create : List String → Entry → Created) (w v : World) → Step create w v → Once w → Once v
unfolding schedule reconcile
Step-Once create w _ (scheduling id model job now request fresh) o = λ j. ground (
  arith,
  (schedule id model job now request w).0,
  lookup-insert id j (schedule id model job now request w).0 w.rows,
  o j,
  eq_iff id j,
)
Step-Once create w _ (cancelling id b now) o = cancel-Once id b now w o
Step-Once create w _ (deploying_entry e now) o = deploy-Once create now e w o
Step-Once create w _ (downloaded job now) o = on_download_finished-Once create now job w o
Step-Once create w _ (reconciling now present job_of) o =
    reconcile_each-Once create now present job_of (listing true w.rows) w o

Reach-Once :
    (create : List String → Entry → Created) (w v : World) → Reach create w v → Once w → Once v
Reach-Once create w _ here o = o
Reach-Once create w v (next {u} r s) o = Step-Once create u v s (Reach-Once create w u r o)

-- In every run from a world in which each entry created no more than its row allows (none without
-- a row or while it waits, else one), whatever the order of schedules with fresh ids,
-- cancellations, deploys, finished downloads and reconciliations, each an undivided step, an entry
-- creates at most one deployment, and none while it waits or has no row.
pub Reach-at_most_one :
    (create : List String → Entry → Created) (w v : World) (id : String)
    → Once w
    → Reach create w v
    → (count id v.created ≤ 1) × (count id v.created ≤ spent id v.rows)
Reach-at_most_one create w v id o r =
    let once = Reach-Once create w v r o id in (ground (arith, once), once)
