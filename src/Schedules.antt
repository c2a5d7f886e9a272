-- ===== src/Schedules.antt =====
-- Deployments that wait on a model that is still downloading
-- (spark_pulse/tools/scheduled_deploys.py): the table, and every operation on it. Creating a
-- deployment, the model catalogue and the downloads are parameters.
pub mod Once
pub mod Examples
use Prim.Native.String.{compare}
use Prim.Native.Nat.{Ordering}
use Prim.Native.String
use spark_pulse.Prelude.{
  ℕ, zero, suc, ◌+◌, String, Bool, true, false, ◌&&◌, Option, none, some, List, [], ◌∷◌, ◌++◌, keep,
  str_eq, truthy, or_text, is_some, if◌then◌else◌,
}
use spark_pulse.Prelude.Dict.{Dict, lookup, insert, values}

pub data Status : Type 0 where
  waiting deploying done failed cancelled : Status

-- `_ACTIVE`
abbrev pub is_active : Status → Bool
is_active waiting = true
is_active deploying = true
is_active _ = false

abbrev pub is_waiting : Status → Bool
is_waiting waiting = true
is_waiting _ = false

-- The create body: the fields that a schedule reads from it, and the rest.
pub record Request : Type 0 where
  pub name : String
  pub recipe_id : String
  pub body : String

-- `ScheduledDeploy`
pub record Entry : Type 0 where
  pub id : String
  pub model : String
  pub download_job_id : String
  pub status : Status
  pub name : String
  pub recipe_id : String
  pub request : Request
  pub deployment_id : String
  pub error : String
  pub created_at : String
  pub finished_at : String

abbrev pub Table : Type 0
Table = Dict Entry

-- The table, the calls that create a deployment (by the entry, in order), the downloads that were
-- cancelled, and the entries that a thread was started for.
pub record World : Type 0 where
  pub rows : Table
  pub created : List String
  pub cancelled_downloads : List String
  pub spawned : List Entry

-- `id` is the fresh identifier.
unfoldable pub schedule : (id model download_job_id now : String) → Request → World → Entry × World
schedule id model download_job_id now request w =
    let entry : Entry = record {
      id = id;
      model = model;
      download_job_id = download_job_id;
      status = waiting;
      name = request.name;
      recipe_id = request.recipe_id;
      request = request;
      deployment_id = "";
      error = "";
      created_at = now;
      finished_at = "";
    } in
    (entry, record w { rows = insert id entry w.rows })

unfoldable pub get : String → World → Option Entry
get id w = lookup id w.rows

-- `sorted(..., key=created_at, reverse=True)`, which is stable.
abbrev is_older : Entry → Entry → Bool
is_older a b = elim (compare a.created_at b.created_at) [ Ordering.lt ↦ true | _ ↦ false ]

unfoldable pub insert_newest : Entry → List Entry → List Entry
insert_newest e [] = e ∷ []
insert_newest e (q ∷ qs) = if is_older e q then q ∷ insert_newest e qs else e ∷ q ∷ qs

unfoldable pub newest_first : List Entry → List Entry
unfolding insert_newest
newest_first [] = []
newest_first (e ∷ es) = insert_newest e (newest_first es)

unfoldable pub listing : (active_only : Bool) → Table → List Entry
unfolding newest_first
listing active_only rows =
    newest_first (if active_only then keep (λ e. is_active e.status) (values rows) else values rows)

unfoldable pub for_model : String → Table → List Entry
unfolding listing
for_model model rows = keep (λ e. str_eq e.model model) (listing true rows)

abbrev pub shares : Entry → List Entry → List Entry
shares e es = keep (λ o. str_eq o.download_job_id e.download_job_id) es

-- Only when nothing else waits on the same download.
abbrev pub stop_unshared : List Entry → Entry → World → World
stop_unshared [] e w = record w {
  cancelled_downloads = w.cancelled_downloads ++ e.download_job_id ∷ [];
}
stop_unshared (_ ∷ _) e w = w

abbrev pub stop_download : Bool → Entry → World → World
stop_download cancel_download e w =
    if cancel_download && truthy e.download_job_id
    then stop_unshared (shares e (for_model e.model w.rows)) e w
    else w

abbrev pub cancelled_or_kept :
    Bool → String → Bool → (e stored : Entry) → World → Option Entry × World
cancelled_or_kept true id cancel_download e stored w = (
  some stored,
  stop_download cancel_download stored (record w { rows = insert id stored w.rows }),
)
cancelled_or_kept false id cancel_download e stored w = (some e, w)

abbrev pub cancel_found : String → Bool → String → Option Entry → World → Option Entry × World
cancel_found id cancel_download now none w = (none, w)
cancel_found id cancel_download now (some e) w =
    cancelled_or_kept (is_active e.status) id cancel_download e
      (record e { status = cancelled; finished_at = now }) w

unfoldable pub cancel :
    (id : String) (cancel_download : Bool) (now : String) → World → Option Entry × World
unfolding for_model
cancel id cancel_download now w = cancel_found id cancel_download now (lookup id w.rows) w

-- `s[:n]`
unfoldable pub prefix : ℕ → String → String
prefix zero s = ""
prefix (suc n) String.[] = ""
prefix (suc n) (String.◌∷◌ c s) = String.◌∷◌ c (prefix n s)

-- `_finish(entry_id, status, ...)`: `f` sets the other fields.
abbrev pub finish_found : String → Status → (Entry → Entry) → String → Option Entry → Table → Table
finish_found id status f now none rows = rows
finish_found id status f now (some e) rows =
    insert id (f (record e { status = status; finished_at = now })) rows

unfoldable pub finish : String → Status → (Entry → Entry) → String → Table → Table
finish id status f now rows = finish_found id status f now (lookup id rows) rows

-- `_claim`: one conditional UPDATE.
abbrev pub claim_found : String → Option Entry → Table → Bool × Table
claim_found id none rows = (false, rows)
claim_found id (some e) rows =
    if is_waiting e.status
    then (true, insert id (record e { status = deploying }) rows)
    else (false, rows)

unfoldable pub claim : String → Table → Bool × Table
claim id rows = claim_found id (lookup id rows) rows

-- What creating a deployment gives: its id, or the text of an exception.
pub data Created : Type 0 where
  created : (deployment_id : String) → Created
  raised : (message : String) → Created

abbrev pub settle : Entry → String → Created → Table → Table
settle e now (created d) rows = finish e.id done (λ r. record r { deployment_id = d }) now rows
settle e now (raised m) rows = finish e.id failed (λ r. record r { error = prefix 2000 m }) now rows

pub data JobStatus : Type 0 where
  completed failed cancelled other : JobStatus

pub record Job : Type 0 where
  pub id : String
  pub model : String
  pub status : JobStatus
  pub error : String

-- `create` is `deploy_dispatch.create_deployment`, after the calls so far; `now` is `_now()`.
module _ (create : List String → Entry → Created) (now : String) where
  -- `_deploy`
  unfoldable pub deploy : Entry → World → World
  unfolding claim finish
  deploy e w =
      let (mine, rows) = claim e.id w.rows in
      if mine
      then record w {
        rows = settle e now (create w.created e) rows;
        created = w.created ++ e.id ∷ [];
      }
      else w

  abbrev pub end_with : Job → Entry → Status → String → World → World
  end_with job e status fallback w =
      if str_eq e.download_job_id job.id
      then record w {
        rows =
            finish e.id status (λ r. record r { error = or_text (prefix 2000 job.error) fallback })
              now w.rows;
      }
      else w

  abbrev pub on_entry : Job → JobStatus → Entry → World → World
  on_entry job completed e w = deploy e w
  on_entry job failed e w = end_with job e Status.failed "the download was failed" w
  on_entry job cancelled e w = end_with job e Status.cancelled "the download was cancelled" w
  on_entry job other e w = w

  unfoldable pub on_each : Job → List Entry → World → World
  unfolding deploy
  on_each job [] w = w
  on_each job (e ∷ es) w = on_each job es (on_entry job job.status e w)

  unfoldable pub on_download_finished : Job → World → World
  unfolding on_each for_model
  on_download_finished job w =
      if truthy job.model then on_each job (for_model job.model w.rows) w else w

  -- The catalogue's answer for a model, `none` where it raises, and a download's status.
  module _ (present : String → Option Bool) (job_of : String → Option JobStatus) where
    abbrev pub is_dead : Option JobStatus → Bool
    is_dead none = true
    is_dead (some failed) = true
    is_dead (some cancelled) = true
    is_dead (some _) = false

    abbrev pub job_for : Entry → Option JobStatus
    job_for e = if truthy e.download_job_id then job_of e.download_job_id else none

    abbrev pub reconcile_waiting : Entry → Option Bool → World → ℕ × World
    reconcile_waiting e none w = (0, w)
    reconcile_waiting e (some true) w = (1, record w { spawned = w.spawned ++ e ∷ [] })
    reconcile_waiting e (some false) w =
        if is_dead (job_for e)
        then (
          1,
          record w {
            rows =
                finish e.id Status.failed
                  (λ r. record r {
                    error = "the download this was waiting on is no longer running";
                  })
                  now w.rows;
          },
        )
        else (0, w)

    abbrev pub reconcile_entry : Entry → Status → World → ℕ × World
    reconcile_entry e deploying w = (
      1,
      record w {
        rows =
            finish e.id Status.failed
              (λ r. record r {
                error =
                    "the control plane restarted while this was deploying; check whether the deployment exists and re-issue it if not";
              })
              now w.rows;
      },
    )
    reconcile_entry e _ w = reconcile_waiting e (present e.model) w

    unfoldable pub reconcile_each : List Entry → World → ℕ × World
    unfolding finish
    reconcile_each [] w = (0, w)
    reconcile_each (e ∷ es) w =
        let (n, mid) = reconcile_entry e e.status w in
        let (m, after) = reconcile_each es mid in (n + m, after)

    unfoldable pub reconcile : World → ℕ × World
    unfolding reconcile_each listing
    reconcile w = reconcile_each (listing true w.rows) w
