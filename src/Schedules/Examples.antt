-- ===== src/Schedules/Examples.antt =====
-- One schedule whose download finishes twice.
use spark_pulse.Prelude.{◌≡◌, ◌≤◌, refl, String, List, [], ◌∷◌, arith}
use spark_pulse.Prelude.Dict.{lookup, insert}
use spark_pulse.Schedules.{
  Entry, World, Created, created, Job, JobStatus, schedule, claim, finish, deploy, on_each,
  on_download_finished, for_model, listing, newest_first, insert_newest,
}
use spark_pulse.Schedules.Once.{count, spent, here, next, scheduling, downloaded, Reach-at_most_one}

abbrev empty : World
empty = record { rows = []; created = []; cancelled_downloads = []; spawned = [] }

abbrev succeed : List String → Entry → Created
succeed calls e = created "d9"

abbrev asked : World
asked =
    (schedule "s1" "qwen" "j1" "t0" (record { name = "chat"; recipe_id = "r"; body = "{}" })
      empty).1

abbrev fetched : Job
fetched = record { id = "j1"; model = "qwen"; status = JobStatus.completed; error = "" }

abbrev once : World
once = on_download_finished succeed "t1" fetched asked

abbrev twice : World
twice = on_download_finished succeed "t2" fetched once

created_one : twice.created ≡ "s1" ∷ []
unfolding on_download_finished on_each deploy claim finish for_model listing newest_first
    insert_newest schedule lookup insert
created_one = refl

Reach-at_most_one_example :
    (count "s1" twice.created ≤ 1) × (count "s1" twice.created ≤ spent "s1" twice.rows)
Reach-at_most_one_example =
    Reach-at_most_one succeed empty twice "s1" (λ id. unfold count in omega arith)
      (next
        (next
          (next here (
            scheduling "s1" "qwen" "j1" "t0"
              (record { name = "chat"; recipe_id = "r"; body = "{}" }) (unfold lookup in refl)))
          (downloaded fetched "t1"))
        (downloaded fetched "t2"))
