-- ===== src/Runtime/Teardown.antt =====
-- Tearing a gang down, rank zero first, and the ranks that it leaves outstanding.
use Prim.Native.String.{◌++◌ as text_append}
use spark_pulse.Prelude.{
  ℕ, String, Bool, true, false, Option, none, some, List, [], ◌∷◌, leb, truthy, if◌then◌else◌,
}
use spark_pulse.Records.{Rank, Orphan}
use spark_pulse.Runtime.Nodes.{
  Answer, got, raised, resolved, stopped, History, Nodes, confirm_gone, final_logs,
}

-- `_orphan`
unfoldable pub orphan : Nodes → Rank → String → History → Orphan
orphan N entry reason h = record {
  rank = entry.rank;
  node = entry.node;
  container_name = entry.container_name;
  reason = reason;
  since = N.now h;
}

-- What `_teardown_entry` leaves: an orphan if the rank was not confirmed gone, and the last logs.
pub record Torn : Type 0 where
  pub orphan : Option Orphan
  pub logs : String
  pub history : History

abbrev pub judge_gone : Nodes → Rank → String → Answer Bool × History → Torn
judge_gone N entry logs (raised e, h) = record {
  orphan = some (orphan N entry (text_append "removal could not be confirmed: " e) h);
  logs = logs;
  history = h;
}
judge_gone N entry logs (got true, h) = record { orphan = none; logs = logs; history = h }
judge_gone N entry logs (got false, h) = record {
  orphan = some (orphan N entry "the container was still present after being stopped" h);
  logs = logs;
  history = h;
}

abbrev pub judge_stop : Nodes → Rank → String → Answer (Unit {0}) → History → Torn
judge_stop N entry logs (raised e) h = record {
  orphan = some (orphan N entry (text_append "the node could not be reached: " e) h);
  logs = logs;
  history = h;
}
judge_stop N entry logs (got _) h =
    judge_gone N entry logs (confirm_gone N entry.node entry.container_name h)

-- `_teardown_entry`, on a node that was resolved
unfoldable pub teardown_entry : Nodes → Rank → History → Torn
unfolding final_logs
teardown_entry N entry h =
    let name = entry.container_name in
    let (logs, read) = final_logs N entry.node name h in
    let answer = N.stop read entry.node name in
    if truthy name
    then judge_stop N entry logs answer (stopped entry.node name answer ∷ read)
    else record { orphan = none; logs = ""; history = h }

abbrev pub judge_resolve : Nodes → Rank → Answer (Unit {0}) → History → Torn
judge_resolve N entry (raised e) h = record {
  orphan = some (orphan N entry (text_append "the node could not be reached: " e) h);
  logs = "";
  history = h;
}
judge_resolve N entry (got _) h = teardown_entry N entry h

-- One round of `_teardown_entries`.
unfoldable pub teardown_rank : Nodes → Rank → History → Torn
teardown_rank N entry h =
    let answer = N.resolve h entry.node in
    judge_resolve N entry answer (resolved entry.node answer ∷ h)

-- `sorted(entries, key=rank)`, which is stable.
unfoldable pub insert_rank : Rank → List Rank → List Rank
insert_rank r [] = r ∷ []
insert_rank r (q ∷ qs) = if leb r.rank q.rank then r ∷ q ∷ qs else q ∷ insert_rank r qs

unfoldable pub by_rank : List Rank → List Rank
unfolding insert_rank
by_rank [] = []
by_rank (r ∷ rs) = insert_rank r (by_rank rs)

-- The orphans, the logs of each rank that left some, and the history.
pub record TornDown : Type 0 where
  pub orphans : List Orphan
  pub logs : List (ℕ × String)
  pub history : History

abbrev pub listed : {A : Type 0} → Option A → List A → List A
listed none l = l
listed (some a) l = a ∷ l

unfoldable pub teardown_each : Nodes → List Rank → History → TornDown
teardown_each N [] h = record { orphans = []; logs = []; history = h }
teardown_each N (r ∷ rs) h =
    let torn = teardown_rank N r h in
    let rest = teardown_each N rs torn.history in
    record {
      orphans = listed torn.orphan rest.orphans;
      logs = if truthy torn.logs then (r.rank, torn.logs) ∷ rest.logs else rest.logs;
      history = rest.history;
    }

-- `_teardown_entries`
unfoldable pub teardown_entries : Nodes → List Rank → History → TornDown
unfolding by_rank
teardown_entries N entries h = teardown_each N (by_rank entries) h
