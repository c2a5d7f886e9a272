-- ===== src/Runtime/Plan.antt =====
-- A resolved plan, the record that it is persisted as, and the orders in which its ranks are taken.
use spark_pulse.Prelude.{
  ℕ, String, Bool, true, false, not, Option, none, some, List, [], ◌∷◌, ◌++◌, map, keep, str_eq,
  if◌then◌else◌,
}
use spark_pulse.Records.{Deployment, Status, Rank, Redactor, Result, ok, ◌>>=◌, load, save}
use spark_pulse.Runtime.Lifecycle.{World}

-- `RankPlan`: what is recorded of the rank, and the image that its container is made from.
pub record RankPlan : Type 0 where
  pub entry : Rank
  pub image : String

-- `DeployPlan`, but for what only the rendering of commands reads. An absent or zero port is `none`.
pub record Plan : Type 0 where
  pub deployment_id : String
  pub recipe_id : String
  pub name : String
  pub created_at : String
  pub port : ℕ
  pub rendezvous_port : Option ℕ
  pub rpc_port : Option ℕ
  pub nodes : List String
  pub launch_command : String
  pub image_ref : String
  pub container_name : String
  pub generation : ℕ
  pub has_mods : Bool
  pub rank_plans : List RankPlan

-- `_rank_record`
abbrev pub rank_record : RankPlan → Rank
rank_record r = r.entry

-- `_record_from_plan`
unfoldable pub record_from_plan : Plan → Status → Deployment
record_from_plan p status = record {
  id = p.deployment_id;
  name = p.name;
  status = status;
  runtime = "native";
  created_at = p.created_at;
  started_at = none;
  ready_at = none;
  stopped_at = none;
  error_message = none;
  port = some p.port;
  rendezvous_port = p.rendezvous_port;
  rpc_port = p.rpc_port;
  nodes = p.nodes;
  ranks = map rank_record p.rank_plans;
  orphans = [];
  container_name = p.container_name;
  generation = p.generation;
  reconciled = false;
  launch_command = p.launch_command;
  final_logs = [];
  sync = "";
  sync_reason = "";
  sync_intent = "";
}

-- Replacing any earlier record of the id.
unfoldable pub persist_planned_record :
    Redactor → Plan → Status → World → Result (Deployment × World)
unfolding record_from_plan
persist_planned_record R p status w = do
  l ← load R w.store
  let new = record_from_plan p status
  ok (
    new,
    record w { store = save (keep (λ r. not (str_eq r.id p.deployment_id)) l.0 ++ new ∷ []) l.1 },
  )

-- Rank zero first.
abbrev pub teardown_order : Plan → List RankPlan
teardown_order p = p.rank_plans

unfoldable pub reversed : List RankPlan → List RankPlan
reversed [] = []
reversed (r ∷ rs) = reversed rs ++ r ∷ []

-- Workers first, rank zero last.
unfoldable pub start_order : Plan → List RankPlan
unfolding reversed
start_order p = reversed p.rank_plans

unfoldable pub seen_before : String → List String → Bool
seen_before node [] = false
seen_before node (n ∷ ns) = if str_eq n node then true else seen_before node ns

unfoldable pub distinct : List RankPlan → List String → List String
unfolding seen_before
distinct [] seen = seen
distinct (r ∷ rs) seen =
    distinct rs (if seen_before r.entry.node seen then seen else seen ++ r.entry.node ∷ [])

-- `_pull_targets`: each node once, in start order
unfoldable pub pull_targets : Plan → List String
unfolding start_order distinct
pull_targets p = distinct (start_order p) []

-- `_run_from`: every rank on the node takes its image under the name that it has there.
unfoldable pub run_from : String → String → Plan → Plan
run_from node image p = record p {
  rank_plans =
      map (λ (r : RankPlan). if str_eq r.entry.node node then record r { image = image } else r)
        p.rank_plans;
}
