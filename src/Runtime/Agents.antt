-- ===== src/Runtime/Agents.antt =====
-- What a start asks of the machines besides a teardown's questions, and how it words its messages.
use spark_pulse.Prelude.{ℕ, String, Bool, List, Option}
use spark_pulse.Records.{Rank}
use spark_pulse.Runtime.Nodes.{Answer, History}
use spark_pulse.Runtime.Lifecycle.{World}

-- A container that `list_managed_containers` finds: its name, and its label of the generation.
pub record Managed : Type 0 where
  pub name : String
  pub generation : String

-- How `_apply_mods` and `_deploy_script` end: well, with an error of the runtime's own, or with any
-- other exception.
pub data Applied : Type 0 where
  applied : Applied
  refused crashed : (message : String) → Applied

-- How `pull_image` ends.
pub data PullEnd : Type 0 where
  image_here cancelled_pull : PullEnd
  failed_pull : (message : String) → PullEnd

pub record Agents : Type 0 where
  pub list_managed : History → String → Answer (List Managed)
  pub run_container : History → Rank → String → Answer (Unit {0})
  pub apply_mods : History → Rank → Applied
  pub deploy_script : History → Rank → Applied
  pub image_exists : History → String → String → Answer Bool
  -- `loopback_reference`, or "" where there is none
  pub registry_copy : String → String
  -- the name to pull from the control node's registry, if it is a source for the node
  pub relayed_source : History → String → String → Option String
  -- the end of a pull of a reference on a node, and what the other threads made of the world
  -- meanwhile
  pub pull_image : World → String → String → PullEnd × World
  -- `rpc_listening`, and how many more rounds `_wait_rpc_workers` has before its deadline
  pub rpc_listening : History → String → ℕ → Bool
  pub rpc_rounds : History → ℕ
  -- `serve_process_alive` (`none` where it cannot tell), `probe_ready`, and the rounds left
  pub serve_alive : History → Rank → Option Bool
  pub probe_ready : History → Bool
  pub ready_rounds : History → ℕ

-- What a message is about. Its wording is a parameter.
pub data Message : Type 0 where
  planned : Message
  list_failed : (node cause : String) → Message
  not_gone : (name node : String) → Message
  unreachable pulls_failed failed_to_start : (cause : String) → Message
  pull_started pull_done pull_cancelled : (ref : String) → Message
  retrying : (ref node cause : String) → (attempt : ℕ) → Message
  pull_failed : (ref node cause : String) → (attempts : ℕ) → Message
  from_upstream : (copy node cause ref : String) → Message
  container_failed : (name cause : String) → Message
  container_started : (name image : String) → Message
  mods_applied : Message
  launch_failed : (name cause : String) → Message
  rank_failed : (rank : ℕ) → (node phase cause : String) → Message
  exited : (name node : String) → Message
  engine_gone : (name node : String) → Message
  not_listening not_ready deploy_cancelled serving ready : Message
