-- ===== src/Records/Types.antt =====
-- A deployment record as the control plane reads and writes it. An absent text is "", an absent
-- list is [], and any other absent value is `none`.
use spark_pulse.Prelude.{ℕ, String, Bool, true, false, Option, List}
use spark_pulse.Prelude.Dict.{Dict}

-- The lifecycle states that the code tells apart.
pub data Status : Type 0 where
  pending pulling starting running stopped error : Status
  other : String → Status

-- `_rank_record` and `rank_entries`: one rank of the gang.
pub record Rank : Type 0 where
  pub rank : ℕ
  pub node : String
  pub host : String
  pub container_name : String
  pub is_head : Bool

-- A rank that was asked to stop and was never confirmed gone.
pub record Orphan : Type 0 where
  pub rank : ℕ
  pub node : String
  pub container_name : String
  pub reason : String
  pub since : String

pub record Deployment : Type 0 where
  pub id : String
  pub name : String
  pub status : Status
  pub runtime : String
  pub created_at : String
  pub started_at : Option String
  pub ready_at : Option String
  pub stopped_at : Option String
  pub error_message : Option String
  pub port : Option ℕ
  pub rendezvous_port : Option ℕ
  pub rpc_port : Option ℕ
  pub nodes : List String
  pub ranks : List Rank
  pub orphans : List Orphan
  pub container_name : String
  pub generation : ℕ
  pub reconciled : Bool
  pub launch_command : String
  pub final_logs : Dict String
  pub sync : String
  pub sync_reason : String
  pub sync_intent : String

-- `status in ("stopped", "error")`
abbrev pub finished : Status → Bool
finished stopped = true
finished error = true
finished _ = false

-- `status in ("pulling", "pending")`
abbrev pub in_creation : Status → Bool
in_creation pulling = true
in_creation pending = true
in_creation _ = false

-- What an operation of the store may raise.
pub data Error : Type 0 where
  state_file_error value_error : Error

pub data Result {ℓ} (A : Type ℓ) : Type ℓ where
  ok : A → Result A
  err : Error → Result A

infixl 5 ◌>>=◌
abbrev pub ◌>>=◌ {ℓ κ} : {A : Type ℓ} {B : Type κ} → Result A → (A → Result B) → Result B
ok a >>= f = f a
err e >>= f = err e
