-- ===== src/Api/Fleet.antt =====
-- web/src/lib/api.ts: Node, Group and Execution.
use cadentra.Prelude.{String, Option, List, Bool, ℤ, Dict}

pub record Node : Type 0 where
  pub id : String
  pub agent_id : String
  pub hostname : String
  pub ip : String
  pub status : String
  pub labels : Dict String
  pub sync_status : Option String

pub record Group : Type 0 where
  pub id : String
  pub name : String
  pub description : String
  pub type : String
  pub label_key : String
  pub label_value : String
  pub members : Option (List String)

-- A member of a Partial<Group> may be missing.
pub record GroupForm : Type 0 where
  pub id : Option String
  pub name : Option String
  pub description : Option String
  pub type : Option String
  pub label_key : Option String
  pub label_value : Option String
  pub members : Option (List String)
  pub created_at : Option String

pub record Execution : Type 0 where
  pub id : String
  pub task_id : String
  pub task_revision : ℤ
  pub script_id : String
  pub script_revision : ℤ
  pub node_id : String
  pub trigger_type : String
  pub scheduled_time : String
  pub start_time : String
  pub end_time : String
  pub status : String
  pub exit_code : ℤ
  pub stdout : String
  pub stderr : String
  pub stdout_truncated : Bool
  pub stderr_truncated : Bool
  pub offline : Bool
  pub synced : Bool
  pub block_reason : String
