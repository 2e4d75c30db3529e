-- ===== src/Api/Tasks.antt =====
-- web/src/lib/api.ts: Target, the conditions, Schedule and Task.
use cadentra.Prelude.{String, Option, List, Bool, ℤ, Dict}
use cadentra.Api.Scripts.{Parameter}

pub record Target : Type 0 where
  pub type : String
  pub node_ids : Option (List String)
  pub group_ids : Option (List String)
  pub label_key : Option String
  pub label_value : Option String

pub record LocalCondition : Type 0 where
  pub metric : String
  pub operator : String
  pub value : String
  pub path : Option String
  pub command : Option String

pub record RemoteCondition : Type 0 where
  pub node_id : String
  pub property : String
  pub task_id : Option String
  pub operator : String
  pub value : String

mutual
  pub data Condition : Type 0 where
    condition :
        (type : String) (local : Option LocalCondition) (conjuncts : Conditions)
        (remote : Option RemoteCondition)
        → Condition

  -- The member `and`, which may be missing.
  pub data Conditions : Type 0 where
    missing : Conditions
    nil : Conditions
    cons : Condition → Conditions → Conditions

-- A member of a Partial<Schedule> may be missing.
pub record ScheduleForm : Type 0 where
  pub id : Option String
  pub task_id : Option String
  pub revision : Option ℤ
  pub type : Option String
  pub expression : Option String
  pub interval_sec : Option ℤ
  pub run_at : Option String
  pub timezone : Option String
  pub execution_owner : Option String
  pub offline_policy : Option String
  pub misfire_policy : Option String
  pub enabled : Option Bool
  pub created_at : Option String
  pub updated_at : Option String

-- A member of a Partial<Task> may be missing.
pub record TaskForm : Type 0 where
  pub id : Option String
  pub name : Option String
  pub type : Option String
  pub target : Option Target
  pub parameters : Option (List Parameter)
  pub param_values : Option (Dict String)
  pub script_id : Option String
  pub command : Option String
  pub application_id : Option String
  pub app_operation : Option String
  pub condition : Option Condition
  pub schedule : Option ScheduleForm
  pub timeout : Option ℤ
  pub retry : Option ℤ
  pub offline_policy : Option String
  pub run_user : Option String
  pub enabled : Option Bool
  pub revision : Option ℤ
  pub updated_at : Option String
  pub created_at : Option String

-- Of a Task, what the lists and the pages of a node read.
pub record Task : Type 0 where
  pub id : String
  pub name : String
  pub type : String
  pub target : Target
  pub enabled : Bool

pub record Schedule : Type 0 where
  pub id : String
  pub task_id : String
  pub type : String
  pub enabled : Bool
