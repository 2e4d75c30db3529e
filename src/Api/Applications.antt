-- ===== src/Api/Applications.antt =====
-- web/src/lib/api.ts: HealthCheck, Application and ApplicationNodeState.
use cadentra.Prelude.{String, Option, List, ℤ, Dict}

pub record HealthCheck : Type 0 where
  pub type : String
  pub target : String
  pub timeout : ℤ
  pub attempts : ℤ
  pub interval : ℤ

-- A member of a Partial<Application> may be missing.
pub record ApplicationForm : Type 0 where
  pub id : Option String
  pub name : Option String
  pub description : Option String
  pub artifact_id : Option String
  pub version : Option String
  pub binary_path : Option String
  pub arguments : Option (List String)
  pub environment : Option (Dict String)
  pub config : Option String
  pub config_path : Option String
  pub unit_name : Option String
  pub health_check : Option HealthCheck
  pub revision : Option ℤ
  pub updated_at : Option String
  pub created_at : Option String

-- Application, as far as the lists and the dashboard read it.
pub record Application : Type 0 where
  pub id : String
  pub name : String
  pub artifact_id : String

pub record ApplicationNodeState : Type 0 where
  pub application_id : String
  pub node_id : String
  pub version : Option String
  pub operation : String
  pub health : String
  pub error : Option String
  pub updated_at : String
