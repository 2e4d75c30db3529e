-- ===== src/Api/Scripts.antt =====
-- web/src/lib/api.ts: Parameter and Script.
use cadentra.Prelude.{String, Option, List, Bool, ℤ, Dict}

pub record Parameter : Type 0 where
  pub name : String
  pub type : String
  pub required : Bool
  pub default : Option String
  pub description : Option String

-- A member of a Partial<Script> may be missing.
pub record ScriptForm : Type 0 where
  pub id : Option String
  pub name : Option String
  pub description : Option String
  pub interpreter : Option String
  pub content : Option String
  pub parameters : Option (List Parameter)
  pub environment : Option (Dict String)
  pub working_dir : Option String
  pub run_user : Option String
  pub timeout : Option ℤ
  pub enabled : Option Bool
  pub revision : Option ℤ
  pub sha256 : Option String
  pub updated_at : Option String
  pub created_at : Option String

pub record Script : Type 0 where
  pub id : String
  pub name : String
  pub description : String
  pub interpreter : String
  pub content : String
  pub parameters : List Parameter
  pub environment : Dict String
  pub working_dir : String
  pub run_user : Option String
  pub timeout : ℤ
  pub enabled : Bool
  pub revision : ℤ
  pub sha256 : String
  pub updated_at : String
  pub created_at : String
