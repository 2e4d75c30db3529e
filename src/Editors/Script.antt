-- ===== src/Editors/Script.antt =====
-- ScriptEditor of web/src/features/editors/index.tsx.
pub mod Environment
use cadentra.Prelude.{
  ℕ, String, none, some, List, [], ◌∷◌, ◌++◌, Bool, true, false, ℤ, pos, get_or, truthy,
  if◌then◌else◌, Dict, insert, remove,
}
use cadentra.Api.{ScriptForm, Parameter}
use cadentra.Editors.Draft.{Draft, form, set_form, arrive, remove_at}

abbrev pub default_form : ScriptForm
default_form = record {
  id = none;
  name = some "";
  description = some "";
  interpreter = some "shell";
  content = some "#!/bin/sh\necho hello";
  parameters = some [];
  environment = some [];
  working_dir = some "";
  run_user = some "";
  timeout = some (pos 300);
  enabled = some true;
  revision = none;
  sha256 = none;
  updated_at = none;
  created_at = none;
}

abbrev pub empty_parameter : Parameter
empty_parameter = record {
  name = "";
  type = "string";
  required = false;
  default = some "";
  description = none;
}

pub record Editor : Type 0 where
  pub id : String
  pub fields : Draft ScriptForm
  pub parameter : Parameter
  pub env_key : String
  pub env_value : String

unfoldable pub init : String → Editor
init id = record {
  id = id;
  fields = record { draft = none; loaded = none; default_form = default_form };
  parameter = empty_parameter;
  env_key = "";
  env_value = "";
}

abbrev edit : (ScriptForm → ScriptForm) → Editor → Editor
edit change e = record e { fields = set_form (change (form e.fields)) e.fields }

-- form.environment || {}
abbrev pub environment : Editor → Dict String
environment e = get_or (form e.fields).environment []

-- form.parameters || []
abbrev pub parameters : Editor → List Parameter
parameters e = get_or (form e.fields).parameters []

unfoldable pub add_parameter : Editor → Editor
add_parameter e =
    if truthy e.parameter.name
    then record (edit (λ f. record f { parameters = some (parameters e ++ e.parameter ∷ []) }) e) {
      parameter = empty_parameter;
    }
    else e

unfoldable pub add_environment : Editor → Editor
unfolding insert
add_environment e =
    if truthy e.env_key
    then record (edit
        (λ f. record f { environment = some (insert e.env_key e.env_value (environment e)) }) e) {
          env_key = "";
          env_value = "";
        }
    else e

unfoldable pub remove_environment : String → Editor → Editor
unfolding remove
remove_environment key =
    λ e. edit (λ f. record f { environment = some (remove key (environment e)) }) e

unfoldable pub remove_parameter : ℕ → Editor → Editor
unfolding remove_at
remove_parameter i e = edit (λ f. record f { parameters = some (remove_at i (parameters e)) }) e

-- What the user does to an input. A number is what `Number` makes of the input's text.
pub data Event : Type 0 where
  change_name change_description select_interpreter change_content : String → Event
  change_working_dir change_run_user : String → Event
  change_timeout : ℤ → Event
  check_enabled : Bool → Event
  change_parameter : Parameter → Event
  press_add_parameter : Event
  press_remove_parameter : ℕ → Event
  change_env_key change_env_value : String → Event
  press_add_environment : Event
  press_remove_environment : String → Event
  script_arrives : ScriptForm → Event

unfoldable pub step : Editor → Event → Editor
unfolding add_parameter add_environment remove_environment remove_parameter
step e (change_name v) = edit (λ f. record f { name = some v }) e
step e (change_description v) = edit (λ f. record f { description = some v }) e
step e (select_interpreter v) = edit (λ f. record f { interpreter = some v }) e
step e (change_content v) = edit (λ f. record f { content = some v }) e
step e (change_working_dir v) = edit (λ f. record f { working_dir = some v }) e
step e (change_run_user v) = edit (λ f. record f { run_user = some v }) e
step e (change_timeout n) = edit (λ f. record f { timeout = some n }) e
step e (check_enabled b) = edit (λ f. record f { enabled = some b }) e
step e (change_parameter p) = record e { parameter = p }
step e press_add_parameter = add_parameter e
step e (press_remove_parameter i) = remove_parameter i e
step e (change_env_key v) = record e { env_key = v }
step e (change_env_value v) = record e { env_value = v }
step e press_add_environment = add_environment e
step e (press_remove_environment key) = remove_environment key e
step e (script_arrives f) = record e { fields = arrive f e.fields }

unfoldable pub run : Editor → List Event → Editor
unfolding step
run e [] = e
run e (x ∷ xs) = run (step e x) xs
