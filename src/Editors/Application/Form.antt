-- ===== src/Editors/Application/Form.antt =====
-- The state of ApplicationEditor (web/src/features/editors/index.tsx) and the handlers of its
-- inputs.
use cadentra.Prelude.{
  ℕ, String, Option, none, some, List, [], ◌∷◌, ◌++◌, Bool, ℤ, pos, get_or, truthy, trim,
  if◌then◌else◌, insert, remove,
}
use cadentra.Api.{ApplicationForm, HealthCheck}
use cadentra.Editors.Draft.{Draft, form, set_form, arrive, remove_at, check}

abbrev pub default_health : HealthCheck
default_health = record {
  type = "systemd";
  target = "";
  timeout = pos 5;
  attempts = pos 3;
  interval = pos 2;
}

abbrev pub default_form : ApplicationForm
default_form = record {
  id = none;
  name = some "";
  description = some "";
  artifact_id = some "";
  version = some "";
  binary_path = some "";
  arguments = some [];
  environment = some [];
  config = some "";
  config_path = some "";
  unit_name = some "";
  health_check = some default_health;
  revision = none;
  updated_at = none;
  created_at = none;
}

-- `id` is the last part of the address, and 'new' for a new application. `assigned` is the answer
-- of the query for the application's nodes, which runs for an old one only.
pub record Editor : Type 0 where
  pub id : String
  pub fields : Draft ApplicationForm
  pub arg : String
  pub env_key : String
  pub env_value : String
  pub selected_draft : Option (List String)
  pub assigned : Option (List String)
  pub operation : String

unfoldable pub init : String → Editor
init id = record {
  id = id;
  fields = record { draft = none; loaded = none; default_form = default_form };
  arg = "";
  env_key = "";
  env_value = "";
  selected_draft = none;
  assigned = none;
  operation = "deploy";
}

-- selectedNodesDraft || assignedNodes.data || []
abbrev pub selected_nodes : Editor → List String
selected_nodes e = get_or e.selected_draft (get_or e.assigned [])

abbrev pub health : ApplicationForm → HealthCheck
health f = get_or f.health_check default_health

abbrev edit : (ApplicationForm → ApplicationForm) → Editor → Editor
edit change e = record e { fields = set_form (change (form e.fields)) e.fields }

abbrev set_health : (HealthCheck → HealthCheck) → Editor → Editor
set_health change = edit λ f. record f { health_check = some (change (health f)) }

unfoldable pub add_arg : Editor → Editor
unfolding trim
add_arg e =
    if truthy (trim e.arg)
    then record (edit
        (λ f. record f { arguments = some (get_or f.arguments [] ++ trim e.arg ∷ []) }) e) {
          arg = "";
        }
    else e

unfoldable pub add_env : Editor → Editor
unfolding trim insert
add_env e =
    if truthy (trim e.env_key)
    then record (edit
        (λ f. record f {
          environment = some (insert (trim e.env_key) e.env_value (get_or f.environment []));
        })
        e) { env_key = ""; env_value = "" }
    else e

-- What the user does to an input. A number is what `Number` makes of the input's text.
pub data Event : Type 0 where
  change_name change_version change_description change_artifact change_binary_path : String → Event
  change_config_path change_unit_name change_config : String → Event
  change_arg change_env_key change_env_value : String → Event
  press_add_arg press_add_env : Event
  remove_arg : ℕ → Event
  remove_env : String → Event
  change_health_type change_health_target : String → Event
  change_health_timeout change_health_attempts change_health_interval : ℤ → Event
  check_node : Bool → String → Event
  change_operation : String → Event
  application_arrives : ApplicationForm → Event
  assigned_arrives : List String → Event

unfoldable pub step : Editor → Event → Editor
unfolding add_arg add_env remove_at remove check
step e (change_name v) = edit (λ f. record f { name = some v }) e
step e (change_version v) = edit (λ f. record f { version = some v }) e
step e (change_description v) = edit (λ f. record f { description = some v }) e
step e (change_artifact v) = edit (λ f. record f { artifact_id = some v }) e
step e (change_binary_path v) = edit (λ f. record f { binary_path = some v }) e
step e (change_config_path v) = edit (λ f. record f { config_path = some v }) e
step e (change_unit_name v) = edit (λ f. record f { unit_name = some v }) e
step e (change_config v) = edit (λ f. record f { config = some v }) e
step e (change_arg v) = record e { arg = v }
step e (change_env_key v) = record e { env_key = v }
step e (change_env_value v) = record e { env_value = v }
step e press_add_arg = add_arg e
step e press_add_env = add_env e
step e (remove_arg i) =
    edit (λ f. record f { arguments = some (remove_at i (get_or f.arguments [])) }) e
step e (remove_env k) =
    edit (λ f. record f { environment = some (remove k (get_or f.environment [])) }) e
step e (change_health_type v) = set_health (λ h. record h { type = v }) e
step e (change_health_target v) = set_health (λ h. record h { target = v }) e
step e (change_health_timeout n) = set_health (λ h. record h { timeout = n }) e
step e (change_health_attempts n) = set_health (λ h. record h { attempts = n }) e
step e (change_health_interval n) = set_health (λ h. record h { interval = n }) e
step e (check_node checked id) = record e {
  selected_draft = some (check checked id (selected_nodes e));
}
step e (change_operation v) = record e { operation = v }
step e (application_arrives f) = record e { fields = arrive f e.fields }
step e (assigned_arrives ids) = record e { assigned = some ids }

unfoldable pub run : Editor → List Event → Editor
unfolding step
run e [] = e
run e (x ∷ xs) = run (step e x) xs
