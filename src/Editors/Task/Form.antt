-- ===== src/Editors/Task/Form.antt =====
-- The state of TaskEditor (web/src/features/tasks/index.tsx) and the handlers of its inputs.
use cadentra.Prelude.{
  String, Option, none, some, List, [], ◌∷◌, ◌++◌, true, false, not, ◌==◌, pos, get_or, truthy,
  filter, includes, if◌then◌else◌,
}
use cadentra.Api.{
  TaskForm, Target, Parameter, Condition, condition, Conditions, LocalCondition, RemoteCondition,
}
use cadentra.Editors.Draft.{Draft, form, set_form}

abbrev pub empty_parameter : Parameter
empty_parameter = record {
  name = "";
  type = "string";
  required = false;
  default = some "";
  description = none;
}

abbrev pub empty_target : String → Target
empty_target type = record {
  type = type;
  node_ids = some [];
  group_ids = none;
  label_key = none;
  label_value = none;
}

abbrev pub default_form : TaskForm
default_form = record {
  id = none;
  name = some "";
  type = some "command";
  target = some (empty_target "node");
  parameters = some [];
  param_values = some [];
  script_id = some "";
  command = some "";
  application_id = some "";
  app_operation = some "start";
  condition = none;
  schedule = none;
  timeout = some (pos 300);
  retry = some (pos 0);
  offline_policy = some "hub_online_required";
  run_user = some "";
  enabled = some true;
  revision = none;
  updated_at = none;
  created_at = none;
}

-- `id` is the third part of the address, and 'new' for a new task.
pub record Editor : Type 0 where
  pub id : String
  pub fields : Draft TaskForm
  pub parameter : Parameter
  pub local : LocalCondition
  pub remote : RemoteCondition

unfoldable pub init : String → Editor
init id = record {
  id = id;
  fields = record { draft = none; loaded = none; default_form = default_form };
  parameter = empty_parameter;
  local = record { metric = "cpu_usage"; operator = ">"; value = ""; path = none; command = none };
  remote = record {
    node_id = "";
    property = "online";
    task_id = some "";
    operator = "==";
    value = "ONLINE";
  };
}

abbrev pub edit : (TaskForm → TaskForm) → Editor → Editor
edit change e = record e { fields = set_form (change (form e.fields)) e.fields }

abbrev pub set_target : Target → Editor → Editor
set_target t = edit λ f. record f { target = some t }

-- A spread of `form.target`, which may be missing, with a new type.
abbrev pub target_or : Option Target → Target
target_or none = record {
  type = "";
  node_ids = none;
  group_ids = none;
  label_key = none;
  label_value = none;
}
target_or (some t) = t

abbrev node_ids_of : Option Target → List String
node_ids_of none = []
node_ids_of (some t) = get_or t.node_ids []

-- form.target?.node_ids || []
abbrev pub selected_nodes : Editor → List String
selected_nodes e = node_ids_of (form e.fields).target

unfoldable pub toggle_node : String → Editor → Editor
unfolding includes filter
toggle_node id e =
    set_target
      (record (target_or (form e.fields).target) {
        type = "node";
        node_ids = some (
            if includes (selected_nodes e) id
            then filter (λ v. not (v == id)) (selected_nodes e)
            else selected_nodes e ++ id ∷ []);
      })
      e

unfoldable pub change_target_type : String → Editor → Editor
change_target_type v e =
    set_target
      (record (target_or (form e.fields).target) {
        type = v;
        node_ids = some (if v == "node" then selected_nodes e else []);
      })
      e

abbrev pub command_for : String → TaskForm → Option String
command_for v f = if v == "command" then f.command else some ""

unfoldable pub change_type : String → Editor → Editor
change_type v = edit λ f. record f { type = some v; command = command_for v f }

unfoldable pub add_parameter : Editor → Editor
add_parameter e =
    if truthy e.parameter.name
    then record (edit
        (λ f. record f { parameters = some (get_or f.parameters [] ++ e.parameter ∷ []) }) e) {
          parameter = empty_parameter;
        }
    else e

abbrev pub local_condition : LocalCondition → Condition
local_condition c = condition "local" (some c) Conditions.missing none

abbrev pub remote_condition : RemoteCondition → Condition
remote_condition c = condition "remote" none Conditions.missing (some c)

unfoldable pub set_local : Editor → Editor
set_local e = edit (λ f. record f { condition = some (local_condition e.local) }) e

unfoldable pub set_remote : Editor → Editor
set_remote e =
    if truthy e.remote.node_id
    then edit (λ f. record f { condition = some (remote_condition e.remote) }) e
    else e
