-- ===== src/Tests/Forms.antt =====
-- The editors, web/src/features/editors/index.tsx and web/src/features/tasks/index.tsx.
use Prim.Native.String
use cadentra.Prelude.{
  Bool, ℕ, ltb, ◌≡◌, refl, inl, inr, List, String, none, some, [], ◌∷◌, true, ◌==◌, includes,
  filter, lookup, if◌then◌else◌, ne-of_eq-false,
}
use cadentra.Api.{Application, ScriptForm}
use cadentra.Editors.Draft.{form}
use cadentra.Editors.Application.Form as App
use cadentra.Editors.Application.Save.{Call, unassign, Answers, save, save_nodes}
use cadentra.Editors.Application.Assignment.{assigned_after}
use cadentra.Editors.Application.Completion.{IsSave, save_total}
use cadentra.Catalog.Desired.{desired_applications}
use cadentra.Catalog.NodeApplications.{node_applications}
use cadentra.Catalog.NodeApplications.Saved.{hub_after, is_expected, node_applications-save}
use cadentra.Editors.Application.Failure.{IsBetween, save_throws}
use cadentra.Editors.Task.Form as Task
use cadentra.Editors.Task.Form.{target_or}
use cadentra.Editors.Task.Invariant as TaskEvents
use cadentra.Editors.Task.Invariant.{
  IsConsistent, select_type, change_command, press_node, select_target_type, check_group,
  run-init-IsConsistent,
}
use cadentra.Editors.Task.Shown.{Agrees, run-init-Agrees}
use cadentra.Editors.Schedule
use cadentra.Editors.Script
use cadentra.Editors.Script.{remove_environment, environment, change_name, script_arrives}
use cadentra.Editors.Script.Environment.{lookup-remove_environment, edit_before_arrival}
use cadentra.Editors.Saving.{Request, put, Answer, accepted, save_script}

-- An application that the hub has assigned to n1 and n2, and for which n2 and n3 are selected.
abbrev web_app : App.Editor
web_app = record {
  id = "a1";
  fields = record {
    draft = some (record App.default_form { name = some "web" });
    loaded = none;
    default_form = App.default_form;
  };
  arg = "";
  env_key = "";
  env_value = "";
  selected_draft = some ("n2" ∷ "n3" ∷ []);
  assigned = some ("n1" ∷ "n2" ∷ []);
  operation = "deploy";
}

abbrev answers_a1 : Answers
answers_a1 c = some "a1"

-- The application a2 is assigned to n3 alone.
abbrev hub_before : String → List String
hub_before x = if x == "a1" then "n1" ∷ "n2" ∷ [] else if x == "a2" then "n3" ∷ [] else []

abbrev application : String → Application
application id = record { id = id; name = id; artifact_id = "" }

abbrev all : List Application
all = application "a1" ∷ application "a2" ∷ []

node_applications-save_example :
    (node_applications (hub_after hub_before (save answers_a1 web_app).0) "n3" (some all)
      ≡ some (filter (is_expected hub_before web_app "a1" "n3") all))
    × (desired_applications (hub_after hub_before (save answers_a1 web_app).0) "n3" all
        ≡ filter (is_expected hub_before web_app "a1" "n3") all)
unfolding save save_nodes filter includes
node_applications-save_example =
    node_applications-save answers_a1 web_app hub_before "a1" (String.◌++◌ "/applications/" "a1")
      refl (inl (refl, refl)) refl "n3" all

save_total_example :
    (call : Call) × (more : List Call) × (app : String) × ((save answers_a1 web_app).0
      ≡ call ∷ more)
    × IsSave web_app call
    × (answers_a1 call ≡ some app)
    × ((save answers_a1 web_app).1 ≡ some (some (String.◌++◌ "/applications/" app)))
    × ((n : String)
        → includes (assigned_after app ("n1" ∷ "n2" ∷ []) (save answers_a1 web_app).0) n
          ≡ includes (App.selected_nodes web_app) n)
save_total_example =
    save_total answers_a1 web_app ("n1" ∷ "n2" ∷ []) refl (inl (refl, refl)) (λ c. ("a1", refl))

-- The answer to the request that takes a node away is lost, after the hub has done so.
abbrev loses_answer : Answers
loses_answer (unassign app nodes) = none
loses_answer _ = some "a1"

abbrev all_taken : Call → Bool
all_taken c = true

save_throws_example : IsBetween web_app ("n1" ∷ "n2" ∷ []) (
    includes
      (assigned_after "a1" ("n1" ∷ "n2" ∷ []) (filter all_taken (save loses_answer web_app).0)))
unfolding save save_nodes filter includes
save_throws_example =
    save_throws loses_answer all_taken (λ c id h. refl) web_app ("n1" ∷ "n2" ∷ [])
      (inl (refl, refl)) "a1" (inr refl) refl

run-init-IsConsistent_example : IsConsistent (
    form
      (TaskEvents.run (Task.init "new") (
        change_command "ls"
        ∷ press_node "n1"
        ∷ select_type "script"
        ∷ select_target_type "group"
        ∷ [])).fields)
run-init-IsConsistent_example =
    run-init-IsConsistent "new" (
      change_command "ls"
      ∷ press_node "n1"
      ∷ select_type "script"
      ∷ select_target_type "group"
      ∷ [])

abbrev digit : ℕ → String
digit n = if ltb 0 n then "1" else "0"

run-init-Agrees_example :
    Agrees
      (λ key. key)
      digit
      (target_or
        (form
          (TaskEvents.run (Task.init "new") (
            press_node "n1"
            ∷ select_target_type "group"
            ∷ check_group true "g1"
            ∷ [])).fields).target)
run-init-Agrees_example =
    run-init-Agrees (λ key. key) digit "new"
      (press_node "n1" ∷ select_target_type "group" ∷ check_group true "g1" ∷ [])

abbrev schedule : Schedule.Editor
schedule = record {
  id = "new";
  fields = record {
    draft = some (record Schedule.default_form { task_id = some "t1" });
    loaded = none;
    default_form = Schedule.default_form;
  };
  error = "";
}

-- A script as the hub has it.
abbrev stored : ScriptForm
stored = record Script.default_form {
  id = some "s1";
  name = some "backup";
  content = some "tar c /";
}

abbrev loaded : Script.Editor
loaded = Script.step (Script.init "s1") (script_arrives stored)

abbrev with_entry : Script.Editor
with_entry = record loaded { env_key = "LANG"; env_value = "C" }

lookup-remove_environment_example :
    lookup "LANG" (environment (remove_environment "LANG" with_entry))
    ≡ (if "LANG" == "LANG" then none else lookup "LANG" (environment with_entry))
lookup-remove_environment_example = lookup-remove_environment with_entry "LANG" "LANG"

abbrev accepts : {F : Type 0} → Request F → Answer
accepts r = accepted

edit_before_arrival_example :
    (save_script accepts
      (Script.run (Script.init "s1") (change_name "b" ∷ script_arrives stored ∷ []))).requests
    ≡ put "s1" (record Script.default_form { name = some "b" }) ∷ []
edit_before_arrival_example =
    edit_before_arrival accepts "s1" "b" stored (ne-of_eq-false "s1" "new" refl)
      (ne-of_eq-false "b" "" refl)
