-- ===== src/Editors/Task/Definition.antt =====
-- TaskDetail of web/src/features/tasks/index.tsx: what the page of a task shows as its definition,
-- for a task that TaskEditor has made.
use cadentra.Prelude.{
  ◌≡◌, refl, String, Option, none, some, [], ◌∷◌, true, get_or, truthy, if◌then◌else◌,
}
use cadentra.Api.{TaskForm, ScriptForm}
use cadentra.Editors.Draft.{form}
use cadentra.Editors.Task.Form.{init, change_type}
use cadentra.Editors.Task.Invariant.{
  select_type, select_script, select_application, step, run, shown, handle,
}

-- The card of the tab 'definition'.
pub data Definition : Type 0 where
  shows_command : String → Definition
  shows_script : (id name interpreter : String) → Definition
  shows_application : String → Definition

abbrev or_text : Option String → String → String
or_text none d = d
or_text (some s) d = if truthy s then s else d

-- `script` is the answer of the query for the task's script, so far.
unfoldable pub definition : Option ScriptForm → TaskForm → Definition
definition script f =
    if truthy (get_or f.command "")
    then shows_command (get_or f.command "")
    else if truthy (get_or f.script_id "")
    then shows_script (get_or f.script_id "")
        (or_text (elim script [ none ↦ none | some s ↦ s.name ]) (get_or f.script_id ""))
        (or_text (elim script [ none ↦ none | some s ↦ s.interpreter ]) "script")
    else shows_application (or_text f.application_id "-")

-- A task that is made as a script task, with a script whose id is not empty, and then turned into
-- the deployment of an application keeps its script, and its page shows that script where the
-- application belongs, whatever application was chosen.
pub stale_script :
    (id script_id application_id : String)
    → truthy script_id ≡ true
    → let f =
        form
          (run (init id) (
            select_type "script"
            ∷ select_script script_id
            ∷ select_type "app_deploy"
            ∷ select_application application_id
            ∷ [])).fields in
      (f.type ≡ some "app_deploy")
      × (f.application_id ≡ some application_id)
      × (definition none f ≡ shows_script script_id script_id "script")
unfolding init run step shown handle change_type definition
stale_script id script_id application_id given = (refl, refl, rw given)
