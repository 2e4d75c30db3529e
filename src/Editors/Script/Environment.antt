-- ===== src/Editors/Script/Environment.antt =====
-- The dictionary of ScriptEditor (web/src/features/editors/index.tsx), and the members of a script
-- that have no input.
use cadentra.Prelude.{
  ◌≡◌, ◌≢◌, refl, inl, inr, ◌==◌, String, Option, none, some, List, [], ◌∷◌, Bool, true, false,
  truthy, any, ◌&&◌, eq-false_of_ne, if◌then◌else◌, lookup, lookup-insert, lookup-remove, ℤ, arith,
  Bool-cases, ◌∙◌,
}
use cadentra.Api.{ScriptForm}
use cadentra.Editors.Draft.{form}
use cadentra.Editors.Saving.{Request, put, Answer, save_script, submit, settle-requests}
use cadentra.Editors.Script.{
  Editor, init, default_form, environment, add_parameter, add_environment, remove_environment,
  remove_parameter, Event, change_name, change_description, select_interpreter, change_content,
  change_working_dir, change_run_user, change_timeout, check_enabled, change_parameter,
  press_add_parameter, press_remove_parameter, change_env_key, change_env_value,
  press_add_environment, press_remove_environment, script_arrives, step, run,
}

-- A key and value that the user adds are the dictionary's entry for that key, and every other entry
-- is as before. Without a key no entry changes.
pub lookup-add_environment :
    (e : Editor) (j : String)
    → lookup j (environment (add_environment e))
      ≡ (if truthy e.env_key && e.env_key == j then some e.env_value else lookup j (environment e))
unfolding add_environment
lookup-add_environment e j = elim (Bool-cases (e.env_key == "")) [
  | inl h ↦ rw h refl
  | inr h ↦ rw h (lookup-insert e.env_key j e.env_value (environment e))
]

-- A removed key has no entry any more, and every other entry is as before.
pub lookup-remove_environment :
    (e : Editor) (key j : String)
    → lookup j (environment (remove_environment key e))
      ≡ (if key == j then none else lookup j (environment e))
unfolding remove_environment
lookup-remove_environment e key j = lookup-remove key j (environment e)

-- The members of a script that the form has no input for.
abbrev pub Identity : Type 0
Identity = Option String × Option ℤ × Option String × Option String × Option String

abbrev pub identity : ScriptForm → Identity
identity f = (f.id, f.revision, f.sha256, f.updated_at, f.created_at)

abbrev pub is_arrival : Event → Bool
is_arrival (script_arrives f) = true
is_arrival _ = false

identity-step :
    (e : Editor) (x : Event)
    → is_arrival x ≡ false
    → identity (form (step e x).fields) ≡ identity (form e.fields)
unfolding step add_parameter add_environment remove_environment remove_parameter
identity-step e (change_name v) h = refl
identity-step e (change_description v) h = refl
identity-step e (select_interpreter v) h = refl
identity-step e (change_content v) h = refl
identity-step e (change_working_dir v) h = refl
identity-step e (change_run_user v) h = refl
identity-step e (change_timeout n) h = refl
identity-step e (check_enabled b) h = refl
identity-step e (change_parameter p) h = refl
identity-step e press_add_parameter h = elim (Bool-cases (e.parameter.name == "")) [
  | inl k ↦ rw k refl
  | inr k ↦ rw k refl
]
identity-step e (press_remove_parameter i) h = refl
identity-step e (change_env_key v) h = refl
identity-step e (change_env_value v) h = refl
identity-step e press_add_environment h = elim (Bool-cases (e.env_key == "")) [
  | inl k ↦ rw k refl
  | inr k ↦ rw k refl
]
identity-step e (press_remove_environment key) h = refl
identity-step e (script_arrives f) h = ground arith

-- Whatever the user does in the form, the form keeps the id, the revision, the hash and the times
-- of the script that it showed first, as long as the query does not bring the script again.
pub identity-run :
    (e : Editor) (xs : List Event)
    → any is_arrival xs ≡ false
    → identity (form (run e xs).fields) ≡ identity (form e.fields)
unfolding run any
identity-run e [] h = refl
identity-run e (x ∷ xs) h =
    identity-run (step e x) xs (ground arith) ∙ identity-step e x (ground arith)

-- A user who gives an existing script a name that is not empty before the query has brought it
-- fixes the default script as the form's content: whatever the script is that arrives then, the
-- save overwrites it by the default script under the new name.
pub edit_before_arrival :
    (answers : Request ScriptForm → Answer) (id name : String) (f : ScriptForm)
    → id ≢ "new"
    → name ≢ ""
    → (save_script answers (run (init id) (change_name name ∷ script_arrives f ∷ []))).requests
      ≡ put id (record default_form { name = some name }) ∷ []
unfolding save_script submit run step init
edit_before_arrival answers id name f h k =
    rw (eq-false_of_ne name "" k, eq-false_of_ne id "new" h)
      (settle-requests (put id (record default_form { name = some name })) "/scripts"
        (answers (put id (record default_form { name = some name }))))
