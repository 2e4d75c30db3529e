-- ===== src/Editors/Task/Invariant.antt =====
-- The events of TaskEditor (web/src/features/tasks/index.tsx), and what they keep of the form.
use cadentra.Prelude.{
  ℕ, ◌≡◌, ◌≢◌, refl, ap, ◌⊎◌, inl, inr, ◌==◌, String, Option, none, some, List, [], ◌∷◌, Bool, true,
  ◌||◌, ℤ, get_or, truthy, if◌then◌else◌, arith, eq_iff, Bool-cases,
}
use cadentra.Api.{TaskForm, Parameter, LocalCondition, RemoteCondition}
use cadentra.Editors.Draft.{form, remove_at, check}
use cadentra.Editors.Task.Form.{
  Editor, init, edit, set_target, target_or, toggle_node, change_target_type, change_type,
  command_for, add_parameter, set_local, set_remote,
}

-- What the user does to an input. A number is what `Number` makes of the input's text. An input
-- that is shown for one type of task or target is used for that type only.
pub data Event : Type 0 where
  change_name change_run_user change_offline_policy : String → Event
  select_type select_script select_application select_operation : String → Event
  change_command : String → Event
  change_timeout change_retry : ℤ → Event
  select_target_type press_node : String → Event
  check_group : Bool → String → Event
  change_label_key change_label_value : String → Event
  check_enabled : Bool → Event
  change_parameter : Parameter → Event
  press_add_parameter : Event
  remove_parameter : ℕ → Event
  change_local : LocalCondition → Event
  change_remote : RemoteCondition → Event
  press_set_local press_set_remote press_clear : Event

abbrev is_type : String → TaskForm → Bool
is_type type f = get_or f.type "" == type

abbrev is_target : String → TaskForm → Bool
is_target type f = (target_or f.target).type == type

abbrev group_ids : TaskForm → List String
group_ids f = get_or (target_or f.target).group_ids []

-- Is the input shown?
unfoldable pub shown : TaskForm → Event → Bool
shown f (select_script v) = is_type "script" f
shown f (select_application v) = is_type "app_deploy" f || is_type "app_operation" f
shown f (select_operation v) = is_type "app_operation" f
shown f (change_command v) = is_type "command" f
shown f (press_node id) = is_target "node" f
shown f (check_group checked id) = is_target "group" f
shown f (change_label_key v) = is_target "label" f
shown f (change_label_value v) = is_target "label" f
shown f _ = true

-- The handler of the input.
unfoldable pub handle : Editor → Event → Editor
unfolding toggle_node change_target_type change_type add_parameter set_local set_remote remove_at
    check
handle e (change_name v) = edit (λ f. record f { name = some v }) e
handle e (change_run_user v) = edit (λ f. record f { run_user = some v }) e
handle e (change_offline_policy v) = edit (λ f. record f { offline_policy = some v }) e
handle e (select_type v) = change_type v e
handle e (select_script v) = edit (λ f. record f { script_id = some v }) e
handle e (select_application v) = edit (λ f. record f { application_id = some v }) e
handle e (select_operation v) = edit (λ f. record f { app_operation = some v }) e
handle e (change_command v) = edit (λ f. record f { command = some v }) e
handle e (change_timeout n) = edit (λ f. record f { timeout = some n }) e
handle e (change_retry n) = edit (λ f. record f { retry = some n }) e
handle e (select_target_type v) = change_target_type v e
handle e (press_node id) = toggle_node id e
handle e (check_group checked id) =
    set_target
      (record (target_or (form e.fields).target) {
        group_ids = some (check checked id (group_ids (form e.fields)));
      })
      e
handle e (change_label_key v) =
    set_target (record (target_or (form e.fields).target) { label_key = some v }) e
handle e (change_label_value v) =
    set_target (record (target_or (form e.fields).target) { label_value = some v }) e
handle e (check_enabled b) = edit (λ f. record f { enabled = some b }) e
handle e (change_parameter p) = record e { parameter = p }
handle e press_add_parameter = add_parameter e
handle e (remove_parameter i) =
    edit (λ f. record f { parameters = some (remove_at i (get_or f.parameters [])) }) e
handle e (change_local c) = record e { local = c }
handle e (change_remote c) = record e { remote = c }
handle e press_set_local = set_local e
handle e press_set_remote = set_remote e
handle e press_clear = edit (λ f. record f { condition = none }) e

unfoldable pub step : Editor → Event → Editor
unfolding shown handle
step e x = if shown (form e.fields) x then handle e x else e

unfoldable pub run : Editor → List Event → Editor
unfolding step
run e [] = e
run e (x ∷ xs) = run (step e x) xs

-- A command is kept for a command task only, and nodes for a target of nodes only.
abbrev pub IsConsistent : TaskForm → Type 0
IsConsistent f =
    ((f.type ≡ some "command") ⊎ (get_or f.command "" ≡ ""))
    × (((target_or f.target).type ≡ "node") ⊎ (get_or (target_or f.target).node_ids [] ≡ []))

is_type-eq :
    (type : Option String) (t : String) → (get_or type "" == t) ≡ true → "" ≢ t → type ≡ some t
is_type-eq none t h k = absurd (k ((eq_iff _ _).0 h))
is_type-eq (some s) t h k = ap some ((eq_iff s t).0 h)

no_command : ◌≢◌ {A = String} "" "command"
no_command = ground (arith, eq_iff "" "command")

change_type-IsConsistent :
    (v : String) (f : TaskForm)
    → IsConsistent f
    → IsConsistent (record f { type = some v; command = command_for v f })
change_type-IsConsistent v f h = (ground (arith, eq_iff v "command"), h.1)

change_target_type-IsConsistent :
    (v : String) (e : Editor)
    → IsConsistent (form e.fields)
    → IsConsistent (form (change_target_type v e).fields)
unfolding change_target_type
change_target_type-IsConsistent v e h = (h.0, ground (arith, eq_iff v "node"))

handle-IsConsistent :
    (e : Editor) (x : Event)
    → shown (form e.fields) x ≡ true
    → IsConsistent (form e.fields)
    → IsConsistent (form (handle e x).fields)
unfolding shown handle change_type toggle_node add_parameter set_local set_remote
handle-IsConsistent e (change_name v) s h = h
handle-IsConsistent e (change_run_user v) s h = h
handle-IsConsistent e (change_offline_policy v) s h = h
handle-IsConsistent e (select_type v) s h = change_type-IsConsistent v (form e.fields) h
handle-IsConsistent e (select_script v) s h = h
handle-IsConsistent e (select_application v) s h = h
handle-IsConsistent e (select_operation v) s h = h
handle-IsConsistent e (change_command v) s h =
    (inl (is_type-eq (form e.fields).type "command" s no_command), h.1)
handle-IsConsistent e (change_timeout n) s h = h
handle-IsConsistent e (change_retry n) s h = h
handle-IsConsistent e (select_target_type v) s h = change_target_type-IsConsistent v e h
handle-IsConsistent e (press_node id) s h = (h.0, inl refl)
handle-IsConsistent e (check_group checked id) s h = h
handle-IsConsistent e (change_label_key v) s h = h
handle-IsConsistent e (change_label_value v) s h = h
handle-IsConsistent e (check_enabled b) s h = h
handle-IsConsistent e (change_parameter p) s h = h
handle-IsConsistent e press_add_parameter s h = elim (Bool-cases (truthy e.parameter.name)) [
  | inl named ↦ rw named h
  | inr unnamed ↦ rw unnamed h
]
handle-IsConsistent e (remove_parameter i) s h = h
handle-IsConsistent e (change_local c) s h = h
handle-IsConsistent e (change_remote c) s h = h
handle-IsConsistent e press_set_local s h = h
handle-IsConsistent e press_set_remote s h = elim (Bool-cases (truthy e.remote.node_id)) [
  | inl named ↦ rw named h
  | inr unnamed ↦ rw unnamed h
]
handle-IsConsistent e press_clear s h = h

step-IsConsistent :
    (e : Editor) (x : Event) → IsConsistent (form e.fields) → IsConsistent (form (step e x).fields)
unfolding step
step-IsConsistent e x h = elim (Bool-cases (shown (form e.fields) x)) [
  | inl there ↦ rw there (handle-IsConsistent e x there h)
  | inr hidden ↦ rw hidden h
]

run-IsConsistent :
    (e : Editor) (xs : List Event)
    → IsConsistent (form e.fields)
    → IsConsistent (form (run e xs).fields)
unfolding run
run-IsConsistent e [] h = h
run-IsConsistent e (x ∷ xs) h = run-IsConsistent (step e x) xs (step-IsConsistent e x h)

-- In the editor of a new task, whatever the user does, the form holds a command only for a command
-- task, and nodes only for a target of nodes.
pub run-init-IsConsistent :
    (id : String) (xs : List Event) → IsConsistent (form (run (init id) xs).fields)
unfolding init
run-init-IsConsistent id xs = run-IsConsistent (init id) xs (inl refl, inl refl)
