-- ===== src/Editors/Schedule.antt =====
-- ScheduleEditor of web/src/features/editors/index.tsx.
use cadentra.Prelude.{
  String, none, some, Bool, true, ℤ, pos, ◌==◌, get_or, if◌then◌else◌, List, [], ◌∷◌,
}
use cadentra.Api.{ScheduleForm}
use cadentra.Editors.Draft.{Draft, form, set_form, arrive}

abbrev pub default_form : ScheduleForm
default_form = record {
  id = none;
  task_id = some "";
  revision = none;
  type = some "cron";
  expression = some "";
  interval_sec = some (pos 60);
  run_at = some "";
  timezone = some "UTC";
  execution_owner = some "agent";
  offline_policy = some "allow_offline";
  misfire_policy = some "run_once";
  enabled = some true;
  created_at = none;
  updated_at = none;
}

-- `error` is the text over the form.
pub record Editor : Type 0 where
  pub id : String
  pub fields : Draft ScheduleForm
  pub error : String

unfoldable pub init : String → Editor
init id = record {
  id = id;
  fields = record { draft = none; loaded = none; default_form = default_form };
  error = "";
}

abbrev edit : (ScheduleForm → ScheduleForm) → Editor → Editor
edit change e = record e { fields = set_form (change (form e.fields)) e.fields }

-- What the user does to an input. A number is what `Number` makes of the input's text, and a date
-- what `toISOString` makes of it, or an empty text.
pub data Event : Type 0 where
  select_task select_type change_expression change_run_at change_timezone : String → Event
  select_owner select_offline_policy select_misfire_policy : String → Event
  change_interval : ℤ → Event
  check_enabled : Bool → Event
  schedule_arrives : ScheduleForm → Event

-- Is the input shown? The inputs for the time depend on the type.
unfoldable pub shown : ScheduleForm → Event → Bool
shown f (change_expression v) = get_or f.type "" == "cron"
shown f (change_interval n) = get_or f.type "" == "interval"
shown f (change_run_at v) = get_or f.type "" == "one_time"
shown f _ = true

unfoldable pub handle : Editor → Event → Editor
handle e (select_task v) = edit (λ f. record f { task_id = some v }) e
handle e (select_type v) = edit (λ f. record f { type = some v }) e
handle e (change_expression v) = edit (λ f. record f { expression = some v }) e
handle e (change_run_at v) = edit (λ f. record f { run_at = some v }) e
handle e (change_timezone v) = edit (λ f. record f { timezone = some v }) e
handle e (select_owner v) = edit (λ f. record f { execution_owner = some v }) e
handle e (select_offline_policy v) = edit (λ f. record f { offline_policy = some v }) e
handle e (select_misfire_policy v) = edit (λ f. record f { misfire_policy = some v }) e
handle e (change_interval n) = edit (λ f. record f { interval_sec = some n }) e
handle e (check_enabled b) = edit (λ f. record f { enabled = some b }) e
handle e (schedule_arrives f) = record e { fields = arrive f e.fields }

unfoldable pub step : Editor → Event → Editor
unfolding shown handle
step e x = if shown (form e.fields) x then handle e x else e

unfoldable pub run : Editor → List Event → Editor
unfolding step
run e [] = e
run e (x ∷ xs) = run (step e x) xs
