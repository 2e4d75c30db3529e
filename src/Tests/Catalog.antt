-- ===== src/Tests/Catalog.antt =====
-- The pages of web/src/features/catalog/index.tsx that change what the hub has.
use cadentra.Prelude.{
  ◌≡◌, refl, ◌⊎◌, String, none, some, List, [], ◌∷◌, map, true, false, ◌==◌, All, ne-of_eq-false,
  lookup, trim, if◌then◌else◌, ◌-◌, ◌/◌, ◌%◌, Bool, filter, leb_ℤ, ℤ, pos, arith, eq_iff, Option,
}
use cadentra.Api.{Schedule}
use cadentra.Shared.Clipboard.{Browser}
use cadentra.Catalog.Enrollment
use cadentra.Catalog.Enrollment.{
  NodeEnrollment, Request, changes_name, changes_address, submits, answered, inputs, command,
  command_by, copy,
}
use cadentra.Catalog.Enrollment.Current.{run-command}
use cadentra.Catalog.Users
use cadentra.Catalog.Users.{
  press_toggle, change_username, change_password, select_role, press_create,
}
use cadentra.Catalog.Users.Roles.{IsOrderly, run-IsOrderly}
use cadentra.Catalog.Settings
use cadentra.Catalog.Settings.{
  edits, presses_save, answers, succeeds, fails, refetches, settings, load,
}
use cadentra.Catalog.Settings.Draft.{Agree, Draft, spec_run}
use cadentra.Catalog.Settings.Refinement.{run-load_refines}
use cadentra.Catalog.Lists
use cadentra.Catalog.Lists.{
  toggles, opens, confirms, becomes, fetches, step, delete_step, delete_run,
}
use cadentra.Catalog.Lists.Deletion.{find_row, delete_run-deletes}
use cadentra.Catalog.ExecutionRows.{row_length, clock, Shows, row_length-duration}
use cadentra.Shared.Duration.{Length, duration, distance, Measures}
use cadentra.Catalog.Lists.Rows.{schedule_row}
use cadentra.Catalog.Lists.Toggle.{switch, run-toggles}
use cadentra.Catalog.Labels
use cadentra.Catalog.Labels.{add_label, run-add_label}

abbrev web_request : Request
web_request = record { node_name = "web"; node_ip = "10.0.0.7"; hub_address = "http://hub" }

abbrev web_enrollment : NodeEnrollment
web_enrollment = record {
  gateway_url = "";
  gateway_base_url = "";
  agent_image = "";
  native = "install web";
  docker_run = "docker run web";
  docker_compose = "";
}

abbrev ForWeb : Request → NodeEnrollment → Type 0
ForWeb r n = (r ≡ web_request) × (n ≡ web_enrollment)

abbrev enrolling : List Enrollment.Event
enrolling =
    changes_name " web"
    ∷ changes_address "10.0.0.7"
    ∷ submits
    ∷ answered web_request web_enrollment
    ∷ []

abbrev clipboard_browser : Browser
clipboard_browser = record { write_text = none; copy_command = some true }

run-command_example :
    ((n : NodeEnrollment) × ForWeb
        (inputs (Enrollment.run (Enrollment.init (some "http://hub")) enrolling))
        n
      × (command (Enrollment.run (Enrollment.init (some "http://hub")) enrolling)
          ≡ command_by (Enrollment.run (Enrollment.init (some "http://hub")) enrolling).method n))
    × (((copy clipboard_browser
            (Enrollment.run (Enrollment.init (some "http://hub")) enrolling)).clipboard
          ≡ some (command (Enrollment.run (Enrollment.init (some "http://hub")) enrolling)))
        ⊎ (copy clipboard_browser (Enrollment.run (Enrollment.init (some "http://hub")) enrolling)
            ≡ Enrollment.run (Enrollment.init (some "http://hub")) enrolling))
unfolding Enrollment.run command Enrollment.step inputs trim Enrollment.data_of
run-command_example =
    run-command ForWeb (some "http://hub") enrolling clipboard_browser
      (tt, (tt, (tt, ((refl, refl), tt)))) (ne-of_eq-false _ _ refl)

run-IsOrderly_example :
    All IsOrderly
      (Users.run Users.init (
        press_toggle
        ∷ change_username "ada"
        ∷ change_password "s3cret"
        ∷ select_role "operator"
        ∷ press_create
        ∷ [])).calls
run-IsOrderly_example = run-IsOrderly (
    press_toggle
    ∷ change_username "ada"
    ∷ change_password "s3cret"
    ∷ select_role "operator"
    ∷ press_create
    ∷ [])

abbrev hub_settings : List (String × String)
hub_settings = ("changelog_window", "100") ∷ ("max_log_bytes", "4096") ∷ []

abbrev changing : List Settings.Event
changing =
    edits "max_log_bytes" "1"
    ∷ edits "changelog_window" "5"
    ∷ presses_save
    ∷ answers (fails ("changelog_window" ∷ []))
    ∷ presses_save
    ∷ answers succeeds
    ∷ refetches
    ∷ []

abbrev loaded_draft : Draft
loaded_draft = record {
  shown = λ j. lookup j hub_settings;
  sent = none;
  stored = λ j. lookup j hub_settings;
}

run-load_refines_example :
    Agree
      (λ j. lookup j (settings (Settings.run (load hub_settings) changing)))
      (spec_run loaded_draft changing).shown
    × Agree
        (λ j. lookup j (Settings.run (load hub_settings) changing).hub)
        (spec_run loaded_draft changing).stored
unfolding lookup
run-load_refines_example = run-load_refines hub_settings changing (refl, (refl, tt))

abbrev nightly : Schedule
nightly = record { id = "s1"; task_id = "t1"; type = "cron"; enabled = true }

abbrev hourly : Schedule
hourly = record { id = "s2"; task_id = "t1"; type = "interval"; enabled = false }

abbrev schedules_page : Lists.Page Schedule
schedules_page = record {
  rows = some (nightly ∷ hourly ∷ []);
  stale = false;
  opened = λ i. false;
  hub = nightly ∷ hourly ∷ [];
  errors = 0;
}

abbrev toggled_page : Lists.Page Schedule
toggled_page = Lists.run schedule_row (λ s. s) schedules_page (toggles 1 true ∷ fetches ∷ [])

run-toggles_example :
    (toggled_page.rows ≡ some toggled_page.hub)
    × (toggled_page.stale ≡ false)
    × (map (λ (s : Schedule). s.id) toggled_page.hub ≡ "s1" ∷ "s2" ∷ [])
    × ((id : String)
        → switch schedule_row id toggled_page.hub
          ≡ (if id == "s2" then some true else switch schedule_row id schedules_page.hub))
    × (step schedule_row (λ s. s) schedules_page (toggles 1 false)
        ≡ record schedules_page { errors = 1 })
unfolding Lists.nth_row
run-toggles_example =
    run-toggles schedule_row (λ s. s) (λ r. refl) (λ r. refl) schedules_page 1 hourly refl
      (refl, refl)

-- The dialog is opened for the first schedule, which someone else deletes; the second one stands in
-- its place when the dialog is confirmed.
abbrev moved_page : Lists.Page Schedule
moved_page =
    delete_run (λ (s : Schedule). s.id) schedules_page
      (opens 0 ∷ becomes (hourly ∷ []) ∷ fetches ∷ confirms 0 true ∷ fetches ∷ [])

moved_page-hub : moved_page.hub ≡ []
unfolding delete_run Lists.nth_row filter
moved_page-hub = refl

delete_run-deletes_example :
    (moved_page.rows ≡ some moved_page.hub)
    × ((key : String)
        → find_row (λ (s : Schedule). s.id) key moved_page.hub
          ≡ (if "s2" == key then none else find_row (λ (s : Schedule). s.id) key (hourly ∷ [])))
    × (moved_page.opened 0 ≡ false)
    × ((accepted : Bool)
        → delete_step (λ (s : Schedule). s.id) moved_page (confirms 0 accepted) ≡ moved_page)
unfolding Lists.nth_row
delete_run-deletes_example =
    delete_run-deletes (λ (s : Schedule). s.id) schedules_page 0 nightly hourly (hourly ∷ []) refl
      refl

abbrev two_days : String → Option ℤ
two_days text =
    if text == "start"
    then some (pos 1000)
    else if text == "stop"
    then some (pos 172866000)
    else none

-- A run of two days and 65 seconds.
row_length-two_days : row_length two_days "start" "stop" ≡ clock 0 1 5
unfolding row_length
row_length-two_days = refl

row_length-duration_example :
    ((leb_ℤ (pos 1000) (pos 172866000) ≡ true)
      × (l : Length) × (duration two_days (pos 0) "start" "stop" false ≡ some l)
      × Measures (distance (pos 172866000) (pos 1000) / 1000) l
      × Shows
          (distance (pos 172866000) (pos 1000) / 1000 % 86400)
          (row_length two_days "start" "stop"))
    ⊎ ((leb_ℤ (pos 1000) (pos 172866000) ≡ false)
        × (duration two_days (pos 0) "start" "stop" false ≡ none)
        × Shows
            ((86399999 - (distance (pos 1000) (pos 172866000) - 1) % 86400000) / 1000)
            (row_length two_days "start" "stop"))
row_length-duration_example =
    row_length-duration two_days (pos 1000) (pos 172866000) "start" "stop"
      (λ e. ground (arith, eq_iff "stop" "")) refl refl (pos 0) false
      (λ e. ground (arith, eq_iff "start" "")) (omega arith) (omega arith)

abbrev web_labels : List (String × String)
web_labels = ("role", "web") ∷ []

abbrev labels_page : Labels.Page
labels_page = record {
  label_key = " zone ";
  label_value = "b";
  fetched = some web_labels;
  pending = none;
  hub = web_labels;
}

run-add_label_example :
    ((j : String)
      → lookup j (Labels.run labels_page add_label).hub
        ≡ (if "zone" == j then some "b" else lookup j web_labels))
    × ((Labels.run labels_page add_label).fetched ≡ some (Labels.run labels_page add_label).hub)
    × ((Labels.run labels_page add_label).label_key ≡ "")
    × ((Labels.run labels_page add_label).label_value ≡ "")
unfolding trim Labels.disabled
run-add_label_example = run-add_label labels_page refl web_labels refl
