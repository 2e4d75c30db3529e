-- ===== src/Tests/Lists.antt =====
-- The pages that list and show what the hub has: web/src/features/catalog, overview, executions and
-- shared.
use cadentra.Prelude.{
  Bool, ◌≡◌, ◌≢◌, refl, ◌⊎◌, inr, ℕ, suc, String, none, some, [], ◌∷◌, true, false, ◌==◌, pos,
  negsuc, if◌then◌else◌, ne-of_eq-false, ap, pos_part, arith, any,
}
use mathlib.Core.List.{Permᴰ}
use cadentra.Api.{Schedule, Application, Node, Group, Target, Task, ApplicationNodeState}
use cadentra.Catalog.Targets.{node_schedules}
use cadentra.Catalog.Desired.{Desired, Store, compute_desired_state}
use cadentra.Catalog.NodeApplications.{node_applications}
use cadentra.Catalog.Agreement.{IsPlain}
use cadentra.Catalog.Agreement.State.{
  IsPlainTask, enabled_tasks, shown_tasks, compute_desired_state-page,
}
use cadentra.Overview.Load.{Answers, load_dashboard, DashboardData}
use cadentra.Overview.Load.Shown.{Rejects, Shows, load_dashboard_lem}
use cadentra.Executions.Logs.{Chunk, content, content-Perm, HasDistinctSeqs-pair}
use cadentra.Shared.Relative.{round_seconds, relative_time, Says, relative_time-Says}

abbrev web_node : Node
web_node = record {
  id = "n1";
  agent_id = "";
  hostname = "web";
  ip = "";
  status = "online";
  labels = ("role", "web") ∷ [];
  sync_status = none;
}

abbrev web_group : Group
web_group = record {
  id = "g1";
  name = "web";
  description = "";
  type = "label";
  label_key = "role";
  label_value = "web";
  members = none;
}

abbrev task_of : Target → Task
task_of target = record { id = "t1"; name = "t"; type = "command"; target = target; enabled = true }

abbrev group_target : Target
group_target = record {
  type = "group";
  node_ids = none;
  group_ids = some ("g1" ∷ []);
  label_key = none;
  label_value = none;
}

abbrev label_target : Target
label_target = record {
  type = "label";
  node_ids = none;
  group_ids = none;
  label_key = some "role";
  label_value = none;
}

abbrev application : String → Application
application id = record { id = id; name = id; artifact_id = "" }

abbrev off_task : Task
off_task = record (task_of group_target) { id = "t2"; enabled = false }

abbrev schedule_of : String → Schedule
schedule_of task_id = record { id = task_id; task_id = task_id; type = "cron"; enabled = true }

-- The nodes of the application y cannot be read.
abbrev store : Store
store = record {
  node = λ id. if id == "n1" then some web_node else none;
  groups = some (web_group ∷ []);
  tasks = some (task_of group_target ∷ off_task ∷ []);
  schedules = some (schedule_of "t1" ∷ schedule_of "t2" ∷ []);
  applications = some (application "x" ∷ application "y" ∷ []);
  application_nodes = λ id. if id == "x" then some ("n2" ∷ "n1" ∷ []) else none;
}

web_group-IsPlain : IsPlain web_group
web_group-IsPlain e = (ne-of_eq-false "web" "" refl, refl)

group_target-IsPlainTask : (b : Bool) → IsPlainTask (record (task_of group_target) { enabled = b })
group_target-IsPlainTask b = (inr (inr refl), λ e. absurd (ne-of_eq-false "group" "label" refl e))

-- The schedule of the task that is off is on the page, but is not sent.
compute_desired_state-page_example :
    (d : Desired) × (compute_desired_state store "n1" ≡ some d)
    × (d.tasks
        ≡ enabled_tasks
            (shown_tasks web_node (web_group ∷ []) (task_of group_target ∷ off_task ∷ [])))
    × (d.schedules
        ≡ node_schedules
            (enabled_tasks
              (shown_tasks web_node (web_group ∷ []) (task_of group_target ∷ off_task ∷ [])))
            (schedule_of "t1" ∷ schedule_of "t2" ∷ []))
    × (some d.applications
        ≡ node_applications store.application_nodes "n1"
            (some (application "x" ∷ application "y" ∷ [])))
unfolding any
compute_desired_state-page_example =
    compute_desired_state-page store web_node (web_group ∷ [])
      (task_of group_target ∷ off_task ∷ []) (schedule_of "t1" ∷ schedule_of "t2" ∷ [])
      (application "x" ∷ application "y" ∷ []) refl refl refl refl refl (refl, tt)
      (web_group-IsPlain, tt) (group_target-IsPlainTask true, (group_target-IsPlainTask false, tt))

abbrev state : String → ApplicationNodeState
state health = record {
  application_id = "";
  node_id = "";
  version = none;
  operation = "deploy";
  health = health;
  error = none;
  updated_at = "";
}

-- The states of the application y cannot be read.
abbrev answers : Answers
answers = record {
  nodes = some (web_node ∷ []);
  executions = some [];
  applications = some (application "x" ∷ application "y" ∷ []);
  schedules = some [];
  tasks = some (task_of label_target ∷ []);
  states = λ id. if id == "x" then some (state "healthy" ∷ state "unhealthy" ∷ []) else none;
}

load_dashboard_lem_example :
    ((load_dashboard answers ≡ none) × Rejects answers)
    ⊎ ((d : DashboardData) × (load_dashboard answers ≡ some d) × Shows answers d)
load_dashboard_lem_example =
    load_dashboard_lem answers ((ne-of_eq-false "x" "y" refl, tt), (tt, tt))

one_ne_two : pos 1 ≢ pos 2
one_ne_two e = let h = ap pos_part e in omega arith

abbrev chunk : ℕ → String → Chunk
chunk seq s = record { stream = "stdout"; seq = pos seq; chunk = s }

content-Perm_example :
    content "all" "" "" (chunk 1 "a" ∷ chunk 2 "b" ∷ [])
    ≡ content "all" "" "" (chunk 2 "b" ∷ chunk 1 "a" ∷ [])
content-Perm_example =
    content-Perm "all" "" "" (chunk 1 "a" ∷ chunk 2 "b" ∷ []) (chunk 2 "b" ∷ chunk 1 "a" ∷ [])
      (Permᴰ.swap refl refl) (HasDistinctSeqs-pair (chunk 1 "a") (chunk 2 "b") one_ne_two)

relative_time-Says_example :
    ((n : ℕ) × (round_seconds (pos 7200000) ≡ pos n)
      × Says true false n (relative_time true (pos 7200000)))
    ⊎ ((n : ℕ) × (round_seconds (pos 7200000) ≡ negsuc n)
        × Says true true (suc n) (relative_time true (pos 7200000)))
relative_time-Says_example = relative_time-Says true (pos 7200000)
