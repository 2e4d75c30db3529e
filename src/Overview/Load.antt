-- ===== src/Overview/Load.antt =====
-- loadDashboard and Dashboard of web/src/features/overview/index.tsx: the requests behind the page.
pub mod Shown
use cadentra.Prelude.{
  ℕ, String, Option, none, some, List, [], map, ◌==◌, get_or, Dict, lookup, truthy, if◌then◌else◌,
}
use cadentra.Api.{Node, Execution, Schedule, Task, Application, ApplicationNodeState}
use cadentra.Overview.Figures.{health_by_id, healthy_applications}
use cadentra.Overview.Health.{App}

-- How the requests end: none is a request that rejects. `states` answers
-- `/applications/${id}/state`.
pub record Answers : Type 0 where
  pub nodes : Option (List Node)
  pub executions : Option (List Execution)
  pub applications : Option (List Application)
  pub schedules : Option (List Schedule)
  pub tasks : Option (List Task)
  pub states : String → Option (List ApplicationNodeState)

pub record DashboardData : Type 0 where
  pub nodes : List Node
  pub executions : List Execution
  pub applications : List Application
  pub application_health : Dict String
  pub schedules : List Schedule
  pub tasks : List Task
  pub healthy_applications : ℕ

infixl 5 ◌>>=◌
abbrev ◌>>=◌ {ℓ κ} : {A : Type ℓ} {B : Type κ} → Option A → (A → Option B) → Option B
none >>= f = none
some a >>= f = f a

-- applicationStates: .catch(() => [])
abbrev pub with_states : (String → Option (List ApplicationNodeState)) → List Application → List App
with_states states apps = map (λ (a : Application). (a.id, get_or (states a.id) [])) apps

unfoldable pub load_dashboard : Answers → Option DashboardData
unfolding health_by_id healthy_applications
load_dashboard a = do
  nodes ← a.nodes
  executions ← a.executions
  applications ← a.applications
  schedules ← a.schedules
  tasks ← a.tasks
  some (record {
    nodes = nodes;
    executions = executions;
    applications = applications;
    application_health = health_by_id [] (with_states a.states applications);
    schedules = schedules;
    tasks = tasks;
    healthy_applications = healthy_applications (with_states a.states applications);
  })

-- data.applicationHealth[application.id] || 'unknown'
abbrev pub or_unknown : Option String → String
or_unknown none = "unknown"
or_unknown (some health) = if truthy health then health else "unknown"

unfoldable pub shown_health : DashboardData → String → String
shown_health d id = or_unknown (lookup id d.application_health)

-- The column of the trigger in the table of recent runs, as the key of its text.
unfoldable pub trigger_text : String → String
trigger_text trigger_type = if trigger_type == "manual" then "manual" else "schedule"
