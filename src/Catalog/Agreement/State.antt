-- ===== src/Catalog/Agreement/State.antt =====
-- The page of a node (web/src/features/catalog/index.tsx) against all that the hub sends to the node
-- (internal/hub/sync.go, ComputeDesiredState).
use cadentra.Prelude.{
  ◌≡◌, ◌≢◌, refl, ◌∙◌, ap, String, Option, some, List, [], ◌∷◌, ◌||◌, ◌==◌, get_or, filter, any,
  includes, map, arith, Option-cases, inl, inr, All,
}
use cadentra.Api.{Node, Group, Task, Schedule, Application}
use cadentra.Catalog.Targets.{node_tasks, node_schedules}
use cadentra.Catalog.Desired.{
  desired_tasks, desired_schedules, desired_applications, Desired, Store, compute_desired_state,
}
use cadentra.Catalog.NodeApplications.{is_assigned, node_applications}
use cadentra.Catalog.Agreement.{
  HasDistinctIds, IsPlain, HasKnownType, task_targets_node-task_matches,
}

-- The target is of a kind that the program knows, and asks for a value if it is of a label.
abbrev pub IsPlainTask : Task → Type 0
IsPlainTask task =
    HasKnownType task.target × (task.target.type ≡ "label" → get_or task.target.label_value "" ≢ "")

abbrev pub enabled_tasks : List Task → List Task
enabled_tasks = filter (λ (t : Task). t.enabled)

desired_tasks-page :
    (node : Node) (groups : List Group) (tasks : List Task)
    → HasDistinctIds groups
    → All IsPlain groups
    → All IsPlainTask tasks
    → desired_tasks node groups tasks ≡ enabled_tasks (node_tasks (some node) groups tasks)
unfolding desired_tasks node_tasks filter
desired_tasks-page node groups [] h k p = refl
desired_tasks-page node groups (t ∷ ts) h k p = ground (
  arith,
  desired_tasks-page node groups ts h k p.1,
  task_targets_node-task_matches node groups t p.0.0 p.0.1 h k,
)

includes-any :
    (tasks : List Task) (id : String)
    → includes (map (λ (t : Task). t.id) tasks) id ≡ any (λ t. t.id == id) tasks
unfolding includes any
includes-any [] id = refl
includes-any (t ∷ ts) id = ap (λ b. t.id == id || b) (includes-any ts id)

desired_schedules-page :
    (tasks : List Task) (schedules : List Schedule)
    → desired_schedules tasks schedules ≡ node_schedules tasks schedules
unfolding desired_schedules node_schedules filter any includes
desired_schedules-page tasks [] = refl
desired_schedules-page tasks (s ∷ ss) =
    ground (arith, desired_schedules-page tasks ss, includes-any tasks s.task_id)

any-includes : (ids : List String) (id : String) → any (λ n. n == id) ids ≡ includes ids id
unfolding any includes
any-includes [] id = refl
any-includes (n ∷ ns) id = ap (λ b. n == id || b) (any-includes ns id)

pub desired_applications-page :
    (nodes : String → Option (List String)) (id : String) (all : List Application)
    → desired_applications nodes id all ≡ filter (is_assigned nodes id) all
unfolding desired_applications is_assigned filter
desired_applications-page nodes id [] = refl
desired_applications-page nodes id (a ∷ more) = elim (Option-cases (nodes a.id)) [
  | inl failed ↦
      rw (desired_applications, is_assigned, failed) (desired_applications-page nodes id more)
  | inr (ids, found) ↦
      rw
        (
          desired_applications,
          is_assigned,
          found,
          any-includes ids id,
          desired_applications-page nodes id more,
        )
        refl
]

-- What the page of a node lists, of the answers to its requests.
abbrev pub shown_tasks : Node → List Group → List Task → List Task
shown_tasks node = node_tasks (some node)

-- If the store answers each list, the groups have different ids, label groups have a value and no
-- members, and the targets of the tasks are of the three kinds, with a value where they ask for a
-- label, then the hub sends a node, in their order, the enabled ones of the tasks that its page
-- lists, the schedules that the page would list for these, and the applications that the page lists,
-- whichever of the requests for the nodes of an application fail.
pub compute_desired_state-page :
    (store : Store) (node : Node) (groups : List Group) (tasks : List Task)
    (schedules : List Schedule) (all : List Application)
    → store.node node.id ≡ some node
    → store.groups ≡ some groups
    → store.tasks ≡ some tasks
    → store.schedules ≡ some schedules
    → store.applications ≡ some all
    → HasDistinctIds groups
    → All IsPlain groups
    → All IsPlainTask tasks
    → (d : Desired) × (compute_desired_state store node.id ≡ some d)
      × (d.tasks ≡ enabled_tasks (shown_tasks node groups tasks))
      × (d.schedules ≡ node_schedules (enabled_tasks (shown_tasks node groups tasks)) schedules)
      × (some d.applications ≡ node_applications store.application_nodes node.id (some all))
unfolding compute_desired_state node_applications
compute_desired_state-page store node groups tasks schedules all n g t s a h k p =
    let listed = desired_tasks-page node groups tasks h k p in
    (
      _,
      rw (n, g, t, s, a) refl,
      listed,
      desired_schedules-page (desired_tasks node groups tasks) schedules
          ∙ ap (λ ts. node_schedules ts schedules) listed,
      ap some (desired_applications-page store.application_nodes node.id all),
    )
