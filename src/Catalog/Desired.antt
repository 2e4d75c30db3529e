-- ===== src/Catalog/Desired.antt =====
-- What the hub sends to a node: ComputeDesiredState of internal/hub/sync.go, but for the scripts.
-- The objects are as far as the web console reads them.
use cadentra.Prelude.{
  String, Option, none, some, List, [], ◌++◌, Bool, false, not, ◌∷◌, ◌&&◌, ◌||◌, ◌==◌, get_or,
  filter, any, includes, map, if◌then◌else◌, Dict, lookup,
}
use cadentra.Api.{Node, Group, Target, Task, Schedule, Application}

-- The label is there, and has the value; an empty value stands for every value.
unfoldable pub has_label : Dict String → String → String → Bool
unfolding lookup
has_label labels key value = elim (lookup key labels) [
  | none ↦ false
  | some v ↦ value == "" || v == value
]

unfoldable pub is_label_group : Node → Group → Bool
unfolding has_label
is_label_group node g = g.type == "label" && has_label node.labels g.label_key g.label_value

unfoldable pub is_member : Node → Group → Bool
unfolding includes
is_member node g = includes (get_or g.members []) node.id

-- The keys of the map after the two loops over the groups.
unfoldable pub my_group_ids : Node → List Group → List String
unfolding is_label_group is_member filter
my_group_ids node groups =
    map (λ (g : Group). g.id) (filter (is_label_group node) groups)
    ++ map (λ (g : Group). g.id) (filter (is_member node) groups)

unfoldable pub task_matches : Node → List Group → Target → Bool
unfolding my_group_ids has_label includes any
task_matches node groups target =
    if target.type == "node"
    then includes (get_or target.node_ids []) node.id
    else if target.type == "group"
    then any (includes (my_group_ids node groups)) (get_or target.group_ids [])
    else if target.type == "label"
    then has_label node.labels (get_or target.label_key "") (get_or target.label_value "")
    else false

-- The loop over the tasks.
unfoldable pub desired_tasks : Node → List Group → List Task → List Task
unfolding task_matches
desired_tasks node groups [] = []
desired_tasks node groups (t ∷ ts) =
    let rest = desired_tasks node groups ts in
    if not t.enabled
    then rest
    else if not (task_matches node groups t.target)
    then rest
    else t ∷ rest

-- The loop over the schedules; allowedTasks has the ids of the tasks as its keys.
unfoldable pub desired_schedules : List Task → List Schedule → List Schedule
unfolding includes
desired_schedules tasks [] = []
desired_schedules tasks (s ∷ ss) =
    let rest = desired_schedules tasks ss in
    if not (includes (map (λ (t : Task). t.id) tasks) s.task_id) then rest else s ∷ rest

-- The loop over the applications; `nodes` is GetApplicationNodes, and none an error of it. The
-- derived fields that withArtifactInfo fills are not among those that are read here.
unfoldable pub desired_applications :
    (String → Option (List String)) → String → List Application → List Application
unfolding any
desired_applications nodes id [] = []
desired_applications nodes id (a ∷ more) =
    let rest = desired_applications nodes id more in
    elim (nodes a.id) [
      | none ↦ rest
      | some assigned ↦ if any (λ n. n == id) assigned then a ∷ rest else rest
    ]

pub record Desired : Type 0 where
  pub tasks : List Task
  pub schedules : List Schedule
  pub applications : List Application

-- The store's answers; none is an error.
pub record Store : Type 0 where
  pub node : String → Option Node
  pub groups : Option (List Group)
  pub tasks : Option (List Task)
  pub schedules : Option (List Schedule)
  pub applications : Option (List Application)
  pub application_nodes : String → Option (List String)

infixl 5 ◌>>=◌
abbrev ◌>>=◌ {ℓ κ} : {A : Type ℓ} {B : Type κ} → Option A → (A → Option B) → Option B
none >>= f = none
some a >>= f = f a

unfoldable pub compute_desired_state : Store → String → Option Desired
unfolding desired_tasks desired_schedules desired_applications
compute_desired_state store node_id = do
  node ← store.node node_id
  groups ← store.groups
  all_tasks ← store.tasks
  all_schedules ← store.schedules
  all_applications ← store.applications
  some (record {
    tasks = desired_tasks node groups all_tasks;
    schedules = desired_schedules (desired_tasks node groups all_tasks) all_schedules;
    applications = desired_applications store.application_nodes node_id all_applications;
  })
