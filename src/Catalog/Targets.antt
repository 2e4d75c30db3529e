-- ===== src/Catalog/Targets.antt =====
-- taskTargetsNode of web/src/features/catalog/index.tsx, and what the page of a node shows by it.
use cadentra.Prelude.{
  String, Option, none, some, List, [], Bool, true, false, ◌==◌, get_or, filter, any, find,
  includes, if◌then◌else◌, Dict, lookup,
}
use cadentra.Api.{Node, Group, Task, Schedule}

-- labels[key] === value, where both sides may be missing.
unfoldable pub labels_equal : Dict String → String → Option String → Bool
unfolding lookup
labels_equal labels key value = elim (lookup key labels) [
  | none ↦ elim value [ none ↦ true | some v ↦ false ]
  | some l ↦ elim value [ none ↦ false | some v ↦ l == v ]
]

unfoldable pub group_targets_node : Node → Group → Bool
unfolding labels_equal includes
group_targets_node node group =
    if group.type == "label"
    then labels_equal node.labels group.label_key (some group.label_value)
    else includes (get_or group.members []) node.id

-- The first group with the id decides; without one the answer is false.
unfoldable pub group_id_targets_node : Node → List Group → String → Bool
unfolding group_targets_node find
group_id_targets_node node groups id = elim (find (λ g. g.id == id) groups) [
  | none ↦ false
  | some group ↦ group_targets_node node group
]

unfoldable pub task_targets_node : Task → Option Node → List Group → Bool
unfolding group_id_targets_node labels_equal includes any
task_targets_node task none groups = false
task_targets_node task (some node) groups =
    if task.target.type == "node"
    then includes (get_or task.target.node_ids []) node.id
    else if task.target.type == "label"
    then labels_equal node.labels (get_or task.target.label_key "") task.target.label_value
    else any (group_id_targets_node node groups) (get_or task.target.group_ids [])

-- The tasks and the schedules on the page of a node.
unfoldable pub node_tasks : Option Node → List Group → List Task → List Task
unfolding task_targets_node filter
node_tasks node groups tasks = filter (λ t. task_targets_node t node groups) tasks

unfoldable pub node_schedules : List Task → List Schedule → List Schedule
unfolding filter any
node_schedules tasks schedules = filter (λ s. any (λ t. t.id == s.task_id) tasks) schedules
