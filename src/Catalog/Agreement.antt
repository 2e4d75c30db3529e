-- ===== src/Catalog/Agreement.antt =====
-- The page of a node (web/src/features/catalog/index.tsx) against the hub's choice of the tasks of
-- a node (internal/hub/sync.go).
pub mod State
use cadentra.Prelude.{
  ◌≡◌, ◌≢◌, refl, ◌∙◌, sym, ◌⊎◌, inl, inr, String, Option, none, some, List, [], ◌∷◌, Bool, true,
  false, ◌&&◌, ◌||◌, ◌==◌, get_or, filter, any, find, includes, includes-append, map, Dict, lookup,
  arith, eq_iff, Bool-cases, All,
}
use cadentra.Api.{Node, Group, Target, Task}
use cadentra.Catalog.Targets.{
  labels_equal, group_targets_node, group_id_targets_node, task_targets_node,
}
use cadentra.Catalog.Desired.{has_label, is_label_group, is_member, my_group_ids, task_matches}

-- A group of the kind that the hub's forms make: a label group asks for a value and lists nobody.
abbrev pub IsPlain : Group → Type 0
IsPlain g = g.type ≡ "label" → (g.label_value ≢ "") × (get_or g.members [] ≡ [])

abbrev pub HasDistinctIds : List Group → Type 0
HasDistinctIds [] = Unit
HasDistinctIds (g ∷ gs) = (any (λ h. h.id == g.id) gs ≡ false) × HasDistinctIds gs

labels_equal-has_label :
    (labels : Dict String) (key value : String)
    → value ≢ ""
    → labels_equal labels key (some value) ≡ has_label labels key value
unfolding labels_equal has_label
labels_equal-has_label labels key value h = ground (arith, eq_iff value "")

includes-ids :
    (p : Group → Bool) (groups : List Group) (id : String)
    → includes (map (λ (g : Group). g.id) (filter p groups)) id
      ≡ any (λ g. g.id == id && p g) groups
unfolding includes filter any
includes-ids p [] id = refl
includes-ids p (g ∷ gs) id = ground (arith, includes-ids p gs id)

targets-eq :
    (node : Node) (g : Group)
    → IsPlain g
    → group_targets_node node g ≡ (is_label_group node g || is_member node g)
unfolding group_targets_node is_label_group is_member includes
targets-eq node g h = elim (Bool-cases (g.type == "label")) [
  | inl e ↦
      let k = h (ground (arith, eq_iff g.type "label")) in
      rw (e, k.1, labels_equal-has_label node.labels g.label_key g.label_value k.0) (ground arith)
  | inr e ↦ rw e refl
]

others-false :
    (p : Group → Bool) (groups : List Group) (i j : String)
    → i ≡ j
    → any (λ g. g.id == i) groups ≡ false
    → any (λ g. g.id == j && p g) groups ≡ false
unfolding any
others-false p [] i j e h = refl
others-false p (g ∷ gs) i j e h =
    ground (arith, others-false p gs i j e, eq_iff g.id i, eq_iff g.id j)

find-any :
    (node : Node) (groups : List Group) (id : String)
    → HasDistinctIds groups
    → group_id_targets_node node groups id
      ≡ any (λ g. g.id == id && group_targets_node node g) groups
unfolding group_id_targets_node find any
find-any node [] id h = refl
find-any node (g ∷ gs) id h = elim (Bool-cases (g.id == id)) [
  | inl e ↦
      rw (e, others-false (group_targets_node node) gs g.id id (ground (arith, eq_iff g.id id)) h.0)
        (ground arith)
  | inr e ↦ ground (arith, find-any node gs id h.1)
]

any-split :
    (node : Node) (groups : List Group) (id : String)
    → All IsPlain groups
    → any (λ g. g.id == id && group_targets_node node g) groups ≡ (
        includes (map (λ (g : Group). g.id) (filter (is_label_group node) groups)) id
        || includes (map (λ (g : Group). g.id) (filter (is_member node) groups)) id)
unfolding any includes filter
any-split node [] id k = refl
any-split node (g ∷ gs) id k = ground (arith, targets-eq node g k.0, any-split node gs id k.1)

-- A group counts for the node on the page exactly if the hub counts it.
group_id-matches :
    (node : Node) (groups : List Group) (id : String)
    → HasDistinctIds groups
    → All IsPlain groups
    → group_id_targets_node node groups id ≡ includes (my_group_ids node groups) id
unfolding my_group_ids
group_id-matches node groups id h k =
    find-any node groups id h
    ∙ any-split node groups id k
    ∙ sym (
        includes-append (map (λ (g : Group). g.id) (filter (is_label_group node) groups))
          (map (λ (g : Group). g.id) (filter (is_member node) groups)) id)

any-ext :
    (p q : String → Bool) (xs : List String) → ((x : String) → p x ≡ q x) → any p xs ≡ any q xs
unfolding any
any-ext p q [] h = refl
any-ext p q (x ∷ xs) h = ground (arith, h x, any-ext p q xs h)

label-agrees :
    (labels : Dict String) (key : String) (value : Option String)
    → get_or value "" ≢ ""
    → labels_equal labels key value ≡ has_label labels key (get_or value "")
label-agrees labels key none h = absurd (h refl)
label-agrees labels key (some v) h = labels_equal-has_label labels key v h

-- The three kinds of target that the program knows.
abbrev pub HasKnownType : Target → Type 0
HasKnownType t = (t.type ≡ "node") ⊎ (t.type ≡ "label") ⊎ (t.type ≡ "group")

-- The page of a node lists a task exactly if the hub sends the task to the node: for the three kinds
-- of target, if the groups have different ids, a label group has a value and no members, and a
-- label target has a value.
pub task_targets_node-task_matches :
    (node : Node) (groups : List Group) (task : Task)
    → HasKnownType task.target
    → (task.target.type ≡ "label" → get_or task.target.label_value "" ≢ "")
    → HasDistinctIds groups
    → All IsPlain groups
    → task_targets_node task (some node) groups ≡ task_matches node groups task.target
unfolding task_targets_node task_matches includes
task_targets_node-task_matches node groups task (inl e) v h k = rw e refl
task_targets_node-task_matches node groups task (inr (inl e)) v h k =
    rw e (label-agrees node.labels (get_or task.target.label_key "") task.target.label_value (v e))
task_targets_node-task_matches node groups task (inr (inr e)) v h k = rw e (
    any-ext (group_id_targets_node node groups) (includes (my_group_ids node groups))
      (get_or task.target.group_ids []) (λ id. group_id-matches node groups id h k))

valueless_label :
    (labels : Dict String) (key v : String)
    → lookup key labels ≡ some v
    → (has_label labels key "" ≡ true) × (labels_equal labels key none ≡ false)
unfolding has_label labels_equal
valueless_label labels key v l = rw (has_label, labels_equal, l) (refl, refl)

-- A label target without a value, which the hub leaves out of the object that it sends: the hub
-- sends the task to every node that has the label, and no page of such a node lists it.
pub valueless_target_hidden :
    (node : Node) (groups : List Group) (task : Task) (v : String)
    → task.target.type ≡ "label"
    → task.target.label_value ≡ none
    → lookup (get_or task.target.label_key "") node.labels ≡ some v
    → (task_matches node groups task.target ≡ true)
      × (task_targets_node task (some node) groups ≡ false)
unfolding task_targets_node task_matches
valueless_target_hidden node groups task v e n l =
    rw (e, n) (valueless_label node.labels (get_or task.target.label_key "") v l)
