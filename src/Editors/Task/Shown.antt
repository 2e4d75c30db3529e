-- ===== src/Editors/Task/Shown.antt =====
-- targetText and TargetDetails of web/src/features/tasks/index.tsx: how the list of tasks and the
-- page of a task show a target. `translate` looks up a text, `digits` writes a number.
use Prim.Native.String
use cadentra.Prelude.{
  ℕ, ◌≡◌, refl, ◌∙◌, ◌⊎◌, inl, inr, ◌==◌, String, List, [], ◌∷◌, ◌++◌, false, get_or, truthy,
  if◌then◌else◌, eq_iff, Bool-cases, length, ne-of_eq-false, append-nil, if-either,
}
use cadentra.Api.{Target}
use cadentra.Editors.Draft.{form}
use cadentra.Editors.Task.Form.{init, target_or}
use cadentra.Editors.Task.Invariant.{Event, run, run-init-IsConsistent}

-- A pair of dt and dd; the label is two.
pub data Row : Type 0 where
  type_row : String → Row
  nodes_row groups_row : List String → Row
  label_row : (key value : String) → Row

abbrev pub or_dash : String → String
or_dash s = if truthy s then s else "-"

abbrev pub ids_rows : (List String → Row) → List String → List Row
ids_rows row [] = []
ids_rows row (id ∷ ids) = row (id ∷ ids) ∷ []

unfoldable pub label_rows : Target → List Row
label_rows t =
    if truthy (get_or t.label_key "")
    then label_row (get_or t.label_key "") (or_dash (get_or t.label_value "")) ∷ []
    else []

abbrev details : String → List String → List String → List Row → List Row
details type nodes groups labels =
    type_row type ∷ ids_rows nodes_row nodes ++ ids_rows groups_row groups ++ labels

unfoldable pub target_details : Target → List Row
unfolding label_rows
target_details t = details t.type (get_or t.node_ids []) (get_or t.group_ids []) (label_rows t)

abbrev pub spaced : String → String → String
spaced a b = String.◌++◌ a (String.◌++◌ " " b)

module _ (translate : String → String) (digits : ℕ → String) where
  unfoldable pub target_text : Target → String
  target_text t =
      if t.type == "node"
      then spaced (digits (length (get_or t.node_ids []))) (translate "tasks.nodes")
      else if t.type == "group"
      then spaced (digits (length (get_or t.group_ids []))) (translate "tasks.groups")
      else if truthy (get_or t.label_key "")
      then String.◌++◌ (get_or t.label_key "") (String.◌++◌ "=" (get_or t.label_value ""))
      else t.type

-- The ids in the rows of nodes, and in those of groups, and the keys of labels.
abbrev pub listed_nodes : List Row → List String
listed_nodes [] = []
listed_nodes (nodes_row ids ∷ rows) = ids ++ listed_nodes rows
listed_nodes (_ ∷ rows) = listed_nodes rows

abbrev pub listed_groups : List Row → List String
listed_groups [] = []
listed_groups (groups_row ids ∷ rows) = ids ++ listed_groups rows
listed_groups (_ ∷ rows) = listed_groups rows

abbrev pub listed_labels : List Row → List (String × String)
listed_labels [] = []
listed_labels (label_row k v ∷ rows) = (k, v) ∷ listed_labels rows
listed_labels (_ ∷ rows) = listed_labels rows

details-nodes :
    (type : String) (nodes groups : List String) (rows : List Row)
    → listed_nodes rows ≡ []
    → listed_nodes (details type nodes groups rows) ≡ nodes
details-nodes type [] [] rows h = h
details-nodes type [] (g ∷ groups) rows h = h
details-nodes type (n ∷ nodes) [] rows h = rw h (append-nil (n ∷ nodes))
details-nodes type (n ∷ nodes) (g ∷ groups) rows h = rw h (append-nil (n ∷ nodes))

details-groups :
    (type : String) (nodes groups : List String) (rows : List Row)
    → listed_groups rows ≡ []
    → listed_groups (details type nodes groups rows) ≡ groups
details-groups type [] [] rows h = h
details-groups type [] (g ∷ groups) rows h = rw h (append-nil (g ∷ groups))
details-groups type (n ∷ nodes) [] rows h = h
details-groups type (n ∷ nodes) (g ∷ groups) rows h = rw h (append-nil (g ∷ groups))

details-labels :
    (type : String) (nodes groups : List String) (rows : List Row)
    → listed_labels (details type nodes groups rows) ≡ listed_labels rows
details-labels type [] [] rows = refl
details-labels type [] (g ∷ groups) rows = refl
details-labels type (n ∷ nodes) [] rows = refl
details-labels type (n ∷ nodes) (g ∷ groups) rows = refl

target_details-nodes : (t : Target) → listed_nodes (target_details t) ≡ get_or t.node_ids []
unfolding target_details
target_details-nodes t =
    details-nodes t.type (get_or t.node_ids []) (get_or t.group_ids []) (label_rows t)
      (if-either (λ rows. listed_nodes rows ≡ []) (truthy (get_or t.label_key "")) refl refl)

target_details-groups : (t : Target) → listed_groups (target_details t) ≡ get_or t.group_ids []
unfolding target_details label_rows
target_details-groups t =
    details-groups t.type (get_or t.node_ids []) (get_or t.group_ids []) (label_rows t)
      (if-either (λ rows. listed_groups rows ≡ []) (truthy (get_or t.label_key "")) refl refl)

no_nodes :
    (t : Target)
    → ((t.type ≡ "node") ⊎ (get_or t.node_ids [] ≡ []))
    → (t.type == "node") ≡ false
    → get_or t.node_ids [] ≡ []
no_nodes t (inl e) n = absurd (ne-of_eq-false t.type "node" n e)
no_nodes t (inr e) n = e

-- The label in the details, beside the text of a target that is neither of nodes nor of groups.
abbrev pub ShowsLabel : Target → String → Type 0
ShowsLabel t text =
    ((k : String) × (v : String) × (listed_labels (target_details t) ≡ (k, or_dash v) ∷ [])
      × (text ≡ String.◌++◌ k (String.◌++◌ "=" v)))
    ⊎ ((listed_labels (target_details t) ≡ []) × (text ≡ t.type))

module _ (translate : String → String) (digits : ℕ → String) where
  -- What the text counts is what the details list, and nodes are listed for a target of nodes only.
  abbrev pub Agrees : Target → Type 0
  Agrees t =
      ((t.type ≡ "node")
        × (target_text translate digits t
            ≡ spaced (digits (length (listed_nodes (target_details t)))) (translate "tasks.nodes")))
      ⊎ ((listed_nodes (target_details t) ≡ [])
          × (t.type ≡ "group")
          × (target_text translate digits t
              ≡ spaced (digits (length (listed_groups (target_details t))))
                  (translate "tasks.groups")))
      ⊎ ((listed_nodes (target_details t) ≡ []) × ShowsLabel t (target_text translate digits t))

  text-ShowsLabel :
      (t : Target)
      → (t.type == "node") ≡ false
      → (t.type == "group") ≡ false
      → ShowsLabel t (target_text translate digits t)
  unfolding target_text target_details label_rows
  text-ShowsLabel t n g = elim (Bool-cases (truthy (get_or t.label_key ""))) [
    | inl given ↦ inl (
      get_or t.label_key "",
      get_or t.label_value "",
      details-labels t.type (get_or t.node_ids []) (get_or t.group_ids []) (label_rows t)
          ∙ rw given refl,
      rw (n, g, given) refl,
    )
    | inr missing ↦ inr (
      details-labels t.type (get_or t.node_ids []) (get_or t.group_ids []) (label_rows t)
          ∙ rw missing refl,
      rw (n, g, missing) refl,
    )
  ]

  text-Agrees : (t : Target) → ((t.type ≡ "node") ⊎ (get_or t.node_ids [] ≡ [])) → Agrees t
  unfolding target_text
  text-Agrees t h = elim (Bool-cases (t.type == "node")) [
    | inl n ↦ inl ((eq_iff t.type "node").0 n, rw (n, target_details-nodes t) refl)
    | inr n ↦
        let none_listed = target_details-nodes t ∙ no_nodes t h n in
        inr (elim (Bool-cases (t.type == "group")) [
          | inl g ↦
              inl
                (none_listed, (eq_iff t.type "group").0 g, rw (n, g, target_details-groups t) refl)
          | inr g ↦ inr (none_listed, text-ShowsLabel t n g)
        ])
  ]

  -- However a task is made in the editor of a new task, the list of tasks and the page of the task
  -- agree on its target: the text counts the nodes, or the groups, that the details list, or
  -- has the key and the value of the label that they show, with a dash for an empty value, or
  -- is the type where there is no label; and the details list nodes for a target of nodes only.
  pub run-init-Agrees :
      (id : String) (xs : List Event) → Agrees (target_or (form (run (init id) xs).fields).target)
  run-init-Agrees id xs =
      text-Agrees (target_or (form (run (init id) xs).fields).target)
        (run-init-IsConsistent id xs).1
