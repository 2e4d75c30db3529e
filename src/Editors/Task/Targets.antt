-- ===== src/Editors/Task/Targets.antt =====
-- The boxes for the target's nodes in TaskEditor (web/src/features/tasks/index.tsx).
use cadentra.Prelude.{
  ◌≡◌, String, [], ◌∷◌, not, ◌==◌, if◌then◌else◌, includes, includes-append, includes-filter, arith,
  eq_iff, Bool-cases, inl, inr,
}
use cadentra.Editors.Task.Form.{Editor, toggle_node, selected_nodes}

-- Pressing the box of a node takes the node up if it was not selected, and drops it if it was; the
-- selection of every other node stays.
pub includes-toggle_node :
    (id j : String) (e : Editor)
    → includes (selected_nodes (toggle_node id e)) j
      ≡ (if id == j then not (includes (selected_nodes e) j) else includes (selected_nodes e) j)
unfolding toggle_node includes
includes-toggle_node id j e = elim (Bool-cases (includes (selected_nodes e) id)) [
  | inl taken ↦
      rw (taken, includes-filter (λ v. not (v == id)) (selected_nodes e) j)
        (ground (arith, taken, eq_iff j id, eq_iff id j))
  | inr free ↦
      rw (free, includes-append (selected_nodes e) (id ∷ []) j) (ground (arith, free, eq_iff id j))
]
