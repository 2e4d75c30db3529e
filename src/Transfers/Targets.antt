-- ===== src/Transfers/Targets.antt =====
-- The targets of a new transfer: what the form of web/src/features/transfers/index.tsx keeps of
-- what the hub asks for, and what it does not.
use cadentra.Prelude.{
  ◌≡◌, ◌≢◌, refl, inl, inr, String, some, List, [], ◌∷◌, ◌++◌, Bool, true, false, not, ◌&&◌, ◌||◌,
  ◌==◌, truthy, filter, any, find, arith, eq_iff, All, All-append, All-filter, any-append,
  Bool-cases, Option-cases,
}
use cadentra.Api.{Node}
use cadentra.Transfers.Form.{
  TargetDraft, Form, has_target, is_empty, add_target, remove_target, create_disabled, source,
  payload, Event, select_source, change_source_path, select_target, change_destination, press_add,
  press_remove, press_create, created, failed, on_success, step, run, target_options,
}

-- No two targets have the same node.
abbrev pub HasDistinctNodes : List TargetDraft → Type 0
HasDistinctNodes [] = Unit
HasDistinctNodes (t ∷ ts) = (has_target t.node_id ts ≡ false) × HasDistinctNodes ts

-- A target names a node and a path.
abbrev pub IsFilled : TargetDraft → Type 0
IsFilled t = (t.node_id ≢ "") × (t.destination_path ≢ "")

-- What the hub checks of a list of targets, but for the paths' syntax.
abbrev pub IsAcceptable : List TargetDraft → Type 0
IsAcceptable ts = HasDistinctNodes ts × All IsFilled ts

HasDistinctNodes-snoc :
    (ts : List TargetDraft) (t : TargetDraft)
    → HasDistinctNodes ts
    → has_target t.node_id ts ≡ false
    → HasDistinctNodes (ts ++ t ∷ [])
unfolding has_target any
HasDistinctNodes-snoc [] t h k = (refl, tt)
HasDistinctNodes-snoc (u ∷ ts) t h k = (
  ground (
    arith,
    any-append (λ x. x.node_id == u.node_id) ts (t ∷ []),
    eq_iff u.node_id t.node_id,
    eq_iff t.node_id u.node_id,
  ),
  HasDistinctNodes-snoc ts t h.1 (ground arith),
)

has_target-filter :
    (id : String) (p : TargetDraft → Bool) (ts : List TargetDraft)
    → has_target id ts ≡ false
    → has_target id (filter p ts) ≡ false
unfolding has_target any filter
has_target-filter id p [] h = refl
has_target-filter id p (t ∷ ts) h = ground (arith, has_target-filter id p ts)

HasDistinctNodes-filter :
    (p : TargetDraft → Bool) (ts : List TargetDraft)
    → HasDistinctNodes ts
    → HasDistinctNodes (filter p ts)
unfolding filter
HasDistinctNodes-filter p [] h = tt
HasDistinctNodes-filter p (t ∷ ts) h =
    ground (arith, HasDistinctNodes-filter p ts h.1, has_target-filter t.node_id p ts h.0)

add_target-IsAcceptable : (f : Form) → IsAcceptable f.targets → IsAcceptable (add_target f).targets
unfolding add_target
add_target-IsAcceptable f h =
    elim (Bool-cases (
      not (truthy f.target_node_id)
      || not (truthy f.destination_path)
      || has_target f.target_node_id f.targets)) [
        | inl refused ↦ rw refused h
        | inr taken ↦ rw taken (
          HasDistinctNodes-snoc f.targets _ h.0 (ground arith),
          All-append IsFilled f.targets _ h.1 (
            (
              ground (arith, eq_iff f.target_node_id ""),
              ground (arith, eq_iff f.destination_path ""),
            ),
            tt,
          ),
        )
      ]

step-IsAcceptable :
    (nodes : List Node) (f : Form) (e : Event)
    → IsAcceptable f.targets
    → IsAcceptable (step nodes f e).targets
unfolding step remove_target on_success
step-IsAcceptable nodes f (select_source id) h = h
step-IsAcceptable nodes f (change_source_path path) h = h
step-IsAcceptable nodes f (select_target id) h = h
step-IsAcceptable nodes f (change_destination path) h = h
step-IsAcceptable nodes f press_add h = add_target-IsAcceptable f h
step-IsAcceptable nodes f (press_remove id) h = (
  HasDistinctNodes-filter (λ t. not (t.node_id == id)) f.targets h.0,
  All-filter IsFilled (λ t. not (t.node_id == id)) f.targets h.1,
)
step-IsAcceptable nodes f press_create h = ground arith
step-IsAcceptable nodes f created h = (tt, tt)
step-IsAcceptable nodes f failed h = h

-- Whatever the user does, in whatever order the answers come, the targets of the form name distinct
-- nodes, each with a node and a path that are not empty, if they did at first.
pub run-IsAcceptable :
    (nodes : List Node) (f : Form) (es : List Event)
    → IsAcceptable f.targets
    → IsAcceptable (run nodes f es).targets
unfolding run
run-IsAcceptable nodes f [] h = h
run-IsAcceptable nodes f (e ∷ es) h =
    run-IsAcceptable nodes (step nodes f e) es (step-IsAcceptable nodes f e h)

find-id :
    (id : String) (nodes : List Node) (n : Node) → find (λ m. m.id == id) nodes ≡ some n → n.id ≡ id
unfolding find
find-id id [] n h = cc
find-id id (m ∷ nodes) n h = ground (arith, eq_iff m.id id, find-id id nodes n)

-- Where the button is enabled, the transfer that it would start is in order: the source is one of
-- the nodes, its path is not empty, and there are targets.
pub create_disabled_lem :
    (nodes : List Node) (f : Form)
    → create_disabled nodes f ≡ false
    → ((n : Node) × (source nodes f ≡ some n) × (n.id ≡ (payload f).source_node_id))
      × ((payload f).source_path ≢ "")
      × ((payload f).targets ≢ [])
unfolding create_disabled source
create_disabled_lem nodes f h = elim (Option-cases (source nodes f)) [
  | inl e ↦ absurd (ground arith)
  | inr (n, e) ↦ (
    (n, e, find-id f.source_node_id nodes n e),
    ground (arith, eq_iff f.source_path ""),
    ground arith,
  )
]

has_target-filter_ne :
    (id j : String) (ts : List TargetDraft)
    → has_target j (filter (λ t. not (t.node_id == id)) ts) ≡ (has_target j ts && not (j == id))
unfolding has_target any filter
has_target-filter_ne id j [] = refl
has_target-filter_ne id j (t ∷ ts) =
    ground
      (arith, has_target-filter_ne id j ts, eq_iff t.node_id j, eq_iff t.node_id id, eq_iff j id)

-- After a target is removed, exactly the other targets are left.
pub has_target-remove_target :
    (id j : String) (f : Form)
    → has_target j (remove_target id f).targets ≡ (has_target j f.targets && not (j == id))
unfolding remove_target
has_target-remove_target id j f = has_target-filter_ne id j f.targets

-- No node that the target's menu offers is the source.
pub target_options-ne-source :
    (nodes : List Node) (f : Form) → All (λ n. n.id ≢ f.source_node_id) (target_options nodes f)
unfolding target_options filter
target_options-ne-source [] f = tt
target_options-ne-source (n ∷ nodes) f =
    ground (arith, target_options-ne-source nodes f, eq_iff n.id f.source_node_id)

is_empty-has_target :
    (id : String) (ts : List TargetDraft) → has_target id ts ≡ true → is_empty ts ≡ false
unfolding has_target any
is_empty-has_target id [] h = cc
is_empty-has_target id (t ∷ ts) h = refl

-- A node that is a target already can be chosen as the source afterwards: if it is one of the
-- nodes, there is a source path and no request is pending, the button is enabled then, and the
-- transfer that it starts sends the file from a node to itself.
pub source_may_be_target :
    (nodes : List Node) (f : Form) (n : Node) (id : String)
    → has_target id f.targets ≡ true
    → find (λ m. m.id == id) nodes ≡ some n
    → truthy f.source_path ≡ true
    → f.pending ≡ false
    → (create_disabled nodes (step nodes f (select_source id)) ≡ false)
      × (has_target
            (payload (step nodes f (select_source id))).source_node_id
            (payload (step nodes f (select_source id))).targets
          ≡ true)
unfolding create_disabled step source
source_may_be_target nodes f n id targeted known path idle =
    (rw (known, path, idle) (rw (is_empty-has_target id f.targets targeted)), targeted)
