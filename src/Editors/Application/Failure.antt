-- ===== src/Editors/Application/Failure.antt =====
-- What is left of a save of an application (web/src/features/editors/index.tsx) in which a request
-- throws.
use Prim.Native.String
use cadentra.Prelude.{
  ◌≡◌, refl, ap, ◌∙◌, ◌⊎◌, inl, inr, String, Option, none, some, List, [], ◌∷◌, ◌++◌, Bool, true,
  not, ◌&&◌, ◌||◌, get_or, truthy, includes, filter, filter-append, Bool-cases,
}
use cadentra.Editors.Draft.{form}
use cadentra.Editors.Application.Form.{Editor, selected_nodes}
use cadentra.Editors.Application.Save.{
  Call, assign, unassign, Answers, Act, send_nodes, ◌>>=◌, ◌>>◌, pure, save_nodes, save_call,
  removed_nodes, save,
}
use cadentra.Editors.Application.Assignment.{
  IsCurrent, assigned_after, assigned_after-append, after_assign, after_unassign, removed_nodes_lem,
  save_call_lem,
}

-- A chain that throws does so in its first part, or in what follows the first part's value.
>>=-eq-none :
    {A B : Type 0} (m : Act A) (f : A → Act B)
    → (m >>= f).1 ≡ none
    → ((m.1 ≡ none) × ((m >>= f).0 ≡ m.0))
      ⊎ ((a : A) × (m.1 ≡ some a) × ((f a).1 ≡ none) × ((m >>= f).0 ≡ m.0 ++ (f a).0))
>>=-eq-none (cs, none) f h = inl (refl, refl)
>>=-eq-none (cs, some a) f h = inr (a, refl, h, refl)

-- Two selections that agree on every node.
abbrev pub SameNodes : (String → Bool) → (String → Bool) → Type 0
SameNodes f g = (n : String) → f n ≡ g n

-- The assignments are as before, as before with the selected nodes, or exactly as selected.
abbrev pub IsBetween : Editor → List String → (String → Bool) → Type 0
IsBetween e nodes f =
    SameNodes f (includes nodes)
    ⊎ SameNodes f (λ n. includes nodes n || includes (selected_nodes e) n)
    ⊎ SameNodes f (includes (selected_nodes e))

-- `taken` are the requests that the hub has carried out, whether or not the editor has had the
-- answer: one that throws may be among them, or not. The hub carries out a request for the nodes in
-- one transaction.
module _ (answers : Answers) (taken : Call → Bool)
    (confirmed : (c : Call) (id : String) → answers c ≡ some id → taken c ≡ true) where
  taken-cases :
      (call : List String → Call) (ns : List String)
      → (filter taken (send_nodes answers call ns).0 ≡ (send_nodes answers call ns).0)
        ⊎ (filter taken (send_nodes answers call ns).0 ≡ [])
  unfolding filter
  taken-cases call [] = inl refl
  taken-cases call (n ∷ ns) = elim (Bool-cases (taken (call (n ∷ ns)))) [
    | inl done ↦ inl (rw done refl)
    | inr left ↦ inr (rw left refl)
  ]

  taken-some :
      (call : List String → Call) (ns : List String) (id : String)
      → (send_nodes answers call ns).1 ≡ some id
      → filter taken (send_nodes answers call ns).0 ≡ (send_nodes answers call ns).0
  unfolding filter
  taken-some call [] id h = refl
  taken-some call (n ∷ ns) id h = rw (confirmed (call (n ∷ ns)) id h) refl

  module _ (e : Editor) (nodes : List String) (current : IsCurrent e nodes) (app : String) where
    added_all :
        (cs : List Call)
        → cs ≡ (send_nodes answers (assign app) (selected_nodes e)).0
        → SameNodes
            (includes (assigned_after app nodes cs))
            (λ n. includes nodes n || includes (selected_nodes e) n)
    added_all cs same n =
        ap (λ c. includes (assigned_after app nodes c) n) same
        ∙ after_assign answers app nodes (selected_nodes e) n

    -- The first request for the nodes throws.
    first_throws : IsBetween e nodes (
        includes (
          assigned_after app nodes
            (filter taken (send_nodes answers (assign app) (selected_nodes e)).0)))
    unfolding assigned_after
    first_throws = elim (taken-cases (assign app) (selected_nodes e)) [
      | inl done ↦ inr (inl (added_all _ done))
      | inr left ↦ inl (λ n. ap (λ c. includes (assigned_after app nodes c) n) left)
    ]

    -- The first request for the nodes has been carried out, and the second throws.
    second_throws :
        (added : List String)
        → SameNodes (includes added) (λ n. includes nodes n || includes (selected_nodes e) n)
        → IsBetween e nodes (
            includes (
              assigned_after app added
                (filter taken (send_nodes answers (unassign app) (removed_nodes e)).0)))
    unfolding assigned_after
    second_throws added grown = elim (taken-cases (unassign app) (removed_nodes e)) [
      | inl done ↦ inr (
          inr (λ n.
            ap (λ c. includes (assigned_after app added c) n) done
            ∙ after_unassign answers app added (removed_nodes e) n
            ∙ ap (λ b. b && not (includes (removed_nodes e) n)) (grown n)
            ∙ removed_nodes_lem e nodes n current))
      | inr left ↦ inr (inl (λ n. ap (λ c. includes (assigned_after app added c) n) left ∙ grown n))
    ]

    save_nodes-IsBetween :
        (save_nodes answers e app).1 ≡ none
        → IsBetween e nodes
            (includes (assigned_after app nodes (filter taken (save_nodes answers e app).0)))
    unfolding save_nodes
    save_nodes-IsBetween thrown =
        let added = send_nodes answers (assign app) (selected_nodes e) in
        let dropped = send_nodes answers (unassign app) (removed_nodes e) in
        let done : Act (Option String) = pure (some (String.◌++◌ "/applications/" app)) in
        elim (>>=-eq-none added (λ _. dropped >> done) thrown) [
          | inl (first, sent) ↦ rw sent first_throws
          | inr (a, first, rest, sent) ↦ elim (>>=-eq-none dropped (λ _. done) rest) [
            | inl (second, sent') ↦
                rw
                  (
                    sent,
                    sent',
                    filter-append taken added.0 dropped.0,
                    assigned_after-append app nodes (filter taken added.0) (filter taken dropped.0),
                  )
                  (second_throws (assigned_after app nodes (filter taken added.0)) (
                    added_all (filter taken added.0)
                      (taken-some (assign app) (selected_nodes e) a first)))
            | inr (b, second, never, sent') ↦ cc
          ]
        ]

    -- Where a request of a save throws, carried out by the hub or not, and the editor knows the hub's
    -- current assignments, the application, with the id that the hub has answered to the first request,
    -- or any if that one has thrown, is left assigned as before, as before with the selected nodes,
    -- or exactly to the selected nodes: no selected node loses it, no other node gets it, and none
    -- loses it before the selected ones have it.
    pub save_throws :
        (answers (save_call e) ≡ none) ⊎ (answers (save_call e) ≡ some app)
        → (save answers e).1 ≡ none
        → IsBetween e nodes (includes (assigned_after app nodes (filter taken (save answers e).0)))
    unfolding save filter assigned_after
    save_throws first thrown = elim (Bool-cases (truthy (get_or (form e.fields).name ""))) [
      | inr unnamed ↦ rw unnamed (inl (λ n. refl))
      | inl named ↦ elim first [
        | inl refused ↦ elim (Bool-cases (taken (save_call e))) [
          | inl done ↦
              rw (named, refused, done)
                (inl (λ n. ap (λ ns. includes ns n) (save_call_lem e app nodes [])))
          | inr left ↦ rw (named, refused, left) (inl (λ n. refl))
        ]
        | inr saved ↦
            rw
              (
                named,
                saved,
                confirmed (save_call e) app saved,
                save_call_lem e app nodes (filter taken (save_nodes answers e app).0),
              )
              (save_nodes-IsBetween (rw (named, saved) at thrown))
      ]
    ]
