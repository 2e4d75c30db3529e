-- ===== src/Catalog/NodeApplications/Saved.antt =====
-- What the pages of the nodes (web/src/features/catalog/index.tsx) list after the application editor
-- (web/src/features/editors/index.tsx) has saved.
use Prim.Native.String
use cadentra.Prelude.{
  ◌≡◌, refl, ap, ◌∙◌, sym, String, Option, some, List, [], ◌∷◌, Bool, false, ◌==◌, filter,
  filter-ext, includes, if◌then◌else◌, Bool-cases, inl, inr, arith, eq_iff, append-nil, get_or,
  truthy, subst,
}
use cadentra.Api.{Application}
use cadentra.Editors.Draft.{form}
use cadentra.Editors.Application.Form.{Editor, selected_nodes}
use cadentra.Editors.Application.Save.{
  Call, assign, unassign, Answers, Act, send, send_nodes, ◌>>◌, save_nodes, save_call, pure,
  removed_nodes, save,
}
use cadentra.Editors.Application.Assignment.{
  assigned_after, assigned_after-append, assigned_after_call, >>=-eq-some, IsCurrent, save_call_lem,
  save-assigned,
}
use cadentra.Catalog.Desired.{desired_applications}
use cadentra.Catalog.Agreement.State.{desired_applications-page}
use cadentra.Catalog.NodeApplications.{is_assigned, node_applications}

module _ (answers : Answers) (app x : String) (other : (app == x) ≡ false) where
  assign_other :
      (nodes ns : List String)
      → assigned_after x nodes (send_nodes answers (assign app) ns).0 ≡ nodes
  unfolding assigned_after assigned_after_call
  assign_other nodes [] = refl
  assign_other nodes (n ∷ ns) = rw other refl

  unassign_other :
      (nodes ns : List String)
      → assigned_after x nodes (send_nodes answers (unassign app) ns).0 ≡ nodes
  unfolding assigned_after assigned_after_call
  unassign_other nodes [] = refl
  unassign_other nodes (n ∷ ns) = rw other refl

  save_nodes_other :
      (e : Editor) (nodes : List String) (page : String)
      → (save_nodes answers e app).1 ≡ some (some page)
      → assigned_after x nodes (save_nodes answers e app).0 ≡ nodes
  unfolding save_nodes
  save_nodes_other e nodes page saved =
      let added = send_nodes answers (assign app) (selected_nodes e) in
      let dropped = send_nodes answers (unassign app) (removed_nodes e) in
      let done : Act (Option String) = pure (some (String.◌++◌ "/applications/" app)) in
      let (a, _, rest, split) = >>=-eq-some added (λ _. dropped >> done) saved in
      let (b, _, ended, split') = >>=-eq-some dropped (λ _. done) rest in
      rw
        (
          split,
          split',
          append-nil dropped.0,
          assigned_after-append x nodes added.0 dropped.0,
          assign_other nodes (selected_nodes e),
        )
        (unassign_other nodes (removed_nodes e))

-- A save that ends with a page leaves the assignments of every other application as they are.
save_other :
    (answers : Answers) (e : Editor) (app x page : String) (nodes : List String)
    → answers (save_call e) ≡ some app
    → (app == x) ≡ false
    → (save answers e).1 ≡ some (some page)
    → assigned_after x nodes (save answers e).0 ≡ nodes
unfolding save
save_other answers e app x page nodes taken other saved =
    elim (Bool-cases (truthy (get_or (form e.fields).name ""))) [
      | inl named ↦
          let (app', answered, rest, split) =
            >>=-eq-some (send answers (save_call e)) (save_nodes answers e) (rw named at saved) in
          let same : app ≡ app' = ap (λ o. get_or o "") (sym taken ∙ answered) in
          rw (named, split, save_call_lem e x nodes (save_nodes answers e app').0)
            (save_nodes_other answers app' x (subst (λ y. (y == x) ≡ false) same other) e nodes page
              rest)
      | inr unnamed ↦ absurd (ground arith)
    ]

-- The hub's assignments after the requests, from those in `hub`, by the application.
abbrev pub hub_after : (String → List String) → List Call → String → Option (List String)
hub_after hub cs x = some (assigned_after x (hub x) cs)

-- Is the application on the node's page? The saved one is by the selection, any other as before.
abbrev pub is_expected : (String → List String) → Editor → String → String → Application → Bool
is_expected hub e app id a =
    if app == a.id then includes (selected_nodes e) id else includes (hub a.id) id

-- Where the application editor knows the hub's current assignments of the application that is saved,
-- and no request of the save fails, the page of every node lists afterwards, of all applications in
-- their order, the saved one exactly if the node is selected, and any other one exactly if it was
-- assigned to the node before; and these are the applications that the hub sends to the node.
pub node_applications-save :
    (answers : Answers) (e : Editor) (hub : String → List String) (app page : String)
    → answers (save_call e) ≡ some app
    → IsCurrent e (hub app)
    → (save answers e).1 ≡ some (some page)
    → (id : String) (all : List Application)
    → (node_applications (hub_after hub (save answers e).0) id (some all)
        ≡ some (filter (is_expected hub e app id) all))
      × (desired_applications (hub_after hub (save answers e).0) id all
          ≡ filter (is_expected hub e app id) all)
unfolding node_applications is_assigned
node_applications-save answers e hub app page taken current saved id all =
    let (app', answered, _, same) = save-assigned answers e (hub app) page current saved in
    let eq : app' ≡ app = ap (λ o. get_or o "") (sym answered ∙ taken) in
    let listed : filter (is_assigned (hub_after hub (save answers e).0) id) all
        ≡ filter (is_expected hub e app id) all =
      filter-ext _ _ all λ (a : Application). elim (Bool-cases (app == a.id)) [
        | inl saved_one ↦
            let cs = (save answers e).0 in
            rw saved_one (
              subst
                (λ y. includes (assigned_after y (hub y) cs) id ≡ includes (selected_nodes e) id)
                ((eq_iff app a.id).0 saved_one)
                (subst
                  (λ y.
                    includes (assigned_after y (hub app) cs) id ≡ includes (selected_nodes e) id)
                  eq (same id)))
        | inr other ↦
            rw (other, save_other answers e app a.id page (hub a.id) taken other saved) refl
      ] in
    (ap some listed, desired_applications-page (hub_after hub (save answers e).0) id all ∙ listed)
