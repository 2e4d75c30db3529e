-- ===== src/Editors/Application/Assignment.antt =====
-- What a saved application is assigned to: `save` of web/src/features/editors/index.tsx against the
-- table of assignments that the hub keeps (internal/hub/application.go, Assign).
use Prim.Native.String
use cadentra.Prelude.{
  ◌≡◌, refl, ◌⊎◌, inl, inr, String, Option, none, some, List, [], ◌∷◌, ◌++◌, true, false, not, ◌&&◌,
  ◌||◌, ◌==◌, get_or, truthy, filter, includes, append-nil, includes-append, includes-filter,
  if◌then◌else◌, arith, eq_refl, Bool-cases, Option-cases,
}
use cadentra.Editors.Draft.{form}
use cadentra.Editors.Application.Form.{Editor, selected_nodes}
use cadentra.Editors.Application.Save.{
  Call, put_application, post_application, assign, unassign, post_deploy, Answers, Act, send,
  send_nodes, ◌>>=◌, ◌>>◌, save_nodes, save_call, pure, is_editing, removed_nodes, save,
}

-- INSERT OR IGNORE for each node, and DELETE for each node, on the nodes of application `app`.
unfoldable pub assigned_after_call : String → List String → Call → List String
unfolding filter includes
assigned_after_call app nodes (assign id ns) = if id == app then nodes ++ ns else nodes
assigned_after_call app nodes (unassign id ns) =
    if id == app then filter (λ n. not (includes ns n)) nodes else nodes
assigned_after_call app nodes (put_application id f) = nodes
assigned_after_call app nodes (post_application f) = nodes
assigned_after_call app nodes (post_deploy id ns op) = nodes

unfoldable pub assigned_after : String → List String → List Call → List String
unfolding assigned_after_call
assigned_after app nodes [] = nodes
assigned_after app nodes (c ∷ cs) = assigned_after app (assigned_after_call app nodes c) cs

pub assigned_after-append :
    (app : String) (nodes : List String) (cs ds : List Call)
    → assigned_after app nodes (cs ++ ds) ≡ assigned_after app (assigned_after app nodes cs) ds
unfolding assigned_after
assigned_after-append app nodes [] ds = refl
assigned_after-append app nodes (c ∷ cs) ds =
    assigned_after-append app (assigned_after_call app nodes c) cs ds

-- The requests for the nodes, once the application itself is saved as `app`.
module _ (answers : Answers) (app : String) where
  pub after_assign :
      (nodes ns : List String) (n : String)
      → includes (assigned_after app nodes (send_nodes answers (assign app) ns).0) n
        ≡ (includes nodes n || includes ns n)
  unfolding assigned_after assigned_after_call includes
  after_assign nodes [] n = ground arith
  after_assign nodes (m ∷ ns) n = rw (eq_refl app) (includes-append nodes (m ∷ ns) n)

  pub after_unassign :
      (nodes ns : List String) (n : String)
      → includes (assigned_after app nodes (send_nodes answers (unassign app) ns).0) n
        ≡ (includes nodes n && not (includes ns n))
  unfolding assigned_after assigned_after_call includes
  after_unassign nodes [] n = ground arith
  after_unassign nodes (m ∷ ns) n =
      rw (eq_refl app) (includes-filter (λ k. not (includes (m ∷ ns) k)) nodes n)

-- What a chain that ends with a value has done.
pub >>=-eq-some :
    {A B : Type 0} (m : Act A) (f : A → Act B) {b : B}
    → (m >>= f).1 ≡ some b
    → (a : A) × (m.1 ≡ some a) × ((f a).1 ≡ some b) × ((m >>= f).0 ≡ m.0 ++ (f a).0)
>>=-eq-some (cs, none) f h = cc
>>=-eq-some (cs, some a) f h = (a, refl, h, refl)

-- The hub's assignments before the save, as the editor knows them: those that the query has
-- brought, or none for an application that is new.
abbrev pub IsCurrent : Editor → List String → Type 0
IsCurrent e nodes =
    ((is_editing e.id ≡ true) × (e.assigned ≡ some nodes))
    ⊎ ((is_editing e.id ≡ false) × (nodes ≡ []))

pub removed_nodes_lem :
    (e : Editor) (nodes : List String) (n : String)
    → IsCurrent e nodes
    → ((includes nodes n || includes (selected_nodes e) n) && not (includes (removed_nodes e) n))
      ≡ includes (selected_nodes e) n
unfolding includes
removed_nodes_lem e nodes n (inl (old, known)) =
    rw (known, old)
      (ground
        (arith, includes-filter (λ k. not (includes (get_or e.selected_draft nodes) k)) nodes n))
removed_nodes_lem e nodes n (inr (new, none_yet)) = elim (Option-cases e.assigned) [
  | inl unknown ↦ rw (none_yet, unknown) (ground arith)
  | inr (ids, known) ↦ rw (none_yet, known, new) (ground arith)
]

save_nodes_lem :
    (answers : Answers) (e : Editor) (nodes : List String) (app page : String)
    → IsCurrent e nodes
    → (save_nodes answers e app).1 ≡ some (some page)
    → (page ≡ String.◌++◌ "/applications/" app)
      × ((n : String)
          → includes (assigned_after app nodes (save_nodes answers e app).0) n
            ≡ includes (selected_nodes e) n)
unfolding save_nodes
save_nodes_lem answers e nodes app page current saved =
    let added = send_nodes answers (assign app) (selected_nodes e) in
    let dropped = send_nodes answers (unassign app) (removed_nodes e) in
    let done : Act (Option String) = pure (some (String.◌++◌ "/applications/" app)) in
    let (a, _, rest, split) = >>=-eq-some added (λ _. dropped >> done) saved in
    let (b, _, ended, split') = >>=-eq-some dropped (λ _. done) rest in
    (
      cc,
      λ n.
          rw
            (
              split,
              split',
              append-nil dropped.0,
              assigned_after-append app nodes added.0 dropped.0,
              after_unassign answers app (assigned_after app nodes added.0) (removed_nodes e) n,
              after_assign answers app nodes (selected_nodes e) n,
            )
            (removed_nodes_lem e nodes n current),
    )

pub save_call_lem :
    (e : Editor) (app : String) (nodes : List String) (cs : List Call)
    → assigned_after app nodes (save_call e ∷ cs) ≡ assigned_after app nodes cs
unfolding assigned_after assigned_after_call
save_call_lem e app nodes cs = elim (Bool-cases (is_editing e.id)) [
  | inl old ↦ rw old
  | inr new ↦ rw new
]

-- Where the editor's knowledge of the assignments is current and no request fails, a save leaves
-- the application, under the id that the hub has answered, assigned to exactly the nodes that are
-- selected, and opens its page.
pub save-assigned :
    (answers : Answers) (e : Editor) (nodes : List String) (page : String)
    → IsCurrent e nodes
    → (save answers e).1 ≡ some (some page)
    → (app : String) × (answers (save_call e) ≡ some app)
      × (page ≡ String.◌++◌ "/applications/" app)
      × ((n : String)
          → includes (assigned_after app nodes (save answers e).0) n
            ≡ includes (selected_nodes e) n)
unfolding save
save-assigned answers e nodes page current saved =
    elim (Bool-cases (truthy (get_or (form e.fields).name ""))) [
      | inl named ↦
          let (app, answered, rest, split) =
            >>=-eq-some (send answers (save_call e)) (save_nodes answers e) (rw named at saved) in
          let (opened, same) = save_nodes_lem answers e nodes app page current rest in
          (
            app,
            answered,
            opened,
            λ n. rw (named, split, save_call_lem e app nodes (save_nodes answers e app).0) (same n),
          )
      | inr unnamed ↦ absurd (ground arith)
    ]
