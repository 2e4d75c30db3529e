-- ===== src/Editors/Application/Completion.antt =====
-- What a save of web/src/features/editors/index.tsx comes to, if the hub answers every request.
use Prim.Native.String
use cadentra.Prelude.{
  ◌≡◌, ◌≢◌, ◌∙◌, eq_iff, refl, sym, ap, ◌⊎◌, inl, inr, String, none, some, List, [], ◌∷◌, true,
  get_or, truthy, includes, subst, arith, Bool-cases,
}
use cadentra.Editors.Draft.{form}
use cadentra.Editors.Application.Form.{Editor, selected_nodes}
use cadentra.Editors.Application.Save.{
  Call, put_application, post_application, assign, unassign, Answers, Act, send, send_nodes, ◌>>=◌,
  save_nodes, save_call, is_editing, removed_nodes, save,
}
use cadentra.Editors.Application.Assignment.{assigned_after, IsCurrent, save-assigned}

>>=-some :
    {A B : Type 0} (m : Act A) (f : A → Act B) {a : A} {b : B}
    → m.1 ≡ some a
    → (f a).1 ≡ some b
    → (m >>= f).1 ≡ some b
>>=-some (cs, none) f h k = cc
>>=-some (cs, some c) f {a} {b} h k =
    let same : a ≡ c = ap (λ o. get_or o c) (sym h) in subst (λ x. (f x).1 ≡ some b) same k

send_nodes_total :
    (answers : Answers) (call : List String → Call) (ns : List String)
    → ((c : Call) → (id : String) × (answers c ≡ some id))
    → (id : String) × ((send_nodes answers call ns).1 ≡ some id)
send_nodes_total answers call [] all = ("", refl)
send_nodes_total answers call (n ∷ ns) all = all (call (n ∷ ns))

-- The request that saves the application: a POST of the form for a new one, and else a PUT.
abbrev pub IsSave : Editor → Call → Type 0
IsSave e call =
    ((e.id ≡ "new") × (call ≡ post_application (form e.fields)))
    ⊎ ((e.id ≢ "new") × (call ≡ put_application e.id (form e.fields)))

save_call-IsSave : (e : Editor) → IsSave e (save_call e)
save_call-IsSave e = elim (Bool-cases (is_editing e.id)) [
  | inl old ↦ rw old (inr (ground (arith, eq_iff e.id "new"), refl))
  | inr new ↦ rw new (inl (ground (arith, eq_iff e.id "new"), refl))
]

save_ends :
    (answers : Answers) (e : Editor) (app : String)
    → truthy (get_or (form e.fields).name "") ≡ true
    → answers (save_call e) ≡ some app
    → ((c : Call) → (id : String) × (answers c ≡ some id))
    → (save answers e).1 ≡ some (some (String.◌++◌ "/applications/" app))
unfolding save save_nodes
save_ends answers e app named saved all =
    let (a, added) = send_nodes_total answers (assign app) (selected_nodes e) all in
    let (b, dropped) = send_nodes_total answers (unassign app) (removed_nodes e) all in
    rw named (
      >>=-some (send answers (save_call e)) (save_nodes answers e) saved (
        >>=-some (send_nodes answers (assign app) (selected_nodes e)) _ added
          (>>=-some (send_nodes answers (unassign app) (removed_nodes e)) _ dropped refl)))

save_sends :
    (answers : Answers) (e : Editor) (app : String)
    → truthy (get_or (form e.fields).name "") ≡ true
    → answers (save_call e) ≡ some app
    → (save answers e).0 ≡ save_call e ∷ (save_nodes answers e app).0
unfolding save
save_sends answers e app named saved = rw (named, saved) refl

-- If the hub answers every request, and the editor knows the hub's current assignments, a named
-- application is saved: the first request has the form, the save ends with opening the page of the
-- id that the hub has answered to it, and the application is then assigned to exactly the selected
-- nodes.
pub save_total :
    (answers : Answers) (e : Editor) (nodes : List String)
    → truthy (get_or (form e.fields).name "") ≡ true
    → IsCurrent e nodes
    → ((c : Call) → (id : String) × (answers c ≡ some id))
    → (call : Call) × (more : List Call) × (app : String) × ((save answers e).0 ≡ call ∷ more)
      × IsSave e call
      × (answers call ≡ some app)
      × ((save answers e).1 ≡ some (some (String.◌++◌ "/applications/" app)))
      × ((n : String)
          → includes (assigned_after app nodes (save answers e).0) n
            ≡ includes (selected_nodes e) n)
save_total answers e nodes named current all =
    let (app, saved) = all (save_call e) in
    let ends = save_ends answers e app named saved all in
    let (app', answered, _, same) =
      save-assigned answers e nodes (String.◌++◌ "/applications/" app) current ends in
    let eq : app' ≡ app = ap (λ o. get_or o "") (sym answered ∙ saved) in
    (
      save_call e,
      (save_nodes answers e app).0,
      app,
      save_sends answers e app named saved,
      save_call-IsSave e,
      saved,
      ends,
      λ n.
          subst
            (λ a.
              includes (assigned_after a nodes (save answers e).0) n
              ≡ includes (selected_nodes e) n)
            eq (same n),
    )
