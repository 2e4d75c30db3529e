-- ===== src/Catalog/Users/Roles.antt =====
-- What the page of users in web/src/features/catalog/index.tsx asks the hub for.
use cadentra.Prelude.{
  ◌≡◌, refl, inl, inr, List, [], ◌∷◌, true, truthy, All, All-append, arith, Bool-cases, and-eq-true,
}
use cadentra.Catalog.Users.{
  Call, post_user, put_role, Page, init, disabled, is_role, Event, press_toggle, change_username,
  change_password, select_role, press_create, created, create_failed, set_user_role, role_set,
  role_failed, listed, on_success, press, shown, handle, step, run,
}

-- A new user has a name and a password, and every role is one that the hub knows.
abbrev pub IsOrderly : Call → Type 0
IsOrderly (post_user u) =
    (truthy u.username ≡ true) × (truthy u.password ≡ true) × (is_role u.role ≡ true)
IsOrderly (put_role path role) = is_role role ≡ true

pub record Inv (p : Page) : Type 0 where
  pub role : is_role p.form.role ≡ true
  pub orderly : All IsOrderly p.calls

press-Inv : (p : Page) → Inv p → Inv (press p)
unfolding press disabled
press-Inv p h = elim (Bool-cases (disabled p)) [
  | inl off ↦ rw off h
  | inr on ↦ rw on (record {
    role = h.role;
    orderly = All-append IsOrderly p.calls _ h.orderly (ground arith, tt);
  })
]

handle-Inv : (p : Page) (e : Event) → shown e p ≡ true → Inv p → Inv (handle p e)
unfolding handle shown on_success
handle-Inv p press_toggle on h = record { role = h.role; orderly = h.orderly }
handle-Inv p (change_username v) on h = record { role = h.role; orderly = h.orderly }
handle-Inv p (change_password v) on h = record { role = h.role; orderly = h.orderly }
handle-Inv p (select_role v) on h = record {
  role = (and-eq-true p.show_form (is_role v) on).1;
  orderly = h.orderly;
}
handle-Inv p press_create on h = press-Inv p h
handle-Inv p created on h = record { role = refl; orderly = h.orderly }
handle-Inv p (create_failed m) on h = record { role = h.role; orderly = h.orderly }
handle-Inv p (set_user_role u v) on h = record {
  role = h.role;
  orderly = All-append IsOrderly p.calls _ h.orderly (on, tt);
}
handle-Inv p role_set on h = record { role = h.role; orderly = h.orderly }
handle-Inv p (role_failed m) on h = record { role = h.role; orderly = h.orderly }
handle-Inv p (listed users) on h = record { role = h.role; orderly = h.orderly }

step-Inv : (p : Page) (e : Event) → Inv p → Inv (step p e)
unfolding step
step-Inv p e h = elim (Bool-cases (shown e p)) [
  | inl on ↦ rw on (handle-Inv p e on h)
  | inr off ↦ rw off h
]

run-Inv : (p : Page) (es : List Event) → Inv p → Inv (run p es)
unfolding run
run-Inv p [] h = h
run-Inv p (e ∷ es) h = run-Inv (step p e) es (step-Inv p e h)

-- Whatever the user does and however the hub answers, every user that the page asks the hub to create
-- has a name and a password that are not empty, and every role that it asks for is one of the three.
pub run-IsOrderly : (es : List Event) → All IsOrderly (run init es).calls
run-IsOrderly es = (run-Inv init es (record { role = refl; orderly = tt })).orderly
