-- ===== src/Catalog/Lists/Deletion.antt =====
-- Deleting a row of a list of web/src/features/catalog/index.tsx, with the dialog that
-- DangerMenuItem of web/src/features/shared/ui.tsx shows.
use cadentra.Prelude.{
  ℕ, ◌≡◌, refl, ap, ◌∙◌, String, Option, none, some, List, [], ◌∷◌, Bool, true, false, ◌==◌, filter,
  nat_eq, arith, eq_iff, if◌then◌else◌,
}
use cadentra.Catalog.Lists.{
  Page, opens, confirms, becomes, fetches, nth_row, settle, set_open, row_at, delete_row,
  open_dialog, confirm, delete_step, delete_run,
}

module _ {R : Type 0} (id : R → String) where
  -- The row with an id.
  abbrev pub find_row : String → List R → Option R
  find_row key [] = none
  find_row key (x ∷ xs) = if id x == key then some x else find_row key xs

  find_row-delete_row :
      (key other : String) (rows : List R)
      → find_row other (delete_row id key rows)
        ≡ (if key == other then none else find_row other rows)
  unfolding delete_row filter
  find_row-delete_row key other [] = ground arith
  find_row-delete_row key other (x ∷ xs) = ground (
    arith,
    eq_iff (id x) key,
    eq_iff (id x) other,
    eq_iff key other,
    find_row-delete_row key other xs,
  )

  open_at :
      (i : ℕ) (r : R) (p : Page R)
      → row_at i p ≡ some r
      → delete_step id p (opens i) ≡ set_open i true p
  unfolding delete_step open_dialog
  open_at i r p e = ap (λ o. open_dialog id i o p) e

  same_index : (i : ℕ) → nat_eq i i ≡ true
  same_index i = ground arith

  confirm_refused :
      (i : ℕ) (o : Option R) (accepted : Bool) (p : Page R)
      → p.opened i ≡ false
      → confirm id i o accepted p ≡ p
  unfolding confirm
  confirm_refused i none accepted p e = refl
  confirm_refused i (some r) accepted p e =
      ap (λ b. if b then set_open i false (settle accepted (delete_row id (id r) p.hub) p) else p) e

  confirm-some :
      (i : ℕ) (r : R) (p : Page R)
      → p.opened i ≡ true
      → confirm id i (some r) true p ≡ set_open i false (settle true (delete_row id (id r) p.hub) p)
  unfolding confirm
  confirm-some i r p e =
      ap (λ b. if b then set_open i false (settle true (delete_row id (id r) p.hub) p) else p) e

  -- The page before the button of the dialog is pressed.
  abbrev before_confirm : ℕ → List R → Page R → Page R
  before_confirm i hub p = record p {
    opened = (set_open i true p).opened;
    hub = hub;
    rows = some hub;
    stale = false;
  }

  opened_there : (i : ℕ) (hub : List R) (p : Page R) → (before_confirm i hub p).opened i ≡ true
  unfolding set_open
  opened_there i hub p = rw (same_index i) refl

  run-eq :
      (i : ℕ) (r₀ r : R) (hub : List R) (p : Page R)
      → row_at i p ≡ some r₀
      → nth_row i hub ≡ some r
      → delete_run id p (opens i ∷ becomes hub ∷ fetches ∷ confirms i true ∷ fetches ∷ [])
        ≡ delete_step id
            (set_open i false (settle true (delete_row id (id r) hub) (before_confirm i hub p)))
            fetches
  unfolding delete_run delete_step
  run-eq i r₀ r hub p before now =
      ap (λ q. delete_run id q (becomes hub ∷ fetches ∷ confirms i true ∷ fetches ∷ []))
        (open_at i r₀ p before)
      ∙ ap (λ q. delete_step id q fetches)
          (ap (λ o. confirm id i o true (before_confirm i hub p)) now
            ∙ confirm-some i r (before_confirm i hub p) (opened_there i hub p))

  -- Deleting by the dialog at a place of a list: what is deleted is the row that stands at that place
  -- in the list as it was fetched last, also where the list has changed since the dialog was opened.
  -- Once the hub has deleted it and the list is fetched again, the list shows what the hub has: no row
  -- with that id, and every other row that the hub had; the dialog is closed. Without an open dialog
  -- its button does nothing.
  pub delete_run-deletes :
      (p : Page R) (i : ℕ) (r₀ r : R) (hub : List R)
      → row_at i p ≡ some r₀
      → nth_row i hub ≡ some r
      → let q =
          delete_run id p (opens i ∷ becomes hub ∷ fetches ∷ confirms i true ∷ fetches ∷ []) in
        (q.rows ≡ some q.hub)
        × ((key : String) → find_row key q.hub ≡ (if id r == key then none else find_row key hub))
        × (q.opened i ≡ false)
        × ((accepted : Bool) → delete_step id q (confirms i accepted) ≡ q)
  unfolding delete_step set_open settle delete_run
  delete_run-deletes p i r₀ r hub before now =
      let e = run-eq i r₀ r hub p before now in
      let shut = ap (λ (q : Page R). q.opened i) e ∙ rw (same_index i) refl in
      let q = delete_run id p (opens i ∷ becomes hub ∷ fetches ∷ confirms i true ∷ fetches ∷ []) in
      (
        refl,
        (λ key. ap (λ (q : Page R). find_row key q.hub) e ∙ find_row-delete_row (id r) key hub),
        shut,
        (λ accepted. confirm_refused i (row_at i q) accepted q shut),
      )
