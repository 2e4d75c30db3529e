-- ===== src/Catalog/Lists/Toggle.antt =====
-- Switching a row on and off in the lists of web/src/features/catalog/index.tsx and
-- web/src/features/tasks/index.tsx.
use Prim.Native.Nat.{suc}
use cadentra.Prelude.{
  ℕ, ◌≡◌, refl, ap, ◌∙◌, String, Option, none, some, List, [], ◌∷◌, map, Bool, true, false, not,
  ◌==◌, get_or, arith, eq_iff, eq_refl, Bool-cases, inl, inr, if-either, if◌then◌else◌,
}
use cadentra.Catalog.Lists.{
  Row, Page, toggles, fetches, nth_row, toggled, put_row, settle, toggle, row_at, step, run,
}

abbrev is_there : Option Bool → Bool → Option Bool
is_there none b = none
is_there (some c) b = some b

-- The switch of the row with an id.
abbrev pub switch : {R : Type 0} → Row R → String → List R → Option Bool
switch row id [] = none
switch row id (x ∷ xs) = if row.id x == id then some (row.enabled x) else switch row id xs

module _ {R : Type 0} (row : Row R) (stored : R → R)
    (stored_id : (r : R) → row.id (stored r) ≡ row.id r)
    (stored_enabled : (r : R) → row.enabled (stored r) ≡ row.enabled r) where
  stored_in : R → R → R
  stored_in r x = if row.id x == row.id r then stored r else x

  stored_in-id : (r x : R) → row.id (stored_in r x) ≡ row.id x
  unfolding stored_in
  stored_in-id r x = elim (Bool-cases (row.id x == row.id r)) [
    | inl same ↦ rw same (stored_id r ∙ ground (arith, eq_iff (row.id x) (row.id r)))
    | inr other ↦ rw other refl
  ]

  stored_in-enabled :
      (r x : R)
      → row.enabled (stored_in r x)
        ≡ (if row.id x == row.id r then row.enabled r else row.enabled x)
  unfolding stored_in
  stored_in-enabled r x = elim (Bool-cases (row.id x == row.id r)) [
    | inl same ↦ rw same (stored_enabled r)
    | inr other ↦ rw other refl
  ]

  ids-put_row : (r : R) (rows : List R) → map row.id (put_row row stored r rows) ≡ map row.id rows
  unfolding put_row stored_in
  ids-put_row r [] = refl
  ids-put_row r (x ∷ xs) = rw (stored_in-id r x, ids-put_row r xs) refl

  -- Of two tests on the same texts and the two switches.
  choice :
      (r x : R) (id : String) (rest rest' : Option Bool)
      → rest ≡ (if id == row.id r then is_there rest' (row.enabled r) else rest')
      → (if row.id x == id
          then some (if row.id x == row.id r then row.enabled r else row.enabled x)
          else rest)
        ≡ (if id == row.id r
            then is_there (if row.id x == id then some (row.enabled x) else rest') (row.enabled r)
            else if row.id x == id
            then some (row.enabled x)
            else rest')
  choice r x id rest rest' h =
      ground (arith, h, eq_iff (row.id x) id, eq_iff (row.id x) (row.id r), eq_iff id (row.id r))

  switch-put_row :
      (r : R) (id : String) (rows : List R)
      → switch row id (put_row row stored r rows) ≡ (
          if id == row.id r
          then is_there (switch row id rows) (row.enabled r)
          else switch row id rows)
  unfolding put_row stored_in
  switch-put_row r id [] = if-either (λ (o : Option Bool). none ≡ o) (id == row.id r) refl refl
  switch-put_row r id (x ∷ xs) =
      rw (stored_in-id r x, stored_in-enabled r x)
        (choice r x id _ (switch row id xs) (switch-put_row r id xs))

  -- A row of a fresh list that is the first with its id.
  abbrev pub IsFirst : R → Page R → Type 0
  IsFirst r p = (p.rows ≡ some p.hub) × (switch row (row.id r) p.hub ≡ some (row.enabled r))

  toggled-id : (r : R) → row.id (toggled row stored r) ≡ row.id r
  unfolding toggled
  toggled-id r = row.id-with_enabled (not (row.enabled r)) r

  toggled-enabled : (r : R) → row.enabled (toggled row stored r) ≡ not (row.enabled r)
  unfolding toggled
  toggled-enabled r = row.enabled-with_enabled (not (row.enabled r)) r

  toggle-hub :
      (r : R) (p : Page R)
      → (toggle row stored (some r) true p).hub ≡ put_row row stored (toggled row stored r) p.hub
  unfolding toggle settle
  toggle-hub r p = refl

  toggle_refused :
      (r : R) (p : Page R) → toggle row stored (some r) false p ≡ record p { errors = suc p.errors }
  unfolding toggle settle
  toggle_refused r p = refl

  switch-toggled :
      (r : R) (id : String) (rows : List R)
      → switch row (row.id r) rows ≡ some (row.enabled r)
      → switch row id (put_row row stored (toggled row stored r) rows)
        ≡ (if id == row.id r then some (not (row.enabled r)) else switch row id rows)
  switch-toggled r id rows h =
      switch-put_row (toggled row stored r) id rows
      ∙ rw (toggled-id r, toggled-enabled r)
          (elim (Bool-cases (id == row.id r)) [
            | inl same ↦
                let here : id ≡ row.id r = ground (arith, eq_iff id (row.id r)) in
                rw (here, eq_refl (row.id r), h) refl
            | inr other ↦ rw other refl
          ])

  -- Switching the row at a place of a list that shows what the hub has, once the hub has taken it and
  -- the list is fetched again: the list shows what the hub has then, the same rows in the same order;
  -- the row's switch has changed sides and the switch of every row with another id is as before. Where
  -- the hub refuses, nothing changes but a message is shown.
  pub run-toggles :
      (p : Page R) (i : ℕ) (r : R)
      → nth_row i p.hub ≡ some r
      → IsFirst r p
      → let q = run row stored p (toggles i true ∷ fetches ∷ []) in
        (q.rows ≡ some q.hub)
        × (q.stale ≡ false)
        × (map row.id q.hub ≡ map row.id p.hub)
        × ((id : String)
            → switch row id q.hub
              ≡ (if id == row.id r then some (not (row.enabled r)) else switch row id p.hub))
        × (step row stored p (toggles i false) ≡ record p { errors = suc p.errors })
  unfolding run step
  run-toggles p i r there first =
      let found : row_at i p ≡ some r = ap (λ o. nth_row i (get_or o [])) first.0 ∙ there in
      let hub = ap (λ o. (toggle row stored o true p).hub) found ∙ toggle-hub r p in
      (
        refl,
        refl,
        ap (map row.id) hub ∙ ids-put_row (toggled row stored r) p.hub,
        (λ id. ap (switch row id) hub ∙ switch-toggled r id p.hub first.1),
        ap (λ o. toggle row stored o false p) found ∙ toggle_refused r p,
      )
