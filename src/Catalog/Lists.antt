-- ===== src/Catalog/Lists.antt =====
-- The lists of scripts, schedules, groups, applications and artifacts
-- (web/src/features/catalog/index.tsx) and of tasks (web/src/features/tasks/index.tsx): a cached
-- answer of the hub, whose rows are deleted and, in some lists, switched on and off by requests of
-- their own.
pub mod Rows
pub mod Toggle
pub mod Deletion
use Prim.Native.Nat.{zero, suc}
use cadentra.Prelude.{
  ℕ, ◌≡◌, String, Option, none, some, List, [], ◌∷◌, map, Bool, true, false, not, ◌==◌, filter,
  nat_eq, get_or, if◌then◌else◌,
}

-- A row with a switch: its id, and the switch with the laws of an object's member.
pub record Row (R : Type 0) : Type 0 where
  pub id : R → String
  pub enabled : R → Bool
  pub with_enabled : Bool → R → R
  pub id-with_enabled : (b : Bool) (r : R) → id (with_enabled b r) ≡ id r
  pub enabled-with_enabled : (b : Bool) (r : R) → enabled (with_enabled b r) ≡ b

-- The page: `rows` is query.data, and `stale` is set by invalidateQueries until the query is answered
-- again. `opened` says at which places of `rows` the dialog for deletion is open: the table has no
-- getRowId, so that the rows' components are told apart by their places. `hub` is what the hub has,
-- and `errors` counts the messages of failed requests.
pub record Page (R : Type 0) : Type 0 where
  pub rows : Option (List R)
  pub stale : Bool
  pub opened : ℕ → Bool
  pub hub : List R
  pub errors : ℕ

-- `becomes` is a change by someone else.
pub data Event (R : Type 0) : Type 0 where
  toggles : (row : ℕ) (accepted : Bool) → Event R
  opens : (row : ℕ) → Event R
  closes : (row : ℕ) → Event R
  confirms : (row : ℕ) (accepted : Bool) → Event R
  becomes : List R → Event R
  fetches : Event R

unfoldable pub nth_row : {R : Type 0} → ℕ → List R → Option R
nth_row n [] = none
nth_row zero (x ∷ xs) = some x
nth_row (suc n) (x ∷ xs) = nth_row n xs

-- onSuccess and onError of the mutations
unfoldable pub settle : {R : Type 0} → Bool → List R → Page R → Page R
settle true hub p = record p { hub = hub; stale = true }
settle false hub p = record p { errors = suc p.errors }

-- setOpen
unfoldable pub set_open : {R : Type 0} → ℕ → Bool → Page R → Page R
set_open i b p = record p { opened = λ j. if nat_eq i j then b else p.opened j }

abbrev pub row_at : {R : Type 0} → ℕ → Page R → Option R
row_at i p = nth_row i (get_or p.rows [])

module _ {R : Type 0} (id : R → String) where
  -- DELETE of the row's path, in the hub.
  unfoldable pub delete_row : String → List R → List R
  delete_row key rows = filter (λ x. not (id x == key)) rows

  unfoldable pub open_dialog : ℕ → Option R → Page R → Page R
  unfolding set_open
  open_dialog i none p = p
  open_dialog i (some r) p = set_open i true p

  -- handleConfirm: onSelect() and setOpen(false). The button is there only in an open dialog.
  unfoldable pub confirm : ℕ → Option R → Bool → Page R → Page R
  unfolding settle delete_row set_open
  confirm i none accepted p = p
  confirm i (some r) accepted p =
      if p.opened i then set_open i false (settle accepted (delete_row (id r) p.hub) p) else p

  -- A list without switches.
  unfoldable pub delete_step : Page R → Event R → Page R
  unfolding open_dialog set_open confirm
  delete_step p (toggles i accepted) = p
  delete_step p (opens i) = open_dialog i (row_at i p) p
  delete_step p (closes i) = set_open i false p
  delete_step p (confirms i accepted) = confirm i (row_at i p) accepted p
  delete_step p (becomes hub) = record p { hub = hub }
  delete_step p fetches = record p { rows = some p.hub; stale = false }

  unfoldable pub delete_run : Page R → List (Event R) → Page R
  unfolding delete_step
  delete_run p [] = p
  delete_run p (e ∷ es) = delete_run (delete_step p e) es

-- `stored` is what the hub makes of a row that it is sent (it counts revisions and notes the time).
module _ {R : Type 0} (row : Row R) (stored : R → R) where
  -- { ...row, enabled: !row.enabled }
  unfoldable pub toggled : R → R
  toggled r = row.with_enabled (not (row.enabled r)) r

  -- PUT of the row's path, in the hub.
  unfoldable pub put_row : R → List R → List R
  put_row r rows = map (λ x. if row.id x == row.id r then stored r else x) rows

  unfoldable pub toggle : Option R → Bool → Page R → Page R
  unfolding settle put_row toggled
  toggle none accepted p = p
  toggle (some r) accepted p = settle accepted (put_row (toggled r) p.hub) p

  unfoldable pub step : Page R → Event R → Page R
  unfolding toggle delete_step
  step p (toggles i accepted) = toggle (row_at i p) accepted p
  step p (opens i) = delete_step row.id p (opens i)
  step p (closes i) = delete_step row.id p (closes i)
  step p (confirms i accepted) = delete_step row.id p (confirms i accepted)
  step p (becomes hub) = delete_step row.id p (becomes hub)
  step p fetches = delete_step row.id p fetches

  unfoldable pub run : Page R → List (Event R) → Page R
  unfolding step
  run p [] = p
  run p (e ∷ es) = run (step p e) es
