-- ===== src/DataTable/Pagination.antt =====
-- web/src/components/data-table/pagination.tsx: the buttons below a table. The table itself is that
-- of @tanstack/react-table, an interface here.
pub mod Range
use cadentra.Prelude.{
  ℕ, ◌+◌, ◌-◌, ◌*◌, ◌/◌, ◌<◌, ◌≡◌, List, [], ◌∷◌, Bool, false, ◌||◌, ltb, nat_eq, if◌then◌else◌,
}
use cadentra.Pages.{PageItem, page, ellipsis, get_page_numbers}

pub record Table : Type 1 where
  pub State : Type 0
  pub page_index : State → ℕ
  pub page_size : State → ℕ
  pub row_count : State → ℕ
  pub page_count : State → ℕ
  pub can_previous : State → Bool
  pub can_next : State → Bool
  pub set_page_index : ℕ → State → State
  pub previous_page : State → State
  pub next_page : State → State
  pub set_page_size : ℕ → State → State

-- What the library documents: the pages are as many as the rows fill, an index among them is set as
-- it is given, and another size keeps the first row of the page in sight.
pub record IsLawful (T : Table) : Type 0 where
  pub counts : (s : T.State) → T.page_count s ≡ (T.row_count s + T.page_size s - 1) / T.page_size s
  pub can_previous_lem : (s : T.State) → T.can_previous s ≡ ltb 0 (T.page_index s)
  pub can_next_lem : (s : T.State) → T.can_next s ≡ ltb (T.page_index s + 1) (T.page_count s)
  pub sets : (i : ℕ) (s : T.State) → i < T.page_count s → T.page_index (T.set_page_index i s) ≡ i
  pub sets_page_alone :
      (i : ℕ) (s : T.State)
      → (T.page_size (T.set_page_index i s) ≡ T.page_size s)
        × (T.row_count (T.set_page_index i s) ≡ T.row_count s)
  pub goes_back : (s : T.State) → T.previous_page s ≡ T.set_page_index (T.page_index s - 1) s
  pub goes_on : (s : T.State) → T.next_page s ≡ T.set_page_index (T.page_index s + 1) s
  pub resizes :
      (n : ℕ) (s : T.State)
      → 0 < n
      → (T.page_size (T.set_page_size n s) ≡ n)
        × (T.row_count (T.set_page_size n s) ≡ T.row_count s)
        × (T.page_index (T.set_page_size n s) ≡ T.page_size s * T.page_index s / n)

pub data Press : Type 0 where
  presses_first presses_previous presses_next presses_last : Press
  presses_number : ℕ → Press
  chooses_size : ℕ → Press

-- Is there a button for page `p`?
abbrev pub has_button : ℕ → List PageItem → Bool
has_button p [] = false
has_button p (page q ∷ items) = nat_eq p q || has_button p items
has_button p (ellipsis ∷ items) = has_button p items

-- The sizes that can be chosen.
abbrev pub is_size : ℕ → Bool
is_size n = nat_eq n 10 || nat_eq n 20 || nat_eq n 30 || nat_eq n 40 || nat_eq n 50

module _ (T : Table) where
  open T use {
    State, page_index, page_count, can_previous, can_next, set_page_index, previous_page, next_page,
    set_page_size,
  }

  unfoldable pub page_numbers : State → List PageItem
  page_numbers s = get_page_numbers (page_index s + 1) (page_count s)

  unfoldable pub step : State → Press → State
  unfolding page_numbers
  step s presses_first = if can_previous s then set_page_index 0 s else s
  step s presses_previous = if can_previous s then previous_page s else s
  step s (presses_number p) = if has_button p (page_numbers s) then set_page_index (p - 1) s else s
  step s presses_next = if can_next s then next_page s else s
  step s presses_last = if can_next s then set_page_index (page_count s - 1) s else s
  step s (chooses_size n) = if is_size n then set_page_size n s else s

  unfoldable pub run : State → List Press → State
  unfolding step
  run s [] = s
  run s (e ∷ es) = run (step s e) es
