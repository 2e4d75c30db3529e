-- ===== src/Pages.antt =====
-- web/src/lib/utils.ts: getPageNumbers, the buttons of a table's pager.
pub mod Laws
use cadentra.Prelude.{ℕ, zero, suc, ◌+◌, ◌-◌, List, [], ◌∷◌, ◌++◌, leb, if◌then◌else◌}

-- An entry of the array: a page's number, or the text '...'.
pub data PageItem : Type 0 where
  page : ℕ → PageItem
  ellipsis : PageItem

-- `n` rounds of `for (let i = ...) push(i)`.
pub pages_from : ℕ → ℕ → List PageItem
pages_from i zero = []
pages_from i (suc n) = page i ∷ pages_from (i + 1) n

-- for (let i = first; i <= last; i++) push(i)
pub page_loop : ℕ → ℕ → List PageItem
unfolding pages_from
page_loop first last = pages_from first (last + 1 - first)

abbrev pub max_visible_pages : ℕ
max_visible_pages = 5

pub get_page_numbers : ℕ → ℕ → List PageItem
unfolding page_loop
get_page_numbers current_page total_pages =
    if leb total_pages max_visible_pages
    then page_loop 1 total_pages
    else page 1
      ∷ (if leb current_page 3
          then page_loop 2 4 ++ ellipsis ∷ page total_pages ∷ []
          else if leb (total_pages - 2) current_page
          then ellipsis ∷ page_loop (total_pages - 3) total_pages
          else ellipsis ∷ page_loop (current_page - 1) (current_page + 1)
            ++ ellipsis ∷ page total_pages ∷ [])
