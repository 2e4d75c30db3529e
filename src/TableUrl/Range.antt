-- ===== src/TableUrl/Range.antt =====
-- ensurePageInRange of web/src/hooks/use-table-url-state.ts, which the table calls when the number
-- of pages changes.
use cadentra.Prelude.{
  ℕ, ◌<◌, ◌≡◌, ◌≢◌, refl, ◌⊎◌, inl, inr, String, Option, none, some, ℤ, pos, true, false, not, ◌&&◌,
  leb_ℤ, ltb, Bool-cases, arith, if◌then◌else◌,
}
use cadentra.TableUrl.Config.{
  Value, number, SearchRecord, write, write_self, write_ne, Navigation, Keys,
}
use cadentra.TableUrl.Pagination.{number_or}

pub data ResetTo : Type 0 where
  first last : ResetTo

abbrev pub reset_page : ResetTo → ℕ → Option Value
reset_page first page_count = none
reset_page last page_count = some (number (pos page_count))

-- The page that is read from a record.
abbrev pub page_num : Keys → SearchRecord → ℤ
page_num k search = number_or (search k.page_key) k.default_page

-- `none` is a call that does not navigate.
pub ensure_page_in_range : Keys → SearchRecord → ℕ → ResetTo → Option Navigation
ensure_page_in_range k search page_count reset_to =
    if ltb 0 page_count && not (leb_ℤ (page_num k search) (pos page_count))
    then some (record {
      replace = true;
      search = λ prev. write k.page_key (reset_page reset_to page_count) prev;
    })
    else none

-- What a call may do. Without a navigation the page lay within the count, or there are no pages.
-- With one, the page lay beyond the count, the entry in the history is replaced, the new page
-- lies within the count, and no other key changes.
abbrev pub Ensures : Keys → SearchRecord → ℕ → Option Navigation → Type 0
Ensures k search page_count none =
    (page_count ≡ 0) ⊎ (leb_ℤ (page_num k search) (pos page_count) ≡ true)
Ensures k search page_count (some nav) =
    (0 < page_count)
    × (leb_ℤ (page_num k search) (pos page_count) ≡ false)
    × (nav.replace ≡ true)
    × (leb_ℤ (page_num k (nav.search search)) (pos page_count) ≡ true)
    × ((key : String) → key ≢ k.page_key → nav.search search key ≡ search key)

reset_page-le :
    (reset_to : ResetTo) (d : ℤ) (page_count : ℕ)
    → leb_ℤ d (pos page_count) ≡ true
    → leb_ℤ (number_or (reset_page reset_to page_count) d) (pos page_count) ≡ true
reset_page-le first d page_count fits = fits
reset_page-le last d page_count fits = ground arith

-- Where the default page is within a page count, a call with that count does what `Ensures` lists.
pub ensure_page_in_range-Ensures :
    (k : Keys) (r : SearchRecord) (page_count : ℕ) (reset_to : ResetTo)
    → leb_ℤ k.default_page (pos page_count) ≡ true
    → Ensures k r page_count (ensure_page_in_range k r page_count reset_to)
unfolding ensure_page_in_range
ensure_page_in_range-Ensures k r page_count reset_to fits =
    elim (Bool-cases (ltb 0 page_count && not (leb_ℤ (page_num k r) (pos page_count)))) [
      | inl out ↦
          rw (out, write_self)
            (
              ground arith,
              ground arith,
              refl,
              reset_page-le reset_to k.default_page page_count fits,
              λ key other. write_ne k.page_key key _ r other,
            )
      | inr within ↦ rw within (ground arith)
    ]
