-- ===== src/TableUrl/Pagination.antt =====
-- pagination, onPaginationChange and ensurePageInRange of
-- web/src/hooks/use-table-url-state.ts.
use cadentra.Prelude.{
  ℕ, ◌+◌, max, ◌≡◌, ◌≢◌, Option, none, some, ℤ, pos, false, if◌then◌else◌, leb_ℤ, int_eq, int_eq→eq,
  sub_ℕ, pos_part, neg_part, arith,
}
use cadentra.TableUrl.Config.{
  Value, number, text, array, SearchRecord, write, write_self, write_ne, Navigation, Updater,
  updated, Keys,
}

pub record PaginationState : Type 0 where
  pub page_index : ℕ
  pub page_size : ℤ

-- typeof raw === 'number' ? raw : d
abbrev pub number_or : Option Value → ℤ → ℤ
number_or (some (number n)) d = n
number_or (some (text s)) d = d
number_or (some (array a)) d = d
number_or none d = d

-- Math.max(0, n - 1)
abbrev pub index_of : ℤ → ℕ
index_of n = pos_part (sub_ℕ (pos_part n) (neg_part n + 1))

pub pagination : Keys → SearchRecord → PaginationState
pagination k search = record {
  page_index = index_of (number_or (search k.page_key) k.default_page);
  page_size = number_or (search k.page_size_key) k.default_page_size;
}

pub on_pagination_change : Keys → SearchRecord → Updater PaginationState → Navigation
unfolding pagination
on_pagination_change k search updater =
    let next = updated updater (pagination k search) in
    let next_page = pos (next.page_index + 1) in
    record {
      replace = false;
      search = λ prev.
          write k.page_size_key
            (if int_eq next.page_size k.default_page_size
              then none
              else some (number next.page_size))
            (write k.page_key
              (if leb_ℤ next_page k.default_page then none else some (number next_page)) prev);
    }

-- The two values that are written come back, for any choice `next`.
read_back :
    (k : Keys) (prev : SearchRecord) (next : PaginationState)
    → k.page_key ≢ k.page_size_key
    → pagination k (
        write k.page_size_key
          (if int_eq next.page_size k.default_page_size then none else some (number next.page_size))
          (write k.page_key
            (if leb_ℤ (pos (next.page_index + 1)) k.default_page
              then none
              else some (number (pos (next.page_index + 1))))
            prev))
      ≡ record {
        page_index = max next.page_index (index_of k.default_page);
        page_size = next.page_size;
      }
unfolding pagination
read_back k prev next distinct =
    rw (write_self, write_ne _ k.page_key _ _ distinct, write_self)
      (ground (arith, int_eq→eq next.page_size k.default_page_size))

-- Where the page and the page size have different keys, reading the page back after a change gives
-- the chosen page, but for a page below the default one, in whose place the default page is read; the
-- page size comes back as it was chosen.
pub pagination-on_pagination_change :
    (k : Keys) (search prev : SearchRecord) (u : Updater PaginationState)
    → k.page_key ≢ k.page_size_key
    → pagination k ((on_pagination_change k search u).search prev) ≡ record {
      page_index = max (updated u (pagination k search)).page_index (index_of k.default_page);
      page_size = (updated u (pagination k search)).page_size;
    }
unfolding pagination on_pagination_change
pagination-on_pagination_change k search prev u distinct =
    read_back k prev (updated u (pagination k search)) distinct
