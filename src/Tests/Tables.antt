-- ===== src/Tests/Tables.antt =====
-- The pager and the table's address, web/src/lib/utils.ts and web/src/hooks/use-table-url-state.ts.
use cadentra.Prelude.{◌≡◌, refl, none, some, List, [], ◌∷◌, true, pos, max, ne-of_eq-false}
use cadentra.Pages.{get_page_numbers}
use cadentra.Pages.Laws.{Climbs, get_page_numbers-Climbs}
use cadentra.TableUrl.{
  Keys, number, text, array, SearchRecord, write, value, ColumnFilterParams, string_type,
}
use cadentra.TableUrl.Pagination.{
  PaginationState, pagination, on_pagination_change, pagination-on_pagination_change, index_of,
}
use cadentra.TableUrl.Range.{ResetTo, ensure_page_in_range, Ensures, ensure_page_in_range-Ensures}
use cadentra.TableUrl.Columns.{
  ColumnFilter, initial_column_filters, on_column_filters_change, effective_filters,
  initial_column_filters-on_column_filters_change,
}

get_page_numbers-Climbs_example : Climbs 10 0 (get_page_numbers 5 10)
get_page_numbers-Climbs_example = get_page_numbers-Climbs 5 10

-- The keys of a table that names nothing.
abbrev keys : Keys
keys = record {
  page_key = "page";
  page_size_key = "pageSize";
  default_page = pos 1;
  default_page_size = pos 10;
  global_filter_key = "filter";
  global_filter_enabled = true;
  trim_global = true;
}

abbrev empty_record : SearchRecord
empty_record key = none

abbrev third_page : PaginationState
third_page = record { page_index = 2; page_size = pos 20 }

pagination-on_pagination_change_example :
    pagination keys
      ((on_pagination_change keys empty_record (value third_page)).search empty_record)
    ≡ record { page_index = max 2 (index_of (pos 1)); page_size = pos 20 }
pagination-on_pagination_change_example =
    pagination-on_pagination_change keys empty_record empty_record (value third_page)
      (ne-of_eq-false "page" "pageSize" refl)

ensure_page_in_range-Ensures_example :
    Ensures keys
      (write "page" (some (number (pos 7))) empty_record)
      3
      (ensure_page_in_range keys (write "page" (some (number (pos 7))) empty_record) 3 ResetTo.last)
ensure_page_in_range-Ensures_example =
    ensure_page_in_range-Ensures keys (write "page" (some (number (pos 7))) empty_record) 3
      ResetTo.last refl

abbrev status_filter : ColumnFilterParams
status_filter = record {
  column_id = "status";
  search_key = "status";
  type = none;
  serialize = none;
  deserialize = none;
}

abbrev name_filter : ColumnFilterParams
name_filter = record {
  column_id = "name";
  search_key = "q";
  type = some string_type;
  serialize = none;
  deserialize = none;
}

abbrev chosen_filters : List ColumnFilter
chosen_filters =
    record { id = "name"; value = some (text "web") }
    ∷ record { id = "status"; value = some (array ("online" ∷ [])) }
    ∷ []

initial_column_filters-on_column_filters_change_example :
    initial_column_filters (status_filter ∷ name_filter ∷ []) (
      (on_column_filters_change keys
          (status_filter ∷ name_filter ∷ [])
          []
          (value chosen_filters)).1.search
        empty_record)
    ≡ effective_filters
        (status_filter ∷ name_filter ∷ [])
        (on_column_filters_change keys
          (status_filter ∷ name_filter ∷ [])
          []
          (value chosen_filters)).0
initial_column_filters-on_column_filters_change_example =
    initial_column_filters-on_column_filters_change keys (status_filter ∷ name_filter ∷ []) []
      (value chosen_filters) empty_record ((ne-of_eq-false "status" "q" refl, tt), (tt, tt))
      (
        record { present = λ v. refl; missing = refl },
        (record { present = λ v. refl; missing = refl }, tt),
      )
