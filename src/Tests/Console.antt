-- ===== src/Tests/Console.antt =====
-- What stands around the pages, and the tables: web/src/main.tsx, web/src/components/layout and
-- web/src/components/data-table.
use cadentra.Prelude.{
  ℕ, ◌+◌, ◌-◌, ◌*◌, ◌/◌, ◌<◌, ◌≡◌, ◌⊎◌, refl, String, Option, none, some, [], ◌∷◌, true, false, ltb,
  arith, split, after, filter, if◌then◌else◌, All,
}
use cadentra.Session.Client.{Client}
use cadentra.Session.Store.{App}
use cadentra.Session.Request.{ApiError, from_hub, Response, Options, HttpRequest}
use cadentra.Shell.Sidebar.{
  NavItem, link, url_of, is_url, endpoint, check_is_active, links, active_links,
}
use cadentra.Shell.Sidebar.Active.{active_links-cases}
use cadentra.Shell.Queries.{production, attempts, axios, retry}
use cadentra.DataTable.Pagination.{
  Table, IsLawful, presses_next, presses_last, presses_number, chooses_size, has_button,
  page_numbers, step, run,
}
use cadentra.DataTable.Pagination.Range.{run-lands}

tasks_active : active_links "/tasks?page=2" ≡ link "nav.tasks" "/tasks" ∷ []
unfolding active_links check_is_active filter endpoint split after
tasks_active = refl

-- No link is active on the page of one task.
task_inactive : active_links "/tasks/t1" ≡ []
unfolding active_links check_is_active filter endpoint split after
task_inactive = refl

active_links-cases_example :
    ((active_links "/tasks?page=2" ≡ [])
      × All (λ item. is_url (endpoint "/tasks?page=2") (url_of item) ≡ false) links)
    ⊎ ((item : NavItem) × (active_links "/tasks?page=2" ≡ item ∷ [])
        × (url_of item ≡ some (endpoint "/tasks?page=2")))
active_links-cases_example = active_links-cases "/tasks?page=2"

-- The hub refuses whatever it is asked.
abbrev refuses : HttpRequest String → Option (Response String)
refuses r =
    some
      (record { status = 401; json = some (record { error = some "unauthorized"; payload = "" }) })

abbrev plain_get : Options String
plain_get = record { method = none; headers = []; body = none }

abbrev signed_in : Client
signed_in = record { auth_token = some "t"; storage = some (some "t") }

abbrev app : App
app = record { client = signed_in; auth = record { user = none; access_token = "t" } }

abbrev refusal : ApiError
refusal = record { status = 401; message = from_hub "unauthorized" }

-- An AxiosError with the status 401 would not be tried again.
axios_refused : attempts production (axios none (some (401, none))) 6 0 ≡ 1
unfolding attempts retry
axios_refused = refl

record Sheet : Type 0 where
  index : ℕ
  size : ℕ
  rows : ℕ

abbrev sheet_count : Sheet → ℕ
sheet_count s = (s.rows + s.size - 1) / s.size

-- An index beyond the pages is set to the last one.
abbrev set_index : ℕ → Sheet → Sheet
set_index i s = record s { index = if ltb i (sheet_count s) then i else sheet_count s - 1 }

abbrev sheets : Table
sheets = record {
  State = Sheet;
  page_index = λ s. s.index;
  page_size = λ s. s.size;
  row_count = λ s. s.rows;
  page_count = sheet_count;
  can_previous = λ s. ltb 0 s.index;
  can_next = λ s. ltb (s.index + 1) (sheet_count s);
  set_page_index = set_index;
  previous_page = λ s. set_index (s.index - 1) s;
  next_page = λ s. set_index (s.index + 1) s;
  set_page_size = λ n s. record s { index = s.size * s.index / n; size = n };
}

set_index-lt : (i : ℕ) (s : Sheet) → i < sheet_count s → (set_index i s).index ≡ i
set_index-lt i s h = ground arith

sheets-IsLawful : IsLawful sheets
sheets-IsLawful = record {
  counts = λ s. refl;
  can_previous_lem = λ s. refl;
  can_next_lem = λ s. refl;
  sets = set_index-lt;
  sets_page_alone = λ i s. (refl, refl);
  goes_back = λ s. refl;
  goes_on = λ s. refl;
  resizes = λ n s h. (refl, refl, refl);
}

abbrev first_sheet : Sheet
first_sheet = record { index = 0; size = 10; rows = 95 }

abbrev turned : Sheet
turned =
    run sheets first_sheet (presses_last ∷ chooses_size 20 ∷ presses_number 2 ∷ presses_next ∷ [])

run-lands_example :
    (0 < turned.size)
    × (turned.index * turned.size < turned.rows)
    × ((p : ℕ)
        → has_button p (page_numbers sheets turned) ≡ true
        → (step sheets turned (presses_number p)).index + 1 ≡ p)
run-lands_example =
    run-lands sheets sheets-IsLawful first_sheet
      (presses_last ∷ chooses_size 20 ∷ presses_number 2 ∷ presses_next ∷ [])
      (omega arith, omega arith)
