-- ===== src/TableUrl/Columns.antt =====
-- The column filters of web/src/hooks/use-table-url-state.ts: initialColumnFilters and
-- onColumnFiltersChange.
use cadentra.Prelude.{
  ◌≡◌, ◌≢◌, refl, ◌∙◌, String, Option, none, some, List, [], ◌∷◌, false, not, ◌==◌, trim, get_or,
  if◌then◌else◌, arith, find, All, Option-cases, inl, inr,
}
use cadentra.TableUrl.Config.{
  Value, number, text, array, SearchRecord, write, write_self, write_ne, Navigation, Updater,
  updated, Keys, ColumnFilterParams, FilterType, string_type, array_type,
}

pub record ColumnFilter : Type 0 where
  pub id : String
  pub value : Option Value

-- Only an explicit 'string' makes a text filter.
abbrev pub kind : ColumnFilterParams → FilterType
kind cfg = get_or cfg.type array_type

-- A filter's value where it filters anything: a text that is not blank, a list that is not empty.
pub effective : FilterType → Option Value → Option Value
effective string_type (some (text s)) = if not (trim s == "") then some (text s) else none
effective string_type (some (number n)) = none
effective string_type (some (array a)) = none
effective string_type none = none
effective array_type (some (array [])) = none
effective array_type (some (array (x ∷ xs))) = some (array (x ∷ xs))
effective array_type (some (number n)) = none
effective array_type (some (text s)) = none
effective array_type none = none

abbrev convert : Option (Option Value → Option Value) → Option Value → Option Value
convert none v = v
convert (some f) v = f v

abbrev push_filter : String → Option Value → List ColumnFilter → List ColumnFilter
push_filter id none rest = rest
push_filter id (some v) rest = record { id = id; value = some v } ∷ rest

pub initial_column_filters : List ColumnFilterParams → SearchRecord → List ColumnFilter
unfolding effective
initial_column_filters [] r = []
initial_column_filters (cfg ∷ cfgs) r =
    push_filter cfg.column_id (effective (kind cfg) (convert cfg.deserialize (r cfg.search_key)))
      (initial_column_filters cfgs r)

-- found?.value
abbrev found_value : String → List ColumnFilter → Option Value
found_value id next = elim (find (λ f. f.id == id) next) [ none ↦ none | some f ↦ f.value ]

abbrev serialized : Option (Option Value → Option Value) → Option Value → Option Value
serialized f none = none
serialized f (some v) = convert f (some v)

-- patch[cfg.searchKey]
pub patch_value : ColumnFilterParams → List ColumnFilter → Option Value
unfolding effective
patch_value cfg next =
    serialized cfg.serialize (effective (kind cfg) (found_value cfg.column_id next))

-- { ...prev, ...patch }: the assignments of the loop, in its order.
pub patched : List ColumnFilterParams → List ColumnFilter → SearchRecord → SearchRecord
unfolding patch_value
patched [] next r = r
patched (cfg ∷ cfgs) next r = patched cfgs next (write cfg.search_key (patch_value cfg next) r)

-- The new state with the navigation.
pub on_column_filters_change :
    Keys
    → List ColumnFilterParams
    → List ColumnFilter
    → Updater (List ColumnFilter)
    → List ColumnFilter × Navigation
unfolding patched
on_column_filters_change k cfgs old updater =
    let next = updated updater old in
    (
      next,
      record { replace = false; search = λ prev. patched cfgs next (write k.page_key none prev) },
    )

-- The filters that take effect, in the order of the parameters.
pub effective_filters : List ColumnFilterParams → List ColumnFilter → List ColumnFilter
effective_filters [] next = []
effective_filters (cfg ∷ cfgs) next =
    push_filter cfg.column_id (effective (kind cfg) (found_value cfg.column_id next))
      (effective_filters cfgs next)

-- What is serialized is read back, and a missing value is read as missing.
pub record IsInverse (cfg : ColumnFilterParams) : Type 0 where
  pub present : (v : Value) → convert cfg.deserialize (convert cfg.serialize (some v)) ≡ some v
  pub missing : convert cfg.deserialize none ≡ none

-- No two parameters share a search key.
abbrev pub HasDistinctKeys : List ColumnFilterParams → Type 0
HasDistinctKeys [] = Unit
HasDistinctKeys (cfg ∷ cfgs) = All (λ c. cfg.search_key ≢ c.search_key) cfgs × HasDistinctKeys cfgs

patched_other :
    (cfgs : List ColumnFilterParams) (next : List ColumnFilter) (r : SearchRecord) (key : String)
    → All (λ c. key ≢ c.search_key) cfgs
    → patched cfgs next r key ≡ r key
unfolding patched
patched_other [] next r key h = refl
patched_other (cfg ∷ cfgs) next r key h =
    patched_other cfgs next (write cfg.search_key (patch_value cfg next) r) key h.1
    ∙ write_ne cfg.search_key key (patch_value cfg next) r h.0

patched_keys :
    (cfgs : List ColumnFilterParams) (next : List ColumnFilter) (r : SearchRecord)
    → HasDistinctKeys cfgs
    → All (λ c. patched cfgs next r c.search_key ≡ patch_value c next) cfgs
unfolding patched
patched_keys [] next r h = tt
patched_keys (cfg ∷ cfgs) next r h = (
  patched_other cfgs next (write cfg.search_key (patch_value cfg next) r) cfg.search_key h.0
      ∙ write_self cfg.search_key (patch_value cfg next) r,
  patched_keys cfgs next (write cfg.search_key (patch_value cfg next) r) h.1,
)

effective_idem : (t : FilterType) (v w : Option Value) → effective t v ≡ w → effective t w ≡ w
unfolding effective
effective_idem string_type (some (text s)) w e = ground arith
effective_idem array_type (some (array (x ∷ xs))) w e = ground arith
effective_idem array_type (some (array [])) w e = ground arith
effective_idem t v w e = ground arith

effective-none : (t : FilterType) → effective t none ≡ none
unfolding effective
effective-none string_type = refl
effective-none array_type = refl

read_patch :
    (cfg : ColumnFilterParams) (next : List ColumnFilter)
    → IsInverse cfg
    → effective (kind cfg) (convert cfg.deserialize (patch_value cfg next))
      ≡ effective (kind cfg) (found_value cfg.column_id next)
unfolding patch_value
read_patch cfg next inv =
    elim (Option-cases (effective (kind cfg) (found_value cfg.column_id next))) [
      | inl e ↦ rw (e, inv.missing) (effective-none (kind cfg))
      | inr (v, e) ↦ rw (e, inv.present v) (effective_idem (kind cfg) _ _ e)
    ]

read_filters :
    (cfgs : List ColumnFilterParams) (next : List ColumnFilter) (r : SearchRecord)
    → All IsInverse cfgs
    → All (λ c. r c.search_key ≡ patch_value c next) cfgs
    → initial_column_filters cfgs r ≡ effective_filters cfgs next
unfolding initial_column_filters effective_filters
read_filters [] next r inv h = refl
read_filters (cfg ∷ cfgs) next r inv h =
    rw (h.0, read_patch cfg next inv.0, read_filters cfgs next r inv.1 h.1)

-- A hook that starts from the address which a change of the column filters has written has the
-- filters of that change that take effect, where the parameters have search keys of their own
-- and their converters undo one another.
pub initial_column_filters-on_column_filters_change :
    (k : Keys) (cfgs : List ColumnFilterParams) (old : List ColumnFilter)
    (u : Updater (List ColumnFilter)) (prev : SearchRecord)
    → HasDistinctKeys cfgs
    → All IsInverse cfgs
    → initial_column_filters cfgs ((on_column_filters_change k cfgs old u).1.search prev)
      ≡ effective_filters cfgs (on_column_filters_change k cfgs old u).0
unfolding on_column_filters_change
initial_column_filters-on_column_filters_change k cfgs old u prev distinct inv =
    read_filters cfgs (updated u old) _ inv
      (patched_keys cfgs (updated u old) (write k.page_key none prev) distinct)
