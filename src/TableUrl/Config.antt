-- ===== src/TableUrl/Config.antt =====
-- The values, parameters and state of useTableUrlState (web/src/hooks/use-table-url-state.ts).
use cadentra.Prelude.{
  String, Option, List, ℤ, pos, Bool, true, ◌==◌, if◌then◌else◌, get_or, ◌≡◌, ◌≢◌, eq_refl,
  eq-false_of_ne,
}

-- A value in the search record.
pub data Value : Type 0 where
  number : ℤ → Value
  text : String → Value
  array : List String → Value

abbrev pub SearchRecord : Type 0
SearchRecord = String → Option Value

-- { ...record, [key]: value }
unfoldable pub write : String → Option Value → SearchRecord → SearchRecord
write key value r k = if k == key then value else r k

pub write_self : (key : String) (v : Option Value) (r : SearchRecord) → write key v r key ≡ v
unfolding write
write_self key v r = rw (eq_refl key)

pub write_ne :
    (key k : String) (v : Option Value) (r : SearchRecord) → k ≢ key → write key v r k ≡ r k
unfolding write
write_ne key k v r h = rw (eq-false_of_ne k key h)

-- What a handler gives to the router.
pub record Navigation : Type 0 where
  pub replace : Bool
  pub search : SearchRecord → SearchRecord

-- A new value, or a function of the old one: `OnChangeFn`'s updater.
pub data Updater (S : Type 0) : Type 0 where
  value : S → Updater S
  apply : (S → S) → Updater S

abbrev pub updated : {S : Type 0} → Updater S → S → S
updated (value s) old = s
updated (apply f) old = f old

pub record PaginationParams : Type 0 where
  pub page_key : Option String
  pub page_size_key : Option String
  pub default_page : Option ℤ
  pub default_page_size : Option ℤ

pub record GlobalFilterParams : Type 0 where
  pub enabled : Option Bool
  pub key : Option String
  pub trimmed : Option Bool

pub data FilterType : Type 0 where
  string_type array_type : FilterType

-- A column filter that is kept under a search key. The type may be left out.
pub record ColumnFilterParams : Type 0 where
  pub column_id : String
  pub search_key : String
  pub type : Option FilterType
  pub serialize : Option (Option Value → Option Value)
  pub deserialize : Option (Option Value → Option Value)

-- The parameters with the defaults of the hook's first lines put in.
pub record Keys : Type 0 where
  pub page_key : String
  pub page_size_key : String
  pub default_page : ℤ
  pub default_page_size : ℤ
  pub global_filter_key : String
  pub global_filter_enabled : Bool
  pub trim_global : Bool

pub resolve : PaginationParams → GlobalFilterParams → Keys
resolve p g = record {
  page_key = get_or p.page_key "page";
  page_size_key = get_or p.page_size_key "pageSize";
  default_page = get_or p.default_page (pos 1);
  default_page_size = get_or p.default_page_size (pos 10);
  global_filter_key = get_or g.key "filter";
  global_filter_enabled = get_or g.enabled true;
  trim_global = get_or g.trimmed true;
}
