-- ===== src/TableUrl/Globals.antt =====
-- The global filter of web/src/hooks/use-table-url-state.ts: its first value and
-- onGlobalFilterChange.
use cadentra.Prelude.{
  ap, ◌≡◌, ◌≢◌, refl, String, Option, none, some, true, false, truthy, trim, get_or, if◌then◌else◌,
  arith, eq_iff,
}
use cadentra.TableUrl.Config.{
  Value, number, text, array, SearchRecord, write, write_self, write_ne, Navigation, Updater,
  updated, Keys,
}

-- typeof raw === 'string' ? raw : ''
abbrev pub text_or_empty : Option Value → String
text_or_empty (some (text s)) = s
text_or_empty (some (number n)) = ""
text_or_empty (some (array a)) = ""
text_or_empty none = ""

-- The first value of the state; `none` is undefined.
pub initial_global_filter : Keys → SearchRecord → Option String
initial_global_filter k r =
    if k.global_filter_enabled then some (text_or_empty (r k.global_filter_key)) else none

-- The text that a change stores.
pub next_global_filter : Keys → Option String → Updater String → String
next_global_filter k old updater =
    let next = updated updater (get_or old "") in if k.trim_global then trim next else next

-- The new state with the navigation; `none` where the hook gives no handler.
pub on_global_filter_change :
    Keys → Option String → Updater String → Option (Option String × Navigation)
unfolding next_global_filter
on_global_filter_change k old updater =
    let value = next_global_filter k old updater in
    if k.global_filter_enabled
    then some (
      some value,
      record {
        replace = false;
        search = λ prev.
            write k.global_filter_key (if truthy value then some (text value) else none)
              (write k.page_key none prev);
      },
    )
    else none

stored : (v : String) → text_or_empty (if truthy v then some (text v) else none) ≡ v
stored v = ground (arith, eq_iff v "")

-- What a change of the global filter does where the filter is enabled: the address holds the
-- filter from which a fresh hook would start with the same text, the page goes back to the
-- default one, and no other key changes.
pub on_global_filter_change_lem :
    (k : Keys) (prev : SearchRecord) (old : Option String) (u : Updater String)
    → k.global_filter_enabled ≡ true
    → k.page_key ≢ k.global_filter_key
    → (s : Option String) × (nav : Navigation) × (on_global_filter_change k old u ≡ some (s, nav))
      × (initial_global_filter k (nav.search prev) ≡ s)
      × (nav.search prev k.page_key ≡ none)
      × ((key : String)
          → key ≢ k.page_key
          → key ≢ k.global_filter_key
          → nav.search prev key ≡ prev key)
unfolding on_global_filter_change initial_global_filter
on_global_filter_change_lem k prev old u enabled distinct = rw enabled (
  _,
  _,
  refl,
  rw write_self (ap some (stored (next_global_filter k old u))),
  rw (write_ne _ k.page_key _ _ distinct, write_self),
  λ key other_page other_filter.
      rw (write_ne _ key _ _ other_filter, write_ne _ key _ _ other_page),
)
