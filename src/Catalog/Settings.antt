-- ===== src/Catalog/Settings.antt =====
-- Settings of web/src/features/catalog/index.tsx, beside the settings that the hub has.
pub mod Draft
pub mod Merging
pub mod Refinement
use cadentra.Prelude.{
  String, Option, none, some, List, [], ◌∷◌, Dict, lookup, insert, merge, get_or, includes,
  if◌then◌else◌,
}

-- `values` are the edited settings, `fetched` what the query has brought, `pending` the body of a save
-- that the hub has not answered, and `hub` what GET /settings answers.
pub record Page : Type 0 where
  pub values : Dict String
  pub fetched : Option (Dict String)
  pub pending : Option (Dict String)
  pub hub : Dict String

unfoldable or_data : Dict String → Option (Dict String) → Dict String
or_data [] fetched = get_or fetched []
or_data (entry ∷ more) fetched = entry ∷ more

-- The settings that are shown. `values === query.data` never holds: every value of `values` is an
-- object that this component has made.
unfoldable pub settings : Page → Dict String
unfolding or_data
settings p = or_data p.values p.fetched

-- The page when the query has brought the hub's settings.
abbrev pub load : Dict String → Page
load hub = record { values = []; fetched = some hub; pending = none; hub = hub }

-- onChange of the field of a key; only the settings that are shown have fields.
unfoldable pub edit : String → String → Page → Page
unfolding settings
edit k v p = elim (lookup k (settings p)) [
  | none ↦ p
  | some old ↦ record p { values = insert k v (settings p) }
]

-- The button is disabled while a save is pending.
unfoldable pub save : Page → Page
save p = elim p.pending [ none ↦ record p { pending = some p.values } | some body ↦ p ]

-- The members of the body with these keys.
unfoldable pub only : List String → Dict String → Dict String
unfolding includes
only keys [] = []
only keys ((k, v) ∷ body) =
    let rest = only keys body in if includes keys k then (k, v) ∷ rest else rest

-- How the request ends: `succeeds` with an answer 200; `fails` with an answer that refuses it, or in
-- no answer. The loop of the hub visits the members in any order and returns 500 at the first that
-- it cannot store: `stored` has the keys of those that were stored before the end, none for 400
-- and 403, and all where only the answer is lost.
pub data End : Type 0 where
  succeeds : End
  fails : (stored : List String) → End

-- handleSettings of internal/hub/api/api.go for PUT: the members of the body are stored one by one.
unfoldable pub put_settings : End → Dict String → Dict String → Dict String
unfolding only
put_settings succeeds body hub = merge hub body
put_settings (fails stored) body hub = merge hub (only stored body)

pub data Event : Type 0 where
  edits : (key value : String) → Event
  presses_save : Event
  answers : End → Event
  refetches : Event

-- The hub's part of the request, and the end of the mutation.
unfoldable pub on_answer : End → Page → Page
unfolding put_settings
on_answer end p = elim p.pending [
  | none ↦ p
  | some body ↦ record p { pending = none; hub = put_settings end body p.hub }
]

unfoldable pub step : Page → Event → Page
unfolding edit save on_answer
step p (edits k v) = edit k v p
step p presses_save = save p
step p (answers end) = on_answer end p
step p refetches = record p { fetched = some p.hub }

unfoldable pub run : Page → List Event → Page
unfolding step
run p [] = p
run p (e ∷ es) = run (step p e) es
