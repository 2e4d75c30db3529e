-- ===== src/Catalog/Settings/Draft.antt =====
-- The page of the settings in web/src/features/catalog/index.tsx as a draft over the stored settings.
use cadentra.Prelude.{
  ◌≡◌, String, Option, none, some, List, [], ◌∷◌, ◌==◌, includes, Dict, lookup, merge, IsDict,
  if◌then◌else◌,
}
use cadentra.Catalog.Settings.{
  Page, settings, End, succeeds, fails, Event, edits, presses_save, answers, refetches,
}

-- What the user sees, what a save that is under way has sent, and what is stored: functions of the
-- key, which forget how the objects are laid out.
pub record Draft : Type 0 where
  pub shown : String → Option String
  pub sent : Option (String → Option String)
  pub stored : String → Option String

abbrev pub write : String → String → (String → Option String) → String → Option String
write k v f j = if k == j then some v else f j

unfoldable pub spec_edit : String → String → Draft → Draft
spec_edit k v s = elim (s.shown k) [ none ↦ s | some old ↦ record s { shown = write k v s.shown } ]

-- What is stored once the request for `f` has ended: all of it, or the part with the stored keys.
abbrev pub taken :
    End → (String → Option String) → (String → Option String) → String → Option String
taken succeeds f old j = f j
taken (fails stored) f old j = if includes stored j then f j else old j

unfoldable pub spec_step : Draft → Event → Draft
unfolding spec_edit
spec_step s (edits k v) = spec_edit k v s
spec_step s presses_save = elim s.sent [ none ↦ record s { sent = some s.shown } | some f ↦ s ]
spec_step s (answers end) = elim s.sent [
  | none ↦ s
  | some f ↦ record s { sent = none; stored = taken end f s.stored }
]
spec_step s refetches = s

unfoldable pub spec_run : Draft → List Event → Draft
unfolding spec_step
spec_run s [] = s
spec_run s (e ∷ es) = spec_run (spec_step s e) es

-- Two partial functions that agree on every key.
abbrev pub Agree : (String → Option String) → (String → Option String) → Type 0
Agree f g = (j : String) → f j ≡ g j

-- A key that is not shown is not in `f`.
abbrev pub Within : (String → Option String) → (String → Option String) → Type 0
Within f g = (j : String) → g j ≡ none → f j ≡ none

abbrev pub Sends : Page → Dict String → (String → Option String) → Type 0
Sends p body f =
    (p.values ≡ [] → body ≡ [])
    × Agree (λ j. lookup j (merge p.hub body)) f
    × Within f (λ j. lookup j (settings p))
    × IsDict body

abbrev pub SameSent : Page → Option (Dict String) → Option (String → Option String) → Type 0
SameSent p none none = Unit
SameSent p none (some f) = ⊥
SameSent p (some body) none = ⊥
SameSent p (some body) (some f) = Sends p body f

-- The page stands for the draft.
pub record Rel (p : Page) (s : Draft) : Type 0 where
  pub shown : Agree (λ j. lookup j (settings p)) s.shown
  pub stored : Agree (λ j. lookup j p.hub) s.stored
  pub dict : IsDict (settings p)
  pub fresh : p.values ≡ [] → p.fetched ≡ some p.hub
  pub within : Within (λ j. lookup j p.hub) (λ j. lookup j (settings p))
  pub sent : SameSent p p.pending s.sent
