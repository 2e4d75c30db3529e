-- ===== src/Catalog/Labels.antt =====
-- AgentDetail of web/src/features/catalog/index.tsx: the labels of a node.
use cadentra.Prelude.{
  ◌≡◌, refl, ap, ◌∙◌, String, Option, none, some, List, [], ◌∷◌, Bool, true, false, not, ◌||◌, ◌==◌,
  Dict, lookup, insert, get_or, truthy, trim, lookup-insert, if◌then◌else◌,
}

-- `fetched` are the labels of node.data (none until it is there), `pending` the labels that a request
-- has sent, and `hub` those that the hub has for the node.
pub record Page : Type 0 where
  pub label_key : String
  pub label_value : String
  pub fetched : Option (Dict String)
  pub pending : Option (Dict String)
  pub hub : Dict String

abbrev is_pending : Option (Dict String) → Bool
is_pending none = false
is_pending (some labels) = true

unfoldable pub disabled : Page → Bool
unfolding trim
disabled p = not (truthy (trim p.label_key)) || is_pending p.pending

-- The labels that the button sends.
unfoldable pub sent_labels : Page → Dict String
sent_labels p = insert (trim p.label_key) p.label_value (get_or p.fetched [])

pub data Event : Type 0 where
  changes_key changes_value : String → Event
  presses_add : Event
  answered : (accepted : Bool) → Event
  fetches : Event

-- SetLabels of the hub puts the labels of the request in the place of all that the node had.
unfoldable pub settle : Bool → Page → Page
settle true p = record p {
  label_key = "";
  label_value = "";
  pending = none;
  hub = get_or p.pending p.hub;
}
settle false p = record p { pending = none }

unfoldable pub step : Page → Event → Page
unfolding disabled sent_labels settle
step p (changes_key v) = record p { label_key = v }
step p (changes_value v) = record p { label_value = v }
step p presses_add = if disabled p then p else record p { pending = some (sent_labels p) }
step p (answered accepted) = if is_pending p.pending then settle accepted p else p
step p fetches = record p { fetched = some p.hub }

unfoldable pub run : Page → List Event → Page
unfolding step
run p [] = p
run p (e ∷ es) = run (step p e) es

-- Adding a label.
abbrev pub add_label : List Event
add_label = presses_add ∷ answered true ∷ fetches ∷ []

module _ (p : Page) (there : disabled p ≡ false) where
  added-hub : (run p add_label).hub ≡ sent_labels p
  unfolding run step settle
  added-hub = rw there refl

  -- Where the button is enabled and the hub takes the request, the node has the label afterwards, and
  -- every other label is as the page has shown it; the fields are empty. What the hub has got since the
  -- page has fetched the node plays no part: a label that the page does not know is gone.
  pub run-add_label :
      (labels : Dict String)
      → p.fetched ≡ some labels
      → ((j : String)
          → lookup j (run p add_label).hub
            ≡ (if trim p.label_key == j then some p.label_value else lookup j labels))
        × ((run p add_label).fetched ≡ some (run p add_label).hub)
        × ((run p add_label).label_key ≡ "")
        × ((run p add_label).label_value ≡ "")
  unfolding run step settle sent_labels
  run-add_label labels shown = (
    (λ j.
        ap (lookup j) added-hub
        ∙ lookup-insert (trim p.label_key) j p.label_value (get_or p.fetched [])
        ∙ rw shown refl),
    refl,
    rw there refl,
    rw there refl,
  )
