-- ===== src/Catalog/Settings/Merging.antt =====
-- The values that the page of the settings in web/src/features/catalog/index.tsx keeps, merged into
-- those of the hub.
use cadentra.Prelude.{
  if-either, ◌≡◌, ◌≢◌, refl, sym, ap, ◌∙◌, ◌⊎◌, inl, inr, String, Option, none, some, [], ◌∷◌, ◌==◌,
  Dict, lookup, insert, merge, IsDict, or_else, lookup-merge, arith, includes, List, if◌then◌else◌,
  eq_iff, Bool-cases,
}
use cadentra.Catalog.Settings.{Page, settings, or_data, only}
use cadentra.Catalog.Settings.Draft.{Sends, SameSent}

pub settings-insert :
    (k v : String) (p : Page) (d : Dict String)
    → settings (record p { values = insert k v d }) ≡ insert k v d
unfolding settings or_data insert
settings-insert k v p [] = refl
settings-insert k v p ((j, w) ∷ d) = if-either (λ e. or_data e p.fetched ≡ e) (j == k) refl refl

pub insert-ne-nil : (k v : String) (d : Dict String) → insert k v d ≢ []
unfolding insert
insert-ne-nil k v [] e = cc
insert-ne-nil k v ((j, w) ∷ d) e = ground arith

pub keeps_sent :
    (p q : Page)
    → p.hub ≡ q.hub
    → (q.values ≡ [] → p.values ≡ [])
    → ((j : String) → lookup j (settings q) ≡ none → lookup j (settings p) ≡ none)
    → (body : Option (Dict String)) (f : Option (String → Option String)) → SameSent p body f
    → SameSent q body f
keeps_sent p q same empty less none none h = tt
keeps_sent p q same empty less none (some f) h = absurd h
keeps_sent p q same empty less (some body) none h = absurd h
keeps_sent p q same empty less (some body) (some f) (nothing, agree, inside, distinct) = (
  (λ e. nothing (empty e)),
  (λ j. ap (λ hub. lookup j (merge hub body)) (sym same) ∙ agree j),
  (λ j e. inside j (less j e)),
  distinct,
)

pub sent-cases :
    (p : Page) (body : Option (Dict String)) (f : Option (String → Option String))
    → SameSent p body f
    → ((body ≡ none) × (f ≡ none))
      ⊎ ((b : Dict String) × (g : String → Option String) × (body ≡ some b)
          × (f ≡ some g)
          × Sends p b g)
sent-cases p none none h = inl (refl, refl)
sent-cases p none (some f) h = absurd h
sent-cases p (some body) none h = absurd h
sent-cases p (some body) (some f) h = inr (body, f, refl, refl, h)

pub refetched :
    (values : Dict String) (fetched : Option (Dict String)) (hub : Dict String)
    → (values ≡ [] → fetched ≡ some hub)
    → or_data values (some hub) ≡ or_data values fetched
unfolding or_data
refetched [] fetched hub fresh = rw (fresh refl) refl
refetched (x ∷ xs) fetched hub fresh = refl

or_else-none : (o r : Option String) → (o ≡ none → r ≡ none) → or_else o r ≡ o
or_else-none none r h = h refl
or_else-none (some v) r h = refl

pub merge_shown :
    (values : Dict String) (fetched : Option (Dict String)) (hub : Dict String) (j : String)
    → (values ≡ [] → fetched ≡ some hub)
    → IsDict (or_data values fetched)
    → (lookup j (or_data values fetched) ≡ none → lookup j hub ≡ none)
    → lookup j (merge hub values) ≡ lookup j (or_data values fetched)
unfolding or_data
merge_shown [] fetched hub j fresh distinct within = rw (fresh refl) refl
merge_shown (x ∷ xs) fetched hub j fresh distinct within =
    lookup-merge j hub (x ∷ xs) distinct ∙ or_else-none (lookup j (x ∷ xs)) (lookup j hub) within

lookup-only :
    (keys : List String) (body : Dict String) (j : String)
    → lookup j (only keys body) ≡ (if includes keys j then lookup j body else none)
unfolding only lookup
lookup-only keys [] j = if-either (λ (o : Option String). none ≡ o) (includes keys j) refl refl
lookup-only keys ((k, v) ∷ body) j = ground (arith, lookup-only keys body j, eq_iff k j)

none-lookup-only :
    (keys : List String) (body : Dict String) (j : String)
    → lookup j body ≡ none
    → lookup j (only keys body) ≡ none
none-lookup-only keys body j h =
    lookup-only keys body j
    ∙ rw h (if-either (λ (o : Option String). o ≡ none) (includes keys j) refl refl)

only-IsDict : (keys : List String) (body : Dict String) → IsDict body → IsDict (only keys body)
unfolding only
only-IsDict keys [] h = tt
only-IsDict keys ((k, v) ∷ body) h = elim (Bool-cases (includes keys k)) [
  | inl kept ↦ rw kept (none-lookup-only keys body k h.0, only-IsDict keys body h.1)
  | inr left ↦ rw left (only-IsDict keys body h.1)
]

-- Of the body, the members with these keys are stored.
pub lookup-merge-only :
    (keys : List String) (hub body : Dict String) (j : String)
    → IsDict body
    → lookup j (merge hub (only keys body))
      ≡ (if includes keys j then lookup j (merge hub body) else lookup j hub)
lookup-merge-only keys hub body j h =
    lookup-merge j hub (only keys body) (only-IsDict keys body h)
    ∙ ap (λ o. or_else o (lookup j hub)) (lookup-only keys body j)
    ∙ (elim (Bool-cases (includes keys j)) [
      | inl kept ↦ rw kept (sym (lookup-merge j hub body h))
      | inr left ↦ rw left refl
    ])

-- The values that a save sends, whose keys are different if those that are shown are.
pub values-IsDict :
    (values : Dict String) (fetched : Option (Dict String))
    → IsDict (or_data values fetched)
    → IsDict values
unfolding or_data
values-IsDict [] fetched h = tt
values-IsDict (x ∷ xs) fetched h = h
