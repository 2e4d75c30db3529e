-- ===== src/Editors/Draft.antt =====
-- What all editors of web/src/features/editors/index.tsx share: the form that they show, and the
-- lists and dictionaries that they change entry by entry.
use cadentra.Prelude.{
  ℕ, zero, suc, ◌≡◌, refl, ap, String, Option, some, List, [], ◌∷◌, ◌++◌, Bool, true, false, not,
  ◌==◌, get_or, filter, includes, includes-append, includes-filter, if◌then◌else◌, take, drop,
  arith, eq_iff,
}

-- `draft || current.data || defaultForm`; `loaded` is what the query has brought so far.
pub record Draft (F : Type 0) : Type 0 where
  pub draft : Option F
  pub loaded : Option F
  pub default_form : F

abbrev pub form : {F : Type 0} → Draft F → F
form d = get_or d.draft (get_or d.loaded d.default_form)

abbrev pub set_form : {F : Type 0} → F → Draft F → Draft F
set_form f d = record d { draft = some f }

-- The query has brought the object from the hub, for the first time or again.
abbrev pub arrive : {F : Type 0} → F → Draft F → Draft F
arrive f d = record d { loaded = some f }

-- items.filter((_, itemIndex) => itemIndex !== index)
unfoldable pub remove_at {ℓ} : {A : Type ℓ} → ℕ → List A → List A
remove_at i [] = []
remove_at zero (x ∷ xs) = xs
remove_at (suc i) (x ∷ xs) = x ∷ remove_at i xs

pub remove_at-eq {ℓ} :
    {A : Type ℓ} (i : ℕ) (xs : List A) → remove_at i xs ≡ take i xs ++ drop (suc i) xs
unfolding remove_at
remove_at-eq zero [] = refl
remove_at-eq (suc i) [] = refl
remove_at-eq zero (x ∷ xs) = refl
remove_at-eq (suc i) (x ∷ xs) = ap (λ r. x ∷ r) (remove_at-eq i xs)

-- checked ? [...selected, id] : selected.filter((value) => value !== id)
unfoldable pub check : Bool → String → List String → List String
unfolding filter
check checked id selected =
    if checked then selected ++ id ∷ [] else filter (λ v. not (v == id)) selected

-- After a box is checked or cleared, its text is in the list exactly if it was checked, and every
-- other text is in the list exactly if it was before.
pub includes-check :
    (checked : Bool) (id j : String) (selected : List String)
    → includes (check checked id selected) j ≡ (if id == j then checked else includes selected j)
unfolding check includes
includes-check true id j selected = ground (arith, includes-append selected (id ∷ []) j)
includes-check false id j selected =
    ground (arith, includes-filter (λ v. not (v == id)) selected j, eq_iff j id, eq_iff id j)
