-- ===== src/Prelude/Sets.antt =====
-- The built-in Set of texts, as the list of its members in the order in which they were added.
use Prim.Native.String.{String}
use mathlib.Core.Path.{◌≡◌, refl, ◌∙◌}
use mathlib.Core.Logic.{inl, inr}
use mathlib.Core.Bool.{false, not, ◌&&◌, ◌||◌}
use mathlib.Core.List.{List, [], ◌∷◌, ◌++◌}
use native.Mathlib.Omega.{arith}
use text.Mathlib.TextEquality.{eq_iff}
use cadentra.Prelude.Tests.{if◌then◌else◌, ◌==◌, Bool-cases}
use cadentra.Prelude.Lists.{filter, includes, includes-append, includes-filter}

-- Set.prototype.add
unfoldable pub add : String → List String → List String
add x set = if includes set x then set else set ++ (x ∷ [])

-- Set.prototype.delete
unfoldable pub delete : String → List String → List String
delete x set = filter (λ y. not (y == x)) set

unfoldable pub add_all : List String → List String → List String
unfolding add
add_all set [] = set
add_all set (x ∷ xs) = add_all (add x set) xs

-- Array.from(new Set(xs))
unfoldable pub unique : List String → List String
unfolding add_all
unique xs = add_all [] xs

-- No member stands twice.
abbrev pub HasNoTwin : List String → Type 0
HasNoTwin [] = Unit
HasNoTwin (x ∷ xs) = (includes xs x ≡ false) × HasNoTwin xs

pub includes-add :
    (x : String) (set : List String) (y : String)
    → includes (add x set) y ≡ (includes set y || x == y)
unfolding add includes
includes-add x set y = elim (Bool-cases (includes set x)) [
  | inl there ↦ rw there (ground (arith, eq_iff x y))
  | inr missing ↦ rw (missing, includes-append set (x ∷ []) y) (ground arith)
]

pub includes-delete :
    (x : String) (set : List String) (y : String)
    → includes (delete x set) y ≡ (includes set y && not (y == x))
unfolding delete
includes-delete x set y = includes-filter (λ z. not (z == x)) set y

pub includes-add_all :
    (xs set : List String) (y : String)
    → includes (add_all set xs) y ≡ (includes set y || includes xs y)
unfolding add_all includes
includes-add_all [] set y = ground arith
includes-add_all (x ∷ xs) set y =
    includes-add_all xs (add x set) y ∙ rw (includes-add x set y) (ground arith)

append-HasNoTwin :
    (x : String) (set : List String)
    → includes set x ≡ false
    → HasNoTwin set
    → HasNoTwin (set ++ (x ∷ []))
unfolding includes
append-HasNoTwin x [] new h = (refl, tt)
append-HasNoTwin x (y ∷ ys) new h = (
  includes-append ys (x ∷ []) y ∙ ground (arith, eq_iff x y, eq_iff y x, h.0),
  append-HasNoTwin x ys (ground arith) h.1,
)

pub add-HasNoTwin : (x : String) (set : List String) → HasNoTwin set → HasNoTwin (add x set)
unfolding add
add-HasNoTwin x set h = elim (Bool-cases (includes set x)) [
  | inl there ↦ rw there h
  | inr missing ↦ rw missing (append-HasNoTwin x set missing h)
]

pub delete-HasNoTwin : (x : String) (set : List String) → HasNoTwin set → HasNoTwin (delete x set)
unfolding delete filter
delete-HasNoTwin x [] h = tt
delete-HasNoTwin x (y ∷ ys) h = elim (Bool-cases (y == x)) [
  | inl same ↦ rw same (delete-HasNoTwin x ys h.1)
  | inr other ↦ rw other (includes-delete x ys y ∙ ground (arith, h.0), delete-HasNoTwin x ys h.1)
]
