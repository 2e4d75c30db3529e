-- ===== src/Prelude/Dicts.antt =====
-- Objects that are used as dictionaries with text keys, as association lists in the order in which
-- the keys were first written.
use Prim.Native.String.{String}
use mathlib.Core.Path.{◌≡◌, refl, ◌∙◌}
use mathlib.Core.Logic.{◌≢◌, inl, inr}
use mathlib.Core.Option.{Option, none, some}
use mathlib.Core.List.{List, [], ◌∷◌}
use native.Mathlib.Omega.{arith}
use text.Mathlib.TextEquality.{eq_iff}
use text.Mathlib.TextPositions.{eq_refl}
use cadentra.Prelude.Tests.{if◌then◌else◌, ◌==◌, eq-false_of_ne, Bool-cases}

abbrev pub Dict {ℓ} : Type ℓ → Type ℓ
Dict V = List (String × V)

module _ {ℓ} {V : Type ℓ} where
  -- d[k]
  unfoldable pub lookup : String → Dict V → Option V
  lookup k [] = none
  lookup k ((j, v) ∷ d) = if j == k then some v else lookup k d

  -- { ...d, [k]: v }
  unfoldable pub insert : String → V → Dict V → Dict V
  insert k v [] = (k, v) ∷ []
  insert k v ((j, w) ∷ d) = if j == k then (k, v) ∷ d else (j, w) ∷ insert k v d

  -- delete d[k]; a key stands at most once in an object
  unfoldable pub remove : String → Dict V → Dict V
  remove k [] = []
  remove k ((j, w) ∷ d) = if j == k then remove k d else (j, w) ∷ remove k d

  pub lookup-insert :
      (k j : String) (v : V) (d : Dict V)
      → lookup j (insert k v d) ≡ (if k == j then some v else lookup j d)
  unfolding lookup insert
  lookup-insert k j v [] = refl
  lookup-insert k j v ((i, w) ∷ d) =
      ground (arith, eq_iff k j, eq_iff i k, eq_iff i j, lookup-insert k j v d)

  pub lookup-remove :
      (k j : String) (d : Dict V) → lookup j (remove k d) ≡ (if k == j then none else lookup j d)
  unfolding lookup remove
  lookup-remove k j [] = ground arith
  lookup-remove k j ((i, w) ∷ d) =
      ground (arith, eq_iff k j, eq_iff i k, eq_iff i j, lookup-remove k j d)

  pub lookup-insert_self : (k : String) (v : V) (d : Dict V) → lookup k (insert k v d) ≡ some v
  lookup-insert_self k v d = rw (lookup-insert k k v d, eq_refl k)

  pub lookup-insert_ne :
      (k j : String) (v : V) (d : Dict V) → k ≢ j → lookup j (insert k v d) ≡ lookup j d
  lookup-insert_ne k j v d h = rw (lookup-insert k j v d, eq-false_of_ne k j h)

  -- Each key stands once.
  abbrev pub IsDict : Dict V → Type ℓ
  IsDict [] = Unit
  IsDict ((k, v) ∷ d) = (lookup k d ≡ none) × IsDict d

  pub insert-IsDict : (k : String) (v : V) (d : Dict V) → IsDict d → IsDict (insert k v d)
  unfolding insert lookup
  insert-IsDict k v [] h = (refl, tt)
  insert-IsDict k v ((j, w) ∷ d) h = elim (Bool-cases (j == k)) [
    | inl same ↦ rw same (ground (arith, eq_iff j k), h.1)
    | inr other ↦
        rw other (
          lookup-insert_ne k j v d (λ e. ground (arith, eq_iff j k)) ∙ h.0,
          insert-IsDict k v d h.1,
        )
  ]

  -- { ...base, ...more }
  abbrev pub merge : Dict V → Dict V → Dict V
  merge base [] = base
  merge base ((k, v) ∷ more) = merge (insert k v base) more

  abbrev pub or_else : Option V → Option V → Option V
  or_else none o = o
  or_else (some v) o = some v

  pub lookup-merge :
      (j : String) (base more : Dict V)
      → IsDict more
      → lookup j (merge base more) ≡ or_else (lookup j more) (lookup j base)
  unfolding lookup
  lookup-merge j base [] h = refl
  lookup-merge j base ((k, v) ∷ more) h = elim (Bool-cases (k == j)) [
    | inl same ↦
        lookup-merge j (insert k v base) more h.1
        ∙ rw (same, lookup-insert k j v base) (ground (arith, eq_iff k j))
    | inr other ↦
        lookup-merge j (insert k v base) more h.1 ∙ rw (lookup-insert k j v base, other) refl
  ]
