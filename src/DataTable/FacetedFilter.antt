-- ===== src/DataTable/FacetedFilter.antt =====
-- web/src/components/data-table/faceted-filter.tsx: the values that a column is filtered by. The
-- table keeps the column's filter value; `none` is undefined, no filter.
use cadentra.Prelude.{
  ◌≡◌, ◌≢◌, refl, ◌∙◌, String, Option, none, some, List, [], ◌∷◌, Bool, false, not, ◌==◌, get_or,
  length, includes, ltb, add, delete, unique, includes-add, includes-delete, includes-add_all, inl,
  inr, if-either, ap, sym, arith, eq_iff, Bool-cases, if◌then◌else◌,
}

-- new Set(column?.getFilterValue() as string[])
unfoldable pub selected_values : Option (List String) → List String
unfolding unique
selected_values value = unique (get_or value [])

-- filterValues.length ? filterValues : undefined
unfoldable pub or_undefined : List String → Option (List String)
or_undefined [] = none
or_undefined (x ∷ xs) = some (x ∷ xs)

-- onSelect of an option
unfoldable pub select : String → Option (List String) → Option (List String)
unfolding or_undefined
select v value =
    let selected = selected_values value in
    or_undefined (if includes selected v then delete v selected else add v selected)

-- The entry that clears the filter is there only while a value is selected.
unfoldable pub clear_shown : Option (List String) → Bool
clear_shown value = ltb 0 (length (selected_values value))

pub data Event : Type 0 where
  selects : String → Event
  clears : Event

unfoldable pub step : Option (List String) → Event → Option (List String)
unfolding select
step value (selects v) = select v value
step value clears = if clear_shown value then none else value

unfoldable pub run : Option (List String) → List Event → Option (List String)
unfolding step
run value [] = value
run value (e ∷ es) = run (step value e) es

-- The same on a set as a test: a value changes sides, or all are out.
unfoldable pub flip : (String → Bool) → Event → String → Bool
flip f (selects v) y = if v == y then not (f y) else f y
flip f clears y = false

unfoldable pub flips : (String → Bool) → List Event → String → Bool
unfolding flip
flips f [] = f
flips f (e ∷ es) = flips (flip f e) es

get_or-or_undefined : (xs : List String) → get_or (or_undefined xs) [] ≡ xs
unfolding or_undefined
get_or-or_undefined [] = refl
get_or-or_undefined (x ∷ xs) = refl

or_undefined-some : (xs : List String) → or_undefined xs ≢ some []
unfolding or_undefined
or_undefined-some [] e = cc
or_undefined-some (x ∷ xs) e = ground arith

includes-selected :
    (value : Option (List String)) (y : String)
    → includes (selected_values value) y ≡ includes (get_or value []) y
unfolding selected_values unique includes
includes-selected value y = includes-add_all (get_or value []) [] y

select-flip :
    (v : String) (value : Option (List String)) (y : String)
    → includes (get_or (select v value) []) y
      ≡ (if v == y then not (includes (get_or value []) y) else includes (get_or value []) y)
unfolding select
select-flip v value y = elim (Bool-cases (includes (selected_values value) v)) [
  | inl there ↦ rw there (
      ap (λ xs. includes xs y) (get_or-or_undefined (delete v (selected_values value)))
      ∙ includes-delete v (selected_values value) y
      ∙ ground
          (arith, includes-selected value y, includes-selected value v, eq_iff v y, eq_iff y v))
  | inr missing ↦ rw missing (
      ap (λ xs. includes xs y) (get_or-or_undefined (add v (selected_values value)))
      ∙ includes-add v (selected_values value) y
      ∙ ground (arith, includes-selected value y, includes-selected value v, eq_iff v y))
]

includes-none : (xs : List String) (y : String) → ltb 0 (length xs) ≡ false → includes xs y ≡ false
unfolding includes
includes-none [] y h = refl
includes-none (x ∷ xs) y h = absurd (ground arith)

clear-flip :
    (value : Option (List String)) (y : String) → includes (get_or (step value clears) []) y ≡ false
unfolding step clear_shown includes
clear-flip value y = elim (Bool-cases (ltb 0 (length (selected_values value)))) [
  | inl on ↦ rw on refl
  | inr off ↦ rw off (sym (includes-selected value y) ∙ includes-none (selected_values value) y off)
]

step-flip :
    (value : Option (List String)) (f : String → Bool) (e : Event)
    → ((y : String) → includes (get_or value []) y ≡ f y)
    → (y : String) → includes (get_or (step value e) []) y ≡ flip f e y
unfolding step flip
step-flip value f (selects v) h y =
    select-flip v value y ∙ ap (λ b. if v == y then not b else b) (h y)
step-flip value f clears h y = clear-flip value y

run-flips :
    (value : Option (List String)) (f : String → Bool) (es : List Event)
    → ((y : String) → includes (get_or value []) y ≡ f y)
    → (y : String) → includes (get_or (run value es) []) y ≡ flips f es y
unfolding run flips
run-flips value f [] h y = h y
run-flips value f (e ∷ es) h y = run-flips (step value e) (flip f e) es (step-flip value f e h) y

step-some : (value : Option (List String)) (e : Event) → value ≢ some [] → step value e ≢ some []
unfolding step select or_undefined
step-some value (selects v) h = or_undefined-some (
    if includes (selected_values value) v
    then delete v (selected_values value)
    else add v (selected_values value))
step-some value clears h = if-either (λ w. w ≢ some []) (clear_shown value) (λ e. cc) h

run-some :
    (value : Option (List String)) (es : List Event) → value ≢ some [] → run value es ≢ some []
unfolding run
run-some value [] h = h
run-some value (e ∷ es) h = run-some (step value e) es (step-some value e h)

-- From any filter on, after any presses of the options and of the entry that clears it, the filter has
-- exactly the values that a set does whose members change sides at each press, and it never is an
-- empty list of values, unless it was one at first.
pub run_refines :
    (value : Option (List String)) (es : List Event)
    → value ≢ some []
    → ((y : String)
        → includes (get_or (run value es) []) y ≡ flips (includes (get_or value [])) es y)
      × (run value es ≢ some [])
run_refines value es h =
    (run-flips value (includes (get_or value [])) es (λ y. refl), run-some value es h)
