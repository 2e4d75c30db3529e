-- ===== src/Shell/Preferences/Names.antt =====
-- The cookies of the providers of web/src/context: which is whose, and what is read back as it is.
use cadentra.Prelude.{
  Lacks, ℕ, ◌≡◌, ◌≢◌, refl, sym, ap, ◌∙◌, subst, inl, inr, String, Option, none, some, List, [],
  ◌∷◌, true, false, nat_eq, ◌==◌, includes, arith, eq_iff, Bool-cases, All, if◌then◌else◌,
}
use cadentra.Shell.Preferences.{
  Name, theme, font, direction, collapsible, variant, index, same, cookie_name, options,
  default_value, initial,
}

-- Each cookie name belongs to one provider.
owner : String → Option ℕ
owner s =
    if s == "vite-ui-theme"
    then some 0
    else if s == "font"
    then some 1
    else if s == "dir"
    then some 2
    else if s == "layout_collapsible"
    then some 3
    else if s == "layout_variant"
    then some 4
    else none

owner-cookie_name : (n : Name) → owner (cookie_name n) ≡ some (index n)
unfolding owner
owner-cookie_name theme = refl
owner-cookie_name font = refl
owner-cookie_name direction = refl
owner-cookie_name collapsible = refl
owner-cookie_name variant = refl

pub cookie_name-ne : (n m : Name) → same n m ≡ false → cookie_name n ≢ cookie_name m
cookie_name-ne n m h e =
    let k : some (index n) ≡ some (index m) =
      sym (owner-cookie_name n) ∙ ap owner e ∙ owner-cookie_name m in
    ground arith

name_of : ℕ → Name
name_of n =
    if nat_eq n 0
    then theme
    else if nat_eq n 1
    then font
    else if nat_eq n 2
    then direction
    else if nat_eq n 3
    then collapsible
    else variant

name_of-index : (n : Name) → name_of (index n) ≡ n
unfolding name_of
name_of-index theme = refl
name_of-index font = refl
name_of-index direction = refl
name_of-index collapsible = refl
name_of-index variant = refl

pub eq_of_same : (n m : Name) → same n m ≡ true → n ≡ m
eq_of_same n m h =
    let e : index n ≡ index m = ground arith in
    sym (name_of-index n) ∙ ap name_of e ∙ name_of-index m

pub All-includes :
    (P : String → Type 0) (xs : List String) (v : String) → All P xs → includes xs v ≡ true → P v
unfolding includes
All-includes P [] v h k = absurd (ground arith)
All-includes P (x ∷ xs) v h k = elim (Bool-cases (x == v)) [
  | inl e ↦ subst P ((eq_iff x v).0 e) h.0
  | inr e ↦ All-includes P xs v h.1 (rw e at k)
]

pub no_sign : (n : Name) → Lacks 61 (cookie_name n)
no_sign theme = ground arith
no_sign font = ground arith
no_sign direction = ground arith
no_sign collapsible = ground arith
no_sign variant = ground arith

pub no_semicolon : (n : Name) → Lacks 59 (cookie_name n)
no_semicolon theme = ground arith
no_semicolon font = ground arith
no_semicolon direction = ground arith
no_semicolon collapsible = ground arith
no_semicolon variant = ground arith

-- A value that the provider reads back as it is.
abbrev pub IsReadable : Name → String → Type 0
IsReadable n v = Lacks 59 v × (initial n (some v) ≡ v)

pub options-IsReadable : (n : Name) → All (IsReadable n) (options n)
unfolding initial
options-IsReadable theme = ground arith
options-IsReadable font = ground arith
options-IsReadable direction = ground arith
options-IsReadable collapsible = ground arith
options-IsReadable variant = ground arith

pub initial-none : (n : Name) → initial n none ≡ default_value n
unfolding initial
initial-none theme = refl
initial-none font = refl
initial-none direction = refl
initial-none collapsible = refl
initial-none variant = refl
