-- ===== src/Prelude/Splitting.antt =====
-- String.prototype.split, and where a text has a separator.
use Prim.Native.Nat.{ℕ, zero, suc, ◌-◌}
use Prim.Native.String
use Prim.Native.String.{String}
use Prim.Native.Char.{Char, code}
use text.Mathlib.TextLemmas.{cons-append, nil-append, append-nil}
use mathlib.Core.Path.{◌≡◌, sym, ap, ◌∙◌}
use mathlib.Core.Bool.{true, false}
use mathlib.Core.Option.{Option, none, some}
use mathlib.Core.List.{List, [], ◌∷◌}
use native.Mathlib.Omega.{arith}
use cadentra.Prelude.Tests.{nat_eq, if◌then◌else◌}

-- What follows `p` in a text that starts with it.
unfoldable pub after : String → String → Option String
after String.[] s = some s
after (String.◌∷◌ c p) String.[] = none
after (String.◌∷◌ c p) (String.◌∷◌ d s) =
    let rest = after p s in if nat_eq (code c) (code d) then rest else none

abbrev pub size : String → ℕ
size String.[] = 0
size (String.◌∷◌ c s) = suc (size s)

-- String.prototype.split, from a place on: the first part, and the others. `n` characters are passed
-- over, being those of a separator that was found.
unfoldable pub split_from : String → ℕ → String → String × List String
split_from sep n String.[] = ("", [])
split_from sep zero (String.◌∷◌ c s) = elim (after sep (String.◌∷◌ c s)) [
  | none ↦ let rest = split_from sep 0 s in (String.◌∷◌ c rest.0, rest.1)
  | some r ↦ let rest = split_from sep (size sep - 1) s in ("", rest.0 ∷ rest.1)
]
split_from sep (suc n) (String.◌∷◌ c s) = split_from sep n s

unfoldable pub split : String → String → List String
unfolding split_from
split sep s = let parts = split_from sep 0 s in parts.0 ∷ parts.1

-- No character of the text has this number.
abbrev pub Lacks : ℕ → String → Type 0
Lacks n String.[] = Unit
Lacks n (String.◌∷◌ c s) = (nat_eq (code c) n ≡ false) × Lacks n s

same_code : (n : ℕ) → nat_eq n n ≡ true
same_code n = ground arith

pub after-append : (p s : String) → after p (String.◌++◌ p s) ≡ some s
unfolding after
after-append String.[] s = ap some (nil-append s)
after-append (String.◌∷◌ c p) s = rw (cons-append c p s, same_code (code c)) (after-append p s)

-- The first part and the rest, with a text before the first.
abbrev pub before : String → String × List String → String × List String
before u parts = (String.◌++◌ u parts.0, parts.1)

pub split_none :
    (sep : String) (c : Char) (s : String)
    → after sep (String.◌∷◌ c s) ≡ none
    → split_from sep 0 (String.◌∷◌ c s)
      ≡ (String.◌∷◌ c (split_from sep 0 s).0, (split_from sep 0 s).1)
unfolding split_from
split_none sep c s e =
    ap
      (λ (o : Option String). elim o [
        | none ↦ (String.◌∷◌ c (split_from sep 0 s).0, (split_from sep 0 s).1)
        | some r ↦ ("", (split_from sep (size sep - 1) s).0 ∷ (split_from sep (size sep - 1) s).1)
      ])
      e

pub split_some :
    (sep : String) (c : Char) (s r : String)
    → after sep (String.◌∷◌ c s) ≡ some r
    → split_from sep 0 (String.◌∷◌ c s)
      ≡ ("", (split_from sep (size sep - 1) s).0 ∷ (split_from sep (size sep - 1) s).1)
unfolding split_from
split_some sep c s r e =
    ap
      (λ (o : Option String). elim o [
        | none ↦ (String.◌∷◌ c (split_from sep 0 s).0, (split_from sep 0 s).1)
        | some r ↦ ("", (split_from sep (size sep - 1) s).0 ∷ (split_from sep (size sep - 1) s).1)
      ])
      e

other_first :
    (x : Char) (p : String) (c : Char) (s : String)
    → nat_eq (code c) (code x) ≡ false
    → after (String.◌∷◌ x p) (String.◌∷◌ c s) ≡ none
unfolding after
other_first x p c s h = ground (arith, h)

-- A text without the first character of the separator has no separator.
pub split_from-pass :
    (x : Char) (p u w : String)
    → Lacks (code x) u
    → split_from (String.◌∷◌ x p) 0 (String.◌++◌ u w) ≡ before u (split_from (String.◌∷◌ x p) 0 w)
unfolding split_from after
split_from-pass x p String.[] w h =
    let parts = split_from (String.◌∷◌ x p) 0 w in
    ap (split_from (String.◌∷◌ x p) 0) (nil-append w)
    ∙ ap (λ y. (y, parts.1)) (sym (nil-append parts.0))
split_from-pass x p (String.◌∷◌ c u) w h =
    let sep = String.◌∷◌ x p in
    let parts = split_from sep 0 w in
    ap (split_from sep 0) (cons-append c u w)
    ∙ split_none sep c (String.◌++◌ u w) (other_first x p c (String.◌++◌ u w) h.0)
    ∙ ap (λ (y : String × List String). (String.◌∷◌ c y.0, y.1)) (split_from-pass x p u w h.1)
    ∙ ap (λ y. (y, parts.1)) (sym (cons-append c u parts.0))

-- Passing over a separator.
pub split_from-skip :
    (sep u w : String) → split_from sep (size u) (String.◌++◌ u w) ≡ split_from sep 0 w
unfolding split_from
split_from-skip sep String.[] w = ap (split_from sep 0) (nil-append w)
split_from-skip sep (String.◌∷◌ c u) w = rw (cons-append c u w) (split_from-skip sep u w)

-- A text without the separator is its one part.
pub split_from-plain :
    (x : Char) (u : String) → Lacks (code x) u → split_from (String.◌∷◌ x "") 0 u ≡ (u, [])
unfolding split_from
split_from-plain x u h =
    ap (split_from (String.◌∷◌ x "") 0) (sym (append-nil u))
    ∙ split_from-pass x "" u "" h
    ∙ ap (λ y. (y, [])) (append-nil u)
