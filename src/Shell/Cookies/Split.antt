-- ===== src/Shell/Cookies/Split.antt =====
-- Where a separator that begins with a semicolon is found, in the splitting of web/src/lib/cookies.ts.
use Prim.Native.String
use Prim.Native.Char.{Char, code}
use text.Mathlib.TextLemmas.{cons-append, nil-append}
use text.Mathlib.TextEquality.{codes_equal}
use cadentra.Prelude.{
  after, Lacks, ◌≡◌, refl, ap, ◌∙◌, String, none, true, false, nat_eq, arith, ne-of_eq-false,
  eq-false_of_ne, Bool-cases, inl, inr, ◌==◌,
}

other_sign :
    (d : Char) (s : String) → nat_eq (code d) 61 ≡ false → after "=" (String.◌∷◌ d s) ≡ none
unfolding after
other_sign d s h = ground (arith, h)

other_start :
    (c : Char) (p s : String)
    → nat_eq (code c) 61 ≡ false
    → after (String.◌∷◌ c p) (String.◌∷◌ "=" s) ≡ none
unfolding after
other_start c p s h = ground (arith, h)

tails_differ :
    (c d : Char) (s t : String)
    → nat_eq (code c) (code d) ≡ true
    → (String.◌∷◌ c s == String.◌∷◌ d t) ≡ false
    → (s == t) ≡ false
tails_differ c d s t same differ = eq-false_of_ne s t (λ e.
    ne-of_eq-false _ _ differ
      (ap (λ x. String.◌∷◌ x s) (codes_equal c d (ground arith)) ∙ ap (String.◌∷◌ d) e))

-- A name is followed by the sign of equality in no other place than its end.
pub after-other :
    (name n w : String)
    → (name == n) ≡ false
    → Lacks 61 name
    → Lacks 61 n
    → after (String.◌++◌ name "=") (String.◌++◌ n (String.◌++◌ "=" w)) ≡ none
unfolding after
after-other String.[] String.[] w differ h k = absurd (ground arith)
after-other String.[] (String.◌∷◌ d n) w differ h k =
    ap (after "=") (cons-append d n (String.◌++◌ "=" w)) ∙ other_sign d _ k.0
after-other (String.◌∷◌ c name) String.[] w differ h k =
    ap (after (String.◌++◌ (String.◌∷◌ c name) "="))
      (nil-append (String.◌++◌ "=" w) ∙ cons-append "=" "" w)
    ∙ ap (λ p. after p (String.◌∷◌ "=" (String.◌++◌ "" w))) (cons-append c name "=")
    ∙ other_start c (String.◌++◌ name "=") (String.◌++◌ "" w) h.0
after-other (String.◌∷◌ c name) (String.◌∷◌ d n) w differ h k =
    ap (λ p. after p (String.◌++◌ (String.◌∷◌ d n) (String.◌++◌ "=" w))) (cons-append c name "=")
    ∙ ap (after (String.◌∷◌ c (String.◌++◌ name "="))) (cons-append d n (String.◌++◌ "=" w))
    ∙ elim (Bool-cases (nat_eq (code c) (code d))) [
      | inl same ↦ rw same (after-other name n w (tails_differ c d name n same differ) h.1 k.1)
      | inr other ↦ rw other refl
    ]
