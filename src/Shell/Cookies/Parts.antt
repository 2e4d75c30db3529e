-- ===== src/Shell/Cookies/Parts.antt =====
-- Where a cookie is parted from the others by the splitting of web/src/lib/cookies.ts.
use Prim.Native.Nat.{suc}
use Prim.Native.String
use text.Mathlib.TextLemmas.{cons-append, nil-append, append_assoc}
use cadentra.Prelude.{
  after, size, split_from, Lacks, after-append, split_none, split_some, split_from-pass,
  split_from-skip, before, ◌-◌, ◌≡◌, refl, sym, ap, ◌∙◌, String, none, some, List, [], ◌∷◌, false,
  arith, ◌==◌, Dict, lookup,
}
use cadentra.Shell.Cookies.Split.{after-other}

-- One cookie of document.cookie, with the separator before it.
abbrev pub entry : String → String → String → String
entry n v w = String.◌∷◌ ";" (String.◌∷◌ " " (String.◌++◌ n (String.◌++◌ "=" (String.◌++◌ v w))))

-- The cookies, each with `; ` before it.
unfoldable pub entries : Dict String → String
entries [] = ""
entries ((n, v) ∷ jar) = entry n v (entries jar)

-- Cookies as the browser keeps them: each name once, no name with a sign of equality or a semicolon,
-- no value with a semicolon.
abbrev pub IsJar : Dict String → Type 0
IsJar [] = Unit
IsJar ((n, v) ∷ jar) = (lookup n jar ≡ none) × Lacks 61 n × Lacks 59 n × Lacks 59 v × IsJar jar

-- document.cookie: `name=value` for each, with `; ` between them.
unfoldable pub cookie_text : Dict String → String
cookie_text [] = ""
cookie_text ((n, v) ∷ jar) = String.◌++◌ n (String.◌++◌ "=" (String.◌++◌ v (entries jar)))

module _ (name : String) (no_sign : Lacks 61 name) where
  abbrev pub sep : String
  sep = String.◌∷◌ ";" (String.◌∷◌ " " (String.◌++◌ name "="))

  found_after : (v w : String) → after sep (entry name v w) ≡ some (String.◌++◌ v w)
  unfolding after
  found_after v w =
      ap (after (String.◌++◌ name "=")) (sym (append_assoc name "=" (String.◌++◌ v w)))
      ∙ after-append (String.◌++◌ name "=") (String.◌++◌ v w)

  -- What follows the first semicolon of a cookie of the name.
  found_rest :
      (v w : String)
      → Lacks 59 v
      → split_from sep
          (size sep - 1)
          (String.◌∷◌ " " (String.◌++◌ name (String.◌++◌ "=" (String.◌++◌ v w))))
        ≡ before v (split_from sep 0 w)
  unfolding split_from
  found_rest v w h =
      let text = String.◌++◌ name (String.◌++◌ "=" (String.◌++◌ v w)) in
      let long : size sep - 1 ≡ suc (size (String.◌++◌ name "=")) = omega arith in
      ap (λ k. split_from sep k (String.◌∷◌ " " text)) long
      ∙ ap (split_from sep (size (String.◌++◌ name "=")))
          (sym (append_assoc name "=" (String.◌++◌ v w)))
      ∙ split_from-skip sep (String.◌++◌ name "=") (String.◌++◌ v w)
      ∙ split_from-pass ";" (String.◌∷◌ " " (String.◌++◌ name "=")) v w h

  -- A cookie of the name is where the text is parted.
  pub entry_found :
      (v w : String)
      → Lacks 59 v
      → split_from sep 0 (entry name v w)
        ≡ ("", String.◌++◌ v (split_from sep 0 w).0 ∷ (split_from sep 0 w).1)
  entry_found v w h =
      split_some sep ";" (String.◌∷◌ " " (String.◌++◌ name (String.◌++◌ "=" (String.◌++◌ v w))))
        (String.◌++◌ v w) (found_after v w)
      ∙ ap (λ (x : String × List String). ("", x.0 ∷ x.1)) (found_rest v w h)

  other_rest :
      (n v w : String)
      → Lacks 59 n
      → Lacks 59 v
      → (split_from sep 0 (String.◌∷◌ " " (String.◌++◌ n (String.◌++◌ "=" (String.◌++◌ v w))))).1
        ≡ (split_from sep 0 w).1
  other_rest n v w h k =
      let p = String.◌∷◌ " " (String.◌++◌ name "=") in
      let text = String.◌++◌ n (String.◌++◌ "=" (String.◌++◌ v w)) in
      ap (λ x. (split_from sep 0 x).1)
        (sym (cons-append " " "" text ∙ ap (String.◌∷◌ " ") (nil-append text)))
      ∙ ap (λ (x : String × List String). x.1) (split_from-pass ";" p " " text (refl, tt))
      ∙ ap (λ (x : String × List String). x.1)
          (split_from-pass ";" p n (String.◌++◌ "=" (String.◌++◌ v w)) h)
      ∙ ap (λ (x : String × List String). x.1)
          (split_from-pass ";" p "=" (String.◌++◌ v w) (refl, tt))
      ∙ ap (λ (x : String × List String). x.1) (split_from-pass ";" p v w k)

  -- A cookie of another name stays in one part.
  pub entry_other :
      (n v w : String)
      → (name == n) ≡ false
      → Lacks 61 n
      → Lacks 59 n
      → Lacks 59 v
      → (q : String) × (split_from sep 0 (entry n v w) ≡ (String.◌∷◌ ";" q, (split_from sep 0 w).1))
  unfolding after
  entry_other n v w differ h k l =
      let text = String.◌∷◌ " " (String.◌++◌ n (String.◌++◌ "=" (String.◌++◌ v w))) in
      (
        (split_from sep 0 text).0,
        split_none sep ";" text (after-other name n (String.◌++◌ v w) differ no_sign h)
            ∙ ap (λ (rest : List String). (String.◌∷◌ ";" (split_from sep 0 text).0, rest))
                (other_rest n v w k l),
      )
