-- ===== src/Shell/Cookies/Reading.antt =====
-- What getCookie of web/src/lib/cookies.ts reads from the text of the browser's cookies.
use Prim.Native.String
use text.Mathlib.TextLemmas.{cons-append, nil-append, append-nil}
use cadentra.Prelude.{
  after, split_from, split, Lacks, split_none, split_some, split_from-pass, ◌⊎◌, subst,
  Option-cases, ◌≡◌, refl, sym, ap, ◌∙◌, String, none, some, List, [], ◌∷◌, false, arith,
  Bool-cases, inl, inr, ◌==◌, eq_iff, Dict, lookup,
}
use cadentra.Shell.Cookies.{first_part, value_of, get_cookie}
use cadentra.Shell.Cookies.Parts.{entry, entries, IsJar, cookie_text, sep, entry_found, entry_other}

module _ (name : String) (no_sign : Lacks 61 name) where
  -- A text that is empty or begins with a semicolon.
  abbrev Starts : String → Type 0
  Starts z = (z ≡ "") ⊎ ((q : String) × (z ≡ String.◌∷◌ ";" q))

  absent :
      (jar : Dict String)
      → IsJar jar
      → lookup name jar ≡ none
      → (z : String) × (split_from (sep name no_sign) 0 (entries jar) ≡ (z, [])) × Starts z
  unfolding entries lookup split_from
  absent [] h e = ("", refl, inl refl)
  absent ((n, v) ∷ jar) (once, no_eq, no_semi, plain, rest) e =
      let other : (n == name) ≡ false = ground arith in
      let (z, parts, start) = absent jar rest (ground arith) in
      let (q, parted) =
        entry_other name no_sign n v (entries jar) (ground (arith, eq_iff n name, eq_iff name n))
          no_eq no_semi plain in
      (
        String.◌∷◌ ";" q,
        parted ∙ ap (λ (x : String × List String). (String.◌∷◌ ";" q, x.1)) parts,
        inr (q, refl),
      )

  present :
      (jar : Dict String) (u : String)
      → IsJar jar
      → lookup name jar ≡ some u
      → (x : String) × (z : String) × (split_from (sep name no_sign) 0 (entries jar)
          ≡ (x, String.◌++◌ u z ∷ []))
        × Starts z
        × Lacks 59 u
  unfolding entries lookup
  present [] u h e = absurd (ground arith)
  present ((n, v) ∷ jar) u (once, no_eq, no_semi, plain, rest) e = elim (Bool-cases (n == name)) [
    | inl same ↦
        let here : n ≡ name = ground (arith, eq_iff n name) in
        let value : v ≡ u = ground arith in
        let (z, parts, start) = absent jar rest (subst (λ m. lookup m jar ≡ none) here once) in
        (
          "",
          z,
          ap (λ m. split_from (sep name no_sign) 0 (entry m v (entries jar))) here
              ∙ entry_found name no_sign v (entries jar) plain
              ∙ ap (λ (x : String × List String). ("", String.◌++◌ v x.0 ∷ x.1)) parts
              ∙ ap (λ w. ("", String.◌++◌ w z ∷ [])) value,
          start,
          subst (Lacks 59) value plain,
        )
    | inr other ↦
        let (x, z, parts, start, short) = present jar u rest (ground arith) in
        let (q, parted) =
          entry_other name no_sign n v (entries jar) (ground (arith, eq_iff n name, eq_iff name n))
            no_eq no_semi plain in
        (
          String.◌∷◌ ";" q,
          z,
          parted ∙ ap (λ (y : String × List String). (String.◌∷◌ ";" q, y.1)) parts,
          start,
          short,
        )
  ]

  at_semicolon : (q : String) → after ";" (String.◌∷◌ ";" q) ≡ some q
  unfolding after
  at_semicolon q = refl

  -- The value ends where the next cookie starts.
  value_of-present :
      (x u z : String) → Lacks 59 u → Starts z → value_of (x ∷ String.◌++◌ u z ∷ []) ≡ some u
  unfolding value_of split first_part
  value_of-present x u z h start =
      ap (λ (parts : String × List String). some parts.0) (split_from-pass ";" "" u z h)
      ∙ elim start [
        | inl empty ↦ ap some (ap (λ w. String.◌++◌ u (split_from ";" 0 w).0) empty ∙ append-nil u)
        | inr (q, next) ↦ ap some (
            ap (λ w. String.◌++◌ u (split_from ";" 0 w).0) next
            ∙ ap (λ (y : String × List String). String.◌++◌ u y.0)
                (split_some ";" ";" q q (at_semicolon q))
            ∙ append-nil u)
      ]

  -- `; ` before the text of the cookies.
  with_separator :
      (n v : String) (jar : Dict String)
      → String.◌++◌ "; " (cookie_text ((n, v) ∷ jar)) ≡ entries ((n, v) ∷ jar)
  unfolding cookie_text entries
  with_separator n v jar =
      let text = String.◌++◌ n (String.◌++◌ "=" (String.◌++◌ v (entries jar))) in
      cons-append ";" " " text
      ∙ ap (String.◌∷◌ ";") (cons-append " " "" text ∙ ap (String.◌∷◌ " ") (nil-append text))

  sep-eq : String.◌++◌ "; " (String.◌++◌ name "=") ≡ (sep name no_sign)
  sep-eq =
      let text = String.◌++◌ name "=" in
      cons-append ";" " " text
      ∙ ap (String.◌∷◌ ";") (cons-append " " "" text ∙ ap (String.◌∷◌ " ") (nil-append text))

  no_room : (n : String) → after (String.◌++◌ n "=") "" ≡ none
  unfolding after
  no_room String.[] = refl
  no_room (String.◌∷◌ c n) = ap (λ p. after p "") (cons-append c n "=")

  separator_only : (split_from (sep name no_sign) 0 "; ").1 ≡ []
  unfolding after split_from
  separator_only =
      ap (λ (x : String × List String). x.1) (split_none (sep name no_sign) ";" " " (no_room name))
      ∙ ap (λ (x : String × List String). x.1) (split_none (sep name no_sign) " " "" refl)

  read_parts :
      (jar : Dict String)
      → IsJar jar
      → value_of (
          (split_from (sep name no_sign) 0 (entries jar)).0
          ∷ (split_from (sep name no_sign) 0 (entries jar)).1)
        ≡ lookup name jar
  unfolding value_of
  read_parts jar h = elim (Option-cases (lookup name jar)) [
    | inl missing ↦
        let (z, parts, start) = absent jar h missing in
        ap (λ (x : String × List String). value_of (x.0 ∷ x.1)) parts ∙ sym missing
    | inr (u, there) ↦
        let (x, z, parts, start, short) = present jar u h there in
        ap (λ (y : String × List String). value_of (y.0 ∷ y.1)) parts
        ∙ value_of-present x u z short start
        ∙ sym there
  ]

  -- In a browser that keeps cookies with different names, whose names have neither a sign of equality
  -- nor a semicolon and whose values have no semicolon, a cookie is read as what is kept under its name,
  -- and as undefined where there is none. The name that is read has no sign of equality.
  pub get_cookie-cookie_text :
      (jar : Dict String) → IsJar jar → get_cookie name (some (cookie_text jar)) ≡ lookup name jar
  unfolding get_cookie split value_of cookie_text lookup
  get_cookie-cookie_text [] h =
      ap (λ p. value_of (split p (String.◌++◌ "; " (cookie_text [])))) sep-eq
      ∙ ap (λ (rest : List String). value_of ((split_from (sep name no_sign) 0 "; ").0 ∷ rest))
          separator_only
  get_cookie-cookie_text ((n, v) ∷ jar) h =
      ap (λ p. value_of (split p (String.◌++◌ "; " (cookie_text ((n, v) ∷ jar))))) sep-eq
      ∙ ap (λ w. value_of (split (sep name no_sign) w)) (with_separator n v jar)
      ∙ read_parts ((n, v) ∷ jar) h
