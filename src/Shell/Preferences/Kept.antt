-- ===== src/Shell/Preferences/Kept.antt =====
-- What the providers of web/src/context show is the same after the page is loaded again.
use cadentra.Prelude.{
  ℕ, ◌≡◌, refl, sym, ap, ◌∙◌, subst, inl, inr, String, none, some, List, [], ◌∷◌, true, Dict,
  lookup, insert, remove, lookup-insert_self, lookup-insert_ne, lookup-remove, includes, eq_refl,
  Bool-cases, eq-false_of_ne,
}
use cadentra.Shell.Cookies.{set_cookie, remove_cookie}
use cadentra.Shell.Cookies.Parts.{IsJar}
use cadentra.Shell.Cookies.Reading.{get_cookie-cookie_text}
use cadentra.Shell.Cookies.Jar.{insert-IsJar, remove-IsJar}
use cadentra.Shell.Preferences.{
  Name, theme, font, direction, collapsible, variant, same, cookie_name, max_age, options,
  default_value, initial, Page, load, update, Event, sets, resets_theme, resets_font,
  resets_direction, resets_layout, set_value, drop_value, reset_layout, step, run,
}
use cadentra.Shell.Preferences.Names.{
  cookie_name-ne, eq_of_same, All-includes, no_sign, no_semicolon, IsReadable, options-IsReadable,
  initial-none,
}

-- Every provider shows what the cookies have for it.
pub record Inv (p : Page) : Type 0 where
  pub jar : IsJar p.cookies
  pub kept : (n : Name) → p.value n ≡ initial n (lookup (cookie_name n) p.cookies)

readable : (n : Name) (v : String) → includes (options n) v ≡ true → IsReadable n v
readable n v h = All-includes (IsReadable n) (options n) v (options-IsReadable n) h

load-value :
    (jar : Dict String) (n : Name)
    → IsJar jar
    → (load jar).value n ≡ initial n (lookup (cookie_name n) jar)
unfolding load
load-value jar n h = ap (initial n) (get_cookie-cookie_text (cookie_name n) (no_sign n) jar h)

load-Inv : (jar : Dict String) → IsJar jar → Inv (load jar)
unfolding load
load-Inv jar h = record { jar = h; kept = λ n. load-value jar n h }

-- What is shown and kept after a value and its cookie are written together.
insert-kept :
    (n m : Name) (v : String) (p : Page)
    → IsReadable n v
    → Inv p
    → update n v p.value m ≡ initial m (lookup (cookie_name m) (insert (cookie_name n) v p.cookies))
unfolding update
insert-kept n m v p (plain, back) h = elim (Bool-cases (same n m)) [
  | inl e ↦
      let found =
        ap (λ k. lookup (cookie_name k) (insert (cookie_name n) v p.cookies))
          (sym (eq_of_same n m e))
        ∙ lookup-insert_self (cookie_name n) v p.cookies in
      rw (e, found) (sym (ap (λ k. initial k (some v)) (sym (eq_of_same n m e)) ∙ back))
  | inr e ↦
      rw (e, lookup-insert_ne (cookie_name n) (cookie_name m) v p.cookies (cookie_name-ne n m e))
        (h.kept m)
]

remove-kept :
    (n m : Name) (p : Page)
    → Inv p
    → update n (default_value n) p.value m
      ≡ initial m (lookup (cookie_name m) (remove (cookie_name n) p.cookies))
unfolding update
remove-kept n m p h = elim (Bool-cases (same n m)) [
  | inl e ↦
      let gone : lookup (cookie_name n) (remove (cookie_name n) p.cookies) ≡ none =
        lookup-remove (cookie_name n) (cookie_name n) p.cookies
        ∙ rw (eq_refl (cookie_name n)) refl in
      let found =
        ap (λ k. lookup (cookie_name k) (remove (cookie_name n) p.cookies)) (sym (eq_of_same n m e))
        ∙ gone in
      rw (e, found) (sym (initial-none n) ∙ ap (λ k. initial k none) (eq_of_same n m e))
  | inr e ↦
      rw
        (
          e,
          lookup-remove (cookie_name n) (cookie_name m) p.cookies,
          eq-false_of_ne (cookie_name n) (cookie_name m) (cookie_name-ne n m e),
        )
        (h.kept m)
]

-- A browser that keeps what it is given.
pub record Keeps (write : String → Dict String → Dict String) (digits : ℕ → String) : Type 0 where
  pub stores :
      (n : Name) (v : String) (jar : Dict String)
      → includes (options n) v ≡ true
      → write (set_cookie digits (cookie_name n) v (max_age n)) jar ≡ insert (cookie_name n) v jar
  pub drops :
      (n : Name) (jar : Dict String)
      → write (remove_cookie (cookie_name n)) jar ≡ remove (cookie_name n) jar

module _ (write : String → Dict String → Dict String) (digits : ℕ → String)
    (k : Keeps write digits) where
  set-Inv :
      (n : Name) (v : String) (p : Page)
      → includes (options n) v ≡ true
      → Inv p
      → Inv (set_value write digits n v p)
  unfolding set_value
  set-Inv n v p ok h =
      let r = readable n v ok in
      record {
        jar =
            subst IsJar (sym (k.stores n v p.cookies ok))
              (insert-IsJar (cookie_name n) v p.cookies (no_sign n) (no_semicolon n) r.0 h.jar);
        kept = λ m.
            insert-kept n m v p r h
            ∙ sym (ap (λ jar. initial m (lookup (cookie_name m) jar)) (k.stores n v p.cookies ok));
      }

  drop-Inv : (n : Name) (p : Page) → Inv p → Inv (drop_value write digits n p)
  unfolding drop_value
  drop-Inv n p h = record {
    jar = subst IsJar (sym (k.drops n p.cookies)) (remove-IsJar (cookie_name n) p.cookies h.jar);
    kept = λ m.
        remove-kept n m p h
        ∙ sym (ap (λ jar. initial m (lookup (cookie_name m) jar)) (k.drops n p.cookies));
  }

  step-Inv : (p : Page) (e : Event) → Inv p → Inv (step write digits p e)
  unfolding step includes reset_layout
  step-Inv p (sets n v) h = elim (Bool-cases (includes (options n) v)) [
    | inl ok ↦ rw ok (set-Inv n v p ok h)
    | inr other ↦ rw other h
  ]
  step-Inv p resets_theme h = drop-Inv theme p h
  step-Inv p resets_font h = drop-Inv font p h
  step-Inv p resets_direction h = drop-Inv direction p h
  step-Inv p resets_layout h = set-Inv variant "inset" _ refl (set-Inv collapsible "icon" p refl h)

  run-Inv : (p : Page) (es : List Event) → Inv p → Inv (run write digits p es)
  unfolding run
  run-Inv p [] h = h
  run-Inv p (e ∷ es) h = run-Inv (step write digits p e) es (step-Inv p e h)

  -- In a browser that keeps and drops the cookies of the five providers as it is told, and whose
  -- cookies are in order at first, a page that is loaded again shows the theme, the font, the
  -- direction and both parts of the layout as before, whatever the user has set and reset and in
  -- whatever order.
  pub load-run :
      (jar : Dict String) (es : List Event) (n : Name)
      → IsJar jar
      → (load (run write digits (load jar) es).cookies).value n
        ≡ (run write digits (load jar) es).value n
  load-run jar es n h =
      let inv = run-Inv (load jar) es (load-Inv jar h) in
      load-value (run write digits (load jar) es).cookies n inv.jar ∙ sym (inv.kept n)
