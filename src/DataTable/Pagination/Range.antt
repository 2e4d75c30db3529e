-- ===== src/DataTable/Pagination/Range.antt =====
-- The buttons of web/src/components/data-table/pagination.tsx keep to the pages that there are.
use native.Mathlib.Nat.{le-div_iff_mul-le, div-mul-le_self}
use cadentra.Prelude.{
  ℕ, ◌+◌, ◌-◌, ◌*◌, ◌/◌, ◌≤◌, ◌<◌, ◌≡◌, sym, ◌∙◌, subst, inl, inr, List, [], ◌∷◌, true, ltb, nat_eq,
  arith, Bool-cases,
}
use cadentra.Pages.{PageItem, page, ellipsis}
use cadentra.Pages.Laws.{Climbs, get_page_numbers-Climbs}
use cadentra.DataTable.Pagination.{
  Table, IsLawful, Press, presses_first, presses_previous, presses_next, presses_last,
  presses_number, chooses_size, has_button, is_size, page_numbers, step, run,
}

Climbs-le : (total last : ℕ) (items : List PageItem) → Climbs total last items → last ≤ total
Climbs-le total last [] h = omega arith
Climbs-le total last (page q ∷ items) h = omega (arith, Climbs-le total q items h.1)
Climbs-le total last (ellipsis ∷ page q ∷ items) h = omega (arith, Climbs-le total q items h.1)
Climbs-le total last (ellipsis ∷ ellipsis ∷ items) h = absurd h
Climbs-le total last (ellipsis ∷ []) h = absurd h

-- A button is one of a page that there is.
has_button-bounds :
    (p total last : ℕ) (items : List PageItem)
    → Climbs total last items
    → has_button p items ≡ true
    → (last < p) × (p ≤ total)
has_button-bounds p total last [] h e = absurd (ground arith)
has_button-bounds p total last (page q ∷ items) h e = elim (Bool-cases (nat_eq p q)) [
  | inl own ↦ ground (arith, Climbs-le total q items h.1)
  | inr other ↦
      let k = has_button-bounds p total q items h.1 (rw other at e) in (omega arith, omega arith)
]
has_button-bounds p total last (ellipsis ∷ page q ∷ items) h e =
    let k = has_button-bounds p total (q - 1) (page q ∷ items) (omega arith, h.1) e in
    (omega arith, omega arith)
has_button-bounds p total last (ellipsis ∷ ellipsis ∷ items) h e = absurd h
has_button-bounds p total last (ellipsis ∷ []) h e = absurd h

ceiling : (i rows size : ℕ) → 0 < size → i < (rows + size - 1) / size → i * size < rows
ceiling i rows size h k =
    let m : (i + 1) * size ≤ rows + size - 1 = (le-div_iff_mul-le h).0 (omega arith) in grind arith

ceiling_conv : (i rows size : ℕ) → 0 < size → i * size < rows → i < (rows + size - 1) / size
ceiling_conv i rows size h k =
    let m : (i + 1) * size ≤ rows + size - 1 = grind arith in
    let n : i + 1 ≤ (rows + size - 1) / size = (le-div_iff_mul-le h).1 m in omega arith

module _ (T : Table) (lawful : IsLawful T) where
  -- The page that is shown has a row.
  abbrev pub InRange : T.State → Type 0
  InRange s = (0 < T.page_size s) × (T.page_index s * T.page_size s < T.row_count s)

  set-InRange :
      (i : ℕ) (s : T.State) → i < T.page_count s → InRange s → InRange (T.set_page_index i s)
  set-InRange i s k h =
      let (size, rows) = lawful.sets_page_alone i s in
      let below =
        ceiling i (T.row_count s) (T.page_size s) h.0 (subst (λ n. i < n) (lawful.counts s) k) in
      rw (size, rows, lawful.sets i s k) (h.0, below)

  resize-InRange : (n : ℕ) (s : T.State) → 0 < n → InRange s → InRange (T.set_page_size n s)
  resize-InRange n s pos h =
      let (size, rows, index) = lawful.resizes n s pos in
      rw (size, rows, index)
        (pos, grind (arith, div-mul-le_self (T.page_size s * T.page_index s) n))

  index-lt : (s : T.State) → InRange s → T.page_index s < T.page_count s
  index-lt s h =
      subst (λ n. T.page_index s < n) (sym (lawful.counts s))
        (ceiling_conv (T.page_index s) (T.row_count s) (T.page_size s) h.0 h.1)

  number-lt :
      (p : ℕ) (s : T.State)
      → has_button p (page_numbers T s) ≡ true
      → (0 < p) × (p ≤ T.page_count s)
  unfolding page_numbers
  number-lt p s e =
      has_button-bounds p (T.page_count s) 0 _
        (get_page_numbers-Climbs (T.page_index s + 1) (T.page_count s)) e

  step-InRange : (s : T.State) (e : Press) → InRange s → InRange (step T s e)
  unfolding step
  step-InRange s presses_first h = elim (Bool-cases (T.can_previous s)) [
    | inl on ↦ rw on (set-InRange 0 s (omega (arith, index-lt s h)) h)
    | inr off ↦ rw off h
  ]
  step-InRange s presses_previous h = elim (Bool-cases (T.can_previous s)) [
    | inl on ↦
        rw (on, lawful.goes_back s)
          (set-InRange (T.page_index s - 1) s (omega (arith, index-lt s h)) h)
    | inr off ↦ rw off h
  ]
  step-InRange s (presses_number p) h = elim (Bool-cases (has_button p (page_numbers T s))) [
    | inl on ↦ let bounds = number-lt p s on in rw on (set-InRange (p - 1) s (omega arith) h)
    | inr off ↦ rw off h
  ]
  step-InRange s presses_next h = elim (Bool-cases (T.can_next s)) [
    | inl on ↦
        let below : ltb (T.page_index s + 1) (T.page_count s) ≡ true =
          sym (lawful.can_next_lem s) ∙ on in
        rw (on, lawful.goes_on s) (set-InRange (T.page_index s + 1) s (ground arith) h)
    | inr off ↦ rw off h
  ]
  step-InRange s presses_last h = elim (Bool-cases (T.can_next s)) [
    | inl on ↦ rw on (set-InRange (T.page_count s - 1) s (omega (arith, index-lt s h)) h)
    | inr off ↦ rw off h
  ]
  step-InRange s (chooses_size n) h = elim (Bool-cases (is_size n)) [
    | inl on ↦ rw on (resize-InRange n s (ground arith) h)
    | inr off ↦ rw off h
  ]

  run-InRange : (s : T.State) (es : List Press) → InRange s → InRange (run T s es)
  unfolding run
  run-InRange s [] h = h
  run-InRange s (e ∷ es) h = run-InRange (step T s e) es (step-InRange s e h)

  -- Whatever buttons are pressed and sizes chosen from a page with a row on, in a table that does what
  -- its library documents, the page that is shown has a row; and each button with a number that is
  -- there then leads to the page of that number.
  pub run-lands :
      (s : T.State) (es : List Press)
      → InRange s
      → (0 < T.page_size (run T s es))
        × (T.page_index (run T s es) * T.page_size (run T s es) < T.row_count (run T s es))
        × ((p : ℕ)
            → has_button p (page_numbers T (run T s es)) ≡ true
            → T.page_index (step T (run T s es) (presses_number p)) + 1 ≡ p)
  unfolding step
  run-lands s es h =
      let (size, row) = run-InRange s es h in
      (
        size,
        row,
        (λ p on.
            let bounds = number-lt p (run T s es) on in
            let there = lawful.sets (p - 1) (run T s es) (omega arith) in
            rw on (omega (arith, there))),
      )
