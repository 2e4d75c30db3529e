-- ===== src/Pages/Laws.antt =====
-- What getPageNumbers of web/src/lib/utils.ts shows.
use cadentra.Prelude.{
  ℕ, zero, suc, ◌+◌, ◌-◌, ◌≤◌, ◌<◌, ◌≡◌, refl, List, [], ◌∷◌, arith, length, leb, Bool, ◌⊎◌, true,
  false, ◌||◌, nat_eq, Bool-cases, inl, inr,
}
use cadentra.Pages.{
  PageItem, page, ellipsis, pages_from, page_loop, get_page_numbers, max_visible_pages,
}

-- The list climbs from the page after `last` to page `total`: a number is the next page, and an
-- ellipsis stands for one hidden page or more before the number behind it.
abbrev pub Climbs : ℕ → ℕ → List PageItem → Type 0
Climbs total last [] = last ≡ total
Climbs total last (page p ∷ items) = (p ≡ last + 1) × Climbs total p items
Climbs total last (ellipsis ∷ page p ∷ items) = (last + 1 < p) × Climbs total p items
Climbs total last (ellipsis ∷ _) = ⊥

Climbs-pages_from :
    (total last i n : ℕ) → i ≡ last + 1 → last + n ≡ total → Climbs total last (pages_from i n)
unfolding pages_from
Climbs-pages_from total last i zero e h = omega arith
Climbs-pages_from total last i (suc n) e h =
    (e, Climbs-pages_from total i (i + 1) n refl (omega arith))

-- The rounds of the loops whose bounds are not numerals.
rounds_all : (total : ℕ) → total + 1 - 1 ≡ total
rounds_all total = omega arith

rounds_end : (total : ℕ) → 3 ≤ total → total + 1 - (total - 3) ≡ 4
rounds_end total h = omega arith

rounds_middle : (current : ℕ) → 1 ≤ current → current + 1 + 1 - (current - 1) ≡ 3
rounds_middle current h = omega arith

-- The four layouts of the pager: a property that each has, under the conditions that lead to it,
-- holds of the result.
get_page_numbers_cases {ℓ} :
    (P : List PageItem → Type ℓ) (current total : ℕ)
    → (total ≤ 5 → P (pages_from 1 total))
    → (5 < total → current ≤ 3 → P (page 1 ∷ page 2 ∷ page 3 ∷ page 4 ∷ ellipsis ∷ page total ∷ []))
    → (5 < total
        → 3 < current
        → total ≤ current + 2
        → P (page 1 ∷ ellipsis ∷ pages_from (total - 3) 4))
    → (5 < total
        → 3 < current
        → current + 2 < total
        → P (
            page 1
            ∷ ellipsis
            ∷ page (current - 1)
            ∷ page current
            ∷ page (current + 1)
            ∷ ellipsis
            ∷ page total
            ∷ []))
    → P (get_page_numbers current total)
unfolding get_page_numbers page_loop pages_from
get_page_numbers_cases P current total few early late middle =
    elim (Bool-cases (leb total max_visible_pages)) [
      | inl small ↦ rw (small, rounds_all total) (few (ground arith))
      | inr large ↦ elim (Bool-cases (leb current 3)) [
        | inl low ↦ rw (large, low) (early (ground arith) (ground arith))
        | inr above ↦ elim (Bool-cases (leb (total - 2) current)) [
          | inl high ↦
              rw (large, above, high, rounds_end total (ground arith))
                (late (ground arith) (ground arith) (ground arith))
          | inr below ↦
              let here : current - 1 + 1 ≡ current = ground arith in
              rw (large, above, below, rounds_middle current (ground arith), here)
                (middle (ground arith) (ground arith) (ground arith))
        ]
      ]
    ]

-- For every page and every number of pages the list climbs from page 1 to the last page: each
-- number follows the one before it, but behind an ellipsis, which hides at least one page.
pub get_page_numbers-Climbs : (current total : ℕ) → Climbs total 0 (get_page_numbers current total)
unfolding pages_from
get_page_numbers-Climbs current total =
    get_page_numbers_cases (Climbs total 0) current total
      (λ _. Climbs-pages_from total 0 1 total (omega arith) (omega arith)) (λ h k. omega arith)
      (λ h k m. omega arith) (λ h k m. omega arith)

-- Is there a button for page `p`?
abbrev shows : ℕ → List PageItem → Bool
shows p [] = false
shows p (page q ∷ items) = nat_eq p q || shows p items
shows p (ellipsis ∷ items) = shows p items

shows-pages_from : (p i n : ℕ) → i ≤ p → p < i + n → shows p (pages_from i n) ≡ true
unfolding pages_from
shows-pages_from p i zero h k = absurd (omega arith)
shows-pages_from p i (suc n) h k = ground (arith, shows-pages_from p (i + 1) n)

-- On every page of the table there is a button for the first page and the last, for the page
-- itself and for the pages on either side of it.
get_page_numbers_reach :
    (current total p : ℕ)
    → 1 ≤ p
    → p ≤ total
    → 1 ≤ current
    → current ≤ total
    → (p ≡ 1) ⊎ (p ≡ total) ⊎ ((current ≤ p + 1) × (p ≤ current + 1))
    → shows p (get_page_numbers current total) ≡ true
unfolding pages_from
get_page_numbers_reach current total p p1 pn c1 cn near =
    get_page_numbers_cases (λ items. shows p items ≡ true) current total
      (λ _. shows-pages_from p 1 total p1 (omega arith)) (λ h k. ground arith)
      (λ h k m. ground arith) (λ h k m. ground arith)

length-pages_from : (i n : ℕ) → length (pages_from i n) ≡ n
unfolding pages_from
length-pages_from i zero = refl
length-pages_from i (suc n) = omega (arith, length-pages_from (i + 1) n)

-- The pager has one entry for each page up to five pages, and six or seven entries beyond.
pub length-get_page_numbers :
    (current total : ℕ)
    → ((total ≤ 5) × (length (get_page_numbers current total) ≡ total))
      ⊎ ((5 < total)
          × (6 ≤ length (get_page_numbers current total))
          × (length (get_page_numbers current total) ≤ 7))
unfolding pages_from
length-get_page_numbers current total =
    get_page_numbers_cases
      (λ items.
        ((total ≤ 5) × (length items ≡ total))
        ⊎ ((5 < total) × (6 ≤ length items) × (length items ≤ 7)))
      current total (λ h. inl (h, length-pages_from 1 total))
      (λ h k. inr (h, omega arith, omega arith)) (λ h k m. inr (h, omega arith, omega arith))
      (λ h k m. inr (h, omega arith, omega arith))
