-- ===== src/Executions/Logs/Streams.antt =====
-- The pieces of one stream in LogViewer of web/src/features/executions/index.tsx.
use cadentra.Prelude.{
  ◌≡◌, refl, ap, ◌∙◌, sym, inl, inr, String, List, [], ◌∷◌, Bool, true, filter, map, All,
  All-filter, leb_ℤ, if◌then◌else◌, Bool-cases,
}
use cadentra.Executions.Logs.{
  Chunk, insert_sorted, sort, join, is_shown, content, leb_ℤ-total, leb_ℤ-trans,
}

abbrev pub IsBelow : Chunk → Chunk → Type 0
IsBelow c d = leb_ℤ c.seq d.seq ≡ true

abbrev pub IsSorted : List Chunk → Type 0
IsSorted [] = Unit
IsSorted (c ∷ cs) = All (IsBelow c) cs × IsSorted cs

All-trans : (c d : Chunk) (cs : List Chunk) → IsBelow c d → All (IsBelow d) cs → All (IsBelow c) cs
All-trans c d [] h k = tt
All-trans c d (e ∷ es) h k = (leb_ℤ-trans c.seq d.seq e.seq h k.0, All-trans c d es h k.1)

All-insert_sorted :
    (P : Chunk → Type 0) (c : Chunk) (cs : List Chunk) → P c → All P cs → All P (insert_sorted c cs)
unfolding insert_sorted
All-insert_sorted P c [] h k = (h, tt)
All-insert_sorted P c (d ∷ ds) h k = elim (Bool-cases (leb_ℤ c.seq d.seq)) [
  | inl e ↦ rw e (h, k)
  | inr e ↦ rw e (k.0, All-insert_sorted P c ds h k.1)
]

insert_sorted-IsSorted : (c : Chunk) (cs : List Chunk) → IsSorted cs → IsSorted (insert_sorted c cs)
unfolding insert_sorted
insert_sorted-IsSorted c [] h = (tt, tt)
insert_sorted-IsSorted c (d ∷ ds) h = elim (Bool-cases (leb_ℤ c.seq d.seq)) [
  | inl e ↦ rw e ((e, All-trans c d ds e h.0), h)
  | inr e ↦ rw e (
    All-insert_sorted (IsBelow d) c ds (leb_ℤ-total c.seq d.seq e) h.0,
    insert_sorted-IsSorted c ds h.1,
  )
]

sort-IsSorted : (cs : List Chunk) → IsSorted (sort cs)
unfolding sort
sort-IsSorted [] = tt
sort-IsSorted (c ∷ cs) = insert_sorted-IsSorted c (sort cs) (sort-IsSorted cs)

insert_sorted-below :
    (c : Chunk) (cs : List Chunk) → All (IsBelow c) cs → insert_sorted c cs ≡ c ∷ cs
unfolding insert_sorted
insert_sorted-below c [] h = refl
insert_sorted-below c (d ∷ ds) h = rw h.0 refl

filter-insert_sorted :
    (p : Chunk → Bool) (c : Chunk) (cs : List Chunk)
    → IsSorted cs
    → filter p (insert_sorted c cs) ≡ (if p c then insert_sorted c (filter p cs) else filter p cs)
unfolding filter insert_sorted
filter-insert_sorted p c [] h = refl
filter-insert_sorted p c (d ∷ ds) h = elim (Bool-cases (leb_ℤ c.seq d.seq)) [
  | inl e ↦ elim (Bool-cases (p c)) [
    | inl shown ↦
        rw (e, shown)
          (sym (
            insert_sorted-below c (filter p (d ∷ ds))
              (All-filter (IsBelow c) p (d ∷ ds) (e, All-trans c d ds e h.0))))
    | inr hidden ↦ rw (e, hidden) refl
  ]
  | inr e ↦ elim (Bool-cases (p d)) [
    | inl shown ↦ elim (Bool-cases (p c)) [
      | inl taken ↦
          rw (e, shown, taken, e) (ap (λ r. d ∷ r) (rw taken at (filter-insert_sorted p c ds h.1)))
      | inr left ↦
          rw (e, shown, left) (ap (λ r. d ∷ r) (rw left at (filter-insert_sorted p c ds h.1)))
    ]
    | inr hidden ↦ rw (e, hidden) (filter-insert_sorted p c ds h.1)
  ]
]

filter-sort : (p : Chunk → Bool) (cs : List Chunk) → filter p (sort cs) ≡ sort (filter p cs)
unfolding filter sort
filter-sort p [] = refl
filter-sort p (c ∷ cs) =
    filter-insert_sorted p c (sort cs) (sort-IsSorted cs) ∙ elim (Bool-cases (p c)) [
      | inl shown ↦ rw shown (ap (insert_sorted c) (filter-sort p cs))
      | inr hidden ↦ rw hidden (filter-sort p cs)
    ]

-- Where the hub has stored pieces, the text for a choice of the stream is made of the chosen pieces
-- alone, in the order of their numbers: the pieces of the other stream do not matter.
pub content-stream :
    (stream out err : String) (c : Chunk) (cs : List Chunk)
    → (content stream out err (c ∷ cs)
        ≡ join "" (map (λ (d : Chunk). d.chunk) (sort (filter (is_shown stream) (c ∷ cs)))))
      × IsSorted (sort (filter (is_shown stream) (c ∷ cs)))
unfolding content
content-stream stream out err c cs = (
  ap (λ xs. join "" (map (λ (d : Chunk). d.chunk) xs)) (filter-sort (is_shown stream) (c ∷ cs)),
  sort-IsSorted (filter (is_shown stream) (c ∷ cs)),
)
