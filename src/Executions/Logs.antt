-- ===== src/Executions/Logs.antt =====
-- LogViewer of web/src/features/executions/index.tsx: the text that it makes of an execution's two
-- streams and of the pieces of them that the hub has stored.
pub mod Streams
pub mod Viewer
pub mod Lines
use cadentra.Prelude.{
  ◌≡◌, ◌≢◌, refl, ap, sym, ◌∙◌, inl, inr, String, List, [], ◌∷◌, Bool, true, false, ◌==◌, ◌||◌,
  filter, map, ℤ, pos, negsuc, leb_ℤ, truthy, if◌then◌else◌, arith, Bool-cases,
}
use Prim.Native.String
use mathlib.Core.Bool.{false≢true}
use mathlib.Core.HLevel.{¬_prop}
use mathlib.Core.List.{Permᴰ, Pairwise, mem-cons_self, not-mem-nil, eq-or-mem_of_mem-cons}
use mathlib.Core.Logic.Or
use mathlib.Core.List.Permᴰ

pub record Chunk : Type 0 where
  pub stream : String
  pub seq : ℤ
  pub chunk : String

-- Array.prototype.sort with the comparator a.seq - b.seq, which keeps the order of equals.
unfoldable pub insert_sorted : Chunk → List Chunk → List Chunk
insert_sorted c [] = c ∷ []
insert_sorted c (d ∷ ds) = if leb_ℤ c.seq d.seq then c ∷ d ∷ ds else d ∷ insert_sorted c ds

unfoldable pub sort : List Chunk → List Chunk
unfolding insert_sorted
sort [] = []
sort (c ∷ cs) = insert_sorted c (sort cs)

-- Array.prototype.join
unfoldable pub join : String → List String → String
join sep [] = ""
join sep (s ∷ []) = s
join sep (s ∷ t ∷ ts) = String.◌++◌ s (String.◌++◌ sep (join sep (t ∷ ts)))

unfoldable pub is_shown : String → Chunk → Bool
is_shown stream c = stream == "all" || c.stream == stream

unfoldable pub content : String → String → String → List Chunk → String
unfolding sort join is_shown filter
content stream out err [] =
    if stream == "stdout"
    then out
    else if stream == "stderr"
    then err
    else join "\n" (filter truthy (out ∷ err ∷ []))
content stream out err (c ∷ cs) =
    join "" (map (λ (d : Chunk). d.chunk) (filter (is_shown stream) (sort (c ∷ cs))))

-- The numbers of the pieces are different.
abbrev pub HasDistinctSeqs : List Chunk → Type 0
HasDistinctSeqs = Pairwise (λ (c d : Chunk). c.seq ≢ d.seq)

-- Two pieces with different numbers.
pub HasDistinctSeqs-pair : (c d : Chunk) → c.seq ≢ d.seq → HasDistinctSeqs (c ∷ d ∷ [])
HasDistinctSeqs-pair c d h =
    Pairwise.cons
      (λ x m.
        Or.elim ¬_prop (eq-or-mem_of_mem-cons m) (λ e k. h (k ∙ ap (λ (y : Chunk). y.seq) e))
          (λ m'. absurd (not-mem-nil m')))
      (Pairwise.cons (λ x m. absurd (not-mem-nil m)) Pairwise.nil)

leb_ℤ-antisym : (a b : ℤ) → leb_ℤ a b ≡ true → leb_ℤ b a ≡ true → a ≡ b
leb_ℤ-antisym (pos a) (pos b) h k = ap pos (ground arith)
leb_ℤ-antisym (pos a) (negsuc b) h k = ground arith
leb_ℤ-antisym (negsuc a) (pos b) h k = ground arith
leb_ℤ-antisym (negsuc a) (negsuc b) h k = ap negsuc (ground arith)

pub leb_ℤ-total : (a b : ℤ) → leb_ℤ a b ≡ false → leb_ℤ b a ≡ true
leb_ℤ-total a b h = ground arith

pub leb_ℤ-trans : (a b c : ℤ) → leb_ℤ a b ≡ true → leb_ℤ b c ≡ true → leb_ℤ a c ≡ true
leb_ℤ-trans a b c h k = ground arith

insert_sorted-ordered :
    (c d : Chunk) (cs : List Chunk)
    → leb_ℤ c.seq d.seq ≡ true
    → leb_ℤ d.seq c.seq ≡ false
    → insert_sorted c (insert_sorted d cs) ≡ insert_sorted d (insert_sorted c cs)
unfolding insert_sorted
insert_sorted-ordered c d [] h k = rw (h, k) refl
insert_sorted-ordered c d (e ∷ es) h k = elim (Bool-cases (leb_ℤ c.seq e.seq)) [
  | inl p ↦ elim (Bool-cases (leb_ℤ d.seq e.seq)) [
    | inl q ↦ rw (p, q, h, k) refl
    | inr q ↦ rw (p, q, p, k) refl
  ]
  | inr p ↦ elim (Bool-cases (leb_ℤ d.seq e.seq)) [
    | inl q ↦ absurd (false≢true (sym p ∙ leb_ℤ-trans c.seq d.seq e.seq h q))
    | inr q ↦ rw (p, q, p) (ap (λ r. e ∷ r) (insert_sorted-ordered c d es h k))
  ]
]

insert_sorted_comm :
    (c d : Chunk) (cs : List Chunk)
    → c.seq ≢ d.seq
    → insert_sorted c (insert_sorted d cs) ≡ insert_sorted d (insert_sorted c cs)
insert_sorted_comm c d cs h = elim (Bool-cases (leb_ℤ c.seq d.seq)) [
  | inl p ↦ elim (Bool-cases (leb_ℤ d.seq c.seq)) [
    | inl q ↦ absurd (h (leb_ℤ-antisym c.seq d.seq p q))
    | inr q ↦ insert_sorted-ordered c d cs p q
  ]
  | inr p ↦ sym (insert_sorted-ordered d c cs (leb_ℤ-total c.seq d.seq p) p)
]

sort-Perm : {cs ds : List Chunk} → Permᴰ cs ds → HasDistinctSeqs cs → sort cs ≡ sort ds
unfolding sort
sort-Perm Permᴰ.nil h = refl
sort-Perm (Permᴰ.cons {b = b} {l₁ = l₁} e p) (Pairwise.cons h t) =
    ap (λ c. insert_sorted c (sort l₁)) e ∙ ap (insert_sorted b) (sort-Perm p t)
sort-Perm (Permᴰ.swap {a = a} {b = b} {a' = a'} {b' = b'} {l = l} e f) (Pairwise.cons h t) =
    insert_sorted_comm a b (sort l) (h b mem-cons_self)
    ∙ ap (λ c. insert_sorted c (insert_sorted a (sort l))) f
    ∙ ap (λ c. insert_sorted a' (insert_sorted c (sort l))) e
sort-Perm (Permᴰ.trans p q) h =
    sort-Perm p h ∙ sort-Perm q (Permᴰ.pairwise (λ a b. ¬_prop) (λ x y n e. n (sym e)) p h)

-- The text that the viewer shows does not depend on the order in which the hub gives the pieces, as
-- long as their numbers are different.
pub content-Perm :
    (stream out err : String) (cs ds : List Chunk)
    → Permᴰ cs ds
    → HasDistinctSeqs cs
    → content stream out err cs ≡ content stream out err ds
unfolding content
content-Perm stream out err [] [] p h = refl
content-Perm stream out err [] (d ∷ ds) p h =
    absurd (not-mem-nil (Permᴰ.mem (Permᴰ.symm p) mem-cons_self))
content-Perm stream out err (c ∷ cs) [] p h = absurd (not-mem-nil (Permᴰ.mem p mem-cons_self))
content-Perm stream out err (c ∷ cs) (d ∷ ds) p h =
    ap (λ xs. join "" (map (λ (x : Chunk). x.chunk) (filter (is_shown stream) xs))) (sort-Perm p h)
