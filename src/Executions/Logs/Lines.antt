-- ===== src/Executions/Logs/Lines.antt =====
-- What the search of LogViewer of web/src/features/executions/index.tsx leaves of a text.
use Prim.Native.String
use Prim.Native.Char.{Char, code}
use text.Mathlib.TextLemmas.{cons-append, nil-append, append-nil}
use cadentra.Prelude.{
  ◌≡◌, ◌≢◌, refl, sym, ap, ◌∙◌, subst, inl, inr, String, none, some, List, [], ◌∷◌, true, false,
  nat_eq, arith, Bool, if-either, List-cases, Bool-cases, All, All-filter, filter, truthy, after,
  split_from, split, Lacks, before, split_none, split_some, split_from-pass, split_from-plain,
}
use cadentra.Executions.Logs.{Chunk, join, content}
use cadentra.Executions.Logs.Viewer.{Viewer, contains, has, filtered, shown}

at_end : (c : Char) (s : String) → nat_eq (code c) 10 ≡ true → after "\n" (String.◌∷◌ c s) ≡ some s
unfolding after
at_end c s h = ground (arith, h)

within : (c : Char) (s : String) → nat_eq (code c) 10 ≡ false → after "\n" (String.◌∷◌ c s) ≡ none
unfolding after
within c s h = ground (arith, h)

-- No line has a line feed.
abbrev AreLines : String × List String → Type 0
AreLines parts = Lacks 10 parts.0 × All (Lacks 10) parts.1

split_from-AreLines : (s : String) → AreLines (split_from "\n" 0 s)
unfolding split_from
split_from-AreLines String.[] = (tt, tt)
split_from-AreLines (String.◌∷◌ c s) = elim (Bool-cases (nat_eq (code c) 10)) [
  | inl e ↦ subst AreLines (sym (split_some "\n" c s s (at_end c s e))) (tt, split_from-AreLines s)
  | inr e ↦
      let (h, k) = split_from-AreLines s in
      subst AreLines (sym (split_none "\n" c s (within c s e))) ((e, h), k)
]

-- Lines that are joined are the lines of the text.
split_from-join :
    (l : String) (ls : List String)
    → Lacks 10 l
    → All (Lacks 10) ls
    → split_from "\n" 0 (join "\n" (l ∷ ls)) ≡ (l, ls)
unfolding join
split_from-join l [] h k = split_from-plain "\n" l h
split_from-join l (m ∷ ms) h k =
    let rest = join "\n" (m ∷ ms) in
    split_from-pass "\n" "" l (String.◌++◌ "\n" rest) h
    ∙ ap (λ w. before l (split_from "\n" 0 w))
        (cons-append "\n" "" rest ∙ ap (String.◌∷◌ "\n") (nil-append rest))
    ∙ ap (before l) (split_some "\n" "\n" rest rest (at_end "\n" rest refl))
    ∙ ap (λ (parts : String × List String). (String.◌++◌ l "", parts.0 ∷ parts.1))
        (split_from-join m ms k.0 k.1)
    ∙ ap (λ x. (x, m ∷ ms)) (append-nil l)

split-join : (ls : List String) → All (Lacks 10) ls → ls ≢ [] → split "\n" (join "\n" ls) ≡ ls
unfolding split join
split-join [] h some_line = absurd (some_line refl)
split-join (l ∷ ls) h some_line =
    ap (λ (parts : String × List String). parts.0 ∷ parts.1) (split_from-join l ls h.0 h.1)

filter-filter : (p : String → Bool) (xs : List String) → filter p (filter p xs) ≡ filter p xs
unfolding filter
filter-filter p [] = refl
filter-filter p (x ∷ xs) = elim (Bool-cases (p x)) [
  | inl e ↦ rw (e, e) (ap (λ r. x ∷ r) (filter-filter p xs))
  | inr e ↦ rw e (filter-filter p xs)
]

join-nothing : (p : String → Bool) → join "\n" (filter p ("" ∷ [])) ≡ ""
unfolding filter join
join-nothing p = if-either (λ ls. join "\n" ls ≡ "") (p "") refl refl

module _ (lower : String → String) (search text : String) (given : truthy search ≡ true) where
  abbrev pub found : List String
  found = filter (has lower search) (split "\n" text)

  split-Lacks : All (Lacks 10) found
  unfolding split
  split-Lacks =
      let (h, k) = split_from-AreLines text in
      All-filter (Lacks 10) (has lower search) (split "\n" text) (h, k)

  searched :
      (s : String) → filtered lower search s ≡ join "\n" (filter (has lower search) (split "\n" s))
  unfolding filtered
  searched s = rw given refl

  found_none : found ≡ [] → filtered lower search text ≡ ""
  unfolding join
  found_none e = searched text ∙ ap (join "\n") e

  found_some : found ≢ [] → split "\n" (filtered lower search text) ≡ found
  found_some h = ap (split "\n") (searched text) ∙ split-join found split-Lacks h

  search_again : filtered lower search (filtered lower search text) ≡ filtered lower search text
  unfolding split
  search_again = elim (List-cases found) [
    | inl e ↦
        ap (filtered lower search) (found_none e)
        ∙ searched ""
        ∙ join-nothing (has lower search)
        ∙ sym (found_none e)
    | inr h ↦
        searched (filtered lower search text)
        ∙ ap (λ ls. join "\n" (filter (has lower search) ls)) (found_some h)
        ∙ ap (join "\n") (filter-filter (has lower search) (split "\n" text))
        ∙ sym (searched text)
  ]

-- A search for a text that is not empty leaves of the chosen stream's text the lines that have the
-- searched text, whole and in their order, whatever the cases of letters are taken to be: the lines
-- of what is shown are these, or nothing is shown where there is none. Searching for it once more
-- changes nothing.
pub shown-lines :
    (lower : String → String) (out err : String) (chunks : List Chunk) (v : Viewer)
    → truthy v.search ≡ true
    → let text = content v.stream out err chunks in
      let found = filter (λ line. contains (lower v.search) (lower line)) (split "\n" text) in
      let result = shown lower out err chunks v in
      (found ≡ [] → result ≡ "")
      × (found ≢ [] → split "\n" result ≡ found)
      × (filtered lower v.search result ≡ result)
unfolding shown
shown-lines lower out err chunks v given =
    let text = content v.stream out err chunks in
    (
      found_none lower v.search text given,
      found_some lower v.search text given,
      search_again lower v.search text given,
    )
