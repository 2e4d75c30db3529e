-- ===== src/Shell/Sidebar/Active.antt =====
-- Which links of the sidebar are drawn as active, web/src/components/layout/nav-group.tsx.
use cadentra.Prelude.{
  Lacks, ◌≡◌, refl, sym, ap, ◌∙◌, subst, ◌⊎◌, inl, inr, String, Option, none, some, List, [], ◌∷◌,
  true, false, ◌==◌, filter, split, split_from, split_some, after, split_from-plain, not, ◌&&◌,
  arith, eq_iff, Bool-cases, All,
}
use cadentra.Shell.Sidebar.{
  NavItem, link, group, SubItem, url_of, is_url, second, endpoint, has_child, same_text,
  same_section, check_is_active, links, active_links,
}

endpoint-plain : (u : String) → Lacks 63 u → endpoint u ≡ u
unfolding endpoint split
endpoint-plain u h = ap (λ (parts : String × List String). parts.0) (split_from-plain "?" u h)

abbrev IsPlainLink : NavItem → Type 0
IsPlainLink (link title url) = Lacks 63 url
IsPlainLink (group title items) = ⊥

-- A link whose url has no search is active exactly for the addresses of its own page.
check_is_active-link :
    (href : String) (item : NavItem)
    → IsPlainLink item
    → check_is_active href item false ≡ is_url (endpoint href) (url_of item)
unfolding check_is_active has_child
check_is_active-link href (group title items) h = absurd h
check_is_active-link href (link title url) h = elim (Bool-cases (href == url)) [
  | inl e ↦
      let own : (endpoint href == url) ≡ true =
        (eq_iff (endpoint href) url).1
          (ap endpoint ((eq_iff href url).0 e) ∙ endpoint-plain url h) in
      rw (e, own) refl
  | inr e ↦ rw e (ground arith)
]

segment-eq : (s : String) → second (split "/" (String.◌∷◌ "/" s)) ≡ some (split_from "/" 0 s).0
unfolding split after
segment-eq s =
    ap (λ (parts : String × List String). second (parts.0 ∷ parts.1)) (split_some "/" "/" s s refl)

no_section :
    (s title : String) (items : List SubItem)
    → same_section (String.◌∷◌ "/" s) (group title items) ≡ false
unfolding same_section
no_section s title items =
    ap (λ o. not (same_text o (some "")) && same_text o none) (segment-eq s) ∙ ground arith

-- What opens a group of links is the address of one of them; the test of the first segment is never
-- what decides.
check_is_active-group :
    (s title : String) (items : List SubItem)
    → check_is_active (String.◌∷◌ "/" s) (group title items) true
      ≡ has_child (String.◌∷◌ "/" s) (group title items)
unfolding check_is_active
check_is_active-group s title items = rw (no_section s title items) (ground arith)

filter-active :
    (href : String) (items : List NavItem)
    → All IsPlainLink items
    → filter (λ item. check_is_active href item false) items
      ≡ filter (λ item. is_url (endpoint href) (url_of item)) items
unfolding filter
filter-active href [] h = refl
filter-active href (item ∷ items) h =
    rw (check_is_active-link href item h.0, filter-active href items h.1) refl

abbrev HasDistinctUrls : List NavItem → Type 0
HasDistinctUrls [] = Unit
HasDistinctUrls (item ∷ items) =
    All (λ other. same_text (url_of item) (url_of other) ≡ false) items × HasDistinctUrls items

abbrev IsElsewhere : String → NavItem → Type 0
IsElsewhere e item = is_url e (url_of item) ≡ false

filter-none :
    (e : String) (items : List NavItem)
    → All (IsElsewhere e) items
    → filter (λ item. is_url e (url_of item)) items ≡ []
unfolding filter
filter-none e [] h = refl
filter-none e (item ∷ items) h = rw h.0 (filter-none e items h.1)

is_url-eq : (e : String) (o : Option String) → is_url e o ≡ true → o ≡ some e
is_url-eq e none h = absurd (ground arith)
is_url-eq e (some url) h = ap some (sym ((eq_iff e url).0 h))

is_url-same_text : (e : String) (o : Option String) → same_text (some e) o ≡ is_url e o
is_url-same_text e none = refl
is_url-same_text e (some url) = refl

others-IsElsewhere :
    (e : String) (items : List NavItem)
    → All (λ other. same_text (some e) (url_of other) ≡ false) items
    → All (IsElsewhere e) items
others-IsElsewhere e [] k = tt
others-IsElsewhere e (other ∷ items) k =
    (sym (is_url-same_text e (url_of other)) ∙ k.0, others-IsElsewhere e items k.1)

-- At most one of the items with different urls is the one of the address.
filter-cases :
    (e : String) (items : List NavItem)
    → HasDistinctUrls items
    → ((filter (λ item. is_url e (url_of item)) items ≡ []) × All (IsElsewhere e) items)
      ⊎ ((item : NavItem) × (filter (λ i. is_url e (url_of i)) items ≡ item ∷ [])
          × (url_of item ≡ some e))
unfolding filter
filter-cases e [] h = inl (refl, tt)
filter-cases e (item ∷ items) h = elim (Bool-cases (is_url e (url_of item))) [
  | inl here ↦
      let own = is_url-eq e (url_of item) here in
      let rest =
        others-IsElsewhere e items
          (subst (λ o. All (λ other. same_text o (url_of other) ≡ false) items) own h.0) in
      inr (item, rw (here, filter-none e items rest) refl, own)
  | inr there ↦ elim (filter-cases e items h.1) [
    | inl (nothing, elsewhere) ↦ inl (rw there nothing, (there, elsewhere))
    | inr (other, only, own) ↦ inr (other, rw there only, own)
  ]
]

links-IsPlainLink : All IsPlainLink links
links-IsPlainLink = ground arith

links-HasDistinctUrls : HasDistinctUrls links
links-HasDistinctUrls = ground arith

-- For every address of the console either no link of the sidebar is drawn as active, and then no
-- link has the address before its first question mark as its url, or exactly one is, and this has it.
pub active_links-cases :
    (href : String)
    → ((active_links href ≡ []) × All (λ item. is_url (endpoint href) (url_of item) ≡ false) links)
      ⊎ ((item : NavItem) × (active_links href ≡ item ∷ []) × (url_of item ≡ some (endpoint href)))
unfolding active_links
active_links-cases href =
    rw (filter-active href links links-IsPlainLink)
      (filter-cases (endpoint href) links links-HasDistinctUrls)
