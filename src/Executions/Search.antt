-- ===== src/Executions/Search.antt =====
-- The list of web/src/features/executions/index.tsx: its search parameters, what it asks the hub for,
-- and the rows that it shows.
use Prim.Native.String
use Prim.Native.Char.{code}
use cadentra.Prelude.{
  inl, inr, ap, filter-ext, arith, eq_iff, sym, ◌∙◌, ◌≡◌, ◌≢◌, refl, subst, Bool-cases, and-eq-true,
  All, includes-filter, includes-add_all, String, Option, none, some, List, [], ◌∷◌, map, Bool,
  true, false, not, ◌&&◌, ◌||◌, ◌==◌, get_or, nat_eq, truthy, filter, any, includes, Dict, lookup,
  insert, unique, if◌then◌else◌,
}
use cadentra.Api.{Task, Execution}

-- The search part of the address; a missing member is undefined.
pub record Search : Type 0 where
  pub q : Option String
  pub status : Option String
  pub trigger : Option String

pub data Key : Type 0 where
  to_q to_status to_trigger : Key

-- value || undefined
abbrev pub or_undefined : String → Option String
or_undefined value = if truthy value then some value else none

unfoldable pub update : Key → String → Search → Search
update to_q value s = record s { q = or_undefined value }
update to_status value s = record s { status = or_undefined value }
update to_trigger value s = record s { trigger = or_undefined value }

-- The path of the query; `encode` is encodeURIComponent.
unfoldable pub path : (String → String) → Search → String
path encode s = elim s.status [
  | none ↦ "/executions?limit=100"
  | some status ↦
      if truthy status
      then String.◌++◌ "/executions?limit=100&status=" (encode status)
      else "/executions?limit=100"
]

-- new Map(tasks.map((task) => [task.id, task.name]))
unfoldable pub names_of : List Task → Dict String → Dict String
names_of [] names = names
names_of (t ∷ ts) names = names_of ts (insert t.id t.name names)

unfoldable pub task_names : List Task → Dict String
unfolding names_of
task_names tasks = names_of tasks []

unfoldable pub starts_with : String → String → Bool
starts_with String.[] s = true
starts_with (String.◌∷◌ c p) String.[] = false
starts_with (String.◌∷◌ c p) (String.◌∷◌ d s) = nat_eq (code c) (code d) && starts_with p s

-- String.prototype.includes
unfoldable pub has_part : String → String → Bool
unfolding starts_with
has_part String.[] p = starts_with p ""
has_part (String.◌∷◌ c s) p = starts_with p (String.◌∷◌ c s) || has_part s p

-- `lower` is String.prototype.toLowerCase.
unfoldable pub matches_text : (String → String) → Dict String → String → Execution → Bool
unfolding any has_part
matches_text lower names q e =
    not (truthy q)
    || any (λ v. has_part (lower v) q)
        (e.id ∷ e.task_id ∷ get_or (lookup e.task_id names) "" ∷ e.node_id ∷ [])

unfoldable pub matches_trigger : Option String → Execution → Bool
matches_trigger none e = true
matches_trigger (some trigger) e = not (truthy trigger) || e.trigger_type == trigger

unfoldable pub visible : (String → String) → Dict String → Search → List Execution → List Execution
unfolding matches_text matches_trigger
visible lower names s runs =
    filter (λ e. matches_text lower names (lower (get_or s.q "")) e && matches_trigger s.trigger e)
      runs

-- The entries of the menu of triggers.
unfoldable pub triggers : List Execution → List String
triggers runs = unique (filter truthy (map (λ (e : Execution). e.trigger_type) runs))

-- A text that is a member of the mapped list comes from a run with that trigger.
any-trigger :
    (x : String) (runs : List Execution)
    → includes (map (λ (e : Execution). e.trigger_type) runs) x ≡ true
    → any (λ e. e.trigger_type == x) runs ≡ true
unfolding includes any
any-trigger x [] h = h
any-trigger x (e ∷ es) h = elim (Bool-cases (e.trigger_type == x)) [
  | inl same ↦ rw same refl
  | inr other ↦ rw other (any-trigger x es (rw other at h))
]

filter-ne-nil :
    (p : Execution → Bool) (runs : List Execution) → any p runs ≡ true → filter p runs ≢ []
unfolding any filter
filter-ne-nil p [] h = absurd (ground arith)
filter-ne-nil p (e ∷ es) h = elim (Bool-cases (p e)) [
  | inl on ↦ rw on (λ n. ground arith)
  | inr off ↦ rw off (filter-ne-nil p es (rw off at h))
]

offered :
    (x : String) (runs : List Execution)
    → includes (triggers runs) x ≡ true
    → (includes (map (λ (e : Execution). e.trigger_type) runs) x ≡ true) × (truthy x ≡ true)
unfolding triggers unique includes
offered x runs h = and-eq-true _ _ (
    sym (includes-filter truthy (map (λ (e : Execution). e.trigger_type) runs) x)
    ∙ sym (includes-add_all (filter truthy (map (λ (e : Execution). e.trigger_type) runs)) [] x)
    ∙ h)

has_trigger :
    (x : String) (runs : List Execution)
    → All (λ (e : Execution). e.trigger_type ≡ x) (filter (λ e. e.trigger_type == x) runs)
unfolding filter
has_trigger x [] = tt
has_trigger x (e ∷ es) = elim (Bool-cases (e.trigger_type == x)) [
  | inl same ↦ rw same (ground (arith, eq_iff e.trigger_type x), has_trigger x es)
  | inr other ↦ rw other (has_trigger x es)
]

module _ (lower : String → String) (names : Dict String) (s : Search) where
  no_search : (e : Execution) → matches_text lower names "" e ≡ true
  unfolding matches_text
  no_search e = refl

  one_trigger :
      (x : String) (e : Execution)
      → truthy x ≡ true
      → matches_trigger (or_undefined x) e ≡ (e.trigger_type == x)
  unfolding matches_trigger
  one_trigger x e full =
      let chosen : or_undefined x ≡ some x = rw full refl in
      ap (λ o. matches_trigger o e) chosen ∙ ap (λ b. not b || e.trigger_type == x) full

  by_trigger :
      (x : String) (runs : List Execution)
      → lower "" ≡ ""
      → s.q ≡ none
      → truthy x ≡ true
      → visible lower names (update to_trigger x s) runs ≡ filter (λ e. e.trigger_type == x) runs
  unfolding visible update
  by_trigger x runs nothing no_text full =
      filter-ext _ (λ e. e.trigger_type == x) runs
        (λ e.
          ap (λ q. matches_text lower names q e && matches_trigger (or_undefined x) e)
            (ap (λ o. lower (get_or o "")) no_text ∙ nothing)
          ∙ ap (λ b. b && matches_trigger (or_undefined x) e) (no_search e)
          ∙ one_trigger x e full)

  -- Without a search text, each trigger that the menu offers leaves at least one run in the list, and
  -- the runs that it leaves are those that have it.
  pub triggers-visible :
      (x : String) (runs : List Execution)
      → lower "" ≡ ""
      → s.q ≡ none
      → includes (triggers runs) x ≡ true
      → (visible lower names (update to_trigger x s) runs ≢ [])
        × All
            (λ (e : Execution). e.trigger_type ≡ x)
            (visible lower names (update to_trigger x s) runs)
  triggers-visible x runs nothing no_text there =
      let (named, full) = offered x runs there in
      let same = by_trigger x runs nothing no_text full in
      (
        (λ e.
            filter-ne-nil (λ r. r.trigger_type == x) runs (any-trigger x runs named)
              (sym same ∙ e)),
        subst (λ rs. All (λ (e : Execution). e.trigger_type ≡ x) rs) (sym same)
            (has_trigger x runs),
      )
