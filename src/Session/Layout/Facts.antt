-- ===== src/Session/Layout/Facts.antt =====
-- The invariant of the layout in web/src/components/layout/authenticated-layout.tsx, and how the
-- list of its checks keeps it.
use Prim.Native.Nat.{zero, suc}
use cadentra.Prelude.{
  ◌≡◌, ◌≢◌, refl, ◌⊎◌, inl, inr, ℕ, String, Option, none, some, List, [], ◌∷◌, map, true, false,
  All, arith, Bool-cases, truthy, subst,
}
use cadentra.Session.Store.{reset}
use cadentra.Session.Layout.{
  waiting, settled, finished, Check, Layout, redirect_to_sign_in, leave, run_effect, on_failure,
  nth, at, to_stage,
}
use cadentra.Navigation.{Url, current_path}

-- The sign-in page is asked for, or a user is known, or the store has no token.
abbrev pub Known : Layout → Type 0
Known l = (l.redirecting ≡ true) ⊎ (l.app.auth.user ≢ none) ⊎ (l.app.auth.access_token ≡ "")

abbrev pub Once : Layout → Type 0
Once l =
    ((l.redirecting ≡ false) × (l.visits ≡ []))
    ⊎ ((l.redirecting ≡ true) × ((p : String) × (l.visits ≡ p ∷ [])))

-- A check whose answer is dealt with before its effect was cleaned up.
abbrev pub Dealt : Layout → Check → Type 0
Dealt l c = c.stage ≢ waiting → c.mounted ≡ true → Known l

-- The newest run of the effect is still at work.
abbrev pub AtWork : List Check → Type 0
AtWork cs =
    (c : Check) × (rest : List Check) × (cs ≡ c ∷ rest) × (c.mounted ≡ true) × (c.stage ≢ finished)

pub record Inv (l : Layout) : Type 0 where
  pub once : Once l
  pub shown : l.checking ≡ false → Known l
  pub dealt : All (Dealt l) l.checks
  pub goes_on : l.present ≡ true → (l.checking ≡ false) ⊎ (l.redirecting ≡ true) ⊎ AtWork l.checks

pub for_each_check : {P : Check → Type 0} → ((c : Check) → P c) → (cs : List Check) → All P cs
for_each_check h [] = tt
for_each_check h (c ∷ cs) = (h c, for_each_check h cs)

All-imp :
    {P Q : Check → Type 0} → ((x : Check) → P x → Q x) → (cs : List Check) → All P cs → All Q cs
All-imp m [] h = tt
All-imp m (c ∷ cs) h = (m c h.0, All-imp m cs h.1)

pub All-at :
    {P Q : Check → Type 0} (f : Check → Check) (i : ℕ) (cs : List Check) (c : Check)
    → nth i cs ≡ some c
    → ((x : Check) → P x → Q x)
    → Q (f c)
    → All P cs
    → All Q (at i f cs)
unfolding at nth
All-at f i [] c e m q h = tt
All-at {Q} f zero (x ∷ xs) c e m q h = (subst (λ y. Q (f y)) (ground arith) q, All-imp m xs h.1)
All-at f (suc i) (x ∷ xs) c e m q h = (m x h.0, All-at f i xs c e m q h.1)

redirects :
    (location : Option Url) (l : Layout)
    → Once l
    → ((redirect_to_sign_in location l).redirecting ≡ true) × Once (redirect_to_sign_in location l)
unfolding redirect_to_sign_in
redirects location l h = elim h [
  | inl (before, none_yet) ↦ rw (before, none_yet) (refl, inr (refl, (current_path location, refl)))
  | inr (asked, (p, there)) ↦ rw asked (refl, inr (refl, (p, there)))
]

redirected-Inv : (l : Layout) → l.redirecting ≡ true → Once l → Inv l
redirected-Inv l asked once = record {
  once = once;
  shown = λ e. inl asked;
  dealt = for_each_check (λ c s m. inl asked) l.checks;
  goes_on = λ e. inr (inl asked);
}

redirect-Inv : (location : Option Url) (l : Layout) → Once l → Inv (redirect_to_sign_in location l)
redirect-Inv location l h =
    let (asked, once) = redirects location l h in
    redirected-Inv (redirect_to_sign_in location l) asked once

pub failure-Inv : (location : Option Url) (l : Layout) → Once l → Inv (on_failure location l)
unfolding on_failure
failure-Inv location l h = redirect-Inv location (record l { app = reset l.app }) h

-- No check that was cleaned up has anything to show.
pub left : (l : Layout) (cs : List Check) → All (Dealt l) (map leave cs)
unfolding leave
left l [] = tt
left l (c ∷ cs) = ((λ s m. absurd (ground arith)), left l cs)

pub run-Inv :
    (location : Option Url) (l : Layout)
    → Once l
    → (l.checking ≡ false → Known l)
    → All (Dealt l) l.checks
    → Inv (run_effect location l)
unfolding run_effect
run-Inv location l once shown dealt = elim (Bool-cases (truthy l.app.auth.access_token)) [
  | inl full ↦ rw full (record {
    once = once;
    shown = shown;
    dealt = ((λ s m. absurd (s refl)), dealt);
    goes_on = λ e. inr (inr (_, _, refl, refl, (λ f. cc)));
  })
  | inr empty ↦ rw empty (redirect-Inv location l once)
]

pub work_settled : (i : ℕ) (cs : List Check) → AtWork cs → AtWork (at i (to_stage settled) cs)
unfolding at
work_settled i [] (c, rest, e, m, s) = absurd (ground arith)
work_settled zero (x ∷ xs) (c, rest, e, m, s) = (_, _, refl, ground arith, (λ f. cc))
work_settled (suc i) (x ∷ xs) (c, rest, e, m, s) = (x, _, refl, ground arith, ground arith)

pub work_finished :
    (i : ℕ) (cs : List Check) (c : Check)
    → nth i cs ≡ some c
    → AtWork cs
    → (c.mounted ≡ true) ⊎ AtWork (at i (to_stage finished) cs)
unfolding at nth
work_finished i [] c there (d, rest, e, m, s) = absurd (ground arith)
work_finished zero (x ∷ xs) c there (d, rest, e, m, s) = inl (ground arith)
work_finished (suc i) (x ∷ xs) c there (d, rest, e, m, s) =
    inr (x, _, refl, ground arith, ground arith)
