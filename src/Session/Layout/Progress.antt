-- ===== src/Session/Layout/Progress.antt =====
-- A check of the session in web/src/components/layout/authenticated-layout.tsx comes to its end.
use cadentra.Prelude.{
  ◌≡◌, refl, ◌≢◌, ◌∙◌, ◌⊎◌, inl, inr, String, Option, none, some, List, [], ◌∷◌, Bool, true, false,
  ℤ, arith, Bool-cases, subst,
}
use cadentra.Session.Request.{Response, Outcome, returned, receive}
use cadentra.Session.Store.{SessionInfo}
use cadentra.Session.Layout.{
  Stage, waiting, settled, finished, Check, Layout, redirect_to_sign_in, on_session, on_failure,
  on_outcome, on_end, nth, at, to_stage, answer, finish,
}
use cadentra.Session.Layout.Reach.{answers, ends, Reach, later}
use cadentra.Session.Layout.Facts.{AtWork}
use cadentra.Session.Layout.Invariant.{Reach-Inv}
use cadentra.Navigation.{Url}

-- The console does not wait any more: the pages are shown, or the sign-in page has been asked for.
abbrev pub Decided : Layout → Type 0
Decided l = (l.checking ≡ false) ⊎ (l.redirecting ≡ true)

-- What the answer to a check leaves alone.
abbrev Keeps : Layout → Layout → Type 0
Keeps l m =
    (m.checks ≡ l.checks)
    × (m.checking ≡ l.checking)
    × (l.redirecting ≡ true → m.redirecting ≡ true)

module _ (get_time : String → ℤ) (location : Option Url) (r : Option (Response SessionInfo)) where
  unfoldable conclude_check : Stage → Bool → Layout → Layout
  unfolding answer finish
  conclude_check waiting mounted l = finish 0 mounted (answer get_time location 0 mounted r l)
  conclude_check settled mounted l = finish 0 mounted l
  conclude_check finished mounted l = l

  -- The newest run of the effect goes on to its end: its request is answered by `r`, if it is not
  -- answered yet, and its chain of promises ends.
  unfoldable conclude_first : List Check → Layout → Layout
  unfolding conclude_check
  conclude_first [] l = l
  conclude_first (c ∷ rest) l = conclude_check c.stage c.mounted l

  pub conclude : Layout → Layout
  unfolding conclude_first
  conclude l = conclude_first l.checks l

  failure-Keeps : (l : Layout) → Keeps l (on_failure location l)
  unfolding on_failure redirect_to_sign_in
  failure-Keeps l = elim (Bool-cases l.redirecting) [
    | inl asked ↦ rw asked (refl, refl, (λ e. refl))
    | inr quiet ↦ rw quiet (refl, refl, (λ e. refl))
  ]

  outcome-Keeps :
      (mounted : Bool) (o : Outcome SessionInfo) (l : Layout)
      → Keeps l (on_outcome get_time location mounted o l)
  unfolding on_outcome on_session
  outcome-Keeps true (returned (some session)) l = (refl, refl, (λ e. e))
  outcome-Keeps false (returned (some session)) l = (refl, refl, (λ e. e))
  outcome-Keeps false (returned none) l = (refl, refl, (λ e. e))
  outcome-Keeps mounted o l = failure-Keeps l

  answer-Keeps :
      (mounted : Bool) (l : Layout)
      → ((answer get_time location 0 mounted r l).checks ≡ at 0 (to_stage settled) l.checks)
        × ((answer get_time location 0 mounted r l).checking ≡ l.checking)
        × (l.redirecting ≡ true → (answer get_time location 0 mounted r l).redirecting ≡ true)
  unfolding answer
  answer-Keeps mounted l = outcome-Keeps mounted (receive l.app.client r).2 _

  finish-Decided : (mounted : Bool) (l : Layout) → Decided l → Decided (finish 0 mounted l)
  unfolding finish on_end
  finish-Decided true l h = inl refl
  finish-Decided false l h = h

  check-Decided :
      (s : Stage) (mounted : Bool) (l : Layout) → Decided l → Decided (conclude_check s mounted l)
  unfolding conclude_check
  check-Decided waiting mounted l h =
      let m = answer get_time location 0 mounted r l in
      let (_, checking, redirecting) = answer-Keeps mounted l in
      finish-Decided mounted m
        (elim h [ inl opened ↦ inl (checking ∙ opened) | inr asked ↦ inr (redirecting asked) ])
  check-Decided settled mounted l h = finish-Decided mounted l h
  check-Decided finished mounted l h = h

  check_mounted : (s : Stage) (l : Layout) → s ≢ finished → Decided (conclude_check s true l)
  unfolding conclude_check finish on_end
  check_mounted waiting l h = inl refl
  check_mounted settled l h = inl refl
  check_mounted finished l h = absurd (h refl)

  reach_check :
      (s : Stage) (mounted : Bool) (l : Layout) (rest : List Check)
      → l.checks ≡ record { mounted = mounted; stage = s } ∷ rest
      → Reach get_time l
      → Reach get_time (conclude_check s mounted l)
  unfolding conclude_check nth at
  reach_check waiting mounted l rest newest reached =
      let c : Check = record { mounted = mounted; stage = waiting } in
      let (checks, _, _) = answer-Keeps mounted l in
      later (later reached (answers location 0 c r (rw newest refl) refl))
        (ends 0 (to_stage settled c) (rw (checks, newest) refl) refl)
  reach_check settled mounted l rest newest reached =
      later reached (ends 0 (record { mounted = mounted; stage = settled }) (rw newest refl) refl)
  reach_check finished mounted l rest newest reached = reached

  work-Decided :
      (c : Check) (rest : List Check) (l : Layout)
      → AtWork (c ∷ rest)
      → Decided (conclude_check c.stage c.mounted l)
  work-Decided c rest l (d, others, same, stays, works) =
      subst (λ b. Decided (conclude_check c.stage b l)) (ground arith)
        (check_mounted c.stage l (ground arith))

  first-Decided :
      (l : Layout) (cs : List Check) → Decided l ⊎ AtWork cs → Decided (conclude_first cs l)
  unfolding conclude_first
  first-Decided l [] (inl decided) = decided
  first-Decided l [] (inr (c, rest, none_left, stays, works)) = absurd (ground arith)
  first-Decided l (c ∷ rest) (inl decided) = check-Decided c.stage c.mounted l decided
  first-Decided l (c ∷ rest) (inr work) = work-Decided c rest l work

  reach_first :
      (l : Layout) (cs : List Check)
      → l.checks ≡ cs
      → Reach get_time l
      → Reach get_time (conclude_first cs l)
  unfolding conclude_first
  reach_first l [] newest reached = reached
  reach_first l (c ∷ rest) newest reached = reach_check c.stage c.mounted l rest newest reached

  -- In every state that the layout can reach while it is on the page, whatever the hub answers to the
  -- newest check, and also if it does not answer but the request fails, the end of that check is a
  -- state in which the pages are shown or the sign-in page has been asked for.
  pub Reach-conclude :
      (l : Layout)
      → Reach get_time l
      → l.present ≡ true
      → Reach get_time (conclude l) × Decided (conclude l)
  unfolding conclude
  Reach-conclude l reached here = (
    reach_first l l.checks refl reached,
    first-Decided l l.checks (elim ((Reach-Inv reached).goes_on here) [
      | inl opened ↦ inl (inl opened)
      | inr (inl asked) ↦ inl (inr asked)
      | inr (inr work) ↦ inr work
    ]),
  )
