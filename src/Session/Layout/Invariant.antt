-- ===== src/Session/Layout/Invariant.antt =====
-- What holds of the layout in web/src/components/layout/authenticated-layout.tsx between any two
-- steps.
use Prim.Native.Nat.{zero, suc}
use cadentra.Prelude.{
  ◌≡◌, refl, inl, inr, ℕ, String, Option, none, some, List, [], ◌∷◌, true, false, ℤ, All, arith,
  Bool-cases, subst, sym,
}
use cadentra.Session.Request.{Outcome, returned, api_error, thrown, receive}
use cadentra.Session.Client.{Client}
use cadentra.Session.Store.{SessionInfo, set_user, reset}
use cadentra.Session.Layout.{
  settled, finished, Check, Layout, clean_up, mount, run_again, take_down, on_session, on_outcome,
  on_end, nth, at, to_stage, answer, finish,
}
use cadentra.Session.Layout.Reach.{
  sign_out, denied, Step, reruns, leaves, answers, ends, signs_out, is_denied, Reach, start, later,
}
use cadentra.Navigation.{Url}
use cadentra.Session.Layout.Facts.{
  Known, Once, Dealt, AtWork, for_each_check, All-at, failure-Inv, left, run-Inv, work_settled,
  work_finished, Inv,
}

-- A run of the effect that is dealt with while `mounted` holds leaves a known session behind.
settled-Inv :
    (l m : Layout) (i : ℕ) (c : Check)
    → nth i l.checks ≡ some c
    → Inv l
    → Once m
    → m.checking ≡ l.checking
    → m.present ≡ l.present
    → (l.redirecting ≡ true → m.redirecting ≡ true)
    → (Known l → Known m)
    → (c.mounted ≡ true → Known m)
    → m.checks ≡ at i (to_stage settled) l.checks
    → Inv m
settled-Inv l m i c there h once same_checking same_present asks known got same_checks = record {
  once = once;
  shown = λ e. known (h.shown (ground arith));
  dealt =
      subst (λ cs. All (Dealt m) cs) (sym same_checks)
        (All-at (to_stage settled) i l.checks c there (λ x d s n. known (d s n)) (λ s n. got n)
          h.dealt);
  goes_on = λ e. elim (h.goes_on (ground arith)) [
    | inl opened ↦ inl (ground arith)
    | inr (inl asked) ↦ inr (inl (asks asked))
    | inr (inr work) ↦ inr (inr (subst AtWork (sym same_checks) (work_settled i l.checks work)))
  ];
}

dealt_with : Client → ℕ → Layout → Layout
dealt_with client i l = record l {
  app = record l.app { client = client };
  checks = at i (to_stage settled) l.checks;
}

module _ (client : Client) (i : ℕ) (c : Check) (l : Layout) (there : nth i l.checks ≡ some c)
    (h : Inv l) where
  unmounted-Inv : c.mounted ≡ false → Inv (dealt_with client i l)
  unfolding dealt_with
  unmounted-Inv gone =
      settled-Inv l (dealt_with client i l) i c there h h.once refl refl (λ e. e) (λ k. k)
        (λ e. absurd (ground arith)) refl

  session-Inv :
      (get_time : String → ℤ) (session : SessionInfo)
      → Inv (on_session get_time c.mounted session (dealt_with client i l))
  unfolding on_session dealt_with set_user
  session-Inv get_time session = elim (Bool-cases c.mounted) [
    | inl stays ↦
        let m = on_session get_time true session (dealt_with client i l) in
        let known : Known m = inr (inl (λ e. cc)) in
        rw stays
          (settled-Inv l m i c there h h.once refl refl (λ e. e) (λ k. known) (λ e. known) refl)
    | inr gone ↦ rw gone (unmounted-Inv gone)
  ]

  outcome-Inv :
      (get_time : String → ℤ) (location : Option Url) (o : Outcome SessionInfo)
      → Inv (on_outcome get_time location c.mounted o (dealt_with client i l))
  unfolding on_outcome dealt_with
  outcome-Inv get_time location (returned (some session)) = session-Inv get_time session
  outcome-Inv get_time location (returned none) = elim (Bool-cases c.mounted) [
    | inl stays ↦ rw stays (failure-Inv location (dealt_with client i l) h.once)
    | inr gone ↦ rw gone (unmounted-Inv gone)
  ]
  outcome-Inv get_time location (api_error e) = failure-Inv location (dealt_with client i l) h.once
  outcome-Inv get_time location thrown = failure-Inv location (dealt_with client i l) h.once

known_at :
    (i : ℕ) (cs : List Check) (c : Check) (P : Check → Type 0) → nth i cs ≡ some c → All P cs → P c
unfolding nth
known_at i [] c P there h = absurd (ground arith)
known_at zero (x ∷ xs) c P there h = subst P (ground arith) h.0
known_at (suc i) (x ∷ xs) c P there h = known_at i xs c P there h.1

finish-Inv :
    (l : Layout) (i : ℕ) (c : Check)
    → nth i l.checks ≡ some c
    → c.stage ≡ settled
    → Inv l
    → Inv (finish i c.mounted l)
unfolding finish on_end
finish-Inv l i c there at_end h =
    let known = known_at i l.checks c (Dealt l) there h.dealt (λ e. cc) in
    let dealt =
      All-at {P = Dealt l} {Q = Dealt l} (to_stage finished) i l.checks c there (λ x d. d)
        (λ s n. known n) h.dealt in
    elim (Bool-cases c.mounted) [
      | inl stays ↦ rw stays (record {
        once = h.once;
        shown = λ e. known stays;
        dealt = dealt;
        goes_on = λ e. inl refl;
      })
      | inr gone ↦ rw gone (record {
        once = h.once;
        shown = h.shown;
        dealt = dealt;
        goes_on = λ e. elim (h.goes_on e) [
          | inl opened ↦ inl opened
          | inr (inl asked) ↦ inr (inl asked)
          | inr (inr work) ↦ elim (work_finished i l.checks c there work) [
            | inl stays ↦ absurd (ground arith)
            | inr still ↦ inr (inr still)
          ]
        ];
      })
    ]

sign_out-Inv : (l : Layout) → Inv l → Inv (sign_out l)
unfolding sign_out reset
sign_out-Inv l h = record {
  once = h.once;
  shown = λ e. inr (inr refl);
  dealt = for_each_check (λ c s m. inr (inr refl)) l.checks;
  goes_on = h.goes_on;
}

denied-Inv : (l : Layout) → Inv l → Inv (denied l)
unfolding denied
denied-Inv l h = record { once = h.once; shown = h.shown; dealt = h.dealt; goes_on = h.goes_on }

Step-Inv : {get_time : String → ℤ} {l m : Layout} → Step get_time l m → Inv l → Inv m
unfolding run_again take_down clean_up answer dealt_with
Step-Inv {l} (reruns location here) h =
    run-Inv location (clean_up l) h.once h.shown (left (clean_up l) l.checks)
Step-Inv {l} (leaves here) h = record {
  once = h.once;
  shown = h.shown;
  dealt = left (take_down l) l.checks;
  goes_on = λ e. cc;
}
Step-Inv {get_time} {l} (answers location i c r there waits) h =
    let result = receive l.app.client r in
    outcome-Inv result.0 i c l there h get_time location result.2
Step-Inv {l} (ends i c there at_end) h = finish-Inv l i c there at_end h
Step-Inv {l} signs_out h = sign_out-Inv l h
Step-Inv {l} is_denied h = denied-Inv l h

-- What every interleaving of the effect's runs, the hub's answers and signing out keeps: the layout
-- asks for the sign-in page at most once; where it shows the pages, a user is known, or the sign-in
-- page has been asked for, or the store has no token; and a layout that still waits and has not
-- asked for the sign-in page has a check of the session at work.
pub Reach-Inv : {get_time : String → ℤ} {l : Layout} → Reach get_time l → Inv l
unfolding mount
Reach-Inv (start location app) = run-Inv location _ (inl (refl, refl)) (λ e. cc) tt
Reach-Inv (later r s) = Step-Inv s (Reach-Inv r)
