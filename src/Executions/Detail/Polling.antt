-- ===== src/Executions/Detail/Polling.antt =====
-- The polling in ExecutionDetail of web/src/features/executions/index.tsx.
use Prim.Native.Nat.{zero, suc}
use cadentra.Prelude.{
  ℕ, ◌+◌, ◌≡◌, refl, ap, sym, ◌∙◌, subst, some, List, [], ◌∷◌, ◌++◌, Bool, true, false, not, ◌&&◌,
  arith, ◌==◌, if-either, Bool-cases, inl, inr,
}
use cadentra.Executions.Detail.{
  Page, Event, becomes, ticks, arrives, presses_retry, presses_tab, presses_stop, changes_open,
  confirms, stop_answered, is_running, is_shown, offers_retry, offers_stop, offers_confirm,
  on_answer, step, run,
}

abbrev pub in_flight : Bool → ℕ
in_flight true = 1
in_flight false = 0

-- Every request to stop is answered with one message, or is the one under way.
abbrev pub Balanced : Page → Type 0
Balanced p = p.cancels ≡ p.stopped_toasts + p.error_toasts + in_flight p.stopping

idle_confirm : (p : Page) → offers_confirm p ≡ true → p.stopping ≡ false
unfolding offers_confirm
idle_confirm p e = ground (arith, e)

step-Balanced : (p : Page) (e : Event) → Balanced p → Balanced (step p e)
unfolding step
step-Balanced p (becomes status) h = h
step-Balanced p ticks h = if-either Balanced (is_running p.execution) h h
step-Balanced p (arrives true) h = if-either Balanced p.fetching h h
step-Balanced p (arrives false) h = if-either Balanced p.fetching h h
step-Balanced p presses_retry h = if-either Balanced (offers_retry p) h h
step-Balanced p (presses_tab logs) h = if-either Balanced (is_shown p) h h
step-Balanced p presses_stop h = if-either Balanced (offers_stop p) h h
step-Balanced p (changes_open b) h = h
step-Balanced p confirms h = elim (Bool-cases (offers_confirm p)) [
  | inl e ↦ rw e (ground (arith, h, idle_confirm p e))
  | inr e ↦ rw e h
]
step-Balanced p (stop_answered true) h = elim (Bool-cases p.stopping) [
  | inl e ↦ rw e (ground (arith, h))
  | inr e ↦ rw e (rw e at h)
]
step-Balanced p (stop_answered false) h = elim (Bool-cases p.stopping) [
  | inl e ↦ rw e (ground (arith, h))
  | inr e ↦ rw e (rw e at h)
]

run-Balanced : (es : List Event) (p : Page) → Balanced p → Balanced (run p es)
unfolding run
run-Balanced [] p h = h
run-Balanced (e ∷ es) p h = run-Balanced es (step p e) (step-Balanced p e h)

-- Polls that fail, one after the other.
unfoldable pub failing : ℕ → List Event
failing zero = []
failing (suc n) = ticks ∷ arrives false ∷ failing n

unfoldable pub poll : Bool → Page → Page
unfolding on_answer
poll accepted p = on_answer accepted (record p { fetching = true })

run-poll :
    (accepted : Bool) (p : Page) (es : List Event)
    → is_running p.execution ≡ true
    → run p (ticks ∷ arrives accepted ∷ es) ≡ run (poll accepted p) es
unfolding run step poll
run-poll accepted p es h = rw h refl

run-failing :
    (n : ℕ) (p : Page) (es : List Event)
    → is_running p.execution ≡ true
    → (q : Page) × (run p (failing n ++ es) ≡ run q es)
      × (q.execution ≡ p.execution)
      × (q.hub ≡ p.hub)
unfolding failing poll
run-failing zero p es h = (p, refl, refl, refl)
run-failing (suc n) p es h =
    let (q, e, same, hub) = run-failing n (poll false p) es h in
    (q, run-poll false p (failing n ++ es) h ∙ e, same, hub)

-- `q` shows what the hub of `p` has.
abbrev CaughtUp : Page → Page → Type 0
CaughtUp p q =
    (is_shown q ≡ true)
    × (q.execution ≡ some p.hub)
    × (offers_stop q ≡ ((p.hub == "RUNNING") && not q.stopping))
    × ((p.hub == "RUNNING") ≡ false → step q ticks ≡ q)

poll-CaughtUp : (p q : Page) → q.hub ≡ p.hub → CaughtUp p (poll true q)
unfolding poll is_shown offers_stop step is_running
poll-CaughtUp p q e =
    (refl, ap some e, ap (λ s. (s == "RUNNING") && not q.stopping) e, (λ h. rw (e, h) refl))

-- A page whose last answer says that the execution runs, and whose next polls fail, however many,
-- shows what the hub has with the first poll that is answered, and offers to stop it exactly if it
-- still runs and no request to stop it is under way. Once the execution does not run, the timer
-- asks no more.
pub run-catches_up :
    (n : ℕ) (p : Page)
    → is_running p.execution ≡ true
    → let q = run p (failing n ++ (ticks ∷ arrives true ∷ [])) in
      (is_shown q ≡ true)
      × (q.execution ≡ some p.hub)
      × (offers_stop q ≡ ((p.hub == "RUNNING") && not q.stopping))
      × ((p.hub == "RUNNING") ≡ false → step q ticks ≡ q)
unfolding run
run-catches_up n p h =
    let (q, e, same, hub) = run-failing n p (ticks ∷ arrives true ∷ []) h in
    subst (CaughtUp p) (sym (e ∙ run-poll true q [] (ap is_running same ∙ h)))
      (poll-CaughtUp p q hub)
