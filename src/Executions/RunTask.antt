-- ===== src/Executions/RunTask.antt =====
-- RunTask of web/src/features/tasks/index.tsx, with the dialog of
-- web/src/components/confirm-dialog.tsx: a task is started by hand.
use Prim.Native.Nat.{suc}
use cadentra.Prelude.{
  ℕ, ◌+◌, ◌-◌, ◌≤◌, ◌≡◌, List, [], ◌∷◌, Bool, true, false, not, ◌&&◌, ltb, arith, Bool-cases, inl,
  inr, if-either, if◌then◌else◌,
}

-- `in_flight` are the POSTs that the hub has not answered, `calls` all that were sent, `errors` the
-- messages of those that have failed, and `visits` counts window.location.assign('/executions').
pub record Page : Type 0 where
  pub running : Bool
  pub confirm_open : Bool
  pub in_flight : ℕ
  pub calls : ℕ
  pub errors : ℕ
  pub visits : ℕ

abbrev pub init : Page
init = record {
  running = false;
  confirm_open = false;
  in_flight = 0;
  calls = 0;
  errors = 0;
  visits = 0;
}

-- Inputs of the user, and the end of a request.
pub data Event : Type 0 where
  presses_run : Event
  changes_open : Bool → Event
  confirms : Event
  answered : (accepted : Bool) → Event

-- run, up to the request
unfoldable pub start : Page → Page
start p = record p { running = true; in_flight = suc p.in_flight; calls = suc p.calls }

-- run, after the request
unfoldable pub finish : Bool → Page → Page
finish true p = record p { in_flight = p.in_flight - 1; visits = suc p.visits }
finish false p = record p { in_flight = p.in_flight - 1; errors = suc p.errors; running = false }

-- The buttons are disabled while `running` holds, and the dialog's are there while it is open.
unfoldable pub step : Page → Event → Page
unfolding start finish
step p presses_run = if p.running then p else record p { confirm_open = true }
step p (changes_open b) = record p { confirm_open = b }
step p confirms = if p.confirm_open && not p.running then start p else p
step p (answered accepted) = if ltb 0 p.in_flight then finish accepted p else p

unfoldable pub run : Page → List Event → Page
unfolding step
run p [] = p
run p (e ∷ es) = run (step p e) es

pub record Inv (p : Page) : Type 0 where
  pub balance : p.calls ≡ p.visits + p.errors + p.in_flight
  pub once : p.visits + p.in_flight ≤ 1
  pub idle : p.running ≡ false → p.visits + p.in_flight ≡ 0

start-Inv : (p : Page) → p.running ≡ false → Inv p → Inv (start p)
unfolding start
start-Inv p idle h = record {
  balance = omega (arith, h.balance);
  once = omega (arith, h.idle idle);
  idle = λ e. cc;
}

finish-Inv :
    (p : Page) (accepted : Bool) → ltb 0 p.in_flight ≡ true → Inv p → Inv (finish accepted p)
unfolding finish
finish-Inv p true busy h = record {
  balance = ground (arith, h.balance);
  once = ground (arith, h.once);
  idle = λ e. ground (arith, h.idle e);
}
finish-Inv p false busy h = record {
  balance = ground (arith, h.balance);
  once = ground (arith, h.once);
  idle = λ e. ground (arith, h.once);
}

step-Inv : (p : Page) (e : Event) → Inv p → Inv (step p e)
unfolding step
step-Inv p presses_run h =
    if-either Inv p.running h (record { balance = h.balance; once = h.once; idle = h.idle })
step-Inv p (changes_open b) h = record { balance = h.balance; once = h.once; idle = h.idle }
step-Inv p confirms h = elim (Bool-cases (p.confirm_open && not p.running)) [
  | inl on ↦ rw on (start-Inv p (ground arith) h)
  | inr off ↦ rw off h
]
step-Inv p (answered accepted) h = elim (Bool-cases (ltb 0 p.in_flight)) [
  | inl busy ↦ rw busy (finish-Inv p accepted busy h)
  | inr idle ↦ rw idle h
]

run-Inv : (p : Page) (es : List Event) → Inv p → Inv (run p es)
unfolding run
run-Inv p [] h = h
run-Inv p (e ∷ es) h = run-Inv (step p e) es (step-Inv p e h)

-- Whatever the user presses, every request to start the task that the page has sent has failed with a
-- message, is not answered yet, or is the one that has opened the list of runs; the last two are at
-- most one together, and none where the button is enabled.
pub run-init-Inv : (es : List Event) → Inv (run init es)
run-init-Inv es =
    run-Inv init es (record { balance = omega arith; once = omega arith; idle = λ e. omega arith })
