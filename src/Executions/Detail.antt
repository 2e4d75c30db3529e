-- ===== src/Executions/Detail.antt =====
-- ExecutionDetail of web/src/features/executions/index.tsx, with the dialog of
-- web/src/components/confirm-dialog.tsx: the page of one execution, which is asked for again while
-- it runs, and stopped. The queries are those of @tanstack/react-query, which keeps the last answer
-- when a later request fails; the query for the logs is in LogsTab, that for the task is left out.
pub mod Polling
pub mod LogsTab
use Prim.Native.Nat.{suc}
use cadentra.Prelude.{
  ℕ, String, Option, none, some, List, [], ◌∷◌, Bool, true, false, not, ◌&&◌, ◌||◌, ◌==◌,
  if◌then◌else◌,
}

-- `hub` is the status that the hub has, `execution` the one of the last answer, `failed` whether the
-- last request has failed, and `cancels` counts the requests that stop the execution.
pub record Page : Type 0 where
  pub hub : String
  pub execution : Option String
  pub failed : Bool
  pub fetching : Bool
  pub logs_tab : Bool
  pub stop_open : Bool
  pub stopping : Bool
  pub cancels : ℕ
  pub stopped_toasts : ℕ
  pub error_toasts : ℕ

unfoldable pub mount : String → Page
mount status = record {
  hub = status;
  execution = none;
  failed = false;
  fetching = true;
  logs_tab = false;
  stop_open = false;
  stopping = false;
  cancels = 0;
  stopped_toasts = 0;
  error_toasts = 0;
}

-- The user's inputs, the answers of the hub, the timer of the query, and what the hub does itself.
pub data Event : Type 0 where
  becomes : String → Event
  ticks : Event
  arrives : (accepted : Bool) → Event
  presses_retry : Event
  presses_tab : (logs : Bool) → Event
  presses_stop : Event
  changes_open : Bool → Event
  confirms : Event
  stop_answered : (accepted : Bool) → Event

unfoldable pub is_running : Option String → Bool
is_running none = false
is_running (some status) = status == "RUNNING"

abbrev pub has_data : Option String → Bool
has_data none = false
has_data (some status) = true

-- The page itself is shown, and neither the spinner nor the error.
unfoldable pub is_shown : Page → Bool
is_shown p = has_data p.execution && not p.failed

-- The error is shown, with its button.
unfoldable pub offers_retry : Page → Bool
offers_retry p =
    (p.failed || not (has_data p.execution)) && not (p.fetching && not (has_data p.execution))

unfoldable pub offers_stop : Page → Bool
unfolding is_shown is_running
offers_stop p = is_shown p && is_running p.execution && not p.stopping

unfoldable pub offers_confirm : Page → Bool
unfolding is_shown
offers_confirm p = is_shown p && p.stop_open && not p.stopping

unfoldable pub on_answer : Bool → Page → Page
on_answer true p = record p { execution = some p.hub; failed = false; fetching = false }
on_answer false p = record p { failed = true; fetching = false }

unfoldable pub on_stop : Bool → Page → Page
on_stop true p = record p {
  stopping = false;
  fetching = true;
  stopped_toasts = suc p.stopped_toasts;
}
on_stop false p = record p { stopping = false; error_toasts = suc p.error_toasts }

unfoldable pub step : Page → Event → Page
unfolding is_running offers_retry offers_stop offers_confirm on_answer on_stop
step p (becomes status) = record p { hub = status }
step p ticks = if is_running p.execution then record p { fetching = true } else p
step p (arrives accepted) = if p.fetching then on_answer accepted p else p
step p presses_retry = if offers_retry p then record p { fetching = true } else p
step p (presses_tab logs) = if is_shown p then record p { logs_tab = logs } else p
step p presses_stop = if offers_stop p then record p { stop_open = true } else p
step p (changes_open b) = record p { stop_open = b }
step p confirms =
    if offers_confirm p
    then record p { stopping = true; cancels = suc p.cancels; stop_open = false }
    else p
step p (stop_answered accepted) = if p.stopping then on_stop accepted p else p

unfoldable pub run : Page → List Event → Page
unfolding step
run p [] = p
run p (e ∷ es) = run (step p e) es
