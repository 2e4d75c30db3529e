-- ===== src/Executions/Detail/LogsTab.antt =====
-- The queries 'execution' and 'execution-logs' of ExecutionDetail in
-- web/src/features/executions/index.tsx, and the text that its LogViewer makes of their answers.
pub mod Frozen
use cadentra.Prelude.{
  String, Option, none, some, List, [], ◌∷◌, Bool, true, false, not, ◌&&◌, ◌||◌, ◌==◌, get_or,
  if◌then◌else◌,
}
use cadentra.Executions.Logs.{Chunk, content}

-- Execution of web/src/lib/api.ts, as far as the viewer and the timer read it.
pub record Output : Type 0 where
  pub status : String
  pub stdout : String
  pub stderr : String

-- `output` and `pieces` are what the hub has; `execution` and `logs` the last answers to the queries,
-- `failed` whether the last request for the execution has failed.
pub record Page : Type 0 where
  pub output : Output
  pub pieces : List Chunk
  pub execution : Option Output
  pub failed : Bool
  pub fetching : Bool
  pub logs_tab : Bool
  pub logs : Option (List Chunk)
  pub logs_fetching : Bool

abbrev pub mount : Output → List Chunk → Page
mount output pieces = record {
  output = output;
  pieces = pieces;
  execution = none;
  failed = false;
  fetching = true;
  logs_tab = false;
  logs = none;
  logs_fetching = false;
}

-- The hub goes on, the timer of the first query, the answers to the two queries and to the request
-- that stops the execution, and what the user does. `stop_succeeds` and `presses_retry` ask for the
-- execution again, by invalidateQueries with its key and by refetch. A query that is
-- `stale` is asked again when it is enabled, and when the window has the focus again.
pub data Event : Type 0 where
  becomes : Output → List Chunk → Event
  ticks : Event
  arrives logs_arrive : (accepted : Bool) → Event
  stop_succeeds presses_retry : Event
  changes_tab : (logs stale : Bool) → Event
  regains_focus : (stale : Bool) → Event

abbrev pub is_none : {A : Type 0} → Option A → Bool
is_none none = true
is_none (some a) = false

unfoldable pub is_running : Option Output → Bool
is_running none = false
is_running (some output) = output.status == "RUNNING"

-- The page itself is shown, and neither the spinner nor the error.
unfoldable pub is_shown : Page → Bool
is_shown p = not (is_none p.execution) && not p.failed

-- enabled: tab === 'logs'
unfoldable pub open_tab : Bool → Bool → Page → Page
open_tab false stale p = record p { logs_tab = false }
open_tab true stale p = record p {
  logs_tab = true;
  logs_fetching = p.logs_fetching || not p.logs_tab && (is_none p.logs || stale);
}

unfoldable pub step : Page → Event → Page
unfolding is_running is_shown open_tab
step p (becomes output pieces) = record p { output = output; pieces = pieces }
step p ticks = if is_running p.execution then record p { fetching = true } else p
step p (arrives true) =
    if p.fetching
    then record p { execution = some p.output; failed = false; fetching = false }
    else p
step p (arrives false) = if p.fetching then record p { failed = true; fetching = false } else p
step p (logs_arrive accepted) =
    if p.logs_fetching
    then record p { logs = if accepted then some p.pieces else p.logs; logs_fetching = false }
    else p
step p stop_succeeds = record p { fetching = true }
step p presses_retry = record p { fetching = true }
step p (changes_tab logs stale) = if is_shown p then open_tab logs stale p else p
step p (regains_focus stale) = record p {
  fetching = p.fetching || stale;
  logs_fetching = p.logs_fetching || p.logs_tab && stale;
}

unfoldable pub run : Page → List Event → Page
unfolding step
run p [] = p
run p (e ∷ es) = run (step p e) es

-- The text of LogViewer for the chosen stream, once the execution is there.
unfoldable pub text_of : String → Option Output → List Chunk → String
unfolding content
text_of stream none pieces = ""
text_of stream (some output) pieces = content stream output.stdout output.stderr pieces

-- logs.data || []
unfoldable pub viewed : String → Page → String
unfolding text_of
viewed stream p = text_of stream p.execution (get_or p.logs [])
