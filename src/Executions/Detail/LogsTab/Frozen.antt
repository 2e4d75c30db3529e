-- ===== src/Executions/Detail/LogsTab/Frozen.antt =====
-- The log viewer of web/src/features/executions/index.tsx while an execution runs on.
use cadentra.Prelude.{◌≡◌, some, List, [], ◌∷◌, Bool, true, false}
use cadentra.Executions.Logs.{Chunk}
use cadentra.Executions.Detail.LogsTab.{Page, Event, logs_arrive, changes_tab, regains_focus}

-- The user stays on the tab and the window keeps its focus. Everything else may happen: the hub goes
-- on, the timer runs, requests are answered, also one for the logs, the execution is stopped.
abbrev pub stays : Event → Bool
stays (changes_tab logs stale) = false
stays (regains_focus stale) = false
stays _ = true

-- The pieces that the page has, with no request for others under way.
abbrev Has : List Chunk → Page → Type 0
Has cs p = (p.logs ≡ some cs) × (p.logs_fetching ≡ false)

-- The user leaves the tab and comes back when the answer is stale, and the hub answers.
abbrev pub reopening : List Event
reopening = changes_tab false true ∷ changes_tab true true ∷ logs_arrive true ∷ []
