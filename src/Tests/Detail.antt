-- ===== src/Tests/Detail.antt =====
-- The page of one execution, ExecutionDetail of web/src/features/executions/index.tsx.
use cadentra.Prelude.{◌≡◌, refl, some, [], ◌∷◌, ◌++◌, true, false, not, ◌&&◌, ◌==◌}
use cadentra.Executions.Detail.{
  Page, mount, becomes, ticks, arrives, presses_stop, confirms, stop_answered, is_running, is_shown,
  offers_stop, step, run,
}
use cadentra.Executions.Detail.Polling.{failing, run-catches_up}

-- The page shows a run that has ended in the hub.
abbrev behind : Page
unfolding run mount
behind = run (mount "RUNNING") (arrives true ∷ becomes "SUCCESS" ∷ [])

behind-is_running : is_running behind.execution ≡ true
unfolding run mount is_running
behind-is_running = refl

-- A run that is stopped is asked for again.
stopped-fetching :
    (run
      (mount "RUNNING")
      (arrives true ∷ presses_stop ∷ confirms ∷ confirms ∷ stop_answered true ∷ [])).fetching
    ≡ true
unfolding run mount
stopped-fetching = refl

run-catches_up_example :
    let q = run behind (failing 2 ++ (ticks ∷ arrives true ∷ [])) in
    (is_shown q ≡ true)
    × (q.execution ≡ some behind.hub)
    × (offers_stop q ≡ ((behind.hub == "RUNNING") && not q.stopping))
    × ((behind.hub == "RUNNING") ≡ false → step q ticks ≡ q)
run-catches_up_example = run-catches_up 2 behind behind-is_running
