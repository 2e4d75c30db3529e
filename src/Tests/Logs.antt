-- ===== src/Tests/Logs.antt =====
-- The search in LogViewer of web/src/features/executions/index.tsx.
use cadentra.Prelude.{
  ℕ, pos, List, false, ◌≡◌, ◌≢◌, refl, String, some, [], ◌∷◌, true, filter, split,
}
use cadentra.Executions.Logs.{Chunk, content}
use cadentra.Executions.Detail.LogsTab
use cadentra.Executions.Detail.LogsTab.{
  Output, Event, mount, becomes, ticks, arrives, logs_arrive, stop_succeeds, changes_tab,
}
use cadentra.Executions.Logs.Viewer.{
  Viewer, init, searches, presses_wrap, run, contains, filtered, shown, copy,
}
use cadentra.Executions.Logs.Lines.{shown-lines}
use cadentra.Shared.Clipboard.{thrown}

abbrev as_written : String → String
as_written s = s

abbrev out_text : String
out_text = "an err\nfine\nerr 2"

abbrev searching : Viewer
searching = record init { search = "err" }

filtered-example : filtered as_written "err" out_text ≡ "an err\nerr 2"
unfolding filtered filter split contains
filtered-example = refl

searching-run : run init (searches "err" ∷ presses_wrap ∷ presses_wrap ∷ []) ≡ searching
unfolding run
searching-run = refl

-- Copying where nothing is found fails.
copy_nothing :
    copy
      (record { write_text = some true; copy_command = some true })
      as_written
      out_text
      ""
      []
      (record init { search = "warn" })
    ≡ thrown
unfolding copy content filter split contains
copy_nothing = refl

shown-lines_example :
    (filter (λ line. contains "err" line) (split "\n" (content "all" out_text "" [])) ≡ []
      → shown as_written out_text "" [] searching ≡ "")
    × (filter (λ line. contains "err" line) (split "\n" (content "all" out_text "" [])) ≢ []
        → split "\n" (shown as_written out_text "" [] searching)
          ≡ filter (λ line. contains "err" line) (split "\n" (content "all" out_text "" [])))
    × (filtered as_written "err" (shown as_written out_text "" [] searching)
        ≡ shown as_written out_text "" [] searching)
shown-lines_example = shown-lines as_written out_text "" [] searching refl

abbrev piece : ℕ → String → Chunk
piece seq s = record { stream = "stdout"; seq = pos seq; chunk = s }

abbrev running : Output
running = record { status = "RUNNING"; stdout = "a"; stderr = "" }

abbrev ended : Output
ended = record { status = "SUCCESS"; stdout = "ab"; stderr = "" }

-- The tab was opened when the hub had one piece.
abbrev on_tab : LogsTab.Page
unfolding LogsTab.run
on_tab =
    LogsTab.run (mount running (piece 1 "a" ∷ []))
      (arrives true ∷ changes_tab true false ∷ logs_arrive true ∷ [])

-- The execution goes on to its end, which the page learns.
abbrev goes_on : List Event
goes_on =
    becomes ended (piece 1 "a" ∷ piece 2 "b" ∷ [])
    ∷ ticks
    ∷ arrives true
    ∷ logs_arrive true
    ∷ stop_succeeds
    ∷ arrives true
    ∷ []
