-- ===== src/Executions/Logs/Viewer.antt =====
-- The controls of LogViewer of web/src/features/executions/index.tsx: the search, the choice of the
-- stream, the switches, and the button that copies. `lower` is String.prototype.toLowerCase.
use cadentra.Prelude.{
  String, none, some, List, [], ◌∷◌, Bool, true, false, not, filter, truthy, split, after,
  if◌then◌else◌,
}
use cadentra.Executions.Logs.{Chunk, join, content}
use cadentra.Shared.Clipboard.{Browser, Copied, copy_text}

-- String.prototype.includes
unfoldable pub contains : String → String → Bool
unfolding after
contains q String.[] = elim (after q "") [ none ↦ false | some r ↦ true ]
contains q (String.◌∷◌ c s) =
    let later = contains q s in elim (after q (String.◌∷◌ c s)) [ none ↦ later | some r ↦ true ]

abbrev pub has : (String → String) → String → String → Bool
has lower search line = contains (lower search) (lower line)

unfoldable pub filtered : (String → String) → String → String → String
unfolding filter join split contains
filtered lower search text =
    if truthy search then join "\n" (filter (has lower search) (split "\n" text)) else text

pub record Viewer : Type 0 where
  pub search : String
  pub wrap : Bool
  pub follow : Bool
  pub stream : String

abbrev pub init : Viewer
init = record { search = ""; wrap = false; follow = false; stream = "all" }

pub data Event : Type 0 where
  searches : String → Event
  chooses : String → Event
  presses_wrap presses_follow : Event

unfoldable pub step : Viewer → Event → Viewer
step v (searches text) = record v { search = text }
step v (chooses stream) = record v { stream = stream }
step v presses_wrap = record v { wrap = not v.wrap }
step v presses_follow = record v { follow = not v.follow }

-- What is shown, but for the words of an empty log, and what is copied.
unfoldable pub shown : (String → String) → String → String → List Chunk → Viewer → String
unfolding filtered content
shown lower out err chunks v = filtered lower v.search (content v.stream out err chunks)

unfoldable pub run : Viewer → List Event → Viewer
unfolding step
run v [] = v
run v (e ∷ es) = run (step v e) es

-- copy, whose message says whether it has thrown
unfoldable pub copy : Browser → (String → String) → String → String → List Chunk → Viewer → Copied
unfolding copy_text shown
copy b lower out err chunks v = copy_text b (shown lower out err chunks v)
