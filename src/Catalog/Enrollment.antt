-- ===== src/Catalog/Enrollment.antt =====
-- NodeEnrollmentDialog of web/src/features/catalog/index.tsx: the commands that enrol a new node.
pub mod Current
use cadentra.Prelude.{
  String, Option, none, some, List, [], ◌∷◌, Bool, true, false, ◌&&◌, ◌==◌, get_or, truthy, trim,
  if◌then◌else◌,
}
use cadentra.Shared.Clipboard.{Browser, Copied, on_clipboard, thrown, copy_text}

-- web/src/lib/api.ts: NodeEnrollment
pub record NodeEnrollment : Type 0 where
  pub gateway_url : String
  pub gateway_base_url : String
  pub agent_image : String
  pub native : String
  pub docker_run : String
  pub docker_compose : String

pub data Method : Type 0 where
  native docker_run docker_compose : Method

pub record Request : Type 0 where
  pub node_name : String
  pub node_ip : String
  pub hub_address : String

-- The state of the dialog beside the answers that the query's cache holds for its key
-- ['node-enrollment', request], the newest first, and the last text that it has put on the clipboard.
pub record Dialog : Type 0 where
  pub method : Method
  pub node_name : String
  pub node_address : String
  pub hub_address : String
  pub request : Option Request
  pub copied : Bool
  pub answers : List (Request × NodeEnrollment)
  pub clipboard : Option String

-- `origin` is window.location.origin, and none where there is no window.
abbrev pub init : Option String → Dialog
init origin = record {
  method = native;
  node_name = "";
  node_address = "";
  hub_address = get_or origin "";
  request = none;
  copied = false;
  answers = [];
  clipboard = none;
}

-- The request that the form sends now.
unfoldable pub inputs : Dialog → Request
unfolding trim
inputs d = record {
  node_name = trim d.node_name;
  node_ip = trim d.node_address;
  hub_address = trim d.hub_address;
}

abbrev pub same_request : Request → Request → Bool
same_request r s =
    r.node_name == s.node_name && r.node_ip == s.node_ip && r.hub_address == s.hub_address

unfoldable pub answer_for : Request → List (Request × NodeEnrollment) → Option NodeEnrollment
answer_for r [] = none
answer_for r ((s, n) ∷ more) = if same_request s r then some n else answer_for r more

-- query.data: without a request, the query is not enabled and its key has no answer.
unfoldable pub data_of : Dialog → Option NodeEnrollment
unfolding answer_for
data_of d = elim d.request [ none ↦ none | some r ↦ answer_for r d.answers ]

abbrev pub command_by : Method → NodeEnrollment → String
command_by native n = n.native
command_by docker_run n = n.docker_run
command_by docker_compose n = n.docker_compose

-- query.data?.[method] || ''
unfoldable pub command : Dialog → String
unfolding data_of
command d = elim (data_of d) [ none ↦ "" | some n ↦ command_by d.method n ]

-- setCopied and the toast, after the call of copyText
unfoldable pub on_copied : Copied → Dialog → Dialog
on_copied (on_clipboard text) d = record d { copied = true; clipboard = some text }
on_copied thrown d = d

unfoldable pub copy : Browser → Dialog → Dialog
unfolding on_copied command copy_text
copy b d = if truthy (command d) then on_copied (copy_text b (command d)) d else d

-- The inputs, the hub's answer to a request, and the end of the 1.5 seconds after a copy.
pub data Event : Type 0 where
  changes_name changes_address changes_hub : String → Event
  changes_method : Method → Event
  submits : Event
  answered : Request → NodeEnrollment → Event
  presses_copy : Browser → Event
  time_is_up : Event

unfoldable pub step : Dialog → Event → Dialog
unfolding inputs copy
step d (changes_name v) = record d { node_name = v; request = none }
step d (changes_address v) = record d { node_address = v; request = none }
step d (changes_hub v) = record d { hub_address = v; request = none }
step d (changes_method m) = record d { method = m }
step d submits = record d { copied = false; request = some (inputs d) }
step d (answered r n) = record d { answers = (r, n) ∷ d.answers }
step d (presses_copy b) = copy b d
step d time_is_up = record d { copied = false }

unfoldable pub run : Dialog → List Event → Dialog
unfolding step
run d [] = d
run d (e ∷ es) = run (step d e) es
