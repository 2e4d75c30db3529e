-- ===== src/Tests/Transfer.antt =====
-- The form for a transfer, web/src/features/transfers/index.tsx.
use cadentra.Prelude.{String, none, List, [], ◌∷◌, false}
use cadentra.Api.{Node}
use cadentra.Transfers.Form.{
  Form, empty_form, Event, select_target, change_destination, press_add, run,
}
use cadentra.Transfers.Targets.{IsAcceptable, run-IsAcceptable}

abbrev node : String → Node
node id = record {
  id = id;
  agent_id = "";
  hostname = "";
  ip = "";
  status = "online";
  labels = [];
  sync_status = none;
}

abbrev two_nodes : List Node
two_nodes = node "a" ∷ node "b" ∷ []

abbrev add_twice : List Event
add_twice =
    select_target "b"
    ∷ change_destination "/tmp/x"
    ∷ press_add
    ∷ select_target "b"
    ∷ change_destination "/tmp/y"
    ∷ press_add
    ∷ []

run-IsAcceptable_example : IsAcceptable (run two_nodes empty_form add_twice).targets
run-IsAcceptable_example = run-IsAcceptable two_nodes empty_form add_twice (tt, tt)

abbrev ready : Form
ready = record {
  source_node_id = "a";
  source_path = "/etc/hosts";
  target_node_id = "";
  destination_path = "";
  targets = record { node_id = "b"; destination_path = "/tmp/x" } ∷ [];
  pending = false;
}
