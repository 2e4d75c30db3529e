-- ===== src/Transfers/Form.antt =====
-- The state and the handlers of the form of web/src/features/transfers/index.tsx.
use cadentra.Prelude.{
  String, Option, none, some, List, [], ◌∷◌, ◌++◌, Bool, true, false, not, ◌||◌, ◌==◌, truthy,
  filter, any, find, if◌then◌else◌,
}
use cadentra.Api.{Node}

pub record TargetDraft : Type 0 where
  pub node_id : String
  pub destination_path : String

-- `create.isPending` is true from the click until the hub has answered.
pub record Form : Type 0 where
  pub source_node_id : String
  pub source_path : String
  pub target_node_id : String
  pub destination_path : String
  pub targets : List TargetDraft
  pub pending : Bool

abbrev pub empty_form : Form
empty_form = record {
  source_node_id = "";
  source_path = "";
  target_node_id = "";
  destination_path = "";
  targets = [];
  pending = false;
}

unfoldable pub has_target : String → List TargetDraft → Bool
unfolding any
has_target id targets = any (λ t. t.node_id == id) targets

unfoldable pub add_target : Form → Form
unfolding has_target
add_target f =
    if not (truthy f.target_node_id)
      || not (truthy f.destination_path)
      || has_target f.target_node_id f.targets
    then f
    else record f {
      targets =
          f.targets
          ++ record { node_id = f.target_node_id; destination_path = f.destination_path } ∷ [];
      target_node_id = "";
      destination_path = "";
    }

unfoldable pub remove_target : String → Form → Form
unfolding filter
remove_target id f = record f { targets = filter (λ t. not (t.node_id == id)) f.targets }

-- The nodes that the target's menu offers.
unfoldable pub target_options : List Node → Form → List Node
unfolding filter
target_options nodes f = filter (λ n. not (n.id == f.source_node_id)) nodes

abbrev is_missing : Option Node → Bool
is_missing none = true
is_missing (some n) = false

abbrev pub is_empty : List TargetDraft → Bool
is_empty [] = true
is_empty (t ∷ ts) = false

-- The node that is chosen as the source.
unfoldable pub source : List Node → Form → Option Node
unfolding find
source nodes f = find (λ n. n.id == f.source_node_id) nodes

-- Is the button that starts the transfer disabled?
unfoldable pub create_disabled : List Node → Form → Bool
unfolding source
create_disabled nodes f =
    is_missing (source nodes f) || not (truthy f.source_path) || is_empty f.targets || f.pending

-- The body of POST /transfers.
pub record CreateTransfer : Type 0 where
  pub source_node_id : String
  pub source_path : String
  pub targets : List TargetDraft

abbrev pub payload : Form → CreateTransfer
payload f = record {
  source_node_id = f.source_node_id;
  source_path = f.source_path;
  targets = f.targets;
}

-- What the user does to the form, and the two ends of a request.
pub data Event : Type 0 where
  select_source change_source_path select_target change_destination : String → Event
  press_add : Event
  press_remove : String → Event
  press_create : Event
  created failed : Event

-- The fields that a created transfer clears: the source node stays.
unfoldable pub on_success : Form → Form
on_success f = record f {
  source_path = "";
  targets = [];
  target_node_id = "";
  destination_path = "";
  pending = false;
}

unfoldable pub step : List Node → Form → Event → Form
unfolding add_target remove_target create_disabled on_success
step nodes f (select_source id) = record f { source_node_id = id }
step nodes f (change_source_path path) = record f { source_path = path }
step nodes f (select_target id) = record f { target_node_id = id }
step nodes f (change_destination path) = record f { destination_path = path }
step nodes f press_add = add_target f
step nodes f (press_remove id) = remove_target id f
step nodes f press_create = if create_disabled nodes f then f else record f { pending = true }
step nodes f created = on_success f
step nodes f failed = record f { pending = false }

unfoldable pub run : List Node → Form → List Event → Form
unfolding step
run nodes f [] = f
run nodes f (e ∷ es) = run nodes (step nodes f e) es
