-- ===== src/Editors/Group.antt =====
-- GroupEditor of web/src/features/editors/index.tsx.
use cadentra.Prelude.{
  String, none, some, List, [], ◌∷◌, Bool, true, not, ◌==◌, get_or, if◌then◌else◌,
}
use cadentra.Api.{GroupForm}
use cadentra.Editors.Draft.{Draft, form, set_form, arrive, check}

abbrev pub default_form : GroupForm
default_form = record {
  id = none;
  name = some "";
  description = some "";
  type = some "static";
  label_key = none;
  label_value = none;
  members = some [];
  created_at = none;
}

pub record Editor : Type 0 where
  pub id : String
  pub fields : Draft GroupForm

unfoldable pub init : String → Editor
init id = record {
  id = id;
  fields = record { draft = none; loaded = none; default_form = default_form };
}

abbrev edit : (GroupForm → GroupForm) → Editor → Editor
edit change e = record e { fields = set_form (change (form e.fields)) e.fields }

-- form.members || []
abbrev pub members : Editor → List String
members e = get_or (form e.fields).members []

pub data Event : Type 0 where
  change_name change_description select_type change_label_key change_label_value : String → Event
  check_member : Bool → String → Event
  group_arrives : GroupForm → Event

-- Is the input shown? A group by label has no list of members.
unfoldable pub shown : GroupForm → Event → Bool
shown f (change_label_key v) = get_or f.type "" == "label"
shown f (change_label_value v) = get_or f.type "" == "label"
shown f (check_member checked id) = not (get_or f.type "" == "label")
shown f _ = true

unfoldable pub handle : Editor → Event → Editor
unfolding check
handle e (change_name v) = edit (λ f. record f { name = some v }) e
handle e (change_description v) = edit (λ f. record f { description = some v }) e
handle e (select_type v) = edit (λ f. record f { type = some v }) e
handle e (change_label_key v) = edit (λ f. record f { label_key = some v }) e
handle e (change_label_value v) = edit (λ f. record f { label_value = some v }) e
handle e (check_member checked id) =
    edit (λ f. record f { members = some (check checked id (members e)) }) e
handle e (group_arrives f) = record e { fields = arrive f e.fields }

unfoldable pub step : Editor → Event → Editor
unfolding shown handle
step e x = if shown (form e.fields) x then handle e x else e

unfoldable pub run : Editor → List Event → Editor
unfolding step
run e [] = e
run e (x ∷ xs) = run (step e x) xs
