-- ===== src/Catalog/Users.antt =====
-- Users of web/src/features/catalog/index.tsx: the form for a new user and the roles in the list.
pub mod Roles
use Prim.Native.String
use cadentra.Prelude.{
  String, Option, none, some, List, [], ◌∷◌, ◌++◌, Bool, true, false, not, ◌||◌, ◌&&◌, ◌==◌, truthy,
  if◌then◌else◌,
}

-- web/src/lib/api.ts: User
pub record User : Type 0 where
  pub id : String
  pub username : String
  pub role : String
  pub created_at : String

-- The body of POST /users.
pub record NewUser : Type 0 where
  pub username : String
  pub password : String
  pub role : String

pub data Call : Type 0 where
  post_user : NewUser → Call
  put_role : (path role : String) → Call

-- `stale` is raised by invalidateQueries and lowered by the answer to the query, and `toasts` counts
-- the messages of errors. `calls` are the requests that the page has made.
pub record Page : Type 0 where
  pub show_form : Bool
  pub form : NewUser
  pub pending : Bool
  pub users : Option (List User)
  pub stale : Bool
  pub toasts : List String
  pub calls : List Call

abbrev pub empty_form : NewUser
empty_form = record { username = ""; password = ""; role = "viewer" }

abbrev pub init : Page
init = record {
  show_form = false;
  form = empty_form;
  pending = false;
  users = none;
  stale = false;
  toasts = [];
  calls = [];
}

unfoldable pub disabled : Page → Bool
disabled p = not (truthy p.form.username) || not (truthy p.form.password) || p.pending

-- The inputs of the user, the two ends of each request, and the answer to the query.
pub data Event : Type 0 where
  press_toggle : Event
  change_username change_password select_role : String → Event
  press_create : Event
  created : Event
  create_failed : String → Event
  set_user_role : User → String → Event
  role_set : Event
  role_failed : String → Event
  listed : List User → Event

unfoldable pub on_success : Page → Page
on_success p = record p { form = empty_form; show_form = false; pending = false; stale = true }

unfoldable pub press : Page → Page
unfolding disabled
press p =
    if disabled p
    then p
    else record p { pending = true; calls = p.calls ++ (post_user p.form ∷ []) }

-- The entries of the two menus of roles.
abbrev pub is_role : String → Bool
is_role r = r == "administrator" || r == "operator" || r == "viewer"

-- The form can be changed and sent only while it is shown; a menu has its own entries alone.
unfoldable pub shown : Event → Page → Bool
shown (change_username v) p = p.show_form
shown (change_password v) p = p.show_form
shown (select_role v) p = p.show_form && is_role v
shown press_create p = p.show_form
shown created p = p.pending
shown (create_failed m) p = p.pending
shown (set_user_role u v) p = is_role v
shown _ p = true

unfoldable pub handle : Page → Event → Page
unfolding on_success press
handle p press_toggle = record p { show_form = not p.show_form }
handle p (change_username v) = record p { form = record p.form { username = v } }
handle p (change_password v) = record p { form = record p.form { password = v } }
handle p (select_role v) = record p { form = record p.form { role = v } }
handle p press_create = press p
handle p created = on_success p
handle p (create_failed m) = record p { pending = false; toasts = p.toasts ++ (m ∷ []) }
handle p (set_user_role u role) = record p {
  calls = p.calls ++ (put_role (String.◌++◌ "/users/" u.id) role ∷ []);
}
handle p role_set = record p { stale = true }
handle p (role_failed m) = record p { toasts = p.toasts ++ (m ∷ []) }
handle p (listed users) = record p { users = some users; stale = false }

unfoldable pub step : Page → Event → Page
unfolding shown handle
step p e = if shown e p then handle p e else p

unfoldable pub run : Page → List Event → Page
unfolding step
run p [] = p
run p (e ∷ es) = run (step p e) es
