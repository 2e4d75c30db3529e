-- ===== src/Shell/Sidebar.antt =====
-- The sidebar: web/src/components/layout/nav-group.tsx, with the items of
-- web/src/components/layout/data/sidebar-data.ts and the user of
-- web/src/components/layout/app-sidebar.tsx.
pub mod Active
use cadentra.Prelude.{
  String, Option, none, some, List, [], ◌∷◌, Bool, true, false, not, ◌==◌, ◌&&◌, ◌||◌, filter,
  split, truthy, get_or, if◌then◌else◌,
}

-- types.ts: a NavLink has a url, a NavCollapsible has items and no url.
pub record SubItem : Type 0 where
  pub title : String
  pub url : String

pub data NavItem : Type 0 where
  link : (title url : String) → NavItem
  group : (title : String) → (items : List SubItem) → NavItem

abbrev pub url_of : NavItem → Option String
url_of (link title url) = some url
url_of (group title items) = none

abbrev pub is_url : String → Option String → Bool
is_url href none = false
is_url href (some url) = href == url

-- text.split(sep)[0], and [1]
abbrev pub first : List String → String
first [] = ""
first (x ∷ xs) = x

abbrev pub second : List String → Option String
second (x ∷ y ∷ ys) = some y
second _ = none

-- href.split('?')[0]
unfoldable pub endpoint : String → String
unfolding split
endpoint href = first (split "?" href)

-- item?.items?.filter((i) => i.url === href).length
unfoldable pub has_child : String → NavItem → Bool
unfolding filter
has_child href (link title url) = false
has_child href (group title items) = elim (filter (λ (i : SubItem). i.url == href) items) [
  | [] ↦ false
  | x ∷ xs ↦ true
]

-- a === b, where either may be undefined
abbrev pub same_text : Option String → Option String → Bool
same_text none none = true
same_text none (some b) = false
same_text (some a) none = false
same_text (some a) (some b) = a == b

abbrev url_segment : Option String → Option String
unfolding split
url_segment none = none
url_segment (some url) = second (split "/" url)

-- href.split('/')[1] !== '' && href.split('/')[1] === item?.url?.split('/')[1]
unfoldable pub same_section : String → NavItem → Bool
unfolding split url_segment
same_section href item =
    let segment = second (split "/" href) in
    not (same_text segment (some "")) && same_text segment (url_segment (url_of item))

unfoldable pub check_is_active : String → NavItem → Bool → Bool
unfolding endpoint has_child same_section
check_is_active href item main_nav =
    is_url href (url_of item)
    || is_url (endpoint href) (url_of item)
    || has_child href item
    || (main_nav && same_section href item)

-- The links of the console, by the keys of their titles.
abbrev pub links : List NavItem
links =
    link "nav.dashboard" "/"
    ∷ link "nav.tasks" "/tasks"
    ∷ link "nav.executions" "/executions"
    ∷ link "nav.nodes" "/agents"
    ∷ link "nav.transfers" "/transfers"
    ∷ link "nav.schedules" "/schedules"
    ∷ link "nav.scripts" "/scripts"
    ∷ link "nav.groups" "/groups"
    ∷ link "nav.applications" "/applications"
    ∷ link "nav.artifacts" "/artifacts"
    ∷ link "nav.audit" "/audit"
    ∷ link "nav.users" "/users"
    ∷ link "nav.settings" "/settings"
    ∷ []

-- The links that are drawn as active.
unfoldable pub active_links : String → List NavItem
unfolding filter check_is_active
active_links href = filter (λ item. check_is_active href item false) links

-- AppSidebar: the key of the role in the footer, and the name.
unfoldable pub role_key : Option String → String
role_key none = "administrator"
role_key (some role) =
    if role == "administrator" || role == "operator" || role == "viewer"
    then role
    else "administrator"

unfoldable pub display_name : Option (Option String × String) → String
display_name none = "admin"
display_name (some (username, email)) =
    if truthy (get_or username "")
    then get_or username ""
    else if truthy email
    then email
    else "admin"
