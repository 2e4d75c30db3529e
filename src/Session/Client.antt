-- ===== src/Session/Client.antt =====
-- web/src/lib/api.ts: `storage`, `authToken`, setToken and getToken.
use cadentra.Prelude.{String, Option, none, some, truthy, if◌then◌else◌}

-- `storage` is none where the browser has no localStorage, and else the entry 'cadentra_token'.
pub record Client : Type 0 where
  pub auth_token : Option String
  pub storage : Option (Option String)

-- `token || null`
abbrev pub or_null : Option String → Option String
or_null none = none
or_null (some s) = if truthy s then some s else none

-- storage?.getItem('cadentra_token')
abbrev pub get_item : Option (Option String) → Option String
get_item none = none
get_item (some entry) = entry

-- The module's state when the page is loaded.
unfoldable pub start : Option (Option String) → Client
start storage = record { auth_token = or_null (get_item storage); storage = storage }

-- storage?.setItem and storage?.removeItem
abbrev pub store_item : Option String → Option (Option String) → Option (Option String)
store_item entry none = none
store_item entry (some old) = some entry

unfoldable pub set_token : Option String → Client → Client
set_token token c = record c { auth_token = token; storage = store_item (or_null token) c.storage }

abbrev pub get_token : Client → Option String
get_token c = c.auth_token
