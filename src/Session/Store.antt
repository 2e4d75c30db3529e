-- ===== src/Session/Store.antt =====
-- web/src/stores/auth-store.ts: the signed-in user and the copy of the token that the components
-- read, beside the client of web/src/lib/api.ts that the requests use.
use cadentra.Prelude.{String, Option, none, some, List, [], ◌∷◌, ℤ, get_or}
use cadentra.Session.Client.{Client, start, set_token, or_null}

-- web/src/lib/api.ts: SessionInfo
pub record SessionInfo : Type 0 where
  pub token : String
  pub user_id : String
  pub username : String
  pub role : String
  pub expires : String

pub record AuthUser : Type 0 where
  pub account_no : String
  pub email : String
  pub role : List String
  pub exp : ℤ
  pub username : Option String
  pub user_id : Option String

-- `get_time` is `new Date(text).getTime()`.
unfoldable pub session_to_user : (String → ℤ) → SessionInfo → AuthUser
session_to_user get_time session = record {
  account_no = session.user_id;
  email = session.username;
  role = session.role ∷ [];
  exp = get_time session.expires;
  username = some session.username;
  user_id = some session.user_id;
}

pub record AuthState : Type 0 where
  pub user : Option AuthUser
  pub access_token : String

-- The store beside the client's module state.
pub record App : Type 0 where
  pub client : Client
  pub auth : AuthState

unfoldable pub load : Option (Option String) → App
unfolding start
load storage =
    let c = start storage in
    record {
      client = c;
      auth = record { user = none; access_token = get_or (or_null c.auth_token) "" };
    }

unfoldable pub set_user : Option AuthUser → App → App
set_user user a = record a { auth = record a.auth { user = user } }

unfoldable pub set_access_token : String → App → App
unfolding set_token
set_access_token token a = record a {
  client = set_token (some token) a.client;
  auth = record a.auth { access_token = token };
}

unfoldable pub reset_access_token : App → App
unfolding set_token
reset_access_token a = record a {
  client = set_token none a.client;
  auth = record a.auth { access_token = "" };
}

unfoldable pub reset : App → App
unfolding set_token
reset a = record a {
  client = set_token none a.client;
  auth = record a.auth { user = none; access_token = "" };
}
