-- ===== src/Session/SignIn.antt =====
-- web/src/features/auth/sign-in/index.tsx (the form) and web/src/components/sign-out-dialog.tsx.
pub mod Laws
use cadentra.Prelude.{
  String, Option, none, some, List, [], ◌∷◌, Bool, ◌&&◌, ℤ, truthy, if◌then◌else◌,
}
use cadentra.Session.Request.{
  Response, HttpRequest, Message, Outcome, returned, api_error, thrown, post,
}
use cadentra.Session.Store.{App, SessionInfo, session_to_user, set_user, set_access_token, reset}
use cadentra.Navigation.{Url, safe_redirect}

-- The fields of the form, which are the body of the request.
pub record Credentials : Type 0 where
  pub username : String
  pub password : String

-- formSchema
unfoldable pub is_valid : Credentials → Bool
is_valid values = truthy values.username && truthy values.password

pub record Login : Type 0 where
  pub token : String
  pub user : SessionInfo

-- The text over the button: none, the one of an ApiError, or the one of another error.
pub data Shown : Type 0 where
  nothing : Shown
  refusal : Message → Shown
  failure : Shown

-- The page, and the addresses that it has given to window.location.assign.
pub record SignIn : Type 0 where
  pub app : App
  pub error : Shown
  pub visits : List String

module _ (parse : String → String → Option Url) (origin : String) (get_time : String → ℤ) where
  -- What follows the answer. `redirect` is the member of the page's address; without a value
  -- (after 204), reading `result.token` throws.
  unfoldable pub on_login : Option String → Outcome Login → SignIn → SignIn
  unfolding set_access_token set_user
  on_login redirect (returned (some result)) p = record p {
    app =
        set_user (some (session_to_user get_time result.user))
          (set_access_token result.token p.app);
    visits = safe_redirect parse origin redirect ∷ [];
  }
  on_login redirect (returned none) p = record p { error = failure }
  on_login redirect (api_error e) p = record p { error = refusal e.message }
  on_login redirect thrown p = record p { error = failure }

  unfoldable pub on_submit :
      (HttpRequest Credentials → Option (Response Login))
      → Option String
      → Credentials
      → App
      → SignIn
  unfolding on_login
  on_submit fetch redirect values a =
      let result = post fetch "/login" (some values) a.client in
      on_login redirect result.2
        (record { app = record a { client = result.0 }; error = nothing; visits = [] })

  -- form.handleSubmit(onSubmit): nothing is sent unless the fields are valid.
  unfoldable pub press :
      (HttpRequest Credentials → Option (Response Login))
      → Option String
      → Credentials
      → SignIn
      → SignIn
  unfolding on_submit is_valid
  press fetch redirect values p =
      if is_valid values then on_submit fetch redirect values p.app else p

-- handleSignOut: the store, and the address that the sign-in page gets as `redirect`. `href` is the
-- router's location.href.
unfoldable pub handle_sign_out : String → App → App × Option String
unfolding reset
handle_sign_out href a = (reset a, some href)
