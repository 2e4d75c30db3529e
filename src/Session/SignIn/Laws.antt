-- ===== src/Session/SignIn/Laws.antt =====
-- Signing in and out: web/src/features/auth/sign-in/index.tsx on the client and the store of
-- web/src/lib/api.ts and web/src/stores/auth-store.ts.
use cadentra.Prelude.{
  ◌≡◌, ◌≢◌, refl, ◌⊎◌, inl, inr, String, Option, none, some, [], ◌∷◌, true, ℤ, ◌==◌, truthy, arith,
  Bool-cases, nat_eq, eq_refl, if◌then◌else◌,
}
use cadentra.Session.Client.{set_token}
use cadentra.Session.Request.{
  Response, Options, HttpRequest, http_request, Outcome, returned, api_error, thrown, post, request,
  receive,
}
use cadentra.Session.Store.{App, session_to_user, set_user, set_access_token}
use cadentra.Session.Sync.{
  IsSynced, sets_access_token, sets_user, act, set_token-kept, act-IsSynced,
}
use cadentra.Session.SignIn.{
  Credentials, Login, nothing, SignIn, on_login, on_submit, handle_sign_out,
}
use cadentra.Navigation.{Url, safe_redirect, sign_in_path, path_text}

-- The user is in: `login` is what the hub has answered.
abbrev pub SignedIn :
    (String → String → Option Url) → String → (String → ℤ) → Option String → SignIn → Login → Type 0
SignedIn parse origin get_time redirect p login =
    (p.app.auth.access_token ≡ login.token)
    × (p.app.client.auth_token ≡ some login.token)
    × (p.app.auth.user ≡ some (session_to_user get_time login.user))
    × (p.error ≡ nothing)
    × (p.visits ≡ safe_redirect parse origin redirect ∷ [])

-- The user stays out: an error is shown, and the store is as it was.
abbrev pub StaysOut : SignIn → App → Type 0
StaysOut p a = (p.app.auth ≡ a.auth) × (p.error ≢ nothing) × (p.visits ≡ [])

module _ (parse : String → String → Option Url) (origin : String) (get_time : String → ℤ)
    (redirect : Option String) where
  -- How the page looks after an outcome of the request.
  abbrev pub Answers : Outcome Login → SignIn → App → Type 0
  Answers o p a =
      ((login : Login) × ((o ≡ returned (some login))
          × SignedIn parse origin get_time redirect p login))
      ⊎ (((login : Login) → o ≢ returned (some login)) × StaysOut p a)

  on_login-Answers :
      (o : Outcome Login) (p : SignIn)
      → p.error ≡ nothing
      → p.visits ≡ []
      → Answers o (on_login parse origin get_time redirect o p) p.app
  unfolding on_login set_access_token set_token set_user
  on_login-Answers (returned (some login)) p h v = inl (login, (refl, (refl, refl, refl, h, refl)))
  on_login-Answers (returned none) p h v = inr ((λ l e. cc), (refl, (λ e. cc), v))
  on_login-Answers (api_error e) p h v = inr ((λ l e. cc), (refl, (λ e. cc), v))
  on_login-Answers thrown p h v = inr ((λ l e. cc), (refl, (λ e. cc), v))

  on_login-IsSynced :
      (o : Outcome Login) (p : SignIn)
      → IsSynced p.app
      → IsSynced (on_login parse origin get_time redirect o p).app
  unfolding on_login act
  on_login-IsSynced (returned (some login)) p h =
      act-IsSynced (set_access_token login.token p.app)
        (sets_user (some (session_to_user get_time login.user)))
        (act-IsSynced p.app (sets_access_token login.token) h)
  on_login-IsSynced (returned none) p h = record { shown = h.shown; kept = h.kept }
  on_login-IsSynced (api_error e) p h = record { shown = h.shown; kept = h.kept }
  on_login-IsSynced thrown p h = record { shown = h.shown; kept = h.kept }

  module _ (fetch : HttpRequest Credentials → Option (Response Login)) where
    received-IsSynced :
        (r : Option (Response Login)) (a : App)
        → a.auth.access_token ≡ ""
        → IsSynced a
        → IsSynced (record a { client = (receive a.client r).0 })
    unfolding receive set_token
    received-IsSynced none a out h = record { shown = h.shown; kept = h.kept }
    received-IsSynced (some r) a out h = elim (Bool-cases (nat_eq r.status 401)) [
      | inl denied ↦ rw denied (record { shown = out; kept = set_token-kept none a.client })
      | inr other ↦ rw other (record { shown = h.shown; kept = h.kept })
    ]

    abbrev posted : Credentials → Options Credentials
    posted values = record { method = some "POST"; headers = []; body = some values }

    -- A user who is signed out and sends the form is signed in exactly if the hub's answer has a
    -- value: the store and the client have its token and the store its user, and the console goes to
    -- the redirect. Otherwise an error is shown, the store is as it was, and the page stays.
    -- In either case the store, the client and the browser agree on the token if they did before.
    pub on_submit-Answers :
        (values : Credentials) (a : App)
        → a.auth.access_token ≡ ""
        → IsSynced a
        → let p = on_submit parse origin get_time fetch redirect values a in
          IsSynced p.app × Answers (post fetch "/login" (some values) a.client).2 p a
    unfolding on_submit post request
    on_submit-Answers values a out h =
        let result = post fetch "/login" (some values) a.client in
        let page : SignIn = record {
          app = record a { client = result.0 };
          error = nothing;
          visits = [];
        } in
        (
          on_login-IsSynced result.2 page
              (received-IsSynced (fetch (http_request "/login" (posted values) a.client)) a out h),
          on_login-Answers result.2 page refl refl,
        )

-- Who signs out on a page of the console whose address the browser resolves back to that page, and
-- signs in again, is taken to the page that was left, or to the start page from the sign-in page.
pub sign_out_and_in :
    (parse : String → String → Option Url) (get_time : String → ℤ)
    (fetch : HttpRequest Credentials → Option (Response Login)) (location : Url) (href : String)
    (values : Credentials) (a : App) (login : Login)
    → parse href location.origin ≡ some location
    → truthy href ≡ true
    → truthy (path_text location) ≡ true
    → let (out, redirect) = handle_sign_out href a in
      (post fetch "/login" (some values) out.client).2 ≡ returned (some login)
      → (on_submit parse location.origin get_time fetch redirect values out).visits
        ≡ (if location.pathname == sign_in_path then "/" else path_text location) ∷ []
unfolding handle_sign_out on_submit on_login safe_redirect
sign_out_and_in parse get_time fetch location href values a login back given full answered =
    rw (answered, given, back, eq_refl location.origin) (ground (arith, full))
