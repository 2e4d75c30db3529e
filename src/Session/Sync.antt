-- ===== src/Session/Sync.antt =====
-- The token in the store, in the client and in the browser's storage.
use cadentra.Prelude.{
  ◌≡◌, ◌≢◌, refl, sym, ap, ◌∙◌, Option-cases, ◌⊎◌, inl, inr, String, Option, none, some, List, [],
  ◌∷◌, truthy, get_or, arith, eq_iff, true,
}
use cadentra.Session.Client.{Client, start, set_token, or_null, get_item}
use cadentra.Session.Request.{Response, Options, HttpRequest, http_request, request, receive}
use cadentra.Session.Store.{
  App, AuthUser, load, set_user, set_access_token, reset_access_token, reset,
}

-- The store shows the client's token, and a browser with storage has stored the same token.
pub record IsSynced (a : App) : Type 0 where
  pub shown : a.auth.access_token ≡ get_or a.client.auth_token ""
  pub kept :
      (a.client.storage ≡ none)
      ⊎ (or_null (get_item a.client.storage) ≡ or_null a.client.auth_token)

-- What the components of the console do with the store.
pub data Action : Type 0 where
  sets_user : Option AuthUser → Action
  sets_access_token : String → Action
  resets_access_token resets : Action

unfoldable pub act : App → Action → App
unfolding set_user set_access_token reset_access_token reset
act a (sets_user user) = set_user user a
act a (sets_access_token token) = set_access_token token a
act a resets_access_token = reset_access_token a
act a resets = reset a

unfoldable pub acts : App → List Action → App
unfolding act
acts a [] = a
acts a (x ∷ xs) = acts (act a x) xs

or_null_idem : (t : Option String) → or_null (or_null t) ≡ or_null t
or_null_idem t = ground arith

get_or-or_null : (t : Option String) → get_or (or_null t) "" ≡ get_or t ""
get_or-or_null none = refl
get_or-or_null (some s) = ground (arith, eq_iff s "")

load-IsSynced : (storage : Option (Option String)) → IsSynced (load storage)
unfolding load start
load-IsSynced storage = record {
  shown = get_or-or_null (or_null (get_item storage));
  kept = inr (sym (or_null_idem (get_item storage)));
}

pub set_token-kept :
    (t : Option String) (c : Client)
    → ((set_token t c).storage ≡ none) ⊎ (or_null (get_item (set_token t c).storage) ≡ or_null t)
unfolding set_token
set_token-kept t c = elim (Option-cases c.storage) [
  | inl missing ↦ inl (rw missing)
  | inr (old, there) ↦ inr (rw there (or_null_idem t))
]

pub act-IsSynced : (a : App) (x : Action) → IsSynced a → IsSynced (act a x)
unfolding act set_token
act-IsSynced a (sets_user user) h = record { shown = h.shown; kept = h.kept }
act-IsSynced a (sets_access_token token) h = record {
  shown = refl;
  kept = set_token-kept (some token) a.client;
}
act-IsSynced a resets_access_token h = record { shown = refl; kept = set_token-kept none a.client }
act-IsSynced a resets h = record { shown = refl; kept = set_token-kept none a.client }

acts-IsSynced : (a : App) (xs : List Action) → IsSynced a → IsSynced (acts a xs)
unfolding acts
acts-IsSynced a [] h = h
acts-IsSynced a (x ∷ xs) h = acts-IsSynced (act a x) xs (act-IsSynced a x h)

-- From the loading of the page on, whatever the components do with the store, the token that the
-- components read is the one that the requests send and the one that the browser keeps.
pub acts-load-IsSynced :
    (storage : Option (Option String)) (xs : List Action) → IsSynced (acts (load storage) xs)
acts-load-IsSynced storage xs = acts-IsSynced (load storage) xs (load-IsSynced storage)

act-storage : (a : App) (x : Action) → a.client.storage ≢ none → (act a x).client.storage ≢ none
unfolding act set_token
act-storage a (sets_user user) h = h
act-storage a (sets_access_token token) h = ground arith
act-storage a resets_access_token h = ground arith
act-storage a resets h = ground arith

acts-storage :
    (a : App) (xs : List Action) → a.client.storage ≢ none → (acts a xs).client.storage ≢ none
unfolding acts
acts-storage a [] h = h
acts-storage a (x ∷ xs) h = acts-storage (act a x) xs (act-storage a x h)

-- In a browser with storage, a page that is loaded again shows the same token as before, whatever
-- the components have done with the store.
pub reload_lem :
    (entry : Option String) (xs : List Action)
    → (load (acts (load (some entry)) xs).client.storage).auth.access_token
      ≡ (acts (load (some entry)) xs).auth.access_token
unfolding load start
reload_lem entry xs =
    let a = acts (load (some entry)) xs in
    let synced = acts-load-IsSynced (some entry) xs in
    elim synced.kept [
      | inl missing ↦ absurd (acts-storage (load (some entry)) xs (λ e. cc) missing)
      | inr same ↦
          get_or-or_null (or_null (get_item a.client.storage))
          ∙ ap (λ t. get_or t "") same
          ∙ get_or-or_null a.client.auth_token
          ∙ sym synced.shown
    ]

-- An answer 401 to a request drops the client's token behind the store's back: a store that shows a
-- token that is not empty is not synced with the client afterwards.
pub request_401_stale :
    {B T : Type 0} (fetch : HttpRequest B → Option (Response T)) (path : String) (o : Options B)
    (a : App) (r : Response T)
    → fetch (http_request path o a.client) ≡ some r
    → r.status ≡ 401
    → truthy a.auth.access_token ≡ true
    → ¬ IsSynced (record a { client = (request fetch path o a.client).0 })
unfolding request receive set_token
request_401_stale fetch path o a r answered denied full synced =
    let shown = synced.shown in
    let empty : a.auth.access_token ≡ "" = rw (answered, receive, denied) at shown in
    ground (arith, eq_iff a.auth.access_token "")
