-- ===== src/Session/Request/Laws.antt =====
-- What a request of web/src/lib/api.ts does on every branch.
use Prim.Native.String
use cadentra.Prelude.{
  ◌≤◌, ◌<◌, ◌≡◌, ◌≢◌, refl, ◌∙◌, ◌==◌, lookup-insert, ◌⊎◌, inl, inr, String, Option, none, some,
  List, [], ◌∷◌, truthy, Dict, insert, lookup, lookup-insert_self, arith, Bool-cases, nat_eq,
  Option-cases, eq_iff, get_or,
}
use cadentra.Session.Client.{Client, start, set_token, or_null}
use cadentra.Session.Request.{
  Body, Response, Options, HttpRequest, Outcome, returned, api_error, thrown, Event, unauthorized,
  Message, from_hub, http_status, plain, is_ok, request_headers, http_request, overlay, receive,
  request, error_message,
}

-- The text of the error is the hub's, where the body can be read and has one that is not empty, and
-- else names the status.
abbrev pub Tells : {T : Type 0} → Response T → Message → Type 0
Tells r (from_hub text) =
    (text ≢ "") × ((body : Body _) × (r.json ≡ some body) × (body.error ≡ some text))
Tells r (http_status n) =
    (n ≡ r.status)
    × ((r.json ≡ none) ⊎ ((body : Body _) × (r.json ≡ some body) × (get_or body.error "" ≡ "")))

-- Which answers end in which outcome.
abbrev pub Ends : {T : Type 0} → Response T → Outcome T → Type 0
Ends r (returned none) = r.status ≡ 204
Ends r (returned (some v)) =
    (200 ≤ r.status)
    × (r.status < 300)
    × (r.status ≢ 204)
    × ((body : Body _) × (r.json ≡ some body) × (body.payload ≡ v))
Ends r (api_error e) =
    (e.status ≡ r.status) × ((r.status < 200) ⊎ (300 ≤ r.status)) × Tells r e.message
Ends r thrown = (200 ≤ r.status) × (r.status < 300) × (r.status ≢ 204) × (r.json ≡ none)

-- The client has no token: not in memory, not after the page is loaded again, and in no request of
-- the methods of `api`.
abbrev pub IsSignedOut : Type 0 → Client → Type 0
IsSignedOut B c =
    (c.auth_token ≡ none)
    × ((start c.storage).auth_token ≡ none)
    × ((path : String) (method : Option String) (body : Option B)
        → (http_request path (plain method body) c).headers
          ≡ ("Content-Type", "application/json") ∷ [])

-- What an answer does to the client, and the events that it raises.
abbrev pub Leaves : Type 0 → {T : Type 0} → Client → Response T → Client → List Event → Type 0
Leaves B c r c' events =
    ((r.status ≡ 401) × IsSignedOut B c' × (events ≡ unauthorized ∷ []))
    ⊎ ((r.status ≢ 401) × (c' ≡ c) × (events ≡ []))

dropped-IsSignedOut : (B : Type 0) (c : Client) → IsSignedOut B (set_token none c)
unfolding set_token start http_request request_headers
dropped-IsSignedOut B c = elim (Option-cases c.storage) [
  | inl nowhere ↦ (refl, rw nowhere refl, λ path method body. refl)
  | inr (entry, there) ↦ (refl, rw there refl, λ path method body. refl)
]

error_message-Tells :
    {T : Type 0} (r : Response T) (o : Option (Body T))
    → r.json ≡ o
    → Tells r (error_message r.status o)
unfolding error_message
error_message-Tells r none h = (refl, inl h)
error_message-Tells r (some body) h = elim (Option-cases body.error) [
  | inl silent ↦ rw (error_message, silent) (refl, inr (body, h, rw silent refl))
  | inr (text, said) ↦ elim (Bool-cases (truthy text)) [
    | inl full ↦ rw (error_message, said, full) (ground (arith, eq_iff text ""), (body, h, said))
    | inr empty ↦
        rw (error_message, said, empty)
          (refl, inr (body, h, rw said (ground (arith, eq_iff text ""))))
  ]
]

module _ {T : Type 0} (c : Client) (r : Response T) where
  receive-Leaves : (B : Type 0) → Leaves B c r (receive c (some r)).0 (receive c (some r)).1
  unfolding receive
  receive-Leaves B = elim (Bool-cases (nat_eq r.status 401)) [
    | inl denied ↦ rw denied (inl (ground arith, dropped-IsSignedOut B c, refl))
    | inr other ↦ rw other (inr (ground arith, refl, refl))
  ]

  receive-Ends : Ends r (receive c (some r)).2
  unfolding receive
  receive-Ends = elim (Bool-cases (is_ok r.status)) [
    | inl fine ↦ elim (Bool-cases (nat_eq r.status 204)) [
      | inl empty ↦ rw (fine, empty) (ground arith)
      | inr full ↦ elim (Option-cases r.json) [
        | inl unread ↦ rw (fine, full, unread) (ground arith)
        | inr (body, read) ↦
            rw (fine, full, read) (ground arith, ground arith, ground arith, (body, refl, refl))
      ]
    ]
    | inr failed ↦ rw failed (refl, ground arith, error_message-Tells r r.json refl)
  ]

-- An answer 401 leaves no token, in memory, in the browser that loads the page again, or in the
-- requests that follow, and raises the event; no other answer touches the client. The value of the body is returned for a status of 200 to 299 but
-- 204, for which the value is undefined, and any other status ends in an ApiError with that
-- status and the hub's text, or the status where the hub has said none. Where `fetch` itself rejects, the client stays as it was and the call rejects.
pub request_lem :
    {B T : Type 0} (fetch : HttpRequest B → Option (Response T)) (path : String) (o : Options B)
    (c : Client)
    → ((fetch (http_request path o c) ≡ none) × (request fetch path o c ≡ (c, [], thrown)))
      ⊎ ((r : Response T) × (fetch (http_request path o c) ≡ some r)
          × Leaves B c r (request fetch path o c).0 (request fetch path o c).1
          × Ends r (request fetch path o c).2)
unfolding request receive
request_lem {B} fetch path o c = elim (Option-cases (fetch (http_request path o c))) [
  | inl rejected ↦ inl (rejected, rw (rejected, receive))
  | inr (r, answered) ↦ inr (
    r,
    answered,
    rw (answered, receive) (receive-Leaves c r B),
    rw (answered, receive) (receive-Ends c r),
  )
]

overlay_other :
    (k : String) (base given : Dict String)
    → lookup k given ≡ none
    → lookup k (overlay base given) ≡ lookup k base
unfolding lookup
overlay_other k base [] h = refl
overlay_other k base ((j, v) ∷ more) h = elim (Bool-cases (j == k)) [
  | inl same ↦ absurd (ground arith)
  | inr other ↦
      overlay_other k (insert j v base) more (ground arith) ∙ lookup-insert j k v base ∙ rw other
]

-- A request whose own headers have no Authorization is sent with the client's bearer token
-- exactly where the client has a token that is not empty.
http_request_bearer :
    {B : Type 0} (path : String) (o : Options B) (c : Client)
    → lookup "Authorization" o.headers ≡ none
    → lookup "Authorization" (http_request path o c).headers ≡ elim (or_null c.auth_token) [
      | none ↦ none
      | some token ↦ some (String.◌++◌ "Bearer " token)
    ]
unfolding http_request request_headers lookup
http_request_bearer path o c h =
    let bare =
      overlay_other "Authorization" (("Content-Type", "application/json") ∷ []) o.headers h in
    elim (Option-cases c.auth_token) [
      | inl missing ↦ rw missing bare
      | inr (token, held) ↦ elim (Bool-cases (truthy token)) [
        | inl full ↦ rw (held, full) (lookup-insert_self "Authorization" _ _)
        | inr empty ↦ rw (held, empty) bare
      ]
    ]
