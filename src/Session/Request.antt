-- ===== src/Session/Request.antt =====
-- web/src/lib/api.ts: ApiError, request and the methods of `api`.
pub mod Laws
use Prim.Native.String
use cadentra.Prelude.{
  ℕ, String, Option, none, some, List, [], ◌∷◌, Bool, ◌&&◌, ltb, leb, nat_eq, truthy, if◌then◌else◌,
  Dict, insert,
}
use cadentra.Session.Client.{Client, set_token}

-- The text of an error: `HTTP ${status}`, or what the hub answered.
pub data Message : Type 0 where
  http_status : ℕ → Message
  from_hub : String → Message

pub record ApiError : Type 0 where
  pub status : ℕ
  pub message : Message

-- The parsed body of an answer: its member `error`, and the value that the caller wants.
pub record Body (T : Type 0) : Type 0 where
  pub error : Option String
  pub payload : T

-- An answer of `fetch`. `json` is none where the body is no JSON.
pub record Response (T : Type 0) : Type 0 where
  pub status : ℕ
  pub json : Option (Body T)

-- Response.ok
abbrev pub is_ok : ℕ → Bool
is_ok status = leb 200 status && ltb status 300

-- RequestInit, with the body still unserialized.
pub record Options (B : Type 0) : Type 0 where
  pub method : Option String
  pub headers : Dict String
  pub body : Option B

pub record HttpRequest (B : Type 0) : Type 0 where
  pub url : String
  pub method : Option String
  pub headers : Dict String
  pub body : Option B

-- How a call ends: with a value (none is undefined), with an ApiError, or with another error,
-- which `fetch` or the reading of the body has thrown.
pub data Outcome (T : Type 0) : Type 0 where
  returned : Option T → Outcome T
  api_error : ApiError → Outcome T
  thrown : Outcome T

pub data Event : Type 0 where
  unauthorized : Event

abbrev pub overlay : Dict String → Dict String → Dict String
overlay base [] = base
overlay base ((k, v) ∷ more) = overlay (insert k v base) more

abbrev authorize : Option String → Dict String → Dict String
authorize none headers = headers
authorize (some token) headers =
    if truthy token then insert "Authorization" (String.◌++◌ "Bearer " token) headers else headers

unfoldable pub request_headers : Client → Dict String → Dict String
request_headers c given =
    authorize c.auth_token (overlay (("Content-Type", "application/json") ∷ []) given)

-- msg: the hub's text, where the body can be read and has one.
unfoldable pub error_message : {T : Type 0} → ℕ → Option (Body T) → Message
error_message status none = http_status status
error_message status (some body) = elim body.error [
  | none ↦ http_status status
  | some text ↦ if truthy text then from_hub text else http_status status
]

abbrev read_json : {T : Type 0} → Option (Body T) → Outcome T
read_json none = thrown
read_json (some body) = returned (some body.payload)

-- What is done with the answer; none is a `fetch` that rejects.
unfoldable pub receive :
    {T : Type 0} → Client → Option (Response T) → Client × List Event × Outcome T
unfolding error_message
receive c none = (c, [], thrown)
receive c (some resp) =
    let unauthenticated = nat_eq resp.status 401 in
    (
      if unauthenticated then set_token none c else c,
      if unauthenticated then unauthorized ∷ [] else [],
      if is_ok resp.status
          then if nat_eq resp.status 204 then returned none else read_json resp.json
          else api_error
              (record { status = resp.status; message = error_message resp.status resp.json }),
    )

-- What is handed to `fetch`.
unfoldable pub http_request : {B : Type 0} → String → Options B → Client → HttpRequest B
unfolding request_headers
http_request path options c = record {
  url = String.◌++◌ "/api" path;
  method = options.method;
  headers = request_headers c options.headers;
  body = options.body;
}

-- `fetch` is the browser's.
unfoldable pub request :
    {B T : Type 0}
    → (HttpRequest B → Option (Response T))
    → String
    → Options B
    → Client
    → Client × List Event × Outcome T
unfolding receive http_request
request fetch path options c = receive c (fetch (http_request path options c))

abbrev pub plain : {B : Type 0} → Option String → Option B → Options B
plain method body = record { method = method; headers = []; body = body }

-- The methods of `api`.
unfoldable pub get :
    {B T : Type 0}
    → (HttpRequest B → Option (Response T))
    → String
    → Client
    → Client × List Event × Outcome T
unfolding request
get fetch path = request fetch path (plain none none)

unfoldable pub post :
    {B T : Type 0}
    → (HttpRequest B → Option (Response T))
    → String
    → Option B
    → Client
    → Client × List Event × Outcome T
unfolding request
post fetch path body = request fetch path (plain (some "POST") body)

unfoldable pub put :
    {B T : Type 0}
    → (HttpRequest B → Option (Response T))
    → String
    → Option B
    → Client
    → Client × List Event × Outcome T
unfolding request
put fetch path body = request fetch path (plain (some "PUT") body)

unfoldable pub del :
    {B T : Type 0}
    → (HttpRequest B → Option (Response T))
    → String
    → Client
    → Client × List Event × Outcome T
unfolding request
del fetch path = request fetch path (plain (some "DELETE") none)
