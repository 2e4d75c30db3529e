-- ===== src/Tests/Sessions.antt =====
-- The client and the store, web/src/lib/api.ts and web/src/stores/auth-store.ts.
use cadentra.Prelude.{◌≡◌, ◌⊎◌, String, Option, none, some, [], ◌∷◌}
use cadentra.Session.Client.{Client}
use cadentra.Session.Request.{Response, Options, HttpRequest, http_request, request, thrown}
use cadentra.Session.Request.Laws.{Leaves, Ends, request_lem}
use cadentra.Session.Store.{App, load}
use cadentra.Session.Sync.{IsSynced, sets_access_token, resets, acts, acts-load-IsSynced}

abbrev signed_in : Client
signed_in = record { auth_token = some "t0k"; storage = some (some "t0k") }

abbrev plain_get : Options String
plain_get = record { method = none; headers = []; body = none }

abbrev refused : Response String
refused = record { status = 401; json = some (record { error = some "expired"; payload = "" }) }

abbrev answer_401 : HttpRequest String → Option (Response String)
answer_401 r = some refused

request_lem_example :
    ((answer_401 (http_request "/nodes" plain_get signed_in) ≡ none)
      × (request answer_401 "/nodes" plain_get signed_in ≡ (signed_in, [], thrown)))
    ⊎ ((r : Response String) × (answer_401 (http_request "/nodes" plain_get signed_in) ≡ some r)
        × Leaves String signed_in r
            (request answer_401 "/nodes" plain_get signed_in).0
            (request answer_401 "/nodes" plain_get signed_in).1
        × Ends r (request answer_401 "/nodes" plain_get signed_in).2)
request_lem_example = request_lem answer_401 "/nodes" plain_get signed_in

acts-load-IsSynced_example :
    IsSynced (acts (load (some (some "old"))) (sets_access_token "new" ∷ resets ∷ []))
acts-load-IsSynced_example =
    acts-load-IsSynced (some (some "old")) (sets_access_token "new" ∷ resets ∷ [])

abbrev signed_in_app : App
signed_in_app = record { client = signed_in; auth = record { user = none; access_token = "t0k" } }
