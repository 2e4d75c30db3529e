-- ===== src/Shell/Queries/Failures.antt =====
-- What the handlers of web/src/main.tsx make of the failures of the client, web/src/lib/api.ts.
use cadentra.Prelude.{◌≢◌, Option, none, some}
use cadentra.Session.Client.{Client}
use cadentra.Session.Request.{Outcome, returned, api_error, thrown}
use cadentra.Shell.Queries.{Failure, axios, api, other}

-- What a call of the client throws.
unfoldable pub failure_of : {T : Type 0} → Outcome T → Option Failure
failure_of (returned value) = none
failure_of (api_error e) = some (api e)
failure_of thrown = some other

-- Neither an AxiosError nor an error with the status 204.
abbrev IsPlain : Failure → Type 0
IsPlain (axios status response) = ⊥
IsPlain (api e) = e.status ≢ 204
IsPlain other = Unit
