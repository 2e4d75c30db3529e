-- ===== src/Shell/Queries.antt =====
-- What the query client of web/src/main.tsx does when a query or a mutation fails, with
-- web/src/lib/handle-server-error.ts.

pub mod Failures
use Prim.Native.Nat.{zero, suc}
use cadentra.Prelude.{
  ℕ, String, Option, none, some, List, [], ◌∷◌, Bool, true, false, not, ◌&&◌, ◌||◌, ltb, nat_eq,
  truthy, if◌then◌else◌,
}
use cadentra.Session.Request.{ApiError}
use cadentra.Session.Store.{App, reset}

-- import.meta.env
pub data Mode : Type 0 where
  development production : Mode

abbrev pub is_dev : Mode → Bool
is_dev development = true
is_dev production = false

abbrev pub is_prod : Mode → Bool
is_prod production = true
is_prod development = false

-- What is thrown: an AxiosError with its own status and, where the server has answered, the status
-- and the title of the answer; the client's ApiError; or something else.
pub data Failure : Type 0 where
  axios : (status : Option ℕ) → (response : Option (ℕ × Option String)) → Failure
  api : ApiError → Failure
  other : Failure

-- error instanceof AxiosError, and error.response?.status
abbrev pub axios_status : Failure → Option ℕ
axios_status (axios status none) = none
axios_status (axios status (some (answer, title))) = some answer
axios_status (api e) = none
axios_status other = none

abbrev pub is_status : ℕ → Option ℕ → Bool
is_status n none = false
is_status n (some m) = nat_eq n m

-- queries.retry
unfoldable pub retry : Mode → ℕ → Failure → Bool
retry mode failure_count error =
    if is_dev mode
    then false
    else if ltb 3 failure_count && is_prod mode
    then false
    else not (is_status 401 (axios_status error) || is_status 403 (axios_status error))

-- Messages that are shown, and pages that are opened.
pub data Effect : Type 0 where
  toast : String → Effect
  opens_sign_in : (redirect : String) → Effect
  opens_start : Effect

-- handleServerError: 'status' in error
abbrev pub own_status : Failure → Option ℕ
own_status (axios status response) = status
own_status (api e) = some e.status
own_status other = none

abbrev pub title_of : Failure → Option String
title_of (axios status (some (answer, title))) = title
title_of (axios status none) = none
title_of (api e) = none
title_of other = none

abbrev pub or_title : String → Option String → String
or_title text none = text
or_title text (some title) = if truthy title then title else text

unfoldable pub handle_server_error : Failure → Effect
handle_server_error error = toast (
    or_title (if is_status 204 (own_status error) then "No content." else "Something went wrong!")
      (title_of error))

-- mutations.onError, which a mutation with an onError of its own replaces.
unfoldable pub on_mutation_error : Failure → List Effect
unfolding handle_server_error
on_mutation_error error =
    handle_server_error error
    ∷ (if is_status 304 (axios_status error) then toast "Content not modified!" ∷ [] else [])

-- queryCache.onError; `path` is currentPath() and `at_sign_in` is isSignInPath of it.
unfoldable pub on_query_error :
    Mode → (path : String) → (at_sign_in : Bool) → Failure → App → App × List Effect
unfolding reset
on_query_error mode path at_sign_in error app =
    if is_status 401 (axios_status error)
    then (
      reset app,
      toast "Session expired!" ∷ (if at_sign_in then [] else opens_sign_in path ∷ []),
    )
    else if is_status 500 (axios_status error)
    then (app, toast "Internal Server Error!" ∷ (if is_prod mode then opens_start ∷ [] else []))
    else (app, [])

-- A query that fails over and over: how often it is asked, with fuel for the rounds.
unfoldable pub attempts : Mode → Failure → (fuel failure_count : ℕ) → ℕ
unfolding retry
attempts mode error zero failure_count = 0
attempts mode error (suc fuel) failure_count =
    let more = attempts mode error fuel (suc failure_count) in
    if retry mode failure_count error then suc more else 1
