-- ===== src/Session/Layout.antt =====
-- web/src/components/layout/authenticated-layout.tsx: the check of the session around every page of
-- the console. Its effect runs when the layout is put up, and again whenever the token or the address
-- has changed; the answers to its requests come at any time, in any order.
pub mod Reach
pub mod Facts
pub mod Invariant
pub mod Progress
use Prim.Native.Nat.{zero, suc}
use cadentra.Prelude.{
  ℕ, String, Option, none, some, List, [], ◌∷◌, ◌++◌, map, Bool, true, false, ℤ, truthy,
  if◌then◌else◌,
}
use cadentra.Session.Request.{Response, Outcome, returned, api_error, thrown, receive}
use cadentra.Session.Store.{App, SessionInfo, session_to_user, set_user, reset}
use cadentra.Navigation.{Url, current_path}

-- A chain of promises: the request is not answered, its answer is dealt with, all is done.
pub data Stage : Type 0 where
  waiting settled finished : Stage

-- One run of the effect that has asked the hub, with its variable `mounted`.
pub record Check : Type 0 where
  pub mounted : Bool
  pub stage : Stage

-- `present`: the layout is on the page. `checks` are the runs of the effect that have asked the hub,
-- the newest first, and `visits` the addresses to which the sign-in page is told to return.
pub record Layout : Type 0 where
  pub app : App
  pub present : Bool
  pub checking : Bool
  pub redirecting : Bool
  pub checks : List Check
  pub visits : List String

unfoldable pub redirect_to_sign_in : Option Url → Layout → Layout
redirect_to_sign_in location l =
    if l.redirecting
    then l
    else record l { redirecting = true; visits = l.visits ++ (current_path location ∷ []) }

-- mounted = false
unfoldable pub leave : Check → Check
leave c = record c { mounted = false }

abbrev waiting_check : Check
waiting_check = record { mounted = true; stage = waiting }

-- What React calls before the effect runs again, and when the layout is taken down. Only the newest
-- run can have `mounted` still.
unfoldable pub clean_up : Layout → Layout
clean_up l = record l { checks = map leave l.checks }

unfoldable pub run_effect : Option Url → Layout → Layout
unfolding redirect_to_sign_in
run_effect location l =
    if truthy l.app.auth.access_token
    then record l { checks = waiting_check ∷ l.checks }
    else redirect_to_sign_in location l

-- The layout is put up: the first run of the effect.
unfoldable pub mount : Option Url → App → Layout
unfolding run_effect
mount location app = run_effect location (record {
  app = app;
  present = true;
  checking = true;
  redirecting = false;
  checks = [];
  visits = [];
})

unfoldable pub run_again : Option Url → Layout → Layout
unfolding clean_up run_effect
run_again location l = run_effect location (clean_up l)

unfoldable pub take_down : Layout → Layout
unfolding clean_up
take_down l = record (clean_up l) { present = false }

-- then: `get_time` is `new Date(text).getTime()`.
unfoldable pub on_session : (String → ℤ) → Bool → SessionInfo → Layout → Layout
unfolding set_user
on_session get_time mounted session l =
    if mounted
    then record l { app = set_user (some (session_to_user get_time session)) l.app }
    else l

-- catch
unfoldable pub on_failure : Option Url → Layout → Layout
unfolding reset redirect_to_sign_in
on_failure location l = redirect_to_sign_in location (record l { app = reset l.app })

-- then and catch together. Of an answer 204, `session` is undefined, and sessionToUser throws.
unfoldable pub on_outcome : (String → ℤ) → Option Url → Bool → Outcome SessionInfo → Layout → Layout
unfolding on_session on_failure
on_outcome get_time location mounted (returned (some session)) l =
    on_session get_time mounted session l
on_outcome get_time location mounted (returned none) l =
    if mounted then on_failure location l else l
on_outcome get_time location mounted (api_error e) l = on_failure location l
on_outcome get_time location mounted thrown l = on_failure location l

-- finally
unfoldable pub on_end : Bool → Layout → Layout
on_end mounted l = if mounted then record l { checking = false } else l

unfoldable pub nth : {A : Type 0} → ℕ → List A → Option A
nth n [] = none
nth zero (x ∷ xs) = some x
nth (suc n) (x ∷ xs) = nth n xs

unfoldable pub at : ℕ → (Check → Check) → List Check → List Check
at n f [] = []
at zero f (x ∷ xs) = f x ∷ xs
at (suc n) f (x ∷ xs) = x ∷ at n f xs

abbrev pub to_stage : Stage → Check → Check
to_stage s c = record c { stage = s }

-- The hub's answer to the run `i` of the effect, `mounted` being that run's variable. It goes
-- through `api.get`, which may drop the client's token.
unfoldable pub answer :
    (String → ℤ) → Option Url → ℕ → Bool → Option (Response SessionInfo) → Layout → Layout
unfolding on_outcome at receive
answer get_time location i mounted r l =
    let result = receive l.app.client r in
    let got = record l {
      app = record l.app { client = result.0 };
      checks = at i (to_stage settled) l.checks;
    } in
    on_outcome get_time location mounted result.2 got

unfoldable pub finish : ℕ → Bool → Layout → Layout
unfolding on_end at
finish i mounted l = on_end mounted (record l { checks = at i (to_stage finished) l.checks })
