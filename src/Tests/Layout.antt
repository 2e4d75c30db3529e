-- ===== src/Tests/Layout.antt =====
-- The check of the session and signing in: web/src/components/layout/authenticated-layout.tsx and
-- web/src/features/auth/sign-in/index.tsx.
use cadentra.Prelude.{
  ◌≡◌, refl, String, Option, none, some, [], ◌∷◌, true, ◌==◌, ℤ, pos, if◌then◌else◌,
}
use cadentra.Navigation.{Url, path_text}
use cadentra.Session.Request.{Response, HttpRequest, post}
use cadentra.Session.Store.{App, SessionInfo, load}
use cadentra.Session.Sync.{IsSynced, acts, acts-load-IsSynced}
use cadentra.Session.Layout.{Check, waiting, Layout, nth, mount, answer, run_effect}
use cadentra.Session.Layout.Reach.{answers, Reach, start, later}
use cadentra.Session.Layout.Facts.{Inv}
use cadentra.Session.Layout.Invariant.{Reach-Inv}
use cadentra.Session.Layout.Progress.{conclude, Decided, Reach-conclude}
use cadentra.Session.SignIn.{Credentials, Login, on_submit, handle_sign_out}
use cadentra.Session.SignIn.Laws.{Answers, on_submit-Answers, sign_out_and_in}

abbrev epoch : String → ℤ
epoch text = pos 0

abbrev tasks_page : Url
tasks_page = record {
  origin = "https://hub.example";
  pathname = "/tasks";
  search = "?q=a";
  hash = "";
}

abbrev signed_in : App
signed_in = record {
  client = record { auth_token = some "t0k"; storage = some (some "t0k") };
  auth = record { user = none; access_token = "t0k" };
}

abbrev signed_out : App
signed_out = record {
  client = record { auth_token = none; storage = some none };
  auth = record { user = none; access_token = "" };
}

abbrev refused : Response SessionInfo
refused = record { status = 401; json = none }

abbrev first_check : Check
first_check = record { mounted = true; stage = waiting }

abbrev at_first : Layout
at_first = mount (some tasks_page) signed_in

abbrev refused_layout : Layout
refused_layout = answer epoch (some tasks_page) 0 true (some refused) at_first

-- A layout with a token that the hub refuses.
refused_reach : Reach epoch refused_layout
unfolding mount run_effect nth
refused_reach =
    later (start (some tasks_page) signed_in)
      (answers (some tasks_page) 0 first_check (some refused) refl refl)

Reach-Inv_example : Inv refused_layout
Reach-Inv_example = Reach-Inv refused_reach

Reach-conclude_example :
    Reach epoch (conclude epoch (some tasks_page) (some refused) at_first)
    × Decided (conclude epoch (some tasks_page) (some refused) at_first)
unfolding mount run_effect
Reach-conclude_example =
    Reach-conclude epoch (some tasks_page) (some refused) at_first
      (start (some tasks_page) signed_in) refl

abbrev ada : Credentials
ada = record { username = "ada"; password = "lovelace" }

abbrev ada_login : Login
ada_login = record {
  token = "n3w";
  user = record {
    token = "n3w";
    user_id = "u1";
    username = "ada";
    role = "operator";
    expires = "";
  };
}

abbrev accepts : HttpRequest Credentials → Option (Response Login)
accepts r =
    some (record { status = 200; json = some (record { error = none; payload = ada_login }) })

abbrev knows_tasks : String → String → Option Url
knows_tasks value base = if value == "/tasks?q=a" then some tasks_page else none

on_submit-Answers_example :
    IsSynced
      (on_submit knows_tasks "https://hub.example" epoch accepts
        (some "/tasks?q=a")
        ada
        (load (some none))).app
    × Answers knows_tasks "https://hub.example" epoch
        (some "/tasks?q=a")
        (post accepts "/login" (some ada) (load (some none)).client).2
        (on_submit knows_tasks "https://hub.example" epoch accepts
          (some "/tasks?q=a")
          ada
          (load (some none)))
        (load (some none))
unfolding acts load
on_submit-Answers_example =
    on_submit-Answers knows_tasks "https://hub.example" epoch (some "/tasks?q=a") accepts ada
      (load (some none)) refl (acts-load-IsSynced (some none) [])

sign_out_and_in_example :
    (on_submit knows_tasks "https://hub.example" epoch accepts
      (handle_sign_out "/tasks?q=a" signed_in).1
      ada
      (handle_sign_out "/tasks?q=a" signed_in).0).visits
    ≡ "/tasks?q=a" ∷ []
unfolding post path_text handle_sign_out
sign_out_and_in_example =
    sign_out_and_in knows_tasks epoch accepts tasks_page "/tasks?q=a" ada signed_in ada_login refl
      refl refl refl
