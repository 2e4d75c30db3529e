-- ===== src/Tests/Redirects.antt =====
-- The redirects, web/src/lib/navigation.ts, with a browser that knows a few addresses.
use cadentra.Prelude.{◌≡◌, ◌≢◌, refl, ◌⊎◌, String, Option, none, some, ◌==◌, if◌then◌else◌}
use cadentra.Navigation.{Url, path_text, sign_in_path, safe_redirect, safe_redirect-cases}

abbrev here : String
here = "https://hub.example"

abbrev tasks_page : Url
tasks_page = record { origin = here; pathname = "/tasks"; search = "?q=a"; hash = "" }

-- What `/.//evil.example` resolves to: a path of this origin.
abbrev dotted : Url
dotted = record { origin = here; pathname = "//evil.example"; search = ""; hash = "" }

abbrev elsewhere : Url
elsewhere = record { origin = "https://evil.example"; pathname = "/"; search = ""; hash = "" }

abbrev browser : String → String → Option Url
browser value base =
    if value == "/tasks?q=a"
    then some tasks_page
    else if value == "/.//evil.example"
    then some dotted
    else if value == "//evil.example"
    then some elsewhere
    else none

safe_redirect-cases_example :
    (safe_redirect browser here (some "/tasks?q=a") ≡ "/")
    ⊎ ((text : String) × (u : Url) × (some "/tasks?q=a" ≡ some text)
        × (browser text here ≡ some u)
        × (u.origin ≡ here)
        × (u.pathname ≢ sign_in_path)
        × (safe_redirect browser here (some "/tasks?q=a") ≡ path_text u))
safe_redirect-cases_example = safe_redirect-cases browser here (some "/tasks?q=a")

-- The path of `/.//evil.example` is accepted, and itself resolves to another origin.
dotted_accepted : safe_redirect browser here (some "/.//evil.example") ≡ "//evil.example"
unfolding safe_redirect path_text
dotted_accepted = refl

dotted_escapes :
    browser (safe_redirect browser here (some "/.//evil.example")) here ≡ some elsewhere
unfolding safe_redirect path_text
dotted_escapes = refl
