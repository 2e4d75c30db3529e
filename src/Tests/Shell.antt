-- ===== src/Tests/Shell.antt =====
-- The cookies and the preferences that are kept in them, web/src/lib/cookies.ts and web/src/context.
use cadentra.Prelude.{
  Dict, insert, remove, ◌==◌, if◌then◌else◌, ◌≡◌, refl, String, some, List, [], ◌∷◌, lookup, after,
  split, ltb, ℕ, All,
}
use cadentra.Shell.Cookies.{get_cookie, set_cookie, remove_cookie}
use cadentra.Shell.Preferences.{
  Name, theme, font, direction, collapsible, variant, cookie_name, max_age, options, Page, load,
  Event, sets, resets_theme, resets_layout, run,
}
use cadentra.Shell.Preferences.Names.{All-includes}
use cadentra.Shell.Preferences.Kept.{Keeps, load-run}
use cadentra.Shell.Cookies.Parts.{IsJar, cookie_text}
use cadentra.Shell.Cookies.Reading.{get_cookie-cookie_text}

abbrev jar : List (String × String)
jar = ("a", "1") ∷ ("ab", "x=2") ∷ []

in_order : IsJar jar
unfolding lookup
in_order = (
  refl,
  (refl, tt),
  (refl, tt),
  (refl, tt),
  (refl, (refl, (refl, tt)), (refl, (refl, tt)), (refl, (refl, (refl, tt))), tt),
)

get_cookie-cookie_text_example : get_cookie "ab" (some (cookie_text jar)) ≡ some "x=2"
unfolding lookup
get_cookie-cookie_text_example = get_cookie-cookie_text "ab" (refl, (refl, tt)) jar in_order

-- A browser that reads `name=value; path=/; max-age=age`.
abbrev obey : List String → String → Dict String → Dict String
obey (name ∷ value ∷ []) age cookies =
    if age == "max-age=0" then remove name cookies else insert name value cookies
obey parts age cookies = cookies

abbrev read_parts : List String → Dict String → Dict String
unfolding split
read_parts (pair ∷ path ∷ age ∷ []) cookies = obey (split "=" pair) age cookies
read_parts parts cookies = cookies

unfoldable browser : String → Dict String → Dict String
unfolding split
browser text cookies = read_parts (split "; " text) cookies

abbrev digits : ℕ → String
digits n = if ltb n 1000000 then "604800" else "31536000"

abbrev IsStored : Name → String → Type 0
IsStored n v =
    (cookies : Dict String)
    → browser (set_cookie digits (cookie_name n) v (max_age n)) cookies
      ≡ insert (cookie_name n) v cookies

All-IsStored : (n : Name) → All (IsStored n) (options n)
unfolding browser set_cookie insert after split
All-IsStored theme = ((λ c. refl), ((λ c. refl), ((λ c. refl), tt)))
All-IsStored font = ((λ c. refl), ((λ c. refl), ((λ c. refl), tt)))
All-IsStored direction = ((λ c. refl), ((λ c. refl), tt))
All-IsStored collapsible = ((λ c. refl), ((λ c. refl), ((λ c. refl), tt)))
All-IsStored variant = ((λ c. refl), ((λ c. refl), ((λ c. refl), tt)))

browser-remove_cookie :
    (n : Name) (cookies : Dict String)
    → browser (remove_cookie (cookie_name n)) cookies ≡ remove (cookie_name n) cookies
unfolding browser remove_cookie remove after split
browser-remove_cookie theme c = refl
browser-remove_cookie font c = refl
browser-remove_cookie direction c = refl
browser-remove_cookie collapsible c = refl
browser-remove_cookie variant c = refl

browser-Keeps : Keeps browser digits
browser-Keeps = record {
  stores = λ n v cookies h. All-includes (IsStored n) (options n) v (All-IsStored n) h cookies;
  drops = browser-remove_cookie;
}

abbrev events : List Event
events =
    sets theme "light"
    ∷ sets collapsible "none"
    ∷ resets_theme
    ∷ sets font "manrope"
    ∷ sets direction "rtl"
    ∷ resets_layout
    ∷ sets theme "dark"
    ∷ []

abbrev after_events : Page
after_events = run browser digits (load jar) events

after_events-value :
    (after_events.value theme ≡ "dark")
    × (after_events.value font ≡ "manrope")
    × (after_events.value collapsible ≡ "icon")
unfolding run browser load set_cookie remove_cookie
after_events-value = (refl, refl, refl)

load-run_example : (load after_events.cookies).value theme ≡ after_events.value theme
load-run_example = load-run browser digits browser-Keeps jar events theme in_order
