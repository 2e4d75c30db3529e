-- ===== src/Shell/Cookies.antt =====
-- web/src/lib/cookies.ts, reading a cookie. `document.cookie` is the browser's.
pub mod Split
pub mod Parts
pub mod Reading
pub mod Jar
use Prim.Native.String
use cadentra.Prelude.{split, ℕ, ◌-◌, String, Option, none, some, List, [], ◌∷◌}

-- split(';').shift()
unfoldable pub first_part : List String → Option String
first_part [] = none
first_part (x ∷ xs) = some x

-- parts.length === 2, parts.pop()?.split(';').shift()
unfoldable pub value_of : List String → Option String
unfolding split first_part
value_of (x ∷ y ∷ []) = first_part (split ";" y)
value_of _ = none

-- `cookies` is document.cookie, and none where there is no document.
unfoldable pub get_cookie : String → Option String → Option String
unfolding value_of split
get_cookie name none = none
get_cookie name (some cookies) =
    value_of (split (String.◌++◌ "; " (String.◌++◌ name "=")) (String.◌++◌ "; " cookies))

-- The text that setCookie writes; `digits` is the text of a number.
unfoldable pub set_cookie : (ℕ → String) → String → String → ℕ → String
set_cookie digits name value max_age =
    String.◌++◌ name
      (String.◌++◌ "=" (String.◌++◌ value (String.◌++◌ "; path=/; max-age=" (digits max_age))))

unfoldable pub remove_cookie : String → String
remove_cookie name = String.◌++◌ name "=; path=/; max-age=0"
