-- ===== src/Shell/Preferences.antt =====
-- What the console looks like, which the providers of web/src/context keep in cookies: the theme
-- (theme-provider.tsx), the font (font-provider.tsx), the direction of the text
-- (direction-provider.tsx) and the two parts of the layout (layout-provider.tsx). All share the
-- cookies of the browser.
pub mod Names
pub mod Kept
use cadentra.Prelude.{
  ℕ, String, Option, none, some, List, [], ◌∷◌, Dict, Bool, nat_eq, truthy, includes, if◌then◌else◌,
}
use cadentra.Shell.Cookies.{get_cookie, set_cookie, remove_cookie}
use cadentra.Shell.Cookies.Parts.{cookie_text}

pub data Name : Type 0 where
  theme font direction collapsible variant : Name

abbrev pub index : Name → ℕ
index theme = 0
index font = 1
index direction = 2
index collapsible = 3
index variant = 4

abbrev pub same : Name → Name → Bool
same n m = nat_eq (index n) (index m)

-- The names of the cookies.
abbrev pub cookie_name : Name → String
cookie_name theme = "vite-ui-theme"
cookie_name font = "font"
cookie_name direction = "dir"
cookie_name collapsible = "layout_collapsible"
cookie_name variant = "layout_variant"

abbrev pub max_age : Name → ℕ
max_age theme = 31536000
max_age font = 31536000
max_age direction = 31536000
max_age collapsible = 604800
max_age variant = 604800

-- web/src/config/fonts.ts
abbrev pub fonts : List String
fonts = "inter" ∷ "manrope" ∷ "system" ∷ []

-- The values of the types Theme, Font, Direction, Collapsible and Variant.
abbrev pub options : Name → List String
options theme = "dark" ∷ "light" ∷ "system" ∷ []
options font = fonts
options direction = "ltr" ∷ "rtl" ∷ []
options collapsible = "offcanvas" ∷ "icon" ∷ "none" ∷ []
options variant = "inset" ∷ "sidebar" ∷ "floating" ∷ []

abbrev pub default_value : Name → String
default_value theme = "system"
default_value font = "inter"
default_value direction = "ltr"
default_value collapsible = "icon"
default_value variant = "inset"

-- `saved || d`
abbrev pub or_default : String → Option String → String
or_default d none = d
or_default d (some v) = if truthy v then v else d

abbrev known_font : Option String → String
known_font none = "inter"
known_font (some v) = if includes fonts v then v else "inter"

-- What the state of a provider starts with, from the text of its cookie.
unfoldable pub initial : Name → Option String → String
unfolding includes
initial font saved = known_font saved
initial theme saved = or_default (default_value theme) saved
initial direction saved = or_default (default_value direction) saved
initial collapsible saved = or_default (default_value collapsible) saved
initial variant saved = or_default (default_value variant) saved

-- The cookies that the browser keeps for the console, and the states of the providers.
pub record Page : Type 0 where
  pub cookies : Dict String
  pub value : Name → String

unfoldable pub load : Dict String → Page
unfolding initial
load jar = record {
  cookies = jar;
  value = λ n. initial n (get_cookie (cookie_name n) (some (cookie_text jar)));
}

unfoldable pub update : Name → String → (Name → String) → Name → String
update n v f m = if same n m then v else f m

pub data Event : Type 0 where
  sets : Name → String → Event
  resets_theme resets_font resets_direction resets_layout : Event

-- `write` is what an assignment to document.cookie does, and `digits` the text of a number.
module _ (write : String → Dict String → Dict String) (digits : ℕ → String) where
  -- setTheme, setFont, setDir, setCollapsible and setVariant
  unfoldable pub set_value : Name → String → Page → Page
  unfolding set_cookie update
  set_value n v p = record {
    cookies = write (set_cookie digits (cookie_name n) v (max_age n)) p.cookies;
    value = update n v p.value;
  }

  -- resetTheme, resetFont and resetDir
  unfoldable pub drop_value : Name → Page → Page
  unfolding remove_cookie update
  drop_value n p = record {
    cookies = write (remove_cookie (cookie_name n)) p.cookies;
    value = update n (default_value n) p.value;
  }

  unfoldable pub reset_layout : Page → Page
  unfolding set_value
  reset_layout p =
      set_value variant (default_value variant)
        (set_value collapsible (default_value collapsible) p)

  -- Only values of its type are given to a provider.
  unfoldable pub step : Page → Event → Page
  unfolding set_value drop_value reset_layout includes
  step p (sets n v) = if includes (options n) v then set_value n v p else p
  step p resets_theme = drop_value theme p
  step p resets_font = drop_value font p
  step p resets_direction = drop_value direction p
  step p resets_layout = reset_layout p

  unfoldable pub run : Page → List Event → Page
  unfolding step
  run p [] = p
  run p (e ∷ es) = run (step p e) es
