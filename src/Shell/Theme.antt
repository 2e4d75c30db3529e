-- ===== src/Shell/Theme.antt =====
-- web/src/context/theme-provider.tsx: what is drawn for the theme.
use cadentra.Prelude.{
  String, Bool, true, false, ◌==◌, ◌≡◌, ◌⊎◌, includes, arith, eq_iff, if◌then◌else◌,
}
use cadentra.Shell.Preferences.{theme, options}

-- `prefers_dark` is matchMedia('(prefers-color-scheme: dark)').matches.
unfoldable pub resolved_theme : Bool → String → String
resolved_theme prefers_dark chosen =
    if chosen == "system" then if prefers_dark then "dark" else "light" else chosen

-- The class of the document is always one of the two that there are styles for.
resolved_theme-cases :
    (prefers_dark : Bool) (chosen : String)
    → includes (options theme) chosen ≡ true
    → (resolved_theme prefers_dark chosen ≡ "dark") ⊎ (resolved_theme prefers_dark chosen ≡ "light")
unfolding resolved_theme includes
resolved_theme-cases true chosen h = ground (
  arith,
  eq_iff "dark" chosen,
  eq_iff "light" chosen,
  eq_iff "system" chosen,
  eq_iff chosen "system",
)
resolved_theme-cases false chosen h = ground (
  arith,
  eq_iff "dark" chosen,
  eq_iff "light" chosen,
  eq_iff "system" chosen,
  eq_iff chosen "system",
)
