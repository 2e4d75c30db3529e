-- ===== src/Navigation.antt =====
-- web/src/lib/navigation.ts: where the console goes after signing in.
--
-- The browser's `new URL(value, base)` is a parameter: `parse value base` is none where it throws.
use Prim.Native.String
use cadentra.Prelude.{
  ◌≡◌, ◌≢◌, refl, ◌⊎◌, inl, inr, String, Option, none, some, Bool, true, false, not, ◌||◌, ◌==◌,
  truthy, if◌then◌else◌, arith, eq_iff, Bool-cases, Option-cases, eq_refl,
}

pub record Url : Type 0 where
  pub origin : String
  pub pathname : String
  pub search : String
  pub hash : String

abbrev pub sign_in_path : String
sign_in_path = "/sign-in"

-- `${pathname}${search}${hash}`
unfoldable pub path_text : Url → String
path_text u = String.◌++◌ (String.◌++◌ u.pathname u.search) u.hash

-- `none` is a page without `window`.
unfoldable pub current_path : Option Url → String
unfolding path_text
current_path none = "/"
current_path (some location) = path_text location

unfoldable pub is_sign_in_path : (String → String → Option Url) → String → Bool
is_sign_in_path parse value = elim (parse value "http://cadentra.local") [
  | none ↦ false
  | some u ↦ u.pathname == sign_in_path
]

abbrev or_root : String → String
or_root s = if truthy s then s else "/"

abbrev redirect_to : String → Option Url → String
redirect_to origin none = "/"
redirect_to origin (some target) =
    if not (target.origin == origin) || target.pathname == sign_in_path
    then "/"
    else or_root (path_text target)

-- The origin against which a redirect is resolved.
unfoldable pub base_origin : Option Url → String
base_origin none = "http://cadentra.local"
base_origin (some location) = location.origin

unfoldable pub safe_redirect : (String → String → Option Url) → String → Option String → String
unfolding path_text
safe_redirect parse origin none = "/"
safe_redirect parse origin (some value) =
    if truthy value then redirect_to origin (parse value origin) else "/"

module _ (parse : String → String → Option Url) (origin : String) where
  redirect_to-cases :
      (value : String)
      → (redirect_to origin (parse value origin) ≡ "/")
        ⊎ ((u : Url) × (parse value origin ≡ some u)
            × (u.origin ≡ origin)
            × (u.pathname ≢ sign_in_path)
            × (redirect_to origin (parse value origin) ≡ path_text u))
  redirect_to-cases value = elim (Option-cases (parse value origin)) [
    | inl failed ↦ inl (rw failed)
    | inr (u, parsed) ↦ elim (Bool-cases (not (u.origin == origin) || u.pathname == sign_in_path)) [
      | inl refused ↦ inl (rw (parsed, refused))
      | inr taken ↦ elim (Bool-cases (truthy (path_text u))) [
        | inl full ↦ inr (
          u,
          parsed,
          ground (arith, eq_iff u.origin origin),
          ground (arith, eq_iff u.pathname sign_in_path),
          rw (parsed, taken, full),
        )
        | inr empty ↦ inl (rw (parsed, taken, empty))
      ]
    ]
  ]

  -- The redirect is the start page, or the path of an address that the browser resolves to this
  -- origin and whose path is not the sign-in page, with its query and fragment.
  pub safe_redirect-cases :
      (value : Option String)
      → (safe_redirect parse origin value ≡ "/")
        ⊎ ((text : String) × (u : Url) × (value ≡ some text)
            × (parse text origin ≡ some u)
            × (u.origin ≡ origin)
            × (u.pathname ≢ sign_in_path)
            × (safe_redirect parse origin value ≡ path_text u))
  unfolding safe_redirect
  safe_redirect-cases none = inl refl
  safe_redirect-cases (some value) = elim (Bool-cases (truthy value)) [
    | inl full ↦ elim (redirect_to-cases value) [
      | inl root ↦ inl (rw full root)
      | inr (u, parsed, here, other, there) ↦
          inr (value, u, refl, parsed, here, other, rw full there)
    ]
    | inr empty ↦ inl (rw empty)
  ]

  -- A page that the browser resolves back to itself is returned to after signing in, unless it is
  -- the sign-in page, from which the start page is reached.
  pub safe_redirect-current_path :
      (location : Url)
      → location.origin ≡ origin
      → truthy (path_text location) ≡ true
      → parse (path_text location) origin ≡ some location
      → safe_redirect parse origin (some (current_path (some location)))
        ≡ (if location.pathname == sign_in_path then "/" else path_text location)
  unfolding safe_redirect current_path
  safe_redirect-current_path location here full back =
      rw (full, back, here, eq_refl origin) (ground (arith, full))
