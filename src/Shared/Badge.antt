-- ===== src/Shared/Badge.antt =====
-- StatusBadge of web/src/features/shared/ui.tsx: the look and the text of a status.
use Prim.Native.String
use Prim.Native.Char.{code}
use cadentra.Prelude.{
  ◌≡◌, refl, String, none, some, List, [], ◌∷◌, Bool, true, false, ◌||◌, nat_eq, is_space, includes,
  Dict, lookup, if◌then◌else◌,
}

pub data Variant : Type 0 where
  secondary destructive default outline : Variant

-- The class of colours; `plain` is the empty one.
pub data Colour : Type 0 where
  emerald red blue amber plain : Colour

-- replace(/[-\s]/g, '_')
unfoldable pub underscored : String → String
unfolding is_space
underscored String.[] = ""
underscored (String.◌∷◌ c s) =
    let rest = underscored s in
    if nat_eq (code c) 45 || is_space (code c) then String.◌++◌ "_" rest else String.◌∷◌ c rest

-- replace(/_/g, ' ')
unfoldable pub spaced : String → String
spaced String.[] = ""
spaced (String.◌∷◌ c s) =
    let rest = spaced s in if nat_eq (code c) 95 then String.◌++◌ " " rest else String.◌∷◌ c rest

-- `lower` is String.prototype.toLowerCase.
unfoldable pub key_of : (String → String) → String → String
unfolding underscored
key_of lower status = underscored (lower status)

abbrev pub good_keys : List String
good_keys = "online" ∷ "healthy" ∷ "enabled" ∷ "success" ∷ "completed" ∷ "synced" ∷ []

abbrev pub bad_keys : List String
bad_keys = "offline" ∷ "unhealthy" ∷ "failed" ∷ "error" ∷ "timed_out" ∷ "timeout" ∷ []

abbrev pub busy_keys : List String
busy_keys = "running" ∷ "busy" ∷ "info" ∷ []

abbrev pub doubtful_keys : List String
doubtful_keys = "degraded" ∷ "blocked" ∷ "outdated" ∷ []

unfoldable pub variant : String → Variant
variant key =
    if includes good_keys key
    then secondary
    else if includes bad_keys key
    then destructive
    else if includes busy_keys key
    then default
    else if includes doubtful_keys key
    then secondary
    else outline

unfoldable pub colour_class : String → Colour
colour_class key =
    if includes good_keys key
    then emerald
    else if includes bad_keys key
    then red
    else if includes busy_keys key
    then blue
    else if includes doubtful_keys key
    then amber
    else plain

-- `labels`, in Chinese and in English.
abbrev pub labels : Dict (String × String)
labels =
    ("online", ("在线", "Online"))
    ∷ ("offline", ("离线", "Offline"))
    ∷ ("busy", ("忙碌", "Busy"))
    ∷ ("degraded", ("降级", "Degraded"))
    ∷ ("healthy", ("健康", "Healthy"))
    ∷ ("unhealthy", ("不健康", "Unhealthy"))
    ∷ ("enabled", ("已启用", "Enabled"))
    ∷ ("disabled", ("已禁用", "Disabled"))
    ∷ ("pending", ("等待中", "Pending"))
    ∷ ("running", ("运行中", "Running"))
    ∷ ("success", ("成功", "Success"))
    ∷ ("completed", ("已完成", "Completed"))
    ∷ ("failed", ("失败", "Failed"))
    ∷ ("error", ("错误", "Error"))
    ∷ ("timed_out", ("超时", "Timed out"))
    ∷ ("timeout", ("超时", "Timeout"))
    ∷ ("cancelled", ("已取消", "Cancelled"))
    ∷ ("canceled", ("已取消", "Canceled"))
    ∷ ("skipped", ("已跳过", "Skipped"))
    ∷ ("blocked", ("已阻断", "Blocked"))
    ∷ ("synced", ("已同步", "Synced"))
    ∷ ("outdated", ("已过期", "Outdated"))
    ∷ ("unknown", ("未知", "Unknown"))
    ∷ []

-- labels[key]?.[language] || status.replace(/_/g, ' ')
unfoldable pub label : Bool → (String → String) → String → String
unfolding key_of spaced lookup
label english lower status = elim (lookup (key_of lower status) labels) [
  | none ↦ spaced status
  | some (zh, en) ↦ if english then en else zh
]

-- What a colour says of the state.
abbrev pub variant_for : Colour → Variant
variant_for emerald = secondary
variant_for red = destructive
variant_for blue = default
variant_for amber = secondary
variant_for plain = outline

same_choice :
    (a b c d : Bool)
    → (if a
        then secondary
        else if b
        then destructive
        else if c
        then default
        else if d
        then secondary
        else outline)
      ≡ variant_for
          (if a then emerald else if b then red else if c then blue else if d then amber else plain)
same_choice true b c d = refl
same_choice false true c d = refl
same_choice false false true d = refl
same_choice false false false true = refl
same_choice false false false false = refl

-- The variant of a badge is the one that goes with its colours: the two choices, which the program
-- makes apart, agree on every status.
pub variant-colour_class : (key : String) → variant key ≡ variant_for (colour_class key)
unfolding variant colour_class
variant-colour_class key =
    same_choice (includes good_keys key) (includes bad_keys key) (includes busy_keys key)
      (includes doubtful_keys key)
