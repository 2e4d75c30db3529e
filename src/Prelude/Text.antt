-- ===== src/Prelude/Text.antt =====
-- Text, as the program's string methods treat it.
use Prim.Native.Nat.{ℕ}
use Prim.Native.Char.{code}
use Prim.Native.String.{String}
use mathlib.Core.Bool.{Bool, not, ◌&&◌, ◌||◌}
use cadentra.Prelude.Tests.{leb, nat_eq, if◌then◌else◌, ◌==◌}

-- The truth value of a text: every text but the empty one counts as true.
abbrev pub truthy : String → Bool
truthy s = not (s == "")

-- The white space and line ends that String.prototype.trim removes, by code point.
unfoldable pub is_space : ℕ → Bool
is_space c =
    (leb 9 c && leb c 13)
    || nat_eq c 32
    || nat_eq c 0xa0
    || nat_eq c 0x1680
    || (leb 0x2000 c && leb c 0x200a)
    || nat_eq c 0x2028
    || nat_eq c 0x2029
    || nat_eq c 0x202f
    || nat_eq c 0x205f
    || nat_eq c 0x3000
    || nat_eq c 0xfeff

unfoldable pub trim_start : String → String
unfolding is_space
trim_start String.[] = ""
trim_start (String.◌∷◌ c s) = if is_space (code c) then trim_start s else String.◌∷◌ c s

unfoldable pub trim_end : String → String
unfolding is_space
trim_end String.[] = ""
trim_end (String.◌∷◌ c s) =
    let rest = trim_end s in if is_space (code c) && rest == "" then "" else String.◌∷◌ c rest

-- String.prototype.trim
unfoldable pub trim : String → String
unfolding trim_start trim_end
trim s = trim_end (trim_start s)
