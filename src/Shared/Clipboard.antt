-- ===== src/Shared/Clipboard.antt =====
-- web/src/lib/clipboard.ts: copyText.
use cadentra.Prelude.{
  if-either, ◌≡◌, refl, ◌⊎◌, inl, inr, String, Option, none, some, Bool, true, false, truthy,
  if◌then◌else◌,
}

-- What the browser does. `write_text` is none where there is no navigator.clipboard.writeText, and
-- else whether it resolves; `copy_command` is none where selecting or execCommand throws, and else
-- what execCommand('copy') returns.
pub record Browser : Type 0 where
  pub write_text : Option Bool
  pub copy_command : Option Bool

-- The end of the call: the text that is on the clipboard then, or an exception.
pub data Copied : Type 0 where
  on_clipboard : String → Copied
  thrown : Copied

unfoldable copy_by_command : Option Bool → String → Copied
copy_by_command (some true) value = on_clipboard value
copy_by_command (some false) value = thrown
copy_by_command none value = thrown

unfoldable copy_value : Option Bool → Option Bool → String → Copied
unfolding copy_by_command
copy_value (some true) command value = on_clipboard value
copy_value (some false) command value = copy_by_command command value
copy_value none command value = copy_by_command command value

unfoldable pub copy_text : Browser → String → Copied
unfolding copy_value
copy_text b value = if truthy value then copy_value b.write_text b.copy_command value else thrown

copy_by_command-cases :
    (command : Option Bool) (value : String)
    → (copy_by_command command value ≡ on_clipboard value)
      ⊎ (copy_by_command command value ≡ thrown)
unfolding copy_by_command
copy_by_command-cases (some true) value = inl refl
copy_by_command-cases (some false) value = inr refl
copy_by_command-cases none value = inr refl

copy_value-cases :
    (write command : Option Bool) (value : String)
    → (copy_value write command value ≡ on_clipboard value)
      ⊎ (copy_value write command value ≡ thrown)
unfolding copy_value
copy_value-cases (some true) command value = inl refl
copy_value-cases (some false) command value = copy_by_command-cases command value
copy_value-cases none command value = copy_by_command-cases command value

-- A copy puts the very text on the clipboard, or throws.
pub copy_text-cases :
    (b : Browser) (value : String)
    → (copy_text b value ≡ on_clipboard value) ⊎ (copy_text b value ≡ thrown)
unfolding copy_text
copy_text-cases b value =
    if-either (λ c. (c ≡ on_clipboard value) ⊎ (c ≡ thrown)) (truthy value)
      (copy_value-cases b.write_text b.copy_command value) (inr refl)
