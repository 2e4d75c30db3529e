-- ===== src/DataTable/BulkActions.antt =====
-- handleKeyDown of web/src/components/data-table/bulk-actions.tsx: the keys that move the focus
-- between the buttons of the toolbar.
use Prim.Native.Nat.{zero, suc}
use cadentra.Prelude.{
  if-either, inl, inr, Bool-cases, ap, ◌∙◌, ℕ, ◌+◌, ◌-◌, ◌%◌, ◌<◌, ◌≡◌, Option, none, some, ltb,
  if◌then◌else◌, arith,
}
use native.Mathlib.Nat.{mod-eq_of_lt, mod_self}

pub data Key : Type 0 where
  arrow_right arrow_left home end_key other : Key

-- buttons[i]?.focus(), for `n` buttons: the index of the button that has the focus then. Without a
-- button at `i`, the focus stays where it was.
unfoldable pub focus : ℕ → ℕ → Option ℕ → Option ℕ
focus n i current = if ltb i n then some i else current

-- `current` is the index of the focused button, and none where findIndex returns -1. A step to the
-- left from there looks for the button -2, which is not there.
unfoldable pub key_down : ℕ → Key → Option ℕ → Option ℕ
unfolding focus
key_down n arrow_right none = focus n (0 % n) none
key_down n arrow_right (some i) = focus n ((i + 1) % n) (some i)
key_down n arrow_left none = none
key_down n arrow_left (some zero) = if ltb 0 n then focus n (n - 1) (some 0) else some 0
key_down n arrow_left (some (suc i)) = focus n i (some (suc i))
key_down n home current = focus n 0 current
key_down n end_key current = if ltb 0 n then focus n (n - 1) current else current
key_down n other current = current

-- The focus is on one of `n` buttons, or on none of them.
abbrev pub IsFocus : ℕ → Option ℕ → Type 0
IsFocus n none = Unit
IsFocus n (some i) = i < n

focus-IsFocus : (n i : ℕ) (current : Option ℕ) → IsFocus n current → IsFocus n (focus n i current)
unfolding focus
focus-IsFocus n i none h = ground arith
focus-IsFocus n i (some j) h = ground arith

-- No key takes the focus out of the toolbar's buttons.
key_down-IsFocus :
    (n : ℕ) (k : Key) (current : Option ℕ) → IsFocus n current → IsFocus n (key_down n k current)
unfolding key_down
key_down-IsFocus n arrow_right none h = focus-IsFocus n (0 % n) none h
key_down-IsFocus n arrow_right (some i) h = focus-IsFocus n ((i + 1) % n) (some i) h
key_down-IsFocus n arrow_left none h = h
key_down-IsFocus n arrow_left (some zero) h = ground (arith, focus-IsFocus n (n - 1) (some 0) h)
key_down-IsFocus n arrow_left (some (suc i)) h = focus-IsFocus n i (some (suc i)) h
key_down-IsFocus n home current h = focus-IsFocus n 0 current h
key_down-IsFocus n end_key current h =
    if-either (IsFocus n) (ltb 0 n) (focus-IsFocus n (n - 1) current h) h
key_down-IsFocus n other current h = h

right_inside : (n i : ℕ) → i + 1 < n → key_down n arrow_right (some i) ≡ some (suc i)
unfolding key_down focus
right_inside n i h = rw (mod-eq_of_lt h) (ground arith)

right_last : (n i : ℕ) → i + 1 ≡ n → key_down n arrow_right (some i) ≡ some 0
unfolding key_down focus
right_last n i h =
    let wraps : (i + 1) % n ≡ 0 = ap (λ m. m % n) h ∙ mod_self n in rw wraps (ground arith)

left_inside : (n i : ℕ) → suc i < n → key_down n arrow_left (some (suc i)) ≡ some i
unfolding key_down focus
left_inside n i h = ground arith

left_first : (n : ℕ) → 0 < n → key_down n arrow_left (some 0) ≡ some (n - 1)
unfolding key_down focus
left_first n h = ground arith

left-right : (n i : ℕ) → i < n → key_down n arrow_left (key_down n arrow_right (some i)) ≡ some i
left-right n i h = elim (Bool-cases (ltb (i + 1) n)) [
  | inl more ↦
      ap (key_down n arrow_left) (right_inside n i (ground arith)) ∙ left_inside n i (ground arith)
  | inr last ↦
      ap (key_down n arrow_left) (right_last n i (ground arith))
      ∙ left_first n (omega arith)
      ∙ ap some (ground arith)
]

right-left : (n i : ℕ) → i < n → key_down n arrow_right (key_down n arrow_left (some i)) ≡ some i
right-left n zero h =
    ap (key_down n arrow_right) (left_first n h) ∙ right_last n (n - 1) (omega arith)
right-left n (suc i) h =
    ap (key_down n arrow_right) (left_inside n i h) ∙ right_inside n i (omega arith)

-- On each button of the toolbar, the two arrow keys undo one another, also at the ends, where the
-- focus goes around.
pub arrows_undo :
    (n i : ℕ)
    → i < n
    → (key_down n arrow_left (key_down n arrow_right (some i)) ≡ some i)
      × (key_down n arrow_right (key_down n arrow_left (some i)) ≡ some i)
arrows_undo n i h = (left-right n i h, right-left n i h)
