-- ===== src/Catalog/ExecutionRows.antt =====
-- ExecutionRows of web/src/features/catalog/index.tsx, the runs on the page of a node: the column of
-- their lengths, beside DurationValue of web/src/features/shared/ui.tsx. `parse` is what
-- `new Date(text).getTime()` gives, and none for a text that is no time.
use cadentra.Prelude.{
  ℕ, ◌+◌, ◌-◌, ◌*◌, ◌/◌, ◌%◌, ◌≤◌, ◌<◌, ◌≡◌, ◌≢◌, ◌⊎◌, inl, inr, String, Option, none, some, Bool,
  true, false, ◌||◌, ltb, truthy, ℤ, pos, negsuc, pos_part, neg_part, sub_ℕ, leb_ℤ, arith, eq_iff,
  if◌then◌else◌,
}
use cadentra.Shared.Duration.{Length, distance, duration, Measures, duration-ended}

-- The text `-`, a time of day, a date whose year has more than four digits, or an exception.
pub data Cell : Type 0 where
  dash : Cell
  clock : (hours minutes seconds : ℕ) → Cell
  far : Cell
  thrown : Cell

-- The milliseconds since midnight.
abbrev time_of_day : ℤ → ℕ
time_of_day (pos n) = n % 86400000
time_of_day (negsuc n) = 86399999 - n % 86400000

-- toISOString().slice(11, 19), for a date of the years 0 to 9999
unfoldable clock_text : ℤ → Cell
clock_text ms = let t = time_of_day ms in clock (t / 3600000) (t / 60000 % 60) (t / 1000 % 60)

abbrev is_far : ℤ → Bool
is_far ms = ltb 253402300799999 (pos_part ms) || ltb 62167219200000 (neg_part ms)

unfoldable difference_text : Option ℤ → Option ℤ → Cell
unfolding clock_text
difference_text none to = thrown
difference_text (some from) none = thrown
difference_text (some from) (some to) =
    let ms = sub_ℕ (pos_part to + neg_part from) (pos_part from + neg_part to) in
    if is_far ms then far else clock_text ms

unfoldable pub row_length : (String → Option ℤ) → String → String → Cell
unfolding difference_text
row_length parse start stop =
    if truthy stop then difference_text (parse start) (parse stop) else dash

-- The seconds that a time of day stands for.
abbrev pub Shows : ℕ → Cell → Type 0
Shows n dash = ⊥
Shows n (clock h m s) = (h * 3600 + m * 60 + s ≡ n) × (h < 24) × (m < 60) × (s < 60)
Shows n far = ⊥
Shows n thrown = ⊥

clock_text-forward : (n : ℕ) → Shows (n / 1000 % 86400) (clock_text (pos n))
unfolding clock_text
clock_text-forward n = (omega arith, omega arith, omega arith, omega arith)

clock_text-backward : (n : ℕ) → Shows ((86399999 - n % 86400000) / 1000) (clock_text (negsuc n))
unfolding clock_text
clock_text-backward n = (omega arith, omega arith, omega arith, omega arith)

difference-forward :
    (from to : ℤ)
    → leb_ℤ from to ≡ true
    → sub_ℕ (pos_part to + neg_part from) (pos_part from + neg_part to) ≡ pos (distance to from)
difference-forward from to h = ground arith

difference-backward :
    (from to : ℤ)
    → leb_ℤ from to ≡ false
    → sub_ℕ (pos_part to + neg_part from) (pos_part from + neg_part to)
      ≡ negsuc (distance from to - 1)
difference-backward from to h = ground arith

module _ (parse : String → Option ℤ) (from to : ℤ) (start stop : String) (ended : stop ≢ "")
    (starts : parse start ≡ some from) (stops : parse stop ≡ some to) where
  row_length-forward :
      leb_ℤ from to ≡ true
      → distance to from ≤ 253402300799999
      → Shows (distance to from / 1000 % 86400) (row_length parse start stop)
  unfolding row_length difference_text
  row_length-forward h near =
      let there : truthy stop ≡ true = ground (arith, eq_iff stop "") in
      let close : is_far (pos (distance to from)) ≡ false = ground arith in
      rw (there, starts, stops, difference-forward from to h, close)
        (clock_text-forward (distance to from))

  row_length-backward :
      leb_ℤ from to ≡ false
      → distance from to ≤ 62167219200000
      → Shows ((86399999 - (distance from to - 1) % 86400000) / 1000) (row_length parse start stop)
  unfolding row_length difference_text
  row_length-backward h near =
      let there : truthy stop ≡ true = ground (arith, eq_iff stop "") in
      let close : is_far (negsuc (distance from to - 1)) ≡ false = ground arith in
      rw (there, starts, stops, difference-backward from to h, close)
        (clock_text-backward (distance from to - 1))

  -- The two ways in which the console shows the length of a run with a start and an end, whose
  -- difference is a date of the years 0 to 9999. If the end is not before the start, the page of the run shows the
  -- whole seconds between them, and the page of the node the same but for whole days, which it leaves
  -- out: both agree exactly on runs below a day. Where the end is before the start, the page of the
  -- run shows no length, and the page of the node that of a day less the time between them.
  pub row_length-duration :
      (now : ℤ) (running : Bool)
      → start ≢ ""
      → distance to from ≤ 253402300799999
      → distance from to ≤ 62167219200000
      → ((leb_ℤ from to ≡ true)
          × (l : Length) × (duration parse now start stop running ≡ some l)
          × Measures (distance to from / 1000) l
          × Shows (distance to from / 1000 % 86400) (row_length parse start stop))
        ⊎ ((leb_ℤ from to ≡ false)
            × (duration parse now start stop running ≡ none)
            × Shows
                ((86399999 - (distance from to - 1) % 86400000) / 1000)
                (row_length parse start stop))
  row_length-duration now running begun near before =
      elim (duration-ended parse now from to start stop running begun ended starts stops) [
        | inl (h, l, shown, measured) ↦ inl (h, l, shown, measured, row_length-forward h near)
        | inr (h, nothing) ↦ inr (h, nothing, row_length-backward h before)
      ]
