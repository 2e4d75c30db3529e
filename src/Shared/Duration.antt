-- ===== src/Shared/Duration.antt =====
-- DurationValue of web/src/features/shared/ui.tsx. `parse` is what `new Date(text).getTime()` gives:
-- the milliseconds of a text that is a time, and no number for every other text.
use cadentra.Prelude.{
  ℕ, ◌+◌, ◌-◌, ◌*◌, ◌/◌, ◌%◌, ◌≤◌, ◌<◌, ◌≡◌, ◌≢◌, refl, ◌⊎◌, inl, inr, String, Option, none, some,
  Bool, true, false, not, ◌&&◌, ltb, if◌then◌else◌, truthy, ℤ, pos_part, neg_part, leb_ℤ, arith,
  Bool-cases, and-eq-true, eq_iff,
}

-- The texts `12s` and `3m 4s`.
pub data Length : Type 0 where
  seconds : ℕ → Length
  minutes_seconds : ℕ → ℕ → Length

-- a - b, for b at most a
abbrev pub distance : ℤ → ℤ → ℕ
distance a b = pos_part a + neg_part b - (pos_part b + neg_part a)

unfoldable pub length_of : ℕ → Length
length_of n = if ltb n 60 then seconds n else minutes_seconds (n / 60) (n % 60)

module _ (parse : String → Option ℤ) where
  -- The time at which the duration ends; `now` is 0 until the first tick of the clock.
  unfoldable pub end_time : ℤ → ℤ → String → Bool → Option ℤ
  end_time now from stop running =
      if truthy stop
      then parse stop
      else if running && not (leb_ℤ now from)
      then some now
      else some from

  -- `none` is the text `-`; a missing `start` or `stop` is the empty text.
  unfoldable pub duration : ℤ → String → String → Bool → Option Length
  unfolding end_time length_of
  duration now start stop running = if not (truthy start) then none else elim (parse start) [
    | none ↦ none
    | some from ↦ elim (end_time now from stop running) [
      | none ↦ none
      | some to ↦ if not (leb_ℤ from to) then none else some (length_of (distance to from / 1000))
    ]
  ]

-- What a length says of a number of seconds.
abbrev pub Measures : ℕ → Length → Type 0
Measures n (seconds s) = (s ≡ n) × (s < 60)
Measures n (minutes_seconds m s) = (m * 60 + s ≡ n) × (1 ≤ m) × (s < 60)

length_of-Measures : (n : ℕ) → Measures n (length_of n)
unfolding length_of
length_of-Measures n = elim (Bool-cases (ltb n 60)) [
  | inl e ↦ rw e (refl, ground arith)
  | inr e ↦ rw e (ground arith, ground arith, ground arith)
]

truthy-true : (s : String) → s ≢ "" → truthy s ≡ true
truthy-true s h = ground (arith, eq_iff s "")

leb_ℤ-refl : (a : ℤ) → leb_ℤ a a ≡ true
leb_ℤ-refl a = ground arith

distance_self : (a : ℤ) → distance a a / 1000 ≡ 0
distance_self a = ground arith

later-ordered : (now from : ℤ) → not (leb_ℤ now from) ≡ true → leb_ℤ from now ≡ true
later-ordered now from h = ground arith

module _ (parse : String → Option ℤ) where
  end_time-ended :
      (now from to : ℤ) (stop : String) (running : Bool)
      → stop ≢ ""
      → parse stop ≡ some to
      → end_time parse now from stop running ≡ some to
  unfolding end_time
  end_time-ended now from to stop running h e = rw (truthy-true stop h) e

  -- A run with a start and an end that are times: if the end is not before the start, the whole seconds
  -- between them are shown, in minutes and seconds below 60 from one minute on; otherwise nothing is.
  pub duration-ended :
      (now from to : ℤ) (start stop : String) (running : Bool)
      → start ≢ ""
      → stop ≢ ""
      → parse start ≡ some from
      → parse stop ≡ some to
      → ((leb_ℤ from to ≡ true)
          × (l : Length) × (duration parse now start stop running ≡ some l)
          × Measures (distance to from / 1000) l)
        ⊎ ((leb_ℤ from to ≡ false) × (duration parse now start stop running ≡ none))
  unfolding duration
  duration-ended now from to start stop running h k e f = elim (Bool-cases (leb_ℤ from to)) [
    | inl o ↦ inl (
      o,
      length_of (distance to from / 1000),
      rw (truthy-true start h, e, end_time-ended now from to stop running k f, o) refl,
      length_of-Measures (distance to from / 1000),
    )
    | inr o ↦
        inr (o, rw (truthy-true start h, e, end_time-ended now from to stop running k f, o) refl)
  ]

  end_time-open :
      (now from : ℤ) (running : Bool)
      → end_time parse now from "" running
        ≡ some (if running && not (leb_ℤ now from) then now else from)
  unfolding end_time
  end_time-open now from running = ground arith

  -- A run that has started at a time and has no end always has a length: the whole seconds until the
  -- clock's time, if the run is still running and the clock is past the start, and 0s otherwise.
  pub duration-open :
      (now from : ℤ) (start : String) (running : Bool)
      → start ≢ ""
      → parse start ≡ some from
      → (l : Length) × (duration parse now start "" running ≡ some l)
        × Measures (if running && not (leb_ℤ now from) then distance now from / 1000 else 0) l
  unfolding duration
  duration-open now from start running h e = elim (Bool-cases (running && not (leb_ℤ now from))) [
    | inl o ↦ (
      length_of (distance now from / 1000),
      rw
          (
            truthy-true start h,
            e,
            end_time-open now from running,
            o,
            later-ordered now from (and-eq-true running (not (leb_ℤ now from)) o).1,
          )
          refl,
      rw o (length_of-Measures (distance now from / 1000)),
    )
    | inr o ↦ (
      length_of 0,
      rw
          (
            truthy-true start h,
            e,
            end_time-open now from running,
            o,
            leb_ℤ-refl from,
            distance_self from,
          )
          refl,
      rw o (length_of-Measures 0),
    )
  ]
