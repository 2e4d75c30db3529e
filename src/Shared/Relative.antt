-- ===== src/Shared/Relative.antt =====
-- relativeTime of web/src/features/shared/ui.tsx: which phrase is chosen, and its text in the two
-- languages.
use Prim.Native.String
use cadentra.Prelude.{
  ℕ, suc, ◌+◌, ◌-◌, ◌*◌, ◌/◌, ◌≤◌, ◌<◌, ◌≡◌, refl, ◌⊎◌, inl, inr, Bool, true, false, ◌&&◌, String,
  ltb, if◌then◌else◌, ℤ, pos, negsuc, arith, Bool-cases,
}

pub data Span : Type 0 where
  minutes hours days : Span

-- `true` marks a time in the future. `date` is the date in the browser's format.
pub data Phrase : Type 0 where
  just_now in_a_moment : Phrase
  amount : Bool → ℕ → Span → Phrase
  adjacent_day : Bool → Phrase
  date : Phrase

-- Math.round(milliseconds / 1000), halves upwards
unfoldable pub round_seconds : ℤ → ℤ
round_seconds (pos ms) = pos ((ms + 500) / 1000)
round_seconds (negsuc ms) = if ltb ms 500 then pos 0 else negsuc ((ms + 500) / 1000 - 1)

-- Below 60 seconds, Chinese has one text for the past and the future.
unfoldable pub phrase : (english future : Bool) → ℕ → Phrase
phrase english future amount_ =
    if ltb amount_ 60
    then (if english && future then in_a_moment else just_now)
    else if ltb amount_ 3600
    then amount future (amount_ / 60) minutes
    else if ltb amount_ 86400
    then amount future (amount_ / 3600) hours
    else if ltb amount_ 172800
    then adjacent_day future
    else if ltb amount_ 604800
    then amount future (amount_ / 86400) days
    else date

-- `future` is a negative number of seconds, and `amount` its absolute value.
unfoldable pub phrase_of : (english : Bool) → ℤ → Phrase
unfolding phrase
phrase_of english s = elim s [
  | pos n ↦ phrase english false n
  | negsuc n ↦ phrase english true (suc n)
]

-- `elapsed` is Date.now() - date.getTime().
unfoldable pub relative_time : (english : Bool) → ℤ → Phrase
unfolding round_seconds phrase_of
relative_time english elapsed = phrase_of english (round_seconds elapsed)

abbrev sign_of : (english : Bool) → Span → String
sign_of true minutes = "m"
sign_of true hours = "h"
sign_of true days = "d"
sign_of false minutes = "分钟"
sign_of false hours = "小时"
sign_of false days = "天"

-- The text; `digits` writes a number, and `local` is date.toLocaleDateString.
unfoldable pub text_of : (english : Bool) (digits : ℕ → String) (local : String) → Phrase → String
text_of english digits local just_now = if english then "just now" else "刚刚"
text_of english digits local in_a_moment = "in a moment"
text_of true digits local (amount future k u) =
    let number = String.◌++◌ (digits k) (sign_of true u) in
    if future then String.◌++◌ "in " number else String.◌++◌ number " ago"
text_of false digits local (amount future k u) =
    String.◌++◌ (digits k) (String.◌++◌ (sign_of false u) (if future then "后" else "前"))
text_of true digits local (adjacent_day future) = if future then "tomorrow" else "yesterday"
text_of false digits local (adjacent_day future) = if future then "明天" else "昨天"
text_of english digits local date = local

abbrev pub length_of : Span → ℕ
length_of minutes = 60
length_of hours = 3600
length_of days = 86400

abbrev pub count_of : Span → ℕ
count_of minutes = 60
count_of hours = 24
count_of days = 7

-- What a phrase says of a number of seconds, in the language: `just_now` stands in English for the
-- past only, and the date says nothing of past or future.
abbrev pub Says : (english future : Bool) → ℕ → Phrase → Type 0
Says english future n just_now = ((english && future) ≡ false) × (n < 60)
Says english future n in_a_moment = (english ≡ true) × (future ≡ true) × (n < 60)
Says english future n (amount f k u) =
    (f ≡ future) × (1 ≤ k) × (k < count_of u) × (k * length_of u ≤ n) × (n < (k + 1) * length_of u)
Says english future n (adjacent_day f) = (f ≡ future) × (86400 ≤ n) × (n < 2 * 86400)
Says english future n date = 7 * 86400 ≤ n

moment-Says :
    (english future : Bool) (n : ℕ)
    → n < 60
    → Says english future n (if english && future then in_a_moment else just_now)
moment-Says true true n h = (refl, refl, h)
moment-Says true false n h = (refl, h)
moment-Says false future n h = (refl, h)

phrase-Says : (english future : Bool) (n : ℕ) → Says english future n (phrase english future n)
unfolding phrase
phrase-Says english future n = elim (Bool-cases (ltb n 60)) [
  | inl e ↦ rw e (moment-Says english future n (ground arith))
  | inr e ↦ elim (Bool-cases (ltb n 3600)) [
    | inl f ↦ rw (e, f) (refl, ground arith, ground arith, ground arith, ground arith)
    | inr f ↦ elim (Bool-cases (ltb n 86400)) [
      | inl g ↦ rw (e, f, g) (refl, ground arith, ground arith, ground arith, ground arith)
      | inr g ↦ elim (Bool-cases (ltb n 172800)) [
        | inl h ↦ rw (e, f, g, h) (refl, ground arith, ground arith)
        | inr h ↦ elim (Bool-cases (ltb n 604800)) [
          | inl k ↦
              rw (e, f, g, h, k) (refl, ground arith, ground arith, ground arith, ground arith)
          | inr k ↦ rw (e, f, g, h, k) (ground arith)
        ]
      ]
    ]
  ]
]

phrase_of-Says :
    (english : Bool) (s : ℤ)
    → ((n : ℕ) × (s ≡ pos n) × Says english false n (phrase_of english s))
      ⊎ ((n : ℕ) × (s ≡ negsuc n) × Says english true (suc n) (phrase_of english s))
unfolding phrase_of
phrase_of-Says english (pos n) = inl (n, refl, phrase-Says english false n)
phrase_of-Says english (negsuc n) = inr (n, refl, phrase-Says english true (suc n))

-- The phrase is true of the rounded number of seconds between the time and now: a number of minutes is
-- below 60, of hours below 24 and of days below 7, it is the number of whole units, and it is never
-- zero; yesterday and tomorrow stand for one whole day, and the date for seven days or more. A phrase
-- from 60 seconds to seven days speaks of the future exactly if the rounded number of seconds is
-- negative; below 60 seconds only English tells the two apart, and the date does not.
pub relative_time-Says :
    (english : Bool) (elapsed : ℤ)
    → ((n : ℕ) × (round_seconds elapsed ≡ pos n)
        × Says english false n (relative_time english elapsed))
      ⊎ ((n : ℕ) × (round_seconds elapsed ≡ negsuc n)
          × Says english true (suc n) (relative_time english elapsed))
unfolding relative_time
relative_time-Says english elapsed = phrase_of-Says english (round_seconds elapsed)
