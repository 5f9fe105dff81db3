-- ===== src/Functions/Calendar/Times.antt =====
-- server/hb/fcn.c: `ttoc`, read back, and the two functions that name the day of the week.
use db3w.Common.{
  ℕ, ◌+◌, ◌-◌, ◌*◌, ◌/◌, ◌%◌, ◌<◌, ◌^◌, ◌≡◌, List, [], ◌∷◌, Option, none, some, get_elem?, arith,
  ap,
}
use db3w.Functions.Calendar.{two_digits, time_text, day_name, dow_of, dayofweek}

-- The number of two digits.
abbrev pub of_digits : ℕ → ℕ → ℕ
of_digits a b = (a - b'0') * 10 + (b - b'0')

-- The seconds that a text of the form hh:mm:ss stands for.
abbrev pub seconds_of : List ℕ → Option ℕ
seconds_of (a ∷ b ∷ _ ∷ c ∷ d ∷ _ ∷ e ∷ f ∷ []) =
    some (of_digits a b * 3600 + of_digits c d * 60 + of_digits e f)
seconds_of _ = none

-- The text of a number of seconds stands for the time of that day, with the days dropped.
pub time_text-seconds : (tn : ℕ) → seconds_of (time_text tn) ≡ some (tn % 86400)
unfolding time_text two_digits
time_text-seconds tn = ap some (total tn)
  where
    total :
        (tn : ℕ)
        → of_digits (tn / 3600 % 24 / 10 + b'0') (tn / 3600 % 24 % 10 + b'0') * 3600
            + of_digits (tn % 3600 / 60 / 10 + b'0') (tn % 3600 / 60 % 10 + b'0') * 60
            + of_digits (tn % 60 / 10 + b'0') (tn % 60 % 10 + b'0')
          ≡ tn % 86400
    total tn = omega arith

-- CDOW names the day that DOW numbers, from Monday, the day 1, to Sunday, the day 7.
pub day_name-dow_of : (d : ℕ) → d < 2 ^ 32 - 1 → day_name d ≡ get_elem? dayofweek (dow_of d % 7)
unfolding day_name dow_of
day_name-dow_of d h = ap (λ i. get_elem? dayofweek i) (same d h)
  where
    same : (d : ℕ) → d < 2 ^ 32 - 1 → (d + 1) % 2 ^ 32 % 7 ≡ (d % 7 + 1) % 7
    same d h = omega arith
