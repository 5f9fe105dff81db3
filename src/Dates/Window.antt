-- ===== src/Dates/Window.antt =====
-- Years of two digits, and what `verify_date` accepts.
use db3w.Common.{
  ◌-◌, ◌/◌, ltb, ◌==◌, if◌then◌else◌, ℕ, zero, suc, ◌+◌, ◌%◌, ◌≤◌, ◌<◌, ◌≡◌, ◌↔◌, ◌⊎◌, inl, inr,
  Bool, true, Bool-cases, arith,
}
use db3w.Common.Int.{pos}
use db3w.Dates.{full_year, feb_days, is_leap, month_limit, within, verify_date}

-- The full year of `y`: a year of one or two digits is the one of the hundred years from `epoch` on
-- that ends in it, any other stands for itself.
abbrev pub IsYear : ℕ → ℕ → ℕ → Type 0
IsYear epoch y full =
    ((100 ≤ y) × (full ≡ y))
    ⊎ ((y < 100) × (epoch ≤ full) × (full < epoch + 100) × (full % 100 ≡ y))

full_year-IsYear : (epoch y : ℕ) → IsYear epoch y (full_year epoch y)
unfolding full_year
full_year-IsYear epoch y = elim (Bool-cases (ltb y 100)) [
  | inl short ↦ inr (ground arith)
  | inr long ↦ inl (ground arith)
]

-- The Gregorian calendar: every fourth year is a leap year, and of the years that begin a century
-- every fourth one. By the rule of the knuckles the odd months up to July and the even ones from
-- August on are long.
abbrev pub is_long_year : ℕ → Bool
is_long_year y = if y % 100 == 0 then (y / 100) % 4 == 0 else y % 4 == 0

abbrev pub knuckle : ℕ → ℕ
knuckle m = if ltb m 8 then 30 + m % 2 else 31 - m % 2

abbrev pub calendar_days : ℕ → ℕ → ℕ
calendar_days y m = if m == 2 then if is_long_year y then 29 else 28 else knuckle m

feb_days_lem : (y : ℕ) → feb_days y ≡ calendar_days y 2
unfolding feb_days is_leap
feb_days_lem y = ground arith

month_limit_lem :
    (y m d : ℕ)
    → (within d (month_limit y m) ≡ true) ↔ ((1 ≤ m) × (m ≤ 12) × (d ≤ calendar_days y m))
unfolding within month_limit
month_limit_lem y (suc (suc zero)) d = rw (feb_days_lem y) (ground arith)
month_limit_lem y (suc (suc (suc (suc (suc (suc (suc (suc (suc (suc (suc (suc zero)))))))))))) d =
    ground arith
month_limit_lem y m d = ground (arith, feb_days_lem y)

-- `verify_date` accepts three non-negative numbers exactly when the month is from 1 to 12 and the day is
-- from 1 to the length of that month in the Gregorian calendar, in the full year: for a year of one or
-- two digits that is the year with these last digits of the hundred years from `epoch` on.
pub verify_date_iff :
    (epoch y m d : ℕ)
    → (full : ℕ) × IsYear epoch y full
      × ((verify_date epoch (pos y) (pos m) (pos d) ≡ true)
          ↔ ((1 ≤ m) × (m ≤ 12) × (1 ≤ d) × (d ≤ calendar_days full m)))
unfolding verify_date
verify_date_iff epoch y m d = (
  full_year epoch y,
  full_year-IsYear epoch y,
  ground (arith, month_limit_lem (full_year epoch y) m d),
)
