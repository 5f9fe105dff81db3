-- ===== src/Dates/Century.antt =====
-- The day that the year count of `yeartoday` has and the calendar of `isleap` does not.
use db3w.Common.{ℕ, ◌+◌, ◌≤◌, ◌≡◌, refl, some, none, arith, true}
use db3w.Dates.RoundTrip.{IsDate, day_number, number_of, year_start}
use db3w.Dates.Inverse.{IsGapYear, gap_year-le, n_to_mdy_gap}
use db3w.Dates.{full_year, within, month_limit, date_to_number, n_to_mdy}

pub full_year_wide : (epoch y : ℕ) → 100 ≤ y → full_year epoch y ≡ y
unfolding full_year
full_year_wide epoch y h = ground arith

last_day : (y : ℕ) → within 31 (month_limit y 12) ≡ true
unfolding within month_limit
last_day y = refl

first_day : (y : ℕ) → within 1 (month_limit y 1) ≡ true
unfolding within month_limit
first_day y = refl

number_wide :
    (epoch y m d : ℕ)
    → 100 ≤ y
    → IsDate y m d
    → date_to_number epoch d m y ≡ some (day_number y m d)
number_wide epoch y m d h v =
    let w = full_year_wide epoch y h in rw w at (number_of epoch y m d (rw w v))

-- In a year up to 1,000,000 that is divisible by four and no leap year (1900, 2100), the first of January that follows has
-- the number of the 31st of December plus two, and the number between them has no date.
pub century_gap :
    (epoch y : ℕ)
    → IsGapYear y
    → y ≤ 1_000_000
    → (n : ℕ) × (date_to_number epoch 31 12 y ≡ some n)
      × (date_to_number epoch 1 1 (y + 1) ≡ some (n + 2))
      × (n_to_mdy (n + 1) ≡ none)
century_gap epoch y g h =
    let wide = gap_year-le y g in
    let december = number_wide epoch y 12 31 wide (record {
      from_one = omega arith;
      reached = omega arith;
      positive = omega arith;
      in_month = last_day y;
    }) in
    let january = number_wide epoch (y + 1) 1 1 (omega arith) (record {
      from_one = omega arith;
      reached = omega arith;
      positive = omega arith;
      in_month = first_day (y + 1);
    }) in
    let gap =
      (n_to_mdy_gap (year_start y + 366) (omega arith) (omega arith)).1 (y, g, omega arith, refl) in
    (
      day_number y 12 31,
      december,
      ground (arith, january, g.common, g.fourth),
      ground (arith, gap, g.common, g.fourth),
    )
