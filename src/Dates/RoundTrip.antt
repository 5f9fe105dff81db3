-- ===== src/Dates/RoundTrip.antt =====
-- A verified date survives the way to its day number and back.
use db3w.Common.{ℕ, ◌+◌, ◌-◌, ◌*◌, ◌/◌, ◌%◌, ◌≤◌, ◌≡◌, true, some, arith, ◌>>=◌}
use db3w.Common.Int.{pos, sub_ℕ}
use db3w.Dates.Months.{feb_days_cases, before, before_year, month_day}
use db3w.Dates.{
  day_base, feb_days, full_year, month_limit, within, verify_date, yeartoday, date_to_number,
  year_of, split_year, n_to_mdy,
}

-- The last day that `date_t` and the sign test of `n_to_mdy` leave room for lies after this year.
abbrev pub last_year : ℕ
last_year = 5_000_000

abbrev pub year_start : ℕ → ℕ
year_start y = (y - 1) / 4 * 1461 + (y - 1) % 4 * 365

pub yeartoday_exact : (y : ℕ) → 1 ≤ y → y ≤ last_year → yeartoday (sub_ℕ y 1) ≡ year_start y
unfolding yeartoday
yeartoday_exact y h k = ground arith

pub split_year_lem :
    (y k : ℕ)
    → 1 ≤ y
    → y ≤ last_year
    → 1 ≤ k
    → k ≤ 337 + feb_days y
    → split_year (year_start y + k) ≡ (y, k)
unfolding split_year year_of yeartoday
split_year_lem y k h1 h2 h3 h4 = ground (arith, feb_days_cases y)

-- A day of the calendar, in a year that the day numbers reach.
pub record IsDate (y m d : ℕ) : Type 0 where
  pub from_one : 1 ≤ y
  pub reached : y ≤ last_year
  pub positive : 1 ≤ d
  pub in_month : within d (month_limit y m) ≡ true

abbrev pub day_number : ℕ → ℕ → ℕ → ℕ
day_number y m d = day_base + year_start y + (before (feb_days y) m + d)

pub number_of :
    (epoch y m d : ℕ)
    → IsDate (full_year epoch y) m d
    → date_to_number epoch d m y ≡ some (day_number (full_year epoch y) m d)
unfolding date_to_number
number_of epoch y m d v =
    let k = month_day (full_year epoch y) m d v.positive v.in_month in
    rw (k.counted) (
      ground (
        arith,
        yeartoday_exact (full_year epoch y),
        feb_days_cases (full_year epoch y),
        before_year (feb_days (full_year epoch y)) m k.twelve,
      ))

pub mdy_of :
    (y m d : ℕ)
    → IsDate y m d
    → n_to_mdy (day_number y m d) ≡ some (record { month = m; day = d; year = y })
unfolding n_to_mdy
mdy_of y m d v =
    let k = month_day y m d v.positive v.in_month in
    ground (
      arith,
      split_year_lem y (before (feb_days y) m + d),
      feb_days_cases y,
      before_year (feb_days y) m k.twelve,
    )

verified :
    (epoch y m d : ℕ)
    → verify_date epoch (pos y) (pos m) (pos d) ≡ true
    → (1 ≤ d) × (within d (month_limit (full_year epoch y) m) ≡ true)
unfolding verify_date
verified epoch y m d v = ground arith

-- A date that `verify_date` accepts, in a full year from 1 to 5,000,000, has a day number, and
-- `n_to_mdy` gives back its month, its day and its full year.
pub n_to_mdy-date_to_number :
    (epoch y m d : ℕ)
    → verify_date epoch (pos y) (pos m) (pos d) ≡ true
    → 1 ≤ full_year epoch y
    → full_year epoch y ≤ last_year
    → (date_to_number epoch d m y >>= n_to_mdy)
      ≡ some (record { month = m; day = d; year = full_year epoch y })
n_to_mdy-date_to_number epoch y m d v lo hi =
    let date : IsDate (full_year epoch y) m d = record {
      from_one = lo;
      reached = hi;
      positive = (verified epoch y m d v).0;
      in_month = (verified epoch y m d v).1;
    } in
    rw (number_of epoch y m d date) (mdy_of (full_year epoch y) m d date)
