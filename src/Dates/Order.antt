-- ===== src/Dates/Order.antt =====
-- Day numbers are compared in place of dates: the order of the numbers is the order of the dates.
use db3w.Common.{ℕ, suc, ◌+◌, ◌≤◌, ◌<◌, ◌≡◌, ◌⊎◌, inl, inr, some, arith}
use db3w.Dates.Months.{feb_days_cases, before, before_mono, before_year, month_day}
use db3w.Dates.RoundTrip.{IsDate, day_number, number_of, year_start}
use db3w.Dates.{feb_days, full_year, date_to_number}

-- Year, month and day in the order of the calendar.
abbrev pub Earlier : ℕ → ℕ → ℕ → ℕ → ℕ → ℕ → Type 0
Earlier y m d y' m' d' = (y < y') ⊎ ((y ≡ y') × (m < m')) ⊎ ((y ≡ y') × (m ≡ m') × (d < d'))

year_start_step :
    (y y' k : ℕ) → 1 ≤ y → k ≤ 337 + feb_days y → y < y' → year_start y + k ≤ year_start y'
year_start_step y y' k h b lt = omega (arith, feb_days_cases y)

day_number-lt :
    (y m d y' m' d' : ℕ)
    → IsDate y m d
    → IsDate y' m' d'
    → Earlier y m d y' m' d'
    → day_number y m d < day_number y' m' d'
day_number-lt y m d y' m' d' v v' (inl lt) =
    let k = month_day y m d v.positive v.in_month in
    let fits =
      year_start_step y y' (before (feb_days y) m + d) v.from_one
        (omega (arith, k.next, before_year (feb_days y) m k.twelve)) lt in
    omega (arith, v'.positive, fits)
day_number-lt y m d y' m' d' v v' (inr (inl (e, lt))) =
    let k = month_day y m d v.positive v.in_month in
    rw (← e) (omega (arith, v'.positive, k.next, before_mono (feb_days y) (suc m) m' lt))
day_number-lt y m d y' m' d' v v' (inr (inr (e, e', lt))) = rw (← e, ← e') (omega arith)

-- Of two calendar dates in full years from 1 to 5,000,000 the earlier has the smaller day number.
pub date_to_number-lt :
    (epoch y m d y' m' d' : ℕ) {n n' : ℕ}
    → IsDate (full_year epoch y) m d
    → IsDate (full_year epoch y') m' d'
    → Earlier (full_year epoch y) m d (full_year epoch y') m' d'
    → date_to_number epoch d m y ≡ some n
    → date_to_number epoch d' m' y' ≡ some n'
    → n < n'
date_to_number-lt epoch y m d y' m' d' {n} {n'} v v' lt e e' =
    let a = number_of epoch y m d v in
    let b = number_of epoch y' m' d' v' in
    ground (arith, day_number-lt (full_year epoch y) m d (full_year epoch y') m' d' v v' lt, a, b)
