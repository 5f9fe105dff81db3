-- ===== src/Dates/Tests.antt =====
-- Runs of the day-number code at dates that are known, and the theorems at such dates.
use db3w.Common.{
  ℕ, ◌+◌, inl, ◌≤◌, ◌<◌, ◌≡◌, ◌↔◌, refl, true, some, none, Option, ◌∷◌, [], map, arith, ◌>>=◌,
}
use db3w.Common.Int.{pos}
use db3w.Dates.{
  Mdy, day_base, n_to_mdy, find_month, split_year, yeartoday, year_of, full_year, is_leap, feb_days,
  month_limit, within, verify_date, add_months, month_days, date_to_number,
}
use db3w.Dates.RoundTrip.{IsDate, last_year, year_start, n_to_mdy-date_to_number}
use db3w.Dates.Order.{date_to_number-lt}
use db3w.Dates.Inverse.{IsGapYear, date_to_number-n_to_mdy, n_to_mdy_gap}
use db3w.Dates.Window.{IsYear, calendar_days, verify_date_iff}

abbrev mdy : ℕ → ℕ → ℕ → Option Mdy
mdy m d y = some (record { month = m; day = d; year = y })

full_year_test : map (full_year 1950) (49 ∷ 50 ∷ 99 ∷ 100 ∷ []) ≡ 2049 ∷ 1950 ∷ 1999 ∷ 100 ∷ []
unfolding full_year
full_year_test = refl

millennium : n_to_mdy 2451545 ≡ mdy 1 1 2000
unfolding n_to_mdy find_month split_year yeartoday year_of
millennium = refl

leap_day : verify_date 1950 (pos 2000) (pos 2) (pos 29) ≡ true
unfolding verify_date month_limit within feb_days is_leap full_year
leap_day = refl

eve-IsDate : IsDate (full_year 1950 1999) 12 31
unfolding month_limit within full_year
eve-IsDate = record {
  from_one = omega arith;
  reached = omega arith;
  positive = omega arith;
  in_month = refl;
}

new_year-IsDate : IsDate (full_year 1950 2000) 1 1
unfolding month_limit within full_year
new_year-IsDate = record {
  from_one = omega arith;
  reached = omega arith;
  positive = omega arith;
  in_month = refl;
}

eve_number : date_to_number 1950 31 12 1999 ≡ some 2451544
unfolding date_to_number add_months month_days feb_days is_leap full_year yeartoday
eve_number = refl

new_year_number : date_to_number 1950 1 1 2000 ≡ some 2451545
unfolding date_to_number add_months month_days feb_days is_leap full_year yeartoday
new_year_number = refl

year_1900 : IsGapYear 1900
unfolding feb_days is_leap
year_1900 = record { fourth = refl; common = refl }

n_to_mdy-date_to_number_example :
    (date_to_number 1950 29 2 2000 >>= n_to_mdy) ≡ mdy 2 29 (full_year 1950 2000)
unfolding full_year
n_to_mdy-date_to_number_example =
    n_to_mdy-date_to_number 1950 2000 2 29 leap_day (omega arith) (omega arith)

date_to_number-lt_example : ◌<◌ 2451544 2451545
unfolding full_year
date_to_number-lt_example =
    date_to_number-lt 1950 1999 12 31 2000 1 1 eve-IsDate new_year-IsDate (inl (omega arith))
      eve_number new_year_number

date_to_number-n_to_mdy_example :
    IsDate 2000 1 1 × (date_to_number 1950 1 1 2000 ≡ some (day_base + 730135))
unfolding n_to_mdy find_month split_year yeartoday year_of full_year
date_to_number-n_to_mdy_example =
    date_to_number-n_to_mdy 1950 730135 (record { month = 1; day = 1; year = 2000 }) (omega arith)
      (omega arith) refl refl

n_to_mdy_gap_example :
    (n_to_mdy (day_base + 693975) ≡ none)
    ↔ ((y : ℕ) × IsGapYear y × (y ≤ last_year) × (693975 ≡ year_start y + 366))
n_to_mdy_gap_example = n_to_mdy_gap 693975 (omega arith) (omega arith)

verify_date_iff_example :
    (full : ℕ) × IsYear 1950 0 full
    × ((verify_date 1950 (pos 0) (pos 2) (pos 29) ≡ true)
        ↔ ((1 ≤ 2) × (2 ≤ 12) × (1 ≤ 29) × (29 ≤ calendar_days full 2)))
verify_date_iff_example = verify_date_iff 1950 0 2 29
