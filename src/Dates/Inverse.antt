-- ===== src/Dates/Inverse.antt =====
-- What `n_to_mdy` makes of an arbitrary day number: a date, or a read behind the table of months.
use db3w.Common.{ℕ, sym, ◌∙◌, ◌+◌, ◌*◌, ◌%◌, ◌≤◌, ◌<◌, ◌≡◌, ◌↔◌, ◌⊎◌, true, some, none, arith}
use db3w.Dates.Months.{feb_days_cases, before}
use db3w.Dates.RoundTrip.{IsDate, number_of, year_start, last_year}
use db3w.Dates.{
  Mdy, day_base, is_leap, days_of_month, feb_days, full_year, within, month_limit, date_to_number,
  n_to_mdy, find_month, split_year, year_of, yeartoday,
}

-- A year divisible by four in which February has 28 days: 1900, 2100, …
pub record IsGapYear (y : ℕ) : Type 0 where
  pub fourth : y % 4 ≡ 0
  pub common : feb_days y ≡ 28

-- What `split_year` finds for `td`: `year_start` is the count of `yeartoday`.
record Split (td y k : ℕ) : Type 0 where
  adds_up : td ≡ year_start y + k
  first : 1 ≤ k
  bound : k ≤ 365 ⊎ (k ≡ 366) × (y % 4 ≡ 0)
  year_one : 1 ≤ y
  reached : y ≤ last_year

split_year-Split :
    (td : ℕ) → 1 ≤ td → td ≤ 365 * last_year → Split td (split_year td).0 (split_year td).1
unfolding split_year year_of yeartoday
split_year-Split td h h' = ground arith

-- What the loop over the months finds is a date of the calendar, and is the day asked for.
record Found (y k : ℕ) (r : Mdy) : Type 0 where
  same_year : r.year ≡ y
  positive : 1 ≤ r.day
  in_month : within r.day (month_limit y r.month) ≡ true
  adds_up : before (feb_days y) r.month + r.day ≡ k

find_month-Found :
    (y k : ℕ) {r : Mdy} → 1 ≤ k → find_month y 1 k days_of_month ≡ some r → Found y k r
unfolding find_month within month_limit
find_month-Found y k h e = ground arith

find_month-none : (y k : ℕ) → find_month y 1 k days_of_month ≡ none → 337 + feb_days y < k
unfolding find_month
find_month-none y k e = ground arith

find_month_behind : (y k : ℕ) → 337 + feb_days y < k → find_month y 1 k days_of_month ≡ none
unfolding find_month
find_month_behind y k e = ground arith

-- The number behind the base, seen through its two parts.
n_to_mdy_parts :
    (td : ℕ)
    → 1 ≤ td
    → td ≤ 365 * last_year
    → n_to_mdy (day_base + td) ≡ find_month (split_year td).0 1 (split_year td).1 days_of_month
unfolding n_to_mdy
n_to_mdy_parts td h h' = ground arith

-- If `n_to_mdy` finds a date for a number up to 365 * 5,000,000 days above the base, that date is one of
-- the calendar, and if its year needs no window `date_to_number` gives the number back.
pub date_to_number-n_to_mdy :
    (epoch td : ℕ) (r : Mdy)
    → 1 ≤ td
    → td ≤ 365 * last_year
    → n_to_mdy (day_base + td) ≡ some r
    → full_year epoch r.year ≡ r.year
    → IsDate r.year r.month r.day
      × (date_to_number epoch r.day r.month r.year ≡ some (day_base + td))
date_to_number-n_to_mdy epoch td r h h' e w =
    let s = split_year-Split td h h' in
    let f =
      find_month-Found (split_year td).0 (split_year td).1 {r = r} s.first
        (sym (n_to_mdy_parts td h h') ∙ e) in
    let date : IsDate r.year r.month r.day = record {
      from_one = rw (f.same_year) (s.year_one);
      reached = rw (f.same_year) (s.reached);
      positive = f.positive;
      in_month = rw (f.same_year) (f.in_month);
    } in
    (date, ground (arith, s, f, number_of epoch r.year r.month r.day (rw w date), w))

pub gap_year_split :
    (y : ℕ) → IsGapYear y → y ≤ last_year → split_year (year_start y + 366) ≡ (y, 366)
unfolding split_year year_of yeartoday feb_days is_leap
gap_year_split y g h = ground arith

pub gap_year-le : (y : ℕ) → IsGapYear y → 100 ≤ y
unfolding feb_days is_leap
gap_year-le y g = ground arith

-- For a number up to 365 * 5,000,000 days above the base `n_to_mdy` reads behind its table of months
-- exactly when the number is the 366th day of a year that is divisible by four and no leap year.
pub n_to_mdy_gap :
    (td : ℕ)
    → 1 ≤ td
    → td ≤ 365 * last_year
    → (n_to_mdy (day_base + td) ≡ none)
      ↔ ((y : ℕ) × IsGapYear y × (y ≤ last_year) × (td ≡ year_start y + 366))
n_to_mdy_gap td h h' = (forward, backward)
  where
    forward :
        n_to_mdy (day_base + td) ≡ none
        → (y : ℕ) × IsGapYear y × (y ≤ last_year) × (td ≡ year_start y + 366)
    forward e =
        let s = split_year-Split td h h' in
        let late =
          find_month-none (split_year td).0 (split_year td).1 (sym (n_to_mdy_parts td h h') ∙ e) in
        (
          (split_year td).0,
          ground (arith, feb_days_cases (split_year td).0),
          s.reached,
          ground (arith, feb_days_cases (split_year td).0),
        )

    backward :
        (y : ℕ) × IsGapYear y × (y ≤ last_year) × (td ≡ year_start y + 366)
        → n_to_mdy (day_base + td) ≡ none
    backward (y, g, top, e) =
        n_to_mdy_parts td h h'
        ∙ rw (e, gap_year_split y g top) (find_month_behind y 366 (omega arith))
