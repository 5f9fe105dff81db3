-- ===== src/Dates.antt =====
-- server/hb/date.c: day numbers. `date_t` is an unsigned 32-bit number; an `int` that the code keeps
-- non-negative is a natural number, and one that it tests for its sign is an integer. The global
-- `epoch` is an argument. `none` is a read outside of the table `daysofmonth`.
pub mod Window
pub mod Months
pub mod RoundTrip
pub mod Order
pub mod Inverse
pub mod Century
pub mod Tests
use db3w.Common.{
  ℕ, zero, suc, ◌+◌, ◌-◌, ◌*◌, ◌/◌, ◌%◌, ◌^◌, Bool, true, false, ◌&&◌, ◌||◌, not, List, [], ◌∷◌,
  Option, none, some, ltb, leb, ◌==◌, if◌then◌else◌, get_elem?, ◌>>=◌,
}
use db3w.Common.Int.{ℤ, pos, negsuc, sub_ℕ}

abbrev pub two32 : ℕ
two32 = 2 ^ 32

-- The day number that the count starts after.
abbrev pub day_base : ℕ
day_base = 1721410

-- The table without its unused entry 0.
abbrev pub days_of_month : List ℕ
days_of_month = 31 ∷ 28 ∷ 31 ∷ 30 ∷ 31 ∷ 30 ∷ 31 ∷ 31 ∷ 30 ∷ 31 ∷ 30 ∷ 31 ∷ []

pub is_leap : ℕ → Bool
is_leap year = (year % 400 == 0) || ((year % 4 == 0) && not (year % 100 == 0))

pub feb_days : ℕ → ℕ
feb_days year = if is_leap year then 29 else 28

-- A year of one or two digits is put into the century that starts at `epoch`.
pub full_year : ℕ → ℕ → ℕ
full_year epoch year =
    if ltb year 100
    then if ltb year (epoch % 100)
      then year + (epoch + 99) / 100 * 100
      else year + epoch / 100 * 100
    else year

-- The cases of the switch; `none` is its default.
pub month_limit : ℕ → ℕ → Option ℕ
month_limit year month =
    if (month == 1)
      || (month == 3)
      || (month == 5)
      || (month == 7)
      || (month == 8)
      || (month == 10)
      || (month == 12)
    then some 31
    else if month == 2
    then some (feb_days year)
    else if (month == 4) || (month == 6) || (month == 9) || (month == 11)
    then some 30
    else none

pub within : ℕ → Option ℕ → Bool
within day none = false
within day (some limit) = leb day limit

-- The guard `day < 1 || year < 0` comes first; a month below 1 falls to the default.
pub verify_date : ℕ → ℤ → ℤ → ℤ → Bool
unfolding within
verify_date epoch (pos year) (pos month) (pos day) =
    if ltb day 1 then false else within day (month_limit (full_year epoch year) month)
verify_date epoch _ _ _ = false

pub yeartoday : ℤ → ℕ
yeartoday (pos year) = (year / 4 * 1461 + year % 4 * 365) % two32
yeartoday (negsuc _) = 0

-- `month == 2 ? … : daysofmonth[month]`, for a month from 1.
pub month_days : ℕ → ℕ → Option ℕ
month_days year zero = some 0
month_days year (suc m) = if suc m == 2 then some (feb_days year) else get_elem? days_of_month m

-- `while (--month) day += …`; from month 0 the loop runs below the table.
pub add_months : ℕ → ℕ → ℕ → Option ℕ
add_months year zero day = none
add_months year (suc zero) day = some day
add_months year (suc (suc m)) day =
    month_days year (suc m) >>= λ days. add_months year (suc m) (day + days)

pub date_to_number : ℕ → ℕ → ℕ → ℕ → Option ℕ
unfolding add_months
date_to_number epoch day month year =
    let y = full_year epoch year in
    add_months y month day >>= λ d. some ((day_base + yeartoday (sub_ℕ y 1) + d) % two32)

pub record Mdy : Type 0 where
  pub month : ℕ
  pub day : ℕ
  pub year : ℕ

-- The loop over the months from `month` on; the list is the rest of the table.
pub find_month : ℕ → ℕ → ℕ → List ℕ → Option Mdy
find_month year month day [] = none
find_month year month day (n ∷ rest) =
    let days = if month == 2 then feb_days year else n in
    if leb day days
    then some (record { month = month; day = day; year = year })
    else find_month year (month + 1) (day - days) rest

-- `(int)((double)td / 365.25 + 1)`: 365.25 is 1461/4, and the division of a number below 2 ^ 32 by it
-- rounds to no other whole part.
pub year_of : ℕ → ℕ
year_of td = td * 4 / 1461 + 1

pub split_year : ℕ → ℕ × ℕ
split_year td =
    let year = year_of td in
    let day = td - yeartoday (sub_ℕ year 1) in
    if day == 0 then (year - 1, td - yeartoday (sub_ℕ (year - 1) 1)) else (year, day)

-- A number that is not above the base as a signed 32-bit value has no date.
pub n_to_mdy : ℕ → Option Mdy
n_to_mdy d =
    let td = (d + two32 - day_base) % two32 in
    if (td == 0) || leb (2 ^ 31) td
    then some (record { month = 0; day = 0; year = 0 })
    else let (year, day) = split_year td in find_month year 1 day days_of_month
