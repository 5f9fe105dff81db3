-- ===== src/Functions/Calendar.antt =====
-- server/hb/fcn.c: the functions on dates and times.
pub mod Leave
pub mod Times
use db3w.Common.{
  ℕ, zero, suc, ◌+◌, ◌-◌, ◌*◌, ◌/◌, ◌%◌, ◌^◌, List, [], ◌∷◌, ◌++◌, Option, none, some, ◌==◌,
  if◌then◌else◌, get_elem?,
}
use db3w.Common.Int.{pos, negsuc, pos_part}
use db3w.Common.Text.{codes}
use db3w.Values.{Reals, Value, date, date_typ, Result, ok, err, ◌>>=◌, overread}
use db3w.Values.Stack.{Env, Stack, pop_stack, pop_int, push_int, push_string}
use db3w.Dates.{Mdy, n_to_mdy}

abbrev pub dayofweek : List (List ℕ)
dayofweek =
    codes "Sunday"
    ∷ codes "Monday"
    ∷ codes "Tuesday"
    ∷ codes "Wednesday"
    ∷ codes "Thursday"
    ∷ codes "Friday"
    ∷ codes "Saturday"
    ∷ []

abbrev pub month_n : List (List ℕ)
month_n =
    codes "January"
    ∷ codes "February"
    ∷ codes "March"
    ∷ codes "April"
    ∷ codes "May"
    ∷ codes "June"
    ∷ codes "July"
    ∷ codes "August"
    ∷ codes "September"
    ∷ codes "October"
    ∷ codes "November"
    ∷ codes "December"
    ∷ []

-- `%02d` of a number below 100.
pub two_digits : ℕ → List ℕ
two_digits n = (n / 10 + b'0') ∷ (n % 10 + b'0') ∷ []

-- The time of day, from a number of seconds.
pub time_text : ℕ → List ℕ
unfolding two_digits
time_text tn =
    two_digits (tn / 3600 % 24)
    ++ (b':' ∷ (two_digits (tn % 3600 / 60) ++ (b':' ∷ two_digits (tn % 60))))

-- `date_t` is an unsigned 32-bit number.
pub day_name : ℕ → Option (List ℕ)
day_name d = get_elem? dayofweek ((d + 1) % 2 ^ 32 % 7)

pub dow_of : ℕ → ℕ
dow_of d = d % 7 + 1

-- The name of month 0 is read in front of the table.
pub name_of_month : ℕ → Option (List ℕ)
name_of_month zero = none
name_of_month (suc m) = get_elem? month_n m

-- What the source reads, or the fault of a read outside of an object.
abbrev pub in_bounds {ℓ} : {A : Type ℓ} → Option A → Result A
in_bounds none = err overread
in_bounds (some a) = ok a

abbrev mdy_read : Option ℕ → Option Mdy
mdy_read none = none
mdy_read (some d) = n_to_mdy d

module _ {R : Reals} where
  -- `get_date` of a null date reads behind the value.
  abbrev pub date_of : Value R → Option ℕ
  date_of (date d) = d
  date_of _ = none

  abbrev pub pop_day : Env R → Stack R → Result (ℕ × Stack R)
  pop_day E s = pop_stack E (some date_typ) s >>= λ p. in_bounds (date_of p.0) >>= λ d. ok (d, p.1)

  pub d_to_mdy : Env R → Stack R → Result (Mdy × Stack R)
  d_to_mdy E s =
      pop_stack E (some date_typ) s >>= λ p. in_bounds (mdy_read (date_of p.0)) >>= λ t. ok (t, p.1)

  pub day : Env R → Stack R → Result (Stack R)
  unfolding d_to_mdy
  day E s = d_to_mdy E s >>= λ t. push_int E t.1 (pos t.0.day)

  pub month : Env R → Stack R → Result (Stack R)
  unfolding d_to_mdy
  month E s = d_to_mdy E s >>= λ t. push_int E t.1 (pos t.0.month)

  pub year : Env R → Stack R → Result (Stack R)
  unfolding d_to_mdy
  year E s = d_to_mdy E s >>= λ t. push_int E t.1 (pos t.0.year)

  pub cdow : Env R → Stack R → Result (Stack R)
  unfolding day_name
  cdow E s = pop_day E s >>= λ d. in_bounds (day_name d.0) >>= λ p. push_string E d.1 p

  pub cmonth : Env R → Stack R → Result (Stack R)
  unfolding d_to_mdy name_of_month
  cmonth E s =
      d_to_mdy E s >>= λ t. in_bounds (name_of_month t.0.month) >>= λ p. push_string E t.1 p

  pub dow : Env R → Stack R → Result (Stack R)
  unfolding dow_of
  dow E s = pop_day E s >>= λ d. push_int E d.1 (pos (dow_of d.0))

  pub ttoc : Env R → Stack R → Result (Stack R)
  unfolding time_text
  ttoc E s = pop_int E (pos 0) (negsuc 0) s >>= λ tn. push_string E tn.1 (time_text (pos_part tn.0))
