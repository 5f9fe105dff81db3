-- ===== src/Functions/Dispatch.antt =====
-- server/hb/fcn.c and server/hb/int.c: the table of the functions, and the call of one by its code.
pub mod Taking
pub mod Operation
use db3w.Common.{ℕ, Bool, true, false}
use db3w.Common.Int.{pos, pos_part}
use db3w.Values.{Reals, Result, ◌>>=◌}
use db3w.Values.Stack.{Env, Stack, pop_int}
use db3w.Functions.Text.{is_lower, is_upper, is_digit, is_alpha, pad_right, pad_left, pad_center}
use db3w.Functions.Calls.{
  substr, left, right, stuff, replicate, space, ltrim, rtrim, at, occurs, len, asc, chr, lower,
  upper, pad, proper, soundex, test_first,
}
use db3w.Functions.Select.{mmax, mmin, iif, between, int_, abs_}
use db3w.Functions.Calendar.{day, month, year, cdow, cmonth, dow, ttoc}
use db3w.Functions.Codes.{
  Fcn, abs_fcn, asc_fcn, at_fcn, between_fcn, cdow_fcn, chr_fcn, cmonth_fcn, day_fcn, dow_fcn,
  iif_fcn, int_fcn, isalpha_fcn, isdigit_fcn, islower_fcn, isupper_fcn, left_fcn, len_fcn,
  lower_fcn, ltrim_fcn, max_fcn, min_fcn, month_fcn, occurs_fcn, padc_fcn, padl_fcn, padr_fcn,
  proper_fcn, replicate_fcn, right_fcn, rtrim_fcn, soundex_fcn, space_fcn, stuff_fcn, substr_fcn,
  ttoc_fcn, upper_fcn, year_fcn,
}

-- It takes the count of its operands.
abbrev pub Routine : Reals → Type 0
Routine R = ℕ → Stack R → Result (Stack R)

module _ {R : Reals} where
  -- The table; the functions that are not modelled are an argument.
  pub fcn : (Fcn → Routine R) → Env R → Fcn → Routine R
  fcn others E abs_fcn cnt s = abs_ E s
  fcn others E asc_fcn cnt s = asc E s
  fcn others E at_fcn cnt s = at E s
  fcn others E between_fcn cnt s = between E s
  fcn others E cdow_fcn cnt s = cdow E s
  fcn others E chr_fcn cnt s = chr E s
  fcn others E cmonth_fcn cnt s = cmonth E s
  fcn others E day_fcn cnt s = day E s
  fcn others E dow_fcn cnt s = dow E s
  fcn others E iif_fcn cnt s = iif E s
  fcn others E int_fcn cnt s = int_ E s
  fcn others E isalpha_fcn cnt s = test_first E is_alpha s
  fcn others E isdigit_fcn cnt s = test_first E is_digit s
  fcn others E islower_fcn cnt s = test_first E is_lower s
  fcn others E isupper_fcn cnt s = test_first E is_upper s
  fcn others E left_fcn cnt s = left E s
  fcn others E len_fcn cnt s = len E s
  fcn others E lower_fcn cnt s = lower E s
  fcn others E ltrim_fcn cnt s = ltrim E s
  fcn others E max_fcn cnt s = mmax E s
  fcn others E min_fcn cnt s = mmin E s
  fcn others E month_fcn cnt s = month E s
  fcn others E occurs_fcn cnt s = occurs E s
  fcn others E padc_fcn cnt s = pad E pad_center s
  fcn others E padl_fcn cnt s = pad E pad_left s
  fcn others E padr_fcn cnt s = pad E pad_right s
  fcn others E proper_fcn cnt s = proper E s
  fcn others E replicate_fcn cnt s = replicate E s
  fcn others E right_fcn cnt s = right E s
  fcn others E rtrim_fcn cnt s = rtrim E s
  fcn others E soundex_fcn cnt s = soundex E s
  fcn others E space_fcn cnt s = space E s
  fcn others E stuff_fcn cnt s = stuff E s
  fcn others E substr_fcn cnt s = substr E cnt s
  fcn others E ttoc_fcn cnt s = ttoc E s
  fcn others E upper_fcn cnt s = upper E s
  fcn others E year_fcn cnt s = year E s
  fcn others E f cnt s = others f cnt s

  -- The count of the operands is on the top.
  pub fcn_call : (Fcn → Routine R) → Env R → Fcn → Stack R → Result (Stack R)
  unfolding fcn
  fcn_call others E fcn_no s =
      pop_int E (pos 0) (pos 255) s >>= λ p. fcn others E fcn_no (pos_part p.0) p.1
