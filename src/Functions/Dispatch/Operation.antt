-- ===== src/Functions/Dispatch/Operation.antt =====
-- server/hb/fcn.c and server/hb/int.c: a call that the parser accepts takes exactly its operands.
use db3w.Common.{
  ℕ, ◌≤◌, ◌≡◌, Bool, true, false, ◌&&◌, ◌||◌, not, [], ◌∷◌, ◌++◌, length, ltb, ◌==◌, arith,
}
use db3w.Values.{Reals}
use db3w.Values.Stack.{Env, Stack, used}
use db3w.Values.Stack.Laws.{Leaves}
use db3w.Functions.Text.{pad_right, pad_left, pad_center, is_lower, is_upper, is_digit, is_alpha}
use db3w.Functions.Calls.{
  in_front, behind_it, left, right, stuff, soundex, len, replicate, space, at, occurs, asc, chr,
  pad, proper, test_first, substr, substr, ltrim, rtrim, lower, upper, trim, upr_lwr,
}
use db3w.Functions.Calls.Leave.{
  right-Leaves, stuff-Leaves, soundex-Leaves, len-Leaves, asc-Leaves, at-Leaves, chr-Leaves,
  left-Leaves, occurs-Leaves, pad-Leaves, proper-Leaves, replicate-Leaves, space-Leaves,
  test_first-Leaves, trim-Leaves, upr_lwr-Leaves, substr-Leaves, substr_limit-Leaves,
}
use db3w.Functions.Select.{mmax, mmin, minmax, iif, between, int_, abs_}
use db3w.Functions.Select.Leave.{abs-Leaves, between-Leaves, iif-Leaves, int-Leaves, minmax-Leaves}
use db3w.Functions.Calendar.{day, month, year, cdow, cmonth, dow, ttoc}
use db3w.Functions.Calendar.Leave.{
  cdow-Leaves, cmonth-Leaves, day-Leaves, dow-Leaves, month-Leaves, ttoc-Leaves, year-Leaves,
}
use db3w.Functions.Codes.{
  Fcn, abs_fcn, asc_fcn, at_fcn, between_fcn, cdow_fcn, chr_fcn, cmonth_fcn, day_fcn, dow_fcn,
  iif_fcn, int_fcn, isalpha_fcn, isdigit_fcn, islower_fcn, isupper_fcn, left_fcn, len_fcn,
  right_fcn, stuff_fcn, soundex_fcn, lower_fcn, ltrim_fcn, max_fcn, min_fcn, month_fcn, occurs_fcn,
  padc_fcn, padl_fcn, padr_fcn, proper_fcn, replicate_fcn, rtrim_fcn, space_fcn, substr_fcn,
  ttoc_fcn, upper_fcn, year_fcn,
}
use db3w.Functions.Operands.{count_ok}
use db3w.Functions.Dispatch.{Routine, fcn}
use db3w.Functions.Dispatch.Taking.{take_one, take_two, take_three, take_four}

-- The modelled functions, whose routine is not an argument.
abbrev pub is_modelled : Fcn → Bool
is_modelled abs_fcn = true
is_modelled asc_fcn = true
is_modelled at_fcn = true
is_modelled between_fcn = true
is_modelled cdow_fcn = true
is_modelled chr_fcn = true
is_modelled cmonth_fcn = true
is_modelled day_fcn = true
is_modelled dow_fcn = true
is_modelled iif_fcn = true
is_modelled int_fcn = true
is_modelled isalpha_fcn = true
is_modelled isdigit_fcn = true
is_modelled islower_fcn = true
is_modelled isupper_fcn = true
is_modelled left_fcn = true
is_modelled len_fcn = true
is_modelled lower_fcn = true
is_modelled ltrim_fcn = true
is_modelled max_fcn = true
is_modelled min_fcn = true
is_modelled month_fcn = true
is_modelled occurs_fcn = true
is_modelled padc_fcn = true
is_modelled padl_fcn = true
is_modelled padr_fcn = true
is_modelled proper_fcn = true
is_modelled replicate_fcn = true
is_modelled right_fcn = true
is_modelled rtrim_fcn = true
is_modelled soundex_fcn = true
is_modelled space_fcn = true
is_modelled stuff_fcn = true
is_modelled substr_fcn = true
is_modelled ttoc_fcn = true
is_modelled upper_fcn = true
is_modelled year_fcn = true
is_modelled _ = false

-- The functions whose operands `parm_chk` does not count, with the counts that they take off the stack.
abbrev pub own_count : Fcn → ℕ → Bool
own_count len_fcn cnt = cnt == 1
own_count right_fcn cnt = cnt == 2
own_count soundex_fcn cnt = cnt == 1
own_count stuff_fcn cnt = cnt == 4
own_count _ cnt = true

module _ {R : Reals} (E : Env R) where
  take_two_or_three :
      (args s : Stack R)
      → not (ltb 3 (length args) || true && ltb (length args) 2) ≡ true
      → Leaves E s (substr E (length args) (args ++ s))
  take_two_or_three [] s n = absurd (ground arith)
  take_two_or_three (a ∷ []) s n = absurd (ground arith)
  take_two_or_three (a ∷ b ∷ []) s n = substr-Leaves E a b s
  take_two_or_three (a ∷ b ∷ c ∷ []) s n = substr_limit-Leaves E a b c s
  take_two_or_three (a ∷ b ∷ c ∷ d ∷ args) s n = absurd (ground arith)

  -- Each modelled function, called on a stack within its capacity with a count of operands that
  -- `parm_chk` accepts and with any values as its operands, raises an error or leaves one value in their
  -- place within the stack, and what lies below stays. RIGHT, STUFF, SOUNDEX and LEN, whose operands
  -- `parm_chk` does not count, have to be called with 2, 4, 1 and 1 of them.
  pub fcn-Leaves :
      (others : Fcn → Routine R) (f : Fcn) (args s : Stack R)
      → is_modelled f ≡ true
      → count_ok true f (length args) ≡ true
      → own_count f (length args) ≡ true
      → used (args ++ s) ≤ E.capacity
      → Leaves E s (fcn others E f (length args) (args ++ s))
  unfolding fcn count_ok ltrim rtrim lower upper mmax mmin
  fcn-Leaves others abs_fcn args s m n o u =
      take_one E (abs_ E) args s n u (λ a u. abs-Leaves E a s)
  fcn-Leaves others asc_fcn args s m n o u = take_one E (asc E) args s n u (λ a u. asc-Leaves E a s)
  fcn-Leaves others at_fcn args s m n o u = take_two E (at E) args s n (λ a b. at-Leaves E a b s)
  fcn-Leaves others between_fcn args s m n o u =
      take_three E (between E) args s n (λ a b c. between-Leaves E a b c s)
  fcn-Leaves others cdow_fcn args s m n o u =
      take_one E (cdow E) args s n u (λ a u. cdow-Leaves E a s)
  fcn-Leaves others chr_fcn args s m n o u = take_one E (chr E) args s n u (λ a u. chr-Leaves E a s)
  fcn-Leaves others cmonth_fcn args s m n o u =
      take_one E (cmonth E) args s n u (λ a u. cmonth-Leaves E a s)
  fcn-Leaves others day_fcn args s m n o u = take_one E (day E) args s n u (λ a u. day-Leaves E a s)
  fcn-Leaves others dow_fcn args s m n o u = take_one E (dow E) args s n u (λ a u. dow-Leaves E a s)
  fcn-Leaves others iif_fcn args s m n o u =
      take_three E (iif E) args s n (λ a b c. iif-Leaves E a b c s)
  fcn-Leaves others int_fcn args s m n o u =
      take_one E (int_ E) args s n u (λ a u. int-Leaves E a s)
  fcn-Leaves others isalpha_fcn args s m n o u =
      take_one E (test_first E is_alpha) args s n u (λ a u. test_first-Leaves E is_alpha a s)
  fcn-Leaves others isdigit_fcn args s m n o u =
      take_one E (test_first E is_digit) args s n u (λ a u. test_first-Leaves E is_digit a s)
  fcn-Leaves others islower_fcn args s m n o u =
      take_one E (test_first E is_lower) args s n u (λ a u. test_first-Leaves E is_lower a s)
  fcn-Leaves others isupper_fcn args s m n o u =
      take_one E (test_first E is_upper) args s n u (λ a u. test_first-Leaves E is_upper a s)
  fcn-Leaves others left_fcn args s m n o u =
      take_two E (left E) args s n (λ a b. left-Leaves E a b s)
  fcn-Leaves others len_fcn args s m n o u = take_one E (len E) args s o u (λ a u. len-Leaves E a s)
  fcn-Leaves others lower_fcn args s m n o u =
      take_one E (upr_lwr E false) args s n u (λ a u. upr_lwr-Leaves E false a s u)
  fcn-Leaves others ltrim_fcn args s m n o u =
      take_one E (trim E in_front) args s n u (λ a u. trim-Leaves E in_front a s)
  fcn-Leaves others max_fcn args s m n o u =
      take_two E (minmax E false) args s n (λ a b. minmax-Leaves E false a b s)
  fcn-Leaves others min_fcn args s m n o u =
      take_two E (minmax E true) args s n (λ a b. minmax-Leaves E true a b s)
  fcn-Leaves others month_fcn args s m n o u =
      take_one E (month E) args s n u (λ a u. month-Leaves E a s)
  fcn-Leaves others occurs_fcn args s m n o u =
      take_two E (occurs E) args s n (λ a b. occurs-Leaves E a b s)
  fcn-Leaves others padc_fcn args s m n o u =
      take_three E (pad E pad_center) args s n (λ a b c. pad-Leaves E pad_center a b c s)
  fcn-Leaves others padl_fcn args s m n o u =
      take_three E (pad E pad_left) args s n (λ a b c. pad-Leaves E pad_left a b c s)
  fcn-Leaves others padr_fcn args s m n o u =
      take_three E (pad E pad_right) args s n (λ a b c. pad-Leaves E pad_right a b c s)
  fcn-Leaves others proper_fcn args s m n o u =
      take_one E (proper E) args s n u (λ a u. proper-Leaves E a s)
  fcn-Leaves others replicate_fcn args s m n o u =
      take_two E (replicate E) args s n (λ a b. replicate-Leaves E a b s)
  fcn-Leaves others right_fcn args s m n o u =
      take_two E (right E) args s (ground arith) (λ a b. right-Leaves E a b s)
  fcn-Leaves others rtrim_fcn args s m n o u =
      take_one E (trim E behind_it) args s n u (λ a u. trim-Leaves E behind_it a s)
  fcn-Leaves others soundex_fcn args s m n o u =
      take_one E (soundex E) args s o u (λ a u. soundex-Leaves E a s)
  fcn-Leaves others space_fcn args s m n o u =
      take_one E (space E) args s n u (λ a u. space-Leaves E a s)
  fcn-Leaves others stuff_fcn args s m n o u =
      take_four E (stuff E) args s o (λ a b c d. stuff-Leaves E a b c d s)
  fcn-Leaves others substr_fcn args s m n o u = take_two_or_three args s n
  fcn-Leaves others ttoc_fcn args s m n o u =
      take_one E (ttoc E) args s n u (λ a u. ttoc-Leaves E a s)
  fcn-Leaves others upper_fcn args s m n o u =
      take_one E (upr_lwr E true) args s n u (λ a u. upr_lwr-Leaves E true a s u)
  fcn-Leaves others year_fcn args s m n o u =
      take_one E (year E) args s n u (λ a u. year-Leaves E a s)
  fcn-Leaves others _ args s m n o u = absurd (ground arith)
