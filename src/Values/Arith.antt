-- ===== src/Values/Arith.antt =====
-- server/hb/int.c: `power10`, `num_rel`, `num_add` and `num_mul`. Sums and products of a `long` wrap.
pub mod Scale
pub mod Exact
pub mod Overflow
pub mod Compare
use db3w.Common.{ℕ, zero, suc, ◌+◌, ◌-◌, Bool, true, false, ◌&&◌, ◌||◌, not, ltb, if◌then◌else◌}
use db3w.Common.Int.{ℤ, pos, negsuc, ◌+ℤ◌, ◌-ℤ◌, ◌*ℤ◌, ltb_ℤ, eqb_ℤ}
use db3w.Common.Word.{wrap64}
use db3w.Values.{Reals, Result, Number, null, real, fixed, ok, err, invalid_value, deci_max}

pub data RelOp : Type 0 where
  equal gtrequ greater lessequ nequ less questn : RelOp

pub data AddOp : Type 0 where
  plus minus : AddOp

pub data MulOp : Type 0 where
  times over : MulOp

pub power10 : ℕ → ℤ
power10 zero = pos 1
power10 (suc exp) = wrap64 (power10 exp *ℤ pos 10)

-- `l *= power10(k)`.
pub scale : ℤ → ℕ → ℤ
scale n k = wrap64 (n *ℤ power10 k)

-- The tests for an overflow look at signs.
abbrev pub is_pos : ℤ → Bool
is_pos n = ltb_ℤ (pos 0) n

abbrev pub is_neg : ℤ → Bool
is_neg n = ltb_ℤ n (pos 0)

abbrev pub flipped : ℤ → ℤ → Bool
flipped n l = is_pos n && is_neg l || is_neg n && is_pos l

-- The result of the comparison by the sign of `diff`; `questn` asks for the sign itself.
unfoldable pub by_sign : RelOp → ℤ → ℤ
by_sign greater d = if is_pos d then pos 1 else pos 0
by_sign less d = if is_neg d then pos 1 else pos 0
by_sign equal d = if eqb_ℤ d (pos 0) then pos 1 else pos 0
by_sign nequ d = if eqb_ℤ d (pos 0) then pos 0 else pos 1
by_sign gtrequ d = if is_neg d then pos 0 else pos 1
by_sign lessequ d = if is_pos d then pos 0 else pos 1
by_sign questn d = if is_pos d then pos 1 else if is_neg d then negsuc 0 else pos 0

pub rel_fixed : RelOp → ℕ → ℤ → ℕ → ℤ → ℤ
rel_fixed op d1 n1 d2 n2 =
    if ltb d2 d1
    then by_sign op (wrap64 (n1 -ℤ scale n2 (d1 - d2)))
    else by_sign op (wrap64 (scale n1 (d2 - d1) -ℤ n2))

-- The overflow test after the sum or the difference.
pub sum_overflows : AddOp → ℤ → ℤ → ℤ → Bool
sum_overflows plus l1 l2 n =
    is_pos l1 && is_pos l2 && is_neg n || is_neg l1 && is_neg l2 && is_pos n
sum_overflows minus l1 l2 n =
    is_pos l1 && is_neg l2 && is_neg n || is_neg l1 && is_pos l2 && is_pos n

abbrev pub true_sum : AddOp → ℤ → ℤ → ℤ
true_sum plus l1 l2 = l1 +ℤ l2
true_sum minus l1 l2 = l1 -ℤ l2

pub mul_overflows : ℤ → ℤ → ℤ → Bool
mul_overflows n1 n2 n =
    is_pos n1 && is_pos n2 && is_neg n
    || (is_neg n1 && is_pos n2 || is_pos n1 && is_neg n2) && is_pos n

module _ (R : Reals) where
  open R use {Real, of_long, add, sub, mul, div, fabs, fmin, lt, eq, dbl_min, dbl_max, dbl_epsilon}

  -- `num.r`, or `(double)num.n / power10(num.deci)`; a null number does not get here.
  pub as_real : Number R → Real
  as_real null = of_long (pos 0)
  as_real (real r) = r
  as_real (fixed d n) = div (of_long n) (of_long (power10 d))

  pub reals_equal : Real → Real → Bool
  reals_equal r1 r2 =
      let abs_r1 = fabs r1 in
      let abs_r2 = fabs r2 in
      let diff = fabs (sub abs_r1 abs_r2) in
      eq r1 r2
      || ((eq r1 (of_long (pos 0)) || eq r2 (of_long (pos 0)) || lt diff dbl_min)
          && lt diff (mul dbl_epsilon dbl_min))
      || lt (div diff (fmin (add abs_r1 abs_r2) dbl_max)) dbl_epsilon

  abbrev truth : Bool → ℤ
  truth true = pos 1
  truth false = pos 0

  pub rel_real : RelOp → Real → Real → ℤ
  unfolding reals_equal
  rel_real greater r1 r2 = if reals_equal r1 r2 then pos 0 else truth (lt r2 r1)
  rel_real less r1 r2 = if reals_equal r1 r2 then pos 0 else truth (lt r1 r2)
  rel_real equal r1 r2 = truth (reals_equal r1 r2)
  rel_real nequ r1 r2 = truth (not (reals_equal r1 r2))
  rel_real gtrequ r1 r2 = truth (reals_equal r1 r2 || lt r2 r1)
  rel_real lessequ r1 r2 = truth (reals_equal r1 r2 || lt r1 r2)
  rel_real questn r1 r2 = if reals_equal r1 r2 then pos 0 else if lt r2 r1 then pos 1 else negsuc 0

  -- A comparison with a null number gives -1.
  pub num_rel : Number R → Number R → RelOp → ℤ
  num_rel null _ op = negsuc 0
  num_rel (real _) null op = negsuc 0
  num_rel (fixed _ _) null op = negsuc 0
  num_rel (fixed d1 n1) (fixed d2 n2) op = rel_fixed op d1 n1 d2 n2
  num_rel (fixed d1 n1) (real r2) op = rel_real op (as_real (fixed d1 n1)) r2
  num_rel (real r1) (fixed d2 n2) op = rel_real op r1 (as_real (fixed d2 n2))
  num_rel (real r1) (real r2) op = rel_real op r1 r2

  pub add_real : AddOp → Real → Real → Number R
  add_real plus r1 r2 = real (add r1 r2)
  add_real minus r1 r2 = real (sub r1 r2)

  pub add_scaled : AddOp → ℕ → ℤ → ℤ → Result (Number R)
  add_scaled op deci l1 l2 =
      let n = wrap64 (true_sum op l1 l2) in
      if sum_overflows op l1 l2 n then err invalid_value else ok (fixed deci n)

  -- The operand with fewer decimals is scaled up first.
  pub add_fixed : AddOp → ℕ → ℤ → ℕ → ℤ → Result (Number R)
  add_fixed op d1 n1 d2 n2 =
      if ltb d2 d1
      then (let l2 = scale n2 (d1 - d2) in
          if flipped n2 l2 then err invalid_value else add_scaled op d1 n1 l2)
      else (let l1 = scale n1 (d2 - d1) in
          if flipped n1 l1 then err invalid_value else add_scaled op d2 l1 n2)

  pub num_add : Number R → Number R → AddOp → Result (Number R)
  num_add null _ op = ok null
  num_add (real _) null op = ok null
  num_add (fixed _ _) null op = ok null
  num_add (fixed d1 n1) (fixed d2 n2) op = add_fixed op d1 n1 d2 n2
  num_add (fixed d1 n1) (real r2) op = ok (add_real op (as_real (fixed d1 n1)) r2)
  num_add (real r1) (fixed d2 n2) op = ok (add_real op r1 (as_real (fixed d2 n2)))
  num_add (real r1) (real r2) op = ok (add_real op r1 r2)

  pub mul_real : MulOp → Real → Real → Number R
  mul_real times r1 r2 = real (mul r1 r2)
  mul_real over r1 r2 = real (div r1 r2)

  -- A quotient, and a product with too many decimals, are computed in reals.
  pub mul_fixed : MulOp → ℕ → ℤ → ℕ → ℤ → Result (Number R)
  mul_fixed over d1 n1 d2 n2 = ok (mul_real over (as_real (fixed d1 n1)) (as_real (fixed d2 n2)))
  mul_fixed times d1 n1 d2 n2 =
      let n = wrap64 (n1 *ℤ n2) in
      if ltb deci_max (d1 + d2)
      then ok (mul_real times (as_real (fixed d1 n1)) (as_real (fixed d2 n2)))
      else if mul_overflows n1 n2 n
      then err invalid_value
      else ok (fixed (d1 + d2) n)

  pub num_mul : Number R → Number R → MulOp → Result (Number R)
  num_mul null _ op = ok null
  num_mul (real _) null op = ok null
  num_mul (fixed _ _) null op = ok null
  num_mul (fixed d1 n1) (fixed d2 n2) op = mul_fixed op d1 n1 d2 n2
  num_mul (fixed d1 n1) (real r2) op = ok (mul_real op (as_real (fixed d1 n1)) r2)
  num_mul (real r1) (fixed d2 n2) op = ok (mul_real op r1 (as_real (fixed d2 n2)))
  num_mul (real r1) (real r2) op = ok (mul_real op r1 r2)
