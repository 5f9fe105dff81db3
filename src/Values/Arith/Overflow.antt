-- ===== src/Values/Arith/Overflow.antt =====
-- Overflows that the tests by sign do not see.
use db3w.Common.{ℕ, suc, ◌+◌, ◌-◌, ◌*◌, ◌≤◌, ◌<◌, ◌≡◌, arith}
use db3w.Common.Int.{pos, negsuc, ◌*ℤ◌, ◌+ℤ◌}
use db3w.Common.Word.{wrap64, two63, two64}
use db3w.Values.{Reals, fixed, ok}
use db3w.Values.Arith.{
  plus, times, sum_overflows, scale, power10, add_scaled, add_fixed, num_add, mul_fixed,
  mul_overflows, num_mul,
}

module _ (R : Reals) where
  -- A whole number `n` whose tenfold passes 2 ^ 64 by less than 2 ^ 63, plus `m` tenths: the scaling wraps
  -- to a positive number, and the sum comes out too small by 2 ^ 64 tenths.
  pub num_add_wrapped_scale :
      (n m : ℕ)
      → n < two63
      → two64 ≤ n * 10
      → n * 10 + m < two64 + two63
      → num_add R (fixed 0 (pos n)) (fixed 1 (pos m)) plus ≡ ok (fixed 1 (pos (n * 10 + m - two64)))
  unfolding num_add add_fixed add_scaled scale power10 wrap64 ◌*ℤ◌ ◌+ℤ◌ sum_overflows
  num_add_wrapped_scale n m h lo hi = ground arith

  -- The product of two negative numbers between 2 ^ 63 and 2 ^ 64 is returned as a negative number.
  pub num_mul_wrapped :
      (a b : ℕ)
      → two63 ≤ suc a * suc b
      → suc a * suc b < two64
      → num_mul R (fixed 0 (negsuc a)) (fixed 0 (negsuc b)) times
        ≡ ok (fixed 0 (negsuc (two64 - 1 - suc a * suc b)))
  unfolding num_mul mul_fixed mul_overflows wrap64 ◌*ℤ◌
  num_mul_wrapped a b lo hi = ground arith
