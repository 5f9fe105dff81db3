-- ===== src/Values/Arith/Exact.antt =====
-- Sums and products of decimals: where they are exact, and where an overflow is reported.
use Prim.Native.Nat.{max}
use native.Mathlib.Decide.{dec_lt}
use db3w.Common.{ℕ, ◌+◌, ◌-◌, ◌^◌, ◌≤◌, ◌<◌, ◌≡◌, ◌∙◌, false, arith, lt→ltb, le→not-ltb}
use db3w.Common.Int.{ℤ, pos, negsuc, ◌*ℤ◌, ◌+ℤ◌, ◌-ℤ◌, neg_part, +ℤ_parts, -ℤ_parts}
use db3w.Common.Word.{wrap64, wrap64_exact, InInt64, two63}
use db3w.Values.{Reals, fixed, ok, err, invalid_value, deci_max}
use db3w.Values.Arith.Scale.{to_scale, to_scale_self, scale_exact, flipped_no, ten_pow_pos}
use db3w.Values.Arith.{
  AddOp, plus, minus, times, true_sum, sum_overflows, add_scaled, add_fixed, num_add, mul_fixed,
  mul_overflows, num_mul,
}

-- The sums that leave the range without a sign that shows it.
abbrev pub Unseen : AddOp → ℤ → ℤ → Type 0
Unseen plus l1 l2 = (neg_part l1 ≡ two63) × (neg_part l2 ≡ two63)
Unseen minus l1 l2 = (l1 ≡ pos 0) × (neg_part l2 ≡ two63)

-- A product that is exact has the sign of a product.
mul_seen : (n1 n2 : ℤ) → mul_overflows n1 n2 (n1 *ℤ n2) ≡ false
unfolding mul_overflows ◌*ℤ◌
mul_seen (pos a) (pos b) = grind arith
mul_seen (pos a) (negsuc b) = grind arith
mul_seen (negsuc a) (pos b) = grind arith
mul_seen (negsuc a) (negsuc b) = grind arith

module _ (R : Reals) where
  add_scaled_exact :
      (op : AddOp) (deci : ℕ) (l1 l2 : ℤ)
      → InInt64 l1
      → InInt64 l2
      → InInt64 (true_sum op l1 l2)
      → add_scaled R op deci l1 l2 ≡ ok (fixed deci (true_sum op l1 l2))
  unfolding add_scaled sum_overflows
  add_scaled_exact plus deci l1 l2 h1 h2 h =
      rw (wrap64_exact (l1 +ℤ l2) h) (ground (arith, +ℤ_parts l1 l2))
  add_scaled_exact minus deci l1 l2 h1 h2 h =
      rw (wrap64_exact (l1 -ℤ l2) h) (ground (arith, -ℤ_parts l1 l2))

  add_scaled_rejects :
      (op : AddOp) (deci : ℕ) (l1 l2 : ℤ)
      → InInt64 l1
      → InInt64 l2
      → ¬ InInt64 (true_sum op l1 l2)
      → ¬ Unseen op l1 l2
      → add_scaled R op deci l1 l2 ≡ err invalid_value
  unfolding add_scaled sum_overflows wrap64 ◌+ℤ◌ ◌-ℤ◌
  add_scaled_rejects plus deci l1 l2 h1 h2 out seen = ground arith
  add_scaled_rejects minus deci l1 l2 h1 h2 out seen = ground arith

  add_fixed_left :
      (op : AddOp) (d1 d2 : ℕ) (n1 n2 : ℤ)
      → d2 < d1
      → d1 ≤ deci_max
      → InInt64 (to_scale d1 d2 n2)
      → add_fixed R op d1 n1 d2 n2 ≡ add_scaled R op d1 n1 (to_scale d1 d2 n2)
  unfolding add_fixed
  add_fixed_left op d1 d2 n1 n2 lt b h =
      rw (lt→ltb d2 d1 lt, scale_exact n2 (d1 - d2) (omega arith) h)
        (rw (flipped_no n2 (10 ^ (d1 - d2)) (ten_pow_pos (d1 - d2))))

  add_fixed_right :
      (op : AddOp) (d1 d2 : ℕ) (n1 n2 : ℤ)
      → d1 ≤ d2
      → d2 ≤ deci_max
      → InInt64 (to_scale d2 d1 n1)
      → add_fixed R op d1 n1 d2 n2 ≡ add_scaled R op d2 (to_scale d2 d1 n1) n2
  unfolding add_fixed
  add_fixed_right op d1 d2 n1 n2 le b h =
      rw (le→not-ltb d1 d2 le, scale_exact n1 (d2 - d1) (omega arith) h)
        (rw (flipped_no n1 (10 ^ (d2 - d1)) (ten_pow_pos (d2 - d1))))

  add_fixed_scaled :
      (op : AddOp) (d1 d2 : ℕ) (n1 n2 : ℤ)
      → d1 ≤ deci_max
      → d2 ≤ deci_max
      → InInt64 (to_scale (max d1 d2) d1 n1)
      → InInt64 (to_scale (max d1 d2) d2 n2)
      → add_fixed R op d1 n1 d2 n2
        ≡ add_scaled R op (max d1 d2) (to_scale (max d1 d2) d1 n1) (to_scale (max d1 d2) d2 n2)
  add_fixed_scaled op d1 d2 n1 n2 b1 b2 h1 h2 = elim (dec_lt d2 d1) [
    | yes lt ↦
        let top : max d1 d2 ≡ d1 = omega arith in
        rw (top, to_scale_self d1 n1) (add_fixed_left op d1 d2 n1 n2 lt b1 (rw top at h2))
    | no ge ↦
        let top : max d1 d2 ≡ d2 = omega arith in
        rw (top, to_scale_self d2 n2)
          (add_fixed_right op d1 d2 n1 n2 (omega arith) b2 (rw top at h1))
  ]

  -- Two decimals of up to 18 places that fit a `long` when they are written with as many places as the
  -- longer one: where their sum or difference fits too, `num_add` returns it, with those places.
  pub num_add_exact :
      (op : AddOp) (d1 d2 : ℕ) (n1 n2 : ℤ)
      → d1 ≤ deci_max
      → d2 ≤ deci_max
      → InInt64 (to_scale (max d1 d2) d1 n1)
      → InInt64 (to_scale (max d1 d2) d2 n2)
      → InInt64 (true_sum op (to_scale (max d1 d2) d1 n1) (to_scale (max d1 d2) d2 n2))
      → num_add R (fixed d1 n1) (fixed d2 n2) op
        ≡ ok (
            fixed
              (max d1 d2)
              (true_sum op (to_scale (max d1 d2) d1 n1) (to_scale (max d1 d2) d2 n2)))
  unfolding num_add
  num_add_exact op d1 d2 n1 n2 b1 b2 h1 h2 h =
      add_fixed_scaled op d1 d2 n1 n2 b1 b2 h1 h2
      ∙ add_scaled_exact op (max d1 d2) (to_scale (max d1 d2) d1 n1) (to_scale (max d1 d2) d2 n2) h1
          h2 h

  -- Two decimals of up to 18 places that fit a `long` when they are written with as many places as the
  -- longer one: where their sum or difference does not fit, `num_add` raises INVALID_VALUE, but for the
  -- sum of two smallest values and the difference of zero and a smallest value.
  pub num_add_rejects :
      (op : AddOp) (d1 d2 : ℕ) (n1 n2 : ℤ)
      → d1 ≤ deci_max
      → d2 ≤ deci_max
      → InInt64 (to_scale (max d1 d2) d1 n1)
      → InInt64 (to_scale (max d1 d2) d2 n2)
      → ¬ InInt64 (true_sum op (to_scale (max d1 d2) d1 n1) (to_scale (max d1 d2) d2 n2))
      → ¬ Unseen op (to_scale (max d1 d2) d1 n1) (to_scale (max d1 d2) d2 n2)
      → num_add R (fixed d1 n1) (fixed d2 n2) op ≡ err invalid_value
  unfolding num_add
  num_add_rejects op d1 d2 n1 n2 b1 b2 h1 h2 out seen =
      add_fixed_scaled op d1 d2 n1 n2 b1 b2 h1 h2
      ∙ add_scaled_rejects op (max d1 d2) (to_scale (max d1 d2) d1 n1) (to_scale (max d1 d2) d2 n2)
          h1 h2 out seen

  -- A product of two decimals with up to 18 places together that fits a `long` is exact.
  pub num_mul_exact :
      (d1 d2 : ℕ) (n1 n2 : ℤ)
      → d1 + d2 ≤ deci_max
      → InInt64 (n1 *ℤ n2)
      → num_mul R (fixed d1 n1) (fixed d2 n2) times ≡ ok (fixed (d1 + d2) (n1 *ℤ n2))
  unfolding num_mul mul_fixed
  num_mul_exact d1 d2 n1 n2 b h =
      rw (wrap64_exact (n1 *ℤ n2) h, le→not-ltb (d1 + d2) deci_max b, mul_seen n1 n2)
