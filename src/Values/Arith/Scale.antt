-- ===== src/Values/Arith/Scale.antt =====
-- Powers of ten and the scaling of a `long`, where they stay in range.
use native.Mathlib.Nat.{pow-suc, pow-le-pow_right}
use db3w.Common.{ℕ, zero, suc, ◌-◌, ◌*◌, ◌^◌, ◌≤◌, ◌≡◌, refl, false, arith}
use db3w.Common.Int.{eq_of_parts, ℤ, pos, negsuc, ◌*ℤ◌, pos_part, neg_part}
use db3w.Common.Word.{wrap64_exact, InInt64}
use db3w.Values.Arith.{power10, scale, flipped}

pub ten_pow_pos : (k : ℕ) → 1 ≤ 10 ^ k
ten_pow_pos zero = omega arith
ten_pow_pos (suc k) = omega (arith, ten_pow_pos k, pow-suc 10 k)

ten_pow-le : (e : ℕ) → e ≤ 18 → 10 ^ e ≤ 10 ^ 18
ten_pow-le e h = pow-le-pow_right (omega arith) h

-- The product of an integer and a natural number, part by part.
pub mul_parts :
    (n : ℤ) (p : ℕ)
    → (pos_part (n *ℤ pos p) ≡ pos_part n * p) × (neg_part (n *ℤ pos p) ≡ neg_part n * p)
unfolding ◌*ℤ◌
mul_parts (pos n) p = ground arith
mul_parts (negsuc n) p = ground arith

pub power10_exact : (e : ℕ) → e ≤ 18 → power10 e ≡ pos (10 ^ e)
unfolding power10
power10_exact zero h = refl
power10_exact (suc e) h =
    let product : pos (10 ^ e) *ℤ pos 10 ≡ pos (10 ^ suc e) =
      eq_of_parts _ _ (omega (arith, mul_parts (pos (10 ^ e)) 10, pow-suc 10 e)) in
    rw (power10_exact e (omega arith), product)
      (wrap64_exact (pos (10 ^ suc e)) (omega (arith, ten_pow-le (suc e) h), omega arith))

-- An integer with `d` decimals, written with `D` of them.
abbrev pub to_scale : ℕ → ℕ → ℤ → ℤ
to_scale D d n = n *ℤ pos (10 ^ (D - d))

pub to_scale_self : (d : ℕ) (n : ℤ) → to_scale d d n ≡ n
to_scale_self d n =
    let none_left : d - d ≡ 0 = omega arith in
    rw none_left (eq_of_parts _ _ (omega (arith, mul_parts n 1)))

pub scale_exact :
    (n : ℤ) (k : ℕ) → k ≤ 18 → InInt64 (n *ℤ pos (10 ^ k)) → scale n k ≡ n *ℤ pos (10 ^ k)
unfolding scale
scale_exact n k h fits = rw (power10_exact k h) (wrap64_exact (n *ℤ pos (10 ^ k)) fits)

pub flipped_no : (n : ℤ) (p : ℕ) → 1 ≤ p → flipped n (n *ℤ pos p) ≡ false
flipped_no n p h = grind (arith, mul_parts n p)
