-- ===== src/Common/Word.antt =====
-- The 64-bit `long` of the source: two's complement, with the wrap-around written out.
use db3w.Common.Tests.{ltb, if◌then◌else◌}
use db3w.Common.Int.{ℤ, pos, negsuc, pos_part, neg_part}
use Prim.Native.Nat.{ℕ, ◌-◌, ◌%◌, ◌^◌, ◌≤◌, ◌<◌}
use mathlib.Core.Path.{◌≡◌}
use native.Mathlib.Omega.{arith}

abbrev pub two63 : ℕ
two63 = 2 ^ 63

abbrev pub two64 : ℕ
two64 = 2 ^ 64

-- The bit pattern of an integer, and the `long` that a bit pattern stands for.
abbrev pub to_word64 : ℤ → ℕ
to_word64 (pos n) = n % two64
to_word64 (negsuc n) = two64 - 1 - n % two64

abbrev pub of_word64 : ℕ → ℤ
of_word64 w = if ltb w two63 then pos w else negsuc (two64 - 1 - w)

-- The value that a `long` holds after an operation whose true result is the argument.
unfoldable pub wrap64 : ℤ → ℤ
wrap64 z = of_word64 (to_word64 z)

abbrev pub InInt64 : ℤ → Type 0
InInt64 z = (pos_part z < two63) × (neg_part z ≤ two63)

pub wrap64-InInt64 : (z : ℤ) → InInt64 (wrap64 z)
unfolding wrap64
wrap64-InInt64 (pos n) = ground arith
wrap64-InInt64 (negsuc n) = ground arith

pub wrap64_exact : (z : ℤ) → InInt64 z → wrap64 z ≡ z
unfolding wrap64
wrap64_exact (pos n) h = ground arith
wrap64_exact (negsuc n) h = ground arith

-- The cast `(int)` of a `long`.
unfoldable pub to_int32 : ℤ → ℤ
to_int32 z =
    let w = to_word64 z % 2 ^ 32 in if ltb w (2 ^ 31) then pos w else negsuc (2 ^ 32 - 1 - w)
