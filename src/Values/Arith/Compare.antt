-- ===== src/Values/Arith/Compare.antt =====
-- The comparison of decimals: by the sign of a difference that may wrap.
use Prim.Native.Nat.{max}
use native.Mathlib.Decide.{dec_lt}
use db3w.Common.{ℕ, ◌+◌, ◌-◌, ◌≤◌, ◌<◌, ◌≡◌, ◌∙◌, arith, lt→ltb, le→not-ltb, if◌then◌else◌}
use db3w.Common.Int.{ℤ, pos, negsuc, ◌-ℤ◌, ltb_ℤ, eqb_ℤ, -ℤ_parts}
use db3w.Common.Word.{wrap64, wrap64_exact, InInt64, two63}
use db3w.Values.{Reals, fixed, deci_max}
use db3w.Values.Arith.Scale.{to_scale, to_scale_self, scale_exact}
use db3w.Values.Arith.{
  RelOp, equal, gtrequ, greater, lessequ, nequ, less, questn, by_sign, rel_fixed, num_rel,
}

-- The comparison of two integers by their order.
abbrev pub rel_of_order : RelOp → ℤ → ℤ → ℤ
rel_of_order greater a b = if ltb_ℤ b a then pos 1 else pos 0
rel_of_order less a b = if ltb_ℤ a b then pos 1 else pos 0
rel_of_order equal a b = if eqb_ℤ a b then pos 1 else pos 0
rel_of_order nequ a b = if eqb_ℤ a b then pos 0 else pos 1
rel_of_order gtrequ a b = if ltb_ℤ a b then pos 0 else pos 1
rel_of_order lessequ a b = if ltb_ℤ b a then pos 0 else pos 1
rel_of_order questn a b = if ltb_ℤ b a then pos 1 else if ltb_ℤ a b then negsuc 0 else pos 0

by_sign_order : (op : RelOp) (a b : ℤ) → by_sign op (a -ℤ b) ≡ rel_of_order op a b
unfolding by_sign
by_sign_order greater a b = ground (arith, -ℤ_parts a b)
by_sign_order op a b = ground (arith, -ℤ_parts a b)

rel_fixed_scaled :
    (op : RelOp) (d1 d2 : ℕ) (n1 n2 : ℤ)
    → d1 ≤ deci_max
    → d2 ≤ deci_max
    → InInt64 (to_scale (max d1 d2) d1 n1)
    → InInt64 (to_scale (max d1 d2) d2 n2)
    → rel_fixed op d1 n1 d2 n2
      ≡ by_sign op (wrap64 (to_scale (max d1 d2) d1 n1 -ℤ to_scale (max d1 d2) d2 n2))
unfolding rel_fixed
rel_fixed_scaled op d1 d2 n1 n2 b1 b2 h1 h2 = elim (dec_lt d2 d1) [
  | yes lt ↦
      let top : max d1 d2 ≡ d1 = omega arith in
      rw (
        top,
        to_scale_self d1 n1,
        lt→ltb d2 d1 lt,
        scale_exact n2 (d1 - d2) (omega arith) (rw top at h2),
      )
  | no ge ↦
      let top : max d1 d2 ≡ d2 = omega arith in
      rw (
        top,
        to_scale_self d2 n2,
        le→not-ltb d1 d2 (omega arith),
        scale_exact n1 (d2 - d1) (omega arith) (rw top at h1),
      )
]

rel_fixed_same :
    (op : RelOp) (d : ℕ) (n1 n2 : ℤ)
    → d ≤ deci_max
    → InInt64 n1
    → rel_fixed op d n1 d n2 ≡ by_sign op (wrap64 (n1 -ℤ n2))
unfolding rel_fixed
rel_fixed_same op d n1 n2 b h = rw (
  le→not-ltb d d (omega arith),
  scale_exact n1 (d - d) (omega arith) (rw (to_scale_self d n1) h),
  to_scale_self d n1,
)

module _ (R : Reals) where
  -- Two decimals of up to 18 places that fit a `long` when they are written with as many places as the
  -- longer one, and whose difference then fits too, are compared by their values.
  pub num_rel_exact :
      (op : RelOp) (d1 d2 : ℕ) (n1 n2 : ℤ)
      → d1 ≤ deci_max
      → d2 ≤ deci_max
      → InInt64 (to_scale (max d1 d2) d1 n1)
      → InInt64 (to_scale (max d1 d2) d2 n2)
      → InInt64 (to_scale (max d1 d2) d1 n1 -ℤ to_scale (max d1 d2) d2 n2)
      → num_rel R (fixed d1 n1) (fixed d2 n2) op
        ≡ rel_of_order op (to_scale (max d1 d2) d1 n1) (to_scale (max d1 d2) d2 n2)
  unfolding num_rel
  num_rel_exact op d1 d2 n1 n2 b1 b2 h1 h2 h =
      rel_fixed_scaled op d1 d2 n1 n2 b1 b2 h1 h2
      ∙ rw (wrap64_exact (to_scale (max d1 d2) d1 n1 -ℤ to_scale (max d1 d2) d2 n2) h)
          (by_sign_order op (to_scale (max d1 d2) d1 n1) (to_scale (max d1 d2) d2 n2))

  -- A positive and a negative number with the same places whose difference does not fit a `long`: the
  -- positive one is found to be the smaller.
  pub num_rel_wrapped :
      (d a b : ℕ)
      → d ≤ deci_max
      → a < two63
      → b < two63
      → two63 ≤ a + b + 1
      → (num_rel R (fixed d (pos a)) (fixed d (negsuc b)) greater ≡ pos 0)
        × (num_rel R (fixed d (pos a)) (fixed d (negsuc b)) less ≡ pos 1)
  unfolding num_rel by_sign wrap64 ◌-ℤ◌
  num_rel_wrapped d a b hd ha hb h =
      let same =
        λ (op : RelOp). rel_fixed_same op d (pos a) (negsuc b) hd (omega arith, omega arith) in
      (same greater ∙ ground arith, same less ∙ ground arith)
