-- ===== src/Values/Tests.antt =====
-- The theorems on numbers and on the stack at concrete values. Reals are integers here, so that the
-- operations compute; no run below comes to a real.
use Prim.Native.Nat.{max}
use db3w.Common.{ℕ, ◌+◌, ◌-◌, ◌≡◌, refl, true, false, some, none, [], ◌∷◌, List, arith, Bool, ◌||◌}
use db3w.Common.Int.{ℤ, pos, negsuc, ◌+ℤ◌, ◌-ℤ◌, ◌*ℤ◌, ltb_ℤ, eqb_ℤ, neg_ℤ}
use db3w.Common.Word.{two63}
use db3w.Values.{Reals, fixed, logic, number, charctr, ok, err, invalid_value}
use db3w.Values.Arith.{plus, times, greater, less, equal, true_sum, num_add, num_mul, num_rel}
use db3w.Values.Arith.Scale.{to_scale}
use db3w.Values.Arith.Exact.{num_add_exact, num_add_rejects, num_mul_exact}
use db3w.Values.Arith.Compare.{rel_of_order, num_rel_exact}
use db3w.Values.Stack.{Env, used}
use db3w.Values.Stack.Laws.{Leaves}
use db3w.Values.Bop.{bop, rel_op, add_op}
use db3w.Values.Bop.Effect.{bop-Leaves}
use db3w.Values.Bop.Text.{lex_less, is_prefix, bop_text_less, bop_text_equal}

abbrev pub reals : Reals
reals = record {
  Real = ℤ;
  of_long = λ n. n;
  to_long = λ r. r;
  add = ◌+ℤ◌;
  sub = ◌-ℤ◌;
  mul = ◌*ℤ◌;
  div = λ a b. a;
  neg = λ a. neg_ℤ a;
  fabs = λ a. a;
  fmin = λ a b. a;
  power = λ a b. a;
  lt = λ a b. ltb_ℤ a b;
  eq = λ a b. eqb_ℤ a b;
  dbl_min = pos 0;
  dbl_max = pos 0;
  dbl_epsilon = pos 0;
}

abbrev pub env : Bool → Bool → Env reals
env nulls exact = record {
  capacity = 65536;
  behind = logic none;
  restricted = false;
  null_on = nulls;
  exact_on = exact;
}

-- 1.50 + 0.3 = 1.80
num_add_exact_example :
    num_add reals (fixed 2 (pos 150)) (fixed 1 (pos 3)) plus
    ≡ ok (
        fixed
          (max 2 1)
          (true_sum plus (to_scale (max 2 1) 2 (pos 150)) (to_scale (max 2 1) 1 (pos 3))))
unfolding ◌*ℤ◌ ◌+ℤ◌
num_add_exact_example =
    num_add_exact reals plus 2 1 (pos 150) (pos 3) (omega arith) (omega arith) (omega arith)
      (omega arith) (omega arith)

num_add_rejects_example :
    num_add reals (fixed 0 (pos (two63 - 1))) (fixed 0 (pos 1)) plus ≡ err invalid_value
unfolding ◌*ℤ◌ ◌+ℤ◌
num_add_rejects_example =
    num_add_rejects reals plus 0 0 (pos (two63 - 1)) (pos 1) (omega arith) (omega arith)
      (omega arith) (omega arith) (λ h. absurd (omega arith)) (λ h. absurd (omega arith))

num_mul_exact_example :
    num_mul reals (fixed 2 (pos 150)) (fixed 1 (negsuc 2)) times
    ≡ ok (fixed (2 + 1) (pos 150 *ℤ negsuc 2))
unfolding ◌*ℤ◌
num_mul_exact_example = num_mul_exact reals 2 1 (pos 150) (negsuc 2) (omega arith) (omega arith)

num_rel_exact_example :
    num_rel reals (fixed 2 (pos 150)) (fixed 1 (pos 14)) greater
    ≡ rel_of_order greater (to_scale (max 2 1) 2 (pos 150)) (to_scale (max 2 1) 1 (pos 14))
unfolding ◌*ℤ◌ ◌-ℤ◌
num_rel_exact_example =
    num_rel_exact reals greater 2 1 (pos 150) (pos 14) (omega arith) (omega arith) (omega arith)
      (omega arith) (omega arith)

bop-Leaves_example :
    Leaves (env false true) [] (
      bop (env false true) (number (fixed 0 (pos 2)) ∷ number (fixed 0 (pos 1)) ∷ []) (add_op plus))
bop-Leaves_example =
    bop-Leaves (env false true) (add_op plus) (number (fixed 0 (pos 2))) (number (fixed 0 (pos 1)))
      [] (λ h. h)

abbrev ab : List ℕ
ab = b'a' ∷ b'b' ∷ []

bop_text_less_example :
    bop (env false true) (charctr (b'b' ∷ []) ∷ charctr ab ∷ []) (rel_op less)
    ≡ ok (logic (some (lex_less ab (b'b' ∷ []))) ∷ [])
unfolding used
bop_text_less_example = bop_text_less (env false true) ab (b'b' ∷ []) [] refl refl (omega arith)

bop_text_equal_example :
    bop (env false false) (charctr (b'a' ∷ []) ∷ charctr ab ∷ []) (rel_op equal)
    ≡ ok (logic (some (is_prefix ab (b'a' ∷ []) || is_prefix (b'a' ∷ []) ab)) ∷ [])
unfolding used
bop_text_equal_example = bop_text_equal (env false false) ab (b'a' ∷ []) [] refl refl (omega arith)
