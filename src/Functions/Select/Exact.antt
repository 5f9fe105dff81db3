-- ===== src/Functions/Select/Exact.antt =====
-- server/hb/fcn.c: MAX and MIN of two texts under SET EXACT ON.
use db3w.Common.{ℕ, ◌≡◌, refl, true, List, [], ◌∷◌, ◌++◌, arith, length-append}
use db3w.Common.Int.{pos}
use db3w.Values.{Reals, charctr}
use db3w.Values.Stack.{Env, Stack, push, pop_stack}
use db3w.Values.Bop.{first_diff}
use db3w.Functions.Select.{text_gte, value_gte, is_true, chosen, minmax, mmax, mmin}

first_diff_prefix : (v w : List ℕ) → first_diff v (v ++ w) ≡ pos 0
unfolding first_diff
first_diff_prefix [] w = refl
first_diff_prefix (a ∷ v) w = ground (arith, first_diff_prefix v w)

longer_gte : (a : ℕ) (v w : List ℕ) → text_gte true (a ∷ v) (a ∷ (v ++ w)) ≡ true
unfolding text_gte is_true
longer_gte a v w = rw (first_diff_prefix (a ∷ v) w) (ground (arith, length-append v w))

module _ {R : Reals} (E : Env R) (a : ℕ) (v w : List ℕ) (s : Stack R)
    (exact : E.exact_on ≡ true) where
  -- Under SET EXACT ON, of two texts of which one begins with the other, not empty and shorter or equal,
  -- MAX gives the one that the other begins with and MIN the other.
  pub minmax_prefix :
      (mmax E (charctr (a ∷ (v ++ w)) ∷ charctr (a ∷ v) ∷ s) ≡ push E s (charctr (a ∷ v)))
      × (mmin E (charctr (a ∷ (v ++ w)) ∷ charctr (a ∷ v) ∷ s) ≡ push E s (charctr (a ∷ (v ++ w))))
  unfolding mmax mmin minmax pop_stack value_gte chosen
  minmax_prefix = (rw (exact, longer_gte a v w) refl, rw (exact, longer_gte a v w) refl)
