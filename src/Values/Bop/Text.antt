-- ===== src/Values/Bop/Text.antt =====
-- The comparison of texts, against the order of the dictionary and against prefixes.
use db3w.Common.{
  ℕ, ◌+◌, ◌≤◌, ◌≡◌, Bool, true, false, ◌&&◌, ◌||◌, List, [], ◌∷◌, some, arith, ltb, ◌==◌,
}
use db3w.Common.Int.{pos, ltb_ℤ, eqb_ℤ}
use db3w.Values.{Reals, logic, charctr, ok, val_size}
use db3w.Values.Arith.{less, equal, by_sign}
use db3w.Values.Stack.{Env, Stack, used, push, pop_stack, push_logic, stack_peek}
use db3w.Values.Bop.{
  rel_op, first_diff, text_diff, is_zero, bop, checked, compatible, operate, rel_values, rel_text,
  push_rel,
}

-- The order of the dictionary: a text comes behind its beginnings.
unfoldable pub lex_less : List ℕ → List ℕ → Bool
lex_less p [] = false
lex_less [] (b ∷ q) = true
lex_less (a ∷ p) (b ∷ q) = ltb a b || (a == b) && lex_less p q

unfoldable pub is_prefix : List ℕ → List ℕ → Bool
is_prefix [] q = true
is_prefix (a ∷ p) [] = false
is_prefix (a ∷ p) (b ∷ q) = (a == b) && is_prefix p q

text_diff_less : (p q : List ℕ) → ltb_ℤ (text_diff true p q) (pos 0) ≡ lex_less p q
unfolding text_diff first_diff lex_less is_zero
text_diff_less [] [] = ground arith
text_diff_less [] (b ∷ q) = ground arith
text_diff_less (a ∷ p) [] = ground arith
text_diff_less (a ∷ p) (b ∷ q) = ground (arith, text_diff_less p q)

text_diff_prefix :
    (p q : List ℕ) → eqb_ℤ (text_diff false p q) (pos 0) ≡ (is_prefix p q || is_prefix q p)
unfolding text_diff first_diff is_prefix is_zero
text_diff_prefix [] [] = ground arith
text_diff_prefix [] (b ∷ q) = ground arith
text_diff_prefix (a ∷ p) [] = ground arith
text_diff_prefix (a ∷ p) (b ∷ q) = ground (arith, text_diff_prefix p q)

module _ {R : Reals} (E : Env R) (p q : List ℕ) (s : Stack R) where
  -- Under SET NULL OFF and SET EXACT ON the operator `<` on two texts leaves whether the left one comes
  -- first in the dictionary, where there is room for the result.
  pub bop_text_less :
      E.null_on ≡ false
      → E.exact_on ≡ true
      → used s + 3 ≤ E.capacity
      → bop E (charctr q ∷ charctr p ∷ s) (rel_op less) ≡ ok (logic (some (lex_less p q)) ∷ s)
  unfolding bop checked stack_peek compatible operate rel_values rel_text pop_stack push_rel
      push_logic push val_size by_sign
  bop_text_less n x room = rw (n, x) (ground (arith, text_diff_less p q))

  -- Under SET NULL OFF and SET EXACT OFF the operator `=` on two texts leaves whether one of them begins
  -- with the other, where there is room for the result.
  pub bop_text_equal :
      E.null_on ≡ false
      → E.exact_on ≡ false
      → used s + 3 ≤ E.capacity
      → bop E (charctr q ∷ charctr p ∷ s) (rel_op equal)
        ≡ ok (logic (some (is_prefix p q || is_prefix q p)) ∷ s)
  unfolding bop checked stack_peek compatible operate rel_values rel_text pop_stack push_rel
      push_logic push val_size by_sign
  bop_text_equal n x room = rw (n, x) (ground (arith, text_diff_prefix p q))
