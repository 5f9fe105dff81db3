-- ===== src/Values/Bop/Logic.antt =====
-- The logical operators over true, false and null.
use db3w.Common.{◌+◌, ◌≤◌, ◌≡◌, Bool, ◌&&◌, ◌||◌, ◌∷◌, Option, none, some, arith}
use db3w.Values.{Reals, logic, ok, val_size}
use db3w.Values.Stack.{
  Env, Stack, used, push, pop_stack, pop_logic, typechk, push_logic, stack_peek,
}
use db3w.Values.Bop.{or_op, and_op, or_logic, and_logic, bop, checked, compatible, operate}

-- The rules for null: it is neutral for `.or.`, and makes `.and.` null.
abbrev pub or_table : Option Bool → Option Bool → Option Bool
or_table none b = b
or_table a none = a
or_table (some a) (some b) = some (a || b)

abbrev pub and_table : Option Bool → Option Bool → Option Bool
and_table (some a) (some b) = some (a && b)
and_table _ _ = none

module _ {R : Reals} (E : Env R) (a b : Option Bool) (s : Stack R) where
  -- On two logical operands, where there is room for the result, `.or.` and `.and.` leave what their
  -- tables say, and the order of the operands makes no difference.
  pub bop_logic_tables :
      used s + 3 ≤ E.capacity
      → (bop E (logic b ∷ logic a ∷ s) or_op ≡ ok (logic (or_table a b) ∷ s))
        × (bop E (logic b ∷ logic a ∷ s) and_op ≡ ok (logic (and_table a b) ∷ s))
        × (bop E (logic a ∷ logic b ∷ s) or_op ≡ bop E (logic b ∷ logic a ∷ s) or_op)
        × (bop E (logic a ∷ logic b ∷ s) and_op ≡ bop E (logic b ∷ logic a ∷ s) and_op)
  unfolding bop checked stack_peek compatible operate pop_logic pop_stack typechk push_logic push
      val_size or_logic and_logic
  bop_logic_tables room = ground arith
