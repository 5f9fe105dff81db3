-- ===== src/Functions/Dispatch/Taking.antt =====
-- A call that is given the number of operands that it takes.
use db3w.Common.{◌≤◌, ◌≡◌, true, ◌&&◌, ◌||◌, not, [], ◌∷◌, ◌++◌, length, ltb, ◌==◌, arith}
use db3w.Values.{Reals, Value, Result}
use db3w.Values.Stack.{Env, Stack, used}
use db3w.Values.Stack.Laws.{Leaves}

module _ {R : Reals} (E : Env R) (g : Stack R → Result (Stack R)) where
  -- A list of the right length is that many values.
  pub take_one :
      (args s : Stack R)
      → (length args == 1) ≡ true
      → used (args ++ s) ≤ E.capacity
      → ((a : Value R) → used (a ∷ s) ≤ E.capacity → Leaves E s (g (a ∷ s)))
      → Leaves E s (g (args ++ s))
  take_one [] s n u h = absurd (ground arith)
  take_one (a ∷ []) s n u h = h a u
  take_one (a ∷ b ∷ args) s n u h = absurd (ground arith)

  pub take_two :
      (args s : Stack R)
      → not (ltb 2 (length args) || true && not (length args == 2)) ≡ true
      → ((a b : Value R) → Leaves E s (g (a ∷ b ∷ s)))
      → Leaves E s (g (args ++ s))
  take_two [] s n h = absurd (ground arith)
  take_two (a ∷ []) s n h = absurd (ground arith)
  take_two (a ∷ b ∷ []) s n h = h a b
  take_two (a ∷ b ∷ c ∷ args) s n h = absurd (ground arith)

  pub take_three :
      (args s : Stack R)
      → not (true && not (length args == 3)) ≡ true
      → ((a b c : Value R) → Leaves E s (g (a ∷ b ∷ c ∷ s)))
      → Leaves E s (g (args ++ s))
  take_three [] s n h = absurd (ground arith)
  take_three (a ∷ []) s n h = absurd (ground arith)
  take_three (a ∷ b ∷ []) s n h = absurd (ground arith)
  take_three (a ∷ b ∷ c ∷ []) s n h = h a b c
  take_three (a ∷ b ∷ c ∷ d ∷ args) s n h = absurd (ground arith)

  pub take_four :
      (args s : Stack R)
      → (length args == 4) ≡ true
      → ((a b c d : Value R) → Leaves E s (g (a ∷ b ∷ c ∷ d ∷ s)))
      → Leaves E s (g (args ++ s))
  take_four [] s n h = absurd (ground arith)
  take_four (a ∷ []) s n h = absurd (ground arith)
  take_four (a ∷ b ∷ []) s n h = absurd (ground arith)
  take_four (a ∷ b ∷ c ∷ []) s n h = absurd (ground arith)
  take_four (a ∷ b ∷ c ∷ d ∷ []) s n h = h a b c d
  take_four (a ∷ b ∷ c ∷ d ∷ e ∷ args) s n h = absurd (ground arith)
