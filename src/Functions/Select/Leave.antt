-- ===== src/Functions/Select/Leave.antt =====
-- server/hb/fcn.c: a function that chooses leaves one value in the place of its operands.
use db3w.Common.{inl, inr, Bool, ◌∷◌, ◌==◌, Bool-cases}
use db3w.Values.{Reals, Value, logic_typ, type_code, val_type}
use db3w.Values.Stack.{Env, Stack, pop_stack, pop_logic, as_logic, push_logic}
use db3w.Values.Stack.Laws.{
  Leaves, push-Leaves, typed-Leaves, pop_number-Leaves, pop_real-Leaves, bind-Leaves,
  push_real-Leaves,
}
use db3w.Functions.Select.{minmax, iif, between, int_, abs_, value_gte}
use db3w.Functions.Calls.Leave.{push_int-Leaves}

module _ {R : Reals} (E : Env R) where
  pub minmax-Leaves :
      (ismin : Bool) (w v : Value R) (s : Stack R) → Leaves E s (minmax E ismin (w ∷ v ∷ s))
  unfolding minmax pop_stack
  minmax-Leaves ismin w v s = elim (Bool-cases (type_code (val_type v) == type_code (val_type w))) [
    | inl same ↦ rw same (bind-Leaves E s (value_gte E v w) _ (λ gte. push-Leaves E s _))
    | inr differ ↦ rw differ tt
  ]

  pub iif-Leaves : (w v b : Value R) (s : Stack R) → Leaves E s (iif E (w ∷ v ∷ b ∷ s))
  unfolding iif pop_stack pop_logic
  iif-Leaves w v b s =
      typed-Leaves E logic_typ as_logic b s s _ (bind-Leaves E s _ _ (λ x. push-Leaves E s x))

  pub between-Leaves : (z y x : Value R) (s : Stack R) → Leaves E s (between E (z ∷ y ∷ x ∷ s))
  unfolding between push_logic
  between-Leaves z y x s =
      pop_number-Leaves E z s (y ∷ x ∷ s) _
        (pop_number-Leaves E y s (x ∷ s) _ (pop_number-Leaves E x s s _ (push-Leaves E s _)))

  pub int-Leaves : (v : Value R) (s : Stack R) → Leaves E s (int_ E (v ∷ s))
  unfolding int_
  int-Leaves v s = pop_real-Leaves E v s s _ (λ r. push_int-Leaves E s _)

  pub abs-Leaves : (v : Value R) (s : Stack R) → Leaves E s (abs_ E (v ∷ s))
  unfolding abs_
  abs-Leaves v s = pop_real-Leaves E v s s _ (λ r. push_real-Leaves E s _)
