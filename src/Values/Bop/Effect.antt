-- ===== src/Values/Bop/Effect.antt =====
-- What `bop` does to the stack, whatever the operator and the operands.
use db3w.Common.{
  ℕ, ◌+◌, ◌≡◌, inl, inr, Bool, true, false, ◌&&◌, ◌||◌, List, ◌∷◌, arith, ltb, Bool-cases, ◌==◌,
  if◌then◌else◌, length,
}
use db3w.Values.{
  Reals, Number, null, real, fixed, Value, nothing, logic, number, date, charctr, other,
  max_str_len,
}
use db3w.Values.Arith.{RelOp, questn, AddOp, plus, minus}
use db3w.Values.Stack.{
  Env, Stack, pop_stack, stack_peek, push_logic, push_number, push_string, push_date,
}
use db3w.Values.Stack.Laws.{
  Leaves, push-Leaves, pop_number-Leaves, pop_logic-Leaves, pop_date-Leaves, bind-Leaves,
  push_real-Leaves,
}
use db3w.Values.Bop.{
  BinaryOp, or_op, and_op, power_op, unknown_op, rel_op, add_op, mul_op, push_rel, push_null,
  rel_text, text_of, rel_values, is_date, add_date_number, add_numbers, concat, add_text, sub_dates,
  add_number_date, add_values, raise, compatible, operate, checked, bop,
}

module _ {R : Reals} where
  push_rel-Leaves :
      (E : Env R) (s : Stack R) (op : RelOp) (tf : _) → Leaves E s (push_rel E s op tf)
  unfolding push_rel push_number push_logic
  push_rel-Leaves E s questn tf = push-Leaves E s _
  push_rel-Leaves E s op tf = push-Leaves E s _

  rel_text-Leaves :
      (E : Env R) (right left : Value R) (s : Stack R) (op : RelOp) (q p : List ℕ)
      → (E.null_on && ((length q == 0) || (length p == 0)) ≡ false)
      → Leaves E s (rel_text E (right ∷ left ∷ s) op q p)
  unfolding rel_text pop_stack
  rel_text-Leaves E right left s op q p h = rw h (push_rel-Leaves E s op _)

  concat-Leaves :
      (E : Env R) (right left : Value R) (s : Stack R) (q p : List ℕ)
      → Leaves E s (concat E (right ∷ left ∷ s) q p)
  unfolding concat pop_stack push_string
  concat-Leaves E right left s q p = elim (Bool-cases (ltb max_str_len (length p + length q))) [
    | inl long ↦ rw long tt
    | inr fits ↦ rw fits (push-Leaves E s _)
  ]

  number_added :
      (E : Env R) (op : AddOp) (left : Value R) (s : Stack R) (n : Number R) (b : Bool)
      → Leaves E s (if b then add_date_number E (left ∷ s) op n else add_numbers E (left ∷ s) op n)
  unfolding add_date_number add_numbers push_date push_number
  number_added E op left s n true =
      pop_date-Leaves E left s s _ (bind-Leaves E s _ _ (λ m. push-Leaves E s _))
  number_added E op left s n false =
      pop_number-Leaves E left s s _ (bind-Leaves E s _ _ (λ m. push-Leaves E s _))

  sub_dates-Leaves :
      (E : Env R) (op : AddOp) (left : Value R) (s : Stack R) (n : Number R)
      → Leaves E s (sub_dates E (left ∷ s) op n)
  unfolding sub_dates push_number
  sub_dates-Leaves E plus left s n = tt
  sub_dates-Leaves E minus left s n =
      pop_date-Leaves E left s s _ (bind-Leaves E s _ _ (λ m. push-Leaves E s _))

  date_added :
      (E : Env R) (op : AddOp) (left : Value R) (s : Stack R) (n : Number R) (b : Bool)
      → Leaves E s (if b then sub_dates E (left ∷ s) op n else add_number_date E (left ∷ s) op n)
  unfolding add_number_date push_date
  date_added E op left s n true = sub_dates-Leaves E op left s n
  date_added E op left s n false =
      pop_number-Leaves E left s s _ (bind-Leaves E s _ _ (λ m. push-Leaves E s _))

  add_values-Leaves :
      (E : Env R) (op : AddOp) (right left : Value R) (s : Stack R)
      → Leaves E s (add_values E (right ∷ left ∷ s) op left right)
  unfolding add_values add_text
  add_values-Leaves E op nothing left s = tt
  add_values-Leaves E op (logic b) left s = tt
  add_values-Leaves E op (other t b) left s = tt
  add_values-Leaves E op (number n) left s =
      pop_number-Leaves E (number n) s (left ∷ s) _ (number_added E op left s n (is_date left))
  add_values-Leaves E op (date d) left s =
      pop_date-Leaves E (date d) s (left ∷ s) _ (date_added E op left s _ (is_date left))
  add_values-Leaves E plus (charctr t) left s = concat-Leaves E (charctr t) left s (text_of left) t
  add_values-Leaves E minus (charctr t) left s = tt

  raise-Leaves : (E : Env R) (s : Stack R) (n m : Number R) → Leaves E s (raise E s n m)
  unfolding raise push_number
  raise-Leaves E s null m = push-Leaves E s _
  raise-Leaves E s (real r) null = push-Leaves E s _
  raise-Leaves E s (fixed d n) null = push-Leaves E s _
  raise-Leaves E s (real r) m = push_real-Leaves E s _
  raise-Leaves E s (fixed d n) m = push_real-Leaves E s _

  -- A comparison of texts under SET NULL ON where one of them is empty.
  abbrev pub NullText : Env R → BinaryOp → Value R → Value R → Type 0
  NullText E (rel_op op) left (charctr q) =
      E.null_on && ((length (text_of left) == 0) || (length q == 0)) ≡ true
  NullText E _ left right = ⊥

  rel_values-Leaves :
      (E : Env R) (op : RelOp) (right left : Value R) (s : Stack R)
      → ¬ NullText E (rel_op op) left right
      → Leaves E s (rel_values E (right ∷ left ∷ s) op left right)
  unfolding rel_values
  rel_values-Leaves E op nothing left s h = tt
  rel_values-Leaves E op (logic b) left s h = tt
  rel_values-Leaves E op (other t b) left s h = tt
  rel_values-Leaves E op (number n) left s h =
      pop_number-Leaves E (number n) s (left ∷ s) _
        (pop_number-Leaves E left s s _ (push_rel-Leaves E s op _))
  rel_values-Leaves E op (date d) left s h =
      pop_date-Leaves E (date d) s (left ∷ s) _
        (pop_date-Leaves E left s s _ (push_rel-Leaves E s op _))
  rel_values-Leaves E op (charctr t) left s h =
      rel_text-Leaves E (charctr t) left s op (text_of left) t (ground arith)

  operate-Leaves :
      (E : Env R) (op : BinaryOp) (right left : Value R) (s : Stack R)
      → ¬ NullText E op left right
      → Leaves E s (operate E (right ∷ left ∷ s) op left right)
  unfolding operate push_logic push_number
  operate-Leaves E or_op right left s h =
      pop_logic-Leaves E right s (left ∷ s) _ (pop_logic-Leaves E left s s _ (push-Leaves E s _))
  operate-Leaves E and_op right left s h =
      pop_logic-Leaves E right s (left ∷ s) _ (pop_logic-Leaves E left s s _ (push-Leaves E s _))
  operate-Leaves E (rel_op op) right left s h = rel_values-Leaves E op right left s h
  operate-Leaves E (add_op op) right left s h = add_values-Leaves E op right left s
  operate-Leaves E (mul_op op) right left s h =
      pop_number-Leaves E right s (left ∷ s) _
        (pop_number-Leaves E left s s _ (bind-Leaves E s _ _ (λ m. push-Leaves E s _)))
  operate-Leaves E power_op right left s h =
      pop_number-Leaves E right s (left ∷ s) _
        (pop_number-Leaves E left s s _ (raise-Leaves E s _ _))
  operate-Leaves E unknown_op right left s h = tt

  -- A binary operator that succeeds takes its two operands off the stack and leaves one value in their
  -- place, within the capacity, unless it compares texts of which one is empty under SET NULL ON.
  pub bop-Leaves :
      (E : Env R) (op : BinaryOp) (right left : Value R) (s : Stack R)
      → ¬ NullText E op left right
      → Leaves E s (bop E (right ∷ left ∷ s) op)
  unfolding bop checked stack_peek
  bop-Leaves E op right left s h = elim (Bool-cases (compatible left right)) [
    | inl fits ↦ rw fits (operate-Leaves E op right left s h)
    | inr differ ↦ rw differ tt
  ]

  -- If the comparison of two texts of which one is empty, under SET NULL ON, succeeds, it leaves the two
  -- operands on the stack and one value on top of them, within the capacity.
  pub bop-NullText :
      (E : Env R) (op : RelOp) (p q : List ℕ) (s : Stack R)
      → NullText E (rel_op op) (charctr p) (charctr q)
      → Leaves E (charctr q ∷ charctr p ∷ s) (bop E (charctr q ∷ charctr p ∷ s) (rel_op op))
  unfolding bop checked stack_peek compatible operate rel_values rel_text push_null push_number
      push_logic
  bop-NullText E questn p q s h = rw h (push-Leaves E _ _)
  bop-NullText E op p q s h = rw h (push-Leaves E _ _)
