-- ===== src/Values/Bop.antt =====
-- server/hb/int.c: `bop`, the binary operators. The first operand of the source is the top of the stack,
-- the right one of the expression.
pub mod Logic
pub mod Text
pub mod Effect
use db3w.Common.{
  ℕ, zero, suc, ◌+◌, ◌-◌, ◌%◌, ◌^◌, Bool, true, false, ◌&&◌, ◌||◌, List, [], ◌∷◌, ◌++◌, Option,
  none, some, ltb, ◌==◌, if◌then◌else◌, length,
}
use db3w.Common.Int.{ℤ, pos, negsuc, sub_ℕ, pos_part, neg_part}
use db3w.Common.Word.{to_word64}
use db3w.Values.{
  Reals, Number, null, real, fixed, Value, type_code, val_type, number, date, charctr, Result, err,
  ◌>>=◌, invalid_type, invalid_operator, type_mismatch, str_toolong, segfault, max_str_len,
}
use db3w.Values.Arith.{
  RelOp, AddOp, MulOp, questn, plus, minus, by_sign, num_rel, num_add, num_mul, as_real,
}
use db3w.Values.Stack.{
  Env, Stack, pop_stack, pop_logic, pop_number, pop_date, push_logic, push_number, push_string,
  push_date, push_real, stack_peek,
}

pub data BinaryOp : Type 0 where
  or_op and_op power_op unknown_op : BinaryOp
  rel_op : RelOp → BinaryOp
  add_op : AddOp → BinaryOp
  mul_op : MulOp → BinaryOp

-- A null operand of `.or.` gives the other one.
pub or_logic : Option Bool → Option Bool → Option Bool
or_logic none l2 = l2
or_logic (some b) none = some b
or_logic (some b) (some c) = some (c || b)

-- A null operand of `.and.` makes the result null.
pub and_logic : Option Bool → Option Bool → Option Bool
and_logic none l2 = none
and_logic (some b) none = none
and_logic (some b) (some c) = some (b && c)

-- The first difference of two texts over the length of the shorter one, or 0.
unfoldable pub first_diff : List ℕ → List ℕ → ℤ
first_diff [] q = pos 0
first_diff (a ∷ p) [] = pos 0
first_diff (a ∷ p) (b ∷ q) = if a == b then first_diff p q else sub_ℕ a b

is_zero : ℤ → Bool
is_zero i = pos_part i + neg_part i == 0

-- SET EXACT ON makes a longer text the greater one.
pub text_diff : Bool → List ℕ → List ℕ → ℤ
unfolding is_zero
text_diff exact left right =
    let i = first_diff left right in
    if is_zero i && exact then sub_ℕ (length left) (length right) else i

-- A comparison pushes a number for `questn` and a logical value otherwise; -1 is null there.
abbrev tri : ℤ → Option Bool
tri (negsuc _) = none
tri (pos zero) = some false
tri (pos (suc _)) = some true

module _ {R : Reals} where
  push_rel : Env R → Stack R → RelOp → ℤ → Result (Stack R)
  push_rel E s questn tf = push_number E s (fixed 0 tf)
  push_rel E s op tf = push_logic E s (tri tf)

  -- With SET NULL ON an empty text makes the result null.
  push_null : Env R → Stack R → RelOp → Result (Stack R)
  push_null E s questn = push_number E s null
  push_null E s op = push_logic E s none

  -- The text operands are popped in the branch that compares them alone.
  rel_text : Env R → Stack R → RelOp → List ℕ → List ℕ → Result (Stack R)
  unfolding push_rel push_null
  rel_text E s op left right =
      if E.null_on && ((length left == 0) || (length right == 0))
      then push_null E s op
      else (pop_stack E none s >>= λ p. pop_stack E none p.1 >>= λ q.
          push_rel E q.1 op (by_sign op (text_diff E.exact_on left right)))

  abbrev pub text_of : Value R → List ℕ
  text_of (charctr t) = t
  text_of _ = []

  rel_values : Env R → Stack R → RelOp → Value R → Value R → Result (Stack R)
  unfolding rel_text push_rel
  rel_values E s op left (number _) =
      pop_number E s >>= λ p. pop_number E p.1 >>= λ q. push_rel E q.1 op (num_rel R q.0 p.0 op)
  rel_values E s op left (date _) =
      pop_date E s >>= λ p. pop_date E p.1 >>= λ q. push_rel E q.1 op (num_rel R q.0 p.0 op)
  rel_values E s op left (charctr right) = rel_text E s op (text_of left) right
  rel_values E s op left _ = err invalid_type

  -- `(date_t)num.n`, which cuts the number to 32 bits.
  abbrev day_of : Number R → ℕ
  day_of null = 2 ^ 32 - 1
  day_of (real r) = 0
  day_of (fixed d n) = to_word64 n % 2 ^ 32

  is_date : Value R → Bool
  is_date (date _) = true
  is_date _ = false

  add_date_number : Env R → Stack R → AddOp → Number R → Result (Stack R)
  add_date_number E s op n1 =
      pop_date E s >>= λ q. num_add R q.0 n1 op >>= λ n. push_date E q.1 (day_of n)

  add_numbers : Env R → Stack R → AddOp → Number R → Result (Stack R)
  add_numbers E s op n1 = pop_number E s >>= λ q. num_add R q.0 n1 op >>= λ n. push_number E q.1 n

  concat : Env R → Stack R → List ℕ → List ℕ → Result (Stack R)
  concat E s left right =
      if ltb max_str_len (length right + length left)
      then err str_toolong
      else (pop_stack E none s >>= λ p.
          pop_stack E none p.1 >>= λ q. push_string E q.1 (left ++ right))

  add_text : Env R → Stack R → AddOp → List ℕ → List ℕ → Result (Stack R)
  unfolding concat
  add_text E s plus left right = concat E s left right
  add_text E s minus left right = err invalid_operator

  sub_dates : Env R → Stack R → AddOp → Number R → Result (Stack R)
  sub_dates E s plus n1 = err invalid_operator
  sub_dates E s minus n1 = pop_date E s >>= λ q. num_add R q.0 n1 minus >>= λ n. push_number E q.1 n

  add_number_date : Env R → Stack R → AddOp → Number R → Result (Stack R)
  add_number_date E s op n1 =
      pop_number E s >>= λ q. num_add R q.0 n1 op >>= λ n. push_date E q.1 (day_of n)

  add_values : Env R → Stack R → AddOp → Value R → Value R → Result (Stack R)
  unfolding add_date_number add_numbers add_text sub_dates add_number_date is_date
  add_values E s op left (number _) = pop_number E s >>= λ p.
      if is_date left then add_date_number E p.1 op p.0 else add_numbers E p.1 op p.0
  add_values E s op left (charctr right) = add_text E s op (text_of left) right
  add_values E s op left (date _) = pop_date E s >>= λ p.
      if is_date left then sub_dates E p.1 op p.0 else add_number_date E p.1 op p.0
  add_values E s op left _ = err invalid_type

  raise : Env R → Stack R → Number R → Number R → Result (Stack R)
  raise E s null n2 = push_number E s null
  raise E s (real r) null = push_number E s null
  raise E s (fixed d n) null = push_number E s null
  raise E s (real r) (real q) = push_real E s (R.power q r)
  raise E s (real r) (fixed d n) = push_real E s (R.power (as_real R (fixed d n)) r)
  raise E s (fixed d n) (real q) = push_real E s (R.power q (as_real R (fixed d n)))
  raise E s (fixed d n) (fixed e m) =
      push_real E s (R.power (as_real R (fixed e m)) (as_real R (fixed d n)))

  -- `val_is_integer`; a null number has no decimals either.
  whole : Value R → Bool
  whole (number (fixed zero _)) = true
  whole (number null) = true
  whole _ = false

  -- Operands of two types are refused, but for a date and a whole number on its right.
  pub compatible : Value R → Value R → Bool
  unfolding is_date whole
  compatible left right =
      (type_code (val_type right) == type_code (val_type left)) || (is_date left && whole right)

  operate : Env R → Stack R → BinaryOp → Value R → Value R → Result (Stack R)
  unfolding rel_values add_values raise or_logic and_logic
  operate E s or_op left right =
      pop_logic E s >>= λ p. pop_logic E p.1 >>= λ q. push_logic E q.1 (or_logic p.0 q.0)
  operate E s and_op left right =
      pop_logic E s >>= λ p. pop_logic E p.1 >>= λ q. push_logic E q.1 (and_logic p.0 q.0)
  operate E s (rel_op op) left right = rel_values E s op left right
  operate E s (add_op op) left right = add_values E s op left right
  operate E s (mul_op op) left right = pop_number E s >>= λ p.
      pop_number E p.1 >>= λ q. num_mul R q.0 p.0 op >>= λ n. push_number E q.1 n
  operate E s power_op left right =
      pop_number E s >>= λ p. pop_number E p.1 >>= λ q. raise E q.1 p.0 q.0
  operate E s unknown_op left right = err invalid_operator

  checked : Env R → Stack R → BinaryOp → Value R → Option (Value R) → Result (Stack R)
  unfolding operate
  checked E s op right none = err segfault
  checked E s op right (some left) =
      if compatible left right then operate E s op left right else err type_mismatch

  -- The operands are read before they are popped; a missing one is a null pointer.
  pub bop : Env R → Stack R → BinaryOp → Result (Stack R)
  unfolding checked
  bop E [] op = stack_peek E 1 [] >>= λ left. checked E [] op E.behind left
  bop E (right ∷ s) op = stack_peek E 1 (right ∷ s) >>= λ left. checked E (right ∷ s) op right left
