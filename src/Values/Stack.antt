-- ===== src/Values/Stack.antt =====
-- server/hb/int.c: the stack of values. It grows down from `exp_stack` to `stack_limit`; the model keeps
-- the values in it, the top first, and counts their bytes.
pub mod Laws
use db3w.Common.{
  ℕ, zero, suc, ◌-◌, ◌+◌, ◌^◌, Bool, ◌&&◌, ◌||◌, not, List, [], ◌∷◌, Option, none, some, ltb, ◌==◌,
  if◌then◌else◌,
}
use db3w.Common.Int.{ℤ, pos, ltb_ℤ, leb_ℤ, neg_ℤ}
use db3w.Common.Word.{wrap64, to_int32}
use db3w.Values.Arith.{power10}
use db3w.Values.{
  Reals, Number, null, real, fixed, Value, ValueType, logic_typ, number_typ, date_typ, type_code,
  val_type, val_size, logic, number, date, charctr, Result, ok, err, ◌>>=◌, invalid_value,
  invalid_type, invalid_operator, stack_overflow, stack_underflow, stack_fault, overread,
}

-- `capacity` is the distance of `exp_stack` and `stack_limit`; `behind` is what the bytes behind the stack
-- read as; the flags are `restricted` and two of `onoff_flags`.
pub record Env (R : Reals) : Type 0 where
  pub capacity : ℕ
  pub behind : Value R
  pub restricted : Bool
  pub null_on : Bool
  pub exact_on : Bool

abbrev pub Stack : Reals → Type 0
Stack R = List (Value R)

in_range : ℤ → ℤ → ℤ → Result ℤ
in_range low high i =
    if ltb_ℤ i low || leb_ℤ (pos 0) high && ltb_ℤ high i then err invalid_value else ok i

abbrev pub not_logic : Option Bool → Option Bool
not_logic none = none
not_logic (some b) = some (not b)

module _ {R : Reals} where
  unfoldable pub used : Stack R → ℕ
  used [] = 0
  used (v ∷ s) = val_size v + used s

  pub top : Env R → Stack R → Value R
  top E [] = E.behind
  top E (v ∷ s) = v

  -- `typechk`.
  abbrev same_type : ValueType → Value R → Bool
  same_type t v = type_code (val_type v) == type_code t

  unfoldable pub typechk : Env R → ValueType → Stack R → Result (Unit {0})
  unfolding top
  typechk E t s = if same_type t (top E s) then ok tt else err invalid_type

  unfoldable pub stack_chk_set : Env R → Stack R → ℕ → Result (Unit {0})
  stack_chk_set E s size = if ltb E.capacity (used s + size) then err stack_overflow else ok tt

  unfoldable pub push : Env R → Stack R → Value R → Result (Stack R)
  unfolding stack_chk_set
  push E s v = stack_chk_set E s (val_size v) >>= λ _. ok (v ∷ s)

  -- The value at `level` below the top, or the null pointer.
  unfoldable pub stack_peek : Env R → ℕ → Stack R → Result (Option (Value R))
  stack_peek E zero [] = ok none
  stack_peek E zero (v ∷ s) = ok (some v)
  stack_peek E (suc level) [] = if E.restricted then ok none else err stack_fault
  stack_peek E (suc level) (v ∷ s) = stack_peek E level s

  pub take_top : Stack R → Result (Value R × Stack R)
  take_top [] = err stack_underflow
  take_top (v ∷ s) = ok (v, s)

  -- `none` is DONTCARE.
  unfoldable pub pop_stack : Env R → Option ValueType → Stack R → Result (Value R × Stack R)
  unfolding take_top
  pop_stack E none s = take_top s
  pop_stack E (some t) s = typechk E t s >>= λ _. take_top s

  abbrev pub as_logic : Value R → Option Bool
  as_logic (logic b) = b
  as_logic _ = none

  abbrev pub as_number : Value R → Number R
  as_number (number n) = n
  as_number _ = null

  -- A date as a number of days.
  abbrev pub days : Option ℕ → Number R
  days none = null
  days (some d) = fixed 0 (pos d)

  abbrev pub as_date : Value R → Number R
  as_date (date d) = days d
  as_date _ = null

  unfoldable pub pop_logic : Env R → Stack R → Result (Option Bool × Stack R)
  pop_logic E s = pop_stack E (some logic_typ) s >>= λ p. ok (as_logic p.0, p.1)

  unfoldable pub pop_number : Env R → Stack R → Result (Number R × Stack R)
  pop_number E s = pop_stack E (some number_typ) s >>= λ p. ok (as_number p.0, p.1)

  unfoldable pub pop_date : Env R → Stack R → Result (Number R × Stack R)
  pop_date E s = pop_stack E (some date_typ) s >>= λ p. ok (as_date p.0, p.1)

  integer_part : Number R → Result ℤ
  integer_part (fixed zero n) = ok n
  integer_part _ = err invalid_value

  unfoldable pub pop_long : Env R → Stack R → Result (ℤ × Stack R)
  unfolding integer_part
  pop_long E s = pop_number E s >>= λ p. integer_part p.0 >>= λ n. ok (n, p.1)

  -- A null number is read behind its two bytes.
  pub real_of : Number R → Result R.Real
  real_of null = err overread
  real_of (real r) = ok r
  real_of (fixed d n) = ok (R.div (R.of_long n) (R.of_long (power10 d)))

  unfoldable pub pop_real : Env R → Stack R → Result (R.Real × Stack R)
  unfolding real_of
  pop_real E s = pop_number E s >>= λ p. real_of p.0 >>= λ r. ok (r, p.1)

  -- The number is cut to an `int` before it is tested; a negative `high` stands for no bound.
  unfoldable pub pop_int : Env R → ℤ → ℤ → Stack R → Result (ℤ × Stack R)
  unfolding integer_part in_range
  pop_int E low high s = pop_number E s >>= λ p.
      integer_part p.0 >>= λ n. in_range low high (to_int32 n) >>= λ i. ok (i, p.1)

  unfoldable pub push_logic : Env R → Stack R → Option Bool → Result (Stack R)
  push_logic E s b = push E s (logic b)

  unfoldable pub push_number : Env R → Stack R → Number R → Result (Stack R)
  push_number E s n = push E s (number n)

  unfoldable pub push_int : Env R → Stack R → ℤ → Result (Stack R)
  push_int E s n = push E s (number (fixed 0 n))

  unfoldable pub push_string : Env R → Stack R → List ℕ → Result (Stack R)
  push_string E s text = push E s (charctr text)

  -- (date_t)-1 is the null date.
  unfoldable pub push_date : Env R → Stack R → ℕ → Result (Stack R)
  push_date E s d = push E s (date (if d == 2 ^ 32 - 1 then none else some d))

  -- A whole number below the range of `long` is pushed as an integer: `(double)(long)r == r`.
  unfoldable pub push_real : Env R → Stack R → R.Real → Result (Stack R)
  push_real E s r =
      if R.eq (R.of_long (R.to_long r)) r
      then push E s (number (fixed 0 (R.to_long r)))
      else push E s (number (real r))

  abbrev negated : Number R → Number R
  negated null = null
  negated (real r) = real (R.neg r)
  negated (fixed d n) = fixed d (wrap64 (neg_ℤ n))

pub data UnaryOp : Type 0 where
  not_op minus_op plus_op other_op : UnaryOp

module _ {R : Reals} where
  pub uop : Env R → Stack R → UnaryOp → Result (Stack R)
  unfolding pop_logic pop_number push_logic push_number
  uop E s not_op = pop_logic E s >>= λ p. push_logic E p.1 (not_logic p.0)
  uop E s minus_op = pop_number E s >>= λ p. push_number E p.1 (negated p.0)
  uop E s plus_op = typechk E number_typ s >>= λ _. ok s
  uop E s other_op = err invalid_operator
