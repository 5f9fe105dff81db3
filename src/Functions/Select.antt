-- ===== src/Functions/Select.antt =====
-- server/hb/fcn.c: the functions that choose between their operands, and `int` and `abs`.
pub mod Leave
pub mod Exact
use db3w.Common.{
  ℕ, zero, ◌-◌, Bool, true, false, ◌&&◌, ◌||◌, not, List, [], ◌∷◌, Option, none, some, leb, ◌==◌,
  if◌then◌else◌, length,
}
use db3w.Common.Int.{ℤ, pos, sub_ℕ, pos_part, neg_part, leb_ℤ}
use db3w.Values.{
  Reals, Number, null, real, fixed, Value, nothing, logic, number, date, charctr, other, val_type,
  type_code, Result, ok, err, ◌>>=◌, invalid_value, invalid_type, type_mismatch,
}
use db3w.Values.Arith.{num_rel, greater, less, gtrequ}
use db3w.Values.Stack.{
  Env, Stack, pop_stack, pop_logic, pop_number, pop_real, push_int, push_logic, push_real, push,
}
use db3w.Values.Bop.{text_of, first_diff}

-- C's test of an `int`.
pub is_true : ℤ → Bool
is_true n = not (pos_part n == 0) || not (neg_part n == 0)

-- `gte` of `minmax` for two texts. Under SET EXACT ON the lengths are subtracted in the other order.
pub text_gte : Bool → List ℕ → List ℕ → Bool
text_gte exact [] _ = false
text_gte exact (_ ∷ _) [] = true
text_gte exact (a ∷ v) (b ∷ w) =
    let i = first_diff (a ∷ v) (b ∷ w) in
    if not (is_true i) && exact
    then leb_ℤ (pos 0) (sub_ℕ (length (b ∷ w)) (length (a ∷ v)))
    else leb_ℤ (pos 0) i

pub date_gte : Option ℕ → Option ℕ → Result Bool
date_gte none _ = err invalid_value
date_gte (some d) none = err invalid_value
date_gte (some d) (some e) = ok (leb e d)

pub logic_gte : Option Bool → Option Bool → Result Bool
logic_gte none _ = err invalid_value
logic_gte (some b) none = err invalid_value
logic_gte (some b) (some c) = ok b

module _ {R : Reals} where
  pub number_gte : Number R → Number R → Result Bool
  unfolding is_true
  number_gte null _ = err invalid_value
  number_gte (real _) null = err invalid_value
  number_gte (fixed _ _) null = err invalid_value
  number_gte x y = ok (is_true (num_rel R x y gtrequ))

  -- `gte`, for two values of one type.
  pub value_gte : Env R → Value R → Value R → Result Bool
  unfolding text_gte number_gte date_gte logic_gte
  value_gte E (date d) (date e) = date_gte d e
  value_gte E (number x) (number y) = number_gte x y
  value_gte E (charctr v) (charctr w) = ok (text_gte E.exact_on v w)
  value_gte E (logic b) (logic c) = logic_gte b c
  value_gte E _ _ = err invalid_type

  pub chosen : Bool → Bool → Value R → Value R → Value R
  chosen ismin gte v1 v2 = if gte then (if ismin then v2 else v1) else (if ismin then v1 else v2)

  pub minmax : Env R → Bool → Stack R → Result (Stack R)
  unfolding value_gte chosen
  minmax E ismin s = pop_stack E none s >>= λ p. pop_stack E none p.1 >>= λ q.
      if type_code (val_type q.0) == type_code (val_type p.0)
      then (value_gte E q.0 p.0 >>= λ gte. push E q.1 (chosen ismin gte q.0 p.0))
      else err type_mismatch

  unfoldable pub mmax : Env R → Stack R → Result (Stack R)
  unfolding minmax
  mmax E s = minmax E false s

  unfoldable pub mmin : Env R → Stack R → Result (Stack R)
  unfolding minmax
  mmin E s = minmax E true s

  -- A null condition is an error.
  pub picked : Option Bool → Value R → Value R → Result (Value R)
  picked none v2 v1 = err invalid_value
  picked (some tf) v2 v1 = ok (if tf then v2 else v1)

  pub iif : Env R → Stack R → Result (Stack R)
  unfolding picked
  iif E s = pop_stack E none s >>= λ v1. pop_stack E none v1.1 >>= λ v2.
      pop_logic E v2.1 >>= λ tf. picked tf.0 v2.0 v1.0 >>= λ v. push E tf.1 v

  pub between : Env R → Stack R → Result (Stack R)
  unfolding is_true
  between E s = pop_number E s >>= λ z. pop_number E z.1 >>= λ y. pop_number E y.1 >>= λ x.
      push_logic E x.1
        (some (is_true (num_rel R x.0 y.0 greater) && is_true (num_rel R x.0 z.0 less)))

  pub int_ : Env R → Stack R → Result (Stack R)
  int_ E s = pop_real E s >>= λ r. push_int E r.1 (R.to_long r.0)

  pub abs_ : Env R → Stack R → Result (Stack R)
  abs_ E s = pop_real E s >>= λ r. push_real E r.1 (R.fabs r.0)
