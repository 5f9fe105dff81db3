-- ===== src/Values/Stack/Laws.antt =====
-- What pushing and popping leave on the stack of values.
use db3w.Common.{
  ◌+◌, ◌≤◌, ◌≡◌, refl, inl, inr, Bool, ◌∷◌, Option, some, arith, ltb, Bool-cases, ◌==◌,
}
use db3w.Values.{
  Reals, Number, Value, ValueType, type_code, val_type, val_size, Result, ok, err, ◌>>=◌,
  number_typ, logic_typ, date_typ,
}
use db3w.Values.Stack.{
  Env, Stack, used, push, stack_chk_set, pop_stack, typechk, pop_logic, pop_number, pop_date,
  as_logic, as_number, as_date, pop_int, pop_real, push_real, same_type, integer_part, in_range,
  real_of,
}
use db3w.Common.Int.{ℤ}
use db3w.Common.Word.{to_int32}

module _ {R : Reals} where
  -- A result that leaves one value on `rest`, within the capacity; an error leaves nothing.
  abbrev pub Leaves : Env R → Stack R → Result (Stack R) → Type 0
  Leaves E rest (ok s) = (v : Value R) × (s ≡ v ∷ rest) × (used s ≤ E.capacity)
  Leaves E rest (err e) = Unit {0}

  pub push-Leaves : (E : Env R) (s : Stack R) (v : Value R) → Leaves E s (push E s v)
  unfolding push stack_chk_set used
  push-Leaves E s v = elim (Bool-cases (ltb E.capacity (used s + val_size v))) [
    | inl full ↦ rw full tt
    | inr room ↦ rw room (v, refl, ground arith)
  ]

  pub typed-Leaves {ℓ} :
      {A : Type ℓ} (E : Env R) (t : ValueType) (f : Value R → A) (v : Value R) (rest s : Stack R)
      (k : A × Stack R → Result (Stack R))
      → Leaves E rest (k (f v, s))
      → Leaves E rest (pop_stack E (some t) (v ∷ s) >>= (λ p. ok (f p.0, p.1)) >>= k)
  unfolding pop_stack typechk
  typed-Leaves E t f v rest s k h = elim (Bool-cases (type_code (val_type v) == type_code t)) [
    | inl same ↦ rw same h
    | inr differ ↦ rw differ tt
  ]

  pub pop_number-Leaves :
      (E : Env R) (v : Value R) (rest s : Stack R) (k : Number R × Stack R → Result (Stack R))
      → Leaves E rest (k (as_number v, s))
      → Leaves E rest (pop_number E (v ∷ s) >>= k)
  unfolding pop_number
  pop_number-Leaves E v rest s k h = typed-Leaves E number_typ as_number v rest s k h

  pub pop_logic-Leaves :
      (E : Env R) (v : Value R) (rest s : Stack R) (k : Option Bool × Stack R → Result (Stack R))
      → Leaves E rest (k (as_logic v, s))
      → Leaves E rest (pop_logic E (v ∷ s) >>= k)
  unfolding pop_logic
  pop_logic-Leaves E v rest s k h = typed-Leaves E logic_typ as_logic v rest s k h

  pub pop_date-Leaves :
      (E : Env R) (v : Value R) (rest s : Stack R) (k : Number R × Stack R → Result (Stack R))
      → Leaves E rest (k (as_date v, s))
      → Leaves E rest (pop_date E (v ∷ s) >>= k)
  unfolding pop_date
  pop_date-Leaves E v rest s k h = typed-Leaves E date_typ as_date v rest s k h

  pub bind-Leaves {ℓ} :
      {A : Type ℓ} (E : Env R) (rest : Stack R) (m : Result A) (k : A → Result (Stack R))
      → ((a : A) → Leaves E rest (k a))
      → Leaves E rest (m >>= k)
  bind-Leaves E rest (ok a) k h = h a
  bind-Leaves E rest (err e) k h = tt

  pub pop_stack-Leaves :
      (E : Env R) (t : ValueType) (v : Value R) (rest s : Stack R)
      (k : Value R × Stack R → Result (Stack R))
      → Leaves E rest (k (v, s))
      → Leaves E rest (pop_stack E (some t) (v ∷ s) >>= k)
  unfolding pop_stack typechk
  pop_stack-Leaves E t v rest s k h = elim (Bool-cases (type_code (val_type v) == type_code t)) [
    | inl same ↦ rw same h
    | inr differ ↦ rw differ tt
  ]

  pub chain-Leaves {ℓ κ} :
      {A : Type ℓ} {B : Type κ} (E : Env R) (rest : Stack R) (m : Result A) (f : A → Result B)
      (k : B → Result (Stack R))
      → ((a : A) → Leaves E rest (f a >>= k))
      → Leaves E rest (m >>= f >>= k)
  chain-Leaves E rest (ok a) f k h = h a
  chain-Leaves E rest (err e) f k h = tt

  pub pop_int-Leaves :
      (E : Env R) (low high : ℤ) (v : Value R) (rest s : Stack R)
      (k : ℤ × Stack R → Result (Stack R))
      → ((n : ℤ) → Leaves E rest (k (n, s)))
      → Leaves E rest (pop_int E low high (v ∷ s) >>= k)
  unfolding pop_int pop_number pop_stack typechk
  pop_int-Leaves E low high v rest s k h = elim (Bool-cases (same_type number_typ v)) [
    | inl same ↦ rw same (
        chain-Leaves E rest (integer_part (as_number v)) _ k
          (λ n. chain-Leaves E rest (in_range low high (to_int32 n)) _ k h))
    | inr differ ↦ rw differ tt
  ]

  pub pop_real-Leaves :
      (E : Env R) (v : Value R) (rest s : Stack R) (k : R.Real × Stack R → Result (Stack R))
      → ((r : R.Real) → Leaves E rest (k (r, s)))
      → Leaves E rest (pop_real E (v ∷ s) >>= k)
  unfolding pop_real pop_number pop_stack typechk
  pop_real-Leaves E v rest s k h = elim (Bool-cases (same_type number_typ v)) [
    | inl same ↦ rw same (chain-Leaves E rest (real_of (as_number v)) _ k h)
    | inr differ ↦ rw differ tt
  ]

  pub push_real-Leaves : (E : Env R) (s : Stack R) (r : R.Real) → Leaves E s (push_real E s r)
  unfolding push_real
  push_real-Leaves E s r = elim (Bool-cases (R.eq (R.of_long (R.to_long r)) r)) [
    | inl exact ↦ rw exact (push-Leaves E s _)
    | inr unequal ↦ rw unequal (push-Leaves E s _)
  ]
