-- ===== src/Functions/Calendar/Leave.antt =====
-- server/hb/fcn.c: a function on dates leaves one value in the place of its operand.
use db3w.Common.{ℕ, inl, inr, ◌∷◌, ◌==◌, Bool-cases}
use db3w.Common.Int.{pos, negsuc}
use db3w.Values.{Reals, Value, date_typ, Result, ◌>>=◌, type_code, val_type}
use db3w.Values.Stack.{Env, Stack, pop_stack, typechk}
use db3w.Values.Stack.Laws.{Leaves, pop_int-Leaves, chain-Leaves, bind-Leaves}
use db3w.Functions.Calendar.{
  date_of, mdy_read, pop_day, in_bounds, d_to_mdy, day, month, year, cdow, cmonth, dow, ttoc,
}
use db3w.Functions.Calls.Leave.{push_int-Leaves, push_string-Leaves}
use db3w.Dates.{Mdy}

module _ {R : Reals} (E : Env R) where
  pop_day-Leaves :
      (v : Value R) (rest s : Stack R) (k : ℕ × Stack R → Result (Stack R))
      → ((d : ℕ) → Leaves E rest (k (d, s)))
      → Leaves E rest (pop_day E (v ∷ s) >>= k)
  unfolding pop_stack typechk
  pop_day-Leaves v rest s k h = elim (Bool-cases (type_code (val_type v) == type_code date_typ)) [
    | inl same ↦ rw same (chain-Leaves E rest (in_bounds (date_of v)) _ k h)
    | inr differ ↦ rw differ tt
  ]

  mdy-Leaves :
      (v : Value R) (rest s : Stack R) (k : Mdy × Stack R → Result (Stack R))
      → ((t : Mdy) → Leaves E rest (k (t, s)))
      → Leaves E rest (d_to_mdy E (v ∷ s) >>= k)
  unfolding d_to_mdy pop_stack typechk
  mdy-Leaves v rest s k h = elim (Bool-cases (type_code (val_type v) == type_code date_typ)) [
    | inl same ↦ rw same (chain-Leaves E rest (in_bounds (mdy_read (date_of v))) _ k h)
    | inr differ ↦ rw differ tt
  ]

  pub day-Leaves : (v : Value R) (s : Stack R) → Leaves E s (day E (v ∷ s))
  unfolding day
  day-Leaves v s = mdy-Leaves v s s _ (λ t. push_int-Leaves E s _)

  pub month-Leaves : (v : Value R) (s : Stack R) → Leaves E s (month E (v ∷ s))
  unfolding month
  month-Leaves v s = mdy-Leaves v s s _ (λ t. push_int-Leaves E s _)

  pub year-Leaves : (v : Value R) (s : Stack R) → Leaves E s (year E (v ∷ s))
  unfolding year
  year-Leaves v s = mdy-Leaves v s s _ (λ t. push_int-Leaves E s _)

  pub cmonth-Leaves : (v : Value R) (s : Stack R) → Leaves E s (cmonth E (v ∷ s))
  unfolding cmonth
  cmonth-Leaves v s = mdy-Leaves v s s _ (λ t. bind-Leaves E s _ _ (push_string-Leaves E s))

  pub cdow-Leaves : (v : Value R) (s : Stack R) → Leaves E s (cdow E (v ∷ s))
  unfolding cdow
  cdow-Leaves v s = pop_day-Leaves v s s _ (λ d. bind-Leaves E s _ _ (push_string-Leaves E s))

  pub dow-Leaves : (v : Value R) (s : Stack R) → Leaves E s (dow E (v ∷ s))
  unfolding dow
  dow-Leaves v s = pop_day-Leaves v s s _ (λ d. push_int-Leaves E s _)

  pub ttoc-Leaves : (v : Value R) (s : Stack R) → Leaves E s (ttoc E (v ∷ s))
  unfolding ttoc
  ttoc-Leaves v s = pop_int-Leaves E (pos 0) (negsuc 0) v s s _ (λ n. push_string-Leaves E s _)
