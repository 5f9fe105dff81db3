-- ===== src/Functions/Calls/Leave.antt =====
-- server/hb/fcn.c: a function on texts that is given its operands leaves one value in their place.
use db3w.Common.{
  ℕ, ◌≤◌, refl, length-map, Bool, true, false, List, [], ◌∷◌, Option, none, some, arith,
}
use db3w.Common.Int.{ℤ, pos, pos_part}
use db3w.Values.{
  Reals, Value, nothing, logic, number, date, charctr, other, addr, array, memo, blob, val_size,
  charctr_typ, Result, ok, err, ◌>>=◌, max_str_len,
}
use db3w.Values.Stack.{Env, Stack, used, push_int, push_string, push_logic, pop_int, typechk}
use db3w.Values.Stack.Laws.{Leaves, push-Leaves, typed-Leaves, pop_int-Leaves, bind-Leaves}
use db3w.Values.Bop.{text_of}
use db3w.Functions.Text.{PadMode, to_upper, to_lower}
use db3w.Functions.Calls.{
  Side, pop_text, pop_len, pop_place, push_read, pop_limit, substr, left, right, push_stuffed,
  stuff, replicate, space, trim, at, occurs, len, push_first, asc, chr, changed_top, upr_lwr, pad,
  proper, soundex, test_first,
}

module _ {R : Reals} (E : Env R) where
  pub pop_text-Leaves :
      (v : Value R) (rest s : Stack R) (k : List ℕ × Stack R → Result (Stack R))
      → Leaves E rest (k (text_of v, s))
      → Leaves E rest (pop_text E (v ∷ s) >>= k)
  pop_text-Leaves v rest s k h = typed-Leaves E charctr_typ text_of v rest s k h

  pub push_int-Leaves : (s : Stack R) (n : ℤ) → Leaves E s (push_int E s n)
  unfolding push_int
  push_int-Leaves s n = push-Leaves E s _

  pub push_string-Leaves : (s : Stack R) (t : List ℕ) → Leaves E s (push_string E s t)
  unfolding push_string
  push_string-Leaves s t = push-Leaves E s _

  pub map-Leaves {ℓ κ} :
      {A : Type ℓ} {B : Type κ} (rest : Stack R) (m : Result A) (f : A → B)
      (k : B → Result (Stack R))
      → Leaves E rest (m >>= λ a. k (f a))
      → Leaves E rest (m >>= (λ a. ok (f a)) >>= k)
  map-Leaves rest (ok a) f k h = h
  map-Leaves rest (err e) f k h = tt

  pub range-Leaves {κ} :
      {B : Type κ} (low high : ℤ) (f : ℤ → B) (v : Value R) (rest s : Stack R)
      (k : B × Stack R → Result (Stack R))
      → ((b : B) → Leaves E rest (k (b, s)))
      → Leaves E rest (pop_int E low high (v ∷ s) >>= (λ p. ok (f p.0, p.1)) >>= k)
  range-Leaves low high f v rest s k h =
      map-Leaves rest (pop_int E low high (v ∷ s)) (λ p. (f p.0, p.1)) k
        (pop_int-Leaves E low high v rest s _ (λ n. h (f n)))

  pop_len-Leaves :
      (v : Value R) (rest s : Stack R) (k : ℕ × Stack R → Result (Stack R))
      → ((n : ℕ) → Leaves E rest (k (n, s)))
      → Leaves E rest (pop_len E (v ∷ s) >>= k)
  pop_len-Leaves v rest s k h = range-Leaves (pos 0) (pos max_str_len) pos_part v rest s k h

  pop_place-Leaves :
      (v : Value R) (rest s : Stack R) (k : ℕ × Stack R → Result (Stack R))
      → ((n : ℕ) → Leaves E rest (k (n, s)))
      → Leaves E rest (pop_place E (v ∷ s) >>= k)
  pop_place-Leaves v rest s k h = range-Leaves (pos 1) (pos max_str_len) pos_part v rest s k h

  -- A function of a text and a length.
  two-Leaves :
      (f : ℕ → List ℕ → List ℕ) (l v : Value R) (s : Stack R)
      → Leaves E s
          (pop_len E (l ∷ v ∷ s) >>= λ l. pop_text E l.1 >>= λ v. push_string E v.1 (f l.0 v.0))
  two-Leaves f l v s =
      pop_len-Leaves l s (v ∷ s) _ (λ n. pop_text-Leaves v s s _ (push_string-Leaves s _))

  pub left-Leaves : (l v : Value R) (s : Stack R) → Leaves E s (left E (l ∷ v ∷ s))
  unfolding left
  left-Leaves l v s = two-Leaves _ l v s

  pub right-Leaves : (l v : Value R) (s : Stack R) → Leaves E s (right E (l ∷ v ∷ s))
  unfolding right
  right-Leaves l v s = two-Leaves _ l v s

  pub replicate-Leaves : (l v : Value R) (s : Stack R) → Leaves E s (replicate E (l ∷ v ∷ s))
  unfolding replicate
  replicate-Leaves l v s = two-Leaves _ l v s

  pub space-Leaves : (l : Value R) (s : Stack R) → Leaves E s (space E (l ∷ s))
  unfolding space
  space-Leaves l s = pop_len-Leaves l s s _ (λ n. push_string-Leaves s _)

  pub substr-Leaves : (p v : Value R) (s : Stack R) → Leaves E s (substr E 2 (p ∷ v ∷ s))
  unfolding substr pop_limit
  substr-Leaves p v s =
      pop_place-Leaves p s (v ∷ s) _ (λ n. pop_text-Leaves v s s _ (push_string-Leaves s _))

  pub substr_limit-Leaves :
      (l p v : Value R) (s : Stack R) → Leaves E s (substr E 3 (l ∷ p ∷ v ∷ s))
  unfolding substr pop_limit
  substr_limit-Leaves l p v s =
      map-Leaves s (pop_len E (l ∷ p ∷ v ∷ s)) (λ q. (some q.0, q.1)) _
        (pop_len-Leaves l s (p ∷ v ∷ s) _ (λ m.
          pop_place-Leaves p s (v ∷ s) _ (λ n. pop_text-Leaves v s s _ (push_string-Leaves s _))))

  stuffed-Leaves : (s : Stack R) (t : Option (List ℕ)) → Leaves E s (push_stuffed E s t)
  unfolding push_stuffed
  stuffed-Leaves s none = tt
  stuffed-Leaves s (some t) = push_string-Leaves s t

  pub stuff-Leaves : (w l p v : Value R) (s : Stack R) → Leaves E s (stuff E (w ∷ l ∷ p ∷ v ∷ s))
  unfolding stuff
  stuff-Leaves w l p v s = pop_text-Leaves w s (l ∷ p ∷ v ∷ s) _ (
      pop_len-Leaves l s (p ∷ v ∷ s) _
        (λ m. pop_place-Leaves p s (v ∷ s) _ (λ n. pop_text-Leaves v s s _ (stuffed-Leaves s _))))

  read-Leaves : (s : Stack R) (t : Option (List ℕ)) → Leaves E s (push_read E s t)
  read-Leaves s none = tt
  read-Leaves s (some t) = push_string-Leaves s t

  pub trim-Leaves : (dir : Side) (v : Value R) (s : Stack R) → Leaves E s (trim E dir (v ∷ s))
  unfolding trim
  trim-Leaves dir v s = pop_text-Leaves v s s _ (read-Leaves s _)

  pub at-Leaves : (w v : Value R) (s : Stack R) → Leaves E s (at E (w ∷ v ∷ s))
  unfolding at
  at-Leaves w v s = pop_text-Leaves w s (v ∷ s) _ (pop_text-Leaves v s s _ (push_int-Leaves s _))

  pub occurs-Leaves : (w v : Value R) (s : Stack R) → Leaves E s (occurs E (w ∷ v ∷ s))
  unfolding occurs
  occurs-Leaves w v s =
      pop_text-Leaves w s (v ∷ s) _ (pop_text-Leaves v s s _ (push_int-Leaves s _))

  first-Leaves : (s : Stack R) (t : List ℕ) → Leaves E s (push_first E s t)
  unfolding push_first
  first-Leaves s [] = tt
  first-Leaves s (c ∷ t) = push_int-Leaves s _

  pub asc-Leaves : (v : Value R) (s : Stack R) → Leaves E s (asc E (v ∷ s))
  unfolding asc
  asc-Leaves v s = pop_text-Leaves v s s _ (first-Leaves s _)

  pub chr-Leaves : (v : Value R) (s : Stack R) → Leaves E s (chr E (v ∷ s))
  unfolding chr
  chr-Leaves v s = pop_int-Leaves E (pos 0) (pos 255) v s s _ (λ n. push_string-Leaves s _)

  pub pad-Leaves :
      (mode : PadMode) (w l v : Value R) (s : Stack R) → Leaves E s (pad E mode (w ∷ l ∷ v ∷ s))
  unfolding pad
  pad-Leaves mode w l v s = pop_text-Leaves w s (l ∷ v ∷ s) _ (
      pop_place-Leaves l s (v ∷ s) _
        (λ n. pop_text-Leaves v s s _ (bind-Leaves E s _ _ (λ t. push_string-Leaves s t))))

  pub proper-Leaves : (v : Value R) (s : Stack R) → Leaves E s (proper E (v ∷ s))
  unfolding proper
  proper-Leaves v s = pop_text-Leaves v s s _ (push-Leaves E s _)

  pub soundex-Leaves : (v : Value R) (s : Stack R) → Leaves E s (soundex E (v ∷ s))
  unfolding soundex
  soundex-Leaves v s = pop_text-Leaves v s s _ (push_string-Leaves s _)

  pub test_first-Leaves :
      (test : ℕ → Bool) (v : Value R) (s : Stack R) → Leaves E s (test_first E test (v ∷ s))
  unfolding test_first push_logic
  test_first-Leaves test v s = pop_text-Leaves v s s _ (push-Leaves E s _)

  pub len-Leaves : (v : Value R) (s : Stack R) → Leaves E s (len E (v ∷ s))
  unfolding len
  len-Leaves v s = pop_text-Leaves v s s _ (push_int-Leaves s _)

  -- The text keeps its length, so the stack does not grow.
  pub upr_lwr-Leaves :
      (up : Bool) (v : Value R) (s : Stack R)
      → used (v ∷ s) ≤ E.capacity
      → Leaves E s (upr_lwr E up (v ∷ s))
  unfolding upr_lwr typechk changed_top used val_size
  upr_lwr-Leaves up nothing s h = tt
  upr_lwr-Leaves up (logic b) s h = tt
  upr_lwr-Leaves up (number n) s h = tt
  upr_lwr-Leaves up (date d) s h = tt
  upr_lwr-Leaves up (other addr t) s h = tt
  upr_lwr-Leaves up (other array t) s h = tt
  upr_lwr-Leaves up (other memo t) s h = tt
  upr_lwr-Leaves up (other blob t) s h = tt
  upr_lwr-Leaves true (charctr t) s h = (_, refl, omega (arith, h, length-map to_upper t))
  upr_lwr-Leaves false (charctr t) s h = (_, refl, omega (arith, h, length-map to_lower t))
