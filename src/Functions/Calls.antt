-- ===== src/Functions/Calls.antt =====
-- server/hb/fcn.c: the functions of the language on texts, over the stack of values. Each pops its
-- operands, the last one first, and pushes its result.
pub mod Leave
use db3w.Common.{
  ℕ, ◌+◌, ◌-◌, Bool, true, false, List, [], ◌∷◌, map, Option, none, some, ◌==◌, if◌then◌else◌,
}
use db3w.Common.Int.{pos, negsuc, pos_part}
use db3w.Values.{
  Reals, Value, charctr, Result, ok, err, ◌>>=◌, charctr_typ, max_str_len, str_toolong, overread,
}
use db3w.Values.Stack.{
  Env, Stack, pop_stack, pop_int, push_int, push_string, push_logic, typechk, push,
}
use db3w.Values.Bop.{text_of}
use db3w.Functions.Text.{
  blank, piece, first_part, last_part, stuffed, copies, blanks, from_nonblank, to_nonblank,
  place_of, times_in, PadMode, padded, proper_from, sound_code, counted_len, is_lower, is_upper,
  is_digit, is_alpha, to_upper, to_lower,
}

-- The direction of `trim`.
pub data Side : Type 0 where
  in_front behind_it : Side

pub trimmed : Side → List ℕ → Option (List ℕ)
trimmed in_front v = from_nonblank v
trimmed behind_it v = to_nonblank v

-- A test of the first byte; an empty text fails it.
pub first_is : (ℕ → Bool) → List ℕ → Bool
first_is test [] = false
first_is test (c ∷ v) = test c

abbrev pub changed_case : Bool → List ℕ → List ℕ
changed_case true v = map to_upper v
changed_case false v = map to_lower v

module _ {R : Reals} where
  abbrev pub pop_text : Env R → Stack R → Result (List ℕ × Stack R)
  pop_text E s = pop_stack E (some charctr_typ) s >>= λ p. ok (text_of p.0, p.1)

  -- A length, and a place that the language counts from 1.
  abbrev pub pop_len : Env R → Stack R → Result (ℕ × Stack R)
  pop_len E s = pop_int E (pos 0) (pos max_str_len) s >>= λ p. ok (pos_part p.0, p.1)

  abbrev pub pop_place : Env R → Stack R → Result (ℕ × Stack R)
  pop_place E s = pop_int E (pos 1) (pos max_str_len) s >>= λ p. ok (pos_part p.0, p.1)

  -- A text that the source computes, or an error.
  abbrev pub push_read : Env R → Stack R → Option (List ℕ) → Result (Stack R)
  push_read E s none = err overread
  push_read E s (some t) = push_string E s t

  -- The length, if there are three operands.
  pub pop_limit : Env R → ℕ → Stack R → Result (Option ℕ × Stack R)
  pop_limit E parm_cnt s =
      if parm_cnt == 3 then (pop_len E s >>= λ p. ok (some p.0, p.1)) else ok (none, s)

  pub substr : Env R → ℕ → Stack R → Result (Stack R)
  unfolding pop_limit
  substr E parm_cnt s = pop_limit E parm_cnt s >>= λ l.
      pop_place E l.1 >>= λ p. pop_text E p.1 >>= λ v. push_string E v.1 (piece v.0 (p.0 - 1) l.0)

  pub left : Env R → Stack R → Result (Stack R)
  left E s = pop_len E s >>= λ l. pop_text E l.1 >>= λ v. push_string E v.1 (first_part l.0 v.0)

  unfoldable pub right : Env R → Stack R → Result (Stack R)
  right E s = pop_len E s >>= λ l. pop_text E l.1 >>= λ v. push_string E v.1 (last_part l.0 v.0)

  push_stuffed : Env R → Stack R → Option (List ℕ) → Result (Stack R)
  push_stuffed E s none = err str_toolong
  push_stuffed E s (some t) = push_string E s t

  pub stuff : Env R → Stack R → Result (Stack R)
  unfolding push_stuffed
  stuff E s = pop_text E s >>= λ w. pop_len E w.1 >>= λ l. pop_place E l.1 >>= λ p.
      pop_text E p.1 >>= λ v. push_stuffed E v.1 (stuffed v.0 (p.0 - 1) l.0 w.0)

  pub replicate : Env R → Stack R → Result (Stack R)
  replicate E s = pop_len E s >>= λ l. pop_text E l.1 >>= λ v. push_string E v.1 (copies l.0 v.0 [])

  pub space : Env R → Stack R → Result (Stack R)
  space E s = pop_len E s >>= λ l. push_string E l.1 (blanks l.0)

  pub trim : Env R → Side → Stack R → Result (Stack R)
  unfolding trimmed
  trim E dir s = pop_text E s >>= λ v. push_read E v.1 (trimmed dir v.0)

  unfoldable pub ltrim : Env R → Stack R → Result (Stack R)
  unfolding trim
  ltrim E s = trim E in_front s

  unfoldable pub rtrim : Env R → Stack R → Result (Stack R)
  unfolding trim
  rtrim E s = trim E behind_it s

  pub at : Env R → Stack R → Result (Stack R)
  at E s = pop_text E s >>= λ v. pop_text E v.1 >>= λ w. push_int E w.1 (pos (place_of w.0 v.0))

  pub occurs : Env R → Stack R → Result (Stack R)
  occurs E s = pop_text E s >>= λ v. pop_text E v.1 >>= λ w. push_int E w.1 (pos (times_in w.0 v.0))

  pub len : Env R → Stack R → Result (Stack R)
  len E s = pop_text E s >>= λ v. push_int E v.1 (pos (counted_len v.0))

  -- The first byte of an empty text is the one behind it.
  push_first : Env R → Stack R → List ℕ → Result (Stack R)
  push_first E s [] = err overread
  push_first E s (c ∷ v) = push_int E s (pos c)

  pub asc : Env R → Stack R → Result (Stack R)
  unfolding push_first
  asc E s = pop_text E s >>= λ v. push_first E v.1 v.0

  pub chr : Env R → Stack R → Result (Stack R)
  chr E s = pop_int E (pos 0) (pos 255) s >>= λ c. push_string E c.1 (pos_part c.0 ∷ [])

  -- In place, on the top; on an empty stack that is the bytes behind it.
  changed_top : Bool → Stack R → Result (Stack R)
  changed_top up [] = err overread
  changed_top up (v ∷ s) = ok (charctr (changed_case up (text_of v)) ∷ s)

  pub upr_lwr : Env R → Bool → Stack R → Result (Stack R)
  unfolding changed_top
  upr_lwr E up s = typechk E charctr_typ s >>= λ _. changed_top up s

  unfoldable pub lower : Env R → Stack R → Result (Stack R)
  unfolding upr_lwr
  lower E s = upr_lwr E false s

  unfoldable pub upper : Env R → Stack R → Result (Stack R)
  unfolding upr_lwr
  upper E s = upr_lwr E true s

  pub pad : Env R → PadMode → Stack R → Result (Stack R)
  pad E mode s = pop_text E s >>= λ w. pop_place E w.1 >>= λ l.
      pop_text E l.1 >>= λ v. padded mode v.0 l.0 w.0 >>= λ t. push_string E v.1 t

  pub proper : Env R → Stack R → Result (Stack R)
  proper E s = pop_text E s >>= λ v. push E v.1 (charctr (proper_from blank v.0))

  pub soundex : Env R → Stack R → Result (Stack R)
  soundex E s = pop_text E s >>= λ v. push_string E v.1 (sound_code v.0)

  pub test_first : Env R → (ℕ → Bool) → Stack R → Result (Stack R)
  unfolding first_is
  test_first E test s = pop_text E s >>= λ v. push_logic E v.1 (some (first_is test v.0))
