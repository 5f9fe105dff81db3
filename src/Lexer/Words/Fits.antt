-- ===== src/Lexer/Words/Fits.antt =====
-- server/hb/lex.c: the lengths of names, numbers and operators within a word.
use db3w.Common.{
  ℕ, suc, ◌+◌, ◌≤◌, ◌≡◌, inl, inr, Bool, true, false, ◌&&◌, ◌||◌, Option, none, some, List, [], ◌∷◌,
  length, drop, arith, ◌==◌, ltb,
}
use db3w.Functions.Text.{is_alpha, is_digit, is_lower, is_upper}
use db3w.Functions.Text.Pieces.{length-drop}
use db3w.Lexer.{Tok, Lexed, ok, err, peek, name, name_len, starts_name, vnamelen, ill_symbol}
use db3w.Lexer.Words.{
  digits_len, sign_len, exponent_len, is_logical, is_and, is_or, is_not, dotted, two_bytes,
  one_byte, operator_token, number_token, name_token, word_token_at,
}
use db3w.Lexer.InLine.{Post, bind-Post, peek_in}
use db3w.Lexer.InLine.Names.{Takes, Short, name_len_fits}
use db3w.Lexer.InLine.Marks.{if_elim}

-- A token of a word takes a byte at least.
abbrev pub TakesSome : List ℕ → Tok × ℕ → Type 0
TakesSome v r = (1 ≤ r.1) × (r.1 ≤ length v)

digits_in : (v : List ℕ) → digits_len v ≤ length v
unfolding digits_len
digits_in [] = omega arith
digits_in (c ∷ v) =
    if_elim (λ n. n ≤ suc (length v)) (is_digit c) _ _ (λ h. omega (arith, digits_in v))
      (λ h. omega arith)

digit_in : (k : ℕ) (v : List ℕ) → is_digit (peek (drop k v)) ≡ true → suc k ≤ length v
unfolding is_digit
digit_in k v h = elim (peek_in k v) [ inl z ↦ absurd (no_digit (peek (drop k v)) z h) | inr l ↦ l ]
  where
    no_digit : (c : ℕ) → c ≡ 0 → is_digit c ≡ true → ⊥
    no_digit c z h = ground arith

start_in : (v : List ℕ) → starts_name (peek v) ≡ true → 1 ≤ length v
unfolding starts_name is_alpha is_lower is_upper
start_in [] h = absurd (ground arith)
start_in (c ∷ v) h = omega arith

exponent_fits : (B : Type 0) (v : List ℕ) → Post (λ n. n ≤ length v) B (exponent_len v)
unfolding exponent_len
exponent_fits B v =
    let n = 1 + sign_len (drop 1 v) in
    let P = Post (λ n. n ≤ length v) B in
    if_elim P ((peek v == b'e') || (peek v == b'E')) _ _
      (λ h.
        if_elim P (is_digit (peek (drop n v))) _ _
          (λ k. omega (arith, digit_in n v k, digits_in (drop n v), length-drop n v)) (λ k. tt))
      (λ h. omega arith)

nonnull : (k c : ℕ) (v : List ℕ) → (peek (drop k v) == suc c) ≡ true → suc k ≤ length v
nonnull k c v h = elim (peek_in k v) [ inl z ↦ absurd (ground arith) | inr l ↦ l ]

both_right : (a b : Bool) → (a && b) ≡ true → b ≡ true
both_right true b h = h
both_right false b h = absurd (ground arith)

dotted_fits : (v : List ℕ) → 1 ≤ length v → TakesSome v (dotted v)
unfolding dotted is_logical is_and is_or is_not
dotted_fits v l =
    if_elim (TakesSome v) (is_logical v) _ _ (λ h. (omega arith, nonnull 2 45 v (both_right _ _ h)))
      (λ h.
        if_elim (TakesSome v) (is_and v) _ _ (λ h. (omega arith, nonnull 4 45 v (both_right _ _ h)))
          (λ h.
            if_elim (TakesSome v) (is_or v) _ _
              (λ h. (omega arith, nonnull 3 45 v (both_right _ _ h)))
              (λ h.
                if_elim (TakesSome v) (is_not v) _ _
                  (λ h. (omega arith, nonnull 4 45 v (both_right _ _ h))) (λ h. (omega arith, l)))))

-- The null byte is the second of no operator.
two_bytes_end : (c : ℕ) → two_bytes c 0 ≡ none
unfolding two_bytes
two_bytes_end c = ground arith

one_fits :
    (B : Type 0) (v : List ℕ) (o : Option Tok)
    → 1 ≤ length v
    → Post (TakesSome v) B (elim o [ some t ↦ ok (t, 1) | none ↦ err ill_symbol ])
one_fits B v none l = tt
one_fits B v (some t) l = (omega arith, l)

two_fits :
    (B : Type 0) (v : List ℕ) (o : Option Tok) (r : Lexed (Tok × ℕ))
    → 2 ≤ length v
    → Post (TakesSome v) B r
    → Post (TakesSome v) B (elim o [ some t ↦ ok (t, 2) | none ↦ r ])
two_fits B v none r l h = h
two_fits B v (some t) r l h = (omega arith, l)

operator_fits : (B : Type 0) (v : List ℕ) → Post (TakesSome v) B (operator_token v)
unfolding operator_token one_byte two_bytes
operator_fits B [] = tt
operator_fits B (c ∷ []) =
    rw (operator_token, two_bytes_end c) (one_fits B (c ∷ []) (one_byte c) (omega arith))
operator_fits B (c ∷ d ∷ v) =
    two_fits B (c ∷ d ∷ v) (two_bytes c d) _ (omega arith)
      (one_fits B (c ∷ d ∷ v) (one_byte c) (omega arith))

-- Without digits in front, the point is the first byte.
at_start :
    (v : List ℕ)
    → (digits_len v == 0) ≡ true
    → (peek (drop (digits_len v) v) == b'.') ≡ true
    → TakesSome v (dotted (drop (digits_len v) v))
at_start v z p =
    let w = drop (digits_len v) v in
    let r = dotted_fits w (nonnull 0 45 w p) in
    (r.0, omega (arith, r.1, length-drop (digits_len v) v))

number_fits :
    (B : Type 0) (v : List ℕ)
    → let d = digits_len v in
      (peek (drop d v) == b'.') ≡ true → Post (TakesSome v) B (number_token d (drop d v))
unfolding number_token
number_fits B v p =
    let d = digits_len v in
    let w = drop d v in
    let k = 1 + digits_len (drop 1 w) in
    let P = Post (TakesSome v) B in
    if_elim P (is_digit (peek (drop 1 w))) _ _
      (λ h.
        bind-Post (λ n. n ≤ length (drop k w)) B (TakesSome v) B (exponent_len (drop k w)) _
          (exponent_fits B (drop k w))
          (λ e g. (
            omega arith,
            omega (
              arith,
              g,
              digit_in 1 w h,
              digits_in (drop 1 w),
              length-drop 1 w,
              length-drop k w,
              length-drop d v,
              digits_in v,
            ),
          ))
          (λ b. b))
      (λ h.
        if_elim (TakesSome v) (d == 0) _ _ (λ z. at_start v z p)
          (λ n. (ground arith, omega (arith, digits_in v))))

name_fits :
    (fuel : ℕ) (v : List ℕ)
    → 1 ≤ length v
    → Post (TakesSome v) (fuel ≤ length v) (name_token fuel v)
unfolding name_token
name_fits fuel v l =
    bind-Post (Takes name v) (Short fuel name v) (TakesSome v) (fuel ≤ length v)
      (name_len fuel name v) _ (name_len_fits fuel name v l)
      (λ n g.
        if_elim (Post (TakesSome v) (fuel ≤ length v)) (ltb vnamelen n) _ _ (λ h. tt) (λ h. g))
      (λ s. omega (arith, s))

pub word_token_at_fits :
    (fuel : ℕ) (v : List ℕ) → Post (TakesSome v) (fuel ≤ length v) (word_token_at fuel v)
unfolding word_token_at
word_token_at_fits fuel v =
    let d = digits_len v in
    let P = Post (TakesSome v) (fuel ≤ length v) in
    if_elim P (starts_name (peek v)) _ _ (λ h. name_fits fuel v (start_in v h))
      (λ h.
        if_elim P (peek (drop d v) == b'.') _ _ (λ p. number_fits (fuel ≤ length v) v p)
          (λ p.
            if_elim P (d == 0) _ _ (λ z. operator_fits (fuel ≤ length v) v)
              (λ n. (ground arith, digits_in v))))
