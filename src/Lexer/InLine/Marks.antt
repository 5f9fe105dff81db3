-- ===== src/Lexer/InLine/Marks.antt =====
-- server/hb/lex.c: the lengths of words, literals, numbers and operators.
use db3w.Common.{
  ℕ, zero, suc, ◌+◌, ◌≤◌, ◌≡◌, refl, ◌⊎◌, inl, inr, Bool, true, false, ◌&&◌, ◌||◌, not, Option,
  none, some, List, [], ◌∷◌, length, drop, arith, if◌then◌else◌, ◌==◌,
}
use db3w.Functions.Text.Pieces.{length-drop}
use db3w.Lexer.{
  Tok, tnulltok, teof, eof_mkr, peek, macro, name_len, is_space, InWord, word_ends, at_macro,
  in_word, in_word_at, word_len, literal_len, literal_token, word_token, raw_token, spaces_len,
}
use db3w.Lexer.InLine.{Post, bind-Post, peek_in}
use db3w.Lexer.InLine.Names.{Takes, Short, name_len_fits}

pub if_elim {ℓ} :
    {A : Type ℓ} (P : A → Type 0) (b : Bool) (x y : A)
    → (b ≡ true → P x)
    → (b ≡ false → P y)
    → P (if b then x else y)
if_elim P true x y h k = h refl
if_elim P false x y h k = k refl

-- The tokens that may be empty.
abbrev pub is_end : Tok → Bool
is_end tnulltok = true
is_end teof = true
is_end _ = false

-- A token at the start of `v`.
abbrev pub TokenIn : List ℕ → Tok × ℕ → Type 0
TokenIn v r = (r.1 ≤ length v) × (is_end r.0 ≡ false → 1 ≤ r.1)

abbrev WordIn : List ℕ → Bool × ℕ → Type 0
WordIn v r = (r.1 ≤ length v) × (r.0 ≡ true → 1 ≤ r.1)

InWord-cases : (h : InWord) → (h ≡ word_ends) ⊎ ((h ≡ at_macro) ⊎ (h ≡ in_word))
InWord-cases word_ends = inl refl
InWord-cases at_macro = inr (inl refl)
InWord-cases in_word = inr (inr refl)

word_in : (v : List ℕ) → (in_word_at (peek v) ≡ word_ends) ⊎ (1 ≤ length v)
unfolding in_word_at
word_in v = elim (peek_in 0 v) [ inl h ↦ inl (rw h refl) | inr h ↦ inr h ]

word_len_fits : (fuel : ℕ) (v : List ℕ) → Post (WordIn v) (fuel ≤ length v + 1) (word_len fuel v)
unfolding word_len
word_len_fits zero v = omega arith
word_len_fits (suc fuel) v = elim (word_in v) [
  | inl o ↦ rw (word_len, o) (omega arith, λ e. absurd (ground arith))
  | inr one ↦ elim (InWord-cases (in_word_at (peek v))) [
    | inl h ↦ rw (word_len, h) (omega arith, λ e. absurd (ground arith))
    | inr (inl h) ↦
        rw (word_len, h)
          (bind-Post (Takes macro v) (Short fuel macro v) (WordIn v) (suc fuel ≤ length v + 1)
            (name_len fuel macro v) _ (name_len_fits fuel macro v one)
            (λ m g.
              bind-Post (WordIn (drop m v)) (fuel ≤ length (drop m v) + 1) (WordIn v)
                (suc fuel ≤ length v + 1) (word_len fuel (drop m v)) _
                (word_len_fits fuel (drop m v))
                (λ r k. (omega (arith, g, k.0, length-drop m v), λ e. omega (arith, g)))
                (λ s. omega (arith, s, g, length-drop m v)))
            (λ s. omega (arith, s, one)))
    | inr (inr h) ↦
        rw (word_len, h)
          (bind-Post (WordIn (drop 1 v)) (fuel ≤ length (drop 1 v) + 1) (WordIn v)
            (suc fuel ≤ length v + 1) (word_len fuel (drop 1 v)) _ (word_len_fits fuel (drop 1 v))
            (λ r k. (omega (arith, one, k.0, length-drop 1 v), λ e. omega arith))
            (λ s. omega (arith, s, one, length-drop 1 v)))
  ]
]

abbrev Inside : List ℕ → Option ℕ → Type 0
Inside v none = Unit {0}
Inside v (some n) = n ≤ length v

literal_next :
    (c : ℕ) (v : List ℕ) (o : Option ℕ)
    → Inside v o
    → Inside (c ∷ v) (elim o [ none ↦ none | some n ↦ some (1 + n) ])
literal_next c v none h = tt
literal_next c v (some n) h = omega (arith, h)

literal_in : (q : ℕ) (v : List ℕ) → Inside v (literal_len q v)
unfolding literal_len
literal_in q [] = tt
literal_in q (c ∷ v) =
    if_elim (Inside (c ∷ v)) (c == 0) _ _ (λ h. tt)
      (λ h.
        if_elim (Inside (c ∷ v)) (c == q) _ _ (λ h. omega arith)
          (λ h. literal_next c v (literal_len q v) (literal_in q v)))

literal_fits :
    (B : Type 0) (c : ℕ) (v : List ℕ) (o : Option ℕ)
    → Inside v o
    → Post (TokenIn (c ∷ v)) B (literal_token o)
literal_fits B c v none h = tt
literal_fits B c v (some n) h = (omega (arith, h), λ e. omega arith)

word_token_fits : (v : List ℕ) (r : Bool × ℕ) → WordIn v r → TokenIn v (word_token r)
word_token_fits v (true, n) h = (h.0, λ e. h.1 refl)
word_token_fits v (false, n) h = (h.0, λ e. ground arith)

-- What `get_tok` finds behind the blanks.
pub raw_token_fits :
    (fuel : ℕ) (v : List ℕ) → Post (TokenIn v) (fuel ≤ length v + 1) (raw_token fuel v)
unfolding raw_token
raw_token_fits fuel [] =
    bind-Post (WordIn []) (fuel ≤ 1) (TokenIn []) (fuel ≤ 1) (word_len fuel []) _
      (word_len_fits fuel []) (λ r h. word_token_fits [] r h) (λ s. s)
raw_token_fits fuel (c ∷ v) =
    let w = c ∷ v in
    let P = Post (TokenIn w) (fuel ≤ length w + 1) in
    if_elim P (c == eof_mkr) _ _ (λ h. (omega arith, λ e. absurd (ground arith)))
      (λ h.
        if_elim P ((c == b'\'') || (c == b'"')) _ _
          (λ h. literal_fits (fuel ≤ length w + 1) c v (literal_len c v) (literal_in c v))
          (λ h.
            if_elim P (c == b',') _ _ (λ h. (omega arith, λ e. omega arith))
              (λ h.
                if_elim P (c == b'(') _ _ (λ h. (omega arith, λ e. omega arith))
                  (λ h.
                    if_elim P (c == b'{') _ _ (λ h. (omega arith, λ e. absurd (ground arith)))
                      (λ h.
                        bind-Post (WordIn w) (fuel ≤ length w + 1) (TokenIn w) (fuel ≤ length w + 1)
                          (word_len fuel w) _ (word_len_fits fuel w) (λ r k. word_token_fits w r k)
                          (λ s. s))))))

pub spaces_in : (v : List ℕ) → spaces_len v ≤ length v
unfolding spaces_len
spaces_in [] = omega arith
spaces_in (c ∷ v) =
    if_elim (λ n. n ≤ suc (length v)) (not (c == 0) && is_space c) _ _
      (λ h. omega (arith, spaces_in v)) (λ h. omega arith)
