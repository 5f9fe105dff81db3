-- ===== src/Lexer/InLine/Names.antt =====
-- server/hb/lex.c: the lengths that `getvarname` and `getmac` give.
use db3w.Common.{
  ℕ, zero, suc, ◌+◌, ◌≤◌, ◌≡◌, refl, ◌⊎◌, inl, inr, false, List, length, drop, arith, Bool-cases,
}
use db3w.Functions.Text.{is_alpha, is_digit, is_lower, is_upper}
use db3w.Functions.Text.Pieces.{length-drop}
use db3w.Lexer.{
  Lexed, ◌>>=◌, peek, NamePart, name, macro, behind_macro, name_len, Here, ampersand, name_byte,
  other_byte, here, mac_here, is_name, starts_name,
}
use db3w.Lexer.InLine.{Post, bind-Post, weaken-Post, peek_in}

-- A name and a macro take a byte at least.
abbrev low : NamePart → ℕ
low name = 1
low macro = 1
low behind_macro = 0

abbrev pub Takes : NamePart → List ℕ → ℕ → Type 0
Takes p v n = (low p ≤ n) × (n ≤ length v)

-- The fuel is too little for the text.
abbrev pub Short : ℕ → NamePart → List ℕ → Type 0
Short fuel p v = fuel + low p ≤ length v + 1

abbrev pub NameFits : ℕ → NamePart → List ℕ → Lexed ℕ → Type 0
NameFits fuel p v r = Post (Takes p v) (Short fuel p v) r

Here-cases : (h : Here) → (h ≡ ampersand) ⊎ ((h ≡ name_byte) ⊎ (h ≡ other_byte))
Here-cases ampersand = inl refl
Here-cases name_byte = inr (inl refl)
Here-cases other_byte = inr (inr refl)

-- The null byte is neither an ampersand nor part of a name.
here_in : (v : List ℕ) → (here (peek (drop 1 v)) ≡ other_byte) ⊎ (2 ≤ length v)
unfolding here is_name is_alpha is_digit is_lower is_upper
here_in v = elim (peek_in 1 v) [ inl h ↦ inl (rw h refl) | inr h ↦ inr h ]

mac_here_in : (v : List ℕ) → (mac_here (peek (drop 1 v)) ≡ other_byte) ⊎ (2 ≤ length v)
unfolding mac_here starts_name is_alpha is_lower is_upper
mac_here_in v = elim (peek_in 1 v) [ inl h ↦ inl (rw h refl) | inr h ↦ inr h ]

name_in : (v : List ℕ) → (is_name (peek v) ≡ false) ⊎ (1 ≤ length v)
unfolding is_name is_alpha is_digit is_lower is_upper
name_in v = elim (peek_in 0 v) [ inl h ↦ inl (rw h refl) | inr h ↦ inr h ]

module _ (fuel : ℕ) (p q : NamePart) (v w : List ℕ) (r : Lexed ℕ) (h : NameFits fuel q w r) where
  -- One call from another.
  then-Fits :
      (k : ℕ → Lexed ℕ)
      → ((n : ℕ) → Takes q w n → NameFits (suc fuel) p v (k n))
      → (Short fuel q w → Short (suc fuel) p v)
      → NameFits (suc fuel) p v (r >>= k)
  then-Fits k f g =
      bind-Post (Takes q w) (Short fuel q w) (Takes p v) (Short (suc fuel) p v) r k h f g

  as-Fits :
      ((n : ℕ) → Takes q w n → Takes p v n)
      → (Short fuel q w → Short (suc fuel) p v)
      → NameFits (suc fuel) p v r
  as-Fits f g = weaken-Post (Takes q w) (Short fuel q w) (Takes p v) (Short (suc fuel) p v) r h f g

-- A name or a macro of the line ends in the line; the fuel is enough if it is the length of the text.
pub name_len_fits :
    (fuel : ℕ) (p : NamePart) (v : List ℕ)
    → low p ≤ length v
    → NameFits fuel p v (name_len fuel p v)
unfolding name_len
name_len_fits zero name v l = omega (arith, l)
name_len_fits zero macro v l = omega (arith, l)
name_len_fits zero behind_macro v l = omega arith
name_len_fits (suc fuel) name v l =
    let t = drop 1 v in
    let d = length-drop 1 v in
    elim (here_in v) [
      | inl o ↦ rw (name_len, o) (omega arith, l)
      | inr two ↦ elim (Here-cases (here (peek (drop 1 v)))) [
        | inl h ↦
            rw (name_len, h)
              (then-Fits fuel name macro v t _ (name_len_fits fuel macro t (omega (arith, two, d)))
                _
                (λ m g.
                  then-Fits fuel name behind_macro v (drop m t) _
                    (name_len_fits fuel behind_macro (drop m t) (omega arith)) _
                    (λ n k. (omega arith, omega (arith, g, k, two, d, length-drop m t)))
                    (λ s. omega (arith, s, g, two, d, length-drop m t)))
                (λ s. omega (arith, s, two, d)))
        | inr (inl h) ↦
            rw (name_len, h)
              (then-Fits fuel name name v t _ (name_len_fits fuel name t (omega (arith, two, d))) _
                (λ n k. (omega arith, omega (arith, k, two, d))) (λ s. omega (arith, s, two, d)))
        | inr (inr h) ↦ rw (name_len, h) (omega arith, l)
      ]
    ]
name_len_fits (suc fuel) macro v l =
    let t = drop 1 v in
    let d = length-drop 1 v in
    elim (mac_here_in v) [
      | inl o ↦ rw (name_len, o) tt
      | inr two ↦ elim (Here-cases (mac_here (peek (drop 1 v)))) [
        | inl h ↦
            rw (name_len, h)
              (as-Fits fuel macro macro v t _ (name_len_fits fuel macro t (omega (arith, two, d)))
                (λ n k. (k.0, omega (arith, k, two, d))) (λ s. omega (arith, s, two, d)))
        | inr (inl h) ↦
            rw (name_len, h)
              (then-Fits fuel macro name v t _ (name_len_fits fuel name t (omega (arith, two, d))) _
                (λ n k. (omega arith, omega (arith, k, two, d))) (λ s. omega (arith, s, two, d)))
        | inr (inr h) ↦ rw (name_len, h) tt
      ]
    ]
name_len_fits (suc fuel) behind_macro v l = elim (name_in v) [
  | inl o ↦ rw (name_len, o) (omega arith, omega arith)
  | inr one ↦ elim (Bool-cases (is_name (peek v))) [
    | inl h ↦
        rw (name_len, h)
          (as-Fits fuel behind_macro name v v _ (name_len_fits fuel name v one)
            (λ n k. (omega arith, k.1)) (λ s. omega (arith, s)))
    | inr h ↦ rw (name_len, h) (omega arith, omega arith)
  ]
]
