-- ===== src/Lexer/InLine.antt =====
-- server/hb/lex.c: a token stays inside the line, the lexer moves on, and its loops end.
pub mod Names
pub mod Marks
use db3w.Common.{
  ℕ, zero, suc, ◌+◌, ◌-◌, ◌≤◌, ◌≡◌, refl, ◌⊎◌, inl, inr, Bool, true, false, List, [], ◌∷◌, length,
  drop, arith,
}
use db3w.Lexer.{Lexed, ok, err, starved, ◌>>=◌, peek}

-- A result has the property `P`; a lack of fuel is excluded by `B`.
abbrev pub Post {ℓ} : {A : Type ℓ} → (A → Type 0) → Type 0 → Lexed A → Type 0
Post P B (ok a) = P a
Post P B (err e) = Unit {0}
Post P B starved = B

pub bind-Post {ℓ κ} :
    {A : Type ℓ} {C : Type κ} (P : A → Type 0) (B : Type 0) (Q : C → Type 0) (D : Type 0)
    (r : Lexed A) (k : A → Lexed C)
    → Post P B r
    → ((a : A) → P a → Post Q D (k a))
    → (B → D)
    → Post Q D (r >>= k)
bind-Post P B Q D (ok a) k h f g = f a h
bind-Post P B Q D (err e) k h f g = tt
bind-Post P B Q D starved k h f g = g h

pub weaken-Post {ℓ} :
    {A : Type ℓ} (P : A → Type 0) (B : Type 0) (Q : A → Type 0) (D : Type 0) (r : Lexed A)
    → Post P B r
    → ((a : A) → P a → Q a)
    → (B → D)
    → Post Q D r
weaken-Post P B Q D (ok a) h f g = f a h
weaken-Post P B Q D (err e) h f g = tt
weaken-Post P B Q D starved h f g = g h

-- A byte that is not the null byte stands in the line.
pub peek_in : (k : ℕ) (v : List ℕ) → (peek (drop k v) ≡ 0) ⊎ (suc k ≤ length v)
peek_in zero [] = inl refl
peek_in zero (c ∷ v) = inr (omega arith)
peek_in (suc k) [] = inl refl
peek_in (suc k) (c ∷ v) = elim (peek_in k v) [ inl h ↦ inl h | inr h ↦ inr (omega (arith, h)) ]
