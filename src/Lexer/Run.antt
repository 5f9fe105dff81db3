-- ===== src/Lexer/Run.antt =====
-- server/hb/lex.c: the tokens of a line, one call of `get_token` after the other.
use mathlib.Core.Path.{subst}
use db3w.Common.{ℕ, suc, ◌+◌, ◌≤◌, ◌≡◌, refl, ap, ◌∙◌, false, List, length, arith}
use db3w.Lexer.{Lexed, ok, Lexer}
use db3w.Lexer.Words.{get_token}
use db3w.Lexer.InLine.{Post}
use db3w.Lexer.InLine.Marks.{is_end}
use db3w.Lexer.Words.Progress.{InLine, Moves, get_token-Post}

-- `n` calls of `get_token` from the state `lx` on that find a token each.
pub data Run (lx : Lexer) : ℕ → Lexer → Type 0 where
  start : Run lx 0 lx
  next :
      {n : ℕ} {l k : Lexer} (fuel : ℕ)
      → Run lx n l
      → get_token fuel l ≡ ok k
      → is_end k.curr.tok_typ ≡ false
      → Run lx (suc n) k

-- The end of the current token.
abbrev pub place_in : Lexer → ℕ
place_in lx = lx.curr.tok_s + lx.curr.tok_len

same_length : {v w : List ℕ} → v ≡ w → length v ≡ length w
same_length e = ap (λ t. length t) e

found :
    (P : Lexer → Type 0) (B : Type 0) (r : Lexed Lexer) (k : Lexer) → r ≡ ok k → Post P B r → P k
found P B r k e h = subst (λ x. Post P B x) e h

-- While tokens are found the line does not change, the current token lies in it, and each token takes at
-- least one byte: a line of n bytes has n tokens at most.
pub Run-InLine :
    (lx : Lexer) (h : InLine lx) {n : ℕ} {k : Lexer}
    → Run lx n k
    → (k.curr_cmd ≡ lx.curr_cmd)
      × InLine k
      × (place_in lx + n ≤ place_in k)
      × (place_in k ≤ length lx.curr_cmd)
Run-InLine lx h start = (refl, h, omega arith, h)
Run-InLine lx h (next {n} {l} {k} fuel r e w) =
    let (c, i, p, q) = Run-InLine lx h r in
    let m =
      found (Moves l) (fuel ≤ length l.curr_cmd + 1) (get_token fuel l) k e
        (get_token-Post fuel l i) in
    (m.0 ∙ c, m.3, omega (arith, p, m.2, m.4 w), omega (arith, m.3, same_length (m.0 ∙ c)))
