-- ===== src/Lexer/Words/Progress.antt =====
-- server/hb/lex.c: what `get_token` does to the position in the line.
use db3w.Common.{ℕ, ◌+◌, ◌≤◌, ◌≡◌, refl, ap, Bool, true, false, length, drop, arith}
use db3w.Functions.Text.Pieces.{length-drop}
use db3w.Lexer.{Lexed, ok, raw_token, spaces_len, Lexer, get_tok}
use db3w.Lexer.Words.{word_token_at, is_word, reread, get_token}
use db3w.Lexer.InLine.{Post, bind-Post, weaken-Post}
use db3w.Lexer.InLine.Marks.{is_end, TokenIn, raw_token_fits, spaces_in}
use db3w.Lexer.Words.Fits.{TakesSome, word_token_at_fits}

-- The current token lies in the line.
abbrev pub InLine : Lexer → Type 0
InLine lx = lx.curr.tok_s + lx.curr.tok_len ≤ length lx.curr_cmd

-- The line is the same, the old token is the last one, the new one begins behind it, lies in the line, and
-- is not empty unless it is the end.
abbrev pub Moves : Lexer → Lexer → Type 0
Moves lx l =
    (l.curr_cmd ≡ lx.curr_cmd)
    × (l.last_tok ≡ lx.curr)
    × (lx.curr.tok_s + lx.curr.tok_len ≤ l.curr.tok_s)
    × InLine l
    × (is_end l.curr.tok_typ ≡ false → 1 ≤ l.curr.tok_len)

get_tok-Moves :
    (fuel : ℕ) (lx : Lexer)
    → InLine lx
    → Post (Moves lx) (fuel ≤ length lx.curr_cmd + 1) (get_tok fuel lx)
unfolding get_tok
get_tok-Moves fuel lx h =
    let cmd = lx.curr_cmd in
    let s = lx.curr.tok_s + lx.curr.tok_len in
    let n = spaces_len (drop s cmd) in
    bind-Post (TokenIn (drop (s + n) cmd)) (fuel ≤ length (drop (s + n) cmd) + 1) (Moves lx)
      (fuel ≤ length cmd + 1) (raw_token fuel (drop (s + n) cmd)) _
      (raw_token_fits fuel (drop (s + n) cmd))
      (λ r k. (
        refl,
        refl,
        omega arith,
        omega (arith, k.0, h, spaces_in (drop s cmd), length-drop s cmd, length-drop (s + n) cmd),
        k.1,
      ))
      (λ b. omega (arith, b, length-drop (s + n) cmd))

reread-Moves :
    (fuel : ℕ) (lx l : Lexer)
    → Moves lx l
    → Post (Moves lx) (fuel ≤ length lx.curr_cmd + 1) (reread fuel l)
unfolding reread
reread-Moves fuel lx l (c, o, s, i, e) =
    let v = drop l.curr.tok_s l.curr_cmd in
    bind-Post (TakesSome v) (fuel ≤ length v) (Moves lx) (fuel ≤ length lx.curr_cmd + 1)
      (word_token_at fuel v) _ (word_token_at_fits fuel v)
      (λ r k. (c, o, s, omega (arith, k, i, length-drop l.curr.tok_s l.curr_cmd), λ _. k.0))
      (λ b. omega (arith, b, length-drop l.curr.tok_s l.curr_cmd, same_len c))
  where
    same_len : l.curr_cmd ≡ lx.curr_cmd → length l.curr_cmd ≡ length lx.curr_cmd
    same_len c = ap (λ t. length t) c

pub get_token-Post :
    (fuel : ℕ) (lx : Lexer)
    → InLine lx
    → Post (Moves lx) (fuel ≤ length lx.curr_cmd + 1) (get_token fuel lx)
unfolding get_token
get_token-Post fuel lx h =
    let B = fuel ≤ length lx.curr_cmd + 1 in
    bind-Post (Moves lx) B (Moves lx) B (get_tok fuel lx) _ (get_tok-Moves fuel lx h)
      (λ l m. choose l (is_word l.curr.tok_typ) m) (λ b. b)
  where
    choose :
        (l : Lexer) (b : Bool)
        → Moves lx l
        → Post
            (Moves lx)
            (fuel ≤ length lx.curr_cmd + 1)
            (elim b [ true ↦ reread fuel l | false ↦ ok l ])
    choose l true m = reread-Moves fuel lx l m
    choose l false m = m

-- The result is an error, or a state to which the old one moves.
abbrev pub Ends : Lexer → Lexed Lexer → Type 0
Ends lx r = Post (Moves lx) ⊥ r

-- With a fuel of two more than the length of the line `get_token` always ends: it raises an error, or its
-- token begins behind the last one, lies in the line and is not empty unless it is the end.
pub get_token-Ends : (lx : Lexer) → InLine lx → Ends lx (get_token (length lx.curr_cmd + 2) lx)
get_token-Ends lx h =
    weaken-Post (Moves lx) (length lx.curr_cmd + 2 ≤ length lx.curr_cmd + 1) (Moves lx) ⊥
      (get_token (length lx.curr_cmd + 2) lx) (get_token-Post (length lx.curr_cmd + 2) lx h)
      (λ l m. m) (λ b. absurd (omega (arith, b)))
