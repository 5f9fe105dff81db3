-- ===== src/Lexer/Words/Tests.antt =====
-- The lexer at concrete lines.
use db3w.Common.{ℕ, zero, suc, ◌+◌, ◌≤◌, ◌≡◌, refl, List, [], ◌∷◌, length, arith}
use db3w.Common.Text.{codes}
use db3w.Functions.Text.{is_alpha, is_digit, is_lower, is_upper, to_upper}
use db3w.Lexer.{
  Tok, tnulltok, tid, tint, tnumber, tlit, tcomma, tlparen, tgtrequ, tand, tmac, get_tok, raw_token,
  spaces_len, is_space, word_len, in_word_at, name_len, here, mac_here, is_name, starts_name,
  literal_len, Lexed, ok, err, ◌>>=◌, Lexer, ill_symbol, unbal_quote,
}
use db3w.Lexer.Words.{
  get_token, is_word, reread, word_token_at, name_token, number_token, exponent_len, sign_len,
  digits_len, dotted, is_logical, is_and, is_or, is_not, operator_token, two_bytes, one_byte,
}
use db3w.Lexer.Words.Progress.{InLine, Ends, get_token-Ends}
use db3w.Lexer.Run.{Run, start, next, Run-InLine}

abbrev at_start : List ℕ → Lexer
at_start cmd = record {
  curr_cmd = cmd;
  curr = record { tok_typ = tnulltok; tok_s = 0; tok_len = 0 };
  last_tok = record { tok_typ = tnulltok; tok_s = 0; tok_len = 0 };
}

-- The types of the first tokens.
abbrev types : ℕ → Lexer → Lexed (List Tok)
types zero lx = ok []
types (suc n) lx = get_token 40 lx >>= λ l. types n l >>= λ ts. ok (l.curr.tok_typ ∷ ts)

expression_test :
    types 6 (at_start (codes "x1>=12.5e3 .and. f("))
    ≡ ok (tid ∷ tgtrequ ∷ tnumber ∷ tand ∷ tid ∷ tlparen ∷ [])
unfolding get_token get_tok raw_token spaces_len is_space word_len in_word_at name_len here mac_here
    is_name starts_name literal_len is_word reread word_token_at name_token number_token
    exponent_len sign_len digits_len dotted is_logical is_and is_or is_not operator_token two_bytes
    one_byte is_alpha is_digit is_lower is_upper to_upper
expression_test = refl

literal_test :
    types 5 (at_start (codes "'a b', .T.&m 3{")) ≡ ok (tlit ∷ tcomma ∷ tmac ∷ tint ∷ tnulltok ∷ [])
unfolding get_token get_tok raw_token spaces_len is_space word_len in_word_at name_len here mac_here
    is_name starts_name literal_len is_word reread word_token_at name_token number_token
    exponent_len sign_len digits_len dotted is_logical is_and is_or is_not operator_token two_bytes
    one_byte is_alpha is_digit is_lower is_upper to_upper
literal_test = refl

quote_test : types 1 (at_start (codes "'a")) ≡ err unbal_quote
unfolding get_token get_tok raw_token spaces_len is_space word_len in_word_at name_len here mac_here
    is_name starts_name literal_len is_word reread word_token_at name_token number_token
    exponent_len sign_len digits_len dotted is_logical is_and is_or is_not operator_token two_bytes
    one_byte is_alpha is_digit is_lower is_upper to_upper
quote_test = refl

symbol_test : types 2 (at_start (codes "a%")) ≡ err ill_symbol
unfolding get_token get_tok raw_token spaces_len is_space word_len in_word_at name_len here mac_here
    is_name starts_name literal_len is_word reread word_token_at name_token number_token
    exponent_len sign_len digits_len dotted is_logical is_and is_or is_not operator_token two_bytes
    one_byte is_alpha is_digit is_lower is_upper to_upper
symbol_test = refl

get_token-Ends_example :
    Ends (at_start (codes "a+1")) (get_token (length (codes "a+1") + 2) (at_start (codes "a+1")))
get_token-Ends_example = get_token-Ends (at_start (codes "a+1")) (omega arith)

-- The state behind the first token.
abbrev behind_name : Lexer
behind_name = record {
  curr_cmd = codes "a+1";
  curr = record { tok_typ = tid; tok_s = 0; tok_len = 1 };
  last_tok = record { tok_typ = tnulltok; tok_s = 0; tok_len = 0 };
}

one_step : Run (at_start (codes "a+1")) 1 behind_name
unfolding get_token get_tok raw_token spaces_len is_space word_len in_word_at name_len here mac_here
    is_name starts_name literal_len is_word reread word_token_at name_token number_token
    exponent_len sign_len digits_len dotted is_logical is_and is_or is_not operator_token two_bytes
    one_byte is_alpha is_digit is_lower is_upper to_upper
one_step = next 40 start refl refl

Run-InLine_example : (codes "a+1" ≡ codes "a+1") × InLine behind_name × (0 + 1 ≤ 1) × (0 + 1 ≤ 3)
Run-InLine_example = Run-InLine (at_start (codes "a+1")) (omega arith) one_step
