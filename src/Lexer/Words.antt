-- ===== src/Lexer/Words.antt =====
-- server/hb/lex.c: `get_token`, which reads names, numbers and operators out of the words of `get_tok`.
pub mod Fits
pub mod Progress
mod Tests
use db3w.Common.{
  ℕ, zero, suc, ◌+◌, Bool, true, false, ◌&&◌, ◌||◌, List, [], ◌∷◌, Option, none, some, ltb, ◌==◌,
  if◌then◌else◌, drop,
}
use db3w.Functions.Text.{is_digit, to_upper}
use db3w.Lexer.{
  Tok, tid, tlogic, tint, tnumber, tsemicolon, tlparen, trparen, tat, tlbrkt, trbrkt, tcolon,
  tarrow, tpound, tperiod, tand, tor, tnot, tequal, tgtrequ, tgreater, tlessequ, tnequ, tless,
  tquestn, tplus, tminus, tmult, tdiv, tpower, ttok, ill_symbol, bad_varname, Lexed, ok, err,
  starved, ◌>>=◌, vnamelen, peek, starts_name, name, name_len, Token, Lexer, get_tok,
}

-- The length of the digits that a text begins with.
pub digits_len : List ℕ → ℕ
unfolding is_digit
digits_len [] = 0
digits_len (c ∷ v) = let rest = digits_len v in if is_digit c then 1 + rest else 0

pub sign_len : List ℕ → ℕ
sign_len v = if (peek v == b'+') || (peek v == b'-') then 1 else 0

-- The exponent behind a fraction.
pub exponent_len : List ℕ → Lexed ℕ
unfolding digits_len sign_len
exponent_len v =
    let n = 1 + sign_len (drop 1 v) in
    if (peek v == b'e') || (peek v == b'E')
    then if is_digit (peek (drop n v)) then ok (n + digits_len (drop n v)) else err ill_symbol
    else ok 0

-- What may stand behind a point that no digit follows: a logical value or an operator in letters.
abbrev upper_at : ℕ → List ℕ → ℕ
upper_at k v = to_upper (peek (drop k v))

pub is_logical : List ℕ → Bool
is_logical v =
    ((upper_at 1 v == b'T')
      || (upper_at 1 v == b'Y')
      || (upper_at 1 v == b'F')
      || (upper_at 1 v == b'N'))
    && (peek (drop 2 v) == b'.')

pub is_and : List ℕ → Bool
is_and v =
    ((upper_at 1 v == b'A') && (upper_at 2 v == b'N') && (upper_at 3 v == b'D'))
    && (peek (drop 4 v) == b'.')

pub is_or : List ℕ → Bool
is_or v = ((upper_at 1 v == b'O') && (upper_at 2 v == b'R')) && (peek (drop 3 v) == b'.')

pub is_not : List ℕ → Bool
is_not v =
    ((upper_at 1 v == b'N') && (upper_at 2 v == b'O') && (upper_at 3 v == b'T'))
    && (peek (drop 4 v) == b'.')

pub dotted : List ℕ → Tok × ℕ
unfolding is_logical is_and is_or is_not
dotted v =
    if is_logical v
    then (tlogic, 3)
    else if is_and v
    then (tand, 5)
    else if is_or v
    then (tor, 4)
    else if is_not v
    then (tnot, 5)
    else (tperiod, 1)

-- The operators of two bytes, and those of one.
pub two_bytes : ℕ → ℕ → Option Tok
two_bytes c d =
    if (c == b'-') && (d == b'>')
    then some tarrow
    else if (c == b'*') && (d == b'*')
    then some tpower
    else if (c == b'>') && (d == b'=')
    then some tgtrequ
    else if (c == b'<') && (d == b'=')
    then some tlessequ
    else if (c == b'<') && (d == b'>')
    then some tnequ
    else none

pub one_byte : ℕ → Option Tok
one_byte c =
    if c == b'?'
    then some tquestn
    else if c == b'@'
    then some tat
    else if c == b';'
    then some tsemicolon
    else if c == b'('
    then some tlparen
    else if c == b')'
    then some trparen
    else if c == b'+'
    then some tplus
    else if c == b'-'
    then some tminus
    else if c == b'*'
    then some tmult
    else if c == b'^'
    then some tpower
    else if c == b'/'
    then some tdiv
    else if c == b'='
    then some tequal
    else if c == b'>'
    then some tgreater
    else if c == b'<'
    then some tless
    else if c == b'['
    then some tlbrkt
    else if c == b']'
    then some trbrkt
    else if c == b':'
    then some tcolon
    else if c == b'#'
    then some tpound
    else none

pub operator_token : List ℕ → Lexed (Tok × ℕ)
unfolding one_byte two_bytes
operator_token v = elim (two_bytes (peek v) (peek (drop 1 v))) [
  | some t ↦ ok (t, 2)
  | none ↦ elim (one_byte (peek v)) [ some t ↦ ok (t, 1) | none ↦ err ill_symbol ]
]

-- `d` digits were read in front of `w`.
pub number_token : ℕ → List ℕ → Lexed (Tok × ℕ)
unfolding exponent_len dotted
number_token d w =
    let k = 1 + digits_len (drop 1 w) in
    if is_digit (peek (drop 1 w))
    then (exponent_len (drop k w) >>= λ e. ok (tnumber, d + k + e))
    else ok (if d == 0 then dotted w else (tint, d))

pub name_token : ℕ → List ℕ → Lexed (Tok × ℕ)
name_token fuel v =
    name_len fuel name v >>= λ n. if ltb vnamelen n then err bad_varname else ok (tid, n)

-- The token at the start of a word.
pub word_token_at : ℕ → List ℕ → Lexed (Tok × ℕ)
unfolding name_token number_token operator_token
word_token_at fuel v =
    let d = digits_len v in
    let w = drop d v in
    if starts_name (peek v)
    then name_token fuel v
    else if peek w == b'.'
    then number_token d w
    else if d == 0
    then operator_token v
    else ok (tint, d)

pub is_word : Tok → Bool
is_word ttok = true
is_word _ = false

pub reread : ℕ → Lexer → Lexed Lexer
unfolding word_token_at
reread fuel lx = word_token_at fuel (drop lx.curr.tok_s lx.curr_cmd) >>= λ r.
    ok (record lx { curr = record { tok_typ = r.0; tok_s = lx.curr.tok_s; tok_len = r.1 } })

pub get_token : ℕ → Lexer → Lexed Lexer
unfolding is_word reread
get_token fuel lx =
    get_tok fuel lx >>= λ l. elim (is_word l.curr.tok_typ) [ true ↦ reread fuel l | false ↦ ok l ]
