-- ===== src/Lexer.antt =====
-- server/hb/lex.c: the tokens of a command line, as the compiler reads them (`exe` is 0, where a macro
-- is left in the text). A line is the bytes in front of the null byte that ends it.
pub mod Run
pub mod Words
pub mod InLine
use db3w.Common.{
  ℕ, zero, suc, ◌+◌, ◌-◌, Bool, true, false, ◌&&◌, ◌||◌, not, List, [], ◌∷◌, Option, none, some,
  ltb, leb, ◌==◌, if◌then◌else◌, drop,
}
use db3w.Functions.Text.{is_alpha, is_digit, to_upper}

pub data Tok : Type 0 where
  tnulltok tid tlogic tint tnumber tlit tcomma tsemicolon tlparen trparen tat tlbrkt trbrkt : Tok
  tcolon tarrow tpound tperiod tand tor tnot tequal tgtrequ tgreater tlessequ tnequ tless : Tok
  tquestn tplus tminus tmult tdiv tpower tmac ttok teof : Tok

pub data Error : Type 0 where
  ill_symbol unbal_quote bad_varname : Error

-- `starved` is a lack of fuel.
pub data Lexed {ℓ} (A : Type ℓ) : Type ℓ where
  ok : A → Lexed A
  err : Error → Lexed A
  starved : Lexed A

infixl 5 ◌>>=◌
abbrev pub ◌>>=◌ {ℓ κ} : {A : Type ℓ} {B : Type κ} → Lexed A → (A → Lexed B) → Lexed B
ok a >>= f = f a
err e >>= f = err e
starved >>= f = starved

abbrev pub eof_mkr : ℕ
eof_mkr = 26

abbrev pub vnamelen : ℕ
vnamelen = 20

-- The byte at a pointer; behind the line stands the null byte.
abbrev pub peek : List ℕ → ℕ
peek [] = 0
peek (c ∷ v) = c

-- `isspace` in the C locale.
pub is_space : ℕ → Bool
is_space c = (c == 32) || (leb 9 c && leb c 13)

pub is_name : ℕ → Bool
is_name c = is_alpha c || is_digit c || (c == b'_')

pub starts_name : ℕ → Bool
starts_name c = is_alpha c || (c == b'_')

-- What `getvarname` and `getmac` look at.
pub data Here : Type 0 where
  ampersand name_byte other_byte : Here

pub here : ℕ → Here
unfolding is_name
here c = if c == b'&' then ampersand else if is_name c then name_byte else other_byte

pub mac_here : ℕ → Here
unfolding starts_name
mac_here c = if c == b'&' then ampersand else if starts_name c then name_byte else other_byte

-- The two functions call each other; a name is given by the text from its first byte, a macro by the
-- text from its `&`. The results are lengths.
pub data NamePart : Type 0 where
  name macro behind_macro : NamePart

pub name_len : ℕ → NamePart → List ℕ → Lexed ℕ
unfolding here mac_here
name_len zero _ v = starved
name_len (suc fuel) name v = elim (here (peek (drop 1 v))) [
  | ampersand ↦ name_len fuel macro (drop 1 v) >>= λ m.
      name_len fuel behind_macro (drop m (drop 1 v)) >>= λ n. ok (1 + m + n)
  | name_byte ↦ name_len fuel name (drop 1 v) >>= λ n. ok (1 + n)
  | other_byte ↦ ok 1
]
name_len (suc fuel) macro v = elim (mac_here (peek (drop 1 v))) [
  | ampersand ↦ name_len fuel macro (drop 1 v)
  | name_byte ↦ name_len fuel name (drop 1 v) >>= λ n. ok (n + 1)
  | other_byte ↦ err ill_symbol
]
name_len (suc fuel) behind_macro v = elim (is_name (peek v)) [
  | true ↦ name_len fuel name v
  | false ↦ ok 0
]

-- The loop of `get_tok` over a word, with whether it holds a macro.
pub data InWord : Type 0 where
  word_ends at_macro in_word : InWord

pub in_word_at : ℕ → InWord
unfolding is_space
in_word_at c =
    if (c == 0) || (is_space c || (c == b',') || (c == b'('))
    then word_ends
    else if c == b'&'
    then at_macro
    else in_word

pub word_len : ℕ → List ℕ → Lexed (Bool × ℕ)
unfolding in_word_at name_len
word_len zero v = starved
word_len (suc fuel) v = elim (in_word_at (peek v)) [
  | word_ends ↦ ok (false, 0)
  | at_macro ↦ name_len fuel macro v >>= λ m. word_len fuel (drop m v) >>= λ r. ok (true, m + r.1)
  | in_word ↦ word_len fuel (drop 1 v) >>= λ r. ok (r.0, 1 + r.1)
]

-- The length of a literal from behind its first quote on, with the closing one.
pub literal_len : ℕ → List ℕ → Option ℕ
literal_len q [] = none
literal_len q (c ∷ v) =
    let rest = literal_len q v in
    if c == 0
    then none
    else if c == q
    then some 1
    else elim rest [ none ↦ none | some n ↦ some (1 + n) ]

abbrev pub word_token : Bool × ℕ → Tok × ℕ
word_token (m, n) = ((if m then tmac else if n == 0 then tnulltok else ttok), n)

abbrev pub literal_token : Option ℕ → Lexed (Tok × ℕ)
literal_token none = err unbal_quote
literal_token (some n) = ok (tlit, 1 + n)

-- `get_tok` behind the blanks. A comment starts with `{`.
pub raw_token : ℕ → List ℕ → Lexed (Tok × ℕ)
unfolding word_len literal_len
raw_token fuel v =
    let c = peek v in
    if c == eof_mkr
    then ok (teof, 0)
    else if (c == b'\'') || (c == b'"')
    then literal_token (literal_len c (drop 1 v))
    else if c == b','
    then ok (tcomma, 1)
    else if c == b'('
    then ok (tlparen, 1)
    else if c == b'{'
    then ok (tnulltok, 0)
    else (word_len fuel v >>= λ r. ok (word_token r))

pub spaces_len : List ℕ → ℕ
unfolding is_space
spaces_len [] = 0
spaces_len (c ∷ v) = let rest = spaces_len v in if not (c == 0) && is_space c then 1 + rest else 0

pub record Token : Type 0 where
  pub tok_typ : Tok
  pub tok_s : ℕ
  pub tok_len : ℕ

-- The variables of the lexer: `curr_tok`, `currtok_s` and `currtok_len` are `curr`.
pub record Lexer : Type 0 where
  pub curr_cmd : List ℕ
  pub curr : Token
  pub last_tok : Token

abbrev pub save_token : Lexer → Token
save_token lx = lx.curr

abbrev pub rest_token : Token → Lexer → Lexer
rest_token tk lx = record lx { curr = tk }

pub get_tok : ℕ → Lexer → Lexed Lexer
unfolding raw_token spaces_len
get_tok fuel lx =
    let s = lx.curr.tok_s + lx.curr.tok_len in
    let s' = s + spaces_len (drop s lx.curr_cmd) in
    raw_token fuel (drop s' lx.curr_cmd) >>= λ r. ok (record {
      curr_cmd = lx.curr_cmd;
      curr = record { tok_typ = r.0; tok_s = s'; tok_len = r.1 };
      last_tok = save_token lx;
    })
