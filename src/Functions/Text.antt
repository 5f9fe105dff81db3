-- ===== src/Functions/Text.antt =====
-- server/hb/fcn.c: what the functions on texts compute. `to_upper` and `to_lower` are those of server/dbe/misc.c, in the C locale.
pub mod Pieces
pub mod Search
use mathlib.Core.List.{reverse}
use db3w.Common.{
  ℕ, zero, suc, ◌+◌, ◌-◌, ◌*◌, ◌/◌, ◌%◌, Bool, true, false, ◌&&◌, ◌||◌, List, [], ◌∷◌, ◌++◌, map,
  Option, none, some, ltb, leb, ◌==◌, if◌then◌else◌, length, take, drop,
}
use db3w.Common.Int.{ℤ, pos, pos_part}
use db3w.Values.{
  Reals, Result, ok, err, ◌>>=◌, charctr_typ, max_str_len, str_toolong, overread, sigfpe,
}
use db3w.Values.Stack.{Env, Stack, pop_stack, pop_int, push_int, push_string, push_logic, typechk}
use db3w.Values.Bop.{text_of}

abbrev pub blank : ℕ
blank = 32

-- The smaller one.
abbrev pub imin : ℕ → ℕ → ℕ
imin a b = if ltb b a then b else a

unfoldable pub is_lower : ℕ → Bool
is_lower c = leb b'a' c && leb c b'z'

unfoldable pub is_upper : ℕ → Bool
is_upper c = leb b'A' c && leb c b'Z'

unfoldable pub is_digit : ℕ → Bool
is_digit c = leb b'0' c && leb c b'9'

unfoldable pub is_alpha : ℕ → Bool
unfolding is_lower is_upper
is_alpha c = is_lower c || is_upper c

unfoldable pub to_upper : ℕ → ℕ
unfolding is_lower
to_upper c = if is_lower c then c - 32 else c

pub to_lower : ℕ → ℕ
unfolding is_upper
to_lower c = if is_upper c then c + 32 else c

-- From `start` on, which counts from 0; `none` is the mark -1.
pub piece : List ℕ → ℕ → Option ℕ → List ℕ
piece v start none = if ltb start (length v) then take (length v - start) (drop start v) else []
piece v start (some len) =
    if ltb start (length v) then take (imin len (length v - start)) (drop start v) else []

pub first_part : ℕ → List ℕ → List ℕ
first_part len v = take (imin len (length v)) v

pub last_part : ℕ → List ℕ → List ℕ
last_part len v = drop (length v - imin len (length v)) v

-- `none` is a text that is too long.
pub stuffed : List ℕ → ℕ → ℕ → List ℕ → Option (List ℕ)
stuffed v start len w =
    let start' = imin start (length v) in
    let len' = imin (length v - start') len in
    if ltb max_str_len (length v - len' + length w)
    then none
    else some (take start' v ++ (w ++ drop (start' + len') v))

-- Copies of a text, cut where the buffer is full; `str` is what the buffer holds.
pub copies : ℕ → List ℕ → List ℕ → List ℕ
copies zero v str = str
copies (suc n) v str = copies n v (str ++ take (imin (length v) (max_str_len - length str)) v)

pub blanks : ℕ → List ℕ
blanks zero = []
blanks (suc n) = blank ∷ blanks n

-- Without its blanks in front; the loop runs on behind a text of blanks.
pub from_nonblank : List ℕ → Option (List ℕ)
from_nonblank [] = none
from_nonblank (c ∷ v) = if c == blank then from_nonblank v else some (c ∷ v)

pub to_nonblank : List ℕ → Option (List ℕ)
unfolding from_nonblank
to_nonblank v = elim (from_nonblank (reverse v)) [ none ↦ none | some w ↦ some (reverse w) ]

-- The loop of `at` for the rounds left: `i` is the place in the whole text and `v` the text from there.
pub begins : List ℕ → List ℕ → Bool
begins [] v = true
begins (a ∷ p) [] = false
begins (a ∷ p) (b ∷ v) = (a == b) && begins p v

pub find_at : ℕ → ℕ → List ℕ → List ℕ → ℕ
find_at zero i p v = 0
find_at (suc n) i p v =
    let rest = find_at n (i + 1) p (drop 1 v) in if begins p v then i + 1 else rest

pub place_of : List ℕ → List ℕ → ℕ
unfolding find_at
place_of p v = if leb (length p) (length v) then find_at (length v - length p + 1) 0 p v else 0

pub count_at : ℕ → List ℕ → List ℕ → ℕ
count_at zero p v = 0
count_at (suc n) p v = (if begins p v then 1 else 0) + count_at n p (drop 1 v)

pub times_in : List ℕ → List ℕ → ℕ
unfolding count_at
times_in p v = if leb (length p) (length v) then count_at (length v - length p) p v else 0

pub data PadMode : Type 0 where
  pad_right pad_left pad_center : PadMode

-- `memcpy(str + at, w, …)`.
pub laid_over : ℕ → List ℕ → List ℕ → List ℕ
laid_over at w str = take at str ++ (w ++ drop (at + length w) str)

pub repeated : ℕ → List ℕ → List ℕ
repeated zero v = []
repeated (suc n) v = v ++ repeated n v

-- The buffer of `len` bytes filled with copies; an empty text is a divisor of 0.
pub padded : PadMode → List ℕ → ℕ → List ℕ → Result (List ℕ)
padded mode v len fill =
    if leb len (length v)
    then ok (take len v)
    else if length fill == 0
    then err sigfpe
    else (let str = repeated (len / length fill) fill ++ take (len % length fill) fill in
        ok (elim mode [
          | pad_right ↦ laid_over 0 v str
          | pad_left ↦ laid_over (len - length v) v str
          | pad_center ↦ laid_over ((len - length v) / 2) v str
        ]))

-- Words with a capital, and one blank between them; `c` is the last byte that is kept.
pub proper_from : ℕ → List ℕ → List ℕ
unfolding to_upper to_lower
proper_from c [] = []
proper_from c (b ∷ v) =
    if c == blank
    then (if b == blank then proper_from c v else to_upper b ∷ proper_from (to_upper b) v)
    else to_lower b ∷ proper_from (to_lower b) v

-- The digit of a letter, or 0 for none.
pub sound_of : ℕ → ℕ
sound_of c =
    if (c == b'B') || (c == b'F') || (c == b'P') || (c == b'V')
    then b'1'
    else if (c == b'C')
        || (c == b'G')
        || (c == b'J')
        || (c == b'K')
        || (c == b'Q')
        || (c == b'S')
        || (c == b'X')
        || (c == b'Z')
    then b'2'
    else if (c == b'D') || (c == b'T')
    then b'3'
    else if c == b'L'
    then b'4'
    else if (c == b'M') || (c == b'N')
    then b'5'
    else if c == b'R'
    then b'6'
    else 0

-- The rest of the code, of `room` bytes, behind the byte `last`.
pub sounds : ℕ → ℕ → List ℕ → List ℕ
unfolding sound_of to_upper
sounds zero last v = []
sounds (suc room) last [] = b'0' ∷ sounds room last []
sounds (suc room) last (b ∷ v) =
    let d = sound_of (to_upper b) in
    let new = d ∷ sounds room d v in
    let same = sounds (suc room) last v in if (d == 0) || (d == last) then same else new

pub sound_code : List ℕ → List ℕ
unfolding sounds to_upper
sound_code [] = sounds 4 0 []
sound_code (b ∷ v) = to_upper b ∷ sounds 3 (to_upper b) v

-- The trailing null byte of a text is not counted.
pub counted_len : List ℕ → ℕ
counted_len [] = 0
counted_len (c ∷ []) = if c == 0 then 0 else 1
counted_len (c ∷ d ∷ v) = 1 + counted_len (d ∷ v)
