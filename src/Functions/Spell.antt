-- ===== src/Functions/Spell.antt =====
-- server/hb/fcn.c: `spellnum`, a number in words, as on a cheque.
pub mod Dictionary
pub mod Groups
pub mod Tests
pub mod Reading
use db3w.Common.{
  ℕ, zero, suc, ◌+◌, ◌-◌, ◌*◌, ◌/◌, ◌%◌, Bool, true, false, List, [], ◌∷◌, ◌++◌, Option, none, some,
  ltb, ◌==◌, if◌then◌else◌, get_elem?, take, ◌>>=◌,
}
use db3w.Common.Int.{ℤ, pos, negsuc, neg_ℤ, pos_part, neg_part, ltb_ℤ, quot, ◌+ℤ◌, ◌-ℤ◌, ◌*ℤ◌}
use db3w.Common.Word.{wrap64, to_int32}
use db3w.Common.Text.{codes}
use db3w.Functions.Text.{blank}
use db3w.Values.{Reals, Number, null, real, fixed, Result, ok, err, overread, sigfpe}
use db3w.Values.Arith.{power10}

abbrev pub nums1 : List (List ℕ)
nums1 =
    codes "one"
    ∷ codes "two"
    ∷ codes "three"
    ∷ codes "four"
    ∷ codes "five"
    ∷ codes "six"
    ∷ codes "seven"
    ∷ codes "eight"
    ∷ codes "nine"
    ∷ codes "ten"
    ∷ codes "eleven"
    ∷ codes "twelve"
    ∷ codes "thirteen"
    ∷ codes "fourteen"
    ∷ codes "fifteen"
    ∷ codes "sixteen"
    ∷ codes "seventeen"
    ∷ codes "eighteen"
    ∷ codes "nineteen"
    ∷ []

abbrev pub nums2 : List (List ℕ)
nums2 =
    codes "twenty"
    ∷ codes "thirty"
    ∷ codes "forty"
    ∷ codes "fifty"
    ∷ codes "sixty"
    ∷ codes "seventy"
    ∷ codes "eighty"
    ∷ codes "ninety"
    ∷ []

-- The words: an entry of either table, or one that the code names.
pub data Word : Type 0 where
  one_of tens_of : ℕ → Word
  hundred thousand million billion : Word

pub spelling : Word → Option (List ℕ)
spelling (one_of i) = get_elem? nums1 i
spelling (tens_of i) = get_elem? nums2 i
spelling hundred = some (codes "hundred")
spelling thousand = some (codes "thousand")
spelling million = some (codes "million")
spelling billion = some (codes "billion")

-- The buffer holds blanks, so each word ends in one.
pub words_text : List Word → Option (List ℕ)
unfolding spelling
words_text [] = some []
words_text (w ∷ ws) = spelling w >>= λ t. words_text ws >>= λ rest. some (t ++ (blank ∷ rest))

-- The two calls around the word for `unit`.
abbrev pub around : Option (List Word) → Word → Option (List Word) → Option (List Word)
around high unit low = high >>= λ h. low >>= λ l. some (h ++ (unit ∷ l))

-- The cases of `numspell`; in `group` stand the unit and its word.
pub data Size : Type 0 where
  nothing_left below_20 below_100 : Size
  group : ℕ → Word → Size

pub size : ℕ → Size
size n =
    if n == 0
    then nothing_left
    else if ltb n 20
    then below_20
    else if ltb n 100
    then below_100
    else if ltb n 1000
    then group 100 hundred
    else if ltb n 1000000
    then group 1000 thousand
    else if ltb n 1000000000
    then group 1000000 million
    else group 1000000000 billion

-- `none` is a lack of fuel.
pub numspell : ℕ → ℕ → Option (List Word)
unfolding size
numspell zero n = none
numspell (suc fuel) n = elim (size n) [
  | nothing_left ↦ some []
  | below_20 ↦ some (one_of (n - 1) ∷ [])
  | below_100 ↦ numspell fuel (n % 10) >>= λ l. some (tens_of (n / 10 - 2) ∷ l)
  | group d w ↦ around (numspell fuel (n / d)) w (numspell fuel (n % d))
]

-- `%02d`.
pub digits : ℕ → ℕ → List ℕ
digits zero n = []
digits (suc fuel) n =
    let rest = digits fuel (n / 10) in
    if ltb n 10 then (n + b'0') ∷ [] else rest ++ ((n % 10 + b'0') ∷ [])

pub two_wide : ℤ → List ℕ
unfolding digits
two_wide (pos n) = if ltb n 10 then b'0' ∷ digits 20 n else digits 20 n
two_wide (negsuc n) = b'-' ∷ digits 20 (suc n)

-- Ten bytes of the text are kept, whatever the length of the number.
pub cents_text : ℤ → List ℕ
unfolding two_wide
cents_text cents = take 10 (codes "and " ++ (two_wide cents ++ codes "/100"))

-- The whole part and the cents of a number with `deci` decimals; `cents` is an `int`.
pub parts_of : ℕ → ℤ → ℤ × ℤ
parts_of deci num =
    let n = quot num (power10 deci) in
    let cents = to_int32 (wrap64 (num -ℤ wrap64 (n *ℤ power10 deci))) in
    let up =
      to_int32
        (quot (wrap64 (cents +ℤ wrap64 (pos 5 *ℤ power10 (deci - 3)))) (power10 (deci - 2))) in
    if deci == 0
    then (num, pos 0)
    else if deci == 1
    then (n, to_int32 (cents *ℤ pos 10))
    else if deci == 2
    then (n, cents)
    else if ltb_ℤ up (pos 100)
    then (n, up)
    else (n +ℤ pos 1, pos 0)

-- `num.n = -num.n` for a negative number, with the word for it.
pub without_sign : ℤ → List ℕ × ℤ
without_sign (pos n) = ([], pos n)
without_sign (negsuc n) = (codes "minus ", wrap64 (pos (suc n)))

-- A number below 1 is looked up in front of the table.
pub spelled : ℤ → Option (List ℕ)
unfolding numspell words_text
spelled (pos n) = numspell (suc n) n >>= λ ws. words_text ws
spelled (negsuc n) = none

pub cheque : List ℕ → ℤ × ℤ → Option (List ℕ)
unfolding spelled cents_text
cheque sign (n, cents) = spelled n >>= λ t. some (sign ++ (t ++ cents_text cents))

-- The text of a number that is not null or real.
pub spell_fixed : ℕ → ℤ → Option (List ℕ)
unfolding cheque parts_of without_sign
spell_fixed deci num = let (sign, n) = without_sign num in cheque sign (parts_of deci n)
