-- ===== src/Functions/Spell/Dictionary.antt =====
-- server/hb/fcn.c: an English reader of the text of a number, by a dictionary of its own.
use db3w.Common.{
  ℕ, zero, suc, ◌+◌, ◌*◌, ◌≡◌, refl, sym, ◌∙◌, Bool, true, false, ◌&&◌, List, [], ◌∷◌, ◌++◌, Option,
  none, some, ◌>>=◌, ◌==◌, if◌then◌else◌, get_elem?, inl, inr, Option-cases,
}
use db3w.Common.Text.{codes}
use db3w.Functions.Text.{blank}
use db3w.Functions.Spell.{
  spelling, words_text, nums1, nums2, Word, one_of, tens_of, hundred, thousand, million, billion,
}

-- What a word does: the hundred multiplies what stands behind the last larger unit, the thousand and
-- the million do and end it, and the billion multiplies everything.
pub data Meaning : Type 0 where
  adds times ends multiplies : ℕ → Meaning

abbrev dictionary : List (List ℕ × Meaning)
dictionary =
    (codes "billion", multiplies 1000000000)
    ∷ (codes "eight", adds 8)
    ∷ (codes "eighteen", adds 18)
    ∷ (codes "eighty", adds 80)
    ∷ (codes "eleven", adds 11)
    ∷ (codes "fifteen", adds 15)
    ∷ (codes "fifty", adds 50)
    ∷ (codes "five", adds 5)
    ∷ (codes "forty", adds 40)
    ∷ (codes "four", adds 4)
    ∷ (codes "fourteen", adds 14)
    ∷ (codes "hundred", times 100)
    ∷ (codes "million", ends 1000000)
    ∷ (codes "nine", adds 9)
    ∷ (codes "nineteen", adds 19)
    ∷ (codes "ninety", adds 90)
    ∷ (codes "one", adds 1)
    ∷ (codes "seven", adds 7)
    ∷ (codes "seventeen", adds 17)
    ∷ (codes "seventy", adds 70)
    ∷ (codes "six", adds 6)
    ∷ (codes "sixteen", adds 16)
    ∷ (codes "sixty", adds 60)
    ∷ (codes "ten", adds 10)
    ∷ (codes "thirteen", adds 13)
    ∷ (codes "thirty", adds 30)
    ∷ (codes "thousand", ends 1000)
    ∷ (codes "three", adds 3)
    ∷ (codes "twelve", adds 12)
    ∷ (codes "twenty", adds 20)
    ∷ (codes "two", adds 2)
    ∷ []

abbrev same : List ℕ → List ℕ → Bool
same [] [] = true
same (x ∷ a) (y ∷ b) = (x == y) && same a b
same _ _ = false

abbrev look_up : List ℕ → List (List ℕ × Meaning) → Option Meaning
look_up w [] = none
look_up w ((t, m) ∷ rest) = if same w t then some m else look_up w rest

abbrev understood : Meaning → ℕ × ℕ → ℕ × ℕ
understood (adds k) p = (p.0, p.1 + k)
understood (times k) p = (p.0, p.1 * k)
understood (ends k) p = (p.0 + p.1 * k, 0)
understood (multiplies k) p = ((p.0 + p.1) * k, 0)

-- The reader has the letters of the word that it is in, what it knows up to the last thousand, million
-- or billion, and what stands behind it. A word ends in a blank, and one that is not in the dictionary
-- ends the reading.
abbrev pub read_on : List ℕ → List ℕ → ℕ × ℕ → Option ℕ
read_on [] [] p = some (p.0 + p.1)
read_on (x ∷ w) [] p = none
read_on w (c ∷ cs) p = elim (c == blank) [
  | true ↦ look_up w dictionary >>= λ m. read_on [] cs (understood m p)
  | false ↦ read_on (w ++ (c ∷ [])) cs p
]

abbrev pub read_text : List ℕ → Option ℕ
read_text t = read_on [] t (0, 0)

-- The same for the words as the tables number them.
abbrev pub next_word : Word → ℕ → ℕ → ℕ × ℕ
next_word (one_of i) t c = (t, c + (i + 1))
next_word (tens_of i) t c = (t, c + (i + 2) * 10)
next_word hundred t c = (t, c * 100)
next_word thousand t c = (t + c * 1000, 0)
next_word million t c = (t + c * 1000000, 0)
next_word billion t c = ((t + c) * 1000000000, 0)

abbrev pub read_words : List Word → ℕ × ℕ → ℕ × ℕ
read_words [] p = p
read_words (w ∷ ws) p = read_words ws (next_word w p.0 p.1)

abbrev pub meaning : List Word → ℕ
meaning ws = let p = read_words ws (0, 0) in p.0 + p.1

-- A word of the text takes the reader where `f` says.
abbrev Known : (ℕ × ℕ → ℕ × ℕ) → List ℕ → Type 0
Known f t = (rest : List ℕ) (p : ℕ × ℕ) → read_on [] (t ++ (blank ∷ rest)) p ≡ read_on [] rest (f p)

-- The entries of a table add their values.
abbrev AllAdd : (ℕ → ℕ) → List (List ℕ) → Type 0
AllAdd value [] = Unit {0}
AllAdd value (t ∷ ts) = Known (λ p. (p.0, p.1 + value 0)) t × AllAdd (λ i. value (suc i)) ts

some_injective : (a b : List ℕ) → some a ≡ some b → a ≡ b
some_injective a b h = cc

entry-Known :
    (value : ℕ → ℕ) (j : ℕ) (ts : List (List ℕ)) (t : List ℕ)
    → AllAdd value ts
    → get_elem? ts j ≡ some t
    → Known (λ p. (p.0, p.1 + value j)) t
entry-Known value j [] t h e = absurd (cc)
entry-Known value zero (u ∷ ts) t h e = rw (← some_injective u t e) h.0
entry-Known value (suc j) (u ∷ ts) t h e = entry-Known (λ i. value (suc i)) j ts t h.1 e

nums1-AllAdd : AllAdd (λ i. i + 1) nums1
nums1-AllAdd = search

nums2-AllAdd : AllAdd (λ i. (i + 2) * 10) nums2
nums2-AllAdd = search

word-Known : (w : Word) (t : List ℕ) → spelling w ≡ some t → Known (λ p. next_word w p.0 p.1) t
unfolding spelling
word-Known (one_of i) t e = entry-Known (λ i. i + 1) i nums1 t nums1-AllAdd e
word-Known (tens_of i) t e = entry-Known (λ i. (i + 2) * 10) i nums2 t nums2-AllAdd e
word-Known hundred t e = rw (← some_injective (codes "hundred") t e) (λ rest p. refl)
word-Known thousand t e = rw (← some_injective (codes "thousand") t e) (λ rest p. refl)
word-Known million t e = rw (← some_injective (codes "million") t e) (λ rest p. refl)
word-Known billion t e = rw (← some_injective (codes "billion") t e) (λ rest p. refl)

pub some_not_none : (t : List ℕ) (o : Option (List ℕ)) → o ≡ some t → o ≡ none → ⊥
some_not_none t o h k = cc

-- The reader of the text gets what the words are worth.
pub read_on-words_text :
    (ws : List Word) (t : List ℕ) (p : ℕ × ℕ)
    → words_text ws ≡ some t
    → read_on [] t p ≡ (let q = read_words ws p in some (q.0 + q.1))
unfolding words_text
read_on-words_text [] t p h = rw (← some_injective [] t h) refl
read_on-words_text (w ∷ ws) t p h = elim (Option-cases (spelling w)) [
  | inl bad ↦ absurd (some_not_none t (words_text (w ∷ ws)) h (rw bad refl))
  | inr (s, good) ↦ elim (Option-cases (words_text ws)) [
    | inl bad ↦ absurd (some_not_none t (words_text (w ∷ ws)) h (rw (good, bad) refl))
    | inr (r, rest) ↦
        let all : words_text (w ∷ ws) ≡ some (s ++ (blank ∷ r)) = rw (good, rest) refl in
        let e : s ++ (blank ∷ r) ≡ t = some_injective (s ++ (blank ∷ r)) t (sym all ∙ h) in
        rw (← e) (word-Known w s good r p ∙ read_on-words_text ws r (next_word w p.0 p.1) rest)
  ]
]
