-- ===== src/Functions/Spell/Reading.antt =====
-- server/hb/fcn.c: the text of a number, read back.
use db3w.Common.{
  ℕ, zero, suc, ◌+◌, ◌-◌, ◌*◌, ◌/◌, ◌%◌, ◌<◌, ◌≤◌, ◌≡◌, refl, ap, ◌∙◌, ◌⊎◌, inl, inr, List, [], ◌∷◌,
  ◌++◌, some, arith, Option-cases, get_elem_below,
}
use db3w.Common.Text.{codes}
use db3w.Functions.Text.{blank}
use db3w.Functions.Spell.{
  spelling, words_text, nums1, nums2, Word, one_of, tens_of, hundred, thousand, million, billion,
  nothing_left, below_20, below_100, group, size, numspell,
}
use db3w.Functions.Spell.Dictionary.{read_words, read_text, read_on-words_text, some_not_none}
use db3w.Functions.Spell.Groups.{
  to_state, Reads, small-Reads, hundred-Reads, thousand-Reads, million-Reads, billion-Reads,
}

-- Every word of the list is in the tables.
abbrev HasText : List Word → Type 0
HasText ws = (t : List ℕ) × (words_text ws ≡ some t)

word-HasText :
    (w : Word) (t : List ℕ) (ws : List Word) → spelling w ≡ some t → HasText ws → HasText (w ∷ ws)
unfolding words_text
word-HasText w t ws h (r, k) = (t ++ (blank ∷ r), rw (h, k) refl)

append-HasText : (a b : List Word) → HasText a → HasText b → HasText (a ++ b)
unfolding words_text
append-HasText [] b h k = k
append-HasText (w ∷ a) b (t, h) k = elim (Option-cases (spelling w)) [
  | inl bad ↦ absurd (some_not_none t (words_text (w ∷ a)) h (rw bad refl))
  | inr (s, good) ↦ elim (Option-cases (words_text a)) [
    | inl bad ↦ absurd (some_not_none t (words_text (w ∷ a)) h (rw (good, bad) refl))
    | inr (r, rest) ↦ word-HasText w s (a ++ b) good (append-HasText a b (r, rest) k)
  ]
]

-- What `numspell` gives with a certain fuel.
abbrev Spelled : ℕ → ℕ → Type 0
Spelled fuel n = (ws : List Word) × (numspell fuel n ≡ some ws) × Reads n ws × HasText ws

words_text_nil : words_text [] ≡ some []
unfolding words_text
words_text_nil = refl

one-HasText : (i : ℕ) → i < 19 → HasText (one_of i ∷ [])
unfolding spelling
one-HasText i h =
    let (t, k) = get_elem_below nums1 i h in word-HasText (one_of i) t [] k ([], words_text_nil)

ten-HasText : (i : ℕ) (ws : List Word) → i < 8 → HasText ws → HasText (tens_of i ∷ ws)
unfolding spelling
ten-HasText i ws h k = let (t, l) = get_elem_below nums2 i h in word-HasText (tens_of i) t ws l k

group-Spelled :
    (fuel n d : ℕ) (w : Word) (t : List ℕ) (h : Spelled fuel (n / d)) (l : Spelled fuel (n % d))
    → size n ≡ group d w
    → spelling w ≡ some t
    → ((a b : List Word) → Reads (n / d) a → Reads (n % d) b → Reads n (a ++ (w ∷ b)))
    → Spelled (suc fuel) n
unfolding numspell
group-Spelled fuel n d w t (a, ha, ra, sa) (b, hb, rb, sb) hs hw hr = (
  a ++ (w ∷ b),
  rw (numspell, hs, ha, hb) refl,
  hr a b ra rb,
  append-HasText a (w ∷ b) sa (word-HasText w t b hw sb),
)

-- The size of a number, with its bounds.
abbrev SizeOf : ℕ → Type 0
SizeOf n =
    ((size n ≡ nothing_left) × (n ≡ 0))
    ⊎ (((size n ≡ below_20) × (0 < n) × (n < 20))
        ⊎ (((size n ≡ below_100) × (20 ≤ n) × (n < 100))
            ⊎ (((size n ≡ group 100 hundred) × (100 ≤ n) × (n < 1000))
                ⊎ (((size n ≡ group 1000 thousand) × (1000 ≤ n) × (n < 1000000))
                    ⊎ (((size n ≡ group 1000000 million) × (1000000 ≤ n) × (n < 1000000000))
                        ⊎ ((size n ≡ group 1000000000 billion) × (1000000000 ≤ n)))))))

size_cases : (n : ℕ) → SizeOf n
unfolding size
size_cases n = ground arith

all-Spelled : (fuel n : ℕ) → n < fuel → Spelled fuel n
unfolding numspell spelling
all-Spelled zero n h = absurd (omega arith)
all-Spelled (suc fuel) n h = elim (size_cases n) [
  | inl (s, z) ↦ (
    [],
    rw (numspell, s) refl,
    small-Reads n [] (omega arith) (λ _ t c. to_state (t, c) t c t (c + n) refl refl (omega arith)),
    ([], words_text_nil),
  )
  | inr (inl (s, low, high)) ↦ (
    one_of (n - 1) ∷ [],
    rw (numspell, s) refl,
    small-Reads n (one_of (n - 1) ∷ []) (omega arith) (λ _ t c.
        to_state (t, c + (n - 1 + 1)) t (c + (n - 1 + 1)) t (c + n) refl refl (omega arith)),
    one-HasText (n - 1) (omega arith),
  )
  | inr (inr (inl (s, low, high))) ↦
      let (l, e, r, x) = all-Spelled fuel (n % 10) (omega arith) in
      (
        tens_of (n / 10 - 2) ∷ l,
        rw (numspell, s, e) refl,
        small-Reads n (tens_of (n / 10 - 2) ∷ l) high (λ _ t c.
            to_state (read_words l (t, c + (n / 10 - 2 + 2) * 10)) t
              (c + (n / 10 - 2 + 2) * 10 + n % 10) t (c + n)
              (r.0 (omega arith) t (c + (n / 10 - 2 + 2) * 10)) refl (omega arith)),
        ten-HasText (n / 10 - 2) l (omega arith) x,
      )
  | inr (inr (inr (inl (s, low, high)))) ↦
      group-Spelled fuel n 100 hundred (codes "hundred") (all-Spelled fuel (n / 100) (omega arith))
        (all-Spelled fuel (n % 100) (omega arith)) s refl
        (λ a b r q. hundred-Reads n a b low high r q)
  | inr (inr (inr (inr (inl (s, low, high))))) ↦
      group-Spelled fuel n 1000 thousand (codes "thousand")
        (all-Spelled fuel (n / 1000) (omega arith)) (all-Spelled fuel (n % 1000) (omega arith)) s
        refl (λ a b r q. thousand-Reads n a b low high r q)
  | inr (inr (inr (inr (inr (inl (s, low, high)))))) ↦
      group-Spelled fuel n 1000000 million (codes "million")
        (all-Spelled fuel (n / 1000000) (omega arith))
        (all-Spelled fuel (n % 1000000) (omega arith)) s refl
        (λ a b r q. million-Reads n a b low high r q)
  | inr (inr (inr (inr (inr (inr (s, low)))))) ↦
      group-Spelled fuel n 1000000000 billion (codes "billion")
        (all-Spelled fuel (n / 1000000000) (omega arith))
        (all-Spelled fuel (n % 1000000000) (omega arith)) s refl
        (λ a b r q. billion-Reads n a b low r q)
]

-- `numspell` ends for every number within as many nested calls as the number plus one; all its words
-- are in the tables, and an English reader of their text, who looks each word up in a dictionary,
-- understands that number.
pub read_text-numspell :
    (n : ℕ)
    → (ws : List Word) × (t : List ℕ) × (numspell (n + 1) n ≡ some ws)
      × (words_text ws ≡ some t)
      × (read_text t ≡ some n)
read_text-numspell n =
    let (ws, e, r, (t, x)) = all-Spelled (n + 1) n (omega arith) in
    (ws, t, e, x, read_on-words_text ws t (0, 0) x ∙ ap some r.3)
