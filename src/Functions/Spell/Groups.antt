-- ===== src/Functions/Spell/Groups.antt =====
-- server/hb/fcn.c: the value of the words of `numspell`, group by group.
use db3w.Common.{ℕ, ◌+◌, ◌*◌, ◌/◌, ◌%◌, ◌<◌, ◌≤◌, ◌≡◌, refl, ap, ◌∙◌, List, [], ◌∷◌, ◌++◌, arith}
use db3w.Functions.Spell.{Word, hundred, thousand, million, billion}
use db3w.Functions.Spell.Dictionary.{next_word, read_words, meaning}

read_words-append :
    (a b : List Word) (p : ℕ × ℕ) → read_words (a ++ b) p ≡ read_words b (read_words a p)
read_words-append [] b p = refl
read_words-append (w ∷ a) b p = read_words-append a b (next_word w p.0 p.1)

-- How the words of `n` are read, by the size of `n`.
abbrev pub Below100 : ℕ → List Word → Type 0
Below100 n ws = n < 100 → (t c : ℕ) → read_words ws (t, c) ≡ (t, c + n)

abbrev pub Below1000 : ℕ → List Word → Type 0
Below1000 n ws = n < 1000 → (t : ℕ) → read_words ws (t, 0) ≡ (t, n)

abbrev pub BelowBillion : ℕ → List Word → Type 0
BelowBillion n ws =
    n < 1000000000 → (t : ℕ) → read_words ws (t, 0) ≡ (t + n / 1000 * 1000, n % 1000)

abbrev pub Reads : ℕ → List Word → Type 0
Reads n ws = Below100 n ws × Below1000 n ws × BelowBillion n ws × (meaning ws ≡ n)

abbrev pub pair_of : ℕ → ℕ → ℕ × ℕ
pair_of t c = (t, c)

-- A state that is reached is known by its two numbers.
pub to_state : (p : ℕ × ℕ) (a b c d : ℕ) → p ≡ pair_of a b → a ≡ c → b ≡ d → p ≡ pair_of c d
to_state p a b c d h k l = rw (h, k, l) refl

-- A number below 100.
pub small-Reads : (n : ℕ) (ws : List Word) → n < 100 → Below100 n ws → Reads n ws
small-Reads n ws low h =
    let at_0 : (t : ℕ) → read_words ws (t, 0) ≡ pair_of t n =
      λ t. to_state (read_words ws (t, 0)) t (0 + n) t n (h low t 0) refl (omega arith) in
    (
      h,
      (λ _ t. at_0 t),
      (λ _ t.
          to_state (read_words ws (t, 0)) t n (t + n / 1000 * 1000) (n % 1000) (at_0 t)
            (omega arith) (omega arith)),
      rw (at_0 0) (omega arith),
    )

module _ (n : ℕ) (a b : List Word) where
  -- The words of the high part, the unit and the low part, one after the other.
  read_words-around :
      (w : Word) (p q : ℕ × ℕ)
      → read_words a p ≡ q
      → read_words (a ++ (w ∷ b)) p ≡ read_words b (next_word w q.0 q.1)
  read_words-around w p q h =
      read_words-append a (w ∷ b) p ∙ ap (λ r. read_words b (next_word w r.0 r.1)) h

  pub hundred-Reads :
      100 ≤ n → n < 1000 → Reads (n / 100) a → Reads (n % 100) b → Reads n (a ++ (hundred ∷ b))
  hundred-Reads low high h l =
      let all : (t : ℕ) → read_words (a ++ (hundred ∷ b)) (t, 0) ≡ pair_of t n = λ t.
        to_state (read_words (a ++ (hundred ∷ b)) (t, 0)) t (n / 100 * 100 + n % 100) t n
          (read_words-around hundred (t, 0) (t, n / 100) (h.1 (omega arith) t)
            ∙ l.0 (omega arith) t (n / 100 * 100))
          refl (omega arith) in
      (
        (λ k t c. absurd (omega arith)),
        (λ _ t. all t),
        (λ _ t.
            to_state (read_words (a ++ (hundred ∷ b)) (t, 0)) t n (t + n / 1000 * 1000) (n % 1000)
              (all t) (omega arith) (omega arith)),
        rw (all 0) (omega arith),
      )

  pub thousand-Reads :
      1000 ≤ n
      → n < 1000000
      → Reads (n / 1000) a
      → Reads (n % 1000) b
      → Reads n (a ++ (thousand ∷ b))
  thousand-Reads low high h l =
      let all : (t : ℕ)
          → read_words (a ++ (thousand ∷ b)) (t, 0) ≡ pair_of (t + n / 1000 * 1000) (n % 1000) =
        λ t.
          read_words-around thousand (t, 0) (t, n / 1000) (h.1 (omega arith) t)
          ∙ l.1 (omega arith) (t + n / 1000 * 1000) in
      (
        (λ k t c. absurd (omega arith)),
        (λ k t. absurd (omega arith)),
        (λ _ t. all t),
        rw (all 0) (omega arith),
      )

  pub million-Reads :
      1000000 ≤ n
      → n < 1000000000
      → Reads (n / 1000000) a
      → Reads (n % 1000000) b
      → Reads n (a ++ (million ∷ b))
  million-Reads low high h l =
      let m = n % 1000000 in
      let all : (t : ℕ)
          → read_words (a ++ (million ∷ b)) (t, 0) ≡ pair_of (t + n / 1000 * 1000) (n % 1000) =
        λ t.
          to_state (read_words (a ++ (million ∷ b)) (t, 0))
            (t + n / 1000000 * 1000000 + m / 1000 * 1000) (m % 1000) (t + n / 1000 * 1000)
            (n % 1000)
            (read_words-around million (t, 0) (t, n / 1000000) (h.1 (omega arith) t)
              ∙ l.2 (omega arith) (t + n / 1000000 * 1000000))
            (omega arith) (omega arith) in
      (
        (λ k t c. absurd (omega arith)),
        (λ k t. absurd (omega arith)),
        (λ _ t. all t),
        rw (all 0) (omega arith),
      )

  pub billion-Reads :
      1000000000 ≤ n
      → Reads (n / 1000000000) a
      → Reads (n % 1000000000) b
      → Reads n (a ++ (billion ∷ b))
  billion-Reads low h l =
      let m = n % 1000000000 in
      let q = read_words a (0, 0) in
      (
        (λ k t c. absurd (omega arith)),
        (λ k t. absurd (omega arith)),
        (λ k t. absurd (omega arith)),
        rw (read_words-around billion (0, 0) q refl, l.2 (omega arith) ((q.0 + q.1) * 1000000000))
            (omega (arith, h.3)),
      )
