-- ===== src/Keys/Text.antt =====
-- Text keys: `skcmp` against the order of the dictionary and against prefixes.
use db3w.Common.{
  ℕ, zero, suc, ◌≡◌, refl, Bool, true, false, ◌&&◌, not, List, [], ◌∷◌, ◌++◌, some, arith, ◌==◌,
  if◌then◌else◌, length, ◌<◌, Option,
}
use db3w.Common.Int.{ℤ, pos, negsuc}
use db3w.Values.Bop.Text.{lex_less, is_prefix}
use db3w.Keys.{skcmp_from, skcmp}

-- No byte is zero.
unfoldable pub no_zero : List ℕ → Bool
no_zero [] = true
no_zero (a ∷ p) = not (a == 0) && no_zero p

-- -1, 0 or 1 by the order of the dictionary.
pub dictionary : List ℕ → List ℕ → ℤ
dictionary p q = if lex_less p q then negsuc 0 else if lex_less q p then pos 1 else pos 0

skcmp_from-dictionary :
    (later : Bool) (p q : List ℕ)
    → no_zero p ≡ true
    → length p ≡ length q
    → skcmp_from later (length p) p q ≡ some (dictionary p q)
unfolding no_zero dictionary skcmp_from lex_less
skcmp_from-dictionary later [] [] z e = refl
skcmp_from-dictionary later [] (b ∷ q) z e = ground arith
skcmp_from-dictionary later (a ∷ p) [] z e = ground arith
skcmp_from-dictionary later (a ∷ p) (b ∷ q) z e =
    ground (arith, skcmp_from-dictionary true p q (ground arith) (omega arith))

-- A text key without zero bytes is compared with a key of its length by the order of the dictionary.
pub skcmp_order :
    (p q : List ℕ)
    → no_zero p ≡ true
    → length p ≡ length q
    → skcmp p q (length p) ≡ some (dictionary p q)
unfolding skcmp
skcmp_order p q z e = skcmp_from-dictionary false p q z e

-- The result says that the keys are equal.
abbrev pub is_equal : Option ℤ → Bool
is_equal (some (pos zero)) = true
is_equal _ = false

skcmp_from-is_prefix :
    (p z q : List ℕ) (n : ℕ)
    → no_zero p ≡ true
    → length p < n
    → length p < length q
    → is_equal (skcmp_from true n (p ++ (0 ∷ z)) q) ≡ is_prefix p q
unfolding skcmp_from is_prefix no_zero
skcmp_from-is_prefix p z [] n e h l = absurd (omega arith)
skcmp_from-is_prefix p z (b ∷ q) zero e h l = absurd (omega arith)
skcmp_from-is_prefix [] z (b ∷ q) (suc n) e h l = refl
skcmp_from-is_prefix (a ∷ p) z (b ∷ q) (suc n) e h l =
    ground (arith, skcmp_from-is_prefix p z q n (ground arith) (omega arith) (omega arith))

-- A target that ends in a zero byte within the key, behind at least one byte, is found equal to exactly
-- the keys that it is a beginning of.
pub skcmp_prefix :
    (a : ℕ) (p z q : List ℕ) (n : ℕ)
    → no_zero (a ∷ p) ≡ true
    → length (a ∷ p) < n
    → length (a ∷ p) < length q
    → is_equal (skcmp ((a ∷ p) ++ (0 ∷ z)) q n) ≡ is_prefix (a ∷ p) q
unfolding skcmp skcmp_from is_prefix no_zero
skcmp_prefix a p z [] n e h l = absurd (omega arith)
skcmp_prefix a p z (b ∷ q) zero e h l = absurd (omega arith)
skcmp_prefix a p z (b ∷ q) (suc n) e h l =
    ground (arith, skcmp_from-is_prefix p z q n (ground arith) (omega arith) (omega arith))
