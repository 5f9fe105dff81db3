-- ===== src/Keys/Tests.antt =====
-- The theorems on keys at concrete bytes.
use db3w.Common.{ℕ, ◌≡◌, ◌≢◌, refl, true, some, none, [], ◌∷◌, List, arith, Option, ◌++◌}
use db3w.Common.Int.{ℤ, pos}
use db3w.Values.Tests.{reals}
use db3w.Values.Bop.Text.{is_prefix}
use db3w.Keys.{text, numeric, combined, skcmp, keycmp}
use db3w.Keys.Text.{no_zero, dictionary, is_equal, skcmp_order, skcmp_prefix}
use db3w.Keys.Combined.{keycmp_exact}

abbrev smith : List ℕ
smith = b's' ∷ b'm' ∷ b'i' ∷ []

abbrev smoke : List ℕ
smoke = b's' ∷ b'm' ∷ b'o' ∷ []

-- A number is its first byte here.
abbrev first_byte : List ℕ → Option ℤ
first_byte [] = none
first_byte (b ∷ s) = some (pos b)

skcmp_order_example : skcmp smith smoke 3 ≡ some (dictionary smith smoke)
unfolding no_zero
skcmp_order_example = skcmp_order smith smoke refl refl

skcmp_prefix_example :
    is_equal (skcmp ((b's' ∷ b'm' ∷ []) ++ (0 ∷ [])) smoke 3) ≡ is_prefix (b's' ∷ b'm' ∷ []) smoke
unfolding no_zero
skcmp_prefix_example = skcmp_prefix b's' (b'm' ∷ []) [] smoke 3 refl (omega arith) (omega arith)

keycmp_exact_example :
    keycmp reals first_byte true
      (combined (text 3 ∷ numeric ∷ []))
      (smith ++ (7 ∷ []))
      (smith ++ (7 ∷ []))
    ≢ some (pos 0)
keycmp_exact_example =
    keycmp_exact reals first_byte (text 3 ∷ numeric ∷ []) (smith ++ (7 ∷ [])) (smith ++ (7 ∷ []))
