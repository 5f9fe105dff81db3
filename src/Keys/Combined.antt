-- ===== src/Keys/Combined.antt =====
-- Combined keys.
use db3w.Common.{ℕ, zero, suc, ◌≢◌, true, List, [], ◌∷◌, Option, none, some, arith, ◌>>=◌}
use db3w.Common.Int.{ℤ, pos, negsuc}
use db3w.Values.{Reals}
use db3w.Keys.{Part, combined, part_len, skip, part_cmp, unless_zero, parts_cmp, keycmp}

module _ (R : Reals) (read_double : List ℕ → Option R.Real) where
  unless_zero-pos :
      (rest : Option ℤ) (o : Option ℤ)
      → rest ≢ some (pos 0)
      → (o >>= unless_zero R read_double rest) ≢ some (pos 0)
  unfolding unless_zero
  unless_zero-pos rest none h = λ e. cc
  unless_zero-pos rest (some (pos zero)) h = h
  unless_zero-pos rest (some (pos (suc n))) h = λ e. ground arith
  unless_zero-pos rest (some (negsuc n)) h = λ e. cc

  parts_cmp_exact :
      (parts : List Part) (p q : List ℕ) → parts_cmp R read_double true parts p q ≢ some (pos 0)
  unfolding parts_cmp
  parts_cmp_exact [] p q = λ e. ground arith
  parts_cmp_exact (part ∷ parts) p q =
      unless_zero-pos _ (part_cmp R read_double part p q)
        (parts_cmp_exact parts (skip (part_len part) p) (skip (part_len part) q))

  -- Under SET EXACT ON two combined keys are never found equal, a key and itself included.
  pub keycmp_exact :
      (parts : List Part) (p q : List ℕ)
      → keycmp R read_double true (combined parts) p q ≢ some (pos 0)
  unfolding keycmp
  keycmp_exact parts p q = parts_cmp_exact parts p q
