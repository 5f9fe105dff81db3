-- ===== src/Keys.antt =====
-- server/dbe/ndx.c: the comparison of index keys, `skcmp`, `nkcmp` and `keycmp`. A key is a list of
-- bytes; a read behind its end is `none`.
pub mod Text
pub mod Combined
pub mod Order
pub mod Tests
use db3w.Common.{
  ℕ, zero, suc, ◌+◌, ◌*◌, Bool, true, false, ◌&&◌, List, [], ◌∷◌, Option, none, some, ltb, ◌==◌,
  if◌then◌else◌, ◌>>=◌,
}
use db3w.Common.Int.{ℤ, pos, negsuc}
use db3w.Values.{Reals, real}
use db3w.Values.Arith.{questn, num_rel}

-- The loop of `skcmp`; `later` is `i != 0`. A zero byte ends the target behind its first byte.
unfoldable pub skcmp_from : Bool → ℕ → List ℕ → List ℕ → Option ℤ
skcmp_from later zero p q = some (pos 0)
skcmp_from later (suc n) [] q = none
skcmp_from later (suc n) (a ∷ p) [] = none
skcmp_from later (suc n) (a ∷ p) (b ∷ q) =
    let rest = skcmp_from true n p q in
    if later && (a == 0)
    then some (pos 0)
    else if ltb b a
    then some (pos 1)
    else if ltb a b
    then some (negsuc 0)
    else rest

unfoldable pub skcmp : List ℕ → List ℕ → ℕ → Option ℤ
skcmp p q len = skcmp_from false len p q

-- A part of a combined key, `struct cmbk`: text of a length, or a number.
pub data Part : Type 0 where
  text : ℕ → Part
  numeric : Part

-- The key of an index: `keytyp` and, for CMBK, `cmbkey`.
pub data KeyForm : Type 0 where
  single : Part → KeyForm
  combined : List Part → KeyForm

-- `sizeof(double)` is 8.
abbrev pub part_len : Part → ℕ
part_len (text n) = n
part_len numeric = 8

-- `p += len`.
pub skip : ℕ → List ℕ → List ℕ
skip zero s = s
skip (suc n) [] = []
skip (suc n) (x ∷ s) = skip n s

-- `read_double` reads the eight bytes of a number.
module _ (R : Reals) (read_double : List ℕ → Option R.Real) where
  pub nkcmp : List ℕ → List ℕ → Option ℤ
  nkcmp p q =
      read_double p >>= λ r1. read_double q >>= λ r2. some (num_rel R (real r1) (real r2) questn)

  pub part_cmp : Part → List ℕ → List ℕ → Option ℤ
  part_cmp (text n) p q = skcmp p q n
  part_cmp numeric p q = nkcmp p q

  -- `return(r)` for a part that differs.
  pub unless_zero : Option ℤ → ℤ → Option ℤ
  unless_zero rest (pos zero) = rest
  unless_zero rest (pos (suc n)) = some (pos (suc n))
  unless_zero rest (negsuc n) = some (negsuc n)

  -- Behind the loop `i == cmkp->nparts` is 1.
  pub parts_cmp : Bool → List Part → List ℕ → List ℕ → Option ℤ
  unfolding unless_zero
  parts_cmp exact_on [] p q = if exact_on then some (pos 1) else some (pos 0)
  parts_cmp exact_on (part ∷ parts) p q =
      part_cmp part p q
      >>= unless_zero (parts_cmp exact_on parts (skip (part_len part) p) (skip (part_len part) q))

  pub keycmp : Bool → KeyForm → List ℕ → List ℕ → Option ℤ
  keycmp exact_on (single part) p q = part_cmp part p q
  keycmp exact_on (combined parts) p q = parts_cmp exact_on parts p q
