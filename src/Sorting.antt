-- ===== src/Sorting.antt =====
-- server/dbe/vsort.c: the insertion sort of key pointers, `insort`. The comparison is the parameter
-- `qcomp`, as in VSORT_CTL, already applied to the key's size and type.
pub mod Insertion
pub mod Tests
use db3w.Common.{Bool, List, [], ◌∷◌, if◌then◌else◌}
use db3w.Common.Int.{ℤ, pos, ltb_ℤ, neg_ℤ}

module _ {ℓ} {A : Type ℓ} (qcomp : A → A → ℤ) (descending : Bool) where
  -- `cmp`, turned for a descending sort.
  pub directed : A → A → ℤ
  directed x y = if descending then neg_ℤ (qcomp x y) else qcomp x y

  -- The slots from `i` down to `start`, the last one first: a slot is moved up while `x` comes before it.
  pub place : A → List A → List A
  place x [] = x ∷ []
  place x (y ∷ below) =
      let rest = place x below in if ltb_ℤ (directed x y) (pos 0) then y ∷ rest else x ∷ y ∷ below

  -- The outer loop; the first list is the sorted part below `k`, its last slot first.
  pub sort_in : List A → List A → List A
  sort_in sorted [] = sorted
  sort_in sorted (x ∷ rest) = sort_in (place x sorted) rest

  -- Back to the order of the slots.
  pub slots : List A → List A → List A
  slots [] above = above
  slots (x ∷ below) above = slots below (x ∷ above)

  -- The `nitms` slots from `start`.
  pub insort : List A → List A
  insort [] = []
  insort (x ∷ rest) = slots (sort_in (x ∷ []) rest) []
