-- ===== src/Btree/Order/Sorted.antt =====
-- In a sorted sequence what a target is above stands ahead.
use db3w.Common.{◌≡◌, ◌≢◌, true, false, inl, inr, List, [], ◌∷◌, arith}
use db3w.Pages.{Entry}
use db3w.Btree.{positive, negative, is_zero, recno_cmp}
use db3w.Btree.Order.Find.{negative_low, zero_low}
use db3w.Btree.Order.{Item, KeyOrder, All, Ahead, IsMonotone, Before, IsSorted, IsTarget, order}

-- The comparison of a target with an item, as one of three.
above_keys :
    (K : KeyOrder) (t : Entry) (x y : Item)
    → K.IsKey x.key
    → K.IsKey y.key
    → positive (K.compare x.key y.key) ≡ false
    → (positive (K.compare t.key y.key) ≡ true → positive (K.compare t.key x.key) ≡ true)
      × (negative (K.compare t.key x.key) ≡ true → negative (K.compare t.key y.key) ≡ true)
above_keys K t x y kx ky le =
    (λ h. K.above_of t.key x.key y.key kx ky le h, λ h. K.below_of t.key x.key y.key kx ky le h)

module _ (K : KeyOrder) (t : Entry) (target : IsTarget K t) where
  Before-Ahead : (x y : Item) → K.IsKey x.key → K.IsKey y.key → Before K x y → Ahead K.compare t x y
  unfolding order recno_cmp
  Before-Ahead x y kx ky (inl less) =
      let (up, down) = above_keys K t x y kx ky (negative_low _ less) in
      let up_equal : t.recno ≢ 0
          → is_zero (K.compare t.key y.key) ≡ true
          → positive (K.compare t.key x.key) ≡ true =
        λ n h. K.above_of_equal t.key x.key y.key (target n) kx ky less h in
      let down_equal : t.recno ≢ 0
          → is_zero (K.compare t.key x.key) ≡ true
          → negative (K.compare t.key y.key) ≡ true =
        λ n h. K.below_of_equal t.key x.key y.key (target n) kx ky less h in
      ground arith
  Before-Ahead x y kx ky (inr (same, less)) =
      let (up, down) = above_keys K t x y kx ky (zero_low _ same) in ground arith

  Before-All :
      (x : Item) (xs : List Item)
      → K.IsKey x.key
      → All (Before K x) xs
      → IsSorted K xs
      → All (Ahead K.compare t x) xs
  Before-All x [] k a sorted = tt
  Before-All x (y ∷ ys) k (b, bs) (ky, later, sorted) =
      (Before-Ahead x y k ky b, Before-All x ys k bs sorted)

  pub IsSorted-IsMonotone : (xs : List Item) → IsSorted K xs → IsMonotone K.compare t xs
  IsSorted-IsMonotone [] sorted = tt
  IsSorted-IsMonotone (x ∷ xs) (k, later, sorted) =
      (Before-All x xs k later sorted, IsSorted-IsMonotone xs sorted)
