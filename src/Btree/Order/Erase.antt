-- ===== src/Btree/Order/Erase.antt =====
-- The sequence without the item that a target matches.
use db3w.Common.{
  ℕ, ◌==◌, ◌≡◌, refl, ap, true, false, List, [], ◌∷◌, ◌++◌, some, arith, inl, inr, Bool-cases,
  if◌then◌else◌,
}
use db3w.Common.Int.{ℤ}
use db3w.Pages.{Entry}
use db3w.Btree.{positive, is_zero, recno_cmp}
use db3w.Btree.Order.{
  Item, KeyOrder, All, All-last, All-append_left, last, last-append, Ahead, IsMonotone, Before,
  IsSorted, order, find,
}
use db3w.Btree.Order.Find.{positive_apart, zero_low}

-- All items but the last one.
abbrev pub front : List Item → List Item
front [] = []
front (x ∷ []) = []
front (x ∷ y ∷ xs) = x ∷ front (y ∷ xs)

module _ (compare : List ℕ → List ℕ → ℤ) (t : Entry) where
  unfoldable pub erase : List Item → List Item
  erase [] = []
  erase (x ∷ xs) = let later = erase xs in if is_zero (order compare t x) then xs else x ∷ later

  -- The target is above what stands ahead of an item that it matches.
  abbrev pub IsStrict : List Item → Type 0
  IsStrict [] = Unit
  IsStrict (x ∷ xs) =
      All (λ y. is_zero (order compare t y) ≡ true → positive (order compare t x) ≡ true) xs
      × IsStrict xs

  pub IsStrict-append_left : (xs ys : List Item) → IsStrict (xs ++ ys) → IsStrict xs
  IsStrict-append_left [] ys m = tt
  IsStrict-append_left (x ∷ xs) ys (a, m) =
      (All-append_left _ xs ys a, IsStrict-append_left xs ys m)

  pub IsStrict-append_right : (xs ys : List Item) → IsStrict (xs ++ ys) → IsStrict ys
  IsStrict-append_right [] ys m = m
  IsStrict-append_right (x ∷ xs) ys (a, m) = IsStrict-append_right xs ys m

  pub erase-last :
      (xs : List Item) {l : Item}
      → IsStrict xs
      → last xs ≡ some l
      → is_zero (order compare t l) ≡ true
      → erase xs ≡ front xs
  unfolding erase
  erase-last [] m e h = absurd (cc)
  erase-last (x ∷ []) {l} m e h =
      let same : x ≡ l = cc in
      let hit : is_zero (order compare t x) ≡ true = rw same h in rw hit refl
  erase-last (x ∷ y ∷ xs) (a, m) e h =
      let miss = positive_apart _ (All-last _ (y ∷ xs) [] e (padded (y ∷ xs) a) h) in
      rw miss (ap (λ zs. x ∷ zs) (erase-last (y ∷ xs) m e h))
    where
      padded :
          (zs : List Item)
          → All (λ y. is_zero (order compare t y) ≡ true → positive (order compare t x) ≡ true) zs
          → All
              (λ y. is_zero (order compare t y) ≡ true → positive (order compare t x) ≡ true)
              (zs ++ [])
      padded [] b = tt
      padded (z ∷ zs) (b, bs) = (b, padded zs bs)

  -- The end stays where it is not what the target matches.
  pub last-erase :
      (xs : List Item) {l : Item}
      → last xs ≡ some l
      → is_zero (order compare t l) ≡ false
      → last (erase xs) ≡ some l
  unfolding erase
  last-erase [] e h = absurd (cc)
  last-erase (x ∷ []) {l} e h =
      let same : x ≡ l = cc in
      let miss : is_zero (order compare t x) ≡ false = rw same h in rw miss e
  last-erase (x ∷ y ∷ xs) e h = elim (Bool-cases (is_zero (order compare t x))) [
    | inl hit ↦ rw hit e
    | inr miss ↦ rw miss (last-append (x ∷ []) (erase (y ∷ xs)) (last-erase (y ∷ xs) e h))
  ]

  pub erase-within :
      (xs ys : List Item) {x : Item}
      → find compare t xs ≡ some x
      → erase (xs ++ ys) ≡ erase xs ++ ys
  unfolding erase find
  erase-within [] ys e = absurd (cc)
  erase-within (x ∷ xs) ys e = elim (Bool-cases (is_zero (order compare t x))) [
    | inl hit ↦ rw hit refl
    | inr miss ↦ rw miss (ap (λ zs. x ∷ zs) (erase-within xs ys (rw miss at e)))
  ]

  pub erase-above :
      (xs ys : List Item) {l : Item}
      → IsMonotone compare t (xs ++ ys)
      → last xs ≡ some l
      → positive (order compare t l) ≡ true
      → erase (xs ++ ys) ≡ xs ++ erase ys
  unfolding erase
  erase-above [] ys m e h = absurd (cc)
  erase-above (x ∷ []) ys {l} m e h =
      let same : x ≡ l = cc in
      let above : positive (order compare t x) ≡ true = rw same h in
      rw (positive_apart (order compare t x) above) refl
  erase-above (x ∷ y ∷ xs) ys (a, m) e h =
      let above : positive (order compare t x) ≡ true =
        (All-last (Ahead compare t x) (y ∷ xs) ys e a).0 h in
      rw (positive_apart (order compare t x) above)
        (ap (λ zs. x ∷ zs) (erase-above (y ∷ xs) ys m e h))

module _ (K : KeyOrder) (t : Entry) (key : K.IsKey t.key) (named : (t.recno == 0) ≡ false) where
  Before-above :
      (x y : Item)
      → K.IsKey x.key
      → K.IsKey y.key
      → Before K x y
      → is_zero (order K.compare t y) ≡ true
      → positive (order K.compare t x) ≡ true
  unfolding order recno_cmp
  Before-above x y kx ky (inl less) h =
      let above = K.above_of_equal t.key x.key y.key key kx ky less in let n = named in ground arith
  Before-above x y kx ky (inr (same, less)) h =
      let down = K.below_of t.key x.key y.key kx ky (zero_low _ same) in
      let n = named in ground arith

  All-above :
      (x : Item) (xs : List Item)
      → K.IsKey x.key
      → All (Before K x) xs
      → IsSorted K xs
      → All (λ y. is_zero (order K.compare t y) ≡ true → positive (order K.compare t x) ≡ true) xs
  All-above x [] k a sorted = tt
  All-above x (y ∷ ys) k (b, bs) (ky, later, sorted) =
      (Before-above x y k ky b, All-above x ys k bs sorted)

  pub IsSorted-IsStrict : (xs : List Item) → IsSorted K xs → IsStrict K.compare t xs
  IsSorted-IsStrict [] sorted = tt
  IsSorted-IsStrict (x ∷ xs) (k, later, sorted) =
      (All-above x xs k later sorted, IsSorted-IsStrict xs sorted)
