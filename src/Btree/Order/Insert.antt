-- ===== src/Btree/Order/Insert.antt =====
-- An insertion into a sorted sequence that does not show the target.
use db3w.Common.{◌≡◌, ◌≢◌, true, List, [], ◌∷◌, none, arith, inl, inr, Bool-cases}
use db3w.Pages.{Entry}
use db3w.Btree.{positive, negative, is_zero, recno_cmp}
use db3w.Btree.Order.{
  Item, KeyOrder, All, Ahead, IsMonotone, Before, IsSorted, IsTarget, order, find, insert,
}
use db3w.Btree.Order.Find.{negative_else}
use db3w.Btree.Order.Sorted.{IsSorted-IsMonotone}

-- The target is the entry that is inserted, or its key alone.
abbrev pub Probes : Entry → Entry → Type 0
Probes u t = (u.key ≡ t.key) × ((u.recno ≢ 0) → u.recno ≡ t.recno)

module _ (K : KeyOrder) (u t : Entry) (probes : Probes u t) (key : K.IsKey t.key) where
  abbrev new : Item
  new = record { key = t.key; recno = t.recno }

  Before-new : (x : Item) → K.IsKey x.key → positive (order K.compare u x) ≡ true → Before K x new
  unfolding order recno_cmp
  Before-new x kx h =
      let e = probes.0 in
      elim (Bool-cases (is_zero (K.compare t.key x.key))) [
        | inl z ↦ inr ((K.equal_of_equal t.key x.key key kx z, ground (arith, probes.1)))
        | inr n ↦ inl (K.below_of_above t.key x.key key kx (ground arith))
      ]

  new-Before : (x : Item) → negative (order K.compare u x) ≡ true → Before K new x
  unfolding order recno_cmp
  new-Before x h =
      let e = probes.0 in
      elim (Bool-cases (is_zero (K.compare t.key x.key))) [
        | inl z ↦ inr ((z, ground (arith, probes.1)))
        | inr n ↦ inl (ground arith)
      ]

  All-Before :
      (x : Item) (xs : List Item)
      → negative (order K.compare u x) ≡ true
      → All (Ahead K.compare u x) xs
      → All (Before K new) xs
  All-Before x [] h a = tt
  All-Before x (y ∷ ys) h (p, ps) = (new-Before y (p.1 h), All-Before x ys h ps)

  All-insert :
      (P : Item → Type 0) (xs : List Item) → P new → All P xs → All P (insert K.compare u new xs)
  unfolding insert
  All-insert P [] p a = (p, tt)
  All-insert P (x ∷ xs) p (q, qs) = elim (Bool-cases (positive (order K.compare u x))) [
    | inl above ↦ rw above ((q, All-insert P xs p qs))
    | inr low ↦ rw low ((p, (q, qs)))
  ]

  inserted-IsSorted :
      (xs : List Item)
      → find K.compare u xs ≡ none
      → IsMonotone K.compare u xs
      → IsSorted K xs
      → IsSorted K (insert K.compare u new xs)
  unfolding insert find
  inserted-IsSorted [] e m sorted = (key, tt, tt)
  inserted-IsSorted (x ∷ xs) e (a, m) (kx, later, sorted) =
      elim (Bool-cases (is_zero (order K.compare u x))) [
        | inl z ↦ absurd (let e' = rw z at e in cc)
        | inr n ↦ elim (Bool-cases (positive (order K.compare u x))) [
          | inl above ↦ rw above (
              (
                kx,
                All-insert (Before K x) xs (Before-new x kx above) later,
                inserted-IsSorted xs (rw n at e) m sorted,
              ))
          | inr low ↦
              let less = negative_else (order K.compare u x) low n in
              rw low ((key, (new-Before x less, All-Before x xs less a), (kx, later, sorted)))
        ]
      ]

  -- A sequence that does not show the target stays sorted.
  pub insert-IsSorted :
      (xs : List Item)
      → find K.compare u xs ≡ none
      → IsTarget K u
      → IsSorted K xs
      → IsSorted K (insert K.compare u new xs)
  insert-IsSorted xs e target sorted =
      inserted-IsSorted xs e (IsSorted-IsMonotone K u target xs sorted) sorted
