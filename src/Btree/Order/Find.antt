-- ===== src/Btree/Order/Find.antt =====
-- The search through a sequence in which what a target is above stands ahead.
use db3w.Common.{
  ℕ, zero, suc, true, false, ◌≡◌, refl, ap, inl, inr, List, [], ◌∷◌, ◌++◌, none, some, Bool-cases,
}
use db3w.Common.Int.{ℤ, pos, negsuc}
use db3w.Pages.{Entry}
use db3w.Btree.{positive, negative, is_zero}
use db3w.Btree.Order.{
  Item, All, All-append_left, All-last, last, last-append, order, find, insert, Ahead, IsMonotone,
}

pub positive_apart : (z : ℤ) → positive z ≡ true → is_zero z ≡ false
positive_apart (pos zero) h = cc
positive_apart (pos (suc n)) h = refl
positive_apart (negsuc n) h = refl

pub negative_low : (c : ℤ) → negative c ≡ true → positive c ≡ false
negative_low (pos n) h = absurd (cc)
negative_low (negsuc n) h = refl

pub zero_low : (c : ℤ) → is_zero c ≡ true → positive c ≡ false
zero_low (pos zero) h = refl
zero_low (pos (suc n)) h = absurd (cc)
zero_low (negsuc n) h = absurd (cc)

pub negative_apart : (z : ℤ) → negative z ≡ true → is_zero z ≡ false
negative_apart (pos zero) h = cc
negative_apart (pos (suc n)) h = cc
negative_apart (negsuc n) h = refl

pub negative_else : (z : ℤ) → positive z ≡ false → is_zero z ≡ false → negative z ≡ true
negative_else (pos zero) h k = cc
negative_else (pos (suc n)) h k = cc
negative_else (negsuc n) h k = refl

module _ (compare : List ℕ → List ℕ → ℤ) (t : Entry) where
  pub IsMonotone-append_right :
      (xs ys : List Item) → IsMonotone compare t (xs ++ ys) → IsMonotone compare t ys
  IsMonotone-append_right [] ys m = m
  IsMonotone-append_right (x ∷ xs) ys (a, m) = IsMonotone-append_right xs ys m

  pub IsMonotone-append_left :
      (xs ys : List Item) → IsMonotone compare t (xs ++ ys) → IsMonotone compare t xs
  IsMonotone-append_left [] ys m = tt
  IsMonotone-append_left (x ∷ xs) ys (a, m) =
      (All-append_left (Ahead compare t x) xs ys a, IsMonotone-append_left xs ys m)

  -- What ends with an item that the target is above holds nothing that it matches.
  pub find-above :
      (xs ys : List Item) {l : Item}
      → IsMonotone compare t (xs ++ ys)
      → last xs ≡ some l
      → positive (order compare t l) ≡ true
      → find compare t (xs ++ ys) ≡ find compare t ys
  unfolding find
  find-above [] ys m e h = absurd (cc)
  find-above (x ∷ []) ys {l} m e h =
      let same : x ≡ l = cc in
      let above : positive (order compare t x) ≡ true = rw same h in
      rw (positive_apart (order compare t x) above) refl
  find-above (x ∷ y ∷ xs) ys {l} (a, m) e h =
      let above : positive (order compare t x) ≡ true =
        (All-last (Ahead compare t x) (y ∷ xs) ys e a).0 h in
      rw (positive_apart (order compare t x) above) (find-above (y ∷ xs) ys m e h)

  find-below :
      (x : Item) (ys : List Item)
      → negative (order compare t x) ≡ true
      → All (Ahead compare t x) ys
      → find compare t ys ≡ none
  unfolding find
  find-below x [] h a = refl
  find-below x (y ∷ ys) h (p, ps) =
      rw (negative_apart (order compare t y) (p.1 h)) (find-below x ys h ps)

  -- What ends with an item that the target is not above holds the first that it matches, if any does.
  pub find-within :
      (xs ys : List Item) {l : Item}
      → IsMonotone compare t (xs ++ ys)
      → last xs ≡ some l
      → positive (order compare t l) ≡ false
      → find compare t (xs ++ ys) ≡ find compare t xs
  unfolding find
  find-within [] ys m e h = absurd (cc)
  find-within (x ∷ []) ys {l} (a, m) e h =
      let same : x ≡ l = cc in
      let low : positive (order compare t x) ≡ false = rw same h in
      elim (Bool-cases (is_zero (order compare t x))) [
        | inl z ↦ rw z refl
        | inr n ↦ rw n (find-below x ys (negative_else _ low n) a)
      ]
  find-within (x ∷ y ∷ xs) ys (a, m) e h = elim (Bool-cases (is_zero (order compare t x))) [
    | inl z ↦ rw z refl
    | inr n ↦ rw n (find-within (y ∷ xs) ys m e h)
  ]

  -- An insertion goes behind what ends with an item that the target is above.
  pub insert-above :
      (new : Item) (xs ys : List Item) {l : Item}
      → IsMonotone compare t (xs ++ ys)
      → last xs ≡ some l
      → positive (order compare t l) ≡ true
      → insert compare t new (xs ++ ys) ≡ xs ++ insert compare t new ys
  unfolding insert
  insert-above new [] ys m e h = absurd (cc)
  insert-above new (x ∷ []) ys {l} m e h =
      let same : x ≡ l = cc in
      let above : positive (order compare t x) ≡ true = rw same h in rw above refl
  insert-above new (x ∷ y ∷ xs) ys (a, m) e h =
      let above : positive (order compare t x) ≡ true =
        (All-last (Ahead compare t x) (y ∷ xs) ys e a).0 h in
      rw above (ap (λ zs. x ∷ zs) (insert-above new (y ∷ xs) ys m e h))

  -- An insertion goes into what ends with an item that the target is not above, and leaves its end.
  pub insert-within :
      (new : Item) (xs ys : List Item) {l : Item}
      → last xs ≡ some l
      → positive (order compare t l) ≡ false
      → (insert compare t new (xs ++ ys) ≡ insert compare t new xs ++ ys)
        × (last (insert compare t new xs) ≡ some l)
  unfolding insert
  insert-within new [] ys e h = absurd (cc)
  insert-within new (x ∷ []) ys {l} e h =
      let same : x ≡ l = cc in
      let low : positive (order compare t x) ≡ false = rw same h in (rw low refl, rw low e)
  insert-within new (x ∷ y ∷ xs) ys e h = elim (Bool-cases (positive (order compare t x))) [
    | inl above ↦
        let rest = insert-within new (y ∷ xs) ys e h in
        (
          rw above (ap (λ zs. x ∷ zs) (rest.0)),
          rw above (last-append (x ∷ []) (insert compare t new (y ∷ xs)) (rest.1)),
        )
    | inr low ↦ (rw low refl, rw low e)
  ]
