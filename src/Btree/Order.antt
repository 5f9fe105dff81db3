-- ===== src/Btree/Order.antt =====
-- The contents of an index as a sequence of items, and what the search needs of their order.
pub mod Find
pub mod Sorted
pub mod Insert
pub mod Erase
use db3w.Common.{
  ℕ, ◌==◌, Bool, true, false, ◌&&◌, not, ◌≡◌, ◌≢◌, refl, ◌⊎◌, inl, inr, List, [], ◌∷◌, ◌++◌, Option,
  none, some, ◌<◌, if◌then◌else◌, Bool-cases, ltb, arith, ◌∙◌,
}
use db3w.Common.Int.{ℤ, pos, negsuc}
use db3w.Pages.{Entry}
use db3w.Btree.{positive, negative, is_zero, recno_cmp}

pub record Item : Type 0 where
  pub key : List ℕ
  pub recno : ℕ

-- The order of keys, which `keycmp` gives; `IsKey` holds of whole keys, and a target may be another.
pub record KeyOrder : Type 1 where
  pub compare : List ℕ → List ℕ → ℤ
  pub IsKey : List ℕ → Type 0
  -- a target is above what is below a key that it is above, and the same for below
  pub above_of :
      (t x y : List ℕ)
      → IsKey x
      → IsKey y
      → positive (compare x y) ≡ false
      → positive (compare t y) ≡ true
      → positive (compare t x) ≡ true
  pub below_of :
      (t x y : List ℕ)
      → IsKey x
      → IsKey y
      → positive (compare x y) ≡ false
      → negative (compare t x) ≡ true
      → negative (compare t y) ≡ true
  -- a whole key that equals one of two different ones is not equal to the other
  pub above_of_equal :
      (t x y : List ℕ)
      → IsKey t
      → IsKey x
      → IsKey y
      → negative (compare x y) ≡ true
      → is_zero (compare t y) ≡ true
      → positive (compare t x) ≡ true
  pub below_of_equal :
      (t x y : List ℕ)
      → IsKey t
      → IsKey x
      → IsKey y
      → negative (compare x y) ≡ true
      → is_zero (compare t x) ≡ true
      → negative (compare t y) ≡ true
  pub below_of_above :
      (x y : List ℕ)
      → IsKey x
      → IsKey y
      → positive (compare x y) ≡ true
      → negative (compare y x) ≡ true
  pub equal_self : (x : List ℕ) → IsKey x → is_zero (compare x x) ≡ true
  pub equal_of_equal :
      (x y : List ℕ)
      → IsKey x
      → IsKey y
      → is_zero (compare x y) ≡ true
      → is_zero (compare y x) ≡ true

abbrev pub All {ℓ κ} : {A : Type ℓ} → (A → Type κ) → List A → Type κ
All P [] = Unit
All P (x ∷ xs) = P x × All P xs

pub All-imp {ℓ κ μ} :
    {A : Type ℓ} {P : A → Type κ} {Q : A → Type μ}
    → ((x : A) → P x → Q x)
    → (xs : List A) → All P xs
    → All Q xs
All-imp f [] a = tt
All-imp f (x ∷ xs) (p, ps) = (f x p, All-imp f xs ps)

pub All-append_right {ℓ κ} :
    {A : Type ℓ} (P : A → Type κ) (xs ys : List A) → All P (xs ++ ys) → All P ys
All-append_right P [] ys a = a
All-append_right P (x ∷ xs) ys (p, ps) = All-append_right P xs ys ps

pub All-append_left {ℓ κ} :
    {A : Type ℓ} (P : A → Type κ) (xs ys : List A) → All P (xs ++ ys) → All P xs
All-append_left P [] ys a = tt
All-append_left P (x ∷ xs) ys (p, ps) = (p, All-append_left P xs ys ps)

abbrev pub last {ℓ} : {A : Type ℓ} → List A → Option A
last [] = none
last (x ∷ []) = some x
last (x ∷ y ∷ xs) = last (y ∷ xs)

pub All-last {ℓ κ} :
    {A : Type ℓ} (P : A → Type κ) (xs ys : List A) {l : A}
    → last xs ≡ some l
    → All P (xs ++ ys)
    → P l
All-last P [] ys e a = absurd (cc)
All-last P (x ∷ []) ys {l} e a = let same : x ≡ l = cc in rw same at (a.0)
All-last P (x ∷ y ∷ xs) ys e (p, ps) = All-last P (y ∷ xs) ys e ps

pub last-append {ℓ} :
    {A : Type ℓ} (xs ys : List A) {l : A} → last ys ≡ some l → last (xs ++ ys) ≡ some l
last-append [] ys e = e
last-append (x ∷ []) [] e = absurd (cc)
last-append (x ∷ []) (y ∷ ys) e = e
last-append (x ∷ x' ∷ xs) ys e = last-append (x' ∷ xs) ys e

module _ (compare : List ℕ → List ℕ → ℤ) where
  -- A target against an item: by the record number where the keys are equal and it is given.
  unfoldable pub order : Entry → Item → ℤ
  unfolding recno_cmp
  order t x =
      let c = compare t.key x.key in
      if is_zero c && not (t.recno == 0) then recno_cmp t.recno x.recno else c

  -- The first item that the target matches, as a search through the sequence.
  unfoldable pub find : Entry → List Item → Option Item
  find t [] = none
  find t (x ∷ xs) = if is_zero (order t x) then some x else find t xs

  -- The sequence with an item put in ahead of the first that the target is not above.
  unfoldable pub insert : Entry → Item → List Item → List Item
  insert t new [] = new ∷ []
  insert t new (x ∷ xs) =
      let later = insert t new xs in if positive (order t x) then x ∷ later else new ∷ x ∷ xs

  -- Of an item and one behind it.
  abbrev pub Ahead : Entry → Item → Item → Type 0
  Ahead t x y =
      (positive (order t y) ≡ true → positive (order t x) ≡ true)
      × (negative (order t x) ≡ true → negative (order t y) ≡ true)

  abbrev pub IsMonotone : Entry → List Item → Type 0
  IsMonotone t [] = Unit
  IsMonotone t (x ∷ xs) = All (Ahead t x) xs × IsMonotone t xs

module _ (K : KeyOrder) where
  -- By the key, and among equal keys by the record number.
  abbrev pub Before : Item → Item → Type 0
  Before x y =
      (negative (K.compare x.key y.key) ≡ true)
      ⊎ ((is_zero (K.compare x.key y.key) ≡ true) × (x.recno < y.recno))

  abbrev pub IsSorted : List Item → Type 0
  IsSorted [] = Unit
  IsSorted (x ∷ xs) = K.IsKey x.key × All (Before x) xs × IsSorted xs

  -- A target with a record number has a whole key.
  abbrev pub IsTarget : Entry → Type 0
  IsTarget t = (t.recno ≢ 0) → K.IsKey t.key
