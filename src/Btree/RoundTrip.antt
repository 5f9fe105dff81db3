-- ===== src/Btree/RoundTrip.antt =====
-- What `btsrch` finds after `btsrin` and `btsrdel`.
use mathlib.Core.Path.{subst}
use db3w.Common.Int.{ℤ}
use db3w.Common.{
  ℕ, ◌≢◌, ◌+◌, ◌<◌, ◌==◌, ◌≡◌, refl, sym, Bool, true, false, List, [], ◌∷◌, none, some, arith, inl,
  inr, Bool-cases,
}
use db3w.Pages.{Entry}
use db3w.Btree.{Index, done, positive, is_zero, recno_cmp}
use db3w.Btree.Search.{Answer, equal, btsrch}
use db3w.Btree.Search.Refinement.{Shows, btsrch-find}
use db3w.Btree.Insertion.{Inserting, btsrin}
use db3w.Btree.Insertion.Placing.{probe}
use db3w.Btree.Insertion.Grown.{HasRoom, entered}
use db3w.Btree.Insertion.Refinement.{btsrin-insert}
use db3w.Btree.Order.{Item, KeyOrder, All, Before, order, find, insert, IsSorted}
use db3w.Btree.Order.Erase.{erase, IsStrict, IsSorted-IsStrict}
use db3w.Btree.Order.Find.{positive_apart}
use db3w.Btree.Deletion.{Removing, btsrdel}
use db3w.Btree.Deletion.Below.{HasSpare}
use db3w.Btree.Deletion.Refinement.{btsrdel-erase}
use db3w.Btree.Tree.{item_of, Holds}
use db3w.Btree.Tree.Frame.{PageSet, Apart}

module _ (K : KeyOrder) (unique_on : Bool) (t : Entry) (key : K.IsKey t.key)
    (named : (t.recno == 0) ≡ false) where
  itself : is_zero (order K.compare t (item_of t)) ≡ true
  unfolding order recno_cmp
  itself = let e = K.equal_self t.key key in ground arith

  passed :
      (b : Bool) (x : Item)
      → positive (order K.compare (probe b t) x) ≡ true
      → is_zero (order K.compare t x) ≡ false
  unfolding order recno_cmp
  passed true x h = ground arith
  passed false x h = ground arith

  find-insert :
      (xs : List Item)
      → find K.compare t (insert K.compare (probe unique_on t) (item_of t) xs) ≡ some (item_of t)
  unfolding find insert
  find-insert [] = rw itself refl
  find-insert (x ∷ xs) = elim (Bool-cases (positive (order K.compare (probe unique_on t) x))) [
    | inl above ↦ rw (above, passed unique_on x above) (find-insert xs)
    | inr low ↦ rw (low, itself) refl
  ]

-- In a tree that stands for a sorted sequence, with no page in it twice and room in every leaf, an entry
-- with a record number, no page number and a whole key that is no duplicate, under SET UNIQUE ON by its
-- key alone, is found after `btsrin` has put it in: `btsrch` for an equal entry then gives its record
-- number and a position at an entry that is it. Both calls have fuel for the levels of the index and one
-- more.
pub btsrch-btsrin :
    (K : KeyOrder) (unique_on : Bool) (s : Index) (t : Entry) (depth f pno : ℕ) (pages : PageSet)
    (items : List Item)
    → depth + 1 < f
    → Holds s depth pno items
    → Apart s depth pno pages
    → HasRoom s
    → IsSorted K items
    → K.IsKey t.key
    → (t.recno == 0) ≡ false
    → t.pno ≡ 0
    → find K.compare (probe unique_on t) items ≡ none
    → (c : Inserting) × (a : Answer) × (btsrin K.compare unique_on f s t pno ≡ done c)
      × (btsrch K.compare f c.index equal t pno ≡ done a)
      × Shows c.index (some (item_of t)) a
btsrch-btsrin K unique_on s t depth f pno pages items enough h a room sorted key named alone fresh =
    let r =
      btsrin-insert K unique_on s t depth f pno pages items enough h a room sorted key named
        alone in
    let g = rw fresh at (r.2) in
    let tree =
      subst (λ z. Holds z depth pno (entered K.compare unique_on s t items)) (sym g.written)
        g.holds in
    let b =
      btsrch-find K (r.0).index t depth f pno (entered K.compare unique_on s t items) enough tree
        (r.3 fresh) (λ n. key) in
    (r.0, b.0, r.1, b.1, rw (find-insert K unique_on t key named items) at (b.2))

module _ (compare : List ℕ → List ℕ → ℤ) (t : Entry) where
  All-erase {κ} : (P : Item → Type κ) (xs : List Item) → All P xs → All P (erase compare t xs)
  unfolding erase
  All-erase P [] a = tt
  All-erase P (x ∷ xs) (p, ps) = elim (Bool-cases (is_zero (order compare t x))) [
    | inl hit ↦ rw hit ps
    | inr miss ↦ rw miss (p, All-erase P xs ps)
  ]

  none_behind :
      (x : Item) (xs : List Item)
      → is_zero (order compare t x) ≡ true
      → All (λ y. is_zero (order compare t y) ≡ true → positive (order compare t x) ≡ true) xs
      → find compare t xs ≡ none
  unfolding find
  none_behind x [] h a = refl
  none_behind x (y ∷ ys) h (b, bs) = elim (Bool-cases (is_zero (order compare t y))) [
    | inl hit ↦ let apart = positive_apart (order compare t x) (b hit) in absurd (ground arith)
    | inr miss ↦ rw miss (none_behind x ys h bs)
  ]

  find-erase : (xs : List Item) → IsStrict compare t xs → find compare t (erase compare t xs) ≡ none
  unfolding find erase
  find-erase [] m = refl
  find-erase (x ∷ xs) (a, m) = elim (Bool-cases (is_zero (order compare t x))) [
    | inl hit ↦ rw hit (none_behind x xs hit a)
    | inr miss ↦ rw (miss, miss) (find-erase xs m)
  ]

  -- An item is not matched by two record numbers.
  not_both :
      (u : Entry) (x : Item)
      → (t.recno == 0) ≡ false
      → (u.recno == 0) ≡ false
      → u.recno ≢ t.recno
      → is_zero (order compare t x) ≡ true
      → is_zero (order compare u x) ≡ false
  unfolding order recno_cmp
  not_both u x m n differ h = ground arith

  find-erase_other :
      (u : Entry) (xs : List Item)
      → (t.recno == 0) ≡ false
      → (u.recno == 0) ≡ false
      → u.recno ≢ t.recno
      → find compare u (erase compare t xs) ≡ find compare u xs
  unfolding find erase
  find-erase_other u [] m n differ = refl
  find-erase_other u (x ∷ xs) m n differ = elim (Bool-cases (is_zero (order compare t x))) [
    | inl hit ↦ rw (hit, not_both u x m n differ hit) refl
    | inr miss ↦ rw miss (elim (Bool-cases (is_zero (order compare u x))) [
      | inl found ↦ rw found refl
      | inr passed_by ↦ rw passed_by (find-erase_other u xs m n differ)
    ])
  ]

IsSorted-erase :
    (K : KeyOrder) (t : Entry) (xs : List Item) → IsSorted K xs → IsSorted K (erase K.compare t xs)
unfolding erase
IsSorted-erase K t [] sorted = tt
IsSorted-erase K t (x ∷ xs) (k, later, sorted) = elim (Bool-cases (is_zero (order K.compare t x))) [
  | inl hit ↦ rw hit sorted
  | inr miss ↦
      rw miss (k, All-erase K.compare t (Before K x) xs later, IsSorted-erase K t xs sorted)
]

-- In a tree that stands for a sorted sequence, with no page in it twice and an entry to spare in every
-- leaf, an item with the whole key and the record number of a target without a page number is gone after
-- `btsrdel`: the call ends without an error and leaves nothing to do for its caller, and `btsrch` for
-- the target then finds no entry. For any whole key with another record number `btsrch` then gives what
-- the sequence had before the deletion. All calls have fuel for the levels of the index and one more.
pub btsrch-btsrdel :
    (K : KeyOrder) (s : Index) (t u : Entry) (depth f pno : ℕ) (pages : PageSet) (items : List Item)
    (y : Item)
    → depth + 1 < f
    → Holds s depth pno items
    → Apart s depth pno pages
    → HasSpare s
    → IsSorted K items
    → K.IsKey t.key
    → (t.recno == 0) ≡ false
    → (t.pno == 0) ≡ true
    → find K.compare t items ≡ some y
    → K.IsKey u.key
    → (u.recno == 0) ≡ false
    → u.recno ≢ t.recno
    → (c : Removing) × (a : Answer) × (b : Answer) × (btsrdel K.compare f s pno t ≡ done c)
      × (c.rm ≡ false)
      × (btsrch K.compare f c.index equal t pno ≡ done a)
      × Shows c.index none a
      × (btsrch K.compare f c.index equal u pno ≡ done b)
      × Shows c.index (find K.compare u items) b
btsrch-btsrdel K s t u depth f pno pages items y enough h a spare sorted key named alone there k n
      differ =
    let r =
      rw there at
        (btsrdel-erase K s t depth f pno pages items enough h a spare sorted key named alone) in
    let search : (v : Entry)
        → K.IsKey v.key
        → (b : Answer) × (btsrch K.compare f (r.0).index equal v pno ≡ done b)
          × Shows (r.0).index (find K.compare v (erase K.compare t items)) b =
      λ v l.
        btsrch-find K (r.0).index v depth f pno (erase K.compare t items) enough r.2.holds
          (IsSorted-erase K t items sorted) (λ w. l) in
    let gone =
      rw (find-erase K.compare t items (IsSorted-IsStrict K t key named items sorted)) at
        (search t key) in
    let other = rw (find-erase_other K.compare t u items named n differ) at (search u k) in
    (r.0, gone.0, other.0, r.1, r.2.kept, gone.1, gone.2, other.1, other.2)
