-- ===== src/Btree/Neighbours.antt =====
-- What `btsrch` finds of the other entries after `btsrin`.
use mathlib.Core.Path.{subst}
use db3w.Common.{
  ℕ, ◌+◌, ◌<◌, ◌==◌, ◌≡◌, ◌≢◌, refl, sym, Bool, false, List, [], ◌∷◌, none, arith, inl, inr,
  Bool-cases,
}
use db3w.Common.Int.{ℤ}
use db3w.Pages.{Entry}
use db3w.Btree.{Index, done, positive, is_zero, recno_cmp}
use db3w.Btree.Search.{Answer, equal, btsrch}
use db3w.Btree.Search.Refinement.{Shows, btsrch-find}
use db3w.Btree.Insertion.{Inserting, btsrin}
use db3w.Btree.Insertion.Placing.{probe}
use db3w.Btree.Insertion.Grown.{HasRoom, entered}
use db3w.Btree.Insertion.Refinement.{btsrin-insert}
use db3w.Btree.Order.{Item, KeyOrder, order, find, insert, IsSorted}
use db3w.Btree.Tree.{item_of, Holds}
use db3w.Btree.Tree.Frame.{PageSet, Apart}

module _ (compare : List ℕ → List ℕ → ℤ) (u : Entry) (n : (u.recno == 0) ≡ false) where
  another : (x : Item) → u.recno ≢ x.recno → is_zero (order compare u x) ≡ false
  unfolding order recno_cmp
  another x differ = let m = n in ground arith

  find-insert_other :
      (t : Entry) (new : Item) (xs : List Item)
      → u.recno ≢ new.recno
      → find compare u (insert compare t new xs) ≡ find compare u xs
  unfolding find insert
  find-insert_other t new [] differ = rw (another new differ) refl
  find-insert_other t new (x ∷ xs) differ = elim (Bool-cases (positive (order compare t x))) [
    | inl above ↦ rw (above, find-insert_other t new xs differ) refl
    | inr low ↦ rw (low, another new differ) refl
  ]

-- In a tree that stands for a sorted sequence, with no page in it twice and room in every leaf, the other
-- entries stay where they are found: after `btsrin` has put in an entry with a record number, no page
-- number and a whole key that is no duplicate, `btsrch` for a whole key with another record number gives
-- what the sequence had before the insertion. Both calls have fuel for the levels of the index and one
-- more.
pub btsrch-btsrin_other :
    (K : KeyOrder) (unique_on : Bool) (s : Index) (t u : Entry) (depth f pno : ℕ) (pages : PageSet)
    (items : List Item)
    → depth + 1 < f
    → Holds s depth pno items
    → Apart s depth pno pages
    → HasRoom s
    → IsSorted K items
    → K.IsKey t.key
    → (t.recno == 0) ≡ false
    → t.pno ≡ 0
    → find K.compare (probe unique_on t) items ≡ none
    → K.IsKey u.key
    → (u.recno == 0) ≡ false
    → u.recno ≢ t.recno
    → (c : Inserting) × (a : Answer) × (btsrin K.compare unique_on f s t pno ≡ done c)
      × (btsrch K.compare f c.index equal u pno ≡ done a)
      × Shows c.index (find K.compare u items) a
btsrch-btsrin_other K unique_on s t u depth f pno pages items enough h a room sorted key named alone
      fresh k n differ =
    let r =
      btsrin-insert K unique_on s t depth f pno pages items enough h a room sorted key named
        alone in
    let g = rw fresh at (r.2) in
    let tree =
      subst (λ z. Holds z depth pno (entered K.compare unique_on s t items)) (sym g.written)
        g.holds in
    let b =
      btsrch-find K (r.0).index u depth f pno (entered K.compare unique_on s t items) enough tree
        (r.3 fresh) (λ w. k) in
    (
      r.0,
      b.0,
      r.1,
      b.1,
      rw (find-insert_other K.compare u n (probe unique_on t) (item_of t) items differ) at (b.2),
    )
