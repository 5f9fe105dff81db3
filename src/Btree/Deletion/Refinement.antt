-- ===== src/Btree/Deletion/Refinement.antt =====
-- `btsrdel` against the sequence without the item, where the leaves have an entry to spare.
use db3w.Common.{
  ℕ, zero, suc, ◌+◌, ◌<◌, ◌≡◌, refl, ap, ◌∙◌, true, false, ◌==◌, List, Option, none, some, arith,
  inl, inr, Bool-cases,
}
use db3w.Common.Int.{ℤ}
use db3w.Pages.{Entry}
use db3w.Pages.Insert.{pnos}
use db3w.Btree.{Index, getpage}
use db3w.Btree.Deletion.{Spot}
use db3w.Btree.Deletion.Seeking.{leaf_seek}
use db3w.Btree.Deletion.Below.{HasSpare, falls}
use db3w.Btree.Deletion.Descent.{Descent, inner_seek}
use db3w.Btree.Deletion.Erased.{Erased-below, Erased-at}
use db3w.Btree.Insertion.Inner.{find-last}
use db3w.Btree.Order.{Item, KeyOrder, find, IsMonotone, IsSorted}
use db3w.Btree.Order.Sorted.{IsSorted-IsMonotone}
use db3w.Btree.Order.Erase.{IsStrict, IsSorted-IsStrict}
use db3w.Btree.Tree.{item_of, InnerPage, Holds}
use db3w.Btree.Tree.Frame.{PageSet, part, Apart}
use db3w.Btree.Deletion.Leaf.{
  Deletes, Seeks, step_met, step_unmet, step_refused, removed_kept, Deletes-leaf,
}

module _ (compare : List ℕ → List ℕ → ℤ) (s : Index) (t : Entry) (spare : HasSpare s)
    (named : (t.recno == 0) ≡ false) (alone : (t.pno == 0) ≡ true) where
  Deletes-inner :
      (f depth pno : ℕ) (pages : PageSet) (items : List Item)
      (tree : InnerPage s (Holds s depth) pno items) (a : Apart s (suc depth) pno pages) (x : Spot)
      → depth + 1 < f
      → Seeks compare s t f pno x
      → (d : Descent compare f s t
          (getpage s pno)
          tree.kids
          tree.lasts
          0
          (getpage s pno).entry_cnt
          x)
      → (o : Option Item) → find compare t (tree.kids d.stop) ≡ o
      → (x.match ≡ false
          → Deletes compare s t f depth
              (pnos (getpage s pno) d.stop)
              (part pages pno a.owner d.stop)
              (tree.kids d.stop)
              o)
      → Deletes compare s t (suc f) (suc depth) pno pages items o
  Deletes-inner f depth pno pages items tree a x h e d none shown below =
      elim (Bool-cases x.match) [
        | inl met ↦
            let hit =
              find-last compare false f s t (item_of t) (tree.kids d.stop) (tree.ends d.stop d.to)
                (d.met met).1 in
            absurd (cc)
        | inr unmet ↦
            step_refused compare s t f pno x tree.is_page.named e unmet (rw d.page (below unmet))
      ]
  Deletes-inner f depth pno pages items tree a x h e d (some y) shown below =
      elim (Bool-cases x.match) [
        | inl met ↦
            let p = getpage s pno in
            let c =
              falls s t alone spare pno d.stop p (omega (arith, (d.met met).0)) depth f
                (pnos p d.stop) (part pages pno a.owner d.stop) (tree.kids d.stop) h
                (tree.child d.stop d.to) (a.child d.stop d.to) in
            (
              c.0,
              step_met compare s t f pno x (c.0) tree.is_page.named e met (rw (d.page, d.at) (c.1))
                  ∙ removed_kept compare s t pno x.r (c.0) c.2.kept,
              Erased-at compare f s t depth pno pages items tree a x (c.0) d shown met (c.2),
            )
        | inr unmet ↦
            let c = below unmet in
            (
              record (c.0) { page = getpage s pno },
              step_unmet compare s t f pno x (c.0) tree.is_page.named e unmet (rw d.page (c.1))
                  ∙ removed_kept compare s t pno x.r _ c.2.kept,
              Erased-below compare f s t depth pno pages items tree a x (c.0) d shown unmet (c.2),
            )
      ]

  deletes :
      (depth f pno : ℕ) (pages : PageSet) (items : List Item)
      → depth + 1 < f
      → Holds s depth pno items
      → Apart s depth pno pages
      → IsMonotone compare t items
      → IsStrict compare t items
      → Deletes compare s t f depth pno pages items (find compare t items)
  deletes depth zero pno pages items h tree a m strict = absurd (omega arith)
  deletes zero (suc zero) pno pages items h tree a m strict = absurd (omega arith)
  deletes zero (suc (suc f)) pno pages items h tree a m strict =
      let p = getpage s pno in
      let x =
        leaf_seek compare (suc f) s t named p tree.no_pages p.entry_cnt 0 (omega arith)
          (rw tree.contents at m) in
      Deletes-leaf compare s t spare named alone f pno pages items tree a (find compare t items)
        (x.0) (rw (tree.no_pages 0 (omega arith)) (x.1)) (rw tree.contents (x.2))
  deletes (suc depth) (suc f) pno pages items h tree a m strict =
      let p = getpage s pno in
      let x =
        inner_seek compare f s t depth pno (omega arith) named tree p.entry_cnt 0 (omega arith)
          (rw tree.contents at m) (rw tree.contents at strict) in
      let d = x.2 in
      let shows = ap (λ (xs : List Item). find compare t xs) tree.contents ∙ d.shows in
      rw shows (
        Deletes-inner f depth pno pages items tree a (x.0) (omega arith) (x.1) d
          (find compare t (tree.kids d.stop)) refl
          (λ unmet.
            deletes depth f (pnos p d.stop) (part pages pno a.owner d.stop) (tree.kids d.stop)
              (omega arith) (tree.child d.stop d.to) (a.child d.stop d.to) d.monotone d.strict))

-- Where every leaf has an entry to spare, `btsrdel` of a whole key with a record number, with fuel for
-- the levels of the index and one more, does to the pages what it is to take the item out of the sorted
-- sequence of the items. If no item has the key and the record number, it ends with the error NTNDX.
-- Otherwise the tree stands for the sequence without that item, which is not empty; a key of a page that
-- is no leaf is still the last one on its left, also where that item has gone; the pages of the tree
-- stay apart and those outside of it stay as they were, and nothing is left to do for the caller.
pub btsrdel-erase :
    (K : KeyOrder) (s : Index) (t : Entry) (depth f pno : ℕ) (pages : PageSet) (items : List Item)
    → depth + 1 < f
    → Holds s depth pno items
    → Apart s depth pno pages
    → HasSpare s
    → IsSorted K items
    → K.IsKey t.key
    → (t.recno == 0) ≡ false
    → (t.pno == 0) ≡ true
    → Deletes K.compare s t f depth pno pages items (find K.compare t items)
btsrdel-erase K s t depth f pno pages items enough tree a spare sorted key named alone =
    deletes K.compare s t spare named alone depth f pno pages items enough tree a
      (IsSorted-IsMonotone K t (λ n. key) items sorted)
      (IsSorted-IsStrict K t key named items sorted)
