-- ===== src/Btree/Insertion/Refinement.antt =====
-- `btsrin` against the insertion into the sequence of the index, where the leaves have room.
use db3w.Common.{
  ℕ, zero, suc, ◌+◌, ◌<◌, ◌≡◌, refl, ap, ◌∙◌, Bool, true, false, ◌==◌, List, Option, none, some,
  arith, inl, inr, ◌≢◌,
}
use db3w.Common.Int.{ℤ}
use db3w.Pages.{Entry}
use db3w.Btree.{Index, done, getpage}
use db3w.Btree.Insertion.{Place, Inserting, finish_page, btsrin}
use db3w.Btree.Insertion.Placing.{probe}
use db3w.Btree.Insertion.Leaf.{leaf_place}
use db3w.Btree.Insertion.Inner.{Descends, inner_place}
use db3w.Btree.Insertion.Grown.{
  HasRoom, entered, refused_duplicate, Outcome, ended_duplicate, ended_below, room_leaf,
}
use db3w.Btree.Insertion.Above.{Grown-inner}
use db3w.Btree.Order.{Item, KeyOrder, find, IsMonotone, IsSorted, IsTarget}
use db3w.Btree.Order.Insert.{insert-IsSorted}
use db3w.Btree.Order.Sorted.{IsSorted-IsMonotone}
use db3w.Btree.Tree.{item_of, InnerPage, Holds}
use db3w.Btree.Tree.Frame.{PageSet, part, Apart}

module _ (compare : List ℕ → List ℕ → ℤ) (unique_on : Bool) (s : Index) (t : Entry)
    (room : HasRoom s) (named : (t.recno == 0) ≡ false) (alone : t.pno ≡ 0) where
  abbrev u : Entry
  u = probe unique_on t

  abbrev Inserts : ℕ → ℕ → ℕ → PageSet → List Item → Type 0
  Inserts f depth pno pages items =
      (c : Inserting) × (btsrin compare unique_on f s t pno ≡ done c)
      × Outcome compare unique_on s t depth pno pages items (find compare u items) c

  -- The outcome of the page below is that of the page.
  raised :
      (f depth pno : ℕ) (pages : PageSet) (items : List Item)
      (tree : InnerPage s (Holds s depth) pno items) (a : Apart s (suc depth) pno pages)
      (at : Place) (c : Inserting)
      (d : Descends compare unique_on f s t
        (item_of t)
        (getpage s pno)
        tree.kids
        tree.lasts
        0
        (getpage s pno).entry_cnt
        at)
      (o : Option Item)
      → Outcome compare unique_on s t depth
          ((getpage s pno).entries d.stop).pno
          (part pages pno a.owner d.stop)
          (tree.kids d.stop)
          o
          c
      → (finish_page pno (getpage s pno) d.stop c ≡ done c)
        × Outcome compare unique_on s t (suc depth) pno pages items o c
  unfolding finish_page
  raised f depth pno pages items tree a at c d (some x) g = (rw g refl, g)
  raised f depth pno pages items tree a at c d none g = (
    rw (g.kept, g.finished) refl,
    Grown-inner compare unique_on s t f depth pno pages items tree a at c d g,
  )

  inserts :
      (depth f pno : ℕ) (pages : PageSet) (items : List Item)
      → depth + 1 < f
      → Holds s depth pno items
      → Apart s depth pno pages
      → IsMonotone compare u items
      → Inserts f depth pno pages items
  inserts depth zero pno pages items h tree a m = absurd (omega arith)
  inserts zero (suc zero) pno pages items h tree a m = absurd (omega arith)
  inserts zero (suc (suc f)) pno pages items h tree a m =
      let p = getpage s pno in
      let first = tree.no_pages 0 (omega arith) in
      let at =
        leaf_place compare unique_on (suc f) s t p tree.no_pages named p.entry_cnt 0 (omega arith)
          (rw tree.contents at m) in
      room_leaf compare unique_on s t named alone f pno pages items tree room a
        (find compare u items) (at.0) (rw first (at.1)) (rw tree.contents (at.2))
  inserts (suc depth) (suc f) pno pages items h tree a m =
      let p = getpage s pno in
      let at =
        inner_place compare unique_on f s t (item_of t) depth pno (omega arith) named tree
          p.entry_cnt 0 (omega arith) (rw tree.contents at m) in
      elim (at.2) [
        | inl (x, e, dup) ↦ (
          refused_duplicate compare unique_on s t,
          ended_duplicate compare unique_on s t f pno tree.is_page.named (at.1 ∙ ap done dup),
          rw (tree.contents, e) refl,
        )
        | inr d ↦
            let below =
              inserts depth f (p.entries d.stop).pno (part pages pno a.owner d.stop)
                (tree.kids d.stop) (omega arith) (tree.child d.stop d.to) (a.child d.stop d.to)
                d.monotone in
            let shows = ap (λ (xs : List Item). find compare u xs) tree.contents ∙ d.shows in
            let up = raised f depth pno pages items tree a (at.0) (below.0) d _ (below.2) in
            (
              below.0,
              ended_below compare unique_on s t f pno d.stop (p.entries d.stop).pno (below.0)
                    tree.is_page.named (at.1 ∙ ap done d.goes) (below.1)
                  ∙ up.0,
              rw shows (up.1),
            )
      ]

probe_recno :
    (unique_on : Bool) (t : Entry)
    → (probe unique_on t).recno ≢ 0
    → (probe unique_on t).recno ≡ t.recno
probe_recno true t n = absurd (n refl)
probe_recno false t n = refl

-- Where every leaf has room, `btsrin` of an entry with a record number and a whole key, with fuel for
-- the levels of the index and one more, does to the pages what the insertion into the sorted sequence
-- of the items does. If an item has the same key and record number, under SET UNIQUE ON the same key
-- alone, it is a duplicate, and the index stays as it was. Otherwise one leaf of the tree is written,
-- and the tree stands for the sequence with the new item in it, which is sorted again; its pages stay
-- apart, nothing is left to do for the caller, and the index stands on an entry that is the new item.
pub btsrin-insert :
    (K : KeyOrder) (unique_on : Bool) (s : Index) (t : Entry) (depth f pno : ℕ) (pages : PageSet)
    (items : List Item)
    → depth + 1 < f
    → Holds s depth pno items
    → Apart s depth pno pages
    → HasRoom s
    → IsSorted K items
    → K.IsKey t.key
    → (t.recno == 0) ≡ false
    → t.pno ≡ 0
    → (c : Inserting) × (btsrin K.compare unique_on f s t pno ≡ done c)
      × Outcome K.compare unique_on s t depth pno pages items
          (find K.compare (probe unique_on t) items)
          c
      × (find K.compare (probe unique_on t) items ≡ none
          → IsSorted K (entered K.compare unique_on s t items))
btsrin-insert K unique_on s t depth f pno pages items enough h a room sorted key named alone =
    let target : IsTarget K (probe unique_on t) = λ n. key in
    let m = IsSorted-IsMonotone K (probe unique_on t) target items sorted in
    let r = inserts K.compare unique_on s t room named alone depth f pno pages items enough h a m in
    (
      r.0,
      r.1,
      r.2,
      λ e.
          insert-IsSorted K (probe unique_on t) t (refl, probe_recno unique_on t) key items e target
            sorted,
    )
