-- ===== src/Btree/Insertion/Above.antt =====
-- A page that is no leaf, when the page below that `btsrin` went on to has grown.
use db3w.Common.{ℕ, suc, ◌<◌, ◌≡◌, refl, sym, ◌∙◌, Bool, List, [], ◌∷◌, some, inl, inr, Bool-cases}
use db3w.Common.Int.{ℤ}
use db3w.Pages.{Entry}
use db3w.Btree.{Index, getpage, write_page, positive}
use db3w.Btree.Insertion.{Place, Inserting}
use db3w.Btree.Insertion.Placing.{probe}
use db3w.Btree.Insertion.Inner.{Descends}
use db3w.Btree.Insertion.Grown.{entered, Grown}
use db3w.Btree.Order.{Item, order, insert, last, last-append}
use db3w.Btree.Order.Find.{insert-within}
use db3w.Btree.Tree.{item_of, InnerPage, Holds}
use db3w.Btree.Tree.Frame.{PageSet, part, Apart}
use db3w.Btree.Tree.Replace.{
  part_facts, replaced-InnerApart, replaced-InnerPage, outside_write, same_count,
}

last-cons : (x : Item) (xs : List Item) → (l : Item) × (last (x ∷ xs) ≡ some l)
last-cons x [] = (x, refl)
last-cons x (y ∷ xs) = last-cons y xs

-- What is inserted into is not empty.
insert-last :
    (compare : List ℕ → List ℕ → ℤ) (u : Entry) (new : Item) (xs : List Item)
    → (l : Item) × (last (insert compare u new xs) ≡ some l)
unfolding insert
insert-last compare u new [] = (new, refl)
insert-last compare u new (x ∷ xs) =
    let rest = insert-last compare u new xs in
    elim (Bool-cases (positive (order compare u x))) [
      | inl above ↦ (rest.0, rw above (last-append (x ∷ []) (insert compare u new xs) (rest.1)))
      | inr low ↦ let end = last-cons x xs in (end.0, rw low (end.1))
    ]

module _ (compare : List ℕ → List ℕ → ℤ) (unique_on : Bool) (s : Index) (t : Entry) where
  module _ (f depth pno : ℕ) (pages : PageSet) (items : List Item)
      (tree : InnerPage s (Holds s depth) pno items) (a : Apart s (suc depth) pno pages)
      (at : Place) (c : Inserting)
      (d : Descends compare unique_on f s t
        (item_of t)
        (getpage s pno)
        tree.kids
        tree.lasts
        0
        (getpage s pno).entry_cnt
        at)
      (g : Grown compare unique_on s t depth
        ((getpage s pno).entries d.stop).pno
        (part pages pno a.owner d.stop)
        (tree.kids d.stop)
        c) where
    abbrev kid : List Item
    kid = entered compare unique_on s t (tree.kids d.stop)

    abbrev end : (l : Item) × (last kid ≡ some l)
    unfolding insert-last
    end = insert-last compare (probe unique_on t) (item_of t) (tree.kids d.stop)

    -- A key stays the last one on its left.
    same_end :
        d.stop < (getpage s pno).entry_cnt → (end.0).key ≡ ((getpage s pno).entries d.stop).key
    same_end here =
        let kept : some (end.0) ≡ some (tree.lasts d.stop) =
          sym (end.1)
          ∙ (insert-within compare (probe unique_on t) (item_of t) (tree.kids d.stop) []
              (tree.ends d.stop d.to) (d.low here)).1 in
        let same : end.0 ≡ tree.lasts d.stop = cc in rw same (tree.separator d.stop here)

    pub Grown-inner : Grown compare unique_on s t (suc depth) pno pages items c
    Grown-inner = record {
      leaf = g.leaf;
      entry = g.entry;
      page = g.page;
      kept = g.kept;
      finished = g.finished;
      written = g.written;
      within = (part_facts pages pno a.owner d.stop g.leaf g.within).0;
      position = g.position;
      positioned = g.positioned;
      apart =
          replaced-InnerApart s (write_page s g.leaf g.page) depth pno pages items tree a d.stop
            d.to (same_count s g.leaf g.page) (outside_write s _ g.leaf g.page g.within) kid g.holds
            g.apart (end.0) (end.1);
      holds =
          rw (tree.contents, ← d.grows)
            (replaced-InnerPage s (write_page s g.leaf g.page) depth pno pages items tree a d.stop
              d.to (same_count s g.leaf g.page) (outside_write s _ g.leaf g.page g.within) kid
              g.holds g.apart (end.0) (end.1) same_end);
    }
