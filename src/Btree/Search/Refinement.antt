-- ===== src/Btree/Search/Refinement.antt =====
-- `btsrch` for an equal entry against the search through the sequence of the index.
use db3w.Common.{
  ℕ, zero, suc, ◌+◌, ◌<◌, ◌≡◌, refl, ap, ◌∙◌, false, ◌==◌, List, some, none, arith, Option, inl,
  inr, Bool-cases,
}
use db3w.Common.Int.{ℤ, pos}
use db3w.Pages.{Entry}
use db3w.Pages.Insert.{get_entry_lem}
use db3w.Btree.{Run, Index, done, ◌>>=◌, getpage}
use db3w.Btree.Search.{
  Scan, Exit, Answer, through, equal, scan, settle_exit, settle_leaf, second, conclude, initial,
  btsrch,
}
use db3w.Btree.Search.Leaf.{Reached, leaf_scan}
use db3w.Btree.Search.Inner.{inner_scan}
use db3w.Btree.Order.{Item, KeyOrder, find, IsMonotone, IsSorted, IsTarget}
use db3w.Btree.Order.Sorted.{IsSorted-IsMonotone}
use db3w.Btree.Tree.{item_of, Holds}

-- The answer for what the sequence shows: nothing, or the item's record and a position at it.
abbrev pub Shows : Index → Option Item → Answer → Type 0
Shows s none a = a ≡ record { recno = 0; position = none }
Shows s (some x) a =
    (q : ℕ) × (j : ℕ) × (a ≡ record { recno = x.recno; position = some (q, j) })
    × (item_of ((getpage s q).entries j) ≡ x)
    × (j < (getpage s q).entry_cnt)

module _ (compare : List ℕ → List ℕ → ℤ) (s : Index) (t : Entry) where
  Answers : ℕ → ℕ → List Item → Type 0
  Answers f pno items =
      (a : Answer) × (btsrch compare f s equal t pno ≡ done a) × Shows s (find compare t items) a

  abbrev start : ℕ → Scan
  start pno = record {
    e = pos 1;
    met_equal = false;
    r = 0;
    pn3 = ((getpage s pno).entries 0).pno;
    previous = none;
    n3 = 0;
  }

  initial_lem : (pno : ℕ) → initial (getpage s pno) ≡ done (start pno)
  unfolding initial
  initial_lem pno = rw (get_entry_lem (getpage s pno) 0 (omega arith)) refl

  abbrev concluded : ℕ → ℕ → Exit → Run Answer
  concluded f pno exit =
      settle_exit equal exit >>= conclude equal pno (getpage s pno) (btsrch compare f s equal t)

  -- One page of the search, for the end that its loop comes to.
  step :
      (f pno : ℕ) (exit : Exit)
      → (pno == 0) ≡ false
      → scan compare f s equal t (getpage s pno) (getpage s pno).entry_cnt (start pno) ≡ done exit
      → btsrch compare (suc f) s equal t pno ≡ concluded f pno exit
  unfolding btsrch
  step f pno exit named e = rw (named, btsrch, initial_lem pno, e) refl

  no_page :
      (f : ℕ) → btsrch compare (suc f) s equal t 0 ≡ done (record { recno = 0; position = none })
  unfolding btsrch
  no_page f = refl

  through_lem :
      (f pno : ℕ) (st : Scan)
      → concluded f pno (through st) ≡ (
          btsrch compare f s equal t st.pn3
          >>= second equal st.previous (btsrch compare f s equal t))
  unfolding settle_exit settle_leaf conclude
  through_lem f pno st = elim (Bool-cases (st.pn3 == 0)) [
    | inl z ↦ rw (z, settle_exit) refl
    | inr n ↦ rw (n, settle_exit) refl
  ]

  below_lem :
      (f pno : ℕ) (st : Scan) {a : Answer}
      → btsrch compare f s equal t st.pn3 ≡ done a
      → concluded f pno (through st) ≡ done a
  unfolding second
  below_lem f pno st e = through_lem f pno st ∙ rw e refl

  leaf_answers :
      (f pno : ℕ) (o : Option Item) (exit : Exit)
      → Reached compare (suc f) s t (getpage s pno) o exit
      → (a : Answer) × (concluded (suc f) pno exit ≡ done a) × Shows s o a
  unfolding settle_exit conclude
  leaf_answers f pno none exit (st, e, z) = (
    record { recno = 0; position = none },
    rw e (below_lem (suc f) pno st (rw z (no_page f))),
    refl,
  )
  leaf_answers f pno (some x) exit (j, below, e, same) = (
    record { recno = x.recno; position = some (pno, j) },
    let recno : ((getpage s pno).entries j).recno ≡ x.recno = ap (λ (i : Item). i.recno) same in
        rw (e, get_entry_lem (getpage s pno) j (omega arith), recno) refl,
    (pno, j, refl, same, below),
  )

  pub answers :
      (depth f pno : ℕ) (items : List Item)
      → depth + 1 < f
      → Holds s depth pno items
      → IsMonotone compare t items
      → (a : Answer) × (btsrch compare f s equal t pno ≡ done a) × Shows s (find compare t items) a
  answers depth zero pno items h tree m = absurd (omega arith)
  answers zero (suc zero) pno items h tree m = absurd (omega arith)
  answers zero (suc (suc f)) pno items h tree m =
      let c = (getpage s pno).entry_cnt in
      let reached =
        leaf_scan compare (suc f) s t (getpage s pno) tree.no_pages c (start pno) (omega arith)
          (tree.no_pages 0 (omega arith)) (rw tree.contents at m) in
      let ans = leaf_answers f pno _ (reached.0) (reached.2) in
      (
        ans.0,
        step (suc f) pno (reached.0) tree.is_page.named (reached.1) ∙ ans.1,
        rw tree.contents (ans.2),
      )
  answers (suc depth) (suc f) pno items h tree m =
      let c = (getpage s pno).entry_cnt in
      let through_page =
        inner_scan compare f s t depth pno (omega arith) tree c (start pno) (omega arith) refl
          (rw tree.contents at m) in
      let st = through_page.0 in
      let n = through_page.2 in
      let ans =
        answers depth f ((getpage s pno).entries n.at).pno (tree.kids n.at) (omega arith)
          (tree.child n.at n.below) n.monotone in
      (
        ans.0,
        step f pno (through st) tree.is_page.named (through_page.1)
            ∙ below_lem f pno st (rw n.page (ans.1)),
        rw (tree.contents, n.shows) (ans.2),
      )

-- With fuel for the levels of an index and one more, `btsrch` for an equal entry gives what the search
-- through the sorted sequence of its items gives: 0 and no position if no item has the key and, where
-- one is given, the record number; otherwise the first item that has them, with the position of an
-- entry that is this item. A target without a record number may be a beginning of a key.
pub btsrch-find :
    (K : KeyOrder) (s : Index) (t : Entry) (depth f pno : ℕ) (items : List Item)
    → depth + 1 < f
    → Holds s depth pno items
    → IsSorted K items
    → IsTarget K t
    → (a : Answer) × (btsrch K.compare f s equal t pno ≡ done a)
      × Shows s (find K.compare t items) a
btsrch-find K s t depth f pno items enough tree sorted target =
    answers K.compare s t depth f pno items enough tree
      (IsSorted-IsMonotone K t target items sorted)
