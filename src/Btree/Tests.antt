-- ===== src/Btree/Tests.antt =====
-- The theorems on a concrete index of two levels, whose keys are single letters.
use db3w.Common.{
  ℕ, some, ◌+◌, ◌-◌, ◌==◌, ◌≡◌, refl, true, false, List, [], ◌∷◌, none, arith, inl, inr, Bool-cases,
  if◌then◌else◌, ltb,
}
use db3w.Pages.{Entry, Page, is_leaf}
use db3w.Pages.Split.{new_page}
use db3w.Keys.Order.{text_order}
use db3w.Keys.Text.{no_zero}
use db3w.Keys.{skcmp, skcmp_from}
use db3w.Btree.{Index, done, getpage}
use db3w.Btree.Search.{Answer, equal, btsrch}
use db3w.Btree.Search.Refinement.{Shows, btsrch-find}
use db3w.Btree.Insertion.{Inserting, btsrin, insert_new}
use db3w.Btree.Insertion.Root.{insert_new-LeafPage}
use db3w.Btree.Insertion.Placing.{probe}
use db3w.Btree.Insertion.Grown.{HasRoom, entered, Outcome}
use db3w.Btree.Insertion.Refinement.{btsrin-insert}
use db3w.Btree.Deletion.Below.{HasSpare}
use db3w.Btree.Deletion.Leaf.{Deletes}
use db3w.Btree.Deletion.Refinement.{btsrdel-erase}
use db3w.Btree.Neighbours.{btsrch-btsrin_other}
use db3w.Btree.RoundTrip.{btsrch-btsrin, btsrch-btsrdel}
use db3w.Btree.Deletion.{Removing, btsrdel}
use db3w.Btree.Order.{Item, order, find, IsSorted}
use db3w.Btree.Tree.{LeafPage, Holds}
use db3w.Btree.Tree.Frame.{PageSet, Apart}

abbrev entry : ℕ → ℕ → ℕ → Entry
entry pno recno letter = record { pno = pno; recno = recno; key = letter ∷ [] }

abbrev item : ℕ → ℕ → Item
item recno letter = record { key = letter ∷ []; recno = recno }

abbrev left_page : Page
left_page = record {
  entry_cnt = 2;
  entries = λ i. if i == 0 then entry 0 7 b'a' else if i == 1 then entry 0 8 b'c' else entry 0 0 0;
}

abbrev right_page : Page
right_page = record {
  entry_cnt = 2;
  entries = λ i. if i == 0 then entry 0 6 b'd' else if i == 1 then entry 0 5 b'e' else entry 0 0 0;
}

abbrev root_page : Page
root_page = record { entry_cnt = 1; entries = λ i. if i == 0 then entry 1 8 b'c' else entry 2 0 0 }

-- Page 0 is the header.
abbrev index : Index
index = record {
  rootno = 3;
  norecpp = 4;
  pagecnt = 4;
  pages = λ n. if n == 1 then left_page else if n == 2 then right_page else root_page;
}

abbrev left_items : List Item
left_items = item 7 b'a' ∷ item 8 b'c' ∷ []

abbrev right_items : List Item
right_items = item 6 b'd' ∷ item 5 b'e' ∷ []

abbrev items : List Item
items = item 7 b'a' ∷ item 8 b'c' ∷ item 6 b'd' ∷ item 5 b'e' ∷ []

left_holds : LeafPage index 1 left_items
unfolding getpage
left_holds = record {
  is_page = record { named = refl; below = omega arith };
  no_pages = λ i h. ground arith;
  contents = refl;
}

right_holds : LeafPage index 2 right_items
unfolding getpage
right_holds = record {
  is_page = record { named = refl; below = omega arith };
  no_pages = λ i h. ground arith;
  contents = refl;
}

index-Holds : Holds index 1 3 items
unfolding getpage
index-Holds = record {
  is_page = record { named = refl; below = omega arith };
  kids = λ i. if i == 0 then left_items else right_items;
  lasts = λ i. if i == 0 then item 8 b'c' else item 5 b'e';
  child = λ i h. elim (Bool-cases (i == 0)) [ inl e ↦ rw e left_holds | inr e ↦ rw e right_holds ];
  pageno = λ i h. ground arith;
  ends = λ i h. elim (Bool-cases (i == 0)) [ inl e ↦ rw e refl | inr e ↦ rw e refl ];
  separator = λ i h. let e : (i == 0) ≡ true = ground arith in rw e refl;
  contents = refl;
}

abbrev all_pages : PageSet
all_pages n = ltb n 4

index-Apart : Apart index 1 3 all_pages
unfolding getpage
index-Apart = record {
  self = refl;
  owner = λ q. q - 1;
  child = λ i h. elim (Bool-cases (i == 0)) [
    | inl e ↦ rw e (let z : i ≡ 0 = ground (arith, e) in rw z refl)
    | inr e ↦ rw e (let z : i ≡ 1 = ground (arith, e, h) in rw z refl)
  ];
}

items-IsSorted : IsSorted (text_order 1) items
unfolding text_order skcmp_from skcmp no_zero
items-IsSorted = (
  (refl, refl),
  (inl refl, (inl refl, (inl refl, tt))),
  (
    (refl, refl),
    (inl refl, (inl refl, tt)),
    ((refl, refl), (inl refl, tt), ((refl, refl), tt, tt)),
  ),
)

btsrch-find_example :
    (a : Answer) × (btsrch (text_order 1).compare 3 index equal (entry 0 6 b'd') 3 ≡ done a)
    × Shows index (find (text_order 1).compare (entry 0 6 b'd') items) a
unfolding text_order no_zero
btsrch-find_example =
    btsrch-find (text_order 1) index (entry 0 6 b'd') 1 3 3 items (omega arith) index-Holds
      items-IsSorted (λ n. (refl, refl))

has_room : HasRoom index
unfolding getpage is_leaf new_page
has_room q is_page leaf = ground arith

btsrin-insert_example :
    (c : Inserting) × (btsrin (text_order 1).compare false 3 index (entry 0 9 b'b') 3 ≡ done c)
    × Outcome
        (text_order 1).compare
        false
        index
        (entry 0 9 b'b')
        1
        3
        all_pages
        items
        (find (text_order 1).compare (probe false (entry 0 9 b'b')) items)
        c
    × (find (text_order 1).compare (probe false (entry 0 9 b'b')) items ≡ none
        → IsSorted
            (text_order 1)
            (entered (text_order 1).compare false index (entry 0 9 b'b') items))
unfolding text_order no_zero
btsrin-insert_example =
    btsrin-insert (text_order 1) false index (entry 0 9 b'b') 1 3 3 all_pages items (omega arith)
      index-Holds index-Apart has_room items-IsSorted (refl, refl) refl refl

has_spare : HasSpare index
unfolding getpage is_leaf new_page
has_spare q is_page leaf = ground (arith, is_page.named, is_page.below)

-- The last item of the left leaf goes; its key stands in the root.
btsrdel-erase_example :
    Deletes
      (text_order 1).compare
      index
      (entry 0 8 b'c')
      3
      1
      3
      all_pages
      items
      (find (text_order 1).compare (entry 0 8 b'c') items)
unfolding text_order no_zero
btsrdel-erase_example =
    btsrdel-erase (text_order 1) index (entry 0 8 b'c') 1 3 3 all_pages items (omega arith)
      index-Holds index-Apart has_spare items-IsSorted (refl, refl) refl refl

-- Page 0 is the header, and there is no other.
abbrev empty_index : Index
empty_index = record { rootno = 0; norecpp = 4; pagecnt = 1; pages = λ n. root_page }

insert_new-LeafPage_example :
    (c : Inserting) × (insert_new (text_order 1).compare true 1 empty_index (entry 0 9 b'b')
      ≡ done c)
    × (c.dupkey ≡ false)
    × (c.index.rootno ≡ 1)
    × (c.index.pagecnt ≡ 1 + 1)
    × LeafPage c.index 1 (item 9 b'b' ∷ [])
    × (c.position ≡ some (0, 0))
insert_new-LeafPage_example =
    insert_new-LeafPage (text_order 1).compare true 0 empty_index (entry 0 9 b'b') refl
      (omega arith) refl refl

btsrch-btsrin_example :
    (c : Inserting) × (a : Answer) × (btsrin (text_order 1).compare true 3 index (entry 0 9 b'b') 3
      ≡ done c)
    × (btsrch (text_order 1).compare 3 c.index equal (entry 0 9 b'b') 3 ≡ done a)
    × Shows c.index (some (item 9 b'b')) a
unfolding text_order skcmp_from skcmp no_zero find order
btsrch-btsrin_example =
    btsrch-btsrin (text_order 1) true index (entry 0 9 b'b') 1 3 3 all_pages items (omega arith)
      index-Holds index-Apart has_room items-IsSorted (refl, refl) refl refl refl

btsrch-btsrdel_example :
    (c : Removing) × (a : Answer) × (b : Answer) × (btsrdel
        (text_order 1).compare
        3
        index
        3
        (entry 0 8 b'c')
      ≡ done c)
    × (c.rm ≡ false)
    × (btsrch (text_order 1).compare 3 c.index equal (entry 0 8 b'c') 3 ≡ done a)
    × Shows c.index none a
    × (btsrch (text_order 1).compare 3 c.index equal (entry 0 6 b'd') 3 ≡ done b)
    × Shows c.index (find (text_order 1).compare (entry 0 6 b'd') items) b
unfolding text_order skcmp_from skcmp no_zero find order
btsrch-btsrdel_example =
    btsrch-btsrdel (text_order 1) index (entry 0 8 b'c') (entry 0 6 b'd') 1 3 3 all_pages items
      (item 8 b'c') (omega arith) index-Holds index-Apart has_spare items-IsSorted (refl, refl) refl
      refl refl (refl, refl) refl (λ e. ground arith)

btsrch-btsrin_other_example :
    (c : Inserting) × (a : Answer) × (btsrin (text_order 1).compare true 3 index (entry 0 9 b'b') 3
      ≡ done c)
    × (btsrch (text_order 1).compare 3 c.index equal (entry 0 6 b'd') 3 ≡ done a)
    × Shows c.index (find (text_order 1).compare (entry 0 6 b'd') items) a
unfolding text_order skcmp_from skcmp no_zero find order
btsrch-btsrin_other_example =
    btsrch-btsrin_other (text_order 1) true index (entry 0 9 b'b') (entry 0 6 b'd') 1 3 3 all_pages
      items (omega arith) index-Holds index-Apart has_room items-IsSorted (refl, refl) refl refl
      refl (refl, refl) refl (λ e. ground arith)
