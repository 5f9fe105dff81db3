-- ===== src/Btree/Insertion/Root.antt =====
-- `insert_new`: the first entry of an index, and an entry that leaves the root as it is.
use db3w.Common.{
  ℕ, suc, ◌+◌, ◌<◌, ◌≡◌, refl, ap, ◌∙◌, Bool, true, false, ◌==◌, List, [], ◌∷◌, some, arith,
}
use db3w.Common.Int.{ℤ}
use db3w.Pages.{Entry, Page, ok, put, put_pageno, insert_entry, is_leaf}
use db3w.Pages.Insert.{IsTarget, after_entry, insert_entry_lem, entry_leaf, pageno_lem}
use db3w.Pages.Split.{new_page}
use db3w.Btree.{Index, done, ◌>>=◌, getpage, write_page}
use db3w.Btree.Insertion.{Inserting, unfinished, or_else, new_root, rooted, btsrin, insert_new}
use db3w.Btree.Insertion.Grown.{unchanged, no_page}
use db3w.Btree.Tree.{item_of, LeafPage}
use db3w.Btree.Tree.Frame.{getpage-write_page}

module _ (compare : List ℕ → List ℕ → ℤ) (unique_on : Bool) (s : Index) (t : Entry)
    (named : (t.recno == 0) ≡ false) (alone : t.pno ≡ 0) where
  -- The cleared page with the number of the old root.
  abbrev blank : Page
  blank = put (new_page 1) 0 (record { pno = 0; recno = 0; key = [] })

  abbrev enlarged : Index
  enlarged = record s { rootno = s.pagecnt; pagecnt = s.pagecnt + 1 }

  abbrev first_index : Index
  first_index = write_page enlarged s.pagecnt (after_entry blank 0 t)

  blank_lem : put_pageno (new_page 1) 0 0 ≡ ok blank
  unfolding new_page
  blank_lem = pageno_lem (new_page 1) 0 0 (omega arith)

  blank_leaf : is_leaf blank ≡ true
  unfolding is_leaf put
  blank_leaf = refl

  target_lem : IsTarget blank t
  target_lem = rw (blank_leaf, named) refl

  entry_lem : insert_entry blank 0 0 t ≡ ok (after_entry blank 0 t, some (0, 0))
  unfolding put new_page
  entry_lem =
      insert_entry_lem blank 0 0 t target_lem (omega arith)
      ∙ rw (entry_leaf blank 0 t, blank_leaf) refl

  root_lem :
      s.rootno ≡ 0
      → rooted (unchanged compare unique_on s t)
        ≡ done (record { dupkey = false; index = first_index; target = t; position = some (0, 0) })
  unfolding rooted unfinished new_root or_else
  root_lem z = rw (named, z, blank_lem, entry_lem) refl

  page_lem : getpage first_index s.pagecnt ≡ after_entry blank 0 t
  unfolding write_page
  page_lem = getpage-write_page enlarged s.pagecnt (after_entry blank 0 t) (omega arith)

  no_pages_lem : (i : ℕ) → ((after_entry blank 0 t).entries i).pno ≡ 0
  unfolding put new_page
  no_pages_lem i = ground arith

  first-Holds : 0 < s.pagecnt → LeafPage first_index s.pagecnt (item_of t ∷ [])
  unfolding write_page put new_page
  first-Holds some_page = record {
    is_page = record { named = ground arith; below = omega arith };
    no_pages = λ i h. rw page_lem (no_pages_lem i);
    contents = rw page_lem refl;
  }

-- The first entry of an index without a root: `insert_new` with fuel makes a page behind the last one
-- the root, a leaf that holds the entry and nothing else, while the position of the index becomes the
-- entry 0 of the page 0, which is the header and not the new root. So it is with any order of the keys,
-- with and without SET UNIQUE ON, if there is a page for the header and the entry has a record number
-- and no page number.
pub insert_new-LeafPage :
    (compare : List ℕ → List ℕ → ℤ) (unique_on : Bool) (f : ℕ) (s : Index) (t : Entry)
    → s.rootno ≡ 0
    → 0 < s.pagecnt
    → (t.recno == 0) ≡ false
    → t.pno ≡ 0
    → (c : Inserting) × (insert_new compare unique_on (suc f) s t ≡ done c)
      × (c.dupkey ≡ false)
      × (c.index.rootno ≡ s.pagecnt)
      × (c.index.pagecnt ≡ s.pagecnt + 1)
      × LeafPage c.index s.pagecnt (item_of t ∷ [])
      × (c.position ≡ some (0, 0))
unfolding insert_new write_page
insert_new-LeafPage compare unique_on f s t z some_page named alone = (
  record {
    dupkey = false;
    index = first_index compare unique_on s t named alone;
    target = t;
    position = some (0, 0);
  },
  ap (λ n. btsrin compare unique_on (suc f) s t n >>= rooted) z
      ∙ rw (no_page compare unique_on s t f) (root_lem compare unique_on s t named alone z),
  refl,
  refl,
  refl,
  first-Holds compare unique_on s t named alone some_page,
  refl,
)
