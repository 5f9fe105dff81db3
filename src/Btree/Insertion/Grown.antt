-- ===== src/Btree/Insertion/Grown.antt =====
-- `btsrin` on a leaf with room against the insertion into its sequence.
use db3w.Common.{
  ℕ, zero, suc, ◌+◌, ◌-◌, ◌≤◌, ◌<◌, ◌≡◌, refl, ap, sym, ◌∙◌, Bool, true, false, ◌==◌, List, Option,
  none, some, arith, if◌then◌else◌, ltb,
}
use db3w.Common.Int.{ℤ}
use db3w.Pages.{Entry, Page, is_leaf, insert_in_page, Result}
use db3w.Pages.Insert.{get_entry_lem, Inserted, insert_in_page-Inserted, IsTarget}
use db3w.Btree.{Index, done, getpage, write_page}
use db3w.Btree.Insertion.{
  Place, stands, duplicate, locate, Inserting, unfinished, or_else, enter, finish_page, btsrin,
}
use db3w.Btree.Insertion.Placing.{probe}
use db3w.Btree.Insertion.Leaf.{entry_at, Placed}
use db3w.Btree.Order.{Item, insert}
use db3w.Btree.Tree.{IsPage, item_of, items_from, LeafPage, Holds}
use db3w.Btree.Tree.Last.{LeafPage-is_leaf}
use db3w.Btree.Tree.Frame.{PageSet, Apart, getpage-write_page}

-- Every leaf has room for one entry more.
abbrev pub HasRoom : Index → Type 0
HasRoom s =
    (q : ℕ) → IsPage s q → is_leaf (getpage s q) ≡ true → (getpage s q).entry_cnt < s.norecpp

module _ (compare : List ℕ → List ℕ → ℤ) (unique_on : Bool) (s : Index) (t : Entry) where
  abbrev u : Entry
  u = probe unique_on t

  abbrev pub entered : List Item → List Item
  entered items = insert compare u (item_of t) items

  -- A leaf among the pages is written, the tree holds the item in addition, and the index stands on it.
  pub record Grown (depth pno : ℕ) (pages : PageSet) (items : List Item) (c : Inserting)
      : Type 0 where
    pub leaf : ℕ
    pub entry : ℕ
    pub page : Page
    pub kept : c.dupkey ≡ false
    pub finished : unfinished c.target ≡ false
    pub written : c.index ≡ write_page s leaf page
    pub within : pages leaf ≡ true
    pub holds : Holds (write_page s leaf page) depth pno (entered items)
    pub apart : Apart (write_page s leaf page) depth pno pages
    pub position : c.position ≡ some (leaf, entry)
    pub positioned : item_of (page.entries entry) ≡ item_of t

  abbrev pub unchanged : Inserting
  unchanged = record { dupkey = false; index = s; target = t; position = none }

  abbrev pub refused_duplicate : Inserting
  refused_duplicate = record { dupkey = true; index = s; target = t; position = none }

  -- The outcome for what a search of the sequence shows.
  abbrev pub Outcome : ℕ → ℕ → PageSet → List Item → Option Item → Inserting → Type 0
  Outcome depth pno pages items (some x) c = c ≡ refused_duplicate
  Outcome depth pno pages items none c = Grown depth pno pages items c

  -- One page of the insertion, for the end that its loop comes to.
  pub ended_duplicate :
      (f pno : ℕ)
      → (pno == 0) ≡ false
      → locate compare unique_on f s t
          (getpage s pno)
          (getpage s pno).entry_cnt
          0
          ((getpage s pno).entries 0).pno
        ≡ done duplicate
      → btsrin compare unique_on (suc f) s t pno ≡ done refused_duplicate
  unfolding btsrin
  ended_duplicate f pno named e =
      rw (named, btsrin, get_entry_lem (getpage s pno) 0 (omega arith), e) refl

  pub ended_below :
      (f pno r pn3 : ℕ) (c : Inserting)
      → (pno == 0) ≡ false
      → locate compare unique_on f s t
          (getpage s pno)
          (getpage s pno).entry_cnt
          0
          ((getpage s pno).entries 0).pno
        ≡ done (stands r pn3)
      → btsrin compare unique_on f s t pn3 ≡ done c
      → btsrin compare unique_on (suc f) s t pno ≡ finish_page pno (getpage s pno) r c
  unfolding btsrin
  ended_below f pno r pn3 c named e below =
      rw (named, btsrin, get_entry_lem (getpage s pno) 0 (omega arith), e, below) refl

  pub no_page : (f : ℕ) → btsrin compare unique_on (suc f) s t 0 ≡ done unchanged
  unfolding btsrin
  no_page f = refl

  module _ (named : (t.recno == 0) ≡ false) (alone : t.pno ≡ 0) where
    finish_leaf :
        (pno r : ℕ) (p p' : Page)
        → is_leaf p ≡ true
        → p.entry_cnt < s.norecpp
        → insert_in_page p pno r t ≡ Result.ok (p', if is_leaf p then some (pno, r) else none)
        → finish_page pno p r unchanged
          ≡ done (record {
            dupkey = false;
            index = write_page s pno p';
            target = record t { pno = 0; recno = 0 };
            position = some (pno, r);
          })
    unfolding finish_page unfinished enter or_else
    finish_leaf pno r p p' leaf room put =
        let full : ltb p.entry_cnt s.norecpp ≡ true = ground arith in
        rw (named, full, put, leaf) refl

    target_lem : (p : Page) → is_leaf p ≡ true → IsTarget p t
    target_lem p leaf = rw (leaf, named) refl

    no_page_put :
        (r : ℕ) (p p' : Page)
        → r ≤ p.entry_cnt
        → Inserted r t p p'
        → ((i : ℕ) → i ≤ p.entry_cnt → (p.entries i).pno ≡ 0)
        → (i : ℕ) → i ≤ p.entry_cnt + 1
        → (p'.entries i).pno ≡ 0
    no_page_put r p p' l put none_of i h =
        ground (arith, put.pno_at i h, none_of i, none_of (i - 1), alone)

    Grown-leaf :
        (pno r : ℕ) (pages : PageSet) (items : List Item) (p' : Page)
        → LeafPage s pno items
        → pages pno ≡ true
        → r ≤ (getpage s pno).entry_cnt
        → Inserted r t (getpage s pno) p'
        → items_from p' 0 (suc (getpage s pno).entry_cnt)
          ≡ entered (items_from (getpage s pno) 0 (getpage s pno).entry_cnt)
        → Grown zero pno pages items (record {
          dupkey = false;
          index = write_page s pno p';
          target = record t { pno = 0; recno = 0 };
          position = some (pno, r);
        })
    unfolding unfinished write_page
    Grown-leaf pno r pages items p' tree a l put grows =
        let p = getpage s pno in
        let e = getpage-write_page s pno p' tree.is_page.below in
        let e_cnt : (getpage (write_page s pno p') pno).entry_cnt ≡ p'.entry_cnt =
          ap (λ (q : Page). q.entry_cnt) e in
        let counted : suc p.entry_cnt ≡ p'.entry_cnt = omega (arith, put.counted) in
        record {
          leaf = pno;
          entry = r;
          page = p';
          kept = refl;
          finished = refl;
          written = refl;
          within = a;
          apart = a;
          position = refl;
          positioned = entry_at r t p p' put l;
          holds = record {
            is_page = record { named = tree.is_page.named; below = tree.is_page.below };
            no_pages = λ i h.
                rw e
                  (no_page_put r p p' l put tree.no_pages i (omega (arith, e_cnt, put.counted, h)));
            contents =
                rw e (ap entered tree.contents ∙ sym grows ∙ ap (λ n. items_from p' 0 n) counted);
          };
        }

    pub room_leaf :
        (f pno : ℕ) (pages : PageSet) (items : List Item) (tree : LeafPage s pno items)
        → HasRoom s
        → pages pno ≡ true
        → (o : Option Item) (at : Place)
        → locate compare unique_on
            (suc f)
            s
            t
            (getpage s pno)
            (getpage s pno).entry_cnt
            0
            ((getpage s pno).entries 0).pno
          ≡ done at
        → Placed compare unique_on
            (suc f)
            s
            t
            (getpage s pno)
            tree.no_pages
            named
            0
            (getpage s pno).entry_cnt
            o
            at
        → (c : Inserting) × (btsrin compare unique_on (suc (suc f)) s t pno ≡ done c)
          × Outcome zero pno pages items o c
    room_leaf f pno pages items tree room a (some x) at e placed = (
      refused_duplicate,
      ended_duplicate (suc f) pno tree.is_page.named (e ∙ ap done placed),
      refl,
    )
    room_leaf f pno pages items tree room a none at e (r, goes, l, h, puts) =
        let p = getpage s pno in
        let leaf = LeafPage-is_leaf s pno tree in
        let put = insert_in_page-Inserted p pno r t (target_lem p leaf) h in
        (
          record {
            dupkey = false;
            index = write_page s pno (put.0);
            target = record t { pno = 0; recno = 0 };
            position = some (pno, r);
          },
          ended_below (suc f) pno r 0 unchanged tree.is_page.named (e ∙ ap done goes) (no_page f)
              ∙ finish_leaf pno r p (put.0) leaf (room pno tree.is_page leaf) (put.1),
          Grown-leaf pno r pages items (put.0) tree a h (put.2) (puts (put.0) (put.2)),
        )
