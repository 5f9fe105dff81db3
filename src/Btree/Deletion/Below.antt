-- ===== src/Btree/Deletion/Below.antt =====
-- `del`: the last item below a page goes, and the one ahead of it takes its place in the page above.
use db3w.Common.{
  ℕ, zero, suc, ◌+◌, ◌-◌, ◌≤◌, ◌<◌, ◌≡◌, refl, sym, ap, ◌∙◌, true, false, ◌==◌, List, [], ◌∷◌, ◌++◌,
  some, arith,
}
use db3w.Pages.{Entry, Page, is_leaf}
use db3w.Pages.Insert.{pnos, get_entry_lem}
use db3w.Btree.{Index, done, getpage, write_page}
use db3w.Btree.Deletion.{Removing, pageno_at, del_page, del}
use db3w.Btree.Deletion.Upward.{Rekeyed, rekeyed-Rekeyed, shortened, fallen, del_leaf_lem}
use db3w.Btree.Order.{Item, last}
use db3w.Btree.Order.Erase.{front}
use db3w.Btree.Tree.{item_of, items_from, joined, IsPage, LeafPage, Holds}
use db3w.Btree.Tree.Frame.{PageSet, part, Apart, getpage-write_page}
use db3w.Btree.Tree.Replace.{
  replaced, part_facts, replaced-InnerApart, replaced-InnerPage, outside_write, same_count,
}
use db3w.Btree.Tree.Last.{LeafPage-is_leaf, last-items_from, last-joined}
use db3w.Btree.Insertion.Inner.{self_equal}

-- Every leaf has an entry to spare.
abbrev pub HasSpare : Index → Type 0
HasSpare s = (q : ℕ) → IsPage s q → is_leaf (getpage s q) ≡ true → 1 < (getpage s q).entry_cnt

pub front-append :
    (xs ys : List Item) {l : Item} → last ys ≡ some l → front (xs ++ ys) ≡ xs ++ front ys
front-append [] ys e = refl
front-append (x ∷ []) [] e = absurd (cc)
front-append (x ∷ []) (y ∷ ys) e = refl
front-append (x ∷ x' ∷ xs) ys e = ap (λ zs. x ∷ zs) (front-append (x' ∷ xs) ys e)

front-items_from : (p : Page) (i n : ℕ) → front (items_from p i (suc n)) ≡ items_from p i n
front-items_from p i zero = refl
front-items_from p i (suc n) = ap (λ zs. item_of (p.entries i) ∷ zs) (front-items_from p (i + 1) n)

-- The last of the items has gone from a leaf among the pages, and the key of the page above is that of
-- the item ahead of it.
pub record Fallen (s : Index) (depth pno : ℕ) (pages : PageSet) (items : List Item) (apno itmno : ℕ)
    (q : Page) (t : Entry) (c : Removing) : Type 0 where
  pub leaf : ℕ
  pub page : Page
  pub end : Item
  pub kept : c.rm ≡ false
  pub finished : c.target ≡ t
  pub written : c.index ≡ write_page (write_page s leaf page) apno c.page
  pub rekeyed : Rekeyed itmno end.key q c.page
  pub within : pages leaf ≡ true
  pub holds : Holds (write_page s leaf page) depth pno (front items)
  pub apart : Apart (write_page s leaf page) depth pno pages
  pub at_end : last (front items) ≡ some end

module _ (s : Index) (t : Entry) (alone : (t.pno == 0) ≡ true) (spare : HasSpare s) where
  Holds-shortened :
      (pno : ℕ) (items : List Item)
      → LeafPage s pno items
      → 1 < (getpage s pno).entry_cnt
      → LeafPage (write_page s pno (shortened (getpage s pno))) pno (front items)
  unfolding write_page
  Holds-shortened pno items tree two =
      let p = getpage s pno in
      let e = getpage-write_page s pno (shortened p) tree.is_page.below in
      let cnt : (getpage (write_page s pno (shortened p)) pno).entry_cnt ≡ p.entry_cnt - 1 =
        ap (λ (x : Page). x.entry_cnt) e in
      let counted : suc (p.entry_cnt - 1) ≡ p.entry_cnt = omega arith in
      record {
        is_page = record { named = tree.is_page.named; below = tree.is_page.below };
        no_pages = λ i h. rw e (tree.no_pages i (omega (arith, cnt, h)));
        contents =
            rw (e, tree.contents)
              (ap (λ n. front (items_from p 0 n)) (sym counted)
                ∙ front-items_from p 0 (p.entry_cnt - 1));
      }

front-joined :
    (kids : ℕ → List Item) (stop i n : ℕ) {l : Item}
    → i + n ≡ stop
    → last (kids stop) ≡ some l
    → front (joined kids i n) ≡ joined (replaced kids stop (front (kids stop))) i n
front-joined kids stop i zero h e =
    let same : stop ≡ i = omega arith in rw (same, self_equal i) refl
front-joined kids stop i (suc n) h e =
    let differ : (i == stop) ≡ false = ground arith in
    rw
      (
        front-append (kids i) (joined kids (i + 1) n)
            (last-joined kids (i + 1) n stop (omega arith) e),
        differ,
        front-joined kids stop (i + 1) n (omega arith) e,
      )
      refl

module _ (s : Index) (t : Entry) (alone : (t.pno == 0) ≡ true) (spare : HasSpare s) (apno itmno : ℕ)
    (q : Page) (room : itmno + 1 ≤ q.entry_cnt) where
  abbrev pub Falls : ℕ → ℕ → ℕ → PageSet → List Item → Type 0
  Falls f depth pno pages items =
      (c : Removing) × (del f s pno apno q itmno t ≡ done c)
      × Fallen s depth pno pages items apno itmno q t c

  del_step :
      (f pno : ℕ) (c : Removing)
      → (pno == 0) ≡ false
      → del f s (pnos (getpage s pno) (getpage s pno).entry_cnt) apno q itmno t ≡ done c
      → del (suc f) s pno apno q itmno t
        ≡ del_page pno apno (getpage s pno) (pnos (getpage s pno) (getpage s pno).entry_cnt) itmno c
  unfolding del pageno_at
  del_step f pno c named e =
      rw (named, del, get_entry_lem (getpage s pno) (getpage s pno).entry_cnt (omega arith), e) refl

  pub nothing_below :
      (f : ℕ)
      → del (suc f) s 0 apno q itmno t
        ≡ done (record { rm = true; index = s; page = q; target = t })
  unfolding del
  nothing_below f = refl

  Falls-leaf :
      (f pno : ℕ) (pages : PageSet) (items : List Item)
      → LeafPage s pno items
      → pages pno ≡ true
      → Falls (suc (suc f)) zero pno pages items
  unfolding del_page
  Falls-leaf f pno pages items tree a =
      let p = getpage s pno in
      let two = spare pno tree.is_page (LeafPage-is_leaf s pno tree) in
      let none_below : pnos p p.entry_cnt ≡ 0 = tree.no_pages p.entry_cnt (omega arith) in
      let some_entry : (p.entry_cnt == 0) ≡ false = ground arith in
      let counted : suc (p.entry_cnt - 1 - 1) ≡ p.entry_cnt - 1 = omega arith in
      let full : suc (p.entry_cnt - 1) ≡ p.entry_cnt = omega arith in
      let shorter : front items ≡ items_from p 0 (p.entry_cnt - 1) =
        ap front tree.contents
        ∙ ap (λ n. front (items_from p 0 n)) (sym full)
        ∙ front-items_from p 0 (p.entry_cnt - 1) in
      (
        fallen s t pno apno q itmno p,
        del_step (suc f) pno (record { rm = true; index = s; page = q; target = t })
              tree.is_page.named (rw none_below (nothing_below f))
            ∙ rw (none_below, some_entry) (del_leaf_lem s t pno apno itmno q p room two),
        record {
          leaf = pno;
          page = shortened p;
          end = item_of (p.entries (p.entry_cnt - 1 - 1));
          kept = refl;
          finished = refl;
          written = refl;
          rekeyed = rekeyed-Rekeyed q itmno (shortened p) (p.entry_cnt - 1 - 1);
          within = a;
          holds = Holds-shortened s t alone spare pno items tree two;
          apart = a;
          at_end =
              ap last (shorter ∙ ap (λ n. items_from p 0 n) (sym counted))
              ∙ last-items_from p 0 (p.entry_cnt - 1 - 1) (p.entry_cnt - 1 - 1) (omega arith);
        },
      )

  pub falls :
      (depth f pno : ℕ) (pages : PageSet) (items : List Item)
      → depth + 1 < f
      → Holds s depth pno items
      → Apart s depth pno pages
      → Falls f depth pno pages items
  unfolding del_page
  falls depth zero pno pages items h tree a = absurd (omega arith)
  falls zero (suc zero) pno pages items h tree a = absurd (omega arith)
  falls zero (suc (suc f)) pno pages items h tree a = Falls-leaf f pno pages items tree a
  falls (suc depth) (suc f) pno pages items h tree a =
      let p = getpage s pno in
      let n = p.entry_cnt in
      let below =
        falls depth f (pnos p n) (part pages pno a.owner n) (tree.kids n) (omega arith)
          (tree.child n (omega arith)) (a.child n (omega arith)) in
      let c = below.0 in
      let g = below.2 in
      let new = front (tree.kids n) in
      let shorter : front items ≡ joined (replaced tree.kids n new) 0 n =
        ap front tree.contents
        ∙ front-joined tree.kids n 0 n (omega arith) (tree.ends n (omega arith)) in
      (
        c,
        del_step f pno c tree.is_page.named (below.1) ∙ rw g.kept refl,
        record {
          leaf = g.leaf;
          page = g.page;
          end = g.end;
          kept = g.kept;
          finished = g.finished;
          written = g.written;
          rekeyed = g.rekeyed;
          within = (part_facts pages pno a.owner n g.leaf g.within).0;
          holds = rw shorter (
              replaced-InnerPage s (write_page s g.leaf g.page) depth pno pages items tree a n
                (omega arith) (same_count s g.leaf g.page)
                (outside_write s _ g.leaf g.page g.within) new g.holds g.apart g.end g.at_end
                (λ l. absurd (omega arith)));
          apart =
              replaced-InnerApart s (write_page s g.leaf g.page) depth pno pages items tree a n
                (omega arith) (same_count s g.leaf g.page)
                (outside_write s _ g.leaf g.page g.within) new g.holds g.apart g.end g.at_end;
          at_end =
              ap last shorter
              ∙ last-joined (replaced tree.kids n new) 0 n n (omega arith)
                  (rw (self_equal n) g.at_end);
        },
      )
