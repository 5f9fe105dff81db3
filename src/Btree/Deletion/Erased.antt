-- ===== src/Btree/Deletion/Erased.antt =====
-- What a deletion leaves of a tree, and how it is so for a page above.
use db3w.Common.{
  ℕ, suc, ◌≤◌, ◌<◌, ◌≡◌, refl, ap, sym, ◌∙◌, true, false, ◌==◌, List, some, arith, inl, inr,
  Bool-cases, if◌then◌else◌,
}
use mathlib.Core.Path.{subst}
use db3w.Common.Int.{ℤ}
use db3w.Pages.{Entry, Page}
use db3w.Pages.Insert.{pnos, keys}
use db3w.Btree.{Index, getpage, write_page}
use db3w.Btree.Deletion.{Removing, Spot}
use db3w.Btree.Deletion.Below.{Fallen}
use db3w.Btree.Deletion.Descent.{Descent}
use db3w.Btree.Order.{Item, find, last}
use db3w.Btree.Order.Erase.{erase, erase-last, last-erase, front}
use db3w.Btree.Tree.{joined, InnerPage, Holds}
use db3w.Btree.Tree.Last.{last-joined}
use db3w.Btree.Tree.Frame.{
  PageSet, part, Apart, Agrees-write_page, Holds-frame, Apart-frame, getpage-write_page,
}
use db3w.Btree.Tree.Replace.{
  replaced, part_self, same_count, outside_write, child-Holds, child-Apart, child_ends, ends_of,
  replaced-InnerApart, replaced-InnerPage,
}

-- The tree holds the items without the one that the target matches, and the pages outside of it are
-- as they were.
pub record Erased (compare : List ℕ → List ℕ → ℤ) (s : Index) (t : Entry) (depth pno : ℕ)
    (pages : PageSet) (items : List Item) (c : Removing) : Type 0 where
  pub kept : c.rm ≡ false
  pub finished : c.target ≡ t
  pub count : c.index.pagecnt ≡ s.pagecnt
  pub outside : (q : ℕ) → pages q ≡ false → getpage c.index q ≡ getpage s q
  pub holds : Holds c.index depth pno (erase compare t items)
  pub apart : Apart c.index depth pno pages
  pub end : Item
  pub at_end : last (erase compare t items) ≡ some end

-- The parts of a set are in it.
part_outside :
    (pages : PageSet) (pno : ℕ) (owner : ℕ → ℕ) (r q : ℕ)
    → pages q ≡ false
    → part pages pno owner r q ≡ false
part_outside pages pno owner r q h = ground arith

module _ (compare : List ℕ → List ℕ → ℤ) (f : ℕ) (s : Index) (t : Entry) (depth pno : ℕ)
    (pages : PageSet) (items : List Item) (tree : InnerPage s (Holds s depth) pno items)
    (a : Apart s (suc depth) pno pages) (x : Spot) (c : Removing)
    (d : Descent compare f s t (getpage s pno) tree.kids tree.lasts 0 (getpage s pno).entry_cnt x)
    {y : Item} (shown : find compare t (tree.kids d.stop) ≡ some y) where
  abbrev kid : List Item
  kid = erase compare t (tree.kids d.stop)

  all_erased :
      erase compare t items ≡ joined (replaced tree.kids d.stop kid) 0 (getpage s pno).entry_cnt
  all_erased = ap (λ (xs : List Item). erase compare t xs) tree.contents ∙ sym (d.erases shown)

  module _ (unmet : x.match ≡ false)
      (g : Erased compare s t depth
        (pnos (getpage s pno) d.stop)
        (part pages pno a.owner d.stop)
        (tree.kids d.stop)
        c) where
    same_end : d.stop < (getpage s pno).entry_cnt → g.end.key ≡ keys (getpage s pno) d.stop
    same_end here =
        let kept : some g.end ≡ some (tree.lasts d.stop) =
          sym g.at_end
          ∙ last-erase compare t (tree.kids d.stop) (tree.ends d.stop d.to) (d.unmet unmet here) in
        let same : g.end ≡ tree.lasts d.stop = cc in rw same (tree.separator d.stop here)

    -- The page below has lost an item that is not its last one.
    pub Erased-below :
        Erased compare s t (suc depth) pno pages items (record c { page = getpage s pno })
    Erased-below =
        let n = (getpage s pno).entry_cnt in
        record {
          kept = g.kept;
          finished = g.finished;
          count = g.count;
          outside = λ q h. g.outside q (part_outside pages pno a.owner d.stop q h);
          holds = rw all_erased (
              replaced-InnerPage s c.index depth pno pages items tree a d.stop d.to g.count
                g.outside kid g.holds g.apart g.end g.at_end same_end);
          apart =
              replaced-InnerApart s c.index depth pno pages items tree a d.stop d.to g.count
                g.outside kid g.holds g.apart g.end g.at_end;
          end =
              ends_of s c.index depth pno pages items tree a d.stop d.to g.count g.outside kid
                g.holds g.apart g.end g.at_end n;
          at_end =
              ap last all_erased
              ∙ last-joined (replaced tree.kids d.stop kid) 0 n n (omega arith) (
                  child_ends s c.index depth pno pages items tree a d.stop d.to g.count g.outside
                    kid g.holds g.apart g.end g.at_end n (omega arith));
        }

  module _ (met : x.match ≡ true)
      (g : Fallen s depth
        (pnos (getpage s pno) d.stop)
        (part pages pno a.owner d.stop)
        (tree.kids d.stop)
        pno
        d.stop
        (getpage s pno)
        t
        c) where
    abbrev s1 : Index
    s1 = write_page s g.leaf g.page

    abbrev s2 : Index
    s2 = write_page s1 pno c.page

    kid_lem : kid ≡ front (tree.kids d.stop)
    kid_lem = erase-last compare t (tree.kids d.stop) d.strict (tree.ends d.stop d.to) (d.met met).1

    written_page : getpage s2 pno ≡ c.page
    written_page =
        getpage-write_page s1 pno c.page (rw (same_count s g.leaf g.page) tree.is_page.below)

    outside1 : (q : ℕ) → part pages pno a.owner d.stop q ≡ false → getpage s1 q ≡ getpage s q
    outside1 = outside_write s _ g.leaf g.page g.within

    holds1 : Holds s1 depth (pnos (getpage s pno) d.stop) kid
    holds1 = rw kid_lem g.holds

    at_end1 : last kid ≡ some g.end
    at_end1 = rw kid_lem g.at_end

    abbrev ends1 : ℕ → Item
    ends1 i = if i == d.stop then g.end else tree.lasts i

    child2 :
        (i : ℕ)
        → i ≤ (getpage s pno).entry_cnt
        → Holds s2 depth (pnos (getpage s pno) i) (replaced tree.kids d.stop kid i)
          × Apart s2 depth (pnos (getpage s pno) i) (part pages pno a.owner i)
    child2 i h =
        let ap1 =
          child-Apart s s1 depth pno pages items tree a d.stop d.to (same_count s g.leaf g.page)
            outside1 kid holds1 g.apart g.end at_end1 i h in
        let ho1 =
          child-Holds s s1 depth pno pages items tree a d.stop d.to (same_count s g.leaf g.page)
            outside1 kid holds1 g.apart g.end at_end1 i h in
        let ag =
          Agrees-write_page s1 pno c.page (part pages pno a.owner i)
            (part_self pages pno a.owner i) in
        (
          Holds-frame s1 s2 depth _ (part pages pno a.owner i) _ ag ap1 ho1,
          Apart-frame s1 s2 depth _ (part pages pno a.owner i) ag ap1,
        )

    cnt_lem : (getpage s2 pno).entry_cnt ≡ (getpage s pno).entry_cnt
    cnt_lem = ap (λ (q : Page). q.entry_cnt) written_page ∙ g.rekeyed.same_cnt

    pno_lem : (i : ℕ) → pnos (getpage s2 pno) i ≡ pnos (getpage s pno) i
    pno_lem i = ap (λ (q : Page). pnos q i) written_page ∙ g.rekeyed.pno_at i

    key_lem : (i : ℕ) → i < (getpage s pno).entry_cnt → (ends1 i).key ≡ keys (getpage s2 pno) i
    key_lem i h = elim (Bool-cases (i == d.stop)) [
      | inl same ↦ rw (written_page, g.rekeyed.key_at i, same) refl
      | inr differ ↦ rw (written_page, g.rekeyed.key_at i, differ) (tree.separator i h)
    ]

    inner2 : InnerPage s2 (Holds s2 depth) pno (erase compare t items)
    unfolding write_page
    inner2 = record {
      is_page = record { named = tree.is_page.named; below = tree.is_page.below };
      kids = replaced tree.kids d.stop kid;
      lasts = ends1;
      child = λ i h. rw (pno_lem i) (child2 i (rw cnt_lem at h)).0;
      pageno = λ i h. rw (pno_lem i) (tree.pageno i (rw cnt_lem at h));
      ends = λ i h.
          child_ends s s1 depth pno pages items tree a d.stop d.to (same_count s g.leaf g.page)
            outside1 kid holds1 g.apart g.end at_end1 i (rw cnt_lem at h);
      separator = λ i h. key_lem i (rw cnt_lem at h);
      contents = rw cnt_lem all_erased;
    }

    apart2 : Apart s2 (suc depth) pno pages
    apart2 = record {
      self = a.self;
      owner = a.owner;
      child = λ i h. rw (pno_lem i) (child2 i (rw cnt_lem at h)).1;
    }

    outside2 : (q : ℕ) → pages q ≡ false → getpage s2 q ≡ getpage s q
    outside2 q h =
        outside_write s1 pages pno c.page a.self q h
        ∙ outside1 q (part_outside pages pno a.owner d.stop q h)

    -- The page below has lost its last item, and the key of the page is that of the item ahead of it.
    pub Erased-at : Erased compare s t (suc depth) pno pages items c
    unfolding write_page
    Erased-at =
        let n = (getpage s pno).entry_cnt in
        record {
          kept = g.kept;
          finished = g.finished;
          count = rw g.written refl;
          outside = rw g.written outside2;
          holds =
              subst (λ z. Holds z (suc depth) pno (erase compare t items)) (sym g.written) inner2;
          apart = subst (λ z. Apart z (suc depth) pno pages) (sym g.written) apart2;
          end = ends1 n;
          at_end =
              ap last all_erased
              ∙ last-joined (replaced tree.kids d.stop kid) 0 n n (omega arith) (
                  child_ends s s1 depth pno pages items tree a d.stop d.to
                    (same_count s g.leaf g.page) outside1 kid holds1 g.apart g.end at_end1 n
                    (omega arith));
        }
