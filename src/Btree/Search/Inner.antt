-- ===== src/Btree/Search/Inner.antt =====
-- The loop of `btsrch` on a page that is no leaf, where the target must be equal.
use db3w.Common.{
  ℕ, zero, suc, ◌+◌, ◌≤◌, ◌<◌, ◌≡◌, refl, ◌∙◌, false, ◌==◌, List, arith, inl, inr, Bool-cases,
}
use db3w.Common.Int.{ℤ}
use db3w.Pages.{Entry, Page}
use db3w.Btree.{Index, done, getpage, btlr, recno_cmp, is_zero, positive}
use db3w.Btree.Search.{Scan, through, equal, tie, settle, look, scan, advance}
use db3w.Btree.Search.Leaf.{and_false, noted, verdict, look_lem}
use db3w.Btree.Order.{Item, order, find, IsMonotone}
use db3w.Btree.Order.Find.{find-within, find-above, IsMonotone-append_left, IsMonotone-append_right}
use db3w.Btree.Tree.{joined, InnerPage, Holds}
use db3w.Btree.Tree.Last.{btlr_lem}

module _ (compare : List ℕ → List ℕ → ℤ) (f : ℕ) (s : Index) (t : Entry) where
  tie_inner :
      (st : Scan) (x : Item) (recno : ℕ)
      → (st.pn3 == 0) ≡ false
      → btlr f s st.pn3 t.recno ≡ done (recno_cmp t.recno x.recno)
      → tie f s st (compare t.key x.key) t.recno recno ≡ done (order compare t x)
  unfolding tie order
  tie_inner st x recno z e = rw (z, e) (ground arith)

  -- Where the loop ends: at a page below that shows what the pages from `st.r` on show.
  pub record Narrowed (p : Page) (kids : ℕ → List Item) (items : List Item) (st : Scan)
      : Type 0 where
    pub at : ℕ
    pub below : at ≤ p.entry_cnt
    pub page : st.pn3 ≡ (p.entries at).pno
    pub shows : find compare t items ≡ find compare t (kids at)
    pub monotone : IsMonotone compare t (kids at)

  module _ (depth pno : ℕ) {items : List Item} (enough : depth < f)
      (inner : InnerPage s (Holds s depth) pno items) where
    abbrev page : Page
    page = getpage s pno

    inner_round :
        (st : Scan)
        → st.r < page.entry_cnt
        → st.pn3 ≡ (page.entries st.r).pno
        → look compare f s equal t page st
          ≡ verdict compare f s t page st (order compare t (inner.lasts st.r))
    inner_round st h z = look_lem compare f s t page st _ h (
        rw (← inner.separator st.r h) (
          tie_inner st (inner.lasts st.r) (page.entries st.r).recno
            (rw z (inner.pageno st.r (omega arith)))
            (rw z (
              btlr_lem f depth s _ t.recno (inner.kids st.r) enough (inner.child st.r (omega arith))
                (inner.ends st.r (omega arith))))))

    abbrev resting : Scan → Scan
    resting st = record (noted st (compare t.key (page.entries st.r).key) t.recno) {
      e = order compare t (inner.lasts st.r);
    }

    pub inner_scan :
        (k : ℕ) (st : Scan)
        → st.r + k ≡ page.entry_cnt
        → st.pn3 ≡ (page.entries st.r).pno
        → IsMonotone compare t (joined inner.kids st.r k)
        → (st' : Scan) × (scan compare f s equal t page k st ≡ done (through st'))
          × Narrowed page inner.kids (joined inner.kids st.r k) st'
    unfolding scan settle advance
    inner_scan zero st h z m =
        (st, refl, record { at = st.r; below = omega arith; page = z; shows = refl; monotone = m })
    inner_scan (suc k) st h z m =
        let o = order compare t (inner.lasts st.r) in
        let later = joined inner.kids (st.r + 1) k in
        let named : (st.pn3 == 0) ≡ false = rw z (inner.pageno st.r (omega arith)) in
        elim (Bool-cases (positive o)) [
          | inl above ↦
              let rest =
                inner_scan k (advance (resting st) (page.entries (st.r + 1)).pno) (omega arith) refl
                  (IsMonotone-append_right compare t (inner.kids st.r) later m) in
              (
                rest.0,
                rw (inner_round st (omega arith) z, named, and_false (is_zero o), above) (rest.1),
                record {
                  at = rest.2.at;
                  below = rest.2.below;
                  page = rest.2.page;
                  monotone = rest.2.monotone;
                  shows =
                      find-above compare t (inner.kids st.r) later m (inner.ends st.r (omega arith))
                        above
                      ∙ rest.2.shows;
                },
              )
          | inr below ↦ (
            resting st,
            rw (inner_round st (omega arith) z, named, and_false (is_zero o), below) refl,
            record {
              at = st.r;
              below = omega arith;
              page = z;
              shows =
                  find-within compare t (inner.kids st.r) later m (inner.ends st.r (omega arith))
                    below;
              monotone = IsMonotone-append_left compare t (inner.kids st.r) later m;
            },
          )
        ]
