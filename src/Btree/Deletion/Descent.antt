-- ===== src/Btree/Deletion/Descent.antt =====
-- The loop of `btsrdel` on a page that is no leaf.
use db3w.Common.{
  ℕ, zero, suc, ◌+◌, ◌≤◌, ◌<◌, ◌≡◌, refl, sym, ◌∙◌, Bool, true, false, ◌==◌, List, some, arith, inl,
  inr, Bool-cases,
}
use db3w.Common.Int.{ℤ}
use db3w.Pages.{Entry, Page}
use db3w.Btree.{Index, done, getpage, is_zero, positive}
use db3w.Btree.Deletion.{Spot, seek}
use db3w.Btree.Deletion.Seeking.{seek_lem}
use db3w.Btree.Order.{Item, order, find, IsMonotone}
use db3w.Btree.Order.Find.{
  zero_low, find-above, find-within, IsMonotone-append_left, IsMonotone-append_right,
}
use db3w.Btree.Order.Erase.{
  erase, erase-within, erase-above, IsStrict, IsStrict-append_left, IsStrict-append_right,
}
use db3w.Btree.Tree.{joined, InnerPage, Holds}
use db3w.Btree.Tree.Last.{btlr_lem}
use db3w.Btree.Tree.Replace.{replaced}
use db3w.Btree.Insertion.Inner.{joined-replaced, self_equal}

module _ (compare : List ℕ → List ℕ → ℤ) (f : ℕ) (s : Index) (t : Entry) where
  -- Where the loop ends, from the page `r` on: at the page below that shows what all of them show.
  pub record Descent (p : Page) (kids : ℕ → List Item) (lasts : ℕ → Item) (r k : ℕ) (x : Spot)
      : Type 0 where
    pub stop : ℕ
    pub from : r ≤ stop
    pub to : stop ≤ p.entry_cnt
    pub at : x.r ≡ stop
    pub page : x.pn3 ≡ (p.entries stop).pno
    pub met :
        x.match ≡ true → (stop < p.entry_cnt) × (is_zero (order compare t (lasts stop)) ≡ true)
    pub unmet :
        x.match ≡ false → stop < p.entry_cnt → is_zero (order compare t (lasts stop)) ≡ false
    pub shows : find compare t (joined kids r k) ≡ find compare t (kids stop)
    pub monotone : IsMonotone compare t (kids stop)
    pub strict : IsStrict compare t (kids stop)
    pub erases :
        {y : Item}
        → find compare t (kids stop) ≡ some y
        → joined (replaced kids stop (erase compare t (kids stop))) r k
          ≡ erase compare t (joined kids r k)

  module _ (depth pno : ℕ) {items : List Item} (enough : depth < f) (named : (t.recno == 0) ≡ false)
      (inner : InnerPage s (Holds s depth) pno items) where
    abbrev page : Page
    page = getpage s pno

    onto :
        (k r : ℕ) (x : Spot)
        → r + suc k ≡ page.entry_cnt
        → IsMonotone compare t (joined inner.kids r (suc k))
        → positive (order compare t (inner.lasts r)) ≡ true
        → Descent page inner.kids inner.lasts (r + 1) k x
        → Descent page inner.kids inner.lasts r (suc k) x
    onto k r x h m above d =
        let differ : (r == d.stop) ≡ false = ground (arith, d.from) in
        let later = joined inner.kids (r + 1) k in
        let end = inner.ends r (omega arith) in
        record {
          stop = d.stop;
          from = omega (arith, d.from);
          to = d.to;
          at = d.at;
          page = d.page;
          met = d.met;
          unmet = d.unmet;
          shows = find-above compare t (inner.kids r) later m end above ∙ d.shows;
          monotone = d.monotone;
          strict = d.strict;
          erases = λ e.
              rw (differ, d.erases e)
                (sym (erase-above compare t (inner.kids r) later m end above));
        }

    here :
        (k r : ℕ) (b : Bool)
        → r + suc k ≡ page.entry_cnt
        → IsMonotone compare t (joined inner.kids r (suc k))
        → IsStrict compare t (joined inner.kids r (suc k))
        → positive (order compare t (inner.lasts r)) ≡ false
        → is_zero (order compare t (inner.lasts r)) ≡ b
        → Descent page inner.kids inner.lasts r
            (suc k)
            (record { match = b; r = r; pn3 = (page.entries r).pno })
    here k r b h m strict low z =
        let later = joined inner.kids (r + 1) k in
        record {
          stop = r;
          from = omega arith;
          to = omega arith;
          at = refl;
          page = refl;
          met = λ e. (omega arith, z ∙ e);
          unmet = λ e l. z ∙ e;
          shows = find-within compare t (inner.kids r) later m (inner.ends r (omega arith)) low;
          monotone = IsMonotone-append_left compare t (inner.kids r) later m;
          strict = IsStrict-append_left compare t (inner.kids r) later strict;
          erases = λ e.
              rw
                (
                  self_equal r,
                  joined-replaced inner.kids r (erase compare t (inner.kids r)) (r + 1) k
                      (omega arith),
                )
                (sym (erase-within compare t (inner.kids r) later e));
        }

    pub inner_seek :
        (k r : ℕ)
        → r + k ≡ page.entry_cnt
        → IsMonotone compare t (joined inner.kids r k)
        → IsStrict compare t (joined inner.kids r k)
        → (x : Spot) × (seek compare f s t page k r (page.entries r).pno ≡ done x)
          × Descent page inner.kids inner.lasts r k x
    unfolding seek
    inner_seek zero r h m strict = (
      record { match = false; r = r; pn3 = (page.entries r).pno },
      refl,
      record {
        stop = r;
        from = omega arith;
        to = omega arith;
        at = refl;
        page = refl;
        met = λ e. absurd (cc);
        unmet = λ e l. absurd (omega arith);
        shows = refl;
        monotone = m;
        strict = strict;
        erases = λ e. rw (self_equal r) refl;
      },
    )
    inner_seek (suc k) r h m strict =
        let l = inner.lasts r in
        let o = order compare t l in
        let later = joined inner.kids (r + 1) k in
        let round =
          seek_lem compare f s t named page k r (page.entries r).pno l (omega arith)
            (inner.separator r (omega arith))
            (inr (
              inner.pageno r (omega arith),
              btlr_lem f depth s _ t.recno (inner.kids r) enough (inner.child r (omega arith))
                  (inner.ends r (omega arith)),
            )) in
        elim (Bool-cases (is_zero o)) [
          | inl hit ↦ (
            record { match = true; r = r; pn3 = (page.entries r).pno },
            round ∙ rw hit refl,
            here k r true h m strict (zero_low o hit) hit,
          )
          | inr miss ↦ elim (Bool-cases (positive o)) [
            | inl above ↦
                let rest =
                  inner_seek k (r + 1) (omega arith)
                    (IsMonotone-append_right compare t (inner.kids r) later m)
                    (IsStrict-append_right compare t (inner.kids r) later strict) in
                (rest.0, round ∙ rw (miss, above) (rest.1), onto k r (rest.0) h m above (rest.2))
            | inr low ↦ (
              record { match = false; r = r; pn3 = (page.entries r).pno },
              round ∙ rw (miss, low) refl,
              here k r false h m strict low miss,
            )
          ]
        ]
