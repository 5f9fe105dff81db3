-- ===== src/Btree/Insertion/Inner.antt =====
-- The page below that `btsrin` goes on to, and the items of the pages with one of them grown.
use db3w.Common.{
  ℕ, zero, suc, ◌+◌, ◌≤◌, ◌<◌, ◌≡◌, refl, sym, ◌∙◌, ◌⊎◌, Bool, true, false, ◌==◌, List, [], ◌∷◌,
  some, arith, inl, inr, Bool-cases,
}
use db3w.Common.Int.{ℤ}
use db3w.Pages.{Entry, Page}
use db3w.Btree.{Index, done, getpage, is_zero, positive}
use db3w.Btree.Insertion.{Place, stands, duplicate, locate}
use db3w.Btree.Insertion.Placing.{probe, place_lem}
use db3w.Btree.Order.{Item, order, find, insert, IsMonotone, last}
use db3w.Btree.Order.Find.{
  zero_low, find-above, find-within, insert-above, insert-within, IsMonotone-append_left,
  IsMonotone-append_right,
}
use db3w.Btree.Tree.{joined, InnerPage, Holds}
use db3w.Btree.Tree.Replace.{replaced}
use db3w.Btree.Tree.Last.{btlr_lem}

pub joined-replaced :
    (kids : ℕ → List Item) (r : ℕ) (items : List Item) (i n : ℕ)
    → r < i
    → joined (replaced kids r items) i n ≡ joined kids i n
joined-replaced kids r items i zero h = let e : (i == r) ≡ false = ground arith in rw e refl
joined-replaced kids r items i (suc n) h =
    let e : (i == r) ≡ false = ground arith in
    rw (e, joined-replaced kids r items (i + 1) n (omega arith)) refl

pub self_equal : (r : ℕ) → (r == r) ≡ true
self_equal r = ground arith

module _ (compare : List ℕ → List ℕ → ℤ) (unique_on : Bool) (f : ℕ) (s : Index) (t : Entry)
    (new : Item) where
  abbrev u : Entry
  u = probe unique_on t

  pub find-last :
      (xs : List Item) {l : Item}
      → last xs ≡ some l
      → is_zero (order compare u l) ≡ true
      → (x : Item) × (find compare u xs ≡ some x)
  unfolding find
  find-last [] e h = absurd (cc)
  find-last (x ∷ []) {l} e h =
      let same : x ≡ l = cc in
      let hit : is_zero (order compare u x) ≡ true = rw same h in (x, rw hit refl)
  find-last (x ∷ y ∷ xs) e h = elim (Bool-cases (is_zero (order compare u x))) [
    | inl hit ↦ (x, rw hit refl)
    | inr miss ↦ let rest = find-last (y ∷ xs) e h in (rest.0, rw miss (rest.1))
  ]

  -- Where the loop goes on, from the page `r` on.
  pub record Descends (p : Page) (kids : ℕ → List Item) (lasts : ℕ → Item) (r k : ℕ) (at : Place)
      : Type 0 where
    pub stop : ℕ
    pub from : r ≤ stop
    pub to : stop ≤ p.entry_cnt
    pub goes : at ≡ stands stop (p.entries stop).pno
    pub shows : find compare u (joined kids r k) ≡ find compare u (kids stop)
    pub monotone : IsMonotone compare u (kids stop)
    pub low : stop < p.entry_cnt → positive (order compare u (lasts stop)) ≡ false
    pub grows :
        joined (replaced kids stop (insert compare u new (kids stop))) r k
        ≡ insert compare u new (joined kids r k)

  -- The end of the loop: a duplicate that the sequence shows, or a page below.
  abbrev pub Ends : Page → (ℕ → List Item) → (ℕ → Item) → ℕ → ℕ → Place → Type 0
  Ends p kids lasts r k at =
      ((x : Item) × (find compare u (joined kids r k) ≡ some x) × (at ≡ duplicate))
      ⊎ Descends p kids lasts r k at

  module _ (depth pno : ℕ) {items : List Item} (enough : depth < f) (named : (t.recno == 0) ≡ false)
      (inner : InnerPage s (Holds s depth) pno items) where
    abbrev page : Page
    page = getpage s pno

    onto :
        (k r : ℕ) (at : Place)
        → r + suc k ≡ page.entry_cnt
        → IsMonotone compare u (joined inner.kids r (suc k))
        → positive (order compare u (inner.lasts r)) ≡ true
        → Ends page inner.kids inner.lasts (r + 1) k at
        → Ends page inner.kids inner.lasts r (suc k) at
    onto k r at h m above (inl (x, e, dup)) = inl (
        (
          x,
          find-above compare u (inner.kids r) (joined inner.kids (r + 1) k) m
                (inner.ends r (omega arith)) above
              ∙ e,
          dup,
        ))
    onto k r at h m above (inr d) =
        let differ : (r == d.stop) ≡ false = ground (arith, d.from) in
        inr (record {
          stop = d.stop;
          from = omega (arith, d.from);
          to = d.to;
          goes = d.goes;
          shows =
              find-above compare u (inner.kids r) (joined inner.kids (r + 1) k) m
                (inner.ends r (omega arith)) above
              ∙ d.shows;
          monotone = d.monotone;
          low = d.low;
          grows =
              rw (differ, d.grows)
                (sym (
                  insert-above compare u new (inner.kids r) (joined inner.kids (r + 1) k) m
                    (inner.ends r (omega arith)) above));
        })

    pub inner_place :
        (k r : ℕ)
        → r + k ≡ page.entry_cnt
        → IsMonotone compare u (joined inner.kids r k)
        → (at : Place) × (locate compare unique_on f s t page k r (page.entries r).pno ≡ done at)
          × Ends page inner.kids inner.lasts r k at
    unfolding locate
    inner_place zero r h m = (
      stands r (page.entries r).pno,
      refl,
      inr (record {
        stop = r;
        from = omega arith;
        to = omega arith;
        goes = refl;
        shows = refl;
        monotone = m;
        low = λ l. absurd (omega arith);
        grows = rw (self_equal r) refl;
      }),
    )
    inner_place (suc k) r h m =
        let l = inner.lasts r in
        let o = order compare u l in
        let later = joined inner.kids (r + 1) k in
        let end = inner.ends r (omega arith) in
        let round =
          place_lem compare unique_on f s t page k r (page.entries r).pno l named (omega arith)
            (inner.separator r (omega arith))
            (inr (
              inner.pageno r (omega arith),
              btlr_lem f depth s _ t.recno (inner.kids r) enough (inner.child r (omega arith)) end,
            )) in
        elim (Bool-cases (is_zero o)) [
          | inl hit ↦
              let x = find-last (inner.kids r) end hit in
              (
                duplicate,
                round ∙ rw hit refl,
                inl (
                    (
                      x.0,
                      find-within compare u (inner.kids r) later m end (zero_low o hit) ∙ x.1,
                      refl,
                    )),
              )
          | inr miss ↦ elim (Bool-cases (positive o)) [
            | inl above ↦
                let rest =
                  inner_place k (r + 1) (omega arith)
                    (IsMonotone-append_right compare u (inner.kids r) later m) in
                (rest.0, round ∙ rw (miss, above) (rest.1), onto k r (rest.0) h m above (rest.2))
            | inr low ↦ (
              stands r (page.entries r).pno,
              round ∙ rw (miss, low) refl,
              inr (record {
                stop = r;
                from = omega arith;
                to = omega arith;
                goes = refl;
                shows = find-within compare u (inner.kids r) later m end low;
                monotone = IsMonotone-append_left compare u (inner.kids r) later m;
                low = λ l. low;
                grows =
                    rw
                      (
                        self_equal r,
                        joined-replaced inner.kids r (insert compare u new (inner.kids r)) (r + 1) k
                            (omega arith),
                      )
                      (sym (insert-within compare u new (inner.kids r) later end low).0);
              }),
            )
          ]
        ]
