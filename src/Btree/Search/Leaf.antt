-- ===== src/Btree/Search/Leaf.antt =====
-- The loop of `btsrch` on a page, where the target must be equal: one round, and the rounds on a leaf.
use db3w.Common.{
  ℕ, zero, suc, ◌+◌, ◌≤◌, ◌<◌, ◌≡◌, refl, true, false, ◌&&◌, List, [], ◌∷◌, some, none, arith, inl,
  inr, Bool, Bool-cases, Option, if◌then◌else◌,
}
use db3w.Common.Int.{ℤ}
use db3w.Pages.{Entry, Page}
use db3w.Pages.Insert.{get_entry_lem}
use db3w.Btree.{Run, Index, done, is_zero, positive}
use db3w.Btree.Search.{
  Scan, Exit, Round, found, through, equal, tie, settle, look, scan, passes, advance, is_less,
}
use db3w.Btree.Order.{Item, order, find, IsMonotone}
use db3w.Btree.Order.Find.{find-within}
use db3w.Btree.Tree.{item_of, items_from}

pub and_false : (b : Bool) → (b && false) ≡ false
and_false true = refl
and_false false = refl

abbrev pub noted : Scan → ℤ → ℕ → Scan
noted st c recno = record st { n3 = if is_zero c then recno else st.n3 }

module _ (compare : List ℕ → List ℕ → ℤ) (f : ℕ) (s : Index) (t : Entry) where
  -- What a round does with the order of the target and the item that the entry stands for.
  abbrev pub verdict : Page → Scan → ℤ → Run Round
  verdict p st e =
      settle equal (noted st (compare t.key (p.entries st.r).key) t.recno)
        (p.entries (st.r + 1)).pno e

  pub look_lem :
      (p : Page) (st : Scan) (e : ℤ)
      → st.r < p.entry_cnt
      → tie f s st (compare t.key (p.entries st.r).key) t.recno (p.entries st.r).recno ≡ done e
      → look compare f s equal t p st ≡ verdict p st e
  unfolding look passes
  look_lem p st e h d =
      rw
        (
          get_entry_lem p (st.r + 1) (omega arith),
          get_entry_lem p st.r (omega arith),
          and_false (is_zero (compare t.key (p.entries st.r).key)),
          d,
        )
        refl

  tie_leaf :
      (st : Scan) (x : Item)
      → st.pn3 ≡ 0
      → tie f s st (compare t.key x.key) t.recno x.recno ≡ done (order compare t x)
  unfolding tie order
  tie_leaf st x z = rw z (ground arith)

  -- Where the loop ends on a leaf with what the sequence shows.
  abbrev pub Reached : Page → Option Item → Exit → Type 0
  Reached p none exit = (st : Scan) × (exit ≡ through st) × (st.pn3 ≡ 0)
  Reached p (some x) exit =
      (j : ℕ) × (j < p.entry_cnt) × (exit ≡ found j) × (item_of (p.entries j) ≡ x)

  module _ (p : Page) (no_pages : (i : ℕ) → i ≤ p.entry_cnt → (p.entries i).pno ≡ 0) where
    abbrev after : Scan → Scan
    after st =
        let e = order compare t (item_of (p.entries st.r)) in
        advance (record (noted st (compare t.key (p.entries st.r).key) t.recno) { e = e })
          (p.entries (st.r + 1)).pno

    leaf_round :
        (st : Scan)
        → st.r < p.entry_cnt
        → st.pn3 ≡ 0
        → look compare f s equal t p st ≡ verdict p st (order compare t (item_of (p.entries st.r)))
    leaf_round st h z = look_lem p st _ h (tie_leaf st (item_of (p.entries st.r)) z)

    pub leaf_scan :
        (k : ℕ) (st : Scan)
        → st.r + k ≡ p.entry_cnt
        → st.pn3 ≡ 0
        → IsMonotone compare t (items_from p st.r k)
        → (exit : Exit) × (scan compare f s equal t p k st ≡ done exit)
          × Reached p (find compare t (items_from p st.r k)) exit
    unfolding scan find settle advance is_less
    leaf_scan zero st h z m = (through st, refl, (st, refl, z))
    leaf_scan (suc k) st h z m =
        let x = item_of (p.entries st.r) in
        elim (Bool-cases (is_zero (order compare t x))) [
          | inl hit ↦ (
            found st.r,
            rw (leaf_round st (omega arith) z, hit, z) refl,
            rw hit ((st.r, omega arith, refl, refl)),
          )
          | inr miss ↦ elim (Bool-cases (positive (order compare t x))) [
            | inl above ↦
                let rest =
                  leaf_scan k (after st) (omega arith) (no_pages (st.r + 1) (omega arith)) (m.1) in
                (rest.0, rw (leaf_round st (omega arith) z, miss, above) (rest.1), rw miss (rest.2))
            | inr below ↦ (
              through (record (noted st (compare t.key (p.entries st.r).key) t.recno) {
                e = order compare t x;
              }),
              rw (leaf_round st (omega arith) z, miss, below) refl,
              rw (find-within compare t (x ∷ []) (items_from p (st.r + 1) k) m refl below, miss)
                  ((
                    record (noted st (compare t.key (p.entries st.r).key) t.recno) {
                      e = order compare t x;
                    },
                    refl,
                    z,
                  )),
            )
          ]
        ]
