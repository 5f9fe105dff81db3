-- ===== src/Btree/Insertion/Placing.antt =====
-- One round of the loop of `btsrin`.
use db3w.Common.{
  ℕ, suc, ◌+◌, ◌<◌, ◌≡◌, refl, Bool, true, false, ◌==◌, List, arith, inl, inr, ◌⊎◌, if◌then◌else◌,
}
use db3w.Common.Int.{ℤ}
use db3w.Pages.{Entry, Page}
use db3w.Pages.Insert.{get_entry_lem}
use db3w.Btree.{Index, done, btlr, recno_cmp, is_zero, positive}
use db3w.Btree.Insertion.{stands, onward, tie_in, locate}
use db3w.Btree.Order.{Item, order}

-- The target as it is compared: under SET UNIQUE ON by its key alone.
abbrev pub probe : Bool → Entry → Entry
probe unique_on t = record t { recno = if unique_on then 0 else t.recno }

module _ (compare : List ℕ → List ℕ → ℤ) (unique_on : Bool) (f : ℕ) (s : Index) (t : Entry) where
  -- What equal keys are told apart by is the record number of the item.
  abbrev pub Ties : ℕ → ℕ → Item → Type 0
  Ties pn3 recno x =
      ((pn3 ≡ 0) × (recno ≡ x.recno))
      ⊎ (((pn3 == 0) ≡ false) × (btlr f s pn3 t.recno ≡ done (recno_cmp t.recno x.recno)))

  pub tie_in_lem :
      (u : Bool) (pn3 recno : ℕ) (x : Item)
      → (t.recno == 0) ≡ false
      → Ties pn3 recno x
      → tie_in u f s pn3 (compare t.key x.key) t.recno recno ≡ done (order compare (probe u t) x)
  unfolding tie_in order
  tie_in_lem true pn3 recno x n ties = ground arith
  tie_in_lem false pn3 recno x n (inl (z, same)) = rw (z, same, n) (ground arith)
  tie_in_lem false pn3 recno x n (inr (z, e)) = rw (z, e, n) (ground arith)

  pub place_lem :
      (p : Page) (k r pn3 : ℕ) (x : Item)
      → (t.recno == 0) ≡ false
      → r < p.entry_cnt
      → x.key ≡ (p.entries r).key
      → Ties pn3 (p.entries r).recno x
      → locate compare unique_on f s t p (suc k) r pn3
        ≡ onward
            (is_zero (order compare (probe unique_on t) x))
            (positive (order compare (probe unique_on t) x))
            (locate compare unique_on f s t p k (r + 1) (p.entries (r + 1)).pno)
            (done (stands r pn3))
  unfolding locate
  place_lem p k r pn3 x n h key ties =
      rw
        (
          locate,
          get_entry_lem p r (omega arith),
          get_entry_lem p (r + 1) (omega arith),
          ← key,
          tie_in_lem unique_on pn3 (p.entries r).recno x n ties,
        )
        refl
