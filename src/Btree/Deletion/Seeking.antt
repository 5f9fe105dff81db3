-- ===== src/Btree/Deletion/Seeking.antt =====
-- The loop of `btsrdel`: one round, and the rounds on a leaf.
use db3w.Common.{
  ℕ, zero, suc, ◌+◌, ◌≤◌, ◌<◌, ◌≡◌, refl, ◌∙◌, true, false, ◌==◌, List, [], ◌∷◌, Option, none, some,
  arith, inl, inr, Bool-cases,
}
use db3w.Common.Int.{ℤ}
use db3w.Pages.{Entry, Page}
use db3w.Pages.Insert.{get_entry_lem}
use db3w.Btree.{Index, done, is_zero, positive}
use db3w.Btree.Insertion.Placing.{Ties, tie_in_lem}
use db3w.Btree.Deletion.{Spot, spot_of, seek, pageno_at}
use db3w.Btree.Deletion.Closing.{NoPages, Taken}
use db3w.Btree.Order.{Item, order, find, IsMonotone}
use db3w.Btree.Order.Find.{find-within}
use db3w.Btree.Order.Erase.{erase}
use db3w.Btree.Tree.{item_of, items_from}

same_item : (e e' : Entry) → e.key ≡ e'.key → e.recno ≡ e'.recno → item_of e ≡ item_of e'
same_item e e' k r = rw (k, r) refl

-- One less.
abbrev pub less : ℕ → ℕ
less zero = zero
less (suc n) = n

module _ (r : ℕ) (p p' : Page) (out : Taken r p p') where
  taken_below : (i : ℕ) → i < p'.entry_cnt → i < r → item_of (p'.entries i) ≡ item_of (p.entries i)
  taken_below i h l =
      same_item (p'.entries i) (p.entries i) (ground (arith, out.key_at i h))
        (ground (arith, out.recno_at i h))

  taken_above :
      (i : ℕ) → i < p'.entry_cnt → r ≤ i → item_of (p'.entries i) ≡ item_of (p.entries (i + 1))
  taken_above i h l =
      same_item (p'.entries i) (p.entries (i + 1)) (ground (arith, out.key_at i h))
        (ground (arith, out.recno_at i h))

  items_behind :
      (n i : ℕ) → i + n ≤ p'.entry_cnt → r ≤ i → items_from p' i n ≡ items_from p (i + 1) n
  items_behind zero i h l = refl
  items_behind (suc n) i h l =
      rw (taken_above i (omega arith) l, items_behind n (i + 1) (omega arith) (omega arith)) refl

module _ (compare : List ℕ → List ℕ → ℤ) (f : ℕ) (s : Index) (t : Entry)
    (named : (t.recno == 0) ≡ false) (p : Page) where
  pub seek_lem :
      (k r pn3 : ℕ) (x : Item)
      → r < p.entry_cnt
      → x.key ≡ (p.entries r).key
      → Ties compare false f s t pn3 (p.entries r).recno x
      → seek compare f s t p (suc k) r pn3
        ≡ spot_of
            (is_zero (order compare t x))
            (positive (order compare t x))
            r
            pn3
            (seek compare f s t p k (r + 1) (p.entries (r + 1)).pno)
  unfolding seek pageno_at
  seek_lem k r pn3 x h key ties =
      rw
        (
          seek,
          get_entry_lem p r (omega arith),
          get_entry_lem p (r + 1) (omega arith),
          ← key,
          tie_in_lem compare false f s t false pn3 (p.entries r).recno x named ties,
        )
        refl

  -- Where the loop ends on a leaf, for what a search of the sequence shows.
  abbrev pub Sought : ℕ → ℕ → Option Item → Spot → Type 0
  Sought r k none x = (x.match ≡ false) × (x.pn3 ≡ 0)
  Sought r k (some y) x =
      (x.match ≡ true)
      × (x.pn3 ≡ 0)
      × (r ≤ x.r)
      × (x.r < p.entry_cnt)
      × ((p' : Page)
          → Taken x.r p p'
          → items_from p' r (less k) ≡ erase compare t (items_from p r k))

  module _ (no_pages : NoPages p) where
    onto :
        (k r : ℕ) (o : Option Item) (x : Spot)
        → r + suc k ≡ p.entry_cnt
        → find compare t (items_from p (r + 1) k) ≡ o
        → is_zero (order compare t (item_of (p.entries r))) ≡ false
        → Sought (r + 1) k o x
        → Sought r (suc k) o x
    unfolding erase find
    onto k r none x h e miss g = g
    onto zero r (some y) x h e miss g = absurd (cc)
    onto (suc k) r (some y) x h e miss (m, z, l, b, taken) = (
      m,
      z,
      omega arith,
      b,
      λ p' out.
          rw
            (
              miss,
              taken_below x.r p p' out r (omega (arith, out.counted)) (omega arith),
              taken p' out,
            )
            refl,
    )

    pub leaf_seek :
        (k r : ℕ)
        → r + k ≡ p.entry_cnt
        → IsMonotone compare t (items_from p r k)
        → (x : Spot) × (seek compare f s t p k r 0 ≡ done x)
          × Sought r k (find compare t (items_from p r k)) x
    unfolding seek find erase
    leaf_seek zero r h m = (record { match = false; r = r; pn3 = 0 }, refl, (refl, refl))
    leaf_seek (suc k) r h m =
        let x = item_of (p.entries r) in
        let o = order compare t x in
        let round = seek_lem k r 0 x (omega arith) refl (inl (refl, refl)) in
        elim (Bool-cases (is_zero o)) [
          | inl hit ↦ (
            record { match = true; r = r; pn3 = 0 },
            round ∙ rw hit refl,
            rw hit (
                (
                  refl,
                  refl,
                  omega arith,
                  omega arith,
                  λ p' out.
                      rw hit
                        (items_behind r p p' out k r (omega (arith, out.counted)) (omega arith)),
                )),
          )
          | inr miss ↦ elim (Bool-cases (positive o)) [
            | inl above ↦
                let rest = leaf_seek k (r + 1) (omega arith) (m.1) in
                (
                  rest.0,
                  round ∙ rw (miss, above, no_pages (r + 1) (omega arith)) (rest.1),
                  rw miss (
                      onto k r (find compare t (items_from p (r + 1) k)) (rest.0) h refl miss
                        (rest.2)),
                )
            | inr low ↦
                let nothing : find compare t (items_from p (r + 1) k) ≡ none =
                  rw miss at (find-within compare t (x ∷ []) (items_from p (r + 1) k) m refl low) in
                (
                  record { match = false; r = r; pn3 = 0 },
                  round ∙ rw (miss, low) refl,
                  rw (miss, nothing) ((refl, refl)),
                )
          ]
        ]
