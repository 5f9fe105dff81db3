-- ===== src/Btree/Insertion/Leaf.antt =====
-- The place that `btsrin` finds in a leaf, and the items of the leaf with an entry put in there.
use db3w.Common.{
  ℕ, zero, suc, ◌+◌, ◌-◌, ◌≤◌, ◌<◌, ◌≡◌, refl, ◌∙◌, Bool, true, false, ◌==◌, List, [], ◌∷◌, Option,
  none, some, arith, inl, inr, Bool-cases,
}
use db3w.Common.Int.{ℤ}
use db3w.Pages.{Entry, Page}
use db3w.Pages.Insert.{Inserted}
use db3w.Btree.{Index, done, is_zero, positive}
use db3w.Btree.Insertion.{Place, stands, duplicate, locate}
use db3w.Btree.Insertion.Placing.{probe, place_lem}
use db3w.Btree.Order.{Item, order, find, insert, IsMonotone}
use db3w.Btree.Order.Find.{find-within}
use db3w.Btree.Tree.{item_of, items_from}

same_item : (e e' : Entry) → e.key ≡ e'.key → e.recno ≡ e'.recno → item_of e ≡ item_of e'
same_item e e' k r = rw (k, r) refl

module _ (r : ℕ) (t : Entry) (p p' : Page) (put : Inserted r t p p') where
  entry_below : (i : ℕ) → i ≤ p.entry_cnt → i < r → item_of (p'.entries i) ≡ item_of (p.entries i)
  entry_below i h l =
      same_item (p'.entries i) (p.entries i) (ground (arith, put.key_at i h))
        (ground (arith, put.recno_at i h))

  pub entry_at : r ≤ p.entry_cnt → item_of (p'.entries r) ≡ item_of t
  entry_at h =
      same_item (p'.entries r) t (ground (arith, put.key_at r h)) (ground (arith, put.recno_at r h))

  entry_above :
      (i : ℕ) → i + 1 ≤ p.entry_cnt → r ≤ i → item_of (p'.entries (i + 1)) ≡ item_of (p.entries i)
  entry_above i h l =
      let back : i + 1 - 1 ≡ i = omega arith in
      same_item (p'.entries (i + 1)) (p.entries i) (ground (arith, put.key_at (i + 1) h, back))
        (ground (arith, put.recno_at (i + 1) h, back))

  items_above : (k i : ℕ) → i + k ≤ p.entry_cnt → r ≤ i → items_from p' (i + 1) k ≡ items_from p i k
  items_above zero i h l = refl
  items_above (suc k) i h l =
      rw (entry_above i (omega arith) l, items_above k (i + 1) (omega arith) (omega arith)) refl

module _ (compare : List ℕ → List ℕ → ℤ) (unique_on : Bool) (f : ℕ) (s : Index) (t : Entry)
    (p : Page) (no_pages : (i : ℕ) → i ≤ p.entry_cnt → (p.entries i).pno ≡ 0)
    (named : (t.recno == 0) ≡ false) where
  abbrev u : Entry
  u = probe unique_on t

  -- Where the loop stands, for what a search of the sequence shows.
  abbrev pub Placed : ℕ → ℕ → Option Item → Place → Type 0
  Placed r k (some x) at = at ≡ duplicate
  Placed r k none at =
      (r' : ℕ) × (at ≡ stands r' 0)
      × (r ≤ r')
      × (r' ≤ p.entry_cnt)
      × ((p' : Page)
          → Inserted r' t p p'
          → items_from p' r (suc k) ≡ insert compare u (item_of t) (items_from p r k))

  behind :
      (k r : ℕ)
      → r + suc k ≡ p.entry_cnt
      → (o : Option Item) → positive (order compare u (item_of (p.entries r))) ≡ true
      → (at : Place) → Placed (r + 1) k o at
      → Placed r (suc k) o at
  unfolding insert
  behind k r h (some x) above at e = e
  behind k r h none above at (r', e, l, g, puts) = (
    r',
    e,
    omega arith,
    g,
    λ p' put. rw (entry_below r' t p p' put r (omega arith) (omega arith), puts p' put, above) refl,
  )

  here :
      (k r : ℕ)
      → r + suc k ≡ p.entry_cnt
      → positive (order compare u (item_of (p.entries r))) ≡ false
      → Placed r (suc k) none (stands r 0)
  unfolding insert
  here k r h low = (
    r,
    refl,
    omega arith,
    omega arith,
    λ p' put.
        rw
          (
            entry_at r t p p' put (omega arith),
            items_above r t p p' put (suc k) r (omega arith) (omega arith),
            low,
          )
          refl,
  )

  pub leaf_place :
      (k r : ℕ)
      → r + k ≡ p.entry_cnt
      → IsMonotone compare u (items_from p r k)
      → (at : Place) × (locate compare unique_on f s t p k r 0 ≡ done at)
        × Placed r k (find compare u (items_from p r k)) at
  unfolding find insert locate
  leaf_place zero r h m = (
    stands r 0,
    refl,
    (r, refl, omega arith, omega arith, λ p' put. rw (entry_at r t p p' put (omega arith)) refl),
  )
  leaf_place (suc k) r h m =
      let x = item_of (p.entries r) in
      let o = order compare u x in
      let round =
        place_lem compare unique_on f s t p k r 0 x named (omega arith) refl (inl (refl, refl)) in
      elim (Bool-cases (is_zero o)) [
        | inl hit ↦ (duplicate, round ∙ rw hit refl, rw hit refl)
        | inr miss ↦ elim (Bool-cases (positive o)) [
          | inl above ↦
              let rest = leaf_place k (r + 1) (omega arith) (m.1) in
              (
                rest.0,
                round ∙ rw (miss, above, no_pages (r + 1) (omega arith)) (rest.1),
                rw miss (behind k r h _ above (rest.0) (rest.2)),
              )
          | inr low ↦
              let nothing : find compare u (items_from p (r + 1) k) ≡ none =
                rw miss at (find-within compare u (x ∷ []) (items_from p (r + 1) k) m refl low) in
              (stands r 0, round ∙ rw (miss, low) refl, rw (miss, nothing) (here k r h low))
        ]
      ]
