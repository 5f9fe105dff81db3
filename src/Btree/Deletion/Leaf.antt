-- ===== src/Btree/Deletion/Leaf.antt =====
-- One page of `btsrdel`, and its deletion on a leaf with an entry to spare.
use db3w.Common.{
  ℕ, zero, suc, ◌-◌, ◌<◌, ◌≡◌, refl, ap, sym, ◌∙◌, true, false, ◌==◌, List, Option, none, some,
  arith,
}
use db3w.Common.Int.{ℤ}
use db3w.Pages.{Entry, Page}
use db3w.Pages.Insert.{get_entry_lem}
use db3w.Btree.{refused, ntndx, Index, done, getpage, write_page}
use db3w.Btree.Deletion.{Removing, Spot, del, seek, take_out, removed, pageno_at, btsrdel}
use db3w.Btree.Deletion.Closing.{Taken, take_out-Taken}
use db3w.Btree.Deletion.Seeking.{Sought, less}
use db3w.Btree.Deletion.Below.{HasSpare, nothing_below}
use db3w.Btree.Deletion.Erased.{Erased}
use db3w.Btree.Order.{Item, last}
use db3w.Btree.Order.Erase.{erase}
use db3w.Btree.Tree.{item_of, items_from, LeafPage}
use db3w.Btree.Tree.Last.{LeafPage-is_leaf, last-items_from}
use db3w.Btree.Tree.Frame.{PageSet, getpage-write_page}
use db3w.Btree.Tree.Replace.{outside_write}

module _ (compare : List ℕ → List ℕ → ℤ) (s : Index) (t : Entry) where
  -- The outcome for what a search of the sequence shows: an error without it.
  abbrev pub Deletes : ℕ → ℕ → ℕ → PageSet → List Item → Option Item → Type 0
  Deletes f depth pno pages items none = btsrdel compare f s pno t ≡ refused ntndx
  Deletes f depth pno pages items (some y) =
      (c : Removing) × (btsrdel compare f s pno t ≡ done c)
      × Erased compare s t depth pno pages items c

  abbrev pub Seeks : ℕ → ℕ → Spot → Type 0
  Seeks f pno x =
      seek compare f s t (getpage s pno) (getpage s pno).entry_cnt 0 ((getpage s pno).entries 0).pno
      ≡ done x

  pub step_met :
      (f pno : ℕ) (x : Spot) (c : Removing)
      → (pno == 0) ≡ false
      → Seeks f pno x
      → x.match ≡ true
      → del f s x.pn3 pno (getpage s pno) x.r t ≡ done c
      → btsrdel compare (suc f) s pno t ≡ removed pno x.r c
  unfolding btsrdel pageno_at
  step_met f pno x c named e met below =
      rw (named, btsrdel, get_entry_lem (getpage s pno) 0 (omega arith), e, met, below) refl

  pub step_unmet :
      (f pno : ℕ) (x : Spot) (c : Removing)
      → (pno == 0) ≡ false
      → Seeks f pno x
      → x.match ≡ false
      → btsrdel compare f s x.pn3 t ≡ done c
      → btsrdel compare (suc f) s pno t ≡ removed pno x.r (record c { page = getpage s pno })
  unfolding btsrdel pageno_at
  step_unmet f pno x c named e unmet below =
      rw (named, btsrdel, get_entry_lem (getpage s pno) 0 (omega arith), e, unmet, below) refl

  pub step_refused :
      (f pno : ℕ) (x : Spot)
      → (pno == 0) ≡ false
      → Seeks f pno x
      → x.match ≡ false
      → btsrdel compare f s x.pn3 t ≡ refused ntndx
      → btsrdel compare (suc f) s pno t ≡ refused ntndx
  unfolding btsrdel pageno_at
  step_refused f pno x named e unmet below =
      rw (named, btsrdel, get_entry_lem (getpage s pno) 0 (omega arith), e, unmet, below) refl

  no_page : (f : ℕ) → btsrdel compare (suc f) s 0 t ≡ refused ntndx
  unfolding btsrdel
  no_page f = refl

  pub removed_kept : (pno r : ℕ) (c : Removing) → c.rm ≡ false → removed pno r c ≡ done c
  unfolding removed
  removed_kept pno r c k = rw k refl

  module _ (spare : HasSpare s) (named : (t.recno == 0) ≡ false) (alone : (t.pno == 0) ≡ true) where
    removed_leaf :
        (pno r : ℕ) (p p' : Page)
        → take_out r p ≡ done p'
        → (p'.entry_cnt == 0) ≡ false
        → removed pno r (record { rm = true; index = s; page = p; target = t })
          ≡ done (record { rm = false; index = write_page s pno p'; page = p'; target = t })
    unfolding removed
    removed_leaf pno r p p' e some_left = rw (alone, e, some_left) refl

    Erased-leaf :
        (pno r : ℕ) (pages : PageSet) (items : List Item) (p' : Page)
        → LeafPage s pno items
        → pages pno ≡ true
        → Taken r (getpage s pno) p'
        → 1 < (getpage s pno).entry_cnt
        → items_from p' 0 (less (getpage s pno).entry_cnt)
          ≡ erase compare t (items_from (getpage s pno) 0 (getpage s pno).entry_cnt)
        → Erased compare s t zero pno pages items
            (record { rm = false; index = write_page s pno p'; page = p'; target = t })
    unfolding write_page
    Erased-leaf pno r pages items p' tree a out two shows =
        let p = getpage s pno in
        let e = getpage-write_page s pno p' tree.is_page.below in
        let cnt = ap (λ (q : Page). q.entry_cnt) e in
        let counted : p.entry_cnt ≡ suc p'.entry_cnt = omega (arith, out.counted) in
        let left : less p.entry_cnt ≡ p'.entry_cnt = ap less counted in
        let all : erase compare t items ≡ items_from p' 0 p'.entry_cnt =
          ap (λ (xs : List Item). erase compare t xs) tree.contents
          ∙ sym shows
          ∙ ap (λ n. items_from p' 0 n) left in
        let one : p'.entry_cnt ≡ suc (p'.entry_cnt - 1) = omega (arith, out.counted) in
        record {
          kept = refl;
          finished = refl;
          count = refl;
          outside = outside_write s pages pno p' a;
          apart = a;
          holds = record {
            is_page = record { named = tree.is_page.named; below = tree.is_page.below };
            no_pages = λ i h. rw e (out.no_pages i (rw e at h));
            contents = rw e all;
          };
          end = item_of (p'.entries (p'.entry_cnt - 1));
          at_end =
              ap last (all ∙ ap (λ n. items_from p' 0 n) one)
              ∙ last-items_from p' 0 (p'.entry_cnt - 1) (p'.entry_cnt - 1) (omega arith);
        }

    pub Deletes-leaf :
        (f pno : ℕ) (pages : PageSet) (items : List Item) (tree : LeafPage s pno items)
        → pages pno ≡ true
        → (o : Option Item) (x : Spot) → Seeks (suc f) pno x
        → Sought compare (suc f) s t named (getpage s pno) 0 (getpage s pno).entry_cnt o x
        → Deletes (suc (suc f)) zero pno pages items o
    Deletes-leaf f pno pages items tree a none x e (unmet, z) =
        step_refused (suc f) pno x tree.is_page.named e unmet (rw z (no_page f))
    Deletes-leaf f pno pages items tree a (some y) x e (met, z, l, below, shows) =
        let p = getpage s pno in
        let two = spare pno tree.is_page (LeafPage-is_leaf s pno tree) in
        let out = take_out-Taken x.r p below tree.no_pages in
        let some_left : ((out.0).entry_cnt == 0) ≡ false = ground (arith, out.2.counted, two) in
        (
          record { rm = false; index = write_page s pno (out.0); page = out.0; target = t },
          step_met (suc f) pno x (record { rm = true; index = s; page = p; target = t })
                tree.is_page.named e met
                (rw z (nothing_below s t alone spare pno x.r p (omega arith) f))
              ∙ removed_leaf pno x.r p (out.0) (out.1) some_left,
          Erased-leaf pno x.r pages items (out.0) tree a (out.2) two (shows (out.0) (out.2)),
        )
