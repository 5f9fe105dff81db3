-- ===== src/Btree/Deletion/Upward.antt =====
-- The writes of `del` to the page above a leaf.
use db3w.Common.{ℕ, ◌+◌, ◌-◌, ◌≤◌, ◌<◌, ◌≡◌, refl, true, false, ◌==◌, List, arith, if◌then◌else◌}
use db3w.Pages.{Entry, Page, ok, put, put_pageno, move_entry}
use db3w.Pages.Insert.{pnos, recnos, keys, get_entry_lem, pageno_lem, record_lem}
use db3w.Btree.{Index, done, write_page}
use db3w.Btree.Deletion.{Removing, pageno_at, clear_recno, del_leaf}

-- The page `p'` is `p` with another key at one entry.
pub record Rekeyed (item : ℕ) (key : List ℕ) (p p' : Page) : Type 0 where
  pub same_cnt : p'.entry_cnt ≡ p.entry_cnt
  pub pno_at : (i : ℕ) → pnos p' i ≡ pnos p i
  pub key_at : (i : ℕ) → keys p' i ≡ (if i == item then key else keys p i)

-- The page above behind each of the four writes to it.
module _ (q : Page) (itmno : ℕ) (p : Page) (e : ℕ) where
  abbrev pub moved_up : Page
  moved_up =
      let m = put q (itmno + 1) (record (q.entries (itmno + 1)) { pno = pnos p (e + 1) }) in
      put m itmno (record (m.entries itmno) { recno = recnos p e; key = keys p e })

  abbrev pub cleared : Page
  cleared =
      put moved_up itmno
        (record (moved_up.entries itmno) { recno = 0; key = (moved_up.entries itmno).key })

  abbrev pub rekeyed : Page
  rekeyed =
      put cleared (itmno + 1) (record (cleared.entries (itmno + 1)) { pno = pnos q (itmno + 1) })

  pub rekeyed-Rekeyed : Rekeyed itmno (keys p e) q rekeyed
  unfolding put
  rekeyed-Rekeyed = record {
    same_cnt = refl;
    pno_at = λ i. ground arith;
    key_at = λ i. ground arith;
  }

  module _ (room : itmno + 1 ≤ q.entry_cnt) where
    move_lem : e + 1 ≤ p.entry_cnt → move_entry p e q itmno ≡ ok moved_up
    unfolding move_entry
    move_lem two =
        rw
          (
            get_entry_lem p e (omega arith),
            get_entry_lem q itmno (omega arith),
            get_entry_lem p (e + 1) two,
            get_entry_lem q (itmno + 1) room,
          )
          (record_lem (put q (itmno + 1) (record (q.entries (itmno + 1)) { pno = pnos p (e + 1) }))
            itmno (recnos p e) (keys p e) (omega arith))

    clear_lem : clear_recno moved_up itmno ≡ done cleared
    unfolding clear_recno put
    clear_lem =
        rw
          (
            get_entry_lem moved_up itmno (omega arith),
            record_lem moved_up itmno 0 (moved_up.entries itmno).key (omega arith),
          )
          refl

    restore_lem : put_pageno cleared (itmno + 1) (pnos q (itmno + 1)) ≡ ok rekeyed
    unfolding put
    restore_lem = pageno_lem cleared (itmno + 1) (pnos q (itmno + 1)) room

abbrev pub shortened : Page → Page
shortened p = record p { entry_cnt = p.entry_cnt - 1 }

abbrev pub fallen : Index → Entry → ℕ → ℕ → Page → ℕ → Page → Removing
fallen s t pno apno q itmno p =
    let q' = rekeyed q itmno (shortened p) ((shortened p).entry_cnt - 1) in
    record {
      rm = false;
      index = write_page (write_page s pno (shortened p)) apno q';
      page = q';
      target = t;
    }

pub del_leaf_lem :
    (s : Index) (t : Entry) (pno apno itmno : ℕ) (q p : Page)
    → itmno + 1 ≤ q.entry_cnt
    → 1 < p.entry_cnt
    → del_leaf pno apno p itmno (record { rm = true; index = s; page = q; target = t })
      ≡ done (fallen s t pno apno q itmno p)
unfolding del_leaf pageno_at
del_leaf_lem s t pno apno itmno q p room two =
    let some_left : ((p.entry_cnt - 1) == 0) ≡ false = ground arith in
    let e = (shortened p).entry_cnt - 1 in
    rw
      (
        some_left,
        get_entry_lem q (itmno + 1) room,
        move_lem q itmno (shortened p) e room (omega arith),
        clear_lem q itmno (shortened p) e room,
        restore_lem q itmno (shortened p) e room,
      )
      refl
