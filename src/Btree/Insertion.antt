-- ===== src/Btree/Insertion.antt =====
-- `btsrin` and `insert_new` (server/dbe/ndx.c): the insertion of an entry. A page holds `norecpp`
-- entries at most, so one without room holds that many. The headers and pages are written.
pub mod Placing
pub mod Leaf
pub mod Inner
pub mod Grown
pub mod Above
pub mod Refinement
pub mod Root
use db3w.Common.{
  ℕ, zero, suc, ◌+◌, Bool, true, false, ◌&&◌, not, List, Option, none, some, ltb, ◌==◌,
  if◌then◌else◌,
}
use db3w.Common.Int.{ℤ, pos}
use db3w.Pages.{Entry, Page, get_entry, put_pageno, insert_entry, insert_in_page}
use db3w.Pages.Split.{split, new_page}
use db3w.Btree.{
  Run, done, endless, ◌>>=◌, run, Index, getpage, write_page, positive, is_zero, recno_cmp, btlr,
}

-- Where the loop ends.
pub data Place : Type 0 where
  stands : ℕ → ℕ → Place
  duplicate : Place

-- The comparison of a round. Equal keys under SET UNIQUE ON are a duplicate, as `!e` is.
unfoldable pub tie_in : Bool → ℕ → Index → ℕ → ℤ → ℕ → ℕ → Run ℤ
unfolding recno_cmp btlr
tie_in unique_on f s pn3 c target recno =
    if is_zero c && not unique_on
    then if pn3 == 0 then done (recno_cmp target recno) else btlr f s pn3 target
    else done c

-- The ways of a round, for the tests `!e` and `e > 0`.
abbrev pub onward : Bool → Bool → Run Place → Run Place → Run Place
onward true above next here = done duplicate
onward false true next here = next
onward false false next here = here

module _ (compare : List ℕ → List ℕ → ℤ) (unique_on : Bool) where
  -- At most as many rounds as the page has entries.
  pub locate : ℕ → Index → Entry → Page → ℕ → ℕ → ℕ → Run Place
  unfolding tie_in
  locate f s target p zero r pn3 = done (stands r pn3)
  locate f s target p (suc k) r pn3 = run (get_entry p r) >>= λ here.
      run (get_entry p (r + 1)) >>= λ right.
      tie_in unique_on f s pn3 (compare target.key here.key) target.recno here.recno >>= λ e.
      onward (is_zero e) (positive e) (locate f s target p k (r + 1) right.pno)
        (done (stands r pn3))

pub record Inserting : Type 0 where
  pub dupkey : Bool
  pub index : Index
  pub target : Entry
  pub position : Option (ℕ × ℕ)

pub or_else : Option (ℕ × ℕ) → Option (ℕ × ℕ) → Option (ℕ × ℕ)
or_else none old = old
or_else (some x) old = some x

-- `target->recno || target->pno`
pub unfinished : Entry → Bool
unfinished t = not (t.recno == 0 && (t.pno == 0))

-- The work on a page that the level below has left in the target.
pub enter : ℕ → Page → ℕ → Inserting → Run Inserting
unfolding or_else write_page
enter pno p r c =
    let s = c.index in
    if ltb p.entry_cnt s.norecpp
    then (run (insert_in_page p pno r c.target) >>= λ x. done (record {
      dupkey = false;
      index = write_page s pno x.0;
      target = record (c.target) { pno = 0; recno = 0 };
      position = or_else x.1 c.position;
    }))
    else (run (split pno s.pagecnt p r c.target) >>= λ h. done (record {
      dupkey = false;
      index =
          write_page (write_page (record s { pagecnt = s.pagecnt + 1 }) pno h.left) s.pagecnt
            h.right;
      target = h.up;
      position = or_else h.position c.position;
    }))

pub finish_page : ℕ → Page → ℕ → Inserting → Run Inserting
unfolding unfinished enter
finish_page pno p r c =
    if c.dupkey then done c else if unfinished c.target then enter pno p r c else done c

module _ (compare : List ℕ → List ℕ → ℤ) (unique_on : Bool) where
  pub btsrin : ℕ → Index → Entry → ℕ → Run Inserting
  unfolding locate finish_page getpage
  btsrin zero s target pno = endless
  btsrin (suc f) s target pno =
      let p = getpage s pno in
      let unchanged : Inserting = record {
        dupkey = false;
        index = s;
        target = target;
        position = none;
      } in
      elim (pno == 0) [
        | true ↦ done unchanged
        | false ↦ run (get_entry p 0) >>= λ first.
            locate compare unique_on f s target p p.entry_cnt 0 first.pno >>= λ x. elim x [
              | duplicate ↦ done (record unchanged { dupkey = true })
              | stands r pn3 ↦ btsrin f s target pn3 >>= finish_page pno p r
            ]
      ]

-- A new root for what the old one has left.
pub new_root : Inserting → Run Inserting
unfolding or_else write_page
new_root c =
    let s = c.index in
    run (put_pageno (new_page 1) 0 s.rootno) >>= λ p. run (insert_entry p 0 0 c.target) >>= λ x.
    done (record c {
      index = write_page (record s { rootno = s.pagecnt; pagecnt = s.pagecnt + 1 }) s.pagecnt x.0;
      position = or_else x.1 c.position;
    })

pub rooted : Inserting → Run Inserting
unfolding unfinished new_root
rooted c = if c.dupkey then done c else if unfinished c.target then new_root c else done c

-- The result of the call is 0 for a duplicate, and 1 otherwise.
pub insert_new : (List ℕ → List ℕ → ℤ) → Bool → ℕ → Index → Entry → Run Inserting
unfolding btsrin rooted
insert_new compare unique_on f s target = btsrin compare unique_on f s target s.rootno >>= rooted
