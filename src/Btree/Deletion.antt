-- ===== src/Btree/Deletion.antt =====
-- `btsrdel` and `del`: the deletion of an entry. A page that is given to a callee is given back, as the
-- callee may write to it.
pub mod Closing
pub mod Seeking
pub mod Upward
pub mod Below
pub mod Descent
pub mod Erased
pub mod Leaf
pub mod Refinement
use db3w.Common.{ℕ, zero, suc, ◌+◌, ◌-◌, Bool, true, false, List, ltb, ◌==◌, if◌then◌else◌}
use db3w.Common.Int.{ℤ}
use db3w.Pages.{Entry, Page, get_entry, put_pageno, put_record, move_entry}
use db3w.Btree.{
  Run, done, refused, ntndx, endless, ◌>>=◌, run, Index, getpage, write_page, positive, is_zero,
}
use db3w.Btree.Insertion.{tie_in}

-- `rm`, the page of the caller, and what is left of the target.
pub record Removing : Type 0 where
  pub rm : Bool
  pub index : Index
  pub page : Page
  pub target : Entry

pub pageno_at : Page → ℕ → Run ℕ
pageno_at p item = run (get_entry p item) >>= λ e. done e.pno

-- `ne_put_recno(q, itmno, 0)`
pub clear_recno : Page → ℕ → Run Page
clear_recno q item = run (get_entry q item) >>= λ e. run (put_record q item 0 e.key)

-- The last entry of the leaf `p` goes; the one ahead of it takes its place in `q`.
pub del_leaf : ℕ → ℕ → Page → ℕ → Removing → Run Removing
unfolding pageno_at clear_recno
del_leaf ppno apno p itmno c =
    let q = c.page in
    let p' : Page = record p { entry_cnt = p.entry_cnt - 1 } in
    let s = write_page c.index ppno p' in
    if p'.entry_cnt == 0
    then done (record c { rm = true; index = s })
    else (pageno_at q (itmno + 1) >>= λ pn. run (move_entry p' (p'.entry_cnt - 1) q itmno) >>= λ q1.
        clear_recno q1 itmno >>= λ q2. run (put_pageno q2 (itmno + 1) pn) >>= λ q3.
        done (record c { rm = false; index = write_page s apno q3; page = q3 }))

-- The page below has gone: an orphan of it takes its place, or the last key goes up.
pub del_inner : ℕ → ℕ → Page → ℕ → Removing → Run Removing
unfolding pageno_at
del_inner ppno apno p itmno c =
    let q = c.page in
    let s = c.index in
    if c.target.pno == 0
    then (pageno_at q (itmno + 1) >>= λ pn. run (put_pageno p p.entry_cnt pn) >>= λ p1.
        run (move_entry p1 (p1.entry_cnt - 1) q itmno) >>= λ q1.
        let p2 : Page = record p1 { entry_cnt = p1.entry_cnt - 1 } in
        let s' = write_page (write_page s apno q1) ppno p2 in
        if p2.entry_cnt == 0
        then (pageno_at p2 0 >>= λ orphan. done (record {
          rm = true;
          index = s';
          page = q1;
          target = record (c.target) { pno = orphan };
        }))
        else done (record c { rm = false; index = s'; page = q1 }))
    else (run (put_pageno p p.entry_cnt c.target.pno) >>= λ p1. done (record c {
      rm = false;
      index = write_page s ppno p1;
      target = record (c.target) { pno = 0 };
    }))

pub del_page : ℕ → ℕ → Page → ℕ → ℕ → Removing → Run Removing
unfolding del_leaf del_inner
del_page ppno apno p pn itmno c =
    if c.rm
    then if p.entry_cnt == 0
      then done c
      else if pn == 0
      then del_leaf ppno apno p itmno c
      else del_inner ppno apno p itmno c
    else done c

-- The deletion of the entry `itmno` of the page `q`, number `apno`, below which `ppno` is on the left.
pub del : ℕ → Index → ℕ → ℕ → Page → ℕ → Entry → Run Removing
unfolding del_page pageno_at getpage
del zero s ppno apno q itmno target = endless
del (suc f) s ppno apno q itmno target =
    let p = getpage s ppno in
    elim (ppno == 0) [
      | true ↦ done (record { rm = true; index = s; page = q; target = target })
      | false ↦ pageno_at p p.entry_cnt >>= λ pn.
          del f s pn apno q itmno target >>= del_page ppno apno p pn itmno
    ]

-- Where the loop ends, and if it has met the entry.
pub record Spot : Type 0 where
  pub match : Bool
  pub r : ℕ
  pub pn3 : ℕ

abbrev pub spot_of : Bool → Bool → ℕ → ℕ → Run Spot → Run Spot
spot_of true above r pn3 next = done (record { match = true; r = r; pn3 = pn3 })
spot_of false true r pn3 next = next
spot_of false false r pn3 next = done (record { match = false; r = r; pn3 = pn3 })

module _ (compare : List ℕ → List ℕ → ℤ) where
  -- At most as many rounds as the page has entries.
  pub seek : ℕ → Index → Entry → Page → ℕ → ℕ → ℕ → Run Spot
  unfolding tie_in pageno_at
  seek f s target p zero r pn3 = done (record { match = false; r = r; pn3 = pn3 })
  seek f s target p (suc k) r pn3 = run (get_entry p r) >>= λ here. pageno_at p (r + 1) >>= λ right.
      tie_in false f s pn3 (compare target.key here.key) target.recno here.recno >>= λ e.
      spot_of (is_zero e) (positive e) r pn3 (seek f s target p k (r + 1) right)

-- `for (e=r; e<p->entry_cnt - 1; ++e) move_entry(p, e + 1, p, e)`, for that many rounds.
pub close : ℕ → ℕ → Page → Run Page
close r zero p = done p
close r (suc k) p = run (move_entry p (r + 1) p r) >>= close (r + 1) k

-- The entry `r` and the page on its left go out of the page.
pub take_out : ℕ → Page → Run Page
unfolding close pageno_at
take_out r p =
    if ltb r p.entry_cnt
    then (pageno_at p (r + 1) >>= λ npno. close r (p.entry_cnt - 1 - r) p >>= λ p'.
        run (put_pageno p' r npno) >>= λ p''. done (record p'' { entry_cnt = p''.entry_cnt - 1 }))
    else done (record p { entry_cnt = p.entry_cnt - 1 })

-- The work on a page behind the deletion below it.
pub removed : ℕ → ℕ → Removing → Run Removing
unfolding take_out pageno_at
removed pno r c =
    let p = c.page in
    if c.rm
    then if c.target.pno == 0
      then (take_out r p >>= λ p'.
          let s = write_page c.index pno p' in
          if p'.entry_cnt == 0
          then (pageno_at p' 0 >>= λ orphan. done (record {
            rm = true;
            index = s;
            page = p';
            target = record (c.target) { pno = orphan };
          }))
          else done (record c { rm = false; index = s; page = p' }))
      else (run (put_pageno p r c.target.pno) >>= λ p'. done (record {
        rm = false;
        index = write_page c.index pno p';
        page = p';
        target = record (c.target) { pno = 0 };
      }))
    else done c

module _ (compare : List ℕ → List ℕ → ℤ) where
  pub btsrdel : ℕ → Index → ℕ → Entry → Run Removing
  unfolding seek del removed getpage
  btsrdel zero s pno target = endless
  btsrdel (suc f) s pno target =
      let p = getpage s pno in
      elim (pno == 0) [
        | true ↦ refused ntndx
        | false ↦ pageno_at p 0 >>= λ first. seek compare f s target p p.entry_cnt 0 first >>= λ x.
            (elim x.match [
              | true ↦ del f s x.pn3 pno p x.r target
              | false ↦ btsrdel f s x.pn3 target >>= λ c. done (record c { page = p })
            ])
            >>= removed pno x.r
      ]
