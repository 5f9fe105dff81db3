-- ===== src/Pages/Split.antt =====
-- server/dbe/btree.c: the split of a full page in `btsrin`.
pub mod Moves
pub mod Cut
pub mod Middle
use db3w.Common.{
  ℕ, zero, suc, ◌+◌, ◌-◌, ◌/◌, Bool, List, [], Option, none, some, ltb, ◌==◌, if◌then◌else◌,
}
use db3w.Pages.{
  Entry, Page, Result, ok, ◌>>=◌, get_entry, put_pageno, move_entry, is_leaf, insert_entry, shift,
}

-- `move_entry(p, a + i, q, b + i)` for `i` from 0 on, `k` times.
pub move_range : ℕ → ℕ → ℕ → Page → Page → Result Page
move_range a b zero p q = ok q
move_range a b (suc k) p q = move_entry p a q b >>= λ q'. move_range (a + 1) (b + 1) k p q'

-- `getpage` clears a new page.
unfoldable pub new_page : ℕ → Page
new_page cnt = record { entry_cnt = cnt; entries = λ i. record { pno = 0; recno = 0; key = [] } }

-- The two pages, what goes up to the page above, and the position of the index if it has changed.
pub record Halves : Type 0 where
  pub left : Page
  pub right : Page
  pub up : Entry
  pub position : Option (ℕ × ℕ)

-- What the three branches share: a leaf keeps the entry that goes up.
pub cut : ℕ → ℕ → Page → Page → Entry → Option (ℕ × ℕ) → Result Halves
cut n pn3 p q target pos = get_entry p (n + 1) >>= λ e. put_pageno q 0 e.pno >>= λ q'. ok (record {
  left = record p { entry_cnt = if is_leaf p then n + 1 else n };
  right = q';
  up = record target { pno = pn3 };
  position = pos;
})

-- `target` with the record and the key of entry `n` of the left page.
pub middle : ℕ → Page → Entry → Result Entry
middle n p target = get_entry p n >>= λ e. ok (record target { recno = e.recno; key = e.key })

pub split_at : ℕ → ℕ → ℕ → Page → ℕ → Entry → Result Halves
unfolding move_range cut
split_at n pno pn3 p r target =
    move_range n 0 (p.entry_cnt - n) p (new_page (p.entry_cnt - n)) >>= λ q.
    insert_entry p pno n target >>= λ done. cut n pn3 done.0 q target done.1

pub split_below : ℕ → ℕ → ℕ → Page → ℕ → Entry → Result Halves
unfolding move_range cut middle
split_below n pno pn3 p r target =
    move_range n 0 (p.entry_cnt - n) p (new_page (p.entry_cnt - n)) >>= λ q.
    shift r (n - r) p >>= λ p'. insert_entry p' pno r target >>= λ done.
    middle n done.0 target >>= λ up. cut n pn3 done.0 q up done.1

pub split_above : ℕ → ℕ → ℕ → Page → ℕ → Entry → Result Halves
unfolding move_range cut middle
split_above n pno pn3 p r target =
    move_range (n + 1) 0 (r - (n + 1)) p (new_page (p.entry_cnt - n)) >>= λ q.
    insert_entry q pn3 (r - n - 1) target >>= λ done.
    move_range r (r - n) (p.entry_cnt - r) p done.0 >>= λ q'.
    middle n p target >>= λ up. cut n pn3 p q' up done.1

-- The page is full: its count is `norecpp`, which is halved.
pub split : ℕ → ℕ → Page → ℕ → Entry → Result Halves
unfolding split_at split_below split_above
split pno pn3 p r target =
    let n = p.entry_cnt / 2 in
    if r == n
    then split_at n pno pn3 p r target
    else if ltb r n
    then split_below n pno pn3 p r target
    else split_above n pno pn3 p r target
