-- ===== src/Pages.antt =====
-- server/dbe/page.c: the entries of an index page, and the part of `btsrin` (server/dbe/btree.c) that
-- puts an entry into a page with room. The bytes of the page are an array of entries; what is read
-- outside of the array is not modelled beyond the test of `get_entry`. `ndx_err` jumps here, as it does
-- when no error is pending.
pub mod Insert
pub mod Split
pub mod Tests
use db3w.Common.{
  ℕ, zero, suc, ◌+◌, ◌-◌, Bool, true, false, ◌&&◌, ◌||◌, not, List, Option, none, some, ltb, leb,
  ◌==◌, if◌then◌else◌,
}

-- NDX_ENTRY: the page on the left of the key, the record and the key.
pub record Entry : Type 0 where
  pub pno : ℕ
  pub recno : ℕ
  pub key : List ℕ

-- NDX_PAGE.
pub record Page : Type 0 where
  pub entry_cnt : ℕ
  pub entries : ℕ → Entry

pub data Result {ℓ} (A : Type ℓ) : Type ℓ where
  ok : A → Result A
  invalid_entry : Result A

infixl 5 ◌>>=◌
abbrev pub ◌>>=◌ {ℓ κ} : {A : Type ℓ} {B : Type κ} → Result A → (A → Result B) → Result B
ok a >>= f = f a
invalid_entry >>= f = invalid_entry

pub get_entry : Page → ℕ → Result Entry
get_entry p item = if ltb p.entry_cnt item then invalid_entry else ok (p.entries item)

-- A write through the pointer that `get_entry` gave.
unfoldable pub put : Page → ℕ → Entry → Page
put p item e = record p { entries = λ i. if i == item then e else p.entries i }

-- `ne_put_pageno`, and the writes to the other two fields.
pub put_pageno : Page → ℕ → ℕ → Result Page
unfolding get_entry put
put_pageno p item pno = get_entry p item >>= λ e. ok (put p item (record e { pno = pno }))

pub put_record : Page → ℕ → ℕ → List ℕ → Result Page
unfolding get_entry put
put_record p item recno key =
    get_entry p item >>= λ e. ok (put p item (record e { recno = recno; key = key }))

-- The second page after the call; it may be the first one.
unfoldable pub move_entry : Page → ℕ → Page → ℕ → Result Page
unfolding put_pageno put_record
move_entry p1 e1 p2 e2 = get_entry p1 e1 >>= λ ep1. get_entry p2 e2 >>= λ _.
    get_entry p1 (e1 + 1) >>= λ ep3.
    put_pageno p2 (e2 + 1) ep3.pno >>= λ p2'. put_record p2' e2 ep1.recno ep1.key

unfoldable pub is_leaf : Page → Bool
is_leaf p = (p.entries 0).pno == 0

-- The second component is the position of the index, which an insertion into a leaf sets.
pub insert_entry : Page → ℕ → ℕ → Entry → Result (Page × Option (ℕ × ℕ))
unfolding put_pageno put_record is_leaf
insert_entry p pno r target =
    if is_leaf p && (target.recno == 0) || not (is_leaf p) && (target.pno == 0)
    then invalid_entry
    else (put_record p r target.recno target.key >>= λ p'.
        put_pageno p' (r + 1) target.pno >>= λ p''.
        ok (p'', if is_leaf p'' then some (pno, r) else none))

-- `for (i=…; i>r; --i) move_entry(p, i - 1, p, i)`, for `i - r` rounds.
pub shift : ℕ → ℕ → Page → Result Page
unfolding move_entry
shift r zero p = ok p
shift r (suc n) p = move_entry p (r + n) p (r + n + 1) >>= λ p'. shift r n p'

-- `i=p->entry_cnt++`, the loop and the entry, for a page with room.
pub insert_in_page : Page → ℕ → ℕ → Entry → Result (Page × Option (ℕ × ℕ))
unfolding shift insert_entry
insert_in_page p pno r target =
    shift r (p.entry_cnt - r) (record p { entry_cnt = p.entry_cnt + 1 }) >>= λ p'.
    insert_entry p' pno r target
