-- ===== src/Pages/Split/Cut.antt =====
-- What a split leaves, against an insertion into one page.
use db3w.Common.{ℕ, ◌+◌, ◌-◌, ◌≤◌, ◌<◌, ◌≡◌, refl, Option, none, some, if◌then◌else◌, arith}
use db3w.Pages.{Entry, Page, ok, put, is_leaf}
use db3w.Pages.Insert.{pnos, recnos, keys, inserted, get_entry_lem, pageno_lem}
use db3w.Pages.Split.{Halves, cut, middle}

-- The halves, with what goes up between them, are the page with the target put in at `r`, cut at `n`.
pub record Cut (n pn3 r : ℕ) (t : Entry) (p : Page) (h : Halves) : Type 0 where
  pub left_cnt : h.left.entry_cnt ≡ (if is_leaf p then n + 1 else n)
  pub right_cnt : h.right.entry_cnt ≡ p.entry_cnt - n
  pub left_recno : (i : ℕ) → i ≤ n → recnos h.left i ≡ inserted r t.recno (recnos p) i
  pub left_key : (i : ℕ) → i ≤ n → keys h.left i ≡ inserted r t.key (keys p) i
  pub left_pno : (i : ℕ) → i ≤ n + 1 → pnos h.left i ≡ inserted (r + 1) t.pno (pnos p) i
  pub right_recno :
      (i : ℕ) → i < p.entry_cnt - n → recnos h.right i ≡ inserted r t.recno (recnos p) (i + n + 1)
  pub right_key :
      (i : ℕ) → i < p.entry_cnt - n → keys h.right i ≡ inserted r t.key (keys p) (i + n + 1)
  pub right_pno :
      (i : ℕ) → i ≤ p.entry_cnt - n → pnos h.right i ≡ inserted (r + 1) t.pno (pnos p) (i + n + 1)
  pub up_recno : h.up.recno ≡ inserted r t.recno (recnos p) n
  pub up_key : h.up.key ≡ inserted r t.key (keys p) n
  pub up_pno : h.up.pno ≡ pn3

abbrev pub halves : ℕ → ℕ → Page → Page → Entry → Option (ℕ × ℕ) → Halves
halves n pn3 p q t pos = record {
  left = record p { entry_cnt = if is_leaf p then n + 1 else n };
  right = put q 0 (record (q.entries 0) { pno = pnos p (n + 1) });
  up = record t { pno = pn3 };
  position = pos;
}

pub cut_lem :
    (n pn3 : ℕ) (p q : Page) (t : Entry) (pos : Option (ℕ × ℕ))
    → n + 1 ≤ p.entry_cnt
    → cut n pn3 p q t pos ≡ ok (halves n pn3 p q t pos)
unfolding cut
cut_lem n pn3 p q t pos h =
    rw (get_entry_lem p (n + 1) h, pageno_lem q 0 (pnos p (n + 1)) (omega arith)) refl

abbrev pub position_of : Page → ℕ → ℕ → Option (ℕ × ℕ)
position_of p pno r = if is_leaf p then some (pno, r) else none

abbrev pub risen : ℕ → Page → Entry → Entry
risen n p t = record t { recno = recnos p n; key = keys p n }

pub middle_lem : (n : ℕ) (p : Page) (t : Entry) → n ≤ p.entry_cnt → middle n p t ≡ ok (risen n p t)
unfolding middle
middle_lem n p t h = rw (get_entry_lem p n h) refl
