-- ===== src/Btree.antt =====
-- server/dbe/btree.c: the pages of an index as a store, and the search and the insertion in them. The reads of the file
-- succeed; a page behind the last one is cleared, as `getpage` does. A run that follows more pages than
-- its fuel is `endless`; `ndx_err` is `refused` with its error.
pub mod Search
pub mod Insertion
pub mod Deletion
pub mod RoundTrip
pub mod Neighbours
pub mod Order
pub mod Tree
pub mod Tests
use db3w.Common.{ℕ, zero, suc, ◌-◌, Bool, true, false, List, Option, ltb, leb, ◌==◌, if◌then◌else◌}
use db3w.Common.Int.{ℤ, pos, negsuc}
use db3w.Pages.{Entry, Page, Result, get_entry, is_leaf}
use db3w.Pages.Split.{new_page}

-- The errors that the tree and its pages report, NTNDX and INVALID_ENTRY.
pub data NdxError : Type 0 where
  ntndx bad_entry : NdxError

pub data Run {ℓ} (A : Type ℓ) : Type ℓ where
  done : A → Run A
  refused : NdxError → Run A
  endless : Run A

infixl 5 ◌>>=◌
abbrev pub ◌>>=◌ {ℓ κ} : {A : Type ℓ} {B : Type κ} → Run A → (A → Run B) → Run B
done a >>= f = f a
refused e >>= f = refused e
endless >>= f = endless

abbrev pub run {ℓ} : {A : Type ℓ} → Result A → Run A
run (Result.ok a) = done a
run Result.invalid_entry = refused bad_entry

-- `curr_ndx->ndx_h` and the pages of its file.
pub record Index : Type 0 where
  pub rootno : ℕ
  pub norecpp : ℕ
  pub pagecnt : ℕ
  pub pages : ℕ → Page

pub getpage : Index → ℕ → Page
getpage s n = if leb s.pagecnt n then new_page 0 else s.pages n

pub write_page : Index → ℕ → Page → Index
write_page s pno p = record s { pages = λ n. if n == pno then p else s.pages n }

-- `e>0`, `e<0` and `!e` for the result of a comparison.
abbrev pub positive : ℤ → Bool
positive (pos zero) = false
positive (pos (suc n)) = true
positive (negsuc n) = false

abbrev pub negative : ℤ → Bool
negative (pos n) = false
negative (negsuc n) = true

abbrev pub is_zero : ℤ → Bool
is_zero (pos zero) = true
is_zero (pos (suc n)) = false
is_zero (negsuc n) = false

-- `a > b ? 1 : (a < b ? -1 : 0)`
pub recno_cmp : ℕ → ℕ → ℤ
recno_cmp a b = if ltb b a then pos 1 else if ltb a b then negsuc 0 else pos 0

-- `ne_get_recno(p, p->entry_cnt - 1)`; the item -1 of an empty page is refused.
pub last_recno : Page → ℕ → Run ℕ
last_recno p zero = refused bad_entry
last_recno p (suc n) = run (get_entry p n) >>= λ e. done e.recno

-- The record number against the last one below a page.
pub btlr : ℕ → Index → ℕ → ℕ → Run ℤ
unfolding getpage is_leaf recno_cmp last_recno
btlr zero s pno recnum = endless
btlr (suc f) s pno recnum =
    let p = getpage s pno in
    elim (is_leaf p) [
      | true ↦ last_recno p p.entry_cnt >>= λ recno. done (recno_cmp recnum recno)
      | false ↦ run (get_entry p p.entry_cnt) >>= λ e. btlr f s e.pno recnum
    ]
