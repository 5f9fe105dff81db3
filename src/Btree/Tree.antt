-- ===== src/Btree/Tree.antt =====
-- What a page of an index stands for: the sequence of the items below it.
pub mod Last
pub mod Frame
pub mod Replace
use db3w.Common.{
  ℕ, zero, suc, ◌+◌, ◌≤◌, ◌<◌, ◌≡◌, ◌≢◌, true, false, ◌==◌, List, [], ◌∷◌, ◌++◌, some,
}
use db3w.Pages.{Entry, Page}
use db3w.Btree.{Index, getpage}
use db3w.Btree.Order.{Item, last}

abbrev pub item_of : Entry → Item
item_of e = record { key = e.key; recno = e.recno }

-- The items of `n` entries of a leaf, from one on.
abbrev pub items_from : Page → ℕ → ℕ → List Item
items_from p i zero = []
items_from p i (suc n) = item_of (p.entries i) ∷ items_from p (i + 1) n

-- The sequences `kids i`, …, `kids (i + n)`, one behind the other.
abbrev pub joined : (ℕ → List Item) → ℕ → ℕ → List Item
joined kids i zero = kids i
joined kids i (suc n) = kids i ++ joined kids (i + 1) n

pub record IsPage (s : Index) (pno : ℕ) : Type 0 where
  pub named : (pno == 0) ≡ false
  pub below : pno < s.pagecnt

-- A leaf has no page below it, and its entries are its items.
pub record LeafPage (s : Index) (pno : ℕ) (items : List Item) : Type 0 where
  pub is_page : IsPage s pno
  pub no_pages : (i : ℕ) → i ≤ (getpage s pno).entry_cnt → ((getpage s pno).entries i).pno ≡ 0
  pub contents : items ≡ items_from (getpage s pno) 0 (getpage s pno).entry_cnt

-- Another page has a page below it on each side of a key, of which none is empty; a key is the last one
-- below it on its left.
pub record InnerPage (s : Index) (Child : ℕ → List Item → Type 0) (pno : ℕ) (items : List Item)
    : Type 0 where
  pub is_page : IsPage s pno
  pub kids : ℕ → List Item
  pub lasts : ℕ → Item
  pub child :
      (i : ℕ) → i ≤ (getpage s pno).entry_cnt → Child ((getpage s pno).entries i).pno (kids i)
  pub pageno :
      (i : ℕ) → i ≤ (getpage s pno).entry_cnt → (((getpage s pno).entries i).pno == 0) ≡ false
  pub ends : (i : ℕ) → i ≤ (getpage s pno).entry_cnt → last (kids i) ≡ some (lasts i)
  pub separator :
      (i : ℕ) → i < (getpage s pno).entry_cnt → (lasts i).key ≡ ((getpage s pno).entries i).key
  pub contents : items ≡ joined kids 0 (getpage s pno).entry_cnt

-- The page `pno` with `depth` levels below it holds the items.
abbrev pub Holds : Index → ℕ → ℕ → List Item → Type 0
Holds s zero pno items = LeafPage s pno items
Holds s (suc depth) pno items = InnerPage s (Holds s depth) pno items
