-- ===== src/Btree/Tree/Last.antt =====
-- `btlr` compares with the last item below a page.
use db3w.Common.{ℕ, zero, suc, ◌+◌, ◌≤◌, ◌<◌, ◌≡◌, refl, sym, ◌∙◌, true, false, List, some, arith}
use db3w.Pages.{Page, is_leaf}
use db3w.Pages.Insert.{get_entry_lem}
use db3w.Btree.{Index, done, getpage, btlr, last_recno, recno_cmp}
use db3w.Btree.Order.{Item, last, last-append}
use db3w.Btree.Tree.{item_of, items_from, joined, LeafPage, InnerPage, Holds}

pub last-items_from :
    (p : Page) (i n m : ℕ)
    → i + n ≡ m
    → last (items_from p i (suc n)) ≡ some (item_of (p.entries m))
last-items_from p i zero m e = let same : i ≡ m = omega (arith) in rw same refl
last-items_from p i (suc n) m e = last-items_from p (i + 1) n m (omega arith)

pub last-joined :
    (kids : ℕ → List Item) (i n m : ℕ) {l : Item}
    → i + n ≡ m
    → last (kids m) ≡ some l
    → last (joined kids i n) ≡ some l
last-joined kids i zero m e h = let same : i ≡ m = omega (arith) in rw same h
last-joined kids i (suc n) m e h =
    last-append (kids i) (joined kids (i + 1) n) (last-joined kids (i + 1) n m (omega arith) h)

last_recno_lem :
    (p : Page) (n : ℕ) {l : Item}
    → n ≤ p.entry_cnt
    → last (items_from p 0 n) ≡ some l
    → last_recno p n ≡ done l.recno
unfolding last_recno
last_recno_lem p zero h e = absurd (cc)
last_recno_lem p (suc n) {l} h e =
    let same : some (item_of (p.entries n)) ≡ some l =
      sym (last-items_from p 0 n n (omega arith)) ∙ e in
    let recno : (p.entries n).recno ≡ l.recno = cc in
    rw (get_entry_lem p n (omega arith), recno) refl

pub LeafPage-is_leaf :
    (s : Index) (pno : ℕ) {items : List Item}
    → LeafPage s pno items
    → is_leaf (getpage s pno) ≡ true
unfolding is_leaf
LeafPage-is_leaf s pno t = rw (t.no_pages 0 (omega arith)) refl

pub InnerPage-is_leaf :
    (s : Index) (pno : ℕ) {Child : ℕ → List Item → Type 0} {items : List Item}
    → InnerPage s Child pno items
    → is_leaf (getpage s pno) ≡ false
unfolding is_leaf
InnerPage-is_leaf s pno t = t.pageno 0 (omega arith)

-- With fuel for the levels of the page `btlr` compares with the last item below it.
pub btlr_lem :
    (f depth : ℕ) (s : Index) (pno recnum : ℕ) (items : List Item) {l : Item}
    → depth < f
    → Holds s depth pno items
    → last items ≡ some l
    → btlr f s pno recnum ≡ done (recno_cmp recnum l.recno)
unfolding btlr
btlr_lem zero depth s pno recnum items h t e = absurd (omega arith)
btlr_lem (suc f) zero s pno recnum items h t e =
    let p = getpage s pno in
    let end = rw t.contents at e in
    rw (btlr, LeafPage-is_leaf s pno t, last_recno_lem p p.entry_cnt (omega arith) end) refl
btlr_lem (suc f) (suc depth) s pno recnum items {l} h t e =
    let p = getpage s pno in
    let c = p.entry_cnt in
    let same : some (t.lasts c) ≡ some l =
      sym (last-joined t.kids 0 c c (omega arith) (t.ends c (omega arith))) ∙ rw t.contents at e in
    rw (btlr, InnerPage-is_leaf s pno t, get_entry_lem p c (omega arith))
      (btlr_lem f depth s (p.entries c).pno recnum (t.kids c) (omega arith)
        (t.child c (omega arith)) (t.ends c (omega arith) ∙ same))
