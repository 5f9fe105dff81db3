-- ===== src/Btree/Tree/Replace.antt =====
-- A page that is no leaf, when one page below it has come to stand for other items.
use db3w.Common.{
  ℕ, suc, ◌≤◌, ◌<◌, ◌≡◌, refl, true, false, ◌==◌, List, some, arith, inl, inr, Bool-cases,
  if◌then◌else◌,
}
use db3w.Pages.{Page}
use db3w.Btree.{Index, getpage, write_page}
use db3w.Btree.Order.{Item, last}
use db3w.Btree.Tree.{joined, InnerPage, Holds}
use db3w.Btree.Tree.Frame.{
  PageSet, part, Apart, InnerApart, Agrees, Holds-frame, Apart-frame, getpage-write_page_ne,
}

abbrev pub replaced : (ℕ → List Item) → ℕ → List Item → ℕ → List Item
replaced kids r items i = if i == r then items else kids i

pub part_facts :
    (pages : PageSet) (pno : ℕ) (owner : ℕ → ℕ) (r l : ℕ)
    → part pages pno owner r l ≡ true
    → (pages l ≡ true) × ((pno == l) ≡ false) × (owner l ≡ r)
part_facts pages pno owner r l h = ground arith

part_other :
    (pages : PageSet) (pno : ℕ) (owner : ℕ → ℕ) (r i q : ℕ)
    → part pages pno owner i q ≡ true
    → (i == r) ≡ false
    → part pages pno owner r q ≡ false
part_other pages pno owner r i q h n = ground arith

pub part_self :
    (pages : PageSet) (pno : ℕ) (owner : ℕ → ℕ) (r : ℕ) → part pages pno owner r pno ≡ false
part_self pages pno owner r = ground arith

pub same_count : (s : Index) (leaf : ℕ) (page : Page) → (write_page s leaf page).pagecnt ≡ s.pagecnt
unfolding write_page
same_count s leaf page = refl

-- A write to one of the pages is not seen outside of them.
pub outside_write :
    (s : Index) (pages : PageSet) (leaf : ℕ) (page : Page)
    → pages leaf ≡ true
    → (q : ℕ) → pages q ≡ false
    → getpage (write_page s leaf page) q ≡ getpage s q
outside_write s pages leaf page within q out =
    getpage-write_page_ne s leaf q page (elim (Bool-cases (q == leaf)) [
      | inl same ↦ let e : q ≡ leaf = ground (arith, same) in absurd (cc)
      | inr differ ↦ differ
    ])

module _ (s s' : Index) (depth pno : ℕ) (pages : PageSet) (items : List Item)
    (tree : InnerPage s (Holds s depth) pno items) (a : Apart s (suc depth) pno pages) (stop : ℕ)
    (to : stop ≤ (getpage s pno).entry_cnt) (count : s'.pagecnt ≡ s.pagecnt)
    (outside : (q : ℕ) → part pages pno a.owner stop q ≡ false → getpage s' q ≡ getpage s q)
    (kid : List Item) (holds : Holds s' depth ((getpage s pno).entries stop).pno kid)
    (apart : Apart s' depth ((getpage s pno).entries stop).pno (part pages pno a.owner stop))
    (end : Item) (at_end : last kid ≡ some end) where
  pub same_page : getpage s' pno ≡ getpage s pno
  same_page = outside pno (part_self pages pno a.owner stop)

  agrees : (i : ℕ) → (i == stop) ≡ false → Agrees s s' (part pages pno a.owner i)
  agrees i differ = record {
    count = count;
    same = λ q h. outside q (part_other pages pno a.owner stop i q h differ);
  }

  pub child-Holds :
      (i : ℕ)
      → i ≤ (getpage s pno).entry_cnt
      → Holds s' depth ((getpage s pno).entries i).pno (replaced tree.kids stop kid i)
  child-Holds i h = elim (Bool-cases (i == stop)) [
    | inl same ↦ let e : i ≡ stop = ground (arith, same) in rw (same, e) holds
    | inr differ ↦ rw differ (
        Holds-frame s s' depth _ (part pages pno a.owner i) (tree.kids i) (agrees i differ)
          (a.child i h) (tree.child i h))
  ]

  pub child-Apart :
      (i : ℕ)
      → i ≤ (getpage s pno).entry_cnt
      → Apart s' depth ((getpage s pno).entries i).pno (part pages pno a.owner i)
  child-Apart i h = elim (Bool-cases (i == stop)) [
    | inl same ↦ let e : i ≡ stop = ground (arith, same) in rw e apart
    | inr differ ↦
        Apart-frame s s' depth _ (part pages pno a.owner i) (agrees i differ) (a.child i h)
  ]

  abbrev pub ends_of : ℕ → Item
  ends_of i = if i == stop then end else tree.lasts i

  pub child_ends :
      (i : ℕ)
      → i ≤ (getpage s pno).entry_cnt
      → last (replaced tree.kids stop kid i) ≡ some (ends_of i)
  child_ends i h = elim (Bool-cases (i == stop)) [
    | inl same ↦ rw same at_end
    | inr differ ↦ rw differ (tree.ends i h)
  ]

  pub replaced-InnerApart : InnerApart s' (Apart s' depth) pno pages
  replaced-InnerApart =
      let e = same_page in
      record { self = a.self; owner = a.owner; child = λ i h. rw e (child-Apart i (rw e at h)) }

  -- If the key on the right of the page below is still the last one on its left.
  pub replaced-InnerPage :
      (stop < (getpage s pno).entry_cnt → end.key ≡ ((getpage s pno).entries stop).key)
      → InnerPage s'
          (Holds s' depth)
          pno
          (joined (replaced tree.kids stop kid) 0 (getpage s pno).entry_cnt)
  replaced-InnerPage kept =
      let e = same_page in
      record {
        is_page = record { named = tree.is_page.named; below = rw count tree.is_page.below };
        kids = replaced tree.kids stop kid;
        lasts = ends_of;
        child = λ i h. rw e (child-Holds i (rw e at h));
        pageno = λ i h. rw e (tree.pageno i (rw e at h));
        ends = λ i h. child_ends i (rw e at h);
        separator = λ i h. rw e (child_separator i (rw e at h));
        contents = rw e refl;
      }
    where
      child_separator :
          (i : ℕ)
          → i < (getpage s pno).entry_cnt
          → (ends_of i).key ≡ ((getpage s pno).entries i).key
      child_separator i h = elim (Bool-cases (i == stop)) [
        | inl same ↦
            let e : i ≡ stop = ground (arith, same) in
            let here : stop < (getpage s pno).entry_cnt = rw (← e) h in rw (same, e) (kept here)
        | inr differ ↦ rw differ (tree.separator i h)
      ]
