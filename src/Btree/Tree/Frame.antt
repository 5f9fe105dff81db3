-- ===== src/Btree/Tree/Frame.antt =====
-- Pages of a tree that stand apart, and what a write to another page leaves.
use db3w.Common.{ℕ, zero, suc, ◌≤◌, ◌<◌, ◌≡◌, refl, Bool, true, false, ◌==◌, ◌&&◌, not, List, arith}
use db3w.Pages.{Page}
use db3w.Btree.{Index, getpage, write_page}
use db3w.Btree.Order.{Item}
use db3w.Btree.Tree.{Holds}

-- A set of pages.
abbrev pub PageSet : Type 0
PageSet = ℕ → Bool

-- The pages of a set that are below one page on its child `i`.
abbrev pub part : PageSet → ℕ → (ℕ → ℕ) → ℕ → PageSet
part pages pno owner i q = pages q && (not (q == pno) && (owner q == i))

pub record InnerApart (s : Index) (Child : ℕ → PageSet → Type 0) (pno : ℕ) (pages : PageSet)
    : Type 0 where
  pub self : pages pno ≡ true
  pub owner : ℕ → ℕ
  pub child :
      (i : ℕ)
      → i ≤ (getpage s pno).entry_cnt
      → Child ((getpage s pno).entries i).pno (part pages pno owner i)

-- No page of the tree stands in it twice, and all are among `pages`.
abbrev pub Apart : Index → ℕ → ℕ → PageSet → Type 0
Apart s zero pno pages = pages pno ≡ true
Apart s (suc depth) pno pages = InnerApart s (Apart s depth) pno pages

pub Apart-self :
    (s : Index) (depth pno : ℕ) (pages : PageSet) → Apart s depth pno pages → pages pno ≡ true
Apart-self s zero pno pages a = a
Apart-self s (suc depth) pno pages a = a.self

pub record Agrees (s s' : Index) (pages : PageSet) : Type 0 where
  pub count : s'.pagecnt ≡ s.pagecnt
  pub same : (q : ℕ) → pages q ≡ true → getpage s' q ≡ getpage s q

part-pages :
    (pages : PageSet) (pno : ℕ) (owner : ℕ → ℕ) (i q : ℕ)
    → part pages pno owner i q ≡ true
    → pages q ≡ true
part-pages pages pno owner i q h = ground arith

pub Agrees-part :
    (s s' : Index) (pages : PageSet) (pno : ℕ) (owner : ℕ → ℕ) (i : ℕ)
    → Agrees s s' pages
    → Agrees s s' (part pages pno owner i)
Agrees-part s s' pages pno owner i g = record {
  count = g.count;
  same = λ q h. g.same q (part-pages pages pno owner i q h);
}

-- What a tree stands for depends on its own pages.
pub Holds-frame :
    (s s' : Index) (depth pno : ℕ) (pages : PageSet) (items : List Item)
    → Agrees s s' pages
    → Apart s depth pno pages
    → Holds s depth pno items
    → Holds s' depth pno items
Holds-frame s s' zero pno pages items g a t =
    let e = g.same pno a in
    record {
      is_page = record { named = t.is_page.named; below = rw g.count t.is_page.below };
      no_pages = λ i h. rw e (t.no_pages i (rw e at h));
      contents = rw e t.contents;
    }
Holds-frame s s' (suc depth) pno pages items g a t =
    let e = g.same pno a.self in
    record {
      is_page = record { named = t.is_page.named; below = rw g.count t.is_page.below };
      kids = t.kids;
      lasts = t.lasts;
      child = λ i h. rw e (
          Holds-frame s s' depth _ (part pages pno a.owner i) (t.kids i)
            (Agrees-part s s' pages pno a.owner i g) (a.child i (rw e at h))
            (t.child i (rw e at h)));
      pageno = λ i h. rw e (t.pageno i (rw e at h));
      ends = λ i h. t.ends i (rw e at h);
      separator = λ i h. rw e (t.separator i (rw e at h));
      contents = rw e t.contents;
    }

pub Apart-frame :
    (s s' : Index) (depth pno : ℕ) (pages : PageSet)
    → Agrees s s' pages
    → Apart s depth pno pages
    → Apart s' depth pno pages
Apart-frame s s' zero pno pages g a = a
Apart-frame s s' (suc depth) pno pages g a =
    let e = g.same pno a.self in
    record {
      self = a.self;
      owner = a.owner;
      child = λ i h. rw e (
          Apart-frame s s' depth _ (part pages pno a.owner i)
            (Agrees-part s s' pages pno a.owner i g) (a.child i (rw e at h)));
    }

pub getpage-write_page_ne :
    (s : Index) (l q : ℕ) (p : Page) → (q == l) ≡ false → getpage (write_page s l p) q ≡ getpage s q
unfolding getpage write_page
getpage-write_page_ne s l q p n = ground arith

pub getpage-write_page :
    (s : Index) (l : ℕ) (p : Page) → l < s.pagecnt → getpage (write_page s l p) l ≡ p
unfolding getpage write_page
getpage-write_page s l p h = ground arith

-- A write to a page that is not among them.
pub Agrees-write_page :
    (s : Index) (l : ℕ) (p : Page) (pages : PageSet)
    → pages l ≡ false
    → Agrees s (write_page s l p) pages
unfolding write_page
Agrees-write_page s l p pages out = record {
  count = refl;
  same = λ q h. getpage-write_page_ne s l q p (ground arith);
}
