-- ===== src/Pages/Insert.antt =====
-- What an insertion leaves in a page.
use db3w.Common.{
  ℕ, zero, suc, ◌+◌, ◌-◌, ◌≤◌, ◌≡◌, refl, ◌∙◌, false, ◌&&◌, ◌||◌, not, List, none, some, ltb, leb,
  ◌==◌, if◌then◌else◌, arith,
}
use db3w.Pages.{
  Entry, Page, ok, get_entry, put, put_pageno, put_record, move_entry, is_leaf, insert_entry, shift,
  insert_in_page,
}

-- The three fields of a page's entries, as arrays.
abbrev pub pnos : Page → ℕ → ℕ
pnos p i = (p.entries i).pno

abbrev pub recnos : Page → ℕ → ℕ
recnos p i = (p.entries i).recno

abbrev pub keys : Page → ℕ → List ℕ
keys p i = (p.entries i).key

module _ {A : Type 0} where
  abbrev pub overwritten : ℕ → A → (ℕ → A) → ℕ → A
  overwritten k x f i = if i == k then x else f i

  -- The `n` elements from `k` on stand one place higher.
  abbrev pub slid : ℕ → ℕ → (ℕ → A) → ℕ → A
  slid k n f i = if ltb k i && leb i (k + n) then f (i - 1) else f i

  -- The array with `x` put in at `k`.
  abbrev pub inserted : ℕ → A → (ℕ → A) → ℕ → A
  inserted k x f i = if ltb i k then f i else if i == k then x else f (i - 1)

  slid-suc :
      (k n : ℕ) (f g : ℕ → A)
      → ((i : ℕ) → g i ≡ overwritten (k + n + 1) (f (k + n)) f i)
      → (i : ℕ) → slid k n g i ≡ slid k (suc n) f i
  slid-suc k n f g h i = ground (arith, h i, h (i - 1))

-- The arrays of the first page are those of the second one.
pub record Slid (r n : ℕ) (p p' : Page) : Type 0 where
  pub same_cnt : p'.entry_cnt ≡ p.entry_cnt
  pub recno_at : (i : ℕ) → recnos p' i ≡ slid r n (recnos p) i
  pub key_at : (i : ℕ) → keys p' i ≡ slid r n (keys p) i
  pub pno_at : (i : ℕ) → pnos p' i ≡ slid (r + 1) n (pnos p) i

pub get_entry_lem : (p : Page) (i : ℕ) → i ≤ p.entry_cnt → get_entry p i ≡ ok (p.entries i)
unfolding get_entry
get_entry_lem p i h = ground arith

record Moved (e : ℕ) (p p' : Page) : Type 0 where
  same_cnt : p'.entry_cnt ≡ p.entry_cnt
  recno_at : (i : ℕ) → recnos p' i ≡ overwritten (e + 1) (recnos p e) (recnos p) i
  key_at : (i : ℕ) → keys p' i ≡ overwritten (e + 1) (keys p e) (keys p) i
  pno_at : (i : ℕ) → pnos p' i ≡ overwritten (e + 1 + 1) (pnos p (e + 1)) (pnos p) i

pub record_lem :
    (p : Page) (i recno : ℕ) (key : List ℕ)
    → i ≤ p.entry_cnt
    → put_record p i recno key ≡ ok (put p i (record (p.entries i) { recno = recno; key = key }))
unfolding put_record
record_lem p i recno key h = rw (get_entry_lem p i h) refl

pub pageno_lem :
    (p : Page) (i pno : ℕ)
    → i ≤ p.entry_cnt
    → put_pageno p i pno ≡ ok (put p i (record (p.entries i) { pno = pno }))
unfolding put_pageno
pageno_lem p i pno h = rw (get_entry_lem p i h) refl

abbrev after_pno : Page → ℕ → Page
after_pno p e = put p (e + 1 + 1) (record (p.entries (e + 1 + 1)) { pno = pnos p (e + 1) })

abbrev after_move : Page → ℕ → Page
after_move p e =
    put (after_pno p e) (e + 1)
      (record ((after_pno p e).entries (e + 1)) { recno = recnos p e; key = keys p e })

move_entry_lem :
    (p : Page) (e : ℕ)
    → e + 2 ≤ p.entry_cnt
    → (p' : Page) × (move_entry p e p (e + 1) ≡ ok p') × Moved e p p'
unfolding move_entry put
move_entry_lem p e h = (
  after_move p e,
  rw
      (
        get_entry_lem p e (omega arith),
        get_entry_lem p (e + 1) (omega arith),
        pageno_lem p (e + 1 + 1) (pnos p (e + 1)) (omega arith),
      )
      (record_lem (after_pno p e) (e + 1) (recnos p e) (keys p e) (omega arith)),
  record {
    same_cnt = refl;
    recno_at = λ i. ground arith;
    key_at = λ i. ground arith;
    pno_at = λ i. ground arith;
  },
)

pno_step :
    (p p' : Page) (r n i : ℕ)
    → pnos p' i ≡ overwritten (r + n + 1 + 1) (pnos p (r + n + 1)) (pnos p) i
    → pnos p' i ≡ overwritten (r + 1 + n + 1) (pnos p (r + 1 + n)) (pnos p) i
pno_step p p' r n i h = let e : r + n + 1 ≡ r + 1 + n = omega arith in rw (e) at h

pub shift-Slid :
    (r n : ℕ) (p : Page)
    → r + n + 1 ≤ p.entry_cnt
    → (p' : Page) × (shift r n p ≡ ok p') × Slid r n p p'
unfolding shift
shift-Slid r zero p h = (
  p,
  refl,
  record {
    same_cnt = refl;
    recno_at = λ i. ground arith;
    key_at = λ i. ground arith;
    pno_at = λ i. ground arith;
  },
)
shift-Slid r (suc n) p h =
    let m = move_entry_lem p (r + n) (omega arith) in
    let s = shift-Slid r n (m.0) (omega (arith, m.2.same_cnt)) in
    (
      s.0,
      rw (m.1) (s.1),
      record {
        same_cnt = s.2.same_cnt ∙ m.2.same_cnt;
        recno_at = λ i. s.2.recno_at i ∙ slid-suc r n (recnos p) (recnos (m.0)) m.2.recno_at i;
        key_at = λ i. s.2.key_at i ∙ slid-suc r n (keys p) (keys (m.0)) m.2.key_at i;
        pno_at = λ i.
            s.2.pno_at i
            ∙ slid-suc (r + 1) n (pnos p) (pnos (m.0)) (λ j. pno_step p (m.0) r n j (m.2.pno_at j))
                i;
      },
    )

-- The page `p'` is `p` with the target put in at `r`.
pub record Inserted (r : ℕ) (target : Entry) (p p' : Page) : Type 0 where
  pub counted : p'.entry_cnt ≡ p.entry_cnt + 1
  pub recno_at : (i : ℕ) → i ≤ p.entry_cnt → recnos p' i ≡ inserted r target.recno (recnos p) i
  pub key_at : (i : ℕ) → i ≤ p.entry_cnt → keys p' i ≡ inserted r target.key (keys p) i
  pub pno_at : (i : ℕ) → i ≤ p.entry_cnt + 1 → pnos p' i ≡ inserted (r + 1) target.pno (pnos p) i

-- The target of a leaf has a record, and that of another page has a page on its right.
abbrev pub IsTarget : Page → Entry → Type 0
IsTarget p target =
    (is_leaf p && (target.recno == 0) || not (is_leaf p) && (target.pno == 0)) ≡ false

abbrev pub entered : Page → ℕ → Entry → Page
entered p r t = put p r (record (p.entries r) { recno = t.recno; key = t.key })

abbrev pub after_entry : Page → ℕ → Entry → Page
after_entry p r t =
    put (entered p r t) (r + 1) (record ((entered p r t).entries (r + 1)) { pno = t.pno })

pub insert_entry_lem :
    (p : Page) (pno r : ℕ) (t : Entry)
    → IsTarget p t
    → r + 1 ≤ p.entry_cnt
    → insert_entry p pno r t
      ≡ ok (after_entry p r t, if is_leaf (after_entry p r t) then some (pno, r) else none)
unfolding insert_entry put
insert_entry_lem p pno r t valid h =
    rw
      (
        valid,
        record_lem p r (t.recno) (t.key) (omega arith),
        pageno_lem (entered p r t) (r + 1) (t.pno) (omega arith),
      )
      refl

pub shifted_leaf : (r n : ℕ) (p p' : Page) → Slid r n p p' → is_leaf p' ≡ is_leaf p
unfolding is_leaf
shifted_leaf r n p p' s = ground (arith, s.pno_at 0)

pub entry_leaf : (p : Page) (r : ℕ) (t : Entry) → is_leaf (after_entry p r t) ≡ is_leaf p
unfolding is_leaf put
entry_leaf p r t = ground arith

entered-Inserted :
    (r n : ℕ) (t : Entry) (p q : Page)
    → r + n ≡ p.entry_cnt
    → Slid r n (record p { entry_cnt = p.entry_cnt + 1 }) q
    → Inserted r t p (after_entry q r t)
unfolding put
entered-Inserted r n t p q e s = record {
  counted = s.same_cnt;
  recno_at = λ i h. ground (arith, s.recno_at i, e);
  key_at = λ i h. ground (arith, s.key_at i, e);
  pno_at = λ i h. ground (arith, s.pno_at i, e);
}

-- Into a page with room an entry is put at any place up to the count: the entries from there on move up
-- by one, each with the page on its right, the page of the target stands on the right of its key, the
-- count grows by one, and no entry is refused. In a leaf the index is positioned on the new entry.
pub insert_in_page-Inserted :
    (p : Page) (pno r : ℕ) (t : Entry)
    → IsTarget p t
    → r ≤ p.entry_cnt
    → (p' : Page) × (insert_in_page p pno r t ≡ ok (p', if is_leaf p then some (pno, r) else none))
      × Inserted r t p p'
unfolding insert_in_page
insert_in_page-Inserted p pno r t valid h =
    let n = p.entry_cnt - r in
    let s = shift-Slid r n (record p { entry_cnt = p.entry_cnt + 1 }) (omega arith) in
    let leaf : is_leaf (s.0) ≡ is_leaf p = shifted_leaf r n _ (s.0) (s.2) in
    (
      after_entry (s.0) r t,
      rw
          (
            s.1,
            insert_entry_lem (s.0) pno r t (rw leaf valid) (omega (arith, s.2.same_cnt)),
            entry_leaf (s.0) r t,
            leaf,
          )
          refl,
      entered-Inserted r n t p (s.0) (omega arith) (s.2),
    )
