-- ===== src/Btree/Deletion/Closing.antt =====
-- The entries of a leaf without one of them.
use db3w.Common.{ℕ, zero, suc, ◌+◌, ◌-◌, ◌≤◌, ◌<◌, ◌≡◌, refl, true, arith, if◌then◌else◌, ltb}
use db3w.Pages.{Page, put, move_entry, ok}
use db3w.Pages.Insert.{pnos, recnos, keys, get_entry_lem, pageno_lem, record_lem}
use db3w.Btree.{done}
use db3w.Btree.Deletion.{close, take_out, pageno_at}

abbrev pub NoPages : Page → Type 0
NoPages p = (i : ℕ) → i ≤ p.entry_cnt → (p.entries i).pno ≡ 0

-- The array without what stands at `r`, where `n` elements stand behind it.
abbrev pub closed : {A : Type 0} → ℕ → ℕ → (ℕ → A) → ℕ → A
closed r n f i = if ltb i r then f i else if ltb i (r + n) then f (i + 1) else f i

record Closed (r n : ℕ) (p p' : Page) : Type 0 where
  same_cnt : p'.entry_cnt ≡ p.entry_cnt
  recno_at : (i : ℕ) → recnos p' i ≡ closed r n (recnos p) i
  key_at : (i : ℕ) → keys p' i ≡ closed r n (keys p) i
  no_pages : NoPages p'

abbrev moved : Page → ℕ → Page
moved p r =
    let m = put p (r + 1) (record (p.entries (r + 1)) { pno = pnos p (r + 2) }) in
    put m r (record (m.entries r) { recno = recnos p (r + 1); key = keys p (r + 1) })

moved_lem : (p : Page) (r : ℕ) → r + 2 ≤ p.entry_cnt → move_entry p (r + 1) p r ≡ ok (moved p r)
unfolding move_entry
moved_lem p r h =
    let two : r + 1 + 1 ≡ r + 2 = omega arith in
    rw
      (
        get_entry_lem p (r + 1) (omega arith),
        get_entry_lem p r (omega arith),
        two,
        get_entry_lem p (r + 2) (omega arith),
      )
      (record_lem (put p (r + 1) (record (p.entries (r + 1)) { pno = pnos p (r + 2) })) r
        (recnos p (r + 1)) (keys p (r + 1)) (omega arith))

close_lem :
    (k r : ℕ) (p : Page)
    → r + k + 1 ≤ p.entry_cnt
    → NoPages p
    → (p' : Page) × (close r k p ≡ done p') × Closed r k p p'
unfolding close put
close_lem zero r p h z = (
  p,
  refl,
  record {
    same_cnt = refl;
    recno_at = λ i. ground arith;
    key_at = λ i. ground arith;
    no_pages = z;
  },
)
close_lem (suc k) r p h z =
    let m = moved p r in
    let rest = close_lem k (r + 1) m (omega arith) (λ i l. ground (arith, z i, z (r + 2))) in
    (
      rest.0,
      rw (moved_lem p r (omega arith)) (rest.1),
      record {
        same_cnt = rest.2.same_cnt;
        recno_at = λ i. ground (arith, rest.2.recno_at i);
        key_at = λ i. ground (arith, rest.2.key_at i);
        no_pages = rest.2.no_pages;
      },
    )

-- The page `p'` is the leaf `p` without the entry `r`.
pub record Taken (r : ℕ) (p p' : Page) : Type 0 where
  pub counted : p'.entry_cnt + 1 ≡ p.entry_cnt
  pub recno_at :
      (i : ℕ) → i < p'.entry_cnt → recnos p' i ≡ (if ltb i r then recnos p i else recnos p (i + 1))
  pub key_at :
      (i : ℕ) → i < p'.entry_cnt → keys p' i ≡ (if ltb i r then keys p i else keys p (i + 1))
  pub no_pages : NoPages p'

pub take_out-Taken :
    (r : ℕ) (p : Page)
    → r < p.entry_cnt
    → NoPages p
    → (p' : Page) × (take_out r p ≡ done p') × Taken r p p'
unfolding take_out pageno_at put
take_out-Taken r p h z =
    let k = p.entry_cnt - 1 - r in
    let c = close_lem k r p (omega arith) z in
    let q = c.0 in
    let facts = c.2 in
    let below : ltb r p.entry_cnt ≡ true = ground arith in
    let q' : Page = put q r (record (q.entries r) { pno = pnos p (r + 1) }) in
    (
      record q' { entry_cnt = q'.entry_cnt - 1 },
      rw
          (
            below,
            get_entry_lem p (r + 1) (omega arith),
            c.1,
            pageno_lem q r (pnos p (r + 1)) (omega (arith, facts.same_cnt)),
          )
          refl,
      record {
        counted = omega (arith, facts.same_cnt);
        recno_at = λ i l. ground (arith, facts.recno_at i, facts.same_cnt);
        key_at = λ i l. ground (arith, facts.key_at i, facts.same_cnt);
        no_pages = λ i l. ground (arith, facts.no_pages i, facts.same_cnt, z (r + 1));
      },
    )
