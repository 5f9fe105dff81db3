-- ===== src/Pages/Split/Moves.antt =====
-- What moves and insertions leave, field by field.
use db3w.Common.{ℕ, zero, suc, ◌+◌, ◌-◌, ◌≤◌, ◌≡◌, refl, ◌∙◌, ◌&&◌, ltb, leb, if◌then◌else◌, arith}
use db3w.Pages.{Page, ok, put, move_entry}
use db3w.Pages.Insert.{pnos, recnos, keys, overwritten, get_entry_lem, record_lem, pageno_lem}
use db3w.Pages.Split.{move_range}

module _ {A : Type 0} where
  -- The `k` elements of `f` from `a` on stand in `g` from `b` on.
  abbrev pub copied : ℕ → ℕ → ℕ → (ℕ → A) → (ℕ → A) → ℕ → A
  copied a b k f g i = if leb b i && ltb i (b + k) then f (a + (i - b)) else g i

  copied-suc :
      (a b k : ℕ) (f g h : ℕ → A) (i : ℕ)
      → h i ≡ overwritten b (f a) g i
      → copied (a + 1) (b + 1) k f h i ≡ copied a b (suc k) f g i
  copied-suc a b k f g h i e =
      let at : ((b ≤ i) → (i ≡ b) → a + (i - b) ≡ a) = λ l q. omega arith in
      let next : (b + 1 ≤ i → a + 1 + (i - (b + 1)) ≡ a + (i - b)) = λ l. omega arith in
      ground (arith, e, at, next)

-- The arrays of `q'` are those of `q` after a range of moves from `p`.
pub record Copied (a b k : ℕ) (p q q' : Page) : Type 0 where
  pub same_cnt : q'.entry_cnt ≡ q.entry_cnt
  pub recno_at : (i : ℕ) → recnos q' i ≡ copied a b k (recnos p) (recnos q) i
  pub key_at : (i : ℕ) → keys q' i ≡ copied a b k (keys p) (keys q) i
  pub pno_at : (i : ℕ) → pnos q' i ≡ copied (a + 1) (b + 1) k (pnos p) (pnos q) i

abbrev with_pno : Page → ℕ → Page → ℕ → Page
with_pno p a q b = put q (b + 1) (record (q.entries (b + 1)) { pno = pnos p (a + 1) })

abbrev with_entry : Page → ℕ → Page → ℕ → Page
with_entry p a q b =
    put (with_pno p a q b) b
      (record ((with_pno p a q b).entries b) { recno = recnos p a; key = keys p a })

move_entry_lem :
    (p q : Page) (a b : ℕ)
    → a + 1 ≤ p.entry_cnt
    → b + 1 ≤ q.entry_cnt
    → move_entry p a q b ≡ ok (with_entry p a q b)
unfolding move_entry put
move_entry_lem p q a b h l =
    rw
      (
        get_entry_lem p a (omega arith),
        get_entry_lem q b (omega arith),
        get_entry_lem p (a + 1) (omega arith),
        pageno_lem q (b + 1) (pnos p (a + 1)) (omega arith),
      )
      (record_lem (with_pno p a q b) b (recnos p a) (keys p a) (omega arith))

pub move_range-Copied :
    (a b k : ℕ) (p q : Page)
    → a + k ≤ p.entry_cnt
    → b + k ≤ q.entry_cnt
    → (q' : Page) × (move_range a b k p q ≡ ok q') × Copied a b k p q q'
unfolding move_range put
move_range-Copied a b zero p q h l = (
  q,
  refl,
  record {
    same_cnt = refl;
    recno_at = λ i. ground arith;
    key_at = λ i. ground arith;
    pno_at = λ i. ground arith;
  },
)
move_range-Copied a b (suc k) p q h l =
    let m = with_entry p a q b in
    let s = move_range-Copied (a + 1) (b + 1) k p m (omega arith) (omega arith) in
    (
      s.0,
      rw (move_entry_lem p q a b (omega arith) (omega arith)) (s.1),
      record {
        same_cnt = s.2.same_cnt;
        recno_at = λ i.
            s.2.recno_at i ∙ copied-suc a b k (recnos p) (recnos q) (recnos m) i (ground arith);
        key_at = λ i. s.2.key_at i ∙ copied-suc a b k (keys p) (keys q) (keys m) i (ground arith);
        pno_at = λ i.
            s.2.pno_at i ∙ copied-suc (a + 1) (b + 1) k (pnos p) (pnos q) (pnos m) i (ground arith);
      },
    )
