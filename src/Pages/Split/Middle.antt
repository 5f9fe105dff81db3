-- ===== src/Pages/Split/Middle.antt =====
-- A split page holds what an insertion would have left in one page.
use db3w.Common.{
  ℕ, ◌+◌, ◌-◌, ◌/◌, ◌≤◌, ◌<◌, ◌≡◌, refl, ◌∙◌, false, Option, [], ltb, ◌==◌, arith, Bool-cases, inl,
  inr,
}
use db3w.Pages.{Entry, Page, ok, put, is_leaf}
use db3w.Pages.Insert.{
  pnos, recnos, keys, inserted, overwritten, IsTarget, shift-Slid, insert_entry_lem, after_entry,
  shifted_leaf, entry_leaf,
}
use db3w.Pages.Split.{Halves, new_page, split_at, split_below, split_above, split}
use db3w.Pages.Split.Moves.{Copied, copied, move_range-Copied}
use db3w.Pages.Split.Cut.{Cut, halves, cut_lem, position_of, risen, middle_lem}

at-Cut :
    (n pno pn3 : ℕ) (p : Page) (t : Entry)
    → IsTarget p t
    → n + 1 ≤ p.entry_cnt
    → (h : Halves) × (split_at n pno pn3 p n t ≡ ok h) × Cut n pn3 n t p h
unfolding split_at new_page put
at-Cut n pno pn3 p t valid l =
    let m = p.entry_cnt - n in
    let s = move_range-Copied n 0 m p (new_page m) (omega arith) (omega arith) in
    let p' = after_entry p n t in
    let leaf = entry_leaf p n t in
    (
      halves n pn3 p' (s.0) t (position_of p' pno n),
      rw (s.1, insert_entry_lem p pno n t valid l)
          (cut_lem n pn3 p' (s.0) t (position_of p' pno n) l),
      record {
        left_cnt = rw leaf refl;
        right_cnt = s.2.same_cnt;
        left_recno = λ i h. ground arith;
        left_key = λ i h. ground arith;
        left_pno = λ i h. ground arith;
        right_recno = λ i h. ground (arith, s.2.recno_at i);
        right_key = λ i h. ground (arith, s.2.key_at i);
        right_pno = λ i h. ground (arith, s.2.pno_at i);
        up_recno = ground arith;
        up_key = ground arith;
        up_pno = refl;
      },
    )

below-Cut :
    (n pno pn3 r : ℕ) (p : Page) (t : Entry)
    → IsTarget p t
    → r < n
    → n + 1 ≤ p.entry_cnt
    → (h : Halves) × (split_below n pno pn3 p r t ≡ ok h) × Cut n pn3 r t p h
unfolding split_below new_page put
below-Cut n pno pn3 r p t valid b l =
    let m = p.entry_cnt - n in
    let s = move_range-Copied n 0 m p (new_page m) (omega arith) (omega arith) in
    let d = shift-Slid r (n - r) p (omega arith) in
    let p' = after_entry (d.0) r t in
    let leaf : is_leaf p' ≡ is_leaf p =
      entry_leaf (d.0) r t ∙ shifted_leaf r (n - r) p (d.0) (d.2) in
    let room : n + 1 ≤ p'.entry_cnt = omega (arith, d.2.same_cnt, l) in
    (
      halves n pn3 p' (s.0) (risen n p' t) (position_of p' pno r),
      rw
          (
            s.1,
            d.1,
            insert_entry_lem (d.0) pno r t (rw (shifted_leaf r (n - r) p (d.0) (d.2)) valid)
                (omega (arith, d.2.same_cnt)),
            middle_lem n p' t (omega (arith, room)),
          )
          (cut_lem n pn3 p' (s.0) (risen n p' t) (position_of p' pno r) room),
      record {
        left_cnt = rw leaf refl;
        right_cnt = s.2.same_cnt;
        left_recno = λ i h. ground (arith, d.2.recno_at i);
        left_key = λ i h. ground (arith, d.2.key_at i);
        left_pno = λ i h. ground (arith, d.2.pno_at i);
        right_recno = λ i h. ground (arith, s.2.recno_at i);
        right_key = λ i h. ground (arith, s.2.key_at i);
        right_pno = λ i h. ground (arith, s.2.pno_at i, d.2.pno_at (n + 1));
        up_recno = ground (arith, d.2.recno_at n);
        up_key = ground (arith, d.2.key_at n);
        up_pno = refl;
      },
    )

fresh-IsTarget :
    (a k m : ℕ) (p q : Page) (t : Entry)
    → Copied a 0 k p (new_page m) q
    → (t.recno == 0) ≡ false
    → IsTarget q t
unfolding new_page is_leaf
fresh-IsTarget a k m p q t s h = ground (arith, s.pno_at 0)

module _ {A : Type 0} where
  right_field :
      (n r N i : ℕ) (f g k g' : ℕ → A) (x z : A)
      → n < r
      → r ≤ N
      → i < N - n
      → g i ≡ copied (n + 1) 0 (r - (n + 1)) f (λ _. z) i
      → k i ≡ overwritten (r - n - 1) x g i
      → g' i ≡ copied r (r - n) (N - r) f k i
      → g' i ≡ inserted r x f (i + n + 1)
  right_field n r N i f g k g' x z b l h e o e' = ground (arith, e, o, e')

  right_link :
      (n r N i : ℕ) (f g k g' : ℕ → A) (x z : A)
      → n < r
      → r ≤ N
      → i ≤ N - n
      → g i ≡ copied (n + 1 + 1) 1 (r - (n + 1)) f (λ _. z) i
      → k i ≡ overwritten (r - n - 1 + 1) x g i
      → g' i ≡ copied (r + 1) (r - n + 1) (N - r) f k i
      → overwritten 0 (f (n + 1)) g' i ≡ inserted (r + 1) x f (i + n + 1)
  right_link n r N i f g k g' x z b l h e o e' = ground (arith, e, o, e')

put_first :
    (q : Page) (pno i : ℕ)
    → pnos (put q 0 (record (q.entries 0) { pno = pno })) i ≡ overwritten 0 pno (pnos q) i
unfolding put
put_first q pno i = ground arith

put_first_recno :
    (q : Page) (pno i : ℕ) → recnos (put q 0 (record (q.entries 0) { pno = pno })) i ≡ recnos q i
unfolding put
put_first_recno q pno i = ground arith

put_first_key :
    (q : Page) (pno i : ℕ) → keys (put q 0 (record (q.entries 0) { pno = pno })) i ≡ keys q i
unfolding put
put_first_key q pno i = ground arith

above-halves :
    (n pn3 r : ℕ) (p q q' : Page) (t : Entry) (pos : Option (ℕ × ℕ))
    → n < r
    → r ≤ p.entry_cnt
    → Copied (n + 1) 0 (r - (n + 1)) p (new_page (p.entry_cnt - n)) q
    → Copied r (r - n) (p.entry_cnt - r) p (after_entry q (r - n - 1) t) q'
    → Cut n pn3 r t p (halves n pn3 p q' (risen n p t) pos)
unfolding new_page put
above-halves n pn3 r p q q' t pos b l s d =
    let e = after_entry q (r - n - 1) t in
    record {
      left_cnt = refl;
      right_cnt = d.same_cnt ∙ s.same_cnt;
      left_recno = λ i h. ground arith;
      left_key = λ i h. ground arith;
      left_pno = λ i h. ground arith;
      right_recno = λ i h.
          put_first_recno q' (pnos p (n + 1)) i
          ∙ right_field n r (p.entry_cnt) i (recnos p) (recnos q) (recnos e) (recnos q') (t.recno) 0
              b l h (s.recno_at i) (ground arith) (d.recno_at i);
      right_key = λ i h.
          put_first_key q' (pnos p (n + 1)) i
          ∙ right_field n r (p.entry_cnt) i (keys p) (keys q) (keys e) (keys q') (t.key) [] b l h
              (s.key_at i) (ground arith) (d.key_at i);
      right_pno = λ i h.
          put_first q' (pnos p (n + 1)) i
          ∙ (right_link n r (p.entry_cnt) i (pnos p) (pnos q) (pnos e) (pnos q') (t.pno) 0 b l h
              (s.pno_at i) (ground arith) (d.pno_at i));
      up_recno = ground arith;
      up_key = ground arith;
      up_pno = refl;
    }

above-Cut :
    (n pno pn3 r : ℕ) (p : Page) (t : Entry)
    → (t.recno == 0) ≡ false
    → n < r
    → r ≤ p.entry_cnt
    → (h : Halves) × (split_above n pno pn3 p r t ≡ ok h) × Cut n pn3 r t p h
unfolding split_above new_page put
above-Cut n pno pn3 r p t valid b l =
    let m = p.entry_cnt - n in
    let s = move_range-Copied (n + 1) 0 (r - (n + 1)) p (new_page m) (omega arith) (omega arith) in
    let q = after_entry (s.0) (r - n - 1) t in
    let d =
      move_range-Copied r (r - n) (p.entry_cnt - r) p q (omega arith)
        (omega (arith, s.2.same_cnt)) in
    (
      halves n pn3 p (d.0) (risen n p t) (position_of q pn3 (r - n - 1)),
      rw
          (
            s.1,
            insert_entry_lem (s.0) pn3 (r - n - 1) t
                (fresh-IsTarget (n + 1) (r - (n + 1)) m p (s.0) t (s.2) valid)
                (omega (arith, s.2.same_cnt)),
            d.1,
            middle_lem n p t (omega arith),
          )
          (cut_lem n pn3 p (d.0) (risen n p t) (position_of q pn3 (r - n - 1)) (omega arith)),
      above-halves n pn3 r p (s.0) (d.0) t (position_of q pn3 (r - n - 1)) b l (s.2) (d.2),
    )

-- For a target with a record number and, in a page that is no leaf, a page number, no entry is refused
-- in the split of a full page. It puts the target in and cuts the page at its half: both pages and the
-- entry that goes up between them hold, field by field, what an insertion of the target at its place
-- would have left in one page; a leaf keeps the entry that goes up.
pub split-Cut :
    (pno pn3 r : ℕ) (p : Page) (t : Entry)
    → IsTarget p t
    → (t.recno == 0) ≡ false
    → 1 ≤ p.entry_cnt
    → r ≤ p.entry_cnt
    → (h : Halves) × (split pno pn3 p r t ≡ ok h) × Cut (p.entry_cnt / 2) pn3 r t p h
unfolding split
split-Cut pno pn3 r p t valid named full l =
    let n = p.entry_cnt / 2 in
    elim (Bool-cases (r == n)) [
      | inl same ↦
          let e : r ≡ n = ground (arith, same) in
          rw same (rw e (at-Cut n pno pn3 p t valid (omega arith)))
      | inr differ ↦ rw differ (elim (Bool-cases (ltb r n)) [
        | inl below ↦
            rw below (below-Cut n pno pn3 r p t valid (ground (arith, below)) (omega arith))
        | inr above ↦ rw above (above-Cut n pno pn3 r p t named (ground (arith, above, differ)) l)
      ])
    ]
