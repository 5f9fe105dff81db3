-- ===== src/Functions/Text/Pieces.antt =====
-- server/hb/fcn.c: `left`, `substr`, `stuff` and `replicate` on the parts of a text.
use db3w.Common.{
  ℕ, zero, suc, ◌+◌, ◌-◌, ◌≤◌, ◌<◌, ◌≡◌, refl, sym, ap, ◌∙◌, inl, inr, List, [], ◌∷◌, ◌++◌, none,
  some, ltb, length, take, drop, length-append, arith, Bool-cases, if◌then◌else◌,
}
use db3w.Values.{max_str_len}
use db3w.Functions.Text.{imin, piece, first_part, stuffed, copies, repeated}
use Prim.Native.Nat.{min}
use mathlib.Core.List.{append_assoc, append-nil}

module _ {ℓ} {A : Type ℓ} where
  drop_all : (n : ℕ) (v : List A) → length v ≤ n → drop n v ≡ []
  drop_all zero [] h = refl
  drop_all zero (a ∷ v) h = absurd (omega arith)
  drop_all (suc n) [] h = refl
  drop_all (suc n) (a ∷ v) h = drop_all n v (omega arith)

  take_all : (n : ℕ) (v : List A) → length v ≤ n → take n v ≡ v
  take_all zero [] h = refl
  take_all zero (a ∷ v) h = absurd (omega arith)
  take_all (suc n) [] h = refl
  take_all (suc n) (a ∷ v) h = ap (λ t. a ∷ t) (take_all n v (omega arith))

  length-take : (n : ℕ) (v : List A) → length (take n v) ≡ min n (length v)
  length-take zero v = omega arith
  length-take (suc n) [] = omega arith
  length-take (suc n) (a ∷ v) = omega (arith, length-take n v)

  pub length-drop : (n : ℕ) (v : List A) → length (drop n v) ≡ length v - n
  length-drop zero v = omega arith
  length-drop (suc n) [] = omega arith
  length-drop (suc n) (a ∷ v) = omega (arith, length-drop n v)

-- SUBSTR without a length gives the rest of the text.
rest_of : (v : List ℕ) (start : ℕ) → piece v start none ≡ drop start v
unfolding piece
rest_of v start = elim (Bool-cases (ltb start (length v))) [
  | inl below ↦
      rw below (take_all (length v - start) (drop start v) (omega (arith, length-drop start v)))
  | inr past ↦ rw past (sym (drop_all start v (ground arith)))
]

cut_at :
    (a b : ℕ) (v : List ℕ)
    → (length v < b → length v ≤ a)
    → (b ≤ length v → a ≡ b)
    → drop a v ≡ drop b v
cut_at a b v past within = elim (Bool-cases (ltb (length v) b)) [
  | inl h ↦ drop_all a v (past (ground arith)) ∙ sym (drop_all b v (ground arith))
  | inr h ↦ ap (λ n. drop n v) (within (ground arith))
]

-- The length of a text with `b` bytes behind the first `a` ones replaced.
replaced :
    (v w : List ℕ) (a b : ℕ)
    → a + b ≤ length v
    → length (take a v ++ (w ++ drop (a + b) v)) ≡ length v - b + length w
replaced v w a b h = omega (
  arith,
  length-append (take a v) (w ++ drop (a + b) v),
  length-append w (drop (a + b) v),
  length-take a v,
  length-drop (a + b) v,
)

limited :
    (t u : List ℕ) (n : ℕ)
    → t ≡ u
    → length u ≡ n
    → ((length t ≤ max_str_len) → (if ltb max_str_len n then none else some u) ≡ some t)
      × ((max_str_len < length t) → (if ltb max_str_len n then none else some u) ≡ none)
limited t u n h k = rw (h, sym k) (ground arith)

-- STUFF(v, start, len, w) is LEFT(v, start - 1), then w, then SUBSTR(v, start + len), and fails exactly
-- where that text is longer than a text may be. `start` counts from 0 here.
pub stuffed_parts :
    (v w : List ℕ) (start len : ℕ)
    → let t = first_part start v ++ (w ++ piece v (start + len) none) in
      ((length t ≤ max_str_len) → stuffed v start len w ≡ some t)
      × ((max_str_len < length t) → stuffed v start len w ≡ none)
unfolding stuffed first_part
stuffed_parts v w start len =
    let a = imin start (length v) in
    let b = imin (length v - a) len in
    limited (first_part start v ++ (w ++ piece v (start + len) none))
      (take a v ++ (w ++ drop (a + b) v)) (length v - b + length w)
      (ap (λ r. take a v ++ (w ++ r))
        (rest_of v (start + len)
          ∙ sym (cut_at (a + b) (start + len) v (λ h. ground arith) (λ h. ground arith))))
      (replaced v w a b (ground arith))

same_count : (b : List ℕ) (m n : ℕ) → m ≡ n → take m b ≡ take n b
same_count b m n h = ap (λ k. take k b) h

take_append : (n : ℕ) (a b : List ℕ) → take n (a ++ b) ≡ take n a ++ take (n - length a) b
take_append zero [] b = refl
take_append (suc n) [] b = same_count b (suc n) (suc n - 0) (omega arith)
take_append zero (x ∷ a) b = same_count b 0 (0 - suc (length a)) (omega arith)
take_append (suc n) (x ∷ a) b =
    ap (λ t. x ∷ t)
      (take_append n a b
        ∙ ap (λ r. take n a ++ r)
            (same_count b (n - length a) (suc n - suc (length a)) (omega arith)))

take-imin : (m : ℕ) (v : List ℕ) → take (imin (length v) m) v ≡ take m v
take-imin m v = elim (Bool-cases (ltb m (length v))) [
  | inl h ↦ rw h refl
  | inr h ↦ rw h (take_all (length v) v (omega arith) ∙ sym (take_all m v (ground arith)))
]

take_twice : (m : ℕ) (v : List ℕ) → take m (take m v) ≡ take m v
take_twice m v = take_all m (take m v) (omega (arith, length-take m v))

-- One round of the loop of `replicate`.
copies_round : (m : ℕ) (v r : List ℕ) → take m (take (imin (length v) m) v ++ r) ≡ take m (v ++ r)
copies_round m v r =
    ap (λ t. take m (t ++ r)) (take-imin m v)
    ∙ take_append m (take m v) r
    ∙ ap (λ t. t ++ take (m - length (take m v)) r) (take_twice m v)
    ∙ ap (λ t. take m v ++ t)
        (same_count r (m - length (take m v)) (m - length v) (omega (arith, length-take m v)))
    ∙ sym (take_append m v r)

at_most : (n m : ℕ) → imin n m ≤ m
at_most n m = ground arith

copies_from :
    (n : ℕ) (v str : List ℕ)
    → length str ≤ max_str_len
    → copies n v str ≡ take max_str_len (str ++ repeated n v)
unfolding copies repeated
copies_from zero v str h =
    sym (ap (λ t. take max_str_len t) (append-nil str) ∙ take_all max_str_len str h)
copies_from (suc n) v str h =
    let m = max_str_len - length str in
    let w = take (imin (length v) m) v in
    copies_from n v (str ++ w) (
      omega
        (arith, length-append str w, length-take (imin (length v) m) v, at_most (length v) m, h))
    ∙ ap (λ t. take max_str_len t) (append_assoc str w (repeated n v))
    ∙ take_append max_str_len str (w ++ repeated n v)
    ∙ ap (λ t. take max_str_len str ++ t) (copies_round m v (repeated n v))
    ∙ sym (take_append max_str_len str (v ++ repeated n v))

-- REPLICATE gives the repeated text, cut where a text may not be longer.
pub copies_lem : (n : ℕ) (v : List ℕ) → copies n v [] ≡ take max_str_len (repeated n v)
copies_lem n v = copies_from n v [] (omega arith)
