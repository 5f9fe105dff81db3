-- ===== src/Keys/Order.antt =====
-- `skcmp` as an order of the keys of one length, for the search in an index.
use db3w.Common.{
  ℕ, zero, suc, ◌≡◌, refl, Bool, true, false, List, [], ◌∷◌, Option, none, some, arith, length,
}
use db3w.Common.Int.{ℤ, pos}
use db3w.Keys.{skcmp, skcmp_from}
use db3w.Keys.Text.{no_zero}
use db3w.Btree.{positive, negative, is_zero}
use db3w.Btree.Order.{KeyOrder}

-- The result, where no byte is read behind a key.
abbrev pub result : Option ℤ → ℤ
result none = pos 0
result (some c) = c

abbrev pub TextKey : ℕ → List ℕ → Type 0
TextKey n p = (length p ≡ n) × (no_zero p ≡ true)

pub above_from :
    (l l' : Bool) (n : ℕ) (t x y : List ℕ)
    → length x ≡ n
    → length y ≡ n
    → no_zero x ≡ true
    → positive (result (skcmp_from l' n x y)) ≡ false
    → positive (result (skcmp_from l n t y)) ≡ true
    → positive (result (skcmp_from l n t x)) ≡ true
unfolding skcmp_from no_zero
above_from l l' zero t x y ex ey zx le h = h
above_from l l' (suc n) [] x y ex ey zx le h = h
above_from l l' (suc n) (a ∷ t) [] y ex ey zx le h = absurd (omega arith)
above_from l l' (suc n) (a ∷ t) (b ∷ x) [] ex ey zx le h = absurd (omega arith)
above_from l l' (suc n) (a ∷ t) (b ∷ x) (c ∷ y) ex ey zx le h =
    ground (arith, above_from true true n t x y (omega arith) (omega arith))

pub below_from :
    (l l' : Bool) (n : ℕ) (t x y : List ℕ)
    → length x ≡ n
    → length y ≡ n
    → no_zero x ≡ true
    → positive (result (skcmp_from l' n x y)) ≡ false
    → negative (result (skcmp_from l n t x)) ≡ true
    → negative (result (skcmp_from l n t y)) ≡ true
unfolding skcmp_from no_zero
below_from l l' zero t x y ex ey zx le h = h
below_from l l' (suc n) [] x y ex ey zx le h = h
below_from l l' (suc n) (a ∷ t) [] y ex ey zx le h = absurd (omega arith)
below_from l l' (suc n) (a ∷ t) (b ∷ x) [] ex ey zx le h = absurd (omega arith)
below_from l l' (suc n) (a ∷ t) (b ∷ x) (c ∷ y) ex ey zx le h =
    ground (arith, below_from true true n t x y (omega arith) (omega arith))

pub above_equal_from :
    (l l' : Bool) (n : ℕ) (t x y : List ℕ)
    → TextKey n t
    → TextKey n x
    → TextKey n y
    → negative (result (skcmp_from l' n x y)) ≡ true
    → is_zero (result (skcmp_from l n t y)) ≡ true
    → positive (result (skcmp_from l n t x)) ≡ true
unfolding skcmp_from no_zero
above_equal_from l l' zero t x y (et, zt) (ex, zx) (ey, zy) le h = absurd (cc)
above_equal_from l l' (suc n) [] x y (et, zt) (ex, zx) (ey, zy) le h = absurd (omega arith)
above_equal_from l l' (suc n) (a ∷ t) [] y (et, zt) (ex, zx) (ey, zy) le h = absurd (omega arith)
above_equal_from l l' (suc n) (a ∷ t) (b ∷ x) [] (et, zt) (ex, zx) (ey, zy) le h =
    absurd (omega arith)
above_equal_from l l' (suc n) (a ∷ t) (b ∷ x) (c ∷ y) (et, zt) (ex, zx) (ey, zy) le h =
    let ih = λ (z : no_zero t ≡ true) (w : no_zero x ≡ true) (v : no_zero y ≡ true).
      above_equal_from true true n t x y (omega arith, z) (omega arith, w) (omega arith, v) in
    ground (arith, ih)

pub below_equal_from :
    (l l' : Bool) (n : ℕ) (t x y : List ℕ)
    → TextKey n t
    → TextKey n x
    → TextKey n y
    → negative (result (skcmp_from l' n x y)) ≡ true
    → is_zero (result (skcmp_from l n t x)) ≡ true
    → negative (result (skcmp_from l n t y)) ≡ true
unfolding skcmp_from no_zero
below_equal_from l l' zero t x y (et, zt) (ex, zx) (ey, zy) le h = absurd (cc)
below_equal_from l l' (suc n) [] x y (et, zt) (ex, zx) (ey, zy) le h = absurd (omega arith)
below_equal_from l l' (suc n) (a ∷ t) [] y (et, zt) (ex, zx) (ey, zy) le h = absurd (omega arith)
below_equal_from l l' (suc n) (a ∷ t) (b ∷ x) [] (et, zt) (ex, zx) (ey, zy) le h =
    absurd (omega arith)
below_equal_from l l' (suc n) (a ∷ t) (b ∷ x) (c ∷ y) (et, zt) (ex, zx) (ey, zy) le h =
    let ih = λ (z : no_zero t ≡ true) (w : no_zero x ≡ true) (v : no_zero y ≡ true).
      below_equal_from true true n t x y (omega arith, z) (omega arith, w) (omega arith, v) in
    ground (arith, ih)

pub flip_above_from :
    (l l' : Bool) (n : ℕ) (x y : List ℕ)
    → TextKey n x
    → TextKey n y
    → positive (result (skcmp_from l n x y)) ≡ true
    → negative (result (skcmp_from l' n y x)) ≡ true
unfolding skcmp_from no_zero
flip_above_from l l' zero x y (ex, zx) (ey, zy) h = absurd (cc)
flip_above_from l l' (suc n) [] y (ex, zx) (ey, zy) h = absurd (omega arith)
flip_above_from l l' (suc n) (b ∷ x) [] (ex, zx) (ey, zy) h = absurd (omega arith)
flip_above_from l l' (suc n) (b ∷ x) (c ∷ y) (ex, zx) (ey, zy) h =
    let ih = λ (w : no_zero x ≡ true) (v : no_zero y ≡ true).
      flip_above_from true true n x y (omega arith, w) (omega arith, v) in
    ground (arith, ih)

pub flip_equal_from :
    (l l' : Bool) (n : ℕ) (x y : List ℕ)
    → TextKey n x
    → TextKey n y
    → is_zero (result (skcmp_from l n x y)) ≡ true
    → is_zero (result (skcmp_from l' n y x)) ≡ true
unfolding skcmp_from no_zero
flip_equal_from l l' zero x y (ex, zx) (ey, zy) h = refl
flip_equal_from l l' (suc n) [] y (ex, zx) (ey, zy) h = absurd (omega arith)
flip_equal_from l l' (suc n) (b ∷ x) [] (ex, zx) (ey, zy) h = absurd (omega arith)
flip_equal_from l l' (suc n) (b ∷ x) (c ∷ y) (ex, zx) (ey, zy) h =
    let ih = λ (w : no_zero x ≡ true) (v : no_zero y ≡ true).
      flip_equal_from true true n x y (omega arith, w) (omega arith, v) in
    ground (arith, ih)

pub equal_self_from :
    (l : Bool) (n : ℕ) (x : List ℕ) → TextKey n x → is_zero (result (skcmp_from l n x x)) ≡ true
unfolding skcmp_from no_zero
equal_self_from l zero x (e, z) = refl
equal_self_from l (suc n) [] (e, z) = absurd (omega arith)
equal_self_from l (suc n) (a ∷ x) (e, z) =
    let ih = λ (w : no_zero x ≡ true). equal_self_from true n x (omega arith, w) in
    ground (arith, ih)

-- `skcmp` on the keys of an index of length `n` whose bytes are not zero.
unfoldable pub text_order : ℕ → KeyOrder
unfolding skcmp
text_order n = record {
  compare = λ p q. result (skcmp p q n);
  IsKey = TextKey n;
  above_of = λ t x y kx ky. above_from false false n t x y (kx.0) (ky.0) (kx.1);
  below_of = λ t x y kx ky. below_from false false n t x y (kx.0) (ky.0) (kx.1);
  above_of_equal = λ t x y. above_equal_from false false n t x y;
  below_of_equal = λ t x y. below_equal_from false false n t x y;
  below_of_above = λ x y. flip_above_from false false n x y;
  equal_self = λ x. equal_self_from false n x;
  equal_of_equal = λ x y. flip_equal_from false false n x y;
}
