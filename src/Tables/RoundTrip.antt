-- ===== src/Tables/RoundTrip.antt =====
-- server/dbe/db.c: a field descriptor that is written and read again.
use db3w.Common.{
  ℕ, zero, suc, ◌+◌, ◌-◌, ◌*◌, ◌%◌, ◌≤◌, ◌<◌, ◌≡◌, refl, ap, ◌∙◌, Bool, true, ◌&&◌, not, List, [],
  ◌∷◌, ◌++◌, Option, some, ◌==◌, if◌then◌else◌, get_elem?, length, inl, inr, Bool-cases, arith,
}
use db3w.Tables.{
  Format, fldnamelen, fldwd, Field, is_valid_field, copied_name, zeros, write_field, text_upto,
  read_field,
}

abbrev pub no_null : List ℕ → Bool
no_null [] = true
no_null (c ∷ s) = not (c == 0) && no_null s

text_upto-zeros : (n : ℕ) (x : List ℕ) → text_upto n (copied_name n [] ++ x) ≡ []
unfolding text_upto copied_name
text_upto-zeros zero x = refl
text_upto-zeros (suc n) x = refl

name_back :
    (n : ℕ) (s x : List ℕ)
    → length s ≤ n
    → no_null s ≡ true
    → text_upto n (copied_name n s ++ x) ≡ s
unfolding text_upto copied_name
name_back zero [] x l h = refl
name_back zero (c ∷ s) x l h = absurd (omega arith)
name_back (suc n) [] x l h = text_upto-zeros (suc n) x
name_back (suc n) (c ∷ s) x l h = elim (Bool-cases (c == 0)) [
  | inl z ↦ absurd (ground arith)
  | inr nz ↦ rw (nz, nz) (ap (λ t. c ∷ t) (name_back n s x (omega (arith, l)) (ground arith)))
]

length-copied_name : (n : ℕ) (s : List ℕ) → length (copied_name n s) ≡ n
unfolding copied_name
length-copied_name zero s = refl
length-copied_name (suc n) [] = ap suc (length-copied_name n [])
length-copied_name (suc n) (c ∷ s) = ground (arith, length-copied_name n s, length-copied_name n [])

get_elem-append : (a x : List ℕ) (m k : ℕ) → m ≡ length a + k → get_elem? (a ++ x) m ≡ get_elem? x k
get_elem-append [] x m k h = ap (λ i. get_elem? x i) (zero_plus m k h)
  where
    zero_plus : (m k : ℕ) → m ≡ 0 + k → m ≡ k
    zero_plus m k h = omega (arith, h)
get_elem-append (c ∷ a) x zero k h = absurd (omega (arith, h))
get_elem-append (c ∷ a) x (suc m) k h = get_elem-append a x m k (omega (arith, h))

-- A byte behind the name.
behind_name :
    (mkr : Format) (s x : List ℕ) (k : ℕ)
    → get_elem? (copied_name (fldnamelen mkr) s ++ x) (fldnamelen mkr + k) ≡ get_elem? x k
behind_name mkr s x k =
    get_elem-append (copied_name (fldnamelen mkr) s) x (fldnamelen mkr + k) k
      (omega (arith, length-copied_name (fldnamelen mkr) s))

-- What makes a field valid, as far as its bytes matter.
fits_bytes :
    (f : Field)
    → is_valid_field f ≡ true
    → (f.ftype < 256) × (f.dlength < 256) × ((f.ftype == b'C') ≡ true → f.dlength ≡ 0)
unfolding is_valid_field
fits_bytes f h = (ground arith, ground arith, ground arith)

text_len :
    (f : Field)
    → is_valid_field f ≡ true
    → (if f.ftype == b'C' then f.tlength % 256 + 256 * f.dlength else f.tlength % 256)
      ≡ f.tlength % 256
text_len f h = elim (Bool-cases (f.ftype == b'C')) [
  | inl c ↦ rw c (omega (arith, (fits_bytes f h).2 c))
  | inr d ↦ rw d refl
]

same_byte : (n : ℕ) → n < 256 → n % 256 ≡ n
same_byte n h = omega (arith, h)

module _ (mkr : Format) (s : List ℕ) (n : no_null s ≡ true) (l : length s ≤ fldnamelen mkr) where
  -- What stands in the bytes of a descriptor.
  read_bytes :
      (t low high : ℕ) (z : List ℕ)
      → read_field mkr (copied_name (fldnamelen mkr) s ++ (0 ∷ t ∷ 0 ∷ 0 ∷ 0 ∷ 0 ∷ low ∷ high ∷ z))
        ≡ some (record {
          name = s;
          ftype = t;
          tlength = if t == b'C' then low + 256 * high else low;
          dlength = high;
        })
  unfolding read_field
  read_bytes t low high z =
      let x = 0 ∷ t ∷ 0 ∷ 0 ∷ 0 ∷ 0 ∷ low ∷ high ∷ z in
      rw
        (
          behind_name mkr s x 1,
          behind_name mkr s x 6,
          behind_name mkr s x 7,
          name_back (fldnamelen mkr) s x l n,
        )
        refl

abbrev read_as : List ℕ → ℕ → ℕ → ℕ → Option Field
read_as s t a d = some (record { name = s; ftype = t; tlength = a; dlength = d })

fields_equal :
    (s : List ℕ) (t u a b c d : ℕ) → t ≡ u → a ≡ b → c ≡ d → read_as s t a c ≡ read_as s u b d
fields_equal s t u a b c d h k l = rw (h, k, l) refl

-- A valid field whose name fits, written and read, has its name, type and decimals back, and the length
-- of its last byte: a text field longer than 255 bytes comes back shorter, every other one as it was.
pub read_field-write_field :
    (mkr : Format) (f : Field)
    → is_valid_field f ≡ true
    → no_null f.name ≡ true
    → length f.name ≤ fldnamelen mkr
    → (read_field mkr (write_field mkr f) ≡ some (record f { tlength = f.tlength % 256 }))
      × ((f.tlength < 256) → read_field mkr (write_field mkr f) ≡ some f)
unfolding read_field write_field
read_field-write_field mkr f v n l =
    let (t, d, c) = fits_bytes f v in
    let back =
      read_bytes mkr f.name n l (f.ftype % 256) (f.tlength % 256) (f.dlength % 256)
        (zeros (fldwd mkr - fldnamelen mkr - 8)) in
    let same =
      fields_equal f.name (f.ftype % 256) f.ftype _ (f.tlength % 256) (f.dlength % 256) f.dlength
        (same_byte f.ftype t) (rw (same_byte f.ftype t, same_byte f.dlength d) (text_len f v))
        (same_byte f.dlength d) in
    (
      back ∙ same,
      λ h.
          back
          ∙ same
          ∙ fields_equal f.name f.ftype f.ftype (f.tlength % 256) f.tlength f.dlength f.dlength refl
              (same_byte f.tlength h) refl,
    )
