-- ===== src/Tables/Header/WriteRead.antt =====
-- server/dbe/db.c: a table header that is written and read again.
use db3w.Common.{
  ℕ, ◌-◌, ◌%◌, ◌^◌, ◌<◌, ◌≤◌, ◌≡◌, refl, ap, ◌∙◌, false, ◌||◌, ◌==◌, List, ◌++◌, none, some, ltb,
  leb, ◌>>=◌, arith, le→not-ltb, lt→ltb,
}
use db3w.Common.Int.{ℤ}
use db3w.Ports.{bytes}
use db3w.Ports.RoundTrip.{get-bytes}
use db3w.Tables.{Format, db3, db5}
use db3w.Tables.Header.{
  max_recsz, hdrsz, count_size, offset_size, Header, marker, fixed_part, with_offset, write_hdr,
  checked_hdr, read_numbers, read_hdr,
}

-- The numbers of a header fit the fields of its format.
abbrev pub FitsFormat : Format → Header → Type 0
FitsFormat mkr h =
    (h.id < 256)
    × (h.reccnt < 256 ^ count_size mkr)
    × (h.reccnt < 2 ^ 64 - 1)
    × (h.doffset < 256 ^ offset_size mkr)
    × (h.doffset < 2 ^ 31)
    × (h.byprec < 256 ^ offset_size mkr)
    × (h.byprec ≤ max_recsz)

checked_lem : (mkr : Format) (h : Header) → FitsFormat mkr h → checked_hdr h ≡ some h
unfolding checked_hdr
checked_lem mkr h f = rw (in_range h.doffset h.byprec h.reccnt (f.4) (f.6) (f.2)) refl
  where
    in_range :
        (d b r : ℕ)
        → d < 2 ^ 31
        → b ≤ max_recsz
        → r < 2 ^ 64 - 1
        → leb (2 ^ 31) d || (ltb max_recsz b || (r == 2 ^ 64 - 1)) ≡ false
    in_range d b r x y z = ground arith

numbers_back :
    (mkr : Format) (h : Header) (rest : List ℕ)
    → FitsFormat mkr h
    → read_numbers mkr h.id (fixed_part mkr h rest) ≡ some h
unfolding read_numbers fixed_part bytes
numbers_back db3 h rest f =
    rw
      (
        get-bytes 2 h.doffset (bytes 2 h.byprec ++ rest) (f.3),
        get-bytes 2 h.byprec rest (f.5),
        get-bytes 4 h.reccnt (bytes 2 h.doffset ++ (bytes 2 h.byprec ++ rest)) (f.1),
      )
      (checked_lem db3 h f)
numbers_back db5 h rest f =
    rw
      (
        get-bytes 4 h.doffset (bytes 4 h.byprec ++ rest) (f.3),
        get-bytes 4 h.byprec rest (f.5),
        get-bytes 8 h.reccnt (bytes 4 h.doffset ++ (bytes 4 h.byprec ++ rest)) (f.1),
      )
      (checked_lem db5 h f)

byte_id : (n : ℕ) → n < 256 → n % 256 ≡ n
byte_id n h = omega (arith, h)

-- A header that fits its format, written with the offset that `with_offset` gives and read from a
-- buffer of at least the size of the longer header, comes back. From a smaller one it is refused in
-- either format, also where that is all of the shorter header.
pub read_hdr-write_hdr :
    (mkr : Format) (hdlen : ℕ) (doffset : ℤ) (h : Header) (rest : List ℕ) (buf_size : ℕ)
    → marker h.id ≡ some mkr
    → FitsFormat mkr (with_offset hdlen doffset h)
    → ((hdrsz ≤ buf_size)
        → (write_hdr hdlen doffset h rest >>= read_hdr buf_size)
          ≡ some (with_offset hdlen doffset h))
      × ((buf_size < hdrsz) → (write_hdr hdlen doffset h rest >>= read_hdr buf_size) ≡ none)
unfolding write_hdr read_hdr fixed_part with_offset
read_hdr-write_hdr mkr hdlen doffset h rest buf_size m f =
    let w = with_offset hdlen doffset h in
    let e = byte_id h.id (f.0) in
    let m' = ap marker e ∙ m in
    (
      λ l.
          rw (m, m', le→not-ltb hdrsz buf_size l)
            (ap (λ i. read_numbers mkr i (fixed_part mkr w rest)) e ∙ numbers_back mkr w rest f),
      λ l. rw (m, m', lt→ltb buf_size hdrsz l) refl,
    )
