-- ===== src/Tables.antt =====
-- server/dbe/db.c: the descriptors of the fields in the header of a table file, as `write_db_hdr` writes
-- and `read_db_hdr` reads them. The buffer is zero before a header is written.
pub mod RoundTrip
pub mod Header
pub mod Tests
use db3w.Common.{
  ℕ, zero, suc, ◌+◌, ◌-◌, ◌*◌, ◌%◌, Bool, true, false, ◌&&◌, ◌||◌, not, List, [], ◌∷◌, ◌++◌, Option,
  none, some, ltb, leb, ◌==◌, if◌then◌else◌, get_elem?, ◌>>=◌,
}
use db3w.Values.{max_str_len}

-- The marker of the file: dBASE III, or the longer headers of the server.
pub data Format : Type 0 where
  db3 db5 : Format

abbrev pub fldnamelen : Format → ℕ
fldnamelen db3 = 10
fldnamelen db5 = 20

abbrev pub fldwd : Format → ℕ
fldwd db3 = 32
fldwd db5 = 64

-- The name is the text in front of its null byte.
pub record Field : Type 0 where
  pub name : List ℕ
  pub ftype : ℕ
  pub tlength : ℕ
  pub dlength : ℕ

abbrev pub max_digits : ℕ
max_digits = 20

abbrev pub date_len : ℕ
date_len = 8

abbrev pub memo_len : ℕ
memo_len = 10

pub is_valid_field : Field → Bool
is_valid_field f =
    if f.ftype == b'C'
    then (f.dlength == 0) && (leb 1 f.tlength && leb f.tlength max_str_len)
    else if f.ftype == b'N'
    then (leb 1 f.tlength && leb f.tlength max_digits) && ltb f.dlength f.tlength
    else if f.ftype == b'L'
    then (f.dlength == 0) && (f.tlength == 1)
    else if f.ftype == b'D'
    then (f.dlength == 0) && (f.tlength == date_len)
    else if f.ftype == b'M'
    then (f.dlength == 0) && (f.tlength == memo_len)
    else false

-- `strncpy` into `n` bytes.
pub copied_name : ℕ → List ℕ → List ℕ
copied_name zero s = []
copied_name (suc n) [] = 0 ∷ copied_name n []
copied_name (suc n) (c ∷ s) =
    let rest = copied_name n s in
    let zeros = copied_name n [] in if c == 0 then 0 ∷ zeros else c ∷ rest

pub zeros : ℕ → List ℕ
zeros zero = []
zeros (suc n) = 0 ∷ zeros n

-- The bytes of a descriptor: the length takes one byte, whatever the field.
pub write_field : Format → Field → List ℕ
unfolding copied_name zeros
write_field mkr f =
    copied_name (fldnamelen mkr) f.name
    ++ (0
        ∷ f.ftype % 256
        ∷ 0
        ∷ 0
        ∷ 0
        ∷ 0
        ∷ f.tlength % 256
        ∷ f.dlength % 256
        ∷ zeros (fldwd mkr - fldnamelen mkr - 8))

-- The text of at most `n` bytes in front of a null byte.
pub text_upto : ℕ → List ℕ → List ℕ
text_upto zero tp = []
text_upto (suc n) [] = []
text_upto (suc n) (c ∷ tp) = let rest = text_upto n tp in if c == 0 then [] else c ∷ rest

-- The length of a text has two bytes, and `dlength` is the second of them for every field: the `else`
-- of the source covers one statement. `none` is a read behind the buffer.
pub read_field : Format → List ℕ → Option Field
unfolding text_upto
read_field mkr tp = get_elem? tp (fldnamelen mkr + 1) >>= λ t.
    get_elem? tp (fldnamelen mkr + 6) >>= λ low. get_elem? tp (fldnamelen mkr + 7) >>= λ high.
    some (record {
      name = text_upto (fldnamelen mkr) tp;
      ftype = t;
      tlength = if t == b'C' then low + 256 * high else low;
      dlength = high;
    })
