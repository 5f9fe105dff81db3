-- ===== src/Tables/Header.antt =====
-- server/dbe/db.c: the fixed part of the header of a table file, on a host of little byte order.
pub mod WriteRead
use db3w.Common.{
  ℕ, ◌+◌, ◌-◌, ◌%◌, ◌^◌, ◌||◌, List, ◌∷◌, ◌++◌, Option, none, some, ltb, leb, ◌==◌, if◌then◌else◌,
  drop, get_elem?, ◌>>=◌,
}
use db3w.Common.Int.{ℤ, pos, negsuc}
use db3w.Ports.{little, get, bytes}
use db3w.Tables.{Format, db3, db5}

abbrev pub max_hdlen : ℕ
max_hdlen = 65536

abbrev pub max_recsz : ℕ
max_recsz = 65536

abbrev pub hdrsz : ℕ
hdrsz = 64

-- The sizes of the record count, and of the data offset and the record length.
abbrev pub count_size : Format → ℕ
count_size db3 = 4
count_size db5 = 8

abbrev pub offset_size : Format → ℕ
offset_size db3 = 2
offset_size db5 = 4

pub record Header : Type 0 where
  pub id : ℕ
  pub reccnt : ℕ
  pub doffset : ℕ
  pub byprec : ℕ

-- `MKR_MASK & id`.
unfoldable pub marker : ℕ → Option Format
marker id = if id % 8 == 3 then some db3 else if id % 8 == 5 then some db5 else none

-- A negative offset stands for the default; the data never begins inside the header.
unfoldable pub data_offset : ℕ → ℤ → ℕ
data_offset hdlen (negsuc _) = if ltb max_hdlen hdlen then hdlen else max_hdlen
data_offset hdlen (pos d) = if ltb d hdlen then hdlen else d

-- `rest` is what the buffer holds behind the record length.
pub fixed_part : Format → Header → List ℕ → List ℕ
fixed_part mkr h rest =
    h.id % 256
    ∷ 80
    ∷ 1
    ∷ 1
    ∷ (bytes (count_size mkr) h.reccnt
        ++ (bytes (offset_size mkr) h.doffset ++ (bytes (offset_size mkr) h.byprec ++ rest)))

-- The offset of the header is replaced by `data_offset` before it is written.
unfoldable pub with_offset : ℕ → ℤ → Header → Header
unfolding data_offset
with_offset hdlen doffset h = record h { doffset = data_offset hdlen doffset }

pub write_hdr : ℕ → ℤ → Header → List ℕ → Option (List ℕ)
unfolding fixed_part marker with_offset
write_hdr hdlen doffset h rest =
    marker h.id >>= λ mkr. some (fixed_part mkr (with_offset hdlen doffset h) rest)

-- The checks of the numbers: the offset is an `int`, and a record count of all ones is refused.
pub checked_hdr : Header → Option Header
checked_hdr h =
    if leb (2 ^ 31) h.doffset || (ltb max_recsz h.byprec || (h.reccnt == 2 ^ 64 - 1))
    then none
    else some h

pub read_numbers : Format → ℕ → List ℕ → Option Header
unfolding checked_hdr
read_numbers mkr id tp =
    let c = 4 + count_size mkr in
    get little (offset_size mkr) (drop c tp) >>= λ offset.
    get little (offset_size mkr) (drop (c + offset_size mkr) tp) >>= λ byprec.
    get little (count_size mkr) (drop 4 tp) >>= λ reccnt.
    checked_hdr (record { id = id; reccnt = reccnt; doffset = offset; byprec = byprec })

-- Both formats are held to the size of the longer header. `none` is the result -1.
pub read_hdr : ℕ → List ℕ → Option Header
unfolding marker read_numbers
read_hdr buf_size tp = get_elem? tp 0 >>= λ id.
    marker id >>= λ mkr. if ltb buf_size hdrsz then none else read_numbers mkr id tp
