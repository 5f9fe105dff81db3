-- ===== src/Tables/Tests.antt =====
-- A descriptor at concrete fields.
use db3w.Common.{◌≤◌, ◌>>=◌, none, [], ◌<◌, ◌≡◌, refl, some, arith}
use db3w.Common.Int.{pos}
use db3w.Common.Text.{codes}
use db3w.Tables.{
  Field, db3, db5, is_valid_field, write_field, read_field, copied_name, zeros, text_upto,
}
use db3w.Tables.Header.{Header, marker, with_offset, data_offset, write_hdr, read_hdr}
use db3w.Tables.Header.WriteRead.{read_hdr-write_hdr}
use db3w.Tables.RoundTrip.{read_field-write_field}

-- A text field of 300 bytes.
abbrev remark : Field
remark = record { name = codes "REMARK"; ftype = b'C'; tlength = 300; dlength = 0 }

read_field_test : read_field db5 (write_field db5 remark) ≡ some (record remark { tlength = 44 })
unfolding read_field write_field copied_name zeros text_upto
read_field_test = refl

read_field-write_field_example :
    (read_field db5 (write_field db5 remark) ≡ some (record remark { tlength = 44 }))
    × ((300 < 256) → read_field db5 (write_field db5 remark) ≡ some remark)
unfolding is_valid_field
read_field-write_field_example = read_field-write_field db5 remark refl refl (omega arith)

marker_test : marker 3 ≡ some db3
unfolding marker
marker_test = refl

-- A table in the format of dBASE III with two fields.
abbrev small_table : Header
small_table = record { id = 3; reccnt = 1000; doffset = 97; byprec = 31 }

read_hdr-write_hdr_example :
    ((64 ≤ 32)
      → (write_hdr 97 (pos 97) small_table [] >>= read_hdr 32)
        ≡ some (with_offset 97 (pos 97) small_table))
    × ((32 < 64) → (write_hdr 97 (pos 97) small_table [] >>= read_hdr 32) ≡ none)
unfolding with_offset data_offset
read_hdr-write_hdr_example =
    read_hdr-write_hdr db3 97 (pos 97) small_table [] 32 marker_test
      (omega arith, omega arith, omega arith, omega arith, omega arith, omega arith, omega arith)
