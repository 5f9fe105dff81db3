-- ===== src/Ports.antt =====
-- server/hb/port.c: numbers in buffers. `get_…` and `put_…` copy the bytes of the host, for machines that
-- need alignment; `read_…` and `write_…`, compiled on a host of big byte order, turn them around. A
-- number is its bit pattern, below 256 ^ size; `none` is a read behind the buffer.
pub mod RoundTrip
pub mod Tests
use mathlib.Core.List.{reverse}
use db3w.Common.{
  ℕ, zero, suc, ◌+◌, ◌*◌, ◌/◌, ◌%◌, List, [], ◌∷◌, ◌++◌, Option, none, some, get_elem?, ◌>>=◌,
}

pub data ByteOrder : Type 0 where
  little big : ByteOrder

-- The bytes of a number, the least one first.
unfoldable pub bytes : ℕ → ℕ → List ℕ
bytes zero n = []
bytes (suc size) n = n % 256 ∷ bytes size (n / 256)

pub of_bytes : List ℕ → ℕ
of_bytes [] = 0
of_bytes (b ∷ s) = b + 256 * of_bytes s

-- `i` counts up from 0: `*ip++ = *tp++`.
pub copy_up : ℕ → List ℕ → Option (List ℕ)
copy_up zero tp = some []
copy_up (suc size) [] = none
copy_up (suc size) (b ∷ tp) = copy_up size tp >>= λ s. some (b ∷ s)

-- `i` counts down from `size - 1`: `*ip++ = tp[i]`.
pub copy_down : ℕ → List ℕ → Option (List ℕ)
copy_down zero tp = some []
copy_down (suc i) tp = get_elem? tp i >>= λ b. copy_down i tp >>= λ s. some (b ∷ s)

-- The bytes of a number in the memory of a host, and back.
pub memory : ByteOrder → ℕ → ℕ → List ℕ
memory little size n = bytes size n
memory big size n = reverse (bytes size n)

pub value : ByteOrder → List ℕ → ℕ
value little s = of_bytes s
value big s = of_bytes (reverse s)

-- The buffer after its first bytes have been written.
pub overwrite : List ℕ → List ℕ → Option (List ℕ)
overwrite [] tp = some tp
overwrite (b ∷ s) [] = none
overwrite (b ∷ s) (_ ∷ tp) = overwrite s tp >>= λ rest. some (b ∷ rest)

pub get : ByteOrder → ℕ → List ℕ → Option ℕ
get host size tp = copy_up size tp >>= λ s. some (value host s)

pub put : ByteOrder → ℕ → List ℕ → ℕ → Option (List ℕ)
put host size tp n = copy_up size (memory host size n) >>= λ s. overwrite s tp

pub read : ℕ → List ℕ → Option ℕ
read size tp = copy_down size tp >>= λ s. some (value big s)

pub write : ℕ → List ℕ → ℕ → Option (List ℕ)
write size tp n = copy_down size (memory big size n) >>= λ s. overwrite s tp

abbrev pub get_short : ByteOrder → List ℕ → Option ℕ
get_short host = get host 2

abbrev pub get_long : ByteOrder → List ℕ → Option ℕ
get_long host = get host 8

abbrev pub get_foff : ByteOrder → List ℕ → Option ℕ
get_foff host = get host 8

abbrev pub get_double : ByteOrder → List ℕ → Option ℕ
get_double host = get host 8

abbrev pub put_short : ByteOrder → List ℕ → ℕ → Option (List ℕ)
put_short host = put host 2

abbrev pub put_long : ByteOrder → List ℕ → ℕ → Option (List ℕ)
put_long host = put host 8

abbrev pub put_foff : ByteOrder → List ℕ → ℕ → Option (List ℕ)
put_foff host = put host 8

abbrev pub put_double : ByteOrder → List ℕ → ℕ → Option (List ℕ)
put_double host = put host 8

abbrev pub read_short : List ℕ → Option ℕ
read_short = read 2

abbrev pub read_long : List ℕ → Option ℕ
read_long = read 8

abbrev pub read_foff : List ℕ → Option ℕ
read_foff = read 8

abbrev pub read_double : List ℕ → Option ℕ
read_double = read 8

abbrev pub write_short : List ℕ → ℕ → Option (List ℕ)
write_short = write 2

abbrev pub write_long : List ℕ → ℕ → Option (List ℕ)
write_long = write 8

abbrev pub write_foff : List ℕ → ℕ → Option (List ℕ)
write_foff = write 8

abbrev pub write_double : List ℕ → ℕ → Option (List ℕ)
write_double = write 8
