-- ===== src/Ports/Tests.antt =====
-- The round trips at a concrete buffer.
use db3w.Common.{ℕ, ◌≡◌, some, [], ◌∷◌, List, arith, ◌>>=◌}
use db3w.Ports.{ByteOrder, little, get, put, read, write}
use db3w.Ports.RoundTrip.{write-put, read-write}

abbrev buffer : List ℕ
buffer = 9 ∷ 9 ∷ 9 ∷ []

write-put_example : write 2 buffer 300 ≡ put little 2 buffer 300
write-put_example = write-put 2 buffer 300

read-write_example :
    ((write 2 buffer 300 >>= read 2) ≡ some 300)
    × ((write 2 buffer 300 >>= get little 2) ≡ some 300)
    × ((host : ByteOrder) → (put host 2 buffer 300 >>= get host 2) ≡ some 300)
read-write_example = read-write 2 buffer 300 (omega arith) (omega arith)
