-- ===== src/Ports/RoundTrip.antt =====
-- What is written in a buffer is read back, on hosts of either byte order.
use mathlib.Core.List.{reverse, reverse-reverse, reverse-cons, append-nil}
use native.Mathlib.Nat.{pow-suc}
use db3w.Common.{
  ℕ, zero, suc, ◌*◌, ◌/◌, ◌^◌, ◌≤◌, ◌<◌, ◌≡◌, refl, sym, ap, ◌∙◌, List, [], ◌∷◌, ◌++◌, Option, none,
  some, get_elem?, ◌>>=◌, length, length-append, arith,
}
use db3w.Ports.{
  ByteOrder, little, big, bytes, of_bytes, copy_up, copy_down, memory, value, overwrite, get, put,
  read, write,
}

bytes-length : (size n : ℕ) → length (bytes size n) ≡ size
unfolding bytes
bytes-length zero n = refl
bytes-length (suc size) n = ap suc (bytes-length size (n / 256))

of_bytes-bytes : (size n : ℕ) → n < 256 ^ size → of_bytes (bytes size n) ≡ n
unfolding bytes of_bytes
of_bytes-bytes zero n h = omega arith
of_bytes-bytes (suc size) n h =
    let step : 256 ^ suc size ≡ 256 ^ size * 256 = pow-suc 256 size in
    let small : n / 256 < 256 ^ size = omega arith in
    omega (arith, of_bytes-bytes size (n / 256) small)

copy_up_lem : (s rest : List ℕ) → copy_up (length s) (s ++ rest) ≡ some s
unfolding copy_up
copy_up_lem [] rest = refl
copy_up_lem (b ∷ s) rest = rw (copy_up_lem s rest) refl

snoc : Option (List ℕ) → ℕ → Option (List ℕ)
snoc o b = o >>= λ s. some (s ++ (b ∷ []))

snoc-cons :
    (c : Option ℕ) (o : Option (List ℕ)) (b : ℕ)
    → (c >>= λ x. snoc o b >>= λ s. some (x ∷ s)) ≡ snoc (c >>= λ x. o >>= λ s. some (x ∷ s)) b
unfolding snoc
snoc-cons none o b = refl
snoc-cons (some x) none b = refl
snoc-cons (some x) (some s) b = refl

copy_down-snoc : (k b : ℕ) (tp : List ℕ) → copy_down (suc k) (b ∷ tp) ≡ snoc (copy_down k tp) b
unfolding copy_down snoc
copy_down-snoc zero b tp = refl
copy_down-snoc (suc k) b tp =
    rw (copy_down-snoc k b tp) (snoc-cons (get_elem? tp k) (copy_down k tp) b)

copy_down_lem : (s rest : List ℕ) → copy_down (length s) (s ++ rest) ≡ some (reverse s)
unfolding copy_down snoc
copy_down_lem [] rest = refl
copy_down_lem (b ∷ s) rest =
    copy_down-snoc (length s) b (s ++ rest)
    ∙ rw (copy_down_lem s rest) (ap some (sym (reverse-cons b s)))

overwrite_lem :
    (s tp : List ℕ) → length s ≤ length tp → (rest : List ℕ) × (overwrite s tp ≡ some (s ++ rest))
unfolding overwrite
overwrite_lem [] tp h = (tp, refl)
overwrite_lem (b ∷ s) [] h = absurd (omega arith)
overwrite_lem (b ∷ s) (c ∷ tp) h = let r = overwrite_lem s tp (omega arith) in (r.0, rw (r.1) refl)

value-memory :
    (host : ByteOrder) (size n : ℕ) → n < 256 ^ size → value host (memory host size n) ≡ n
unfolding value memory
value-memory little size n h = of_bytes-bytes size n h
value-memory big size n h = rw (reverse-reverse (bytes size n)) (of_bytes-bytes size n h)

length-reverse : (s : List ℕ) → length (reverse s) ≡ length s
length-reverse [] = refl
length-reverse (b ∷ s) =
    rw (reverse-cons b s) (omega (arith, length-append (reverse s) (b ∷ []), length-reverse s))

memory-length : (host : ByteOrder) (size n : ℕ) → length (memory host size n) ≡ size
unfolding memory
memory-length little size n = bytes-length size n
memory-length big size n = length-reverse (bytes size n) ∙ bytes-length size n

up : (size : ℕ) (s rest : List ℕ) → length s ≡ size → copy_up size (s ++ rest) ≡ some s
up size s rest e = rw (sym e) (copy_up_lem s rest)

down :
    (size : ℕ) (s rest : List ℕ) → length s ≡ size → copy_down size (s ++ rest) ≡ some (reverse s)
down size s rest e = rw (sym e) (copy_down_lem s rest)

up_all : (size : ℕ) (s : List ℕ) → length s ≡ size → copy_up size s ≡ some s
up_all size s e = rw (append-nil s) at (up size s [] e)

down_all : (size : ℕ) (s : List ℕ) → length s ≡ size → copy_down size s ≡ some (reverse s)
down_all size s e = rw (append-nil s) at (down size s [] e)

put_lem :
    (host : ByteOrder) (size : ℕ) (tp : List ℕ) (n : ℕ)
    → size ≤ length tp
    → (rest : List ℕ) × (put host size tp n ≡ some (memory host size n ++ rest))
unfolding put
put_lem host size tp n l =
    let e = memory-length host size n in
    let r = overwrite_lem (memory host size n) tp (omega (arith, e, l)) in
    (r.0, rw (up_all size (memory host size n) e) (r.1))

get-put :
    (host : ByteOrder) (size : ℕ) (tp : List ℕ) (n : ℕ)
    → n < 256 ^ size
    → size ≤ length tp
    → (put host size tp n >>= get host size) ≡ some n
unfolding get
get-put host size tp n h l =
    let r = put_lem host size tp n l in
    rw (r.1, up size (memory host size n) (r.0) (memory-length host size n))
      (ap some (value-memory host size n h))

-- On a host of big byte order `write_…` leaves in a buffer what `put_…` leaves there on a host of little
-- byte order: files do not depend on the host.
pub write-put : (size : ℕ) (tp : List ℕ) (n : ℕ) → write size tp n ≡ put little size tp n
unfolding write put memory
write-put size tp n =
    rw
      (
        down_all size (memory big size n) (memory-length big size n),
        up_all size (memory little size n) (memory-length little size n),
        reverse-reverse (bytes size n),
      )
      refl

-- A number that fits its size and stands in a buffer that is long enough, stored by a host of either
-- byte order, is got back there; one that a host of big byte order writes to a file is read back by that
-- host and by a host of little byte order.
pub read-write :
    (size : ℕ) (tp : List ℕ) (n : ℕ)
    → n < 256 ^ size
    → size ≤ length tp
    → ((write size tp n >>= read size) ≡ some n)
      × ((write size tp n >>= get little size) ≡ some n)
      × ((host : ByteOrder) → (put host size tp n >>= get host size) ≡ some n)
unfolding read memory
read-write size tp n h l =
    let r = put_lem little size tp n l in
    let e = memory-length little size n in
    (
      rw (write-put size tp n, r.1, down size (memory little size n) (r.0) e)
          (ap some (value-memory big size n h)),
      rw (write-put size tp n) (get-put little size tp n h l),
      (λ host. get-put host size tp n h l),
    )

-- The bytes of a number, the least one first, with any others behind them.
pub get-bytes :
    (size n : ℕ) (rest : List ℕ) → n < 256 ^ size → get little size (bytes size n ++ rest) ≡ some n
unfolding get memory value
get-bytes size n rest h =
    rw (get, up size (bytes size n) rest (bytes-length size n))
      (ap some (value-memory little size n h))
