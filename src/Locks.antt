-- ===== src/Locks.antt =====
-- server/dbe/lock.c: the locks of a table context. The operating system (`fstat`, `fcntl` with F_SETLK,
-- `usleep`) is the parameter `Os`. One context is modelled with the fields that its locks depend on;
-- `unlock_all` goes over the table of contexts.
pub mod Truth
pub mod Release
pub mod Tests
use db3w.Common.{
  ℕ, zero, suc, ◌+◌, ◌-◌, ◌*◌, ◌%◌, ◌^◌, Bool, true, false, ◌&&◌, ◌||◌, not, List, [], ◌∷◌, ◌==◌,
  if◌then◌else◌,
}

-- HB_UNLCK, HB_RDLCK, HB_WRLCK, HB_FWLCK, HB_FRLCK.
pub data LockType : Type 0 where
  unlck rdlck wrlck fwlck frlck : LockType

abbrev pub lock_code : LockType → ℕ
lock_code unlck = 0
lock_code rdlck = 1
lock_code wrlck = 2
lock_code fwlck = 3
lock_code frlck = 4

abbrev pub same_lock : LockType → LockType → Bool
same_lock a b = lock_code a == lock_code b

-- F_UNLCK, F_RDLCK, F_WRLCK.
pub data Kind : Type 0 where
  f_unlck f_rdlck f_wrlck : Kind

-- Bytes of a file: an offset and a length, where the length 0 reaches to the end of the file.
pub record Range : Type 0 where
  pub start : ℕ
  pub len : ℕ

abbrev pub whole_file : Range
whole_file = record { start = 0; len = 0 }

-- `setlk` is fcntl(fd, F_SETLK, …), and `true` its result 0; `Holds s fd r k` says that the process has a
-- lock of the kind on the bytes.
pub record Os : Type 1 where
  pub Sys : Type 0
  pub fstat : Sys → ℕ → Bool
  pub setlk : Sys → ℕ → Range → Kind → Bool × Sys
  pub usleep : Sys → ℕ → Sys
  pub Holds : Sys → ℕ → Range → Kind → Type 0

pub record Lock : Type 0 where
  pub type : LockType
  pub mode : ℕ
  pub recno : ℕ

pub record Ctx : Type 0 where
  pub in_use : Bool
  pub fd : ℕ
  pub lock : Lock
  pub exclusive : Bool
  pub readonly : Bool
  pub denywrite : Bool
  pub fsync : Bool
  -- The length of a record and the offset of the first one, of the table's header.
  pub byprec : ℕ
  pub doffset : ℕ

abbrev pub lretry : ℕ
lretry = 100

-- The errors that leave the functions: UNKNOWNLOCK and NONDXLOCK.
pub data Error : Type 0 where
  unknownlock nondxlock : Error

pub data Result {ℓ} (A : Type ℓ) : Type ℓ where
  ok : A → Result A
  err : Error → Result A

infixl 5 ◌>>=◌
abbrev pub ◌>>=◌ {ℓ κ} : {A : Type ℓ} {B : Type κ} → Result A → (A → Result B) → Result B
ok a >>= f = f a
err e >>= f = err e

pub kind_of : LockType → Result Kind
kind_of rdlck = ok f_rdlck
kind_of wrlck = ok f_wrlck
kind_of unlck = ok f_unlck
kind_of fwlck = err unknownlock
kind_of frlck = err unknownlock

pub is_rec_locked : Lock → ℕ → LockType → Bool
is_rec_locked l recno type =
    (same_lock type wrlck && same_lock l.type fwlck)
    || (same_lock type rdlck && (same_lock l.type fwlck || same_lock l.type frlck))
    || (((l.recno == 0) || (l.recno == recno)) && (same_lock l.type type || same_lock l.type wrlck))

-- The bytes of a record, at a 64-bit offset.
pub record_range : Ctx → ℕ → Range
record_range c recno = record {
  start = ((recno - 1) * c.byprec + c.doffset) % 2 ^ 64;
  len = c.byprec;
}

-- The lock that a successful call leaves; the mode is cleared by an unlock.
pub locked : LockType → ℕ → Lock → Lock
locked unlck recno l = record { type = unlck; mode = 0; recno = recno }
locked type recno l = record { type = type; mode = l.mode; recno = recno }

file_locked : Bool → Ctx → Ctx
file_locked true c = record c {
  lock = record { type = fwlck; mode = c.lock.mode; recno = 0 };
  fsync = false;
}
file_locked false c = record c { lock = record { type = frlck; mode = c.lock.mode; recno = 0 } }

abbrev file_kind : Bool → Kind
file_kind true = f_wrlck
file_kind false = f_rdlck

abbrev page_range : ℕ → Range
page_range pno = record { start = pno * 4096 % 2 ^ 64; len = 4096 }

module _ (O : Os) where
  open O use {Sys, fstat, setlk, usleep}

  pub rlock : Sys → ℕ → Range → LockType → Result (Bool × Sys)
  unfolding kind_of
  rlock s fd range type =
      if fstat s fd then (kind_of type >>= λ k. ok (setlk s fd range k)) else ok (false, s)

  -- What follows an attempt: the next one after 10 milliseconds, unless it was the only one.
  pub next_try : Bool → (Sys → Result (Bool × Sys)) → Bool × Sys → Result (Bool × Sys)
  next_try again rest (true, s) = ok (true, s)
  next_try false rest (false, s) = ok (false, s)
  next_try true rest (false, s) = rest (usleep s 10_000)

  pub attempts : ℕ → Bool → ℕ → Range → LockType → Sys → Result (Bool × Sys)
  unfolding next_try
  attempts zero again fd range type s = ok (false, s)
  attempts (suc n) again fd range type s =
      rlock s fd range type >>= next_try again (attempts n again fd range type)

  after_lock : Ctx → ℕ → LockType → Bool × Sys → Bool × Ctx × Sys
  unfolding locked
  after_lock c recno type (true, s) = (true, record c { lock = locked type recno c.lock }, s)
  after_lock c recno type (false, s) = (false, c, s)

  -- The Boolean is the result 0; the other result is -1.
  pub r_lock : Ctx → ℕ → LockType → Bool → Sys → Result (Bool × Ctx × Sys)
  unfolding after_lock
  r_lock c recno type do_retry s =
      if not c.in_use
      then ok (false, c, s)
      else if recno == 0
      then ok (false, c, s)
      else if c.readonly && same_lock type wrlck
      then ok (false, c, s)
      else if c.exclusive
      then ok (true, c, s)
      else if c.denywrite && same_lock type rdlck
      then ok (true, c, s)
      else if is_rec_locked c.lock recno type
      then ok (true, c, s)
      else (attempts lretry do_retry c.fd (record_range c recno) type s >>= λ r.
          ok (after_lock c recno type r))

  unlocked : Ctx → Bool × Sys → Ctx × Sys
  unlocked c (true, s) = (record c { lock = record c.lock { type = unlck }; fsync = true }, s)
  unlocked c (false, s) = (c, s)

  -- The record number and the mode of the lock are left.
  pub f_unlock : Ctx → Sys → Ctx × Sys
  unfolding unlocked
  f_unlock c s =
      if c.exclusive || c.denywrite then (c, s) else unlocked c (setlk s c.fd whole_file f_unlck)

  next_file_try : Bool → Ctx → (Sys → Bool × Ctx × Sys) → Bool × Sys → Bool × Ctx × Sys
  unfolding file_locked
  next_file_try write c rest (true, s) = (true, file_locked write c, s)
  next_file_try write c rest (false, s) = rest (usleep s 10_000)

  pub file_attempts : ℕ → Bool → Ctx → Sys → Bool × Ctx × Sys
  unfolding next_file_try
  file_attempts zero write c s = (false, c, s)
  file_attempts (suc n) write c s =
      next_file_try write c (file_attempts n write c) (setlk s c.fd whole_file (file_kind write))

  -- The argument `exclusive` of the source is `write` here.
  pub f_lock : Ctx → Bool → Sys → Bool × Ctx × Sys
  f_lock c write s =
      if not c.in_use
      then (false, c, s)
      else if c.readonly && write
      then (false, c, s)
      else if c.exclusive || same_lock c.lock.type fwlck
      then (true, c, s)
      else if not write
          && (c.denywrite || same_lock c.lock.type fwlck || same_lock c.lock.type frlck)
      then (true, c, s)
      else (let (c', s') = f_unlock c s in file_attempts lretry write c' s')

  -- Every context in use is unlocked, whatever the system says.
  pub unlock_all : List Ctx → Sys → List Ctx × Sys
  unlock_all [] s = ([], s)
  unlock_all (c ∷ cs) s =
      if c.in_use
      then (let (done, s') = setlk s c.fd whole_file f_unlck in
          let (rest, s'') = unlock_all cs s' in
          (record c { lock = record { type = unlck; mode = 0; recno = 0 } } ∷ rest, s''))
      else (let (rest, s'') = unlock_all cs s in (c ∷ rest, s''))

  held : Bool × Sys → Result Sys
  held (true, s) = ok s
  held (false, s) = err nondxlock

  -- `fd` is the descriptor of the current index.
  pub ndx_lock : Ctx → ℕ → ℕ → LockType → Sys → Result Sys
  unfolding held
  ndx_lock c fd pno type s =
      if c.exclusive || (same_lock type rdlck && c.denywrite)
      then ok s
      else (attempts lretry true fd (page_range pno) type s >>= held)

  pub ndx_unlock : Ctx → ℕ → Sys → Result Sys
  ndx_unlock c fd s =
      if c.exclusive || c.denywrite then ok s else (rlock s fd whole_file unlck >>= λ r. ok r.1)
