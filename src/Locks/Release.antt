-- ===== src/Locks/Release.antt =====
-- What a successful `r_lock` means, and what it does with an unlock.
use db3w.Common.{ℕ, ◌≡◌, ◌≢◌, ◌⊎◌, inl, inr, Bool, true, false, arith}
use db3w.Locks.{
  LockType, unlck, rdlck, wrlck, fwlck, frlck, f_unlck, f_wrlck, whole_file, Os, Ctx, ok, kind_of,
  is_rec_locked, record_range, rlock, next_try, attempts, locked, after_lock, r_lock,
}
use db3w.Locks.Truth.{OsLaws, TrueLock, Truthful, TruthAfter, r_lock-Truthful}

-- The process may write the record: it has a write lock on the record or on the file.
abbrev pub MayWrite : (O : Os) → O.Sys → Ctx → ℕ → Type 0
MayWrite O s c recno =
    O.Holds s c.fd (record_range c recno) f_wrlck ⊎ O.Holds s c.fd whole_file f_wrlck

module _ (O : Os) where
  -- A success without `exclusive` leaves the record locked, by the context's own record.
  granted :
      (c : Ctx) (recno : ℕ) (again : Bool) (s s' : O.Sys) (c' : Ctx)
      → c.exclusive ≡ false
      → r_lock O c recno wrlck again s ≡ ok (true, c', s')
      → (is_rec_locked c'.lock recno wrlck ≡ true) × (recno ≢ 0)
  unfolding r_lock is_rec_locked after_lock locked
  granted c recno again s s' c' e h = ground arith

  covers :
      (s : O.Sys) (c : Ctx) (recno r : ℕ) (l : LockType)
      → TrueLock O s c l r
      → is_rec_locked (record { type = l; mode = c.lock.mode; recno = r }) recno wrlck ≡ true
      → MayWrite O s c recno
  unfolding is_rec_locked
  covers s c recno r wrlck (h, n) t = let e : r ≡ recno = ground arith in inl (rw e at h)
  covers s c recno r fwlck h t = inr h
  covers s c recno r frlck h t = ground arith
  covers s c recno r rdlck h t = ground arith
  covers s c recno r unlck h t = ground arith

  -- Over a system that keeps what it grants, and for a context that is not `exclusive` and says the
  -- truth about its lock, a successful request for a write lock means that the process has a write lock
  -- on the record or on the file, and the context says so. With `exclusive` no lock is asked for.
  pub r_lock_grants :
      (L : OsLaws O) (c : Ctx) (recno : ℕ) (again : Bool) (s s' : O.Sys) (c' : Ctx)
      → Truthful O s c
      → c.exclusive ≡ false
      → r_lock O c recno wrlck again s ≡ ok (true, c', s')
      → (is_rec_locked c'.lock recno wrlck ≡ true) × Truthful O s' c' × MayWrite O s' c' recno
  r_lock_grants L c recno again s s' c' t e h =
      let g = granted c recno again s s' c' e h in
      let after : TruthAfter O (ok (true, c', s')) =
        rw h at (r_lock-Truthful L c recno wrlck again s t) in
      (g.0, after, covers s' c' recno c'.lock.recno c'.lock.type after g.0)

  -- The unlock of a record that the context has write-locked is reported as done, asks the system for
  -- nothing, and leaves the context as it was.
  pub r_lock_write_unlock :
      (c : Ctx) (again : Bool) (s : O.Sys)
      → c.in_use ≡ true
      → c.lock.type ≡ wrlck
      → c.lock.recno ≢ 0
      → r_lock O c c.lock.recno unlck again s ≡ ok (true, c, s)
  unfolding r_lock is_rec_locked
  r_lock_write_unlock c again s u t n = ground arith

  -- A read lock is released: where the system finds the file and clears the lock at the first request,
  -- the context is left with no lock.
  pub r_lock_read_unlock :
      (c : Ctx) (again : Bool) (s s' : O.Sys)
      → c.in_use ≡ true
      → c.exclusive ≡ false
      → c.lock.type ≡ rdlck
      → c.lock.recno ≢ 0
      → O.fstat s c.fd ≡ true
      → O.setlk s c.fd (record_range c c.lock.recno) f_unlck ≡ (true, s')
      → r_lock O c c.lock.recno unlck again s
        ≡ ok (true, record c { lock = record { type = unlck; mode = 0; recno = c.lock.recno } }, s')
  unfolding r_lock is_rec_locked attempts next_try rlock kind_of after_lock locked
  r_lock_read_unlock c again s s' u x t n f k = ground arith
