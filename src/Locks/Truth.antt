-- ===== src/Locks/Truth.antt =====
-- A context's record of its lock says what the system holds for the process.
use db3w.Common.{
  ℕ, zero, suc, ◌≡◌, ◌≢◌, refl, inl, inr, Bool, true, false, ◌&&◌, ◌||◌, not, arith, ◌==◌,
  if◌then◌else◌, Bool-cases,
}
use db3w.Locks.{
  LockType, unlck, rdlck, wrlck, fwlck, frlck, Kind, f_unlck, f_rdlck, f_wrlck, Range, whole_file,
  Os, Ctx, lretry, Result, ok, err, ◌>>=◌, same_lock, kind_of, is_rec_locked, record_range, rlock,
  next_try, attempts, locked, after_lock, r_lock, unlocked, f_unlock, file_locked, file_kind,
  next_file_try, file_attempts, f_lock,
}

-- What fcntl(2) and usleep(3) promise: a lock that is set is held, and neither a refused request nor
-- waiting takes a lock away.
pub record OsLaws (O : Os) : Type 1 where
  pub setlk_holds :
      (s : O.Sys) (fd : ℕ) (r : Range) (k : Kind) (s' : O.Sys)
      → O.setlk s fd r k ≡ (true, s')
      → k ≢ f_unlck
      → O.Holds s' fd r k
  pub setlk_refused :
      (s : O.Sys) (fd : ℕ) (r : Range) (k : Kind) (s' : O.Sys)
      → O.setlk s fd r k ≡ (false, s')
      → (fd' : ℕ) (r' : Range) (k' : Kind) → O.Holds s fd' r' k'
      → O.Holds s' fd' r' k'
  pub usleep_keeps :
      (s : O.Sys) (t fd : ℕ) (r : Range) (k : Kind)
      → O.Holds s fd r k
      → O.Holds (O.usleep s t) fd r k

named_recno : (recno : ℕ) → (recno == 0) ≡ false → recno ≢ 0
named_recno recno h = ground arith

module _ (O : Os) where
  -- Every lock of the first state is held in the second.
  abbrev pub Keeps : O.Sys → O.Sys → Type 0
  Keeps s s' = (fd : ℕ) (r : Range) (k : Kind) → O.Holds s fd r k → O.Holds s' fd r k

  abbrev pub TrueLock : O.Sys → Ctx → LockType → ℕ → Type 0
  TrueLock s c rdlck recno = O.Holds s c.fd (record_range c recno) f_rdlck × (recno ≢ 0)
  TrueLock s c wrlck recno = O.Holds s c.fd (record_range c recno) f_wrlck × (recno ≢ 0)
  TrueLock s c fwlck recno = O.Holds s c.fd whole_file f_wrlck
  TrueLock s c frlck recno = O.Holds s c.fd whole_file f_rdlck
  TrueLock s c unlck recno = Unit {0}

  -- What the context says of its lock holds in the system; a record lock names a record.
  abbrev pub Truthful : O.Sys → Ctx → Type 0
  Truthful s c = TrueLock s c c.lock.type c.lock.recno

  -- A result after which the context is truthful.
  abbrev pub TruthAfter : Result (Bool × Ctx × O.Sys) → Type 0
  TruthAfter (ok (b, c, s)) = Truthful s c
  TruthAfter (err e) = Unit {0}

module _ {O : Os} (L : OsLaws O) where
  abbrev Gained : O.Sys → ℕ → Range → LockType → Type 0
  Gained s fd range rdlck = O.Holds s fd range f_rdlck
  Gained s fd range wrlck = O.Holds s fd range f_wrlck
  Gained s fd range unlck = Unit {0}
  Gained s fd range _ = ⊥

  abbrev Tried : O.Sys → ℕ → Range → LockType → Result (Bool × O.Sys) → Type 0
  Tried s fd range type (ok (true, s')) = Gained s' fd range type
  Tried s fd range type (ok (false, s')) = Keeps O s s'
  Tried s fd range type (err e) = Unit {0}

  set-Tried :
      (s : O.Sys) (fd : ℕ) (range : Range) (type : LockType) (k : Kind) (r : Bool × O.Sys)
      → kind_of type ≡ ok k
      → O.setlk s fd range k ≡ r
      → Tried s fd range type (ok r)
  unfolding kind_of
  set-Tried s fd range rdlck k (true, s') e h =
      L.setlk_holds s fd range f_rdlck s' (ground (arith, e, h)) (λ c. cc)
  set-Tried s fd range wrlck k (true, s') e h =
      L.setlk_holds s fd range f_wrlck s' (ground (arith, e, h)) (λ c. cc)
  set-Tried s fd range unlck k (true, s') e h = tt
  set-Tried s fd range fwlck k (true, s') e h = cc
  set-Tried s fd range frlck k (true, s') e h = cc
  set-Tried s fd range type k (false, s') e h = L.setlk_refused s fd range k s' h

  asked-Tried :
      (s : O.Sys) (fd : ℕ) (range : Range) (type : LockType)
      → Tried s fd range type (kind_of type >>= λ k. ok (O.setlk s fd range k))
  unfolding kind_of
  asked-Tried s fd range rdlck = set-Tried s fd range rdlck f_rdlck _ refl refl
  asked-Tried s fd range wrlck = set-Tried s fd range wrlck f_wrlck _ refl refl
  asked-Tried s fd range unlck = set-Tried s fd range unlck f_unlck _ refl refl
  asked-Tried s fd range fwlck = tt
  asked-Tried s fd range frlck = tt

  rlock-Tried :
      (s : O.Sys) (fd : ℕ) (range : Range) (type : LockType)
      → Tried s fd range type (rlock O s fd range type)
  unfolding rlock
  rlock-Tried s fd range type = elim (Bool-cases (O.fstat s fd)) [
    | inl found ↦ rw found (asked-Tried s fd range type)
    | inr missing ↦ rw missing (λ fd r k h. h)
  ]

  Tried-trans :
      (s s' : O.Sys) (fd : ℕ) (range : Range) (type : LockType) (r : Result (Bool × O.Sys))
      → Keeps O s s'
      → Tried s' fd range type r
      → Tried s fd range type r
  Tried-trans s s' fd range type (ok (true, t)) k h = h
  Tried-trans s s' fd range type (ok (false, t)) k h = λ fd r q held. h fd r q (k fd r q held)
  Tried-trans s s' fd range type (err e) k h = tt

  next-Tried :
      (again : Bool) (s : O.Sys) (fd : ℕ) (range : Range) (type : LockType)
      (rest : O.Sys → Result (Bool × O.Sys)) (r : Result (Bool × O.Sys))
      → Tried s fd range type r
      → ((t : O.Sys) → Tried t fd range type (rest t))
      → Tried s fd range type (r >>= next_try O again rest)
  unfolding next_try
  next-Tried again s fd range type rest (ok (true, t)) h f = h
  next-Tried false s fd range type rest (ok (false, t)) h f = h
  next-Tried true s fd range type rest (ok (false, t)) h f =
      Tried-trans s _ fd range type _
        (λ fd r k held. L.usleep_keeps t 10_000 fd r k (h fd r k held)) (f _)
  next-Tried again s fd range type rest (err e) h f = tt

  attempts-Tried :
      (n : ℕ) (again : Bool) (s : O.Sys) (fd : ℕ) (range : Range) (type : LockType)
      → Tried s fd range type (attempts O n again fd range type s)
  unfolding attempts
  attempts-Tried zero again s fd range type = λ fd r k h. h
  attempts-Tried (suc n) again s fd range type =
      next-Tried again s fd range type _ (rlock O s fd range type) (rlock-Tried s fd range type)
        (λ t. attempts-Tried n again t fd range type)

  kept :
      (s s' : O.Sys) (c : Ctx) (type : LockType) (recno : ℕ)
      → Keeps O s s'
      → TrueLock O s c type recno
      → TrueLock O s' c type recno
  kept s s' c rdlck recno k (h, n) = (k _ _ _ h, n)
  kept s s' c wrlck recno k (h, n) = (k _ _ _ h, n)
  kept s s' c fwlck recno k h = k _ _ _ h
  kept s s' c frlck recno k h = k _ _ _ h
  kept s s' c unlck recno k h = tt

  Tried-TruthAfter :
      (c : Ctx) (recno : ℕ) (type : LockType) (s : O.Sys) (r : Result (Bool × O.Sys))
      → recno ≢ 0
      → Truthful O s c
      → Tried s c.fd (record_range c recno) type r
      → TruthAfter O (r >>= λ r. ok (after_lock O c recno type r))
  unfolding after_lock locked record_range
  Tried-TruthAfter c recno rdlck s (ok (true, s')) n t h = (h, n)
  Tried-TruthAfter c recno wrlck s (ok (true, s')) n t h = (h, n)
  Tried-TruthAfter c recno unlck s (ok (true, s')) n t h = tt
  Tried-TruthAfter c recno fwlck s (ok (true, s')) n t h = absurd h
  Tried-TruthAfter c recno frlck s (ok (true, s')) n t h = absurd h
  Tried-TruthAfter c recno type s (ok (false, s')) n t h = kept s s' c c.lock.type c.lock.recno h t
  Tried-TruthAfter c recno type s (err e) n t h = tt

  guard_truth :
      (b : Bool) (x y : Result (Bool × Ctx × O.Sys))
      → TruthAfter O x
      → (b ≡ false → TruthAfter O y)
      → TruthAfter O (if b then x else y)
  guard_truth true x y h k = h
  guard_truth false x y h k = k refl

  -- Over a system that keeps what it grants, `r_lock` leaves a context that says the truth about its
  -- lock if it did so before, whether the lock is granted, refused or not asked for.
  pub r_lock-Truthful :
      (c : Ctx) (recno : ℕ) (type : LockType) (again : Bool) (s : O.Sys)
      → Truthful O s c
      → TruthAfter O (r_lock O c recno type again s)
  unfolding r_lock
  r_lock-Truthful c recno type again s t = guard_truth (not c.in_use) _ _ t λ _.
      guard_truth (recno == 0) _ _ t λ named.
        guard_truth (c.readonly && same_lock type wrlck) _ _ t λ _.
          guard_truth c.exclusive _ _ t λ _.
            guard_truth (c.denywrite && same_lock type rdlck) _ _ t λ _.
              guard_truth (is_rec_locked c.lock recno type) _ _ t λ _.
                Tried-TruthAfter c recno type s
                  (attempts O lretry again c.fd (record_range c recno) type s)
                  (named_recno recno named) t
                  (attempts-Tried lretry again s c.fd (record_range c recno) type)

  unlock_truth :
      (c : Ctx) (s : O.Sys) (r : Bool × O.Sys)
      → O.setlk s c.fd whole_file f_unlck ≡ r
      → Truthful O s c
      → Truthful O (unlocked O c r).1 (unlocked O c r).0
  unfolding unlocked record_range
  unlock_truth c s (true, s') e t = tt
  unlock_truth c s (false, s') e t =
      kept s s' c c.lock.type c.lock.recno (L.setlk_refused s c.fd whole_file f_unlck s' e) t

  f_unlock-Truthful :
      (c : Ctx) (s : O.Sys) → Truthful O s c → Truthful O (f_unlock O c s).1 (f_unlock O c s).0
  unfolding f_unlock
  f_unlock-Truthful c s t = elim (Bool-cases (c.exclusive || c.denywrite)) [
    | inl stay ↦ rw stay t
    | inr go ↦ rw go (unlock_truth c s (O.setlk s c.fd whole_file f_unlck) refl t)
  ]

  file_set_truth :
      (write : Bool) (c : Ctx) (s : O.Sys) (rest : O.Sys → Bool × Ctx × O.Sys) (r : Bool × O.Sys)
      → O.setlk s c.fd whole_file (file_kind write) ≡ r
      → Truthful O s c
      → ((s' : O.Sys) → Truthful O s' c → Truthful O (rest s').2 (rest s').1)
      → Truthful O (next_file_try O write c rest r).2 (next_file_try O write c rest r).1
  unfolding next_file_try file_locked record_range
  file_set_truth true c s rest (true, s') e t f =
      L.setlk_holds s c.fd whole_file f_wrlck s' e (λ k. cc)
  file_set_truth false c s rest (true, s') e t f =
      L.setlk_holds s c.fd whole_file f_rdlck s' e (λ k. cc)
  file_set_truth write c s rest (false, s') e t f = f _ (
      kept s _ c c.lock.type c.lock.recno
        (λ fd r k h.
          L.usleep_keeps s' 10_000 fd r k
            (L.setlk_refused s c.fd whole_file (file_kind write) s' e fd r k h))
        t)

  file_attempts_truth :
      (n : ℕ) (write : Bool) (c : Ctx) (s : O.Sys)
      → Truthful O s c
      → Truthful O (file_attempts O n write c s).2 (file_attempts O n write c s).1
  unfolding file_attempts
  file_attempts_truth zero write c s t = t
  file_attempts_truth (suc n) write c s t =
      file_set_truth write c s (file_attempts O n write c)
        (O.setlk s c.fd whole_file (file_kind write)) refl t
        (λ s'. file_attempts_truth n write c s')

  guard_truth' :
      (b : Bool) (x y : Bool × Ctx × O.Sys)
      → Truthful O x.2 x.1
      → Truthful O y.2 y.1
      → Truthful O (if b then x else y).2 (if b then x else y).1
  guard_truth' true x y h k = h
  guard_truth' false x y h k = k

  f_lock-Truthful :
      (c : Ctx) (write : Bool) (s : O.Sys)
      → Truthful O s c
      → Truthful O (f_lock O c write s).2 (f_lock O c write s).1
  unfolding f_lock
  f_lock-Truthful c write s t = guard_truth' (not c.in_use) _ _ t (
      guard_truth' (c.readonly && write) _ _ t (
        guard_truth' (c.exclusive || same_lock c.lock.type fwlck) _ _ t (
          guard_truth'
            (not write
              && (c.denywrite || same_lock c.lock.type fwlck || same_lock c.lock.type frlck))
            _ _ t
            (file_attempts_truth lretry write (f_unlock O c s).0 (f_unlock O c s).1
              (f_unlock-Truthful c s t)))))

  -- Over a system that keeps what it grants, `f_lock`, whether it locks the file or not, and `f_unlock`
  -- leave a context that says the truth about its lock if it did so before.
  pub file_locks-Truthful :
      (c : Ctx) (write : Bool) (s : O.Sys)
      → Truthful O s c
      → Truthful O (f_lock O c write s).2 (f_lock O c write s).1
        × Truthful O (f_unlock O c s).1 (f_unlock O c s).0
  file_locks-Truthful c write s t = (f_lock-Truthful c write s t, f_unlock-Truthful c s t)
