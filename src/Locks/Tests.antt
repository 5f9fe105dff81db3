-- ===== src/Locks/Tests.antt =====
-- The theorems on locks at a concrete system: a list of the locks that are set, which refuses every
-- request on descriptor 9 and which an unlock empties.
use db3w.Common.{
  ℕ, ◌≡◌, refl, ◌⊎◌, inl, inr, true, false, List, [], ◌∷◌, arith, ◌==◌, if◌then◌else◌, ◌≢◌,
  Bool-cases, sym,
}
use db3w.Locks.{
  LockType, unlck, wrlck, Kind, f_unlck, f_rdlck, f_wrlck, Range, Os, Ctx, is_rec_locked,
  record_range, r_lock, f_unlock, f_lock, attempts, rlock,
}
use db3w.Locks.Truth.{OsLaws, Truthful, TruthAfter, r_lock-Truthful, file_locks-Truthful}
use db3w.Locks.Release.{MayWrite, r_lock_grants}

abbrev Table : Type 0
Table = List (ℕ × Range × Kind)

abbrev Held : Table → ℕ × Range × Kind → Type 0
Held [] e = ⊥
Held (x ∷ xs) e = (x ≡ e) ⊎ Held xs e

abbrev change : Table → ℕ → Range → Kind → Table
change s fd r f_unlck = []
change s fd r f_rdlck = (fd, r, f_rdlck) ∷ s
change s fd r f_wrlck = (fd, r, f_wrlck) ∷ s

abbrev os : Os
os = record {
  Sys = Table;
  fstat = λ s fd. true;
  setlk = λ s fd r k. if fd == 9 then (false, s) else (true, change s fd r k);
  usleep = λ s t. s;
  Holds = λ s fd r k. Held s (fd, r, k);
}

changed :
    (s s' : Table) (fd : ℕ) (r : Range) (k : Kind)
    → change s fd r k ≡ s'
    → k ≢ f_unlck
    → Held s' (fd, r, k)
changed s s' fd r f_unlck e n = absurd (n refl)
changed s s' fd r f_rdlck e n = rw (sym e) (inl refl)
changed s s' fd r f_wrlck e n = rw (sym e) (inl refl)

os_laws : OsLaws os
os_laws = record {
  setlk_holds = λ s fd r k s' e n. elim (Bool-cases (fd == 9)) [
    | inl nine ↦ absurd (cc (e, nine))
    | inr other ↦ changed s s' fd r k (cc (e, other)) n
  ];
  setlk_refused = λ s fd r k s' e fd' r' k' h. elim (Bool-cases (fd == 9)) [
    | inl nine ↦ (let same : s ≡ s' = cc (e, nine) in rw (sym same) h)
    | inr other ↦ absurd (cc (e, other))
  ];
  usleep_keeps = λ s t fd r k h. h;
}

abbrev table : ℕ → LockType → ℕ → Ctx
table fd type recno = record {
  in_use = true;
  fd = fd;
  lock = record { type = type; mode = 0; recno = recno };
  exclusive = false;
  readonly = false;
  denywrite = false;
  fsync = false;
  byprec = 10;
  doffset = 66;
}

abbrev range5 : Range
range5 = record { start = 106; len = 10 }

abbrev locked5 : Table
locked5 = (3, range5, f_wrlck) ∷ []

r_lock-Truthful_example : TruthAfter os (r_lock os (table 3 wrlck 5) 6 wrlck false locked5)
unfolding record_range
r_lock-Truthful_example =
    r_lock-Truthful os_laws (table 3 wrlck 5) 6 wrlck false locked5 (inl refl, omega arith)

file_locks-Truthful_example :
    Truthful os
      (f_lock os (table 3 wrlck 5) true locked5).2
      (f_lock os (table 3 wrlck 5) true locked5).1
    × Truthful os
        (f_unlock os (table 3 wrlck 5) locked5).1
        (f_unlock os (table 3 wrlck 5) locked5).0
unfolding record_range
file_locks-Truthful_example =
    file_locks-Truthful os_laws (table 3 wrlck 5) true locked5 (inl refl, omega arith)

r_lock_grants_example :
    (is_rec_locked (record { type = wrlck; mode = 0; recno = 5 }) 5 wrlck ≡ true)
    × Truthful os locked5 (table 3 wrlck 5)
    × MayWrite os locked5 (table 3 wrlck 5) 5
unfolding r_lock is_rec_locked record_range attempts rlock
r_lock_grants_example =
    r_lock_grants os os_laws (table 3 unlck 0) 5 false [] locked5 (table 3 wrlck 5) tt refl refl
