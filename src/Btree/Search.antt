-- ===== src/Btree/Search.antt =====
-- `btsrch`: the search for an entry by key and record number. `compare` is `keycmp`, the target's key
-- first. A position is the page and the entry that the index stands on, if the search has set it.
pub mod Leaf
pub mod Inner
pub mod Refinement
use db3w.Common.{
  ℕ, zero, suc, ◌+◌, Bool, true, false, ◌&&◌, not, List, Option, none, some, ◌==◌, if◌then◌else◌,
}
use db3w.Common.Int.{ℤ, pos}
use db3w.Pages.{Entry, Page, get_entry}
use db3w.Btree.{
  Run, done, refused, bad_entry, endless, ◌>>=◌, run, Index, getpage, positive, negative, is_zero,
  recno_cmp, btlr,
}

pub data Mode : Type 0 where
  equal : Mode
  greater_equal : Mode
  greater : Mode
  less_equal : Mode
  less : Mode

-- The modes that go on behind an equal key.
pub passes : Mode → Bool
passes greater = true
passes greater_equal = true
passes equal = false
passes less_equal = false
passes less = false

pub is_less : Mode → Bool
is_less less = true
is_less equal = false
is_less greater_equal = false
is_less greater = false
is_less less_equal = false

-- The variables of the loop; `met_equal` is `!e2`, and `r0` and `pn0` are set together.
pub record Scan : Type 0 where
  pub e : ℤ
  pub met_equal : Bool
  pub r : ℕ
  pub pn3 : ℕ
  pub previous : Option (ℕ × ℕ)
  pub n3 : ℕ

-- `goto found` with an entry, `goto end`, or the end of the loop.
pub data Exit : Type 0 where
  found : ℕ → Exit
  ended : ℕ → Exit
  through : Scan → Exit

pub data Round : Type 0 where
  again : Scan → Round
  leaves : Exit → Round

pub record Answer : Type 0 where
  pub recno : ℕ
  pub position : Option (ℕ × ℕ)

-- `r = r0`, where -1 is no entry.
pub back : Option (ℕ × ℕ) → Run Exit
back none = refused bad_entry
back (some (r0, pn0)) = done (found r0)

-- `next_r`
pub advance : Scan → ℕ → Scan
advance st pageno = record st { r = st.r + 1; pn3 = pageno; previous = some (st.r, st.pn3) }

-- The result of the comparison, where equal keys are told apart by a record number that is given.
pub tie : ℕ → Index → Scan → ℤ → ℕ → ℕ → Run ℤ
unfolding recno_cmp btlr
tie f s st c target recno =
    if is_zero c && not (target == 0)
    then if st.pn3 == 0 then done (recno_cmp target recno) else btlr f s st.pn3 target
    else done c

pub settle : Mode → Scan → ℕ → ℤ → Run Round
unfolding is_less back advance
settle mode st pageno e =
    let st' : Scan = record st { e = e } in
    if is_zero e && (st.pn3 == 0)
    then if is_less mode
      then if st.r == 0
        then done (leaves (ended st.n3))
        else (back st.previous >>= λ x. done (leaves x))
      else done (leaves (found st.r))
    else if positive e
    then done (again (advance st' pageno))
    else done (leaves (through st'))

module _ (compare : List ℕ → List ℕ → ℤ) where
  -- The body of the loop, for an entry that there is.
  pub look : ℕ → Index → Mode → Entry → Page → Scan → Run Round
  unfolding passes tie settle advance
  look f s mode target p st = run (get_entry p (st.r + 1)) >>= λ right.
      run (get_entry p st.r) >>= λ here.
      let c = compare target.key here.key in
      let st' : Scan = record st { n3 = if is_zero c then target.recno else st.n3 } in
      if is_zero c && passes mode
      then done (again (advance (record st { e = pos 1; met_equal = true }) right.pno))
      else (tie f s st c target.recno here.recno >>= settle mode st' right.pno)

  -- At most as many rounds as the page has entries.
  pub scan : ℕ → Index → Mode → Entry → Page → ℕ → Scan → Run Exit
  unfolding look
  scan f s mode target p zero st = done (through st)
  scan f s mode target p (suc k) st = look f s mode target p st >>= λ x. elim x [
    | again st' ↦ scan f s mode target p k st'
    | leaves exit ↦ done exit
  ]

-- Behind the loop, on a leaf: the entry for the modes that look for another than an equal one. A scan
-- that goes through goes on to the page below.
pub settle_leaf : Mode → Scan → Run Exit
unfolding back
settle_leaf greater st = done (if negative st.e then found st.r else ended st.n3)
settle_leaf greater_equal st =
    if positive st.e
    then if st.met_equal then back st.previous else done (ended 0)
    else if st.r == 0
    then done (ended st.n3)
    else if st.met_equal
    then back st.previous
    else done (found st.r)
settle_leaf equal st = done (through st)
settle_leaf less_equal st = if st.r == 0 then done (through st) else back st.previous
settle_leaf less st = if st.r == 0 then done (through st) else back st.previous

pub settle_exit : Mode → Exit → Run Exit
unfolding settle_leaf
settle_exit mode (found r) = done (found r)
settle_exit mode (ended n) = done (ended n)
settle_exit mode (through st) = if st.pn3 == 0 then settle_leaf mode st else done (through st)

-- A second search in the page on the left, where the first has found nothing.
pub second : Mode → Option (ℕ × ℕ) → (ℕ → Run Answer) → Answer → Run Answer
second less (some (r0, pn0)) search_in a = if a.recno == 0 then search_in pn0 else done a
second greater_equal (some (r0, pn0)) search_in a = if a.recno == 0 then search_in pn0 else done a
second mode previous search_in a = done a

-- The jumps' ends; `search_in` is the call of `btsrch` for another page.
pub conclude : Mode → ℕ → Page → (ℕ → Run Answer) → Exit → Run Answer
unfolding second
conclude mode pno p search_in (found r) =
    run (get_entry p r) >>= λ e. done (record { recno = e.recno; position = some (pno, r) })
conclude mode pno p search_in (ended n) = done (record { recno = n; position = none })
conclude mode pno p search_in (through st) = search_in st.pn3 >>= second mode st.previous search_in

pub initial : Page → Run Scan
initial p = run (get_entry p 0) >>= λ first.
    done (record { e = pos 1; met_equal = false; r = 0; pn3 = first.pno; previous = none; n3 = 0 })

module _ (compare : List ℕ → List ℕ → ℤ) where
  pub btsrch : ℕ → Index → Mode → Entry → ℕ → Run Answer
  unfolding scan settle_exit conclude initial getpage
  btsrch zero s mode target pno = endless
  btsrch (suc f) s mode target pno =
      let p = getpage s pno in
      elim (pno == 0) [
        | true ↦ done (record { recno = 0; position = none })
        | false ↦
            initial p
            >>= scan compare f s mode target p p.entry_cnt
            >>= settle_exit mode
            >>= conclude mode pno p (btsrch f s mode target)
      ]
