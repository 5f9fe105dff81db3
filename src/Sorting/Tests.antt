-- ===== src/Sorting/Tests.antt =====
-- The theorems on sorting at numbers for keys.
use mathlib.Core.List.{Perm}
use db3w.Common.{ℕ, true, [], ◌∷◌, List, arith}
use db3w.Common.Int.{sub_ℕ}
use db3w.Sorting.{insort}
use db3w.Sorting.Insertion.{IsOpposite, IsSorted, insort_lem}

abbrev keys : List ℕ
keys = 3 ∷ 1 ∷ 2 ∷ []

differ-IsOpposite : IsOpposite sub_ℕ
differ-IsOpposite x y = ground arith

insort_lem_example :
    IsSorted sub_ℕ true (insort sub_ℕ true keys) × Perm (insort sub_ℕ true keys) keys
insort_lem_example = insort_lem sub_ℕ true differ-IsOpposite keys
