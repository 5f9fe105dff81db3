-- ===== src/Functions/Tests.antt =====
-- The theorems on functions at concrete values.
use db3w.Common.{
  ℕ, List, ◌+◌, ◌≤◌, ◌≡◌, refl, false, some, none, [], ◌∷◌, ◌++◌, arith, length, take,
}
use db3w.Common.Int.{pos}
use db3w.Common.Text.{codes}
use db3w.Values.{number, charctr, fixed, logic, err, val_size, invalid_type, max_str_len}
use db3w.Values.Stack.{Stack, used}
use db3w.Values.Stack.Laws.{Leaves}
use db3w.Values.Tests.{reals, env}
use db3w.Functions.Codes.{Fcn, left_fcn}
use db3w.Functions.Text.{piece, first_part, stuffed, copies, repeated, place_of, times_in}
use db3w.Functions.Text.Pieces.{stuffed_parts, copies_lem}
use db3w.Functions.Text.Search.{FirstPlace, place_of_lem, hit, places, times_in_short}
use db3w.Functions.Operands.{count_ok}
use db3w.Functions.Dispatch.{Routine, fcn}
use db3w.Functions.Dispatch.Operation.{fcn-Leaves}
use db3w.Functions.Spell.{Word, numspell, words_text}
use db3w.Functions.Spell.Dictionary.{read_text}
use db3w.Functions.Spell.Reading.{read_text-numspell}

abbrev none_else : Fcn → Routine reals
none_else f cnt s = err invalid_type

-- LEFT("table", 3)
abbrev two_operands : Stack reals
two_operands = number (fixed 0 (pos 3)) ∷ charctr (codes "table") ∷ []

fcn-Leaves_example :
    Leaves
      (env false false)
      (logic none ∷ [])
      (fcn none_else (env false false) left_fcn 2 (two_operands ++ (logic none ∷ [])))
unfolding used count_ok val_size
fcn-Leaves_example =
    fcn-Leaves (env false false) none_else left_fcn two_operands (logic none ∷ []) refl refl refl
      (omega arith)

stuffed_parts_example :
    let t = first_part 2 (codes "table") ++ (codes "xx" ++ piece (codes "table") (2 + 1) none) in
    ((length t ≤ max_str_len) → stuffed (codes "table") 2 1 (codes "xx") ≡ some t)
    × ((max_str_len + 1 ≤ length t) → stuffed (codes "table") 2 1 (codes "xx") ≡ none)
stuffed_parts_example = stuffed_parts (codes "table") (codes "xx") 2 1

copies_lem_example : copies 3 (codes "ab") [] ≡ take max_str_len (repeated 3 (codes "ab"))
copies_lem_example = copies_lem 3 (codes "ab")

place_of_lem_example : FirstPlace (codes "b") (codes "abab") (place_of (codes "b") (codes "abab"))
place_of_lem_example = place_of_lem (codes "b") (codes "abab")

times_in_short_example :
    places 4 (codes "b") (codes "abab")
    ≡ times_in (codes "b") (codes "abab") + hit (codes "b") (codes "b")
times_in_short_example = times_in_short (codes "b") (codes "abab") (omega arith)

read_text-numspell_example :
    (ws : List Word) × (t : List ℕ) × (numspell 1235 1234 ≡ some ws)
    × (words_text ws ≡ some t)
    × (read_text t ≡ some 1234)
read_text-numspell_example = read_text-numspell 1234
