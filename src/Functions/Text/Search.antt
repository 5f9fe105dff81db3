-- ===== src/Functions/Text/Search.antt =====
-- server/hb/fcn.c: the places at which `at` and `occurs` find a text.
use db3w.Common.{
  ℕ, zero, suc, ◌+◌, ◌-◌, ◌≤◌, ◌<◌, ◌≡◌, ◌⊎◌, refl, sym, ap, ◌∙◌, inl, inr, true, false, List, [],
  ◌∷◌, leb, length, drop, arith, Bool-cases, if◌then◌else◌,
}
use db3w.Functions.Text.{begins, find_at, place_of, count_at, times_in}

-- `p` stands in `v` from the byte `i` on, which counts from 0.
abbrev pub StandsAt : List ℕ → List ℕ → ℕ → Type 0
StandsAt p v i = begins p (drop i v) ≡ true

-- It fits where it stands.
begins-fits : (p v : List ℕ) → begins p v ≡ true → length p ≤ length v
unfolding begins
begins-fits [] v h = omega arith
begins-fits (a ∷ p) [] h = absurd (ground arith)
begins-fits (a ∷ p) (b ∷ v) h = omega (arith, begins-fits p v (ground arith))

abbrev no_text : List ℕ
no_text = []

drop_nil : (i : ℕ) → drop i no_text ≡ no_text
drop_nil zero = refl
drop_nil (suc i) = refl

drop-suc : (i : ℕ) (v : List ℕ) → drop (suc i) v ≡ drop i (drop 1 v)
drop-suc i [] = sym (drop_nil i)
drop-suc i (b ∷ v) = refl

-- Nothing is found at the places below `n`.
abbrev NotBelow : ℕ → List ℕ → List ℕ → Type 0
NotBelow n p v = (j : ℕ) → j < n → begins p (drop j v) ≡ false

suc-NotBelow :
    (n : ℕ) (p v : List ℕ) → begins p v ≡ false → NotBelow n p (drop 1 v) → NotBelow (suc n) p v
suc-NotBelow n p v here rest zero h = here
suc-NotBelow n p v here rest (suc j) h = ap (λ t. begins p t) (drop-suc j v) ∙ rest j (omega arith)

-- The result of the loop from the place `i` on, with `n` rounds left.
abbrev Found : ℕ → ℕ → List ℕ → List ℕ → ℕ → Type 0
Found n i p v r =
    ((r ≡ 0) × NotBelow n p v) ⊎ ((j : ℕ) × (r ≡ i + j + 1) × StandsAt p v j × NotBelow j p v)

find_at-Found : (n i : ℕ) (p v : List ℕ) → Found n i p v (find_at n i p v)
unfolding find_at
find_at-Found zero i p v = inl (refl, λ j h. absurd (omega arith))
find_at-Found (suc n) i p v = elim (Bool-cases (begins p v)) [
  | inl here ↦ rw here (inr (0, omega arith, here, λ j h. absurd (omega arith)))
  | inr absent ↦ rw absent (elim (find_at-Found n (i + 1) p (drop 1 v)) [
    | inl (z, none) ↦ inl (z, suc-NotBelow n p v absent none)
    | inr (j, e, stands, none) ↦ inr (
      suc j,
      omega (arith, e),
      ap (λ t. begins p t) (drop-suc j v) ∙ stands,
      suc-NotBelow j p v absent none,
    )
  ])
]

-- 0 and nothing at any place where the text fits, or the first place where it stands, from 1.
abbrev pub FirstPlace : List ℕ → List ℕ → ℕ → Type 0
FirstPlace p v r =
    ((r ≡ 0) × ((j : ℕ) → j + length p ≤ length v → begins p (drop j v) ≡ false))
    ⊎ ((j : ℕ) × (r ≡ j + 1) × StandsAt p v j × NotBelow j p v)

-- AT gives 0 exactly where the text stands at no place where it fits, and otherwise the first place
-- where it stands, counted from 1.
pub place_of_lem : (p v : List ℕ) → FirstPlace p v (place_of p v)
unfolding place_of
place_of_lem p v = elim (Bool-cases (leb (length p) (length v))) [
  | inl fits ↦ rw fits (elim (find_at-Found (length v - length p + 1) 0 p v) [
    | inl (z, none) ↦ inl (z, λ j h. none j (omega (arith, h)))
    | inr (j, e, stands, none) ↦ inr (j, omega (arith, e), stands, none)
  ])
  | inr long ↦ rw long (inl (refl, λ j h. absurd (ground arith)))
]

abbrev pub hit : List ℕ → List ℕ → ℕ
hit p v = if begins p v then 1 else 0

-- The number of places below `n` where the text stands.
abbrev pub places : ℕ → List ℕ → List ℕ → ℕ
places zero p v = 0
places (suc n) p v = hit p (drop n v) + places n p v

places_first : (n : ℕ) (p v : List ℕ) → places (suc n) p v ≡ hit p v + places n p (drop 1 v)
places_first zero p v = refl
places_first (suc n) p v = omega (arith, places_first n p v, ap (λ t. hit p t) (drop-suc n v))

count_at-places : (n : ℕ) (p v : List ℕ) → count_at n p v ≡ places n p v
unfolding count_at
count_at-places zero p v = refl
count_at-places (suc n) p v = omega (arith, count_at-places n p (drop 1 v), places_first n p v)

-- For a text that fits, OCCURS leaves out the last place where it fits: one that stands at the end is
-- not counted.
pub times_in_short :
    (p v : List ℕ)
    → length p ≤ length v
    → let last = length v - length p in places (last + 1) p v ≡ times_in p v + hit p (drop last v)
unfolding times_in
times_in_short p v h = elim (Bool-cases (leb (length p) (length v))) [
  | inl fits ↦ rw fits (
      omega
        (arith, count_at-places (length v - length p) p v, places_next (length v - length p) p v))
  | inr long ↦ absurd (ground arith)
]
  where
    places_next : (n : ℕ) (p v : List ℕ) → places (n + 1) p v ≡ hit p (drop n v) + places n p v
    places_next n p v = ap (λ m. places m p v) (succ n)
      where
        succ : (n : ℕ) → n + 1 ≡ suc n
        succ n = omega arith
