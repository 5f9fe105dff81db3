-- ===== src/Sorting/Insertion.antt =====
-- `insort` sorts.
use mathlib.Core.List.Perm
use mathlib.Core.List.{Perm, perm_middle, append-nil}
use db3w.Common.{
  ◌≡◌, Bool, true, false, List, [], ◌∷◌, ◌++◌, arith, Bool-cases, inl, inr, if◌then◌else◌, sym, ◌∙◌,
}
use db3w.Common.Int.{ℤ, pos, ltb_ℤ}
use db3w.Sorting.{directed, place, sort_in, slots, insort}

-- The one order of two keys is negative exactly when the other is positive.
abbrev pub IsOpposite {ℓ} : {A : Type ℓ} → (A → A → ℤ) → Type ℓ
IsOpposite {A} qcomp = (x y : A) → ltb_ℤ (qcomp x y) (pos 0) ≡ ltb_ℤ (pos 0) (qcomp y x)

module _ {ℓ} {A : Type ℓ} (qcomp : A → A → ℤ) (descending : Bool) where
  -- The key `y` belongs in front of `x`: it is smaller, or larger for a descending sort.
  abbrev pub in_front : A → A → Bool
  in_front x y = if descending then ltb_ℤ (pos 0) (qcomp y x) else ltb_ℤ (qcomp y x) (pos 0)

  abbrev pub Stays : A → A → Type 0
  Stays x y = in_front x y ≡ false

  directed_lem : (x y : A) → ltb_ℤ (directed qcomp descending y x) (pos 0) ≡ in_front x y
  unfolding directed
  directed_lem x y = ground arith

  abbrev pub SortedFrom : A → List A → Type 0
  SortedFrom x [] = Unit {0}
  SortedFrom x (y ∷ s) = Stays x y × SortedFrom y s

  -- No key belongs in front of the one before it.
  abbrev pub IsSorted : List A → Type 0
  IsSorted [] = Unit {0}
  IsSorted (x ∷ s) = SortedFrom x s

  abbrev Backwards : A → List A → Type 0
  Backwards x [] = Unit {0}
  Backwards x (y ∷ s) = Stays y x × Backwards y s

  abbrev AllBackwards : List A → Type 0
  AllBackwards [] = Unit {0}
  AllBackwards (x ∷ s) = Backwards x s

  slots-IsSorted :
      (x : A) (below above : List A)
      → Backwards x below
      → SortedFrom x above
      → IsSorted (slots qcomp descending below (x ∷ above))
  unfolding slots
  slots-IsSorted x [] above b s = s
  slots-IsSorted x (y ∷ below) above b s = slots-IsSorted y below (x ∷ above) b.1 (b.0, s)

  all_slots-IsSorted : (s : List A) → AllBackwards s → IsSorted (slots qcomp descending s [])
  unfolding slots
  all_slots-IsSorted [] b = tt
  all_slots-IsSorted (x ∷ s) b = slots-IsSorted x s [] b tt

  slots-Perm : (below above : List A) → Perm (slots qcomp descending below above) (below ++ above)
  unfolding slots
  slots-Perm [] above = Perm.refl above
  slots-Perm (x ∷ below) above = Perm.trans (slots-Perm below (x ∷ above)) (perm_middle below above)

  place-Perm : (x : A) (s : List A) → Perm (place qcomp descending x s) (x ∷ s)
  unfolding place
  place-Perm x [] = Perm.refl (x ∷ [])
  place-Perm x (y ∷ s) = elim (Bool-cases (ltb_ℤ (directed qcomp descending x y) (pos 0))) [
    | inl before ↦ rw before (Perm.trans (Perm.cons y (place-Perm x s)) (Perm.swap x y s))
    | inr stays ↦ rw stays (Perm.refl (x ∷ y ∷ s))
  ]

  sort_in-Perm : (s rest : List A) → Perm (sort_in qcomp descending s rest) (s ++ rest)
  unfolding sort_in
  sort_in-Perm s [] = Perm.symm (rw (append-nil s) (Perm.refl s))
  sort_in-Perm s (x ∷ rest) =
      Perm.trans (sort_in-Perm (place qcomp descending x s) rest)
        (Perm.trans (Perm.append_right rest (place-Perm x s)) (Perm.symm (perm_middle s rest)))

  insort-Perm : (s : List A) → Perm (insort qcomp descending s) s
  unfolding insort
  insort-Perm [] = Perm.refl []
  insort-Perm (x ∷ rest) =
      Perm.trans (slots-Perm (sort_in qcomp descending (x ∷ []) rest) [])
        (rw (append-nil (sort_in qcomp descending (x ∷ []) rest)) (sort_in-Perm (x ∷ []) rest))

  module _ (opposite : IsOpposite qcomp) where
    turned : (x y : A) → ltb_ℤ (directed qcomp descending x y) (pos 0) ≡ true → Stays x y
    unfolding directed
    turned x y h = ground (arith, opposite x y, opposite y x, directed_lem y x)

    place-Backwards :
        (top x : A) (s : List A)
        → Stays x top
        → Backwards top s
        → Backwards top (place qcomp descending x s)
    unfolding place
    place-Backwards top x [] h b = (h, tt)
    place-Backwards top x (y ∷ s) h b =
        elim (Bool-cases (ltb_ℤ (directed qcomp descending x y) (pos 0))) [
          | inl before ↦ rw before (b.0, place-Backwards y x s (turned x y before) b.1)
          | inr stays ↦ rw stays (h, (sym (directed_lem y x) ∙ stays, b.1))
        ]

    place-AllBackwards :
        (x : A) (s : List A) → AllBackwards s → AllBackwards (place qcomp descending x s)
    unfolding place
    place-AllBackwards x [] b = tt
    place-AllBackwards x (y ∷ s) b =
        elim (Bool-cases (ltb_ℤ (directed qcomp descending x y) (pos 0))) [
          | inl before ↦ rw before (place-Backwards y x s (turned x y before) b)
          | inr stays ↦ rw stays (sym (directed_lem y x) ∙ stays, b)
        ]

    sort_in-AllBackwards :
        (s rest : List A) → AllBackwards s → AllBackwards (sort_in qcomp descending s rest)
    unfolding sort_in
    sort_in-AllBackwards s [] b = b
    sort_in-AllBackwards s (x ∷ rest) b =
        sort_in-AllBackwards (place qcomp descending x s) rest (place-AllBackwards x s b)

    insort-IsSorted : (s : List A) → IsSorted (insort qcomp descending s)
    unfolding insort
    insort-IsSorted [] = tt
    insort-IsSorted (x ∷ rest) =
        all_slots-IsSorted (sort_in qcomp descending (x ∷ []) rest)
          (sort_in-AllBackwards (x ∷ []) rest tt)

    -- With a comparison that turns its sign with its arguments, `insort` keeps the keys, each as often as
    -- it was there, and no key of the result belongs in front of the one before it: none is smaller, or
    -- none larger for a descending sort.
    pub insort_lem :
        (s : List A) → IsSorted (insort qcomp descending s) × Perm (insort qcomp descending s) s
    insort_lem s = (insort-IsSorted s, insort-Perm s)
