-- ===== src/Pages/Tests.antt =====
-- An insertion into a leaf of two entries.
use db3w.Common.{ℕ, ◌≡◌, refl, some, none, [], ◌∷◌, arith, ◌==◌, if◌then◌else◌}
use db3w.Pages.{Entry, Page, ok, is_leaf, insert_in_page}
use db3w.Pages.Split.{Halves, split}
use db3w.Pages.Split.Cut.{Cut}
use db3w.Pages.Split.Middle.{split-Cut}
use db3w.Pages.Insert.{Inserted, insert_in_page-Inserted}

abbrev leaf_entry : ℕ → ℕ → Entry
leaf_entry recno byte = record { pno = 0; recno = recno; key = byte ∷ [] }

abbrev leaf : Page
leaf = record {
  entry_cnt = 2;
  entries = λ i.
      if i == 0 then leaf_entry 7 b'a' else if i == 1 then leaf_entry 8 b'c' else leaf_entry 0 0;
}

insert_in_page-Inserted_example :
    (p' : Page) × (insert_in_page leaf 1 1 (leaf_entry 9 b'b')
      ≡ ok (p', if is_leaf leaf then some (1, 1) else none))
    × Inserted 1 (leaf_entry 9 b'b') leaf p'
unfolding is_leaf
insert_in_page-Inserted_example =
    insert_in_page-Inserted leaf 1 1 (leaf_entry 9 b'b') refl (omega arith)

abbrev full_leaf : Page
full_leaf = record {
  entry_cnt = 3;
  entries = λ i.
      if i == 0
      then leaf_entry 7 b'a'
      else if i == 1
      then leaf_entry 8 b'c'
      else if i == 2
      then leaf_entry 6 b'd'
      else leaf_entry 0 0;
}

split-Cut_example :
    (h : Halves) × (split 1 2 full_leaf 2 (leaf_entry 9 b'b') ≡ ok h)
    × Cut 1 2 2 (leaf_entry 9 b'b') full_leaf h
unfolding is_leaf
split-Cut_example =
    split-Cut 1 2 2 full_leaf (leaf_entry 9 b'b') refl refl (omega arith) (omega arith)
