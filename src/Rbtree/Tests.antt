-- ===== src/Rbtree/Tests.antt =====
-- A tree of four numbers, and the theorems on src/rbtree.c at its nodes.
use files_co.Base.{ℕ, ◌≡◌, refl, [], ◌∷◌, ◌++◌, some, ltb}
use files_co.Rbtree.{
  red, black, Tree, leaf, node, from_right, zip, insert_at, rb_red, rb_insert, find_place,
  red_crumb, set_color, attach, turn_left_child, set_right_color, rotate_right, is_right,
}
use files_co.Rbtree.Order.{inorder, before, after}
use files_co.Rbtree.Balance.{IsRb, IsRedBlack}
use files_co.Rbtree.Place.{IsSplit, NoneRight, take_while, drop_while, insert_at-IsRedBlack}
use files_co.Rbtree.Erase.{rb_erase, fix_right}
use files_co.Rbtree.Erase.Removed.{rb_erase-IsRedBlack}
use files_co.Rbtree.Walk.{Place, place, rb_next, rb_prev}
use files_co.Rbtree.Walk.Steps.{
  IsNext, IsPrev, tree_of, items_before, items_after, rb_next-IsNext, rb_prev-IsPrev,
}

abbrev left_part : Tree ℕ
left_part = node black (node red leaf 2 leaf) 3 leaf

abbrev right_part : Tree ℕ
right_part = node black leaf 8 leaf

abbrev four_numbers : Tree ℕ
four_numbers = node black left_part 5 right_part

four_numbers-IsRedBlack : IsRedBlack four_numbers
unfolding IsRedBlack IsRb rb_red
four_numbers-IsRedBlack =
    (refl, (2, (1, refl, (0, refl, (refl, refl, refl, refl), refl), (0, refl, refl, refl))))

abbrev four_numbers_at : Place ℕ
four_numbers_at = place black left_part 5 right_part []

-- 4 behind 3, with no rotation; 1 before 2, with one
insert_four :
    insert_at (λ x. ltb x 4) 4 four_numbers
    ≡ some (node black (node black (node red leaf 2 leaf) 3 (node red leaf 4 leaf)) 5 right_part)
unfolding insert_at rb_insert find_place red_crumb rb_red set_color zip attach turn_left_child
    set_right_color rotate_right is_right
insert_four = refl

insert_one :
    insert_at (λ x. ltb x 1) 1 four_numbers
    ≡ some (node black (node black (node red leaf 1 leaf) 2 (node red leaf 3 leaf)) 5 right_part)
unfolding insert_at rb_insert find_place red_crumb rb_red set_color zip attach turn_left_child
    set_right_color rotate_right is_right
insert_one = refl

insert_at-IsRedBlack_example :
    (t' : Tree ℕ) × (insert_at (λ x. ltb x 1) 1 four_numbers ≡ some t')
    × IsRedBlack t'
    × (inorder t'
        ≡ take_while (λ x. ltb x 1) (inorder four_numbers)
          ++ 1 ∷ drop_while (λ x. ltb x 1) (inorder four_numbers))
unfolding IsSplit NoneRight inorder
insert_at-IsRedBlack_example =
    insert_at-IsRedBlack (λ x. ltb x 1) 1 four_numbers four_numbers-IsRedBlack
      (λ e. (refl, (refl, (refl, tt))), (λ e. (refl, (refl, tt)), (λ e. (refl, tt), (λ e. tt, tt))))

-- The 8 has no red node near it: a rotation at the root moves the 2 up.
erase_eight :
    rb_erase black leaf leaf (from_right black 5 left_part ∷ [])
    ≡ some (node black (node black leaf 2 leaf) 3 (node black leaf 5 leaf))
unfolding rb_erase rb_red fix_right zip
erase_eight = refl

rb_erase-IsRedBlack_example :
    (t' : Tree ℕ) × (rb_erase black left_part right_part [] ≡ some t')
    × IsRedBlack t'
    × (inorder (zip [] four_numbers)
        ≡ before [] ++ inorder left_part ++ 5 ∷ (inorder right_part ++ after []))
    × (inorder t' ≡ before [] ++ inorder left_part ++ (inorder right_part ++ after []))
unfolding zip
rb_erase-IsRedBlack_example =
    rb_erase-IsRedBlack black left_part 5 right_part [] four_numbers-IsRedBlack

rb_next-IsNext_example :
    IsNext
      (tree_of four_numbers_at)
      (items_before four_numbers_at ++ 5 ∷ [])
      (items_after four_numbers_at)
      (rb_next four_numbers_at)
unfolding place
rb_next-IsNext_example = rb_next-IsNext four_numbers_at

rb_prev-IsPrev_example :
    IsPrev
      (tree_of four_numbers_at)
      (items_before four_numbers_at)
      (5 ∷ items_after four_numbers_at)
      (rb_prev four_numbers_at)
unfolding place
rb_prev-IsPrev_example = rb_prev-IsPrev four_numbers_at
