-- ===== src/Balloc/Tests.antt =====
-- Three ranges, and the theorems on src/balloc.c there.
use files_co.Base.{ℕ, ◌^◌, ◌≡◌, refl, not, ◌&&◌, ◌||◌, List, [], ◌∷◌, some, ◌⊎◌, arith, ltb}
use files_co.Rbtree.{Tree, leaf, node, red, black, rb_red, insert_at}
use files_co.Rbtree.Order.{inorder}
use files_co.Rbtree.Balance.{IsRb, IsRedBlack}
use files_co.Balloc.Trees.{insert_at-seek}
use files_co.Balloc.{Range, rewind, seek, add_range, remove_range, alignment, balloc_alloc}
use files_co.Balloc.Ranges.{within, covers, IsSeparate, IsAbove}
use files_co.Balloc.Changed.{Changed}
use files_co.Balloc.Added.{stop_at, add_range-Changed}
use files_co.Balloc.Removed.{remove_range-Changed}
use files_co.Balloc.Served.{IsServed, IsRefused, EndsBy, balloc_alloc-Outcome}

abbrev range : ℕ → ℕ → Range
range b e = record { begin = b; end = e }

abbrev three : List Range
three = range 10 20 ∷ range 30 40 ∷ range 100 200 ∷ []

three-IsSeparate : IsSeparate three
unfolding IsSeparate IsAbove
three-IsSeparate =
    (omega arith, omega arith, (omega arith, omega arith, (omega arith, omega arith, tt)))

three_ends : EndsBy (2 ^ 62) three
unfolding EndsBy
three_ends = (omega arith, (omega arith, (omega arith, tt)))

-- A range that fills a gap, and one that reaches over the next range: its end is lost.
add_between : add_range 20 30 7 three ≡ some (8, range 10 40 ∷ range 100 200 ∷ [])
unfolding add_range
add_between = refl

add_over : add_range 5 25 7 three ≡ some (7, range 5 20 ∷ range 30 40 ∷ range 100 200 ∷ [])
unfolding add_range
add_over = refl

add_range-Changed_example :
    (out : ℕ × List Range) × (add_range 5 25 7 three ≡ some out)
    × Changed 7 three (λ x. covers three x || within 5 (stop_at 5 25 three) x) out
add_range-Changed_example =
    add_range-Changed 5 25 7 three three-IsSeparate (omega arith) (omega arith)

remove_across : remove_range 15 120 7 three ≡ some (8, range 10 15 ∷ range 120 200 ∷ [])
unfolding remove_range
remove_across = refl

remove_range-Changed_example :
    (out : ℕ × List Range) × (remove_range 15 120 7 three ≡ some out)
    × Changed 7 three (λ x. covers three x && not (within 15 120 x)) out
remove_range-Changed_example =
    remove_range-Changed 15 120 7 three three-IsSeparate (omega arith) (omega arith)

alloc_forty :
    balloc_alloc 40 0 1000 7 three
    ≡ some (128, 6, range 10 20 ∷ range 30 40 ∷ range 100 128 ∷ range 168 200 ∷ [])
unfolding balloc_alloc
alloc_forty = refl

balloc_alloc-Outcome_example :
    (out : ℕ × ℕ × List Range) × (balloc_alloc 40 0 1000 7 three ≡ some out)
    × (IsServed 40 (alignment 40) 0 1000 7 three out
        ⊎ IsRefused 40 (alignment 40) 0 1000 7 three out)
balloc_alloc-Outcome_example =
    balloc_alloc-Outcome 40 0 1000 7 three (omega arith) (omega arith) (omega arith) (omega arith)
      three-IsSeparate three_ends (omega arith)

-- The same ranges as a tree
abbrev middle_tree : Tree Range
middle_tree =
    node black (node red leaf (range 10 20) leaf) (range 30 40) (node red leaf (range 100 200) leaf)

middle_tree-IsRedBlack : IsRedBlack middle_tree
unfolding IsRedBlack IsRb rb_red
middle_tree-IsRedBlack = (refl, (1, (0, refl, (refl, refl, refl, refl), (refl, refl, refl, refl))))

insert_at-seek_example :
    (t' : Tree Range) × (insert_at (λ r. ltb r.begin 50) (range 50 60) middle_tree ≡ some t')
    × IsRedBlack t'
    × (inorder t'
        ≡ rewind
            (seek (λ r. ltb r.begin 50) [] (inorder middle_tree)).0
            (range 50 60 ∷ (seek (λ r. ltb r.begin 50) [] (inorder middle_tree)).1))
unfolding inorder
insert_at-seek_example =
    insert_at-seek (range 50 60) middle_tree middle_tree-IsRedBlack three-IsSeparate
