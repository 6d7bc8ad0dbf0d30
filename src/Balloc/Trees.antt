-- ===== src/Balloc/Trees.antt =====
-- The sequences of src/balloc.c are those of the trees of src/rbtree.c.
use files_co.Base.{
  ℕ, suc, ◌≤◌, ◌≡◌, ◌∙◌, refl, Bool, List, [], ◌∷◌, ◌++◌, some, Bool-cases, inl, inr, ltb, arith,
}
use files_co.Rbtree.{Tree, insert_at}
use files_co.Rbtree.Order.{inorder}
use files_co.Rbtree.Balance.{IsRedBlack}
use files_co.Rbtree.Place.{take_while, drop_while, NoneRight, IsSplit, insert_at-IsRedBlack}
use files_co.Balloc.{Range, rewind, seek}
use files_co.Balloc.Ranges.{IsAbove, IsSeparate}

rewind-seek :
    (skip : Range → Bool) (a : Range) (bef rs : List Range)
    → rewind bef (take_while skip rs ++ a ∷ drop_while skip rs)
      ≡ rewind (seek skip bef rs).0 (a ∷ (seek skip bef rs).1)
unfolding seek take_while drop_while rewind
rewind-seek skip a bef [] = refl
rewind-seek skip a bef (r ∷ rs) = elim (Bool-cases (skip r)) [
  | inl y ↦ rw (y, seek, take_while, drop_while) (rewind-seek skip a (r ∷ bef) rs)
  | inr n ↦ rw (n, seek, take_while, drop_while) refl
]

IsAbove-NoneRight :
    (from lo : ℕ) (rs : List Range)
    → IsAbove lo rs
    → from ≤ lo
    → NoneRight (λ r. ltb r.begin from) rs
unfolding IsAbove NoneRight
IsAbove-NoneRight from lo [] a h = tt
IsAbove-NoneRight from lo (r ∷ rs) (l, o, a) h =
    (ground arith, IsAbove-NoneRight from (suc r.end) rs a (omega arith))

IsAbove-IsSplit :
    (from lo : ℕ) (rs : List Range) → IsAbove lo rs → IsSplit (λ r. ltb r.begin from) rs
unfolding IsAbove IsSplit
IsAbove-IsSplit from lo [] a = tt
IsAbove-IsSplit from lo (r ∷ rs) (l, o, a) = (
  λ f. IsAbove-NoneRight from (suc r.end) rs a (ground arith),
  IsAbove-IsSplit from (suc r.end) rs a,
)

-- For a red-black tree of ranges in order, the place that `__balloc_add_range` finds for a new range is
-- that of `seek` in the tree's sequence: `rb_link` and `rb_insert` give a red-black tree with the
-- sequence that has the new range there.
pub insert_at-seek :
    (new : Range) (t : Tree Range)
    → IsRedBlack t
    → IsSeparate (inorder t)
    → (t' : Tree Range) × (insert_at (λ r. ltb r.begin new.begin) new t ≡ some t')
      × IsRedBlack t'
      × (inorder t'
          ≡ rewind
              (seek (λ r. ltb r.begin new.begin) [] (inorder t)).0
              (new ∷ (seek (λ r. ltb r.begin new.begin) [] (inorder t)).1))
unfolding IsSeparate rewind
insert_at-seek new t k i =
    let skip : Range → Bool = λ r. ltb r.begin new.begin in
    let (t', e, k', o) =
      insert_at-IsRedBlack skip new t k (IsAbove-IsSplit new.begin 0 (inorder t) i) in
    (t', e, k', o ∙ rewind-seek skip new [] (inorder t))
