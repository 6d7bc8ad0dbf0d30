-- ===== src/Rbtree/Walk.antt =====
-- src/rbtree.c: the walk from node to node in order.
pub mod Steps
use files_co.Base.{List, [], ◌∷◌, Option, none, some}
use files_co.Rbtree.{Color, Tree, leaf, node, Crumb, from_left, from_right}

-- A pointer to a node: the node at a place, and the path up
pub record Place (A : Type 0) : Type 0 where
  pub color : Color
  pub left : Tree A
  pub item : A
  pub right : Tree A
  pub path : List (Crumb A)

module _ {A : Type 0} where
  unfoldable pub place : Color → Tree A → A → Tree A → List (Crumb A) → Place A
  place c l a r path = record { color = c; left = l; item = a; right = r; path = path }

  -- The loops of `__rb_leftmost` and `__rb_rightmost`, at a node
  unfoldable pub leftmost_at : Color → Tree A → A → Tree A → List (Crumb A) → Place A
  unfolding place
  leftmost_at c leaf a r path = place c leaf a r path
  leftmost_at c (node lc ll la lr) a r path = leftmost_at lc ll la lr (from_left c a r ∷ path)

  unfoldable pub rightmost_at : Color → Tree A → A → Tree A → List (Crumb A) → Place A
  unfolding place
  rightmost_at c l a leaf path = place c l a leaf path
  rightmost_at c l a (node rc rl ra rr) path = rightmost_at rc rl ra rr (from_right c a l ∷ path)

  -- `__rb_leftmost` and `__rb_rightmost`
  unfoldable pub rb_leftmost : Tree A → List (Crumb A) → Option (Place A)
  unfolding leftmost_at
  rb_leftmost leaf path = none
  rb_leftmost (node c l a r) path = some (leftmost_at c l a r path)

  unfoldable pub rb_rightmost : Tree A → List (Crumb A) → Option (Place A)
  unfolding rightmost_at
  rb_rightmost leaf path = none
  rb_rightmost (node c l a r) path = some (rightmost_at c l a r path)

  -- The loops of `rb_next` and `rb_prev` over the parents
  unfoldable pub climb_right : Tree A → List (Crumb A) → Option (Place A)
  unfolding place
  climb_right t [] = none
  climb_right t (from_right c a l ∷ path) = climb_right (node c l a t) path
  climb_right t (from_left c a r ∷ path) = some (place c t a r path)

  unfoldable pub climb_left : Tree A → List (Crumb A) → Option (Place A)
  unfolding place
  climb_left t [] = none
  climb_left t (from_left c a r ∷ path) = climb_left (node c t a r) path
  climb_left t (from_right c a l ∷ path) = some (place c l a t path)

  unfoldable pub next_of : Color → Tree A → A → Tree A → List (Crumb A) → Option (Place A)
  unfolding leftmost_at climb_right
  next_of c l a leaf path = climb_right (node c l a leaf) path
  next_of c l a (node rc rl ra rr) path = some (leftmost_at rc rl ra rr (from_right c a l ∷ path))

  unfoldable pub prev_of : Color → Tree A → A → Tree A → List (Crumb A) → Option (Place A)
  unfolding rightmost_at climb_left
  prev_of c leaf a r path = climb_left (node c leaf a r) path
  prev_of c (node lc ll la lr) a r path = some (rightmost_at lc ll la lr (from_left c a r ∷ path))

  -- `rb_next` and `rb_prev`
  unfoldable pub rb_next : Place A → Option (Place A)
  unfolding next_of
  rb_next p = next_of p.color p.left p.item p.right p.path

  unfoldable pub rb_prev : Place A → Option (Place A)
  unfolding prev_of
  rb_prev p = prev_of p.color p.left p.item p.right p.path
