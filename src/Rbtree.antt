-- ===== src/Rbtree.antt =====
-- src/rbtree.c and inc/rbtree.h: red-black trees. A pointer to a node is a place in the tree: the
-- subtree there, and the path to the root, which stands for the links to parents. `A` is what the
-- nodes carry; the parent links' lowest bit is the color.
pub mod Order
pub mod Balance
pub mod Insert
pub mod Place
pub mod Erase
pub mod Walk
mod Tests
use files_co.Base.{
  ℕ, zero, suc, ◌+◌, Bool, true, false, not, ◌&&◌, List, [], ◌∷◌, ◌++◌, Option, none, some, length,
  if◌then◌else◌,
}

-- `RED` and `BLACK`
pub data Color : Type 0 where
  red : Color
  black : Color

-- `struct rb_node`; a null pointer is `leaf`.
pub data Tree (A : Type 0) : Type 0 where
  leaf : Tree A
  node : Color → Tree A → A → Tree A → Tree A

-- A node above a place: the place is its left or its right child; what it has besides.
pub data Crumb (A : Type 0) : Type 0 where
  from_left : Color → A → Tree A → Crumb A
  from_right : Color → A → Tree A → Crumb A

module _ {A : Type 0} where
  -- The subtree at the parent, and the whole tree
  unfoldable pub attach : Crumb A → Tree A → Tree A
  attach (from_left c a r) t = node c t a r
  attach (from_right c a l) t = node c l a t

  unfoldable pub zip : List (Crumb A) → Tree A → Tree A
  zip [] t = t
  zip (crumb ∷ path) t = zip path (attach crumb t)

  -- `rb_red` and `rb_black`, of a pointer that may be null
  unfoldable pub rb_red : Tree A → Bool
  rb_red (node red l a r) = true
  rb_red _ = false

  unfoldable pub rb_black : Tree A → Bool
  unfolding rb_red
  rb_black t = not (rb_red t)

  unfoldable pub set_color : Color → Tree A → Tree A
  set_color c leaf = leaf
  set_color c (node c' l a r) = node c l a r

  unfoldable pub set_left_color : Color → Tree A → Tree A
  unfolding set_color
  set_left_color c leaf = leaf
  set_left_color c (node c' l a r) = node c' (set_color c l) a r

  unfoldable pub set_right_color : Color → Tree A → Tree A
  unfolding set_color
  set_right_color c leaf = leaf
  set_right_color c (node c' l a r) = node c' l a (set_color c r)

  -- `rb_rotate_left`, at the place of `x`; nodes keep their colors.
  unfoldable pub rotate_left : Tree A → Tree A
  rotate_left (node c l x (node c' rl r rr)) = node c' (node c l x rl) r rr
  rotate_left t = t

  -- `rb_rotate_right`
  unfoldable pub rotate_right : Tree A → Tree A
  rotate_right (node c (node c' ll l lr) x r) = node c' ll l (node c lr x r)
  rotate_right t = t

  -- `rb_red(p)`, for the parent of a place
  unfoldable pub red_crumb : Crumb A → Bool
  red_crumb (from_left red a t) = true
  red_crumb (from_left black a t) = false
  red_crumb (from_right red a t) = true
  red_crumb (from_right black a t) = false

  unfoldable pub is_right : Crumb A → Bool
  is_right (from_left c a t) = false
  is_right (from_right c a t) = true

  -- The two halves of the loop of `rb_insert`: `p` is the subtree at the parent, and `place` the side
  -- of the node; the first is for a parent that is a left child.
  unfoldable pub turn_left_child :
      (place : Crumb A) (p : Tree A) (gc : Color) (g : A) (r : Tree A) → Tree A
  turn_left_child place p gc g r =
      let p' = if is_right place then rotate_left p else p in
      set_right_color red (set_color black (rotate_right (node gc p' g r)))

  unfoldable pub turn_right_child :
      (place : Crumb A) (p : Tree A) (gc : Color) (g : A) (l : Tree A) → Tree A
  turn_right_child place p gc g l =
      let p' = if is_right place then p else rotate_right p in
      set_left_color red (set_color black (rotate_left (node gc l g p')))

  -- `rb_insert`: the loop, from the place of the node up. `none` is the use of a null pointer, the
  -- parent of a red root.
  unfoldable pub rb_insert : Tree A → List (Crumb A) → Option (Tree A)
  rb_insert t [] = some (set_color black t)
  rb_insert t (place ∷ []) = elim (red_crumb place) [
    | true ↦ none
    | false ↦ some (set_color black (attach place t))
  ]
  rb_insert t (place ∷ from_left gc g r ∷ path) = elim (red_crumb place) [
    | false ↦ some (set_color black (zip (place ∷ from_left gc g r ∷ path) t))
    | true ↦ elim (rb_red r) [
      | true ↦ rb_insert (node red (set_color black (attach place t)) g (set_color black r)) path
      | false ↦ some (set_color black (zip path (turn_left_child place (attach place t) gc g r)))
    ]
  ]
  rb_insert t (place ∷ from_right gc g l ∷ path) = elim (red_crumb place) [
    | false ↦ some (set_color black (zip (place ∷ from_right gc g l ∷ path) t))
    | true ↦ elim (rb_red l) [
      | true ↦ rb_insert (node red (set_color black l) g (set_color black (attach place t))) path
      | false ↦ some (set_color black (zip path (turn_right_child place (attach place t) gc g l)))
    ]
  ]

  -- The walk down to a null pointer that callers of `rb_link` make: to the right where `right` holds.
  unfoldable pub find_place : (right : A → Bool) → Tree A → List (Crumb A) → List (Crumb A)
  find_place right leaf path = path
  find_place right (node c l a r) path = elim (right a) [
    | true ↦ find_place right r (from_right c a l ∷ path)
    | false ↦ find_place right l (from_left c a r ∷ path)
  ]

  -- `rb_link` and `rb_insert` of a new node
  unfoldable pub insert_at : (right : A → Bool) → A → Tree A → Option (Tree A)
  insert_at right a t = rb_insert (node red leaf a leaf) (find_place right t [])
