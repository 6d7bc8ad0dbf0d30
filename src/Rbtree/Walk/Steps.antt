-- ===== src/Rbtree/Walk/Steps.antt =====
-- `rb_next` and `rb_prev` of src/rbtree.c step through the sequence of a tree.
use mathlib.Core.List.{append_assoc, append-nil}
use files_co.Base.{◌≡◌, ◌∙◌, refl, List, [], ◌∷◌, ◌++◌, Option, none, some}
use files_co.Rbtree.{Color, Tree, leaf, node, Crumb, from_left, from_right, attach, zip}
use files_co.Rbtree.Order.{inorder, before, after}
use files_co.Rbtree.Walk.{
  Place, place, leftmost_at, rightmost_at, climb_right, climb_left, next_of, prev_of, rb_next,
  rb_prev,
}

module _ {A : Type 0} where
  -- The tree, and the sequence on both sides of a node
  unfoldable pub tree_of : Place A → Tree A
  tree_of p = zip p.path (node p.color p.left p.item p.right)

  unfoldable pub items_before : Place A → List A
  items_before p = before p.path ++ inorder p.left

  unfoldable pub items_after : Place A → List A
  items_after p = inorder p.right ++ after p.path

  -- The node behind `bef` and its own item: none, or one of the same tree
  unfoldable pub IsNext : Tree A → (bef aft : List A) → Option (Place A) → Type 0
  IsNext t bef aft none = aft ≡ []
  IsNext t bef aft (some q) =
      (tree_of q ≡ t) × (items_before q ≡ bef) × (q.item ∷ items_after q ≡ aft)

  unfoldable pub IsPrev : Tree A → (bef aft : List A) → Option (Place A) → Type 0
  IsPrev t bef aft none = bef ≡ []
  IsPrev t bef aft (some q) =
      (tree_of q ≡ t) × (items_before q ++ q.item ∷ [] ≡ bef) × (items_after q ≡ aft)

  leftmost_at-IsNext :
      (c : Color) (l : Tree A) (a : A) (r : Tree A) (path : List (Crumb A))
      → IsNext
          (zip path (node c l a r))
          (before path)
          (inorder (node c l a r) ++ after path)
          (some (leftmost_at c l a r path))
  unfolding IsNext leftmost_at place tree_of items_before items_after inorder zip attach before
      after
  leftmost_at-IsNext c leaf a r path = (refl, append-nil (before path), refl)
  leftmost_at-IsNext c (node lc ll la lr) a r path =
      let (t, b, o) = leftmost_at-IsNext lc ll la lr (from_left c a r ∷ path) in
      (t, b, o ∙ simp append_assoc)

  rightmost_at-IsPrev :
      (c : Color) (l : Tree A) (a : A) (r : Tree A) (path : List (Crumb A))
      → IsPrev
          (zip path (node c l a r))
          (before path ++ inorder (node c l a r))
          (after path)
          (some (rightmost_at c l a r path))
  unfolding IsPrev rightmost_at place tree_of items_before items_after inorder zip attach before
      after
  rightmost_at-IsPrev c l a leaf path = (refl, simp append_assoc, refl)
  rightmost_at-IsPrev c l a (node rc rl ra rr) path =
      let (t, b, o) = rightmost_at-IsPrev rc rl ra rr (from_right c a l ∷ path) in
      (t, b ∙ simp append_assoc, o)

  climb_right-IsNext :
      (t : Tree A) (path : List (Crumb A))
      → IsNext (zip path t) (before path ++ inorder t) (after path) (climb_right t path)
  unfolding IsNext climb_right place tree_of items_before items_after inorder zip attach before
      after
  climb_right-IsNext t [] = refl
  climb_right-IsNext t (from_right c a l ∷ path) =
      let e : before path ++ inorder (node c l a t)
          ≡ before path ++ inorder l ++ a ∷ [] ++ inorder t =
        simp append_assoc in
      rw e at (climb_right-IsNext (node c l a t) path)
  climb_right-IsNext t (from_left c a r ∷ path) = (refl, refl, refl)

  climb_left-IsPrev :
      (t : Tree A) (path : List (Crumb A))
      → IsPrev (zip path t) (before path) (inorder t ++ after path) (climb_left t path)
  unfolding IsPrev climb_left place tree_of items_before items_after inorder zip attach before after
  climb_left-IsPrev t [] = refl
  climb_left-IsPrev t (from_left c a r ∷ path) =
      let e : inorder (node c t a r) ++ after path ≡ inorder t ++ (a ∷ inorder r ++ after path) =
        simp append_assoc in
      rw e at (climb_left-IsPrev (node c t a r) path)
  climb_left-IsPrev t (from_right c a l ∷ path) = (refl, refl, refl)

  next_of-IsNext :
      (c : Color) (l : Tree A) (a : A) (r : Tree A) (path : List (Crumb A))
      → IsNext
          (zip path (node c l a r))
          (before path ++ inorder l ++ a ∷ [])
          (inorder r ++ after path)
          (next_of c l a r path)
  unfolding next_of inorder zip attach before after
  next_of-IsNext c l a leaf path =
      let e : before path ++ inorder (node c l a leaf) ≡ before path ++ inorder l ++ a ∷ [] =
        simp append_assoc in
      rw e at (climb_right-IsNext (node c l a leaf) path)
  next_of-IsNext c l a (node rc rl ra rr) path =
      leftmost_at-IsNext rc rl ra rr (from_right c a l ∷ path)

  prev_of-IsPrev :
      (c : Color) (l : Tree A) (a : A) (r : Tree A) (path : List (Crumb A))
      → IsPrev
          (zip path (node c l a r))
          (before path ++ inorder l)
          (a ∷ inorder r ++ after path)
          (prev_of c l a r path)
  unfolding prev_of inorder zip attach before after
  prev_of-IsPrev c leaf a r path =
      rw (append-nil (before path)) (climb_left-IsPrev (node c leaf a r) path)
  prev_of-IsPrev c (node lc ll la lr) a r path =
      rightmost_at-IsPrev lc ll la lr (from_left c a r ∷ path)

  -- From a place, `rb_next` is none when nothing follows the node in the sequence, and otherwise
  -- the place of the same tree whose item is the next one, with all the items up to this one
  -- before it
  pub rb_next-IsNext :
      (p : Place A) → IsNext (tree_of p) (items_before p ++ p.item ∷ []) (items_after p) (rb_next p)
  unfolding rb_next tree_of items_before items_after
  rb_next-IsNext p = next_of-IsNext p.color p.left p.item p.right p.path

  -- From a place, `rb_prev` is none when nothing precedes the node in the sequence, and otherwise
  -- the place of the same tree whose item is the last one before it
  pub rb_prev-IsPrev :
      (p : Place A) → IsPrev (tree_of p) (items_before p) (p.item ∷ items_after p) (rb_prev p)
  unfolding rb_prev tree_of items_before items_after
  rb_prev-IsPrev p = prev_of-IsPrev p.color p.left p.item p.right p.path
