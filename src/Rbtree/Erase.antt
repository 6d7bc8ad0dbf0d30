-- ===== src/Rbtree/Erase.antt =====
-- src/rbtree.c: `rb_erase` and `rb_erase_fix`.
pub mod Fix
pub mod Left
pub mod Right
pub mod Round
pub mod Loop
pub mod Removed
use files_co.Base.{
  ℕ, zero, suc, ◌+◌, Bool, true, false, ◌&&◌, List, [], ◌∷◌, ◌++◌, Option, none, some, length,
  if◌then◌else◌,
}
use files_co.Rbtree.{
  Color, red, black, Tree, leaf, node, Crumb, from_left, from_right, zip, rb_red, rb_black,
  set_color, set_left_color, set_right_color, rotate_left, rotate_right,
}

-- What a round of the loop of `rb_erase_fix` leaves at the place of the parent: `go_up` for a next
-- round with the parent as child, `stop` for the `break`; `null` is the use of a null pointer.
pub data Fixed (A : Type 0) : Type 0 where
  null : Fixed A
  go_up : Tree A → Fixed A
  stop : Tree A → Fixed A

module _ {A : Type 0} where
  -- The round behind the first `if`, for a left child `t` of a parent of color `pc`, and its brother
  unfoldable pub fix_left : (pc : Color) (t : Tree A) (p : A) (b : Tree A) → Fixed A
  unfolding rb_black rotate_left rotate_right set_right_color set_color
  fix_left pc t p leaf = null
  fix_left pc t p (node bc bl x br) =
      let b = node bc bl x br in
      let b' = if rb_black br then rotate_right (node red (set_color black bl) x br) else b in
      if rb_black bl && rb_black br
      then go_up (node pc t p (node red bl x br))
      else stop (rotate_left (node black t p (set_right_color black (set_color pc b'))))

  unfoldable pub fix_right : (pc : Color) (t : Tree A) (p : A) (b : Tree A) → Fixed A
  unfolding rb_black rotate_left rotate_right set_left_color set_color
  fix_right pc t p leaf = null
  fix_right pc t p (node bc bl x br) =
      let b = node bc bl x br in
      let b' = if rb_black bl then rotate_left (node red bl x (set_color black br)) else b in
      if rb_black br && rb_black bl
      then go_up (node pc (node red bl x br) p t)
      else stop (rotate_right (node black (set_left_color black (set_color pc b')) p t))

  -- `rb_erase_fix`, from the place of the child up; fuel is used up by each round. With a red brother,
  -- the rotation puts the parent, red then, below the brother, which is black then.
  unfoldable pub erase_fix : (fuel : ℕ) → Tree A → List (Crumb A) → Option (Tree A)
  erase_fix fuel t [] = some (set_color black t)
  erase_fix zero t (crumb ∷ path) = none
  erase_fix (suc fuel) t (from_left pc p (node red bl x br) ∷ path) = elim (rb_red t) [
    | true ↦ some (zip (from_left pc p (node red bl x br) ∷ path) (set_color black t))
    | false ↦ elim (fix_left red t p bl) [
      | null ↦ none
      | go_up u ↦ erase_fix fuel u (from_left black x br ∷ path)
      | stop u ↦ some (set_color black (zip (from_left black x br ∷ path) u))
    ]
  ]
  erase_fix (suc fuel) t (from_left pc p b ∷ path) = elim (rb_red t) [
    | true ↦ some (zip (from_left pc p b ∷ path) (set_color black t))
    | false ↦ elim (fix_left pc t p b) [
      | null ↦ none
      | go_up u ↦ erase_fix fuel u path
      | stop u ↦ some (set_color black (zip path u))
    ]
  ]
  erase_fix (suc fuel) t (from_right pc p (node red bl x br) ∷ path) = elim (rb_red t) [
    | true ↦ some (zip (from_right pc p (node red bl x br) ∷ path) (set_color black t))
    | false ↦ elim (fix_right red t p br) [
      | null ↦ none
      | go_up u ↦ erase_fix fuel u (from_right black x bl ∷ path)
      | stop u ↦ some (set_color black (zip (from_right black x bl ∷ path) u))
    ]
  ]
  erase_fix (suc fuel) t (from_right pc p b ∷ path) = elim (rb_red t) [
    | true ↦ some (zip (from_right pc p b ∷ path) (set_color black t))
    | false ↦ elim (fix_right pc t p b) [
      | null ↦ none
      | go_up u ↦ erase_fix fuel u path
      | stop u ↦ some (set_color black (zip path u))
    ]
  ]

  -- The first node of a tree, given by its parts: what it carries, its color, its right subtree, and
  -- the path from it to the root.
  unfoldable pub take_first :
      Color → Tree A → A → Tree A → List (Crumb A) → A × Color × Tree A × List (Crumb A)
  take_first c leaf a r spine = (a, c, r, spine)
  take_first c (node lc ll la lr) a r spine = take_first lc ll la lr (from_left c a r ∷ spine)

  -- The end of `rb_erase`: the child is at the place of a node of color `c`.
  unfoldable pub replace : (c : Color) (child : Tree A) → List (Crumb A) → Option (Tree A)
  unfolding erase_fix
  replace red child path = some (zip path child)
  replace black child path = erase_fix (length path + 2) child path

  -- `rb_erase` of the node at a place, given by its color and children; the node behind it takes its
  -- place if it has two.
  unfoldable pub rb_erase : (c : Color) (l r : Tree A) → List (Crumb A) → Option (Tree A)
  unfolding take_first replace
  rb_erase c leaf r path = replace c r path
  rb_erase c (node lc ll la lr) leaf path = replace c (node lc ll la lr) path
  rb_erase c (node lc ll la lr) (node rc rl ra rr) path =
      let (x, xc, child, spine) = take_first rc rl ra rr [] in
      replace xc child (spine ++ from_right c x (node lc ll la lr) ∷ path)
