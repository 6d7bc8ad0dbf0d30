-- ===== src/Rbtree/Order.antt =====
-- The order of the nodes of a red-black tree of src/rbtree.c, as a sequence.
use mathlib.Core.List.{append_assoc, append-nil}
use files_co.Base.{◌≡◌, ◌∙◌, refl, sym, List, [], ◌∷◌, ◌++◌}
use files_co.Rbtree.{
  Color, Tree, leaf, node, Crumb, from_left, from_right, attach, zip, set_color, set_left_color,
  set_right_color, rotate_left, rotate_right,
}

module _ {A : Type 0} where
  unfoldable pub inorder : Tree A → List A
  inorder leaf = []
  inorder (node c l a r) = inorder l ++ a ∷ inorder r

  -- The nodes before and behind a place
  unfoldable pub before : List (Crumb A) → List A
  before [] = []
  before (from_left c a r ∷ path) = before path
  before (from_right c a l ∷ path) = before path ++ inorder l ++ a ∷ []

  unfoldable pub after : List (Crumb A) → List A
  after [] = []
  after (from_left c a r ∷ path) = a ∷ inorder r ++ after path
  after (from_right c a l ∷ path) = after path

  pub inorder-zip :
      (path : List (Crumb A)) (t : Tree A)
      → inorder (zip path t) ≡ before path ++ inorder t ++ after path
  unfolding inorder before after zip attach
  inorder-zip [] t = sym (append-nil (inorder t))
  inorder-zip (from_left c a r ∷ path) t = inorder-zip path (node c t a r) ∙ simp append_assoc
  inorder-zip (from_right c a l ∷ path) t = inorder-zip path (node c l a t) ∙ simp append_assoc

  pub inorder-zip_same :
      (path : List (Crumb A)) (s t : Tree A)
      → inorder s ≡ inorder t
      → inorder (zip path s) ≡ inorder (zip path t)
  inorder-zip_same path s t e = inorder-zip path s ∙ rw e refl ∙ sym (inorder-zip path t)

  pub inorder-set_color : (c : Color) (t : Tree A) → inorder (set_color c t) ≡ inorder t
  unfolding inorder set_color
  inorder-set_color c leaf = refl
  inorder-set_color c (node c' l a r) = refl

  pub inorder-set_left_color : (c : Color) (t : Tree A) → inorder (set_left_color c t) ≡ inorder t
  unfolding inorder set_left_color
  inorder-set_left_color c leaf = refl
  inorder-set_left_color c (node c' l a r) = rw (inorder-set_color c l) refl

  pub inorder-set_right_color : (c : Color) (t : Tree A) → inorder (set_right_color c t) ≡ inorder t
  unfolding inorder set_right_color
  inorder-set_right_color c leaf = refl
  inorder-set_right_color c (node c' l a r) = rw (inorder-set_color c r) refl

  pub inorder-rotate_left : (t : Tree A) → inorder (rotate_left t) ≡ inorder t
  unfolding inorder rotate_left
  inorder-rotate_left leaf = refl
  inorder-rotate_left (node c l a leaf) = refl
  inorder-rotate_left (node c l a (node c' rl b rr)) =
      append_assoc (inorder l) (a ∷ inorder rl) (b ∷ inorder rr)

  pub inorder-rotate_right : (t : Tree A) → inorder (rotate_right t) ≡ inorder t
  unfolding inorder rotate_right
  inorder-rotate_right leaf = refl
  inorder-rotate_right (node c leaf a r) = refl
  inorder-rotate_right (node c (node c' ll b lr) a r) =
      sym (append_assoc (inorder ll) (b ∷ inorder lr) (a ∷ inorder r))
