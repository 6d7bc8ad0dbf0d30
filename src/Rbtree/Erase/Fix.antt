-- ===== src/Rbtree/Erase/Fix.antt =====
-- One round of `rb_erase_fix` of src/rbtree.c.
use files_co.Base.{ℕ, suc, ◌≡◌, ◌⊎◌, refl, true, false, List, inl, inr, arith}
use files_co.Rbtree.{Color, red, black, Tree, node, rb_red, set_color}
use files_co.Rbtree.Order.{inorder}
use files_co.Rbtree.Balance.{IsRb}
use files_co.Rbtree.Erase.{Fixed, null, go_up, stop}

-- The height above a node of color `c` with `n` below it.
unfoldable pub up_height : Color → ℕ → ℕ
up_height red n = n
up_height black n = suc n

module _ {A : Type 0} where
  -- The child of a round: one black node is missing on its ways down, or it is red, and it is right
  -- once it is black.
  unfoldable pub IsChild : Tree A → ℕ → Type 0
  IsChild t n =
      ((rb_red t ≡ true) × IsRb (set_color black t) (suc n)) ⊎ ((rb_red t ≡ false) × IsRb t n)

  -- A round for a parent of color `pc`, whose subtree has the sequence `o`: the missing black node is
  -- made up for, or is missing further up.
  unfoldable pub IsFixed : Color → ℕ → List A → Fixed A → Type 0
  unfolding IsChild
  IsFixed pc n o null = ⊥
  IsFixed pc n o (go_up u) =
      IsChild u (up_height pc n) × (pc ≡ red → rb_red u ≡ true) × (inorder u ≡ o)
  IsFixed pc n o (stop u) =
      IsRb u (up_height pc (suc n)) × (rb_red u ≡ true → pc ≡ red) × (inorder u ≡ o)

  pub top_node :
      (pc : Color) (l : Tree A) (a : A) (r : Tree A) (k : ℕ)
      → rb_red l ≡ false
      → rb_red r ≡ false
      → IsRb l k
      → IsRb r k
      → IsRb (node pc l a r) (up_height pc k) × (rb_red (node pc l a r) ≡ true → pc ≡ red)
  unfolding IsRb up_height rb_red
  top_node red l a r k bl br il ir = ((bl, br, il, ir), (λ h. refl))
  top_node black l a r k bl br il ir = ((k, refl, il, ir), (λ h. absurd (ground (arith, h))))

  pub node_red :
      (pc : Color) (l : Tree A) (a : A) (r : Tree A) → pc ≡ red → rb_red (node pc l a r) ≡ true
  unfolding rb_red
  node_red red l a r e = refl
  node_red black l a r e = absurd (ground (arith, e))

  pub top-IsChild :
      (pc : Color) (l : Tree A) (a : A) (r : Tree A) (n : ℕ)
      → IsRb l n
      → IsRb r n
      → IsChild (node pc l a r) (up_height pc n)
  unfolding IsRb up_height rb_red IsChild set_color
  top-IsChild red l a r n il ir = inl (refl, (n, refl, il, ir))
  top-IsChild black l a r n il ir = inr (refl, (n, refl, il, ir))
