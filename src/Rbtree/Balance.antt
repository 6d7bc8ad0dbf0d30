-- ===== src/Rbtree/Balance.antt =====
-- The balance of the trees of src/rbtree.c: a red node has no red child, and all ways down pass as
-- many black nodes.
use files_co.Base.{
  ℕ, suc, ◌≡◌, ◌⊎◌, refl, Bool, true, false, not, List, [], ◌∷◌, if◌then◌else◌, Bool-cases, inl,
  inr, arith,
}
use files_co.Rbtree.{
  red, black, Tree, leaf, node, Crumb, from_left, from_right, attach, zip, set_color, rb_red,
  red_crumb,
}

module _ {A : Type 0} where
  -- Below, and at, a node: `n` black nodes on each way down.
  unfoldable pub IsRb : Tree A → ℕ → Type 0
  IsRb leaf n = n ≡ 0
  IsRb (node red l a r) n = (rb_red l ≡ false) × (rb_red r ≡ false) × IsRb l n × IsRb r n
  IsRb (node black l a r) n = (m : ℕ) × (n ≡ suc m) × IsRb l m × IsRb r m

  -- A whole tree; its root is black.
  unfoldable pub IsRedBlack : Tree A → Type 0
  unfolding IsRb
  IsRedBlack t = (rb_red t ≡ false) × ((n : ℕ) × IsRb t n)

  unfoldable pub sibling : Crumb A → Tree A
  sibling (from_left c a t) = t
  sibling (from_right c a t) = t

  unfoldable pub red_top : List (Crumb A) → Bool
  red_top [] = false
  red_top (crumb ∷ path) = red_crumb crumb

  -- There is a parent, and it is black.
  unfoldable pub black_top : List (Crumb A) → Bool
  black_top [] = false
  black_top (crumb ∷ path) = not (red_crumb crumb)

  -- The way up from a place for trees with `n` black nodes on each way down.
  unfoldable pub PathRb : List (Crumb A) → ℕ → Type 0
  unfolding IsRb
  PathRb [] n = Unit {0}
  PathRb (crumb ∷ path) n =
      IsRb (sibling crumb) n
      × (red_crumb crumb ≡ true → (rb_red (sibling crumb) ≡ false) × (black_top path ≡ true))
      × PathRb path (if red_crumb crumb then n else suc n)

  pub black_top-red_top : (path : List (Crumb A)) → black_top path ≡ true → red_top path ≡ false
  unfolding black_top red_top
  black_top-red_top [] h = refl
  black_top-red_top (crumb ∷ path) h = ground arith

  attach_red :
      (crumb : Crumb A) (t : Tree A) (n : ℕ)
      → red_crumb crumb ≡ true
      → rb_red t ≡ false
      → rb_red (sibling crumb) ≡ false
      → IsRb t n
      → IsRb (sibling crumb) n
      → IsRb (attach crumb t) n
  unfolding red_crumb sibling attach IsRb
  attach_red (from_left red a s) t n c bt bs it is = (bt, bs, it, is)
  attach_red (from_right red a s) t n c bt bs it is = (bs, bt, is, it)
  attach_red (from_left black a s) t n c bt bs it is = absurd (ground (arith, c))
  attach_red (from_right black a s) t n c bt bs it is = absurd (ground (arith, c))

  pub attach_black :
      (crumb : Crumb A) (t : Tree A) (n : ℕ)
      → red_crumb crumb ≡ false
      → IsRb t n
      → IsRb (sibling crumb) n
      → IsRb (attach crumb t) (suc n) × (rb_red (attach crumb t) ≡ false)
  unfolding red_crumb sibling attach IsRb rb_red
  attach_black (from_left black a s) t n c it is = ((n, refl, it, is), refl)
  attach_black (from_right black a s) t n c it is = ((n, refl, is, it), refl)
  attach_black (from_left red a s) t n c it is = absurd (ground (arith, c))
  attach_black (from_right red a s) t n c it is = absurd (ground (arith, c))

  -- A tree at a place, whose color suits the parent
  pub zip-IsRb :
      (path : List (Crumb A)) (t : Tree A) (n : ℕ)
      → PathRb path n
      → IsRb t n
      → (rb_red t ≡ false) ⊎ (red_top path ≡ false)
      → (m : ℕ) × IsRb (zip path t) m
  unfolding zip PathRb red_top
  zip-IsRb [] t n p it c = (n, it)
  zip-IsRb (crumb ∷ path) t n (is, two, up) it c = elim (Bool-cases (red_crumb crumb)) [
    | inl e ↦
        let (bs, top) = two e in
        let bt : rb_red t ≡ false = ground (arith, c) in
        zip-IsRb path (attach crumb t) n (rw e at up) (attach_red crumb t n e bt bs it is)
          (inr (black_top-red_top path top))
    | inr e ↦
        let (ia, ba) = attach_black crumb t n e it is in
        zip-IsRb path (attach crumb t) (suc n) (rw e at up) ia (inl ba)
  ]

  pub black_IsRedBlack : (t : Tree A) (n : ℕ) → IsRb t n → IsRedBlack (set_color black t)
  unfolding IsRb IsRedBlack set_color rb_red
  black_IsRedBlack leaf n h = (refl, (n, h))
  black_IsRedBlack (node red l a r) n (bl, br, il, ir) = (refl, (suc n, (n, refl, il, ir)))
  black_IsRedBlack (node black l a r) n h = (refl, (n, h))

  -- A loop that ends with a subtree whose root is black, or that suits its parent
  pub settled :
      (path : List (Crumb A)) (t : Tree A) (n : ℕ)
      → PathRb path n
      → IsRb t n
      → (rb_red t ≡ false) ⊎ (red_top path ≡ false)
      → IsRedBlack (set_color black (zip path t))
  settled path t n p it c =
      let (m, im) = zip-IsRb path t n p it c in black_IsRedBlack (zip path t) m im
