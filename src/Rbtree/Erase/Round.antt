-- ===== src/Rbtree/Erase/Round.antt =====
-- One round of the loop of `rb_erase_fix` of src/rbtree.c, and its ends.
use files_co.Base.{
  ℕ, suc, ◌≡◌, ◌∙◌, ◌⊎◌, refl, sym, true, false, List, [], ◌∷◌, Option, none, some, Bool-cases, inl,
  inr, arith, if◌then◌else◌,
}
use files_co.Rbtree.{
  Color, red, black, Tree, leaf, node, Crumb, from_left, from_right, attach, zip, rb_red, red_crumb,
  set_color,
}
use files_co.Rbtree.Order.{inorder, inorder-set_color, inorder-zip_same}
use files_co.Rbtree.Balance.{
  IsRb, IsRedBlack, PathRb, red_top, black_top, black_top-red_top, zip-IsRb, settled,
}
use files_co.Rbtree.Erase.{Fixed, null, go_up, stop, erase_fix}
use files_co.Rbtree.Erase.Fix.{up_height, IsChild, IsFixed}

module _ {A : Type 0} where
  -- A red-black tree with the sequence `o`
  unfoldable pub IsTree : List A → Option (Tree A) → Type 0
  IsTree o r = (t' : Tree A) × (r ≡ some t') × IsRedBlack t' × (inorder t' ≡ o)

  pub black_root : (t : Tree A) → rb_red (set_color black t) ≡ false
  unfolding rb_red set_color
  black_root leaf = refl
  black_root (node c l a r) = refl

  pub attach_color : (crumb : Crumb A) (t : Tree A) → rb_red (attach crumb t) ≡ red_crumb crumb
  unfolding rb_red attach red_crumb
  attach_color (from_left red a s) t = refl
  attach_color (from_left black a s) t = refl
  attach_color (from_right red a s) t = refl
  attach_color (from_right black a s) t = refl

  -- The root is black if there is a path to it, or the place is its own.
  pub zip_root :
      (path : List (Crumb A)) (t : Tree A) (n : ℕ)
      → PathRb path n
      → (rb_red t ≡ true → black_top path ≡ true)
      → rb_red (zip path t) ≡ false
  unfolding zip PathRb black_top
  zip_root [] t n p c = ground (arith, c)
  zip_root (crumb ∷ path) t n (is, two, up) c =
      zip_root path (attach crumb t) (if red_crumb crumb then n else suc n) up
        (λ h. (two (sym (attach_color crumb t) ∙ h)).1)

  -- The loop ends at a red child, or at the root.
  pub red_child :
      (t : Tree A) (path : List (Crumb A)) (n : ℕ)
      → PathRb path (suc n)
      → IsRb (set_color black t) (suc n)
      → IsTree (inorder (zip path t)) (some (zip path (set_color black t)))
  unfolding IsTree IsRedBlack
  red_child t path n p i =
      let b = black_root t in
      (
        zip path (set_color black t),
        refl,
        (
          zip_root path (set_color black t) (suc n) p (λ h. absurd (ground (arith, h, b))),
          zip-IsRb path (set_color black t) (suc n) p i (inl b),
        ),
        inorder-zip_same path (set_color black t) t (inorder-set_color black t),
      )

  pub stop_tree :
      (path : List (Crumb A)) (u : Tree A) (k : ℕ) (seq : List A)
      → PathRb path k
      → IsRb u k
      → (rb_red u ≡ false) ⊎ (red_top path ≡ false)
      → inorder (zip path u) ≡ seq
      → IsTree seq (some (set_color black (zip path u)))
  unfolding IsTree
  stop_tree path u k seq p i c o = (
    set_color black (zip path u),
    refl,
    settled path u k p i c,
    inorder-set_color black (zip path u) ∙ o,
  )

  -- One round, by what `fix_left` or `fix_right` gave
  pub round :
      (pc : Color) (n fuel : ℕ) (o seq : List A) (f : Fixed A) (path : List (Crumb A))
      → IsFixed pc n o f
      → PathRb path (up_height pc (suc n))
      → (pc ≡ red → black_top path ≡ true)
      → ((u : Tree A) → inorder u ≡ o → inorder (zip path u) ≡ seq)
      → ((u : Tree A)
          → IsChild u (up_height pc n)
          → (pc ≡ red → rb_red u ≡ true)
          → IsTree (inorder (zip path u)) (erase_fix fuel u path))
      → IsTree seq (elim f [
        | null ↦ none
        | go_up u ↦ erase_fix fuel u path
        | stop u ↦ some (set_color black (zip path u))
      ])
  unfolding IsFixed IsTree
  round pc n fuel o seq null path i p top order next = absurd i
  round pc n fuel o seq (go_up u) path (c, isred, e) p top order next =
      let (t', run, ok, e') = next u c isred in (t', run, ok, e' ∙ order u e)
  round pc n fuel o seq (stop u) path (i, c, e) p top order next = elim (Bool-cases (rb_red u)) [
    | inl h ↦
        stop_tree path u (up_height pc (suc n)) seq p i (inr (black_top-red_top path (top (c h))))
          (order u e)
    | inr h ↦ stop_tree path u (up_height pc (suc n)) seq p i (inl h) (order u e)
  ]
