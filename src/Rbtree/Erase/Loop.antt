-- ===== src/Rbtree/Erase/Loop.antt =====
-- The loop of `rb_erase_fix` of src/rbtree.c, from the place of the child to the root.
use mathlib.Core.List.{append_assoc}
use files_co.Base.{
  ℕ, zero, suc, ◌+◌, ◌≤◌, ◌<◌, ◌≡◌, refl, true, false, List, [], ◌∷◌, some, inl, inr, arith, length,
  if◌then◌else◌,
}
use files_co.Rbtree.{
  Color, red, black, Tree, leaf, node, Crumb, from_left, from_right, attach, zip, rb_red, red_crumb,
  set_color,
}
use files_co.Rbtree.Order.{inorder, inorder-set_color, inorder-zip_same}
use files_co.Rbtree.Balance.{IsRb, IsRedBlack, PathRb, sibling, black_top, black_IsRedBlack}
use files_co.Rbtree.Erase.{fix_left, fix_right, erase_fix}
use files_co.Rbtree.Erase.Fix.{up_height, IsChild}
use files_co.Rbtree.Erase.Left.{fix_left-IsFixed}
use files_co.Rbtree.Erase.Right.{fix_right-IsFixed}
use files_co.Rbtree.Erase.Round.{IsTree, black_root, red_child, round}

module _ {A : Type 0} where
  -- A round at a red child
  erase_fix_red :
      (fuel : ℕ) (t : Tree A) (crumb : Crumb A) (path : List (Crumb A))
      → rb_red t ≡ true
      → erase_fix (suc fuel) t (crumb ∷ path) ≡ some (zip (crumb ∷ path) (set_color black t))
  unfolding erase_fix
  erase_fix_red fuel t (from_left pc p leaf) path e = rw (e, erase_fix) refl
  erase_fix_red fuel t (from_left pc p (node red bl x br)) path e = rw (e, erase_fix) refl
  erase_fix_red fuel t (from_left pc p (node black bl x br)) path e = rw (e, erase_fix) refl
  erase_fix_red fuel t (from_right pc p leaf) path e = rw (e, erase_fix) refl
  erase_fix_red fuel t (from_right pc p (node red bl x br)) path e = rw (e, erase_fix) refl
  erase_fix_red fuel t (from_right pc p (node black bl x br)) path e = rw (e, erase_fix) refl

  crumb_left : (pc : Color) (p : A) (b : Tree A) → pc ≡ red → red_crumb (from_left pc p b) ≡ true
  unfolding red_crumb
  crumb_left red p b e = refl
  crumb_left black p b e = absurd (ground (arith, e))

  up_left :
      (pc : Color) (p : A) (b : Tree A) (path : List (Crumb A)) (n : ℕ)
      → PathRb path (if red_crumb (from_left pc p b) then suc n else suc (suc n))
      → PathRb path (up_height pc (suc n))
  unfolding red_crumb up_height
  up_left red p b path n h = h
  up_left black p b path n h = h

  -- The parent of a red brother is black.
  red_brother_left :
      (pc : Color) (p : A) (b : Tree A) (path : List (Crumb A)) (n : ℕ)
      → (red_crumb (from_left pc p b) ≡ true → (rb_red b ≡ false) × (black_top path ≡ true))
      → rb_red b ≡ true
      → PathRb path (if red_crumb (from_left pc p b) then suc n else suc (suc n))
      → PathRb path (suc (suc n))
  unfolding red_crumb
  red_brother_left red p b path n two rb up =
      let (bb, top) = two refl in absurd (ground (arith, rb, bb))
  red_brother_left black p b path n two rb up = up

  swing_left :
      (u t : Tree A) (p : A) (bl : Tree A) (x : A) (br : Tree A) (pc : Color)
      → inorder u ≡ inorder (node red t p bl)
      → inorder (node black u x br) ≡ inorder (node pc t p (node red bl x br))
  unfolding inorder
  swing_left u t p bl x br pc e = rw e (simp append_assoc)

  crumb_right : (pc : Color) (p : A) (b : Tree A) → pc ≡ red → red_crumb (from_right pc p b) ≡ true
  unfolding red_crumb
  crumb_right red p b e = refl
  crumb_right black p b e = absurd (ground (arith, e))

  up_right :
      (pc : Color) (p : A) (b : Tree A) (path : List (Crumb A)) (n : ℕ)
      → PathRb path (if red_crumb (from_right pc p b) then suc n else suc (suc n))
      → PathRb path (up_height pc (suc n))
  unfolding red_crumb up_height
  up_right red p b path n h = h
  up_right black p b path n h = h

  -- The parent of a red brother is black.
  red_brother_right :
      (pc : Color) (p : A) (b : Tree A) (path : List (Crumb A)) (n : ℕ)
      → (red_crumb (from_right pc p b) ≡ true → (rb_red b ≡ false) × (black_top path ≡ true))
      → rb_red b ≡ true
      → PathRb path (if red_crumb (from_right pc p b) then suc n else suc (suc n))
      → PathRb path (suc (suc n))
  unfolding red_crumb
  red_brother_right red p b path n two rb up =
      let (bb, top) = two refl in absurd (ground (arith, rb, bb))
  red_brother_right black p b path n two rb up = up

  swing_right :
      (u t : Tree A) (p : A) (bl : Tree A) (x : A) (br : Tree A) (pc : Color)
      → inorder u ≡ inorder (node red br p t)
      → inorder (node black bl x u) ≡ inorder (node pc (node red bl x br) p t)
  unfolding inorder
  swing_right u t p bl x br pc e = rw e (simp append_assoc)

  higher :
      (pc : Color) (n : ℕ) (path : List (Crumb A))
      → PathRb path (up_height pc (suc n))
      → PathRb path (suc (up_height pc n))
  unfolding up_height
  higher red n path h = h
  higher black n path h = h

  red_end :
      (fuel : ℕ) (u : Tree A) (crumb : Crumb A) (path : List (Crumb A)) (n : ℕ)
      → PathRb (crumb ∷ path) (suc n)
      → IsChild u n
      → rb_red u ≡ true
      → 0 < fuel
      → IsTree (inorder (zip (crumb ∷ path) u)) (erase_fix fuel u (crumb ∷ path))
  unfolding IsChild
  red_end zero u crumb path n p c r h = absurd (omega arith)
  red_end (suc fuel) u crumb path n p (inl (r', i)) r h =
      rw (erase_fix_red fuel u crumb path r) (red_child u (crumb ∷ path) n p i)
  red_end (suc fuel) u crumb path n p (inr (b, i)) r h = absurd (ground (arith, r, b))

  root_end : (t : Tree A) (n : ℕ) → IsChild t n → IsTree (inorder t) (some (set_color black t))
  unfolding IsChild IsTree IsRedBlack
  root_end t n (inl (r, i)) =
      (set_color black t, refl, (black_root t, (suc n, i)), inorder-set_color black t)
  root_end t n (inr (b, i)) =
      (set_color black t, refl, black_IsRedBlack t n i, inorder-set_color black t)

  -- `rb_erase_fix` comes to its end and uses no null pointer; it gives a red-black tree with the same
  -- sequence, if one black node was missing on the ways through the child.
  pub erase_fix-IsTree :
      (fuel : ℕ) (t : Tree A) (path : List (Crumb A)) (n : ℕ)
      → PathRb path (suc n)
      → IsChild t n
      → length path + 2 ≤ fuel
      → IsTree (inorder (zip path t)) (erase_fix fuel t path)
  unfolding erase_fix PathRb IsRb IsChild rb_red sibling zip attach red_crumb black_top up_height
  erase_fix-IsTree fuel t [] n p ch h = root_end t n ch
  erase_fix-IsTree zero t (crumb ∷ path) n p ch h = absurd (omega arith)
  erase_fix-IsTree (suc fuel) t (crumb ∷ path) n p (inl (r, i)) h =
      red_end (suc fuel) t crumb path n p (inl (r, i)) r (omega arith)
  erase_fix-IsTree (suc fuel) t (from_left pc p leaf ∷ path) n (ib, two, up) ch h =
      absurd (omega (arith, ib))
  erase_fix-IsTree (suc fuel) t (from_left pc p (node black bl x br) ∷ path) n (ib, two, up)
        (inr (bt, it)) h =
      rw (bt, erase_fix)
        (round pc n fuel (inorder (node pc t p (node black bl x br)))
          (inorder (zip (from_left pc p (node black bl x br) ∷ path) t))
          (fix_left pc t p (node black bl x br)) path
          (fix_left-IsFixed pc t p (node black bl x br) n it ib refl)
          (up_left pc p (node black bl x br) path n up)
          (λ e. (two (crumb_left pc p (node black bl x br) e)).1)
          (λ u e. inorder-zip_same path u (node pc t p (node black bl x br)) e)
          (λ u c r.
            erase_fix-IsTree fuel u path (up_height pc n)
              (higher pc n path (up_left pc p (node black bl x br) path n up)) c
              (omega (arith, h))))
  erase_fix-IsTree (suc fuel) t (from_left pc p (node red bl x br) ∷ path) n
        ((b1, b2, i1, i2), two, up) (inr (bt, it)) h =
      let up' = red_brother_left pc p (node red bl x br) path n two refl up in
      let path' = from_left black x br ∷ path in
      let p' : PathRb path' (suc n) = (i2, (λ e. absurd (ground (arith, e))), up') in
      rw (bt, erase_fix)
        (round red n fuel (inorder (node red t p bl))
          (inorder (zip (from_left pc p (node red bl x br) ∷ path) t)) (fix_left red t p bl) path'
          (fix_left-IsFixed red t p bl n it i1 b1) p' (λ e. refl)
          (λ u e.
            inorder-zip_same path (node black u x br) (node pc t p (node red bl x br))
              (swing_left u t p bl x br pc e))
          (λ u c r. red_end fuel u (from_left black x br) path n p' c (r refl) (omega (arith, h))))
  erase_fix-IsTree (suc fuel) t (from_right pc p leaf ∷ path) n (ib, two, up) ch h =
      absurd (omega (arith, ib))
  erase_fix-IsTree (suc fuel) t (from_right pc p (node black bl x br) ∷ path) n (ib, two, up)
        (inr (bt, it)) h =
      rw (bt, erase_fix)
        (round pc n fuel (inorder (node pc (node black bl x br) p t))
          (inorder (zip (from_right pc p (node black bl x br) ∷ path) t))
          (fix_right pc t p (node black bl x br)) path
          (fix_right-IsFixed pc t p (node black bl x br) n it ib refl)
          (up_right pc p (node black bl x br) path n up)
          (λ e. (two (crumb_right pc p (node black bl x br) e)).1)
          (λ u e. inorder-zip_same path u (node pc (node black bl x br) p t) e)
          (λ u c r.
            erase_fix-IsTree fuel u path (up_height pc n)
              (higher pc n path (up_right pc p (node black bl x br) path n up)) c
              (omega (arith, h))))
  erase_fix-IsTree (suc fuel) t (from_right pc p (node red bl x br) ∷ path) n
        ((b1, b2, i1, i2), two, up) (inr (bt, it)) h =
      let up' = red_brother_right pc p (node red bl x br) path n two refl up in
      let path' = from_right black x bl ∷ path in
      let p' : PathRb path' (suc n) = (i1, (λ e. absurd (ground (arith, e))), up') in
      rw (bt, erase_fix)
        (round red n fuel (inorder (node red br p t))
          (inorder (zip (from_right pc p (node red bl x br) ∷ path) t)) (fix_right red t p br) path'
          (fix_right-IsFixed red t p br n it i2 b2) p' (λ e. refl)
          (λ u e.
            inorder-zip_same path (node black bl x u) (node pc (node red bl x br) p t)
              (swing_right u t p bl x br pc e))
          (λ u c r. red_end fuel u (from_right black x bl) path n p' c (r refl) (omega (arith, h))))
