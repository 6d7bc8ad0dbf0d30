-- ===== src/Rbtree/Insert.antt =====
-- `rb_insert` of src/rbtree.c.
use files_co.Base.{
  ℕ, suc, ◌≡◌, ◌∙◌, refl, Bool, true, false, List, [], ◌∷◌, Option, some, Bool-cases, inl, inr,
  arith, ◌⊎◌, if◌then◌else◌,
}
use files_co.Rbtree.{
  Color, red, black, Tree, leaf, node, Crumb, from_left, from_right, attach, zip, set_color,
  set_left_color, set_right_color, rotate_left, rotate_right, is_right, rb_red, red_crumb,
  turn_left_child, turn_right_child, rb_insert,
}
use files_co.Rbtree.Order.{
  inorder, inorder-zip_same, inorder-set_color, inorder-set_left_color, inorder-set_right_color,
  inorder-rotate_left, inorder-rotate_right,
}
use files_co.Rbtree.Balance.{IsRb, IsRedBlack, PathRb, sibling, red_top, black_top, settled}

module _ {A : Type 0} where
  turn_left_IsRb :
      (place : Crumb A) (t : Tree A) (gc : Color) (g : A) (r : Tree A) (n : ℕ)
      → red_crumb place ≡ true
      → rb_red t ≡ true
      → rb_red (sibling place) ≡ false
      → rb_red r ≡ false
      → IsRb t n
      → IsRb (sibling place) n
      → IsRb r n
      → IsRb (turn_left_child place (attach place t) gc g r) (suc n)
        × (rb_red (turn_left_child place (attach place t) gc g r) ≡ false)
  unfolding turn_left_child attach sibling red_crumb rb_red rotate_left rotate_right set_right_color
      is_right IsRb
  turn_left_IsRb (from_left red p s) t gc g r n c rt bs br it is ir =
      ((n, refl, it, (bs, br, is, ir)), refl)
  turn_left_IsRb (from_right red p s) (node red tl a t') gc g r n c rt bs br (btl, btr, itl, itr) is
        ir =
      ((n, refl, (bs, btl, is, itl), (btr, br, itr, ir)), refl)
  turn_left_IsRb (from_right red p s) leaf gc g r n c rt bs br it is ir =
      absurd (ground (arith, rt))
  turn_left_IsRb (from_right red p s) (node black tl a t') gc g r n c rt bs br it is ir =
      absurd (ground (arith, rt))
  turn_left_IsRb (from_left black p s) t gc g r n c rt bs br it is ir = absurd (ground (arith, c))
  turn_left_IsRb (from_right black p s) t gc g r n c rt bs br it is ir = absurd (ground (arith, c))

  turn_right_IsRb :
      (place : Crumb A) (t : Tree A) (gc : Color) (g : A) (l : Tree A) (n : ℕ)
      → red_crumb place ≡ true
      → rb_red t ≡ true
      → rb_red (sibling place) ≡ false
      → rb_red l ≡ false
      → IsRb t n
      → IsRb (sibling place) n
      → IsRb l n
      → IsRb (turn_right_child place (attach place t) gc g l) (suc n)
        × (rb_red (turn_right_child place (attach place t) gc g l) ≡ false)
  unfolding turn_right_child attach sibling red_crumb rb_red rotate_left rotate_right set_left_color
      is_right IsRb
  turn_right_IsRb (from_right red p s) t gc g l n c rt bs bl it is il =
      ((n, refl, (bl, bs, il, is), it), refl)
  turn_right_IsRb (from_left red p s) (node red tl a t') gc g l n c rt bs bl (btl, btr, itl, itr) is
        il =
      ((n, refl, (bl, btl, il, itl), (btr, bs, itr, is)), refl)
  turn_right_IsRb (from_left red p s) leaf gc g l n c rt bs bl it is il =
      absurd (ground (arith, rt))
  turn_right_IsRb (from_left red p s) (node black tl a t') gc g l n c rt bs bl it is il =
      absurd (ground (arith, rt))
  turn_right_IsRb (from_left black p s) t gc g l n c rt bs bl it is il = absurd (ground (arith, c))
  turn_right_IsRb (from_right black p s) t gc g l n c rt bs bl it is il = absurd (ground (arith, c))

  pick_same :
      (b : Bool) (s t u : Tree A)
      → inorder s ≡ inorder u
      → inorder t ≡ inorder u
      → inorder (if b then s else t) ≡ inorder u
  pick_same true s t u e e' = e
  pick_same false s t u e e' = e'

  inorder-node :
      (c c' : Color) (a : A) (l l' r r' : Tree A)
      → inorder l ≡ inorder l'
      → inorder r ≡ inorder r'
      → inorder (node c l a r) ≡ inorder (node c' l' a r')
  unfolding inorder
  inorder-node c c' a l l' r r' e e' = rw (e, e') refl

  inorder-turn_left :
      (place : Crumb A) (p : Tree A) (gc : Color) (g : A) (r : Tree A)
      → inorder (turn_left_child place p gc g r) ≡ inorder (node gc p g r)
  unfolding turn_left_child
  inorder-turn_left place p gc g r =
      let p' = if is_right place then rotate_left p else p in
      inorder-set_right_color red (set_color black (rotate_right (node gc p' g r)))
      ∙ inorder-set_color black (rotate_right (node gc p' g r))
      ∙ inorder-rotate_right (node gc p' g r)
      ∙ inorder-node gc gc g p' p r r
          (pick_same (is_right place) (rotate_left p) p p (inorder-rotate_left p) refl) refl

  inorder-turn_right :
      (place : Crumb A) (p : Tree A) (gc : Color) (g : A) (l : Tree A)
      → inorder (turn_right_child place p gc g l) ≡ inorder (node gc l g p)
  unfolding turn_right_child
  inorder-turn_right place p gc g l =
      let p' = if is_right place then p else rotate_right p in
      inorder-set_left_color red (set_color black (rotate_left (node gc l g p')))
      ∙ inorder-set_color black (rotate_left (node gc l g p'))
      ∙ inorder-rotate_left (node gc l g p')
      ∙ inorder-node gc gc g l l p' p refl
          (pick_same (is_right place) p (rotate_right p) p refl (inorder-rotate_right p))

  -- The parent that is made black below a red grandparent
  parent_IsRb :
      (place : Crumb A) (t : Tree A) (n : ℕ)
      → IsRb t n
      → IsRb (sibling place) n
      → IsRb (set_color black (attach place t)) (suc n)
        × (rb_red (set_color black (attach place t)) ≡ false)
  unfolding attach sibling set_color IsRb rb_red
  parent_IsRb (from_left c p s) t n it is = ((n, refl, it, is), refl)
  parent_IsRb (from_right c p s) t n it is = ((n, refl, is, it), refl)

  pub uncle_IsRb :
      (r : Tree A) (n : ℕ)
      → rb_red r ≡ true
      → IsRb r n
      → IsRb (set_color black r) (suc n) × (rb_red (set_color black r) ≡ false)
  unfolding set_color IsRb rb_red
  uncle_IsRb leaf n e h = absurd (ground (arith, e))
  uncle_IsRb (node red l a r) n e (bl, br, il, ir) = ((n, refl, il, ir), refl)
  uncle_IsRb (node black l a r) n e h = absurd (ground (arith, e))

  -- What `rb_insert` makes of a red node at a place
  unfoldable pub Inserted : Tree A → List (Crumb A) → Option (Tree A) → Type 0
  Inserted t path o =
      (t' : Tree A) × (o ≡ some t') × IsRedBlack t' × (inorder t' ≡ inorder (zip path t))

  ended :
      (t u : Tree A) (path path' : List (Crumb A)) (n : ℕ)
      → PathRb path' n
      → IsRb u n
      → (rb_red u ≡ false) ⊎ (red_top path' ≡ false)
      → inorder (zip path' u) ≡ inorder (zip path t)
      → Inserted t path (some (set_color black (zip path' u)))
  unfolding Inserted
  ended t u path path' n p iu c e = (
    set_color black (zip path' u),
    refl,
    settled path' u n p iu c,
    inorder-set_color black (zip path' u) ∙ e,
  )

  -- The loop ends below a black parent.
  parent_black :
      (t : Tree A) (place : Crumb A) (path : List (Crumb A)) (n : ℕ)
      → PathRb (place ∷ path) n
      → IsRb t n
      → red_crumb place ≡ false
      → Inserted t (place ∷ path) (some (set_color black (zip (place ∷ path) t)))
  parent_black t place path n p it e =
      ended t t (place ∷ path) (place ∷ path) n p it (unfold red_top in inr e) refl

  step_up :
      (t u : Tree A) (path path' : List (Crumb A)) (o : Option (Tree A))
      → Inserted u path' o
      → inorder (zip path' u) ≡ inorder (zip path t)
      → Inserted t path o
  unfolding Inserted
  step_up t u path path' o (t', e, i, same) up = (t', e, i, same ∙ up)

  pub rb_insert-Inserted :
      (t : Tree A) (path : List (Crumb A)) (n : ℕ)
      → PathRb path n
      → IsRb t n
      → rb_red t ≡ true
      → Inserted t path (rb_insert t path)
  unfolding rb_insert PathRb black_top zip attach
  rb_insert-Inserted t [] n p it rt = ended t t [] [] n p it (unfold red_top in inr refl) refl
  rb_insert-Inserted t (place ∷ []) n (is, two, up) it rt = elim (Bool-cases (red_crumb place)) [
    | inl e ↦ absurd (ground (arith, (two e).1))
    | inr e ↦ rw (e, rb_insert) (parent_black t place [] n (is, two, up) it e)
  ]
  rb_insert-Inserted t (place ∷ from_left gc g r ∷ path) n (is, two, (ir, two', up)) it rt =
      elim (Bool-cases (red_crumb place)) [
        | inr e ↦
            rw (e, rb_insert)
              (parent_black t place (from_left gc g r ∷ path) n (is, two, (ir, two', up)) it e)
        | inl e ↦
            let (bs, top) = two e in
            let gb : red_crumb (from_left gc g r) ≡ false = ground (arith, top) in
            let up' : PathRb path (suc n) = rw (gb, e) at up in
            let ir' : IsRb r n = unfold sibling in rw e at ir in
            elim (Bool-cases (rb_red r)) [
              | inl er ↦
                  let (ip, bp) = parent_IsRb place t n it is in
                  let (iu, bu) = uncle_IsRb r n er ir' in
                  let u = node red (set_color black (attach place t)) g (set_color black r) in
                  rw (e, er, rb_insert)
                    (step_up t u (place ∷ from_left gc g r ∷ path) path (rb_insert u path)
                      (rb_insert-Inserted u path (suc n) up' (unfold IsRb in (bp, bu, ip, iu))
                        (unfold rb_red in refl))
                      (inorder-zip_same path u (node gc (attach place t) g r) (
                        inorder-node red gc g (set_color black (attach place t)) (attach place t)
                          (set_color black r) r (inorder-set_color black (attach place t))
                          (inorder-set_color black r))))
              | inr er ↦
                  let (iu, bu) = turn_left_IsRb place t gc g r n e rt bs er it is ir' in
                  let u = turn_left_child place (attach place t) gc g r in
                  rw (e, er, rb_insert)
                    (ended t u (place ∷ from_left gc g r ∷ path) path (suc n) up' iu (inl bu) (
                      inorder-zip_same path u (node gc (attach place t) g r)
                        (inorder-turn_left place (attach place t) gc g r)))
            ]
      ]
  rb_insert-Inserted t (place ∷ from_right gc g l ∷ path) n (is, two, (ir, two', up)) it rt =
      elim (Bool-cases (red_crumb place)) [
        | inr e ↦
            rw (e, rb_insert)
              (parent_black t place (from_right gc g l ∷ path) n (is, two, (ir, two', up)) it e)
        | inl e ↦
            let (bs, top) = two e in
            let gb : red_crumb (from_right gc g l) ≡ false = ground (arith, top) in
            let up' : PathRb path (suc n) = rw (gb, e) at up in
            let ir' : IsRb l n = unfold sibling in rw e at ir in
            elim (Bool-cases (rb_red l)) [
              | inl er ↦
                  let (ip, bp) = parent_IsRb place t n it is in
                  let (iu, bu) = uncle_IsRb l n er ir' in
                  let u = node red (set_color black l) g (set_color black (attach place t)) in
                  rw (e, er, rb_insert)
                    (step_up t u (place ∷ from_right gc g l ∷ path) path (rb_insert u path)
                      (rb_insert-Inserted u path (suc n) up' (unfold IsRb in (bu, bp, iu, ip))
                        (unfold rb_red in refl))
                      (inorder-zip_same path u (node gc l g (attach place t)) (
                        inorder-node red gc g (set_color black l) l
                          (set_color black (attach place t)) (attach place t)
                          (inorder-set_color black l) (inorder-set_color black (attach place t)))))
              | inr er ↦
                  let (iu, bu) = turn_right_IsRb place t gc g l n e rt bs er it is ir' in
                  let u = turn_right_child place (attach place t) gc g l in
                  rw (e, er, rb_insert)
                    (ended t u (place ∷ from_right gc g l ∷ path) path (suc n) up' iu (inl bu) (
                      inorder-zip_same path u (node gc l g (attach place t))
                        (inorder-turn_right place (attach place t) gc g l)))
            ]
      ]
