-- ===== src/Rbtree/Place.antt =====
-- The place of a new node of src/rbtree.c, as its callers find it.
use mathlib.Core.List.{append_assoc, append-nil}
use files_co.Base.{
  ℕ, ◌≡◌, ◌∙◌, refl, ap, sym, Bool, true, false, List, [], ◌∷◌, ◌++◌, some, Bool-cases, inl, inr,
  arith, if◌then◌else◌,
}
use files_co.Rbtree.{
  red, black, Tree, leaf, node, Crumb, from_left, from_right, rb_red, red_crumb, find_place,
  insert_at,
}
use files_co.Rbtree.Order.{inorder, before, after, inorder-zip}
use files_co.Rbtree.Balance.{IsRb, IsRedBlack, PathRb, sibling, black_top}
use files_co.Rbtree.Insert.{Inserted, rb_insert-Inserted}

module _ {A : Type 0} (right : A → Bool) where
  -- The items up to the first for which `right` does not hold, and the others
  unfoldable pub take_while : List A → List A
  take_while [] = []
  take_while (x ∷ xs) = if right x then x ∷ take_while xs else []

  unfoldable pub drop_while : List A → List A
  drop_while [] = []
  drop_while (x ∷ xs) = if right x then drop_while xs else x ∷ xs

  unfoldable pub NoneRight : List A → Type 0
  NoneRight [] = Unit {0}
  NoneRight (x ∷ xs) = (right x ≡ false) × NoneRight xs

  -- Behind an item for which `right` does not hold there is none for which it does.
  unfoldable pub IsSplit : List A → Type 0
  unfolding NoneRight
  IsSplit [] = Unit {0}
  IsSplit (x ∷ xs) = (right x ≡ false → NoneRight xs) × IsSplit xs

  NoneRight-middle : (l : List A) (x : A) (r : List A) → NoneRight (l ++ x ∷ r) → right x ≡ false
  unfolding NoneRight
  NoneRight-middle [] x r (e, h) = e
  NoneRight-middle (y ∷ l) x r (e, h) = NoneRight-middle l x r h

  IsSplit-left : (l r : List A) → IsSplit (l ++ r) → IsSplit l
  unfolding IsSplit NoneRight
  IsSplit-left [] r h = tt
  IsSplit-left (y ∷ l) r (e, h) = (λ f. NoneRight-left l r (e f), IsSplit-left l r h)
    where
      NoneRight-left : (l r : List A) → NoneRight (l ++ r) → NoneRight l
      NoneRight-left [] r h = tt
      NoneRight-left (y ∷ l) r (e, h) = (e, NoneRight-left l r h)

  IsSplit-right : (l : List A) (x : A) (r : List A) → IsSplit (l ++ x ∷ r) → IsSplit r
  unfolding IsSplit
  IsSplit-right [] x r (e, h) = h
  IsSplit-right (y ∷ l) x r (e, h) = IsSplit-right l x r h

  take_while_past :
      (l : List A) (x : A) (r : List A)
      → IsSplit (l ++ x ∷ r)
      → right x ≡ true
      → (take_while (l ++ x ∷ r) ≡ l ++ x ∷ take_while r) × (drop_while (l ++ x ∷ r) ≡ drop_while r)
  unfolding take_while drop_while IsSplit
  take_while_past [] x r s e = (rw e refl, rw e refl)
  take_while_past (y ∷ l) x r (n, s) e = elim (Bool-cases (right y)) [
    | inl h ↦
        let (t, d) = take_while_past l x r s e in (rw h (ap (λ (z : List A). y ∷ z) t), rw h d)
    | inr h ↦ let f = NoneRight-middle l x r (n h) in absurd (ground (arith, e, f))
  ]

  take_while_upto :
      (l : List A) (x : A) (r : List A)
      → right x ≡ false
      → (take_while (l ++ x ∷ r) ≡ take_while l) × (drop_while (l ++ x ∷ r) ≡ drop_while l ++ x ∷ r)
  unfolding take_while drop_while
  take_while_upto [] x r e = (rw e refl, rw e refl)
  take_while_upto (y ∷ l) x r e = elim (Bool-cases (right y)) [
    | inl h ↦ let (t, d) = take_while_upto l x r e in (rw h (ap (λ (z : List A). y ∷ z) t), rw h d)
    | inr h ↦ (rw h refl, rw h refl)
  ]

  find_place_order :
      (t : Tree A) (path : List (Crumb A))
      → IsSplit (inorder t)
      → (before (find_place right t path) ≡ before path ++ take_while (inorder t))
        × (after (find_place right t path) ≡ drop_while (inorder t) ++ after path)
  unfolding find_place inorder
  find_place_order leaf path s =
      (unfold take_while in sym (append-nil (before path)), unfold drop_while in refl)
  find_place_order (node c l x r) path s = elim (Bool-cases (right x)) [
    | inl e ↦
        let (b, a) =
          find_place_order r (from_right c x l ∷ path)
            (IsSplit-right (inorder l) x (inorder r) s) in
        let (t, d) = take_while_past (inorder l) x (inorder r) s e in
        rw (e, find_place)
          (rw t (b ∙ unfold before in simp append_assoc), rw d (a ∙ unfold after in refl))
    | inr e ↦
        let (b, a) =
          find_place_order l (from_left c x r ∷ path)
            (IsSplit-left (inorder l) (x ∷ inorder r) s) in
        let (t, d) = take_while_upto (inorder l) x (inorder r) e in
        rw (e, find_place)
          (rw t (b ∙ unfold before in refl), rw d (a ∙ unfold after in simp append_assoc))
  ]

  find_place-PathRb :
      (t : Tree A) (path : List (Crumb A)) (n : ℕ)
      → PathRb path n
      → IsRb t n
      → (rb_red t ≡ true → black_top path ≡ true)
      → PathRb (find_place right t path) 0
  unfolding find_place IsRb PathRb rb_red black_top sibling red_crumb
  find_place-PathRb leaf path n p i c = rw i at p
  find_place-PathRb (node red l x r) path n p (bl, br, il, ir) c = elim (Bool-cases (right x)) [
    | inl e ↦
        rw (e, find_place)
          (find_place-PathRb r (from_right red x l ∷ path) n (il, (λ h. (bl, c refl)), p) ir
            (λ h. absurd (ground (arith, h, br))))
    | inr e ↦
        rw (e, find_place)
          (find_place-PathRb l (from_left red x r ∷ path) n (ir, (λ h. (br, c refl)), p) il
            (λ h. absurd (ground (arith, h, bl))))
  ]
  find_place-PathRb (node black l x r) path n p (m, e', il, ir) c = elim (Bool-cases (right x)) [
    | inl e ↦
        rw (e, find_place)
          (find_place-PathRb r (from_right black x l ∷ path) m
            (il, (λ h. absurd (ground (arith, h))), rw e' at p) ir (λ h. refl))
    | inr e ↦
        rw (e, find_place)
          (find_place-PathRb l (from_left black x r ∷ path) m
            (ir, (λ h. absurd (ground (arith, h))), rw e' at p) il (λ h. refl))
  ]

  -- A node put into a red-black tree at the place found by a walk down, where `right` holds for a first
  -- part of the nodes and no others: no null pointer is used, the tree is a red-black tree again, and the
  -- new node stands behind that part.
  pub insert_at-IsRedBlack :
      (a : A) (t : Tree A)
      → IsRedBlack t
      → IsSplit (inorder t)
      → (t' : Tree A) × (insert_at right a t ≡ some t')
        × IsRedBlack t'
        × (inorder t' ≡ take_while (inorder t) ++ a ∷ drop_while (inorder t))
  unfolding insert_at IsRedBlack Inserted PathRb IsRb rb_red before after inorder
  insert_at-IsRedBlack a t (b, (n, i)) s =
      let new = node red leaf a leaf in
      let place = find_place right t [] in
      let p = find_place-PathRb t [] n tt i (λ h. absurd (ground (arith, h, b))) in
      let (t', e, i', o) = rb_insert-Inserted new place 0 p (refl, refl, refl, refl) refl in
      let (bef, aft) = find_place_order t [] s in
      (
        t',
        e,
        i',
        o
            ∙ inorder-zip place new
            ∙ rw (bef, aft)
                (append_assoc (take_while (inorder t)) (a ∷ []) (drop_while (inorder t) ++ [])
                  ∙ ap (λ (z : List A). take_while (inorder t) ++ a ∷ z)
                      (append-nil (drop_while (inorder t)))),
      )
