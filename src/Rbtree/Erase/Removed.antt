-- ===== src/Rbtree/Erase/Removed.antt =====
-- `rb_erase` of src/rbtree.c.
use mathlib.Core.List.{append_assoc, append-nil}
use files_co.Base.{
  ℕ, suc, ◌+◌, ◌≡◌, ◌∙◌, refl, ap, true, false, List, [], ◌∷◌, ◌++◌, Option, some, Bool-cases, inl,
  inr, arith, length,
}
use files_co.Rbtree.{
  Color, red, black, Tree, leaf, node, Crumb, from_left, from_right, attach, zip, rb_red, red_crumb,
}
use files_co.Rbtree.Order.{inorder, before, after, inorder-zip}
use files_co.Rbtree.Balance.{IsRb, IsRedBlack, PathRb, sibling, black_top, zip-IsRb}
use files_co.Rbtree.Insert.{uncle_IsRb}
use files_co.Rbtree.Erase.{take_first, replace, rb_erase}
use files_co.Rbtree.Erase.Fix.{IsChild}
use files_co.Rbtree.Erase.Round.{IsTree, zip_root}
use files_co.Rbtree.Erase.Loop.{erase_fix-IsTree}

module _ {A : Type 0} where
  -- A subtree at a place of a red-black tree
  record IsAt (path : List (Crumb A)) (t : Tree A) (n : ℕ) : Type 0 where
    way : PathRb path n
    ok : IsRb t n
    suits : rb_red t ≡ true → black_top path ≡ true

  IsAt-zip :
      (path : List (Crumb A)) (t : Tree A) (n : ℕ)
      → IsRb (zip path t) n
      → rb_red (zip path t) ≡ false
      → (k : ℕ) × IsAt path t k
  unfolding zip attach PathRb IsRb black_top rb_red sibling red_crumb
  IsAt-zip [] t n i b = (n, record { way = tt; ok = i; suits = λ h. absurd (ground (arith, h, b)) })
  IsAt-zip (from_left red a s ∷ path) t n i b =
      let (k, w) = IsAt-zip path (node red t a s) n i b in
      let (bt, bs, it, is) = w.ok in
      (
        k,
        record {
          way = (is, (λ e. (bs, w.suits refl)), w.way);
          ok = it;
          suits = λ h. absurd (ground (arith, h, bt));
        },
      )
  IsAt-zip (from_right red a s ∷ path) t n i b =
      let (k, w) = IsAt-zip path (node red s a t) n i b in
      let (bs, bt, is, it) = w.ok in
      (
        k,
        record {
          way = (is, (λ e. (bs, w.suits refl)), w.way);
          ok = it;
          suits = λ h. absurd (ground (arith, h, bt));
        },
      )
  IsAt-zip (from_left black a s ∷ path) t n i b =
      let (k, w) = IsAt-zip path (node black t a s) n i b in
      let (m, e, it, is) = w.ok in
      (
        m,
        record {
          way = (is, (λ h. absurd (ground (arith, h))), rw e at w.way);
          ok = it;
          suits = λ h. refl;
        },
      )
  IsAt-zip (from_right black a s ∷ path) t n i b =
      let (k, w) = IsAt-zip path (node black s a t) n i b in
      let (m, e, is, it) = w.ok in
      (
        m,
        record {
          way = (is, (λ h. absurd (ground (arith, h))), rw e at w.way);
          ok = it;
          suits = λ h. refl;
        },
      )

  -- The place of a right child
  IsAt-right :
      (c : Color) (l : Tree A) (a x : A) (r : Tree A) (path : List (Crumb A)) (n : ℕ)
      → IsAt path (node c l a r) n
      → (k : ℕ) × IsAt (from_right c x l ∷ path) r k
  unfolding PathRb IsRb black_top rb_red sibling red_crumb
  IsAt-right red l a x r path n w =
      let (bl, br, il, ir) = w.ok in
      (
        n,
        record {
          way = (il, (λ e. (bl, w.suits refl)), w.way);
          ok = ir;
          suits = λ h. absurd (ground (arith, h, br));
        },
      )
  IsAt-right black l a x r path n w =
      let (m, e, il, ir) = w.ok in
      (
        m,
        record {
          way = (il, (λ h. absurd (ground (arith, h))), rw e at w.way);
          ok = ir;
          suits = λ h. refl;
        },
      )

  IsAt-left :
      (c : Color) (l : Tree A) (a : A) (r : Tree A) (path : List (Crumb A)) (n : ℕ)
      → IsAt path (node c l a r) n
      → (k : ℕ) × IsAt (from_left c a r ∷ path) l k
  unfolding PathRb IsRb black_top rb_red sibling red_crumb
  IsAt-left red l a r path n w =
      let (bl, br, il, ir) = w.ok in
      (
        n,
        record {
          way = (ir, (λ e. (br, w.suits refl)), w.way);
          ok = il;
          suits = λ h. absurd (ground (arith, h, bl));
        },
      )
  IsAt-left black l a r path n w =
      let (m, e, il, ir) = w.ok in
      (
        m,
        record {
          way = (ir, (λ h. absurd (ground (arith, h))), rw e at w.way);
          ok = il;
          suits = λ h. refl;
        },
      )

  -- The first node of a subtree, its place, and the order around it
  take_first-IsAt :
      (c : Color) (l : Tree A) (a : A) (r : Tree A) (spine path : List (Crumb A)) (n : ℕ)
      → IsAt (spine ++ path) (node c l a r) n
      → (let (x, xc, child, spine') = take_first c l a r spine in
          (k : ℕ) × IsAt (spine' ++ path) (node xc leaf x child) k
          × (before (spine' ++ path) ≡ before (spine ++ path))
          × (x ∷ inorder child ++ after (spine' ++ path)
              ≡ inorder (node c l a r) ++ after (spine ++ path)))
  unfolding take_first inorder
  take_first-IsAt c leaf a r spine path n w = (n, w, refl, refl)
  take_first-IsAt c (node lc ll la lr) a r spine path n w =
      let (k, w') = IsAt-left c (node lc ll la lr) a r (spine ++ path) n w in
      let (k', w'', b, o) = take_first-IsAt lc ll la lr (from_left c a r ∷ spine) path k w' in
      (k', w'', b ∙ unfold before in refl, o ∙ unfold after in simp append_assoc)

  -- The child fits at the place of a node of color `c`, but for that node.
  Fits : Color → Tree A → ℕ → Type 0
  Fits red child n = (rb_red child ≡ false) × IsRb child n
  Fits black child n = (m : ℕ) × (n ≡ suc m) × IsRb child m

  replace-IsTree :
      (c : Color) (child : Tree A) (path : List (Crumb A)) (n : ℕ)
      → PathRb path n
      → Fits c child n
      → IsTree (inorder (zip path child)) (replace c child path)
  unfolding replace Fits
  replace-IsTree red child path n p (b, i) =
      unfold IsTree IsRedBlack in
      (
        zip path child,
        refl,
        (
          zip_root path child n p (λ h. absurd (ground (arith, h, b))),
          zip-IsRb path child n p i (inl b),
        ),
        refl,
      )
  replace-IsTree black child path n p (m, e, i) =
      erase_fix-IsTree (length path + 2) child path m (rw e at p) is_child (omega arith)
    where
      is_child : IsChild child m
      is_child =
          unfold IsChild in
          elim (Bool-cases (rb_red child)) [
            | inl r ↦ inl (r, (uncle_IsRb child m r i).0)
            | inr b ↦ inr (b, i)
          ]

  Fits-right : (c : Color) (a : A) (r : Tree A) (n : ℕ) → IsRb (node c leaf a r) n → Fits c r n
  unfolding Fits IsRb
  Fits-right red a r n (bl, br, il, ir) = (br, ir)
  Fits-right black a r n (m, e, il, ir) = (m, e, ir)

  Fits-left : (c : Color) (l : Tree A) (a : A) (n : ℕ) → IsRb (node c l a leaf) n → Fits c l n
  unfolding Fits IsRb
  Fits-left red l a n (bl, br, il, ir) = (bl, il)
  Fits-left black l a n (m, e, il, ir) = (m, e, il)

  IsTree-same : (o o' : List A) (r : Option (Tree A)) → IsTree o r → o ≡ o' → IsTree o' r
  IsTree-same o o' r h e = rw e at h

  -- What `take_first` says of the order, for the node at the first place
  first_order :
      (x : A) (l r child : Tree A) (path path' : List (Crumb A)) (c : Color)
      → before path' ≡ before (from_right c x l ∷ path)
      → x ∷ inorder child ++ after path' ≡ inorder r ++ after (from_right c x l ∷ path)
      → inorder (zip path' child) ≡ before path ++ (inorder l ++ inorder r ++ after path)
  unfolding before after
  first_order x l r child path path' c b o =
      inorder-zip path' child
      ∙ rw b (simp append_assoc (ap (λ (z : List A). before path ++ (inorder l ++ z)) o))

  rb_erase_at :
      (c : Color) (l : Tree A) (a : A) (r : Tree A) (path : List (Crumb A)) (n : ℕ)
      → IsAt path (node c l a r) n
      → IsTree (before path ++ (inorder l ++ inorder r ++ after path)) (rb_erase c l r path)
  unfolding rb_erase inorder
  rb_erase_at c leaf a r path n w =
      IsTree-same (inorder (zip path r)) (before path ++ (inorder r ++ after path))
        (replace c r path) (replace-IsTree c r path n w.way (Fits-right c a r n w.ok))
        (inorder-zip path r ∙ simp append_assoc)
  rb_erase_at c (node lc ll la lr) a leaf path n w =
      let l = node lc ll la lr in
      IsTree-same (inorder (zip path l)) (before path ++ (inorder l ++ [] ++ after path))
        (replace c l path) (replace-IsTree c l path n w.way (Fits-left c l a n w.ok))
        (inorder-zip path l ∙ simp (append_assoc, append-nil))
  rb_erase_at c (node lc ll la lr) a (node rc rl ra rr) path n w =
      let l = node lc ll la lr in
      let r = node rc rl ra rr in
      let (x, xc, child, spine) = take_first rc rl ra rr [] in
      let (k, w') = IsAt-right c l a x r path n w in
      let (k', w'', b, o) = take_first-IsAt rc rl ra rr [] (from_right c x l ∷ path) k w' in
      let path' = spine ++ from_right c x l ∷ path in
      IsTree-same (inorder (zip path' child))
        (before path ++ (inorder l ++ inorder r ++ after path)) (replace xc child path')
        (replace-IsTree xc child path' k' w''.way (Fits-right xc x child k' w''.ok))
        (first_order x l r child path path' c b o)

  -- A node of a red-black tree, at a place, is erased: no null pointer is used, the loop ends, the tree is
  -- a red-black tree again, and the sequence has lost that node only.
  pub rb_erase-IsRedBlack :
      (c : Color) (l : Tree A) (a : A) (r : Tree A) (path : List (Crumb A))
      → IsRedBlack (zip path (node c l a r))
      → (t' : Tree A) × (rb_erase c l r path ≡ some t')
        × IsRedBlack t'
        × (inorder (zip path (node c l a r))
            ≡ before path ++ inorder l ++ a ∷ (inorder r ++ after path))
        × (inorder t' ≡ before path ++ inorder l ++ (inorder r ++ after path))
  unfolding IsRedBlack IsTree inorder
  rb_erase-IsRedBlack c l a r path (b, (n, i)) =
      let (k, w) = IsAt-zip path (node c l a r) n i b in
      let (t', run, ok, o) = rb_erase_at c l a r path k w in
      (t', run, ok, inorder-zip path (node c l a r) ∙ simp append_assoc, o ∙ simp append_assoc)
