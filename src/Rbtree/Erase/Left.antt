-- ===== src/Rbtree/Erase/Left.antt =====
-- A round of `rb_erase_fix` of src/rbtree.c for a left child.
use mathlib.Core.List.{append_assoc}
use files_co.Base.{ℕ, suc, ◌≡◌, refl, false, arith}
use files_co.Rbtree.{Color, red, black, Tree, leaf, node, rb_red}
use files_co.Rbtree.Order.{inorder}
use files_co.Rbtree.Balance.{IsRb}
use files_co.Rbtree.Erase.{go_up, stop, fix_left}
use files_co.Rbtree.Erase.Fix.{IsFixed, top_node, node_red, top-IsChild}

module _ {A : Type 0} where
  -- The brother has no red child.
  fix_left_both :
      (pc : Color) (t : Tree A) (p : A) (near : Tree A) (x : A) (far : Tree A) (n m : ℕ)
      → suc n ≡ suc m
      → IsRb t n
      → rb_red near ≡ false
      → rb_red far ≡ false
      → IsRb near m
      → IsRb far m
      → IsFixed pc n
          (inorder (node pc t p (node black near x far)))
          (go_up (node pc t p (node red near x far)))
  unfolding IsFixed IsRb inorder
  fix_left_both pc t p near x far n m e it bn bf near_ok far_ok =
      let e' : m ≡ n = omega (arith, e) in
      (
        top-IsChild pc t p (node red near x far) n it (bn, bf, rw e' at near_ok, rw e' at far_ok),
        node_red pc t p (node red near x far),
        refl,
      )

  -- Its far child is red.
  fix_left_far :
      (pc : Color) (t : Tree A) (p : A) (near : Tree A) (x : A) (fl : Tree A) (y : A) (fr : Tree A)
      (n m : ℕ)
      → suc n ≡ suc m
      → IsRb t n
      → IsRb near m
      → IsRb fl m
      → IsRb fr m
      → IsFixed pc n
          (inorder (node pc t p (node black near x (node red fl y fr))))
          (stop (node pc (node black t p near) x (node black fl y fr)))
  unfolding IsFixed IsRb inorder
  fix_left_far pc t p near x fl y fr n m e it near_ok il ir =
      let e' : m ≡ n = omega (arith, e) in
      let (i, c) =
        top_node pc (node black t p near) x (node black fl y fr) (suc n) (unfold rb_red in refl)
          (unfold rb_red in refl) (n, refl, it, rw e' at near_ok)
          (n, refl, rw e' at il, rw e' at ir) in
      (i, c, simp append_assoc)

  -- Its near child alone is red.
  fix_left_near :
      (pc : Color) (t : Tree A) (p : A) (nl : Tree A) (y : A) (nr : Tree A) (x : A) (far : Tree A)
      (n m : ℕ)
      → suc n ≡ suc m
      → IsRb t n
      → IsRb nl m
      → IsRb nr m
      → IsRb far m
      → IsFixed pc n
          (inorder (node pc t p (node black (node red nl y nr) x far)))
          (stop (node pc (node black t p nl) y (node black nr x far)))
  unfolding IsFixed IsRb inorder
  fix_left_near pc t p nl y nr x far n m e it il ir far_ok =
      let e' : m ≡ n = omega (arith, e) in
      let (i, c) =
        top_node pc (node black t p nl) y (node black nr x far) (suc n) (unfold rb_red in refl)
          (unfold rb_red in refl) (n, refl, it, rw e' at il)
          (n, refl, rw e' at ir, rw e' at far_ok) in
      (i, c, simp append_assoc)

  pub fix_left-IsFixed :
      (pc : Color) (t : Tree A) (p : A) (b : Tree A) (n : ℕ)
      → IsRb t n
      → IsRb b (suc n)
      → rb_red b ≡ false
      → IsFixed pc n (inorder (node pc t p b)) (fix_left pc t p b)
  unfolding fix_left IsRb rb_red
  fix_left-IsFixed pc t p leaf n it ib bb = absurd (omega (arith, ib))
  fix_left-IsFixed pc t p (node red bl x br) n it ib bb = absurd (ground (arith, bb))
  fix_left-IsFixed pc t p (node black leaf x leaf) n it (m, e, ni, fi) bb =
      fix_left_both pc t p leaf x leaf n m e it refl refl ni fi
  fix_left-IsFixed pc t p (node black (node red nl u nr) x leaf) n it (m, e, (n1, n2, ni, nj), fi)
        bb =
      fix_left_near pc t p nl u nr x leaf n m e it ni nj fi
  fix_left-IsFixed pc t p (node black (node black nl u nr) x leaf) n it (m, e, ni, fi) bb =
      fix_left_both pc t p (node black nl u nr) x leaf n m e it refl refl ni fi
  fix_left-IsFixed pc t p (node black leaf x (node red fl v fr)) n it (m, e, ni, (f1, f2, fi, fj))
        bb =
      fix_left_far pc t p leaf x fl v fr n m e it ni fi fj
  fix_left-IsFixed pc t p (node black (node red nl u nr) x (node red fl v fr)) n it
        (m, e, (n1, n2, ni, nj), (f1, f2, fi, fj)) bb =
      fix_left_far pc t p (node red nl u nr) x fl v fr n m e it (n1, n2, ni, nj) fi fj
  fix_left-IsFixed pc t p (node black (node black nl u nr) x (node red fl v fr)) n it
        (m, e, ni, (f1, f2, fi, fj)) bb =
      fix_left_far pc t p (node black nl u nr) x fl v fr n m e it ni fi fj
  fix_left-IsFixed pc t p (node black leaf x (node black fl v fr)) n it (m, e, ni, fi) bb =
      fix_left_both pc t p leaf x (node black fl v fr) n m e it refl refl ni fi
  fix_left-IsFixed pc t p (node black (node red nl u nr) x (node black fl v fr)) n it
        (m, e, (n1, n2, ni, nj), fi) bb =
      fix_left_near pc t p nl u nr x (node black fl v fr) n m e it ni nj fi
  fix_left-IsFixed pc t p (node black (node black nl u nr) x (node black fl v fr)) n it
        (m, e, ni, fi) bb =
      fix_left_both pc t p (node black nl u nr) x (node black fl v fr) n m e it refl refl ni fi
