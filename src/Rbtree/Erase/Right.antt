-- ===== src/Rbtree/Erase/Right.antt =====
-- A round of `rb_erase_fix` of src/rbtree.c for a right child.
use mathlib.Core.List.{append_assoc}
use files_co.Base.{ℕ, suc, ◌≡◌, refl, false, arith}
use files_co.Rbtree.{Color, red, black, Tree, leaf, node, rb_red}
use files_co.Rbtree.Order.{inorder}
use files_co.Rbtree.Balance.{IsRb}
use files_co.Rbtree.Erase.{go_up, stop, fix_right}
use files_co.Rbtree.Erase.Fix.{IsFixed, top_node, node_red, top-IsChild}

module _ {A : Type 0} where
  -- The brother has no red child.
  fix_right_both :
      (pc : Color) (t : Tree A) (p : A) (near : Tree A) (x : A) (far : Tree A) (n m : ℕ)
      → suc n ≡ suc m
      → IsRb t n
      → rb_red near ≡ false
      → rb_red far ≡ false
      → IsRb near m
      → IsRb far m
      → IsFixed pc n
          (inorder (node pc (node black far x near) p t))
          (go_up (node pc (node red far x near) p t))
  unfolding IsFixed IsRb inorder
  fix_right_both pc t p near x far n m e it bn bf near_ok far_ok =
      let e' : m ≡ n = omega (arith, e) in
      (
        top-IsChild pc (node red far x near) p t n (bf, bn, rw e' at far_ok, rw e' at near_ok) it,
        node_red pc (node red far x near) p t,
        refl,
      )

  -- Its far child is red.
  fix_right_far :
      (pc : Color) (t : Tree A) (p : A) (near : Tree A) (x : A) (fl : Tree A) (y : A) (fr : Tree A)
      (n m : ℕ)
      → suc n ≡ suc m
      → IsRb t n
      → IsRb near m
      → IsRb fl m
      → IsRb fr m
      → IsFixed pc n
          (inorder (node pc (node black (node red fl y fr) x near) p t))
          (stop (node pc (node black fl y fr) x (node black near p t)))
  unfolding IsFixed IsRb inorder
  fix_right_far pc t p near x fl y fr n m e it near_ok il ir =
      let e' : m ≡ n = omega (arith, e) in
      let (i, c) =
        top_node pc (node black fl y fr) x (node black near p t) (suc n) (unfold rb_red in refl)
          (unfold rb_red in refl) (n, refl, rw e' at il, rw e' at ir)
          (n, refl, rw e' at near_ok, it) in
      (i, c, simp append_assoc)

  -- Its near child alone is red.
  fix_right_near :
      (pc : Color) (t : Tree A) (p : A) (nl : Tree A) (y : A) (nr : Tree A) (x : A) (far : Tree A)
      (n m : ℕ)
      → suc n ≡ suc m
      → IsRb t n
      → IsRb nl m
      → IsRb nr m
      → IsRb far m
      → IsFixed pc n
          (inorder (node pc (node black far x (node red nl y nr)) p t))
          (stop (node pc (node black far x nl) y (node black nr p t)))
  unfolding IsFixed IsRb inorder
  fix_right_near pc t p nl y nr x far n m e it il ir far_ok =
      let e' : m ≡ n = omega (arith, e) in
      let (i, c) =
        top_node pc (node black far x nl) y (node black nr p t) (suc n) (unfold rb_red in refl)
          (unfold rb_red in refl) (n, refl, rw e' at far_ok, rw e' at il)
          (n, refl, rw e' at ir, it) in
      (i, c, simp append_assoc)

  pub fix_right-IsFixed :
      (pc : Color) (t : Tree A) (p : A) (b : Tree A) (n : ℕ)
      → IsRb t n
      → IsRb b (suc n)
      → rb_red b ≡ false
      → IsFixed pc n (inorder (node pc b p t)) (fix_right pc t p b)
  unfolding fix_right IsRb rb_red
  fix_right-IsFixed pc t p leaf n it ib bb = absurd (omega (arith, ib))
  fix_right-IsFixed pc t p (node red bl x br) n it ib bb = absurd (ground (arith, bb))
  fix_right-IsFixed pc t p (node black leaf x leaf) n it (m, e, fi, ni) bb =
      fix_right_both pc t p leaf x leaf n m e it refl refl ni fi
  fix_right-IsFixed pc t p (node black leaf x (node red nl u nr)) n it (m, e, fi, (n1, n2, ni, nj))
        bb =
      fix_right_near pc t p nl u nr x leaf n m e it ni nj fi
  fix_right-IsFixed pc t p (node black leaf x (node black nl u nr)) n it (m, e, fi, ni) bb =
      fix_right_both pc t p (node black nl u nr) x leaf n m e it refl refl ni fi
  fix_right-IsFixed pc t p (node black (node red fl v fr) x leaf) n it (m, e, (f1, f2, fi, fj), ni)
        bb =
      fix_right_far pc t p leaf x fl v fr n m e it ni fi fj
  fix_right-IsFixed pc t p (node black (node red fl v fr) x (node red nl u nr)) n it
        (m, e, (f1, f2, fi, fj), (n1, n2, ni, nj)) bb =
      fix_right_far pc t p (node red nl u nr) x fl v fr n m e it (n1, n2, ni, nj) fi fj
  fix_right-IsFixed pc t p (node black (node red fl v fr) x (node black nl u nr)) n it
        (m, e, (f1, f2, fi, fj), ni) bb =
      fix_right_far pc t p (node black nl u nr) x fl v fr n m e it ni fi fj
  fix_right-IsFixed pc t p (node black (node black fl v fr) x leaf) n it (m, e, fi, ni) bb =
      fix_right_both pc t p leaf x (node black fl v fr) n m e it refl refl ni fi
  fix_right-IsFixed pc t p (node black (node black fl v fr) x (node red nl u nr)) n it
        (m, e, fi, (n1, n2, ni, nj)) bb =
      fix_right_near pc t p nl u nr x (node black fl v fr) n m e it ni nj fi
  fix_right-IsFixed pc t p (node black (node black fl v fr) x (node black nl u nr)) n it
        (m, e, fi, ni) bb =
      fix_right_both pc t p (node black nl u nr) x (node black fl v fr) n m e it refl refl ni fi
