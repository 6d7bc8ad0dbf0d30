-- ===== src/Balloc/Removed.antt =====
-- `__balloc_remove_range` of src/balloc.c.
use files_co.Base.{
  ℕ, zero, suc, ◌+◌, ◌≤◌, ◌<◌, ◌≡◌, ◌∙◌, refl, ap, Bool, true, false, not, ◌&&◌, List, [], ◌∷◌,
  none, some, Bool-cases, inl, inr, ltb, leb, ◌==◌, length, arith,
}
use files_co.Base.Compare.{le_of_leb, ltb_lt, ltb_le, le_of_ltb, ltb_of_le}
use files_co.Balloc.{Range, rewind, seek, at_range, place_of, remove_loop, remove_range}
use files_co.Balloc.Ranges.{
  within, covers, IsAbove, IsBelow, IsSeparate, IsAbove-le, IsBelow-le, Skipped, Kept, IsCut,
  seek-IsCut, seek_past, seek-Kept,
}
use files_co.Balloc.Changed.{Changed, Changed-same}
use files_co.Balloc.Kept.{
  left_part, right_part, left_part-IsBelow, left_over, keep_outside_lem, left_over-length,
  left_over_kept, right_part_none, right_part_some, left_cover,
}
use files_co.Balloc.Apart.{IsBelow-AllSkipped}
use files_co.Balloc.Outside.{same_Changed, kept_Changed}

-- The loop stops at a range behind `to`.
remove_stops :
    (fuel from to spare : ℕ) (bef aft : List Range)
    → IsAbove to aft
    → length aft ≤ fuel
    → remove_loop fuel from to spare bef aft ≡ some (spare, rewind bef aft)
unfolding remove_loop IsAbove
remove_stops fuel from to spare bef [] a h = refl
remove_stops zero from to spare bef (r ∷ aft) a h = absurd (omega arith)
remove_stops (suc fuel) from to spare bef (r ∷ []) (l, o, a) h = rw (ltb_of_le l, remove_loop) refl
remove_stops (suc fuel) from to spare bef (r ∷ n ∷ aft) (l, o, a) h =
    rw (ltb_of_le l, remove_loop) refl

-- The place of `next` in the tree that is left
next_place :
    (m : ℕ) (bef : List Range) (n : Range) (aft : List Range)
    → IsBelow m bef
    → m ≤ n.begin
    → place_of n.begin (rewind bef (n ∷ aft)) ≡ some (bef, n ∷ aft)
unfolding Kept place_of at_range
next_place m bef n aft b h =
    let skip : Range → Bool = λ q. not (q.begin == n.begin) in
    let e =
      seek_past skip bef (n ∷ aft) (IsBelow-AllSkipped m bef skip b (λ p l. ground arith))
      ∙ seek-Kept skip bef (n ∷ aft) (ground arith) in
    rw (e, place_of) refl

at_least : {a b : ℕ} → leb a b ≡ false → b ≤ a
at_least h = omega (arith, le_of_leb h)

beyond : {a b c d : ℕ} → a ≤ b → suc b ≤ c → c ≤ d → leb d a ≡ false
beyond h i j = ground arith

cut_last :
    (r n : Range) (from to spare fuel : ℕ) (bef aft : List Range)
    → IsBelow r.begin bef
    → IsBelow (suc from) bef
    → IsAbove (suc r.end) (n ∷ aft)
    → from < to
    → from ≤ r.end
    → r.begin < to
    → ltb to r.end ≡ true
    → length (n ∷ aft) ≤ fuel
    → (out : ℕ × List Range) × (elim (place_of n.begin
          (rewind (left_part r from bef) (right_part r to (n ∷ aft)))) [
            | none ↦ none
            | some place ↦ remove_loop fuel from to (left_over r from to spare) place.0 place.1
          ]
        ≡ some out)
      × Changed
          (suc (suc spare))
          (rewind bef (r ∷ n ∷ aft))
          (λ x. covers (rewind bef (r ∷ n ∷ aft)) x && not (within from to x))
          out
unfolding rewind
cut_last r n from to spare fuel bef aft b b' a h i j z l =
    let left = left_part r from bef in
    let rest : Range = record { begin = to; end = r.end } in
    let p : place_of n.begin (rewind left (rest ∷ n ∷ aft)) ≡ some (rest ∷ left, n ∷ aft) =
      next_place n.begin (rest ∷ left) n aft
        (unfold IsAbove in
          unfold IsBelow in
          (
            a.0,
            ltb_le z,
            left_part-IsBelow r from to bef b (IsBelow-le r.begin to bef (omega arith) b) h,
          ))
        (omega arith) in
    let above : IsAbove to (n ∷ aft) =
      IsAbove-le to (suc r.end) (n ∷ aft) (omega (arith, ltb_le z)) a in
    let c = kept_Changed r from to spare bef (n ∷ aft) b b' a above h i j in
    rw (right_part_some r to (n ∷ aft) z, p)
      (
        _,
        remove_stops fuel from to (left_over r from to spare) (rest ∷ left) (n ∷ aft) above l,
        rw (right_part_some r to (n ∷ aft) z) at c,
      )

remove_loop-Changed :
    (fuel from to spare m : ℕ) (bef aft : List Range)
    → IsBelow m bef
    → IsBelow (suc from) bef
    → IsAbove m aft
    → Kept (λ r. leb r.end from) aft
    → length aft ≤ fuel
    → from < to
    → 2 ≤ spare
    → (out : ℕ × List Range) × (remove_loop fuel from to spare bef aft ≡ some out)
      × Changed spare
          (rewind bef aft)
          (λ x. covers (rewind bef aft) x && not (within from to x))
          out
unfolding IsAbove Kept remove_loop
remove_loop-Changed fuel from to spare m bef [] b b' a k l h s =
    (_, refl, same_Changed from to spare (suc from) bef [] b' (omega arith) tt h)
remove_loop-Changed zero from to spare m bef (r ∷ aft) b b' a k l h s = absurd (omega arith)
remove_loop-Changed (suc fuel) from to zero m bef (r ∷ aft) b b' a k l h s = absurd (omega arith)
remove_loop-Changed (suc fuel) from to (suc zero) m bef (r ∷ aft) b b' a k l h s =
    absurd (omega arith)
remove_loop-Changed (suc fuel) from to (suc (suc spare)) m bef (r ∷ []) b b' (i, o, a) k l h s =
    elim (Bool-cases (ltb r.begin to)) [
      | inl y ↦
          rw (y, remove_loop)
            (
              _,
              keep_outside_lem r from to spare bef [] (IsBelow-le m r.begin bef i b) tt h
                  (at_least k) (ltb_lt y),
              kept_Changed r from to spare bef [] (IsBelow-le m r.begin bef i b) b' tt tt h
                  (at_least k) (ltb_lt y),
            )
      | inr n ↦
          rw (n, remove_loop)
            (
              _,
              refl,
              same_Changed from to (suc (suc spare)) (suc from) bef (r ∷ []) b' (omega arith)
                  (ground arith, o, a) h,
            )
    ]
remove_loop-Changed (suc fuel) from to (suc (suc spare)) m bef (r ∷ n ∷ aft) b b' (i, o, a) k l h
      s =
    elim (Bool-cases (ltb r.begin to)) [
      | inl y ↦
          rw
            (
              y,
              remove_loop,
              keep_outside_lem r from to spare bef (n ∷ aft) (IsBelow-le m r.begin bef i b) a h
                  (at_least k) (ltb_lt y),
            )
            (elim (Bool-cases (ltb to r.end)) [
              | inl z ↦
                  cut_last r n from to spare fuel bef aft (IsBelow-le m r.begin bef i b) b' a h
                    (at_least k) (ltb_lt y) z (omega arith)
              | inr z ↦
                  let left = left_part r from bef in
                  let d =
                    left_part-IsBelow r from (suc r.end) bef (IsBelow-le m r.begin bef i b)
                      (IsBelow-le m (suc r.end) bef (omega arith) b) (omega (arith, at_least k)) in
                  let d' =
                    left_part-IsBelow r from (suc from) bef (IsBelow-le m r.begin bef i b) b'
                      (omega arith) in
                  let (out, run, c) =
                    remove_loop-Changed fuel from to (left_over r from to spare) (suc r.end) left
                      (n ∷ aft) d d' a (beyond (at_least k) a.0 a.1) (omega arith) h
                      (omega (arith, left_over_kept r from to spare z)) in
                  rw
                    (ap (λ t. place_of n.begin (rewind left t)) (right_part_none r to (n ∷ aft) z)
                      ∙ next_place (suc r.end) left n aft d a.0)
                    (
                      out,
                      run,
                      Changed-same out (left_over_kept r from to spare z)
                          (rw (right_part_none r to (n ∷ aft) z) at
                            (left_over-length r from to spare bef (n ∷ aft)))
                          (λ x.
                            left_cover r from to x bef (n ∷ aft) (le_of_ltb z) (at_least k)
                              (ltb_lt y))
                          c,
                    )
            ])
      | inr f ↦
          rw (f, remove_loop)
            (
              _,
              refl,
              same_Changed from to (suc (suc spare)) (suc from) bef (r ∷ n ∷ aft) b' (omega arith)
                  (ground arith, o, a) h,
            )
    ]

-- The ranges that a walk for `from` has passed
pub passed_IsBelow :
    (from m : ℕ) (bef : List Range)
    → IsBelow m bef
    → Skipped (λ r. leb r.end from) bef
    → IsBelow (suc from) bef
unfolding IsBelow Skipped
passed_IsBelow from m [] b s = tt
passed_IsBelow from m (p ∷ bef) (e, o, b) s = (ground arith, o, b)

-- From a tree whose ranges are in order with room between them, and two free nodes at least,
-- `__balloc_remove_range` returns and follows no pointer to a node that it has freed; the tree is in
-- order again, no node is lost, and it covers what it covered outside of `from` and `to`.
pub remove_range-Changed :
    (from to spare : ℕ) (rs : List Range)
    → IsSeparate rs
    → from < to
    → 2 ≤ spare
    → (out : ℕ × List Range) × (remove_range from to spare rs ≡ some out)
      × Changed spare rs (λ x. covers rs x && not (within from to x)) out
unfolding remove_range IsSeparate IsBelow Skipped rewind
remove_range-Changed from to spare rs i h s =
    let skip : Range → Bool = λ r. leb r.end from in
    let bef = (seek skip [] rs).0 in
    let aft = (seek skip [] rs).1 in
    let c : IsCut skip rs bef aft = seek-IsCut skip 0 [] rs tt i tt in
    let (out, run, ch) =
      remove_loop-Changed (length aft) from to spare c.middle bef aft c.below
        (passed_IsBelow from c.middle bef c.below c.skipped) c.above c.kept (omega arith) h s in
    (
      out,
      run,
      Changed-same out (omega arith) (ap (λ l. spare + length l) c.whole)
          (λ x. ap (λ l. covers l x && not (within from to x)) c.whole) ch,
    )
