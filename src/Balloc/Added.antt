-- ===== src/Balloc/Added.antt =====
-- `__balloc_add_range` of src/balloc.c.
use files_co.Base.{
  ℕ, zero, suc, ◌+◌, ◌≤◌, ◌<◌, ◌≡◌, ◌∙◌, refl, sym, ap, Bool, false, ◌||◌, List, [], ◌∷◌, some,
  Bool-cases, inl, inr, ltb, leb, length, arith, if◌then◌else◌,
}
use files_co.Base.Compare.{leb_le, le_of_leb, ltb_lt, le_of_ltb}
use files_co.Balloc.{
  Range, rewind, seek, balloc_alloc_node, balloc_free_node, merge_prev, add_range,
}
use files_co.Balloc.Ranges.{
  within, covers, IsAbove, IsBelow, IsSeparate, IsAbove-le, covers-rewind, length-rewind, Skipped,
  Kept, IsCut, seek-IsCut,
}
use files_co.Balloc.Changed.{Changed, Changed-same, cut_at, merge_next-Changed}

-- The same, for a range that is added at `from` to a whole tree
unfoldable pub stop_at : (from to : ℕ) → List Range → ℕ
unfolding cut_at
stop_at from to [] = to
stop_at from to (r ∷ rs) = if ltb r.begin from then stop_at from to rs else cut_at to (r ∷ rs)

stop_at-cut_at :
    (from to : ℕ) (bef aft : List Range)
    → stop_at from to aft ≡ cut_at to (seek (λ r. ltb r.begin from) bef aft).1
unfolding stop_at seek
stop_at-cut_at from to bef [] = refl
stop_at-cut_at from to bef (r ∷ aft) = elim (Bool-cases (ltb r.begin from)) [
  | inl y ↦ rw (y, seek) (stop_at-cut_at from to (r ∷ bef) aft)
  | inr n ↦ rw (n, seek) refl
]

prev_join :
    (a e from to t x : ℕ) (b o : Bool)
    → a < from
    → from ≤ e
    → a ≤ e
    → e < t
    → (b
        || (within a (let top = if ltb to e then e else to in if ltb t top then t else top) x || o))
      ≡ (((within a e x || b) || o) || within from (if ltb t to then t else to) x)
unfolding within
prev_join a e from to t x b o h i j k = ground arith

-- The range before the new one becomes one with it.
join_prev :
    (a e from to m x : ℕ) (b : Bool) (aft : List Range)
    → a < from
    → from ≤ e
    → a ≤ e
    → e < m
    → IsAbove m aft
    → (b || (within a (cut_at (if ltb to e then e else to) aft) x || covers aft x))
      ≡ (((within a e x || b) || covers aft x) || within from (cut_at to aft) x)
unfolding within covers cut_at IsAbove
join_prev a e from to m x b [] h i j k l = ground arith
join_prev a e from to m x b (n ∷ aft) h i j k (l, o, above) =
    prev_join a e from to n.end x b (within n.begin n.end x || covers aft x) h i j (omega arith)

or_comm : (a b c : Bool) → (a || (b || c)) ≡ ((a || c) || b)
or_comm a b c = ground arith

Kept-IsAbove :
    (from m : ℕ) (aft : List Range)
    → Kept (λ r. ltb r.begin from) aft
    → IsAbove m aft
    → IsAbove from aft
unfolding Kept IsAbove
Kept-IsAbove from m [] k a = tt
Kept-IsAbove from m (n ∷ aft) k (l, o, a) = (le_of_ltb k, o, a)

max_le : (a to e : ℕ) → a ≤ e → a ≤ (if ltb to e then e else to)
max_le a to e h = ground arith

merge_prev-Changed :
    (spare m from to : ℕ) (bef aft : List Range)
    → IsBelow m bef
    → IsAbove m aft
    → Skipped (λ r. ltb r.begin from) bef
    → Kept (λ r. ltb r.begin from) aft
    → from ≤ to
    → Changed
        (suc spare)
        (rewind bef aft)
        (λ x. covers (rewind bef aft) x || within from (cut_at to aft) x)
        (merge_prev spare bef (record { begin = from; end = to }) aft)
unfolding merge_prev IsBelow Skipped rewind balloc_free_node covers
merge_prev-Changed spare m from to [] aft b a s k h =
    Changed-same _ (omega arith) refl
      (λ x. or_comm false (within from (cut_at to aft) x) (covers aft x))
      (merge_next-Changed spare 0 [] (record { begin = from; end = to }) aft tt (omega arith) h
        (Kept-IsAbove from m aft k a))
merge_prev-Changed spare m from to (p ∷ bef) aft (e, o, b) a s k h =
    elim (Bool-cases (leb from p.end)) [
      | inl y ↦
          rw (y, merge_prev)
            (Changed-same _ (omega arith)
              (omega (arith, length-rewind bef (p ∷ aft), length-rewind bef aft))
              (λ x.
                join_prev p.begin p.end from to m x (covers bef x) aft (ltb_lt s) (leb_le y) o e a
                ∙ whole x)
              (merge_next-Changed (spare + 1) p.begin bef
                (record { begin = p.begin; end = if ltb to p.end then p.end else to }) aft b
                (omega arith) (max_le p.begin to p.end o)
                (IsAbove-le p.begin m aft (omega arith) a)))
      | inr n ↦
          rw (n, merge_prev)
            (Changed-same _ (omega arith)
              (omega (arith, length-rewind bef (p ∷ aft), length-rewind bef (p ∷ aft)))
              (λ x.
                or_comm (covers (p ∷ bef) x) (within from (cut_at to aft) x) (covers aft x)
                ∙ whole x)
              (merge_next-Changed spare from (p ∷ bef) (record { begin = from; end = to }) aft
                (le_of_leb n, o, b) (omega arith) h (Kept-IsAbove from m aft k a)))
    ]
  where
    whole :
        (x : ℕ)
        → ((covers (p ∷ bef) x || covers aft x) || within from (cut_at to aft) x)
          ≡ (covers (rewind bef (p ∷ aft)) x || within from (cut_at to aft) x)
    whole x = ap (λ c. c || within from (cut_at to aft) x) (sym (covers-rewind x (p ∷ bef) aft))

-- From a tree whose ranges are in order with room between them, and one free node at least,
-- `__balloc_add_range` returns; the tree is in order again, no node is lost, and it covers what it
-- covered and the new range, up to the end of the first range that begins in or behind the new one.
pub add_range-Changed :
    (from to spare : ℕ) (rs : List Range)
    → IsSeparate rs
    → from ≤ to
    → 1 ≤ spare
    → (out : ℕ × List Range) × (add_range from to spare rs ≡ some out)
      × Changed spare rs (λ x. covers rs x || within from (stop_at from to rs) x) out
unfolding add_range balloc_alloc_node IsSeparate IsBelow Skipped rewind
add_range-Changed from to zero rs i h s = absurd (omega arith)
add_range-Changed from to (suc spare) rs i h s =
    let skip : Range → Bool = λ r. ltb r.begin from in
    let bef = (seek skip [] rs).0 in
    let aft = (seek skip [] rs).1 in
    let c : IsCut skip rs bef aft = seek-IsCut skip 0 [] rs tt i tt in
    let e = stop_at-cut_at from to [] rs in
    (
      _,
      refl,
      Changed-same _ (omega arith) (ap (λ l. suc spare + length l) c.whole)
          (λ x.
            ap (λ l. covers l x || within from (cut_at to aft) x) c.whole
            ∙ ap (λ t. covers rs x || within from t x) (sym e))
          (merge_prev-Changed spare c.middle from to bef aft c.below c.above c.skipped c.kept h),
    )
