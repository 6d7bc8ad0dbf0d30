-- ===== src/Balloc/Served.antt =====
-- `__balloc_alloc` and `balloc_alloc` of src/balloc.c.
use files_co.Base.{
  ℕ, zero, suc, ◌+◌, ◌%◌, ◌^◌, ◌≤◌, ◌<◌, ◌≡◌, ◌∙◌, refl, ap, Bool, true, false, not, ◌&&◌, ◌||◌,
  List, [], ◌∷◌, some, Bool-cases, inl, inr, ltb, leb, arith, ◌⊎◌,
}
use files_co.Balloc.{
  Range, rewind, seek, keep_outside, aligned, alloc_ranges, alloc_aligned, alignment, balloc_alloc,
}
use files_co.Balloc.Block.{low, high, IsSmall, IsBlock, block, not_here, block_bounds}
use files_co.Balloc.Ranges.{
  within, covers, IsAbove, IsBelow, IsSeparate, IsAbove-le, IsBelow-le, covers-rewind, Skipped,
  IsCut, seek-IsCut, has_room, has_room-rewind,
}
use files_co.Balloc.Changed.{Changed}
use files_co.Balloc.Outside.{kept_Changed}
use files_co.Balloc.Removed.{passed_IsBelow}
use files_co.Balloc.Kept.{left_part, right_part, left_over, keep_outside_lem}

-- The address and the tree of a call that finds `size` free bytes
pub record IsServed (size align from to spare : ℕ) (rs : List Range) (out : ℕ × ℕ × List Range)
    : Type 0 where
  pub lower : from ≤ out.0
  pub upper : out.0 + size ≤ to
  pub multiple : out.0 % align ≡ 0
  pub free : (x : ℕ) → within out.0 (out.0 + size) x ≡ true → covers rs x ≡ true
  pub change :
      Changed spare rs (λ x. covers rs x && not (within out.0 (out.0 + size) x)) (out.1, out.2)

-- The same for a call that finds none: no range has an aligned block of this size.
pub record IsRefused (size align from to spare : ℕ) (rs : List Range) (out : ℕ × ℕ × List Range)
    : Type 0 where
  pub same : out ≡ (to, spare, rs)
  pub none_fits : (a : ℕ) → a % align ≡ 0 → from ≤ a → a + size ≤ to → has_room a size rs ≡ false

-- All ranges end at `top` or before.
unfoldable pub EndsBy : ℕ → List Range → Type 0
EndsBy top [] = Unit {0}
EndsBy top (r ∷ rs) = (r.end ≤ top) × EndsBy top rs

EndsBy-rewind : (top : ℕ) (bef aft : List Range) → EndsBy top (rewind bef aft) → EndsBy top aft
unfolding rewind EndsBy
EndsBy-rewind top [] aft h = h
EndsBy-rewind top (p ∷ bef) aft h = (EndsBy-rewind top bef (p ∷ aft) h).1

no_room_above :
    (a size to m : ℕ) (aft : List Range)
    → IsAbove m aft
    → to ≤ m
    → a < to
    → has_room a size aft ≡ false
unfolding IsAbove has_room
no_room_above a size to m [] i h l = refl
no_room_above a size to m (r ∷ aft) (b, o, i) h l =
    let rest = no_room_above a size to (suc r.end) aft i (omega arith) l in ground arith

no_room_behind :
    (r : Range) (a size to : ℕ) (aft : List Range)
    → r.begin ≤ r.end
    → IsAbove (suc r.end) aft
    → ltb r.begin to ≡ false
    → a + size ≤ to
    → 1 ≤ size
    → has_room a size (r ∷ aft) ≡ false
unfolding IsAbove
no_room_behind r a size to aft o i n u p =
    no_room_above a size to r.begin (r ∷ aft) (omega arith, o, i) (ground arith) (omega arith)

keep_outside_at :
    (r : Range) (size align from to spare : ℕ) (bef aft : List Range)
    → IsSmall size align from to
    → IsBelow r.begin bef
    → r.begin ≤ r.end
    → IsAbove (suc r.end) aft
    → IsBlock r size align from to
    → leb (aligned (low r from) align + size) (high r to) ≡ true
    → let addr = aligned (low r from) align in
      keep_outside r addr (addr + size) (suc (suc spare)) (rewind bef aft)
      ≡ some (
        left_over r addr (addr + size) spare,
        rewind (left_part r addr bef) (right_part r (addr + size) aft),
      )
keep_outside_at r size align from to spare bef aft k b o i w z =
    let addr = aligned (low r from) align in
    let (rl, fl, rh, th) = block_bounds r size align from to w z in
    keep_outside_lem r addr (addr + size) spare bef aft b i (omega (arith, k.size_pos))
      (omega (arith, rh)) (omega (arith, rl, k.size_pos))

-- The call takes a block of the range at hand.
IsServed-here :
    (r : Range) (size align from to spare : ℕ) (bef aft : List Range)
    → IsSmall size align from to
    → IsBelow r.begin bef
    → r.begin ≤ r.end
    → IsAbove (suc r.end) aft
    → IsBlock r size align from to
    → leb (aligned (low r from) align + size) (high r to) ≡ true
    → let addr = aligned (low r from) align in
      IsServed size align from to (suc (suc spare)) (rewind bef (r ∷ aft)) (
        addr,
        left_over r addr (addr + size) spare,
        rewind (left_part r addr bef) (right_part r (addr + size) aft),
      )
IsServed-here r size align from to spare bef aft k b o i w z =
    let addr = aligned (low r from) align in
    let (rl, fl, rh, th) = block_bounds r size align from to w z in
    record {
      lower = fl;
      upper = th;
      multiple = w.least.multiple;
      free = λ x h. covers-rewind x bef (r ∷ aft) ∙ inside x rl rh h;
      change =
          kept_Changed r addr (addr + size) spare bef aft b
            (IsBelow-le r.begin (suc addr) bef (omega (arith, rl)) b) i
            (IsAbove-le (addr + size) (suc r.end) aft (omega (arith, rh)) i)
            (omega (arith, k.size_pos)) (omega (arith, rh)) (omega (arith, rl, k.size_pos));
    }
  where
    inside :
        {a e : ℕ} (x : ℕ)
        → r.begin ≤ a
        → e ≤ r.end
        → within a e x ≡ true
        → (covers bef x || covers (r ∷ aft) x) ≡ true
    inside x h j v = unfold covers in unfold within in ground arith

or_false : {a b : Bool} → a ≡ false → b ≡ false → (a || b) ≡ false
or_false e f = rw (e, f) refl

alloc_ranges-Outcome :
    (size align from to spare m : ℕ) (bef aft : List Range)
    → IsSmall size align from to
    → IsBelow m bef
    → IsAbove m aft
    → EndsBy (2 ^ 62) aft
    → ((a : ℕ) → a % align ≡ 0 → from ≤ a → a + size ≤ to → has_room a size bef ≡ false)
    → (out : ℕ × ℕ × List Range) × (alloc_ranges size align from to (suc (suc spare)) bef aft
        ≡ some out)
      × (IsServed size align from to (suc (suc spare)) (rewind bef aft) out
          ⊎ IsRefused size align from to (suc (suc spare)) (rewind bef aft) out)
unfolding alloc_ranges IsAbove EndsBy has_room
alloc_ranges-Outcome size align from to spare m bef [] k b i t p = (
  _,
  refl,
  inr (record {
    same = refl;
    none_fits = λ a d l u. has_room-rewind a size bef [] (p a d l u) refl;
  }),
)
alloc_ranges-Outcome size align from to spare m bef (r ∷ aft) k b (l, o, i) (t, ts) p =
    elim (Bool-cases (ltb r.begin to)) [
      | inr n ↦
          rw (n, alloc_ranges)
            (
              _,
              refl,
              inr (record {
                same = refl;
                none_fits = λ a d l' u.
                    has_room-rewind a size bef (r ∷ aft) (p a d l' u)
                      (no_room_behind r a size to aft o i n u k.size_pos);
              }),
            )
      | inl y ↦
          let w = block r size align from to k o t in
          let b' = IsBelow-le m r.begin bef l b in
          elim (Bool-cases (leb (aligned (low r from) align + size) (high r to))) [
            | inr n ↦
                let p' : (a : ℕ)
                    → a % align ≡ 0
                    → from ≤ a
                    → a + size ≤ to
                    → has_room a size (r ∷ bef) ≡ false =
                  λ a d l' u. or_false (not_here r size align from to a w n d l' u) (p a d l' u) in
                rw (y, w.after, n, alloc_ranges)
                  (alloc_ranges-Outcome size align from to spare (suc r.end) (r ∷ bef) aft k
                    (unfold IsBelow in (omega arith, o, b')) i ts p')
            | inl z ↦
                let addr = aligned (low r from) align in
                let e =
                  ap (λ t. keep_outside r addr t (suc (suc spare)) (rewind bef aft)) w.after
                  ∙ keep_outside_at r size align from to spare bef aft k b' o i w z in
                rw (y, w.after, z, alloc_ranges, e)
                  (_, refl, inl (IsServed-here r size align from to spare bef aft k b' o i w z))
          ]
    ]

-- The ranges that end before `from` have no room behind it.
passed_no_room :
    (a size from m : ℕ) (bef : List Range)
    → IsBelow m bef
    → m ≤ suc from
    → from ≤ a
    → 1 ≤ size
    → has_room a size bef ≡ false
unfolding IsBelow has_room
passed_no_room a size from m [] b h l p = refl
passed_no_room a size from m (q ∷ bef) (e, o, b) h l p =
    let rest = passed_no_room a size from q.begin bef b (omega arith) l p in ground arith

pub alloc_aligned-Outcome :
    (size align from to spare : ℕ) (rs : List Range)
    → IsSmall size align from to
    → IsSeparate rs
    → EndsBy (2 ^ 62) rs
    → (out : ℕ × ℕ × List Range) × (alloc_aligned size align from to (suc (suc spare)) rs
        ≡ some out)
      × (IsServed size align from to (suc (suc spare)) rs out
          ⊎ IsRefused size align from to (suc (suc spare)) rs out)
unfolding alloc_aligned IsSeparate IsBelow Skipped rewind
alloc_aligned-Outcome size align from to spare rs k i t =
    let skip : Range → Bool = λ r. leb r.end from in
    let bef = (seek skip [] rs).0 in
    let aft = (seek skip [] rs).1 in
    let c : IsCut skip rs bef aft = seek-IsCut skip 0 [] rs tt i tt in
    let t' : EndsBy (2 ^ 62) aft = EndsBy-rewind (2 ^ 62) bef aft (rw c.whole t) in
    let b = passed_IsBelow from c.middle bef c.below c.skipped in
    let p : (a : ℕ) → a % align ≡ 0 → from ≤ a → a + size ≤ to → has_room a size bef ≡ false =
      λ a d l u. passed_no_room a size from (suc from) bef b (omega arith) l k.size_pos in
    rw c.whole at
      (alloc_ranges-Outcome size align from to spare c.middle bef aft k c.below c.above t' p)

alignment_bounds : (size : ℕ) → (1 ≤ alignment size) × (alignment size ≤ 64)
unfolding alignment
alignment_bounds size = (ground arith, ground arith)

-- For `size` bytes from `from` up to `to`, `balloc_alloc` returns an aligned address with all of the
-- bytes free and between the two, and takes just these bytes off the free ranges; or it returns `to`,
-- changes nothing, and no free range has an aligned block of this size between the two. The size is
-- positive, the free ranges are in order and end by 2 ^ 62, as do the size and `from`, and two nodes
-- are free.
pub balloc_alloc-Outcome :
    (size from to spare : ℕ) (rs : List Range)
    → 1 ≤ size
    → size ≤ 2 ^ 62
    → from ≤ 2 ^ 62
    → from < to
    → IsSeparate rs
    → EndsBy (2 ^ 62) rs
    → 2 ≤ spare
    → (out : ℕ × ℕ × List Range) × (balloc_alloc size from to spare rs ≡ some out)
      × (IsServed size (alignment size) from to spare rs out
          ⊎ IsRefused size (alignment size) from to spare rs out)
unfolding balloc_alloc
balloc_alloc-Outcome size from to zero rs p l f h i t s = absurd (omega arith)
balloc_alloc-Outcome size from to (suc zero) rs p l f h i t s = absurd (omega arith)
balloc_alloc-Outcome size from to (suc (suc spare)) rs p l f h i t s =
    let (lo, hi) = alignment_bounds size in
    alloc_aligned-Outcome size (alignment size) from to spare rs
      (record {
        size_pos = p;
        size_le = l;
        align_pos = lo;
        align_le = omega (arith, hi);
        from_le = f;
        from_lt = h;
      })
      i t
