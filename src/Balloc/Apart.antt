-- ===== src/Balloc/Apart.antt =====
-- A range that src/balloc.c adds with room on both sides.
use files_co.Base.{
  ℕ, suc, ◌≤◌, ◌<◌, ◌≡◌, ◌∙◌, refl, ap, Bool, true, List, [], ◌∷◌, some, ltb, arith,
}
use files_co.Base.Compare.{leb_of_lt, ltb_of_le}
use files_co.Balloc.{Range, rewind, balloc_alloc_node, merge_next, merge_prev, add_range}
use files_co.Balloc.Ranges.{IsAbove, IsBelow, Kept, AllSkipped, seek_past, seek-Kept}

pub IsBelow-AllSkipped :
    (m : ℕ) (bef : List Range) (skip : Range → Bool)
    → IsBelow m bef
    → ((p : Range) → p.begin < m → skip p ≡ true)
    → AllSkipped skip bef
unfolding IsBelow AllSkipped
IsBelow-AllSkipped m [] skip b s = tt
IsBelow-AllSkipped m (p ∷ bef) skip (e, o, b) s =
    (s p (omega arith), IsBelow-AllSkipped p.begin bef skip b (λ q l. s q (omega arith)))

merge_prev_apart :
    (spare : ℕ) (bef : List Range) (new : Range) (aft : List Range)
    → IsBelow new.begin bef
    → merge_prev spare bef new aft ≡ merge_next spare bef new aft
unfolding merge_prev IsBelow
merge_prev_apart spare [] new aft b = refl
merge_prev_apart spare (p ∷ bef) new aft (e, o, b) = rw (leb_of_lt e, merge_prev) refl

merge_next_apart :
    (spare : ℕ) (bef : List Range) (new : Range) (aft : List Range)
    → IsAbove (suc new.end) aft
    → merge_next spare bef new aft ≡ (spare, rewind bef (new ∷ aft))
unfolding merge_next IsAbove
merge_next_apart spare bef new [] a = refl
merge_next_apart spare bef new (n ∷ aft) (l, o, a) = rw (leb_of_lt l, merge_next) refl

IsAbove-Kept :
    (from lo : ℕ) (aft : List Range) → IsAbove lo aft → from ≤ lo → Kept (λ r. ltb r.begin from) aft
unfolding IsAbove Kept
IsAbove-Kept from lo [] a h = tt
IsAbove-Kept from lo (n ∷ aft) (l, o, a) h = ltb_of_le (omega arith)

-- A range with room on both sides stays as it is.
pub add_apart :
    (from to spare : ℕ) (bef aft : List Range)
    → IsBelow from bef
    → IsAbove (suc to) aft
    → from ≤ to
    → add_range from to (suc spare) (rewind bef aft)
      ≡ some (spare, rewind bef (record { begin = from; end = to } ∷ aft))
unfolding add_range balloc_alloc_node
add_apart from to spare bef aft b a h =
    let skip : Range → Bool = λ r. ltb r.begin from in
    let new : Range = record { begin = from; end = to } in
    let s = seek_past skip bef aft (IsBelow-AllSkipped from bef skip b (λ p l. ground arith)) in
    let k = seek-Kept skip bef aft (IsAbove-Kept from (suc to) aft a (omega arith)) in
    rw (s, k)
      (ap some (merge_prev_apart spare bef new aft b ∙ merge_next_apart spare bef new aft a))
