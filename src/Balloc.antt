-- ===== src/Balloc.antt =====
-- src/balloc.c and inc/balloc.h: the allocator used at boot. A tree of ranges is its sequence, which
-- Rbtree shows how the tree's operations change; a pointer to a range is the place in the sequence.
-- Of the nodes that are not in use, only the number matters.
pub mod Ranges
pub mod Changed
pub mod Added
pub mod Apart
pub mod Kept
pub mod Outside
pub mod Removed
pub mod Block
pub mod Served
pub mod Setup
pub mod Trees
mod Tests
use files_co.Base.{
  ℕ, zero, suc, ◌+◌, ◌-◌, ◌*◌, ◌%◌, ◌^◌, Bool, true, false, not, ◌&&◌, List, [], ◌∷◌, Option, none,
  some, ◌>>=◌, ltb, leb, ◌==◌, if◌then◌else◌, length,
}

-- `struct memory_node`
pub record Range : Type 0 where
  pub begin : ℕ
  pub end : ℕ

-- A place in a sequence: the ranges before it, the nearest first, and the ranges from it on. The
-- sequence from the first range on is that of the whole tree.
unfoldable pub rewind : List Range → List Range → List Range
rewind [] rs = rs
rewind (p ∷ bef) rs = rewind bef (p ∷ rs)

-- The place of the first range for which `skip` does not hold
unfoldable pub seek : (skip : Range → Bool) → (bef aft : List Range) → List Range × List Range
seek skip bef [] = (bef, [])
seek skip bef (r ∷ aft) = elim (skip r) [ true ↦ seek skip (r ∷ bef) aft | false ↦ (bef, r ∷ aft) ]

-- The nodes on `balloc_free_list`, and a tree
-- `balloc_alloc_node` and `balloc_free_node`, on the number of nodes that are left; a failed BUG_ON is
-- `none`.
unfoldable pub balloc_alloc_node : ℕ → Option ℕ
balloc_alloc_node zero = none
balloc_alloc_node (suc spare) = some spare

unfoldable pub balloc_free_node : ℕ → ℕ
balloc_free_node spare = spare + 1

-- The end of `__balloc_add_range`: what the two tests make of the range before the new one, of the new
-- one, and of the range behind it.
unfoldable pub merge_next : ℕ → List Range → Range → List Range → ℕ × List Range
unfolding balloc_free_node rewind
merge_next spare bef new [] = (spare, rewind bef (new ∷ []))
merge_next spare bef new (n ∷ aft) =
    if leb n.begin new.end
    then (balloc_free_node spare, rewind bef (record new { end = n.end } ∷ aft))
    else (spare, rewind bef (new ∷ n ∷ aft))

unfoldable pub merge_prev : ℕ → List Range → Range → List Range → ℕ × List Range
unfolding merge_next balloc_free_node
merge_prev spare [] new aft = merge_next spare [] new aft
merge_prev spare (p ∷ bef) new aft =
    if leb new.begin p.end
    then merge_next (balloc_free_node spare) bef
        (record { begin = p.begin; end = if ltb new.end p.end then p.end else new.end }) aft
    else merge_next spare (p ∷ bef) new aft

-- `__balloc_add_range`, on the number of free nodes and a tree
unfoldable pub add_range : (from to spare : ℕ) → List Range → Option (ℕ × List Range)
unfolding balloc_alloc_node merge_prev seek
add_range from to spare ranges = do
  left ← balloc_alloc_node spare
  let (bef, aft) = seek (λ r. ltb r.begin from) [] ranges
  some (merge_prev left bef (record { begin = from; end = to }) aft)

-- The two calls of `__balloc_add_range` for what a range has outside of `from` and `to`
unfoldable pub keep_outside : Range → (from to spare : ℕ) → List Range → Option (ℕ × List Range)
unfolding add_range balloc_free_node
keep_outside r from to spare ranges = do
  (s, rs) ← if ltb r.begin from then add_range r.begin from spare ranges else some (spare, ranges)
  (s', rs') ← if ltb to r.end then add_range to r.end s rs else some (s, rs)
  some (balloc_free_node s', rs')

-- The place of the range that begins at `begin`; `none` if no range does.
unfoldable pub at_range : List Range → List Range → Option (List Range × List Range)
at_range bef [] = none
at_range bef (r ∷ aft) = some (bef, r ∷ aft)

unfoldable pub place_of : (begin : ℕ) → List Range → Option (List Range × List Range)
unfolding at_range seek
place_of begin ranges =
    let (bef, aft) = seek (λ q. not (q.begin == begin)) [] ranges in at_range bef aft

-- The loop of `__balloc_remove_range` at the range `r`; `ptr = next` is the place of the range that
-- begins where `next` does, and `none` if `next` was freed meanwhile. Fuel is used up by each round.
unfoldable pub remove_loop :
    (fuel from to spare : ℕ) → List Range → List Range → Option (ℕ × List Range)
unfolding keep_outside rewind place_of
remove_loop fuel from to spare bef [] = some (spare, rewind bef [])
remove_loop zero from to spare bef (r ∷ aft) = none
remove_loop (suc fuel) from to spare bef (r ∷ []) = elim (ltb r.begin to) [
  | false ↦ some (spare, rewind bef (r ∷ []))
  | true ↦ keep_outside r from to spare (rewind bef [])
]
remove_loop (suc fuel) from to spare bef (r ∷ n ∷ aft) = elim (ltb r.begin to) [
  | false ↦ some (spare, rewind bef (r ∷ n ∷ aft))
  | true ↦ elim (keep_outside r from to spare (rewind bef (n ∷ aft))) [
    | none ↦ none
    | some (s, rs) ↦ elim (place_of n.begin rs) [
      | none ↦ none
      | some place ↦ remove_loop fuel from to s place.0 place.1
    ]
  ]
]

-- `__balloc_remove_range`
unfoldable pub remove_range : (from to spare : ℕ) → List Range → Option (ℕ × List Range)
unfolding remove_loop seek
remove_range from to spare ranges =
    let (bef, aft) = seek (λ r. leb r.end from) [] ranges in
    remove_loop (length aft) from to spare bef aft

-- `(b + mask) & ~mask`, for an `align` that is a power of 2
abbrev pub aligned : (b align : ℕ) → ℕ
aligned b align = let x = (b + (align - 1)) % 2 ^ 64 in x - x % align

-- The loop of `__balloc_alloc`: the address, the free nodes and the tree
unfoldable pub alloc_ranges :
    (size align from to spare : ℕ) → List Range → List Range → Option (ℕ × ℕ × List Range)
unfolding keep_outside rewind
alloc_ranges size align from to spare bef [] = some (to, spare, rewind bef [])
alloc_ranges size align from to spare bef (r ∷ aft) =
    let rest = alloc_ranges size align from to spare (r ∷ bef) aft in
    let b = if ltb from r.begin then r.begin else from in
    let e = if ltb r.end to then r.end else to in
    let addr = aligned b align in
    let after = (addr + size) % 2 ^ 64 in
    elim (ltb r.begin to) [
      | false ↦ some (to, spare, rewind bef (r ∷ aft))
      | true ↦ elim (leb after e) [
        | false ↦ rest
        | true ↦ do (s, rs) ← keep_outside r addr after spare (rewind bef aft); some (addr, s, rs)
      ]
    ]

-- `__balloc_alloc`, with the tree `free_ranges`
unfoldable pub alloc_aligned :
    (size align from to spare : ℕ) → List Range → Option (ℕ × ℕ × List Range)
unfolding alloc_ranges seek
alloc_aligned size align from to spare ranges =
    let (bef, aft) = seek (λ r. leb r.end from) [] ranges in
    alloc_ranges size align from to spare bef aft

-- `balloc_alloc`
unfoldable pub alignment : ℕ → ℕ
alignment size =
    if leb size 8 then 8 else if leb size 16 then 16 else if leb size 32 then 32 else 64

unfoldable pub balloc_alloc : (size from to spare : ℕ) → List Range → Option (ℕ × ℕ × List Range)
unfolding alignment alloc_aligned
balloc_alloc size from to spare ranges = alloc_aligned size (alignment size) from to spare ranges

-- `balloc_free`, with the tree `free_ranges`
unfoldable pub balloc_free : (begin end spare : ℕ) → List Range → Option (ℕ × List Range)
unfolding add_range
balloc_free begin end spare ranges = add_range begin end spare ranges

-- `balloc_memory`, with the tree `memory_map`; `none` is the use of a null pointer.
unfoldable pub balloc_memory : List Range → Option ℕ
balloc_memory [] = none
balloc_memory (r ∷ []) = some r.end
balloc_memory (r ∷ n ∷ rs) = balloc_memory (n ∷ rs)
