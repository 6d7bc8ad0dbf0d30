-- ===== src/Slab/Pool.antt =====
-- src/alloc.c: the bit mask of a slab, and its objects taken and given back.
pub mod FirstBit
pub mod Objects
pub mod Taken
pub mod Given
pub mod Fresh
use files_co.Base.{
  ℕ, zero, suc, ◌+◌, ◌-◌, ◌*◌, ◌/◌, ◌%◌, ◌^◌, Bool, true, false, not, ◌||◌, Option, none, some,
  List, [], ◌∷◌, if◌then◌else◌, ◌==◌, ltb, leb, length, get_or, set, replicate, scan,
}
use files_co.Base.Bits.{test_bit, set_bit, clear_bit}
use files_co.Slab.{Layout, objs_per_word}

-- `struct mem_pool`: where its objects start, how many are free, and a set bit for each that is not
pub record Pool : Type 0 where
  pub start : ℕ
  pub free : ℕ
  pub bitmask : List ℕ

abbrev pub full_word : ℕ
full_word = 2 ^ 64 - 1

-- The words from `word` on, `left` of them, are filled.
unfoldable pub fill_loop : (left word : ℕ) → List ℕ → List ℕ
fill_loop zero word bitmask = bitmask
fill_loop (suc left) word bitmask = fill_loop left (word + 1) (set bitmask word full_word)

-- `mem_pool_bitmap_setup`: bits that have no object are set.
unfoldable pub bitmap_setup : Layout → List ℕ
unfolding fill_loop
bitmap_setup cache =
    let words = cache.mask_words in
    let pos = cache.obj_count % objs_per_word in
    let word = cache.obj_count / objs_per_word in
    let bitmask = replicate words 0 in
    let bitmask = if pos == 0 then bitmask else set bitmask word (full_word - (2 ^ pos - 1)) in
    fill_loop (words - (word + 1)) (word + 1) bitmask

-- `ffs`: a loop over the bytes, then one over the bits of the byte that was found
unfoldable pub ffs : ℕ → ℕ
ffs bitmask =
    let byte = scan 8 0 (λ byte. not (bitmask / 2 ^ (byte * 8) % 256 == 0)) in
    byte * 8 + scan 8 0 (λ bit. test_bit bitmask (byte * 8 + bit))

-- `mem_pool_alloc`: the address of the object; `none` is a failed BUG_ON.
unfoldable pub pool_alloc : Layout → Pool → Option (ℕ × Pool)
pool_alloc cache pool =
    let word = scan cache.mask_words 0 (λ word. not (get_or pool.bitmask word 0 == full_word)) in
    let mask = get_or pool.bitmask word 0 in
    let bit = ffs (full_word - mask) in
    let pos = objs_per_word * word + bit in
    if pool.free == 0
    then none
    else if word == cache.mask_words
    then none
    else some (
      pool.start + pos * cache.obj_size,
      record pool { bitmask = set pool.bitmask word (set_bit mask bit); free = pool.free - 1 },
    )

-- `mem_pool_free`; a pointer before the objects wraps around.
unfoldable pub pool_free : Layout → Pool → ℕ → Option Pool
pool_free cache pool ptr =
    let offs = (ptr + 2 ^ 64 - pool.start) % 2 ^ 64 in
    let pos = offs / cache.obj_size in
    let word = pos / objs_per_word in
    let bit = pos % objs_per_word in
    let mask = get_or pool.bitmask word 0 in
    if leb cache.obj_count pos
    then none
    else if not (test_bit mask bit)
    then none
    else if ltb cache.obj_count (pool.free + 1)
    then none
    else some
        (record pool { bitmask = set pool.bitmask word (clear_bit mask bit); free = pool.free + 1 })
