-- ===== src/Slab.antt =====
-- src/alloc.c and inc/alloc.h: the layout of a slab, and the choice of a cache or of an order of pages
-- for a request; its children have slabs and caches. Numbers of 64 bits keep their
-- wrap-around where a request can reach it.
pub mod Logarithm
pub mod Fitting
pub mod Lookup
pub mod Pool
pub mod Cache
mod Tests
use files_co.Base.{
  ℕ, zero, suc, ◌+◌, ◌-◌, ◌*◌, ◌/◌, ◌%◌, ◌^◌, Option, none, some, List, [], ◌∷◌, if◌then◌else◌, ltb,
  leb, ◌>>=◌, length,
}
use files_co.PageAlloc.{max_order, page_shift}

-- `sizeof(unsigned long long)`, and the bits of such a word
abbrev pub word_sz : ℕ
word_sz = 8

abbrev pub objs_per_word : ℕ
objs_per_word = word_sz * 8

abbrev pub min_pool_objs : ℕ
min_pool_objs = 8

-- `sizeof(struct mem_pool)` and `offsetof(struct alignment_off, pool)` on x86-64
abbrev pub pool_meta : ℕ
pool_meta = 48

abbrev pub meta_align : ℕ
meta_align = 8

-- The loop of `ilog2`; `none` if the fuel runs out.
ilog2_loop : ℕ → (val power x : ℕ) → Option ℕ
ilog2_loop zero val power x = none
ilog2_loop (suc fuel) val power x =
    let rest = ilog2_loop fuel (val * 2 % 2 ^ 64) (power + 1) x in
    if ltb val x then rest else some power

-- `ilog2`
pub ilog2 : ℕ → Option ℕ
unfolding ilog2_loop
ilog2 x = ilog2_loop 65 1 0 x

abbrev pub ceil : ℕ → ℕ → ℕ
ceil divident divisor = (divident + divisor - 1) / divisor

abbrev pub floor : ℕ → ℕ → ℕ
floor divident divisor = divident / divisor

abbrev pub align_up : ℕ → ℕ → ℕ
align_up size align = align * ceil size align

abbrev pub align_down : ℕ → ℕ → ℕ
align_down size align = align * floor size align

-- `meta_size`; for no objects the size of the bit mask wraps around.
unfoldable pub meta_size : ℕ → ℕ
meta_size objs =
    let bitmask_size = (ceil objs objs_per_word + 2 ^ 64 - 1) % 2 ^ 64 * word_sz % 2 ^ 64 in
    align_up ((pool_meta + bitmask_size) % 2 ^ 64) meta_align

-- The layout in a `struct mem_cache`.
pub record Layout : Type 0 where
  pub meta_offs : ℕ
  pub obj_count : ℕ
  pub mask_words : ℕ
  pub obj_size : ℕ
  pub pool_order : ℕ

-- `while (obj_size * objs + meta_size(objs) > pool_size) --objs;`, `none` if it goes below 0
pub shrink_loop : (objs obj_size pool_size : ℕ) → Option ℕ
unfolding meta_size
shrink_loop zero obj_size pool_size = if leb (meta_size 0) pool_size then some 0 else none
shrink_loop (suc objs) obj_size pool_size =
    let rest = shrink_loop objs obj_size pool_size in
    if ltb pool_size (obj_size * suc objs + meta_size (suc objs)) then rest else some (suc objs)

-- `mem_cache_layout_setup`
pub layout_setup : (size align : ℕ) → Option Layout
unfolding ilog2 meta_size shrink_loop
layout_setup size align =
    let obj_size = align_up size align in
    let min_size = obj_size * min_pool_objs + meta_size min_pool_objs in
    do
      pool_order ← ilog2 (min_size / 2 ^ page_shift)
      let pool_size = 2 ^ (pool_order + page_shift)
      objs ← shrink_loop (pool_size / obj_size) obj_size pool_size
      some (record {
        meta_offs = pool_size - meta_size objs;
        obj_count = objs;
        mask_words = ceil objs objs_per_word;
        obj_size = obj_size;
        pool_order = pool_order;
      })

-- `mem_pool_size`
unfoldable pub mem_pool_size : List ℕ
mem_pool_size =
    64 ∷ 128 ∷ 192 ∷ 256 ∷ 320 ∷ 384 ∷ 448 ∷ 512 ∷ 576 ∷ 640 ∷ 704 ∷ 768 ∷ 832 ∷ 896 ∷ 960 ∷ 1024
    ∷ 1152 ∷ 1280 ∷ 1408 ∷ 1536 ∷ 1664 ∷ 1792 ∷ 1920 ∷ 2048 ∷ 2304 ∷ 2560 ∷ 2816 ∷ 3072 ∷ 3584
    ∷ 4096 ∷ 5120 ∷ 6144 ∷ 7168 ∷ 8192 ∷ []

-- The loop of `mem_pool_lookup` from the cache `i` on.
lookup_loop : List ℕ → (i size : ℕ) → Option ℕ
lookup_loop [] i size = none
lookup_loop (s ∷ rest) i size =
    let later = lookup_loop rest (i + 1) size in if leb size s then some i else later

-- `mem_pool_lookup`: the index of the cache
pub mem_pool_lookup : ℕ → Option ℕ
unfolding lookup_loop mem_pool_size
mem_pool_lookup size = lookup_loop mem_pool_size 0 size

-- The loop of `mem_order_calculate`, with `fuel` orders left.
order_loop : ℕ → (order size : ℕ) → ℕ
order_loop zero order size = order
order_loop (suc fuel) order size =
    let later = order_loop fuel (order + 1) size in
    if leb size (2 ^ (order + page_shift)) then order else later

-- `mem_order_calculate`
pub mem_order_calculate : ℕ → ℕ
unfolding order_loop
mem_order_calculate size = order_loop (max_order + 1) 0 size
