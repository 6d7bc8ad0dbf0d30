-- ===== src/Slab/Cache.antt =====
-- src/alloc.c: caches of objects of one size, over slabs. The locks of the caches are not in this model.
pub mod Lists
pub mod Served
pub mod Returned
mod Tests
use files_co.Base.{
  ℕ, zero, suc, ◌+◌, ◌-◌, ◌*◌, ◌/◌, ◌%◌, ◌^◌, Bool, true, false, not, ◌&&◌, ◌||◌, Option, none,
  some, List, [], ◌∷◌, if◌then◌else◌, ◌==◌, ltb, leb, update, erase, length, get_or, ◌>>=◌,
}
use files_co.PageAlloc.{page_shift, page_size}
use files_co.StringOps.{Memory, memcpy}
use files_co.Slab.{
  Layout, layout_setup, align_down, mem_pool_size, mem_pool_lookup, mem_order_calculate,
}
use files_co.Slab.Pool.{Pool, bitmap_setup, pool_alloc, pool_free}

-- `struct mem_cache`: a slab is named by the address of its first object, where its block of pages
-- starts; the three lists have their slabs in order.
pub record Cache : Type 0 where
  pub layout : Layout
  pub free_pools : List ℕ
  pub partial_pools : List ℕ
  pub busy_pools : List ℕ

-- `list_del(&pool->ll)`, from the list that has the slab
unfoldable pub unlist : ℕ → Cache → Cache
unlist pool c = record c {
  free_pools = erase pool c.free_pools;
  partial_pools = erase pool c.partial_pools;
  busy_pools = erase pool c.busy_pools;
}

-- `list_add(&pool->ll, …)`
unfoldable pub add_free : ℕ → Cache → Cache
add_free pool c = record c { free_pools = pool ∷ c.free_pools }

unfoldable pub add_partial : ℕ → Cache → Cache
add_partial pool c = record c { partial_pools = pool ∷ c.partial_pools }

unfoldable pub add_busy : ℕ → Cache → Cache
add_busy pool c = record c { busy_pools = pool ∷ c.busy_pools }

-- `mem_cache_setup`
unfoldable pub cache_setup : (size align : ℕ) → Option Cache
unfolding layout_setup
cache_setup size align = do
  layout ← layout_setup size align
  some (record { layout = layout; free_pools = []; partial_pools = []; busy_pools = [] })

-- A cache and the slabs.
pub record Slabs : Type 0 where
  pub cache : Cache
  pub pools : ℕ → Pool

-- Where a slab goes when its object was taken or given back: the list moves behind `mem_pool_alloc` in
-- the first two branches of `__mem_cache_alloc`, and those behind `mem_pool_free`.
unfoldable pub settle_partial : ℕ → Pool → Cache → Cache
unfolding unlist add_busy
settle_partial pool p c = if p.free == 0 then add_busy pool (unlist pool c) else c

unfoldable pub settle_free : ℕ → Pool → Cache → Cache
unfolding unlist add_partial
settle_free pool p c =
    if not (p.free == c.layout.obj_count) then add_partial pool (unlist pool c) else c

unfoldable pub settle_given : ℕ → Pool → Cache → Cache
unfolding unlist add_partial add_free
settle_given pool p c =
    let c' = if p.free == 1 then add_partial pool (unlist pool c) else c in
    if p.free == c.layout.obj_count then add_free pool (unlist pool c') else c'

-- The branches of `__mem_cache_alloc`: an object of a slab on the partial list, of one on the free
-- list, and of a new one.
unfoldable pub alloc_partial : ℕ → Slabs → Option (ℕ × Slabs)
unfolding pool_alloc settle_partial
alloc_partial pool s = do
  (ptr, p) ← pool_alloc s.cache.layout (s.pools pool)
  some (ptr, record { pools = update s.pools pool p; cache = settle_partial pool p s.cache })

unfoldable pub alloc_free : ℕ → Slabs → Option (ℕ × Slabs)
unfolding pool_alloc settle_free
alloc_free pool s = do
  (ptr, p) ← pool_alloc s.cache.layout (s.pools pool)
  some (ptr, record { pools = update s.pools pool p; cache = settle_free pool p s.cache })

-- The slab of `mem_pool_create` in the block at `pool`.
unfoldable pub new_pool : Layout → ℕ → Pool
unfolding bitmap_setup
new_pool layout pool = record {
  start = pool;
  free = layout.obj_count;
  bitmask = bitmap_setup layout;
}

unfoldable pub alloc_new : ℕ → Slabs → Option (ℕ × Slabs)
unfolding pool_alloc add_partial new_pool
alloc_new pool s = do
  (ptr, p) ← pool_alloc s.cache.layout (new_pool s.cache.layout pool)
  some (ptr, record { pools = update s.pools pool p; cache = add_partial pool s.cache })

-- `__mem_cache_free`
unfoldable pub cache_free : ℕ → Slabs → Option Slabs
unfolding pool_free settle_given
cache_free ptr s =
    let pool_size = 2 ^ (s.cache.layout.pool_order + page_shift) in
    let pool = align_down ptr pool_size in
    do
      p ← pool_free s.cache.layout (s.pools pool) ptr
      some (record { pools = update s.pools pool p; cache = settle_given pool p s.cache })

-- `__mem_cache_alloc` by the partial list, the free list, and what `__page_alloc` gives if it is
-- called: 0 is no object.
unfoldable pub alloc_by_lists : (partial free : List ℕ) → Option ℕ → Slabs → Option (ℕ × Slabs)
unfolding alloc_partial alloc_free alloc_new
alloc_by_lists (pool ∷ _) free fresh s = alloc_partial pool s
alloc_by_lists [] (pool ∷ _) fresh s = alloc_free pool s
alloc_by_lists [] [] (some pool) s = alloc_new pool s
alloc_by_lists [] [] none s = some (0, s)

unfoldable pub cache_alloc : Option ℕ → Slabs → Option (ℕ × Slabs)
unfolding alloc_by_lists
cache_alloc fresh s = alloc_by_lists s.cache.partial_pools s.cache.free_pools fresh s
