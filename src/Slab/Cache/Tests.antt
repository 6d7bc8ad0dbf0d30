-- ===== src/Slab/Cache/Tests.antt =====
-- Slabs of three objects, and the theorems on src/alloc.c there.
use files_co.Base.{
  ℕ, ◌+◌, ◌*◌, ◌^◌, ◌-◌, ◌≡◌, ◌⊎◌, refl, true, false, none, some, [], ◌∷◌, arith, scan,
}
use files_co.Slab.{Layout}
use files_co.Slab.Pool.{Pool, bitmap_setup, ffs, pool_alloc, pool_free}
use files_co.Slab.Pool.Objects.{busy, IsPool}
use files_co.Slab.Pool.Fresh.{bitmap_setup-IsPool}
use files_co.Slab.Pool.Taken.{IsTaken, pool_alloc-IsTaken}
use files_co.Slab.Pool.Given.{IsGiven, IsObject, pool_free-IsGiven}
use files_co.Slab.Cache.{Cache, Slabs, cache_free}
use files_co.Slab.Cache.Lists.{IsCache}
use files_co.Slab.Cache.Served.{Outcome, cache_alloc-Outcome}
use files_co.Slab.Cache.Returned.{IsHome, Returned, cache_free-Returned}

abbrev large : Layout
large = record { meta_offs = 4048; obj_count = 3; mask_words = 1; obj_size = 1024; pool_order = 0 }

abbrev untouched : Pool
untouched = record { start = 8192; free = 3; bitmask = bitmap_setup large }

untouched-IsPool : IsPool large untouched
untouched-IsPool = bitmap_setup-IsPool large 8192 refl

first_given :
    pool_alloc large untouched
    ≡ some (8192, record { start = 8192; free = 2; bitmask = (2 ^ 64 - 7) ∷ [] })
unfolding pool_alloc bitmap_setup scan ffs
first_given = refl

pool_alloc-IsTaken_example :
    (pos : ℕ) × (p' : Pool) × (pool_alloc large untouched ≡ some (8192 + pos * 1024, p'))
    × IsTaken large untouched pos p'
pool_alloc-IsTaken_example = pool_alloc-IsTaken large untouched untouched-IsPool (omega arith)

untouched-IsObject : IsObject large untouched 2
untouched-IsObject = record { inside = omega arith; sized = omega arith; below = omega arith }

pool_free-IsGiven_example :
    (busy (bitmap_setup large) 2 ≡ true)
      × ((p' : Pool) × (pool_free large untouched 10240 ≡ some p') × IsGiven large untouched 2 p')
    ⊎ (busy (bitmap_setup large) 2 ≡ false) × (pool_free large untouched 10240 ≡ none)
pool_free-IsGiven_example = pool_free-IsGiven large untouched 2 untouched-IsPool untouched-IsObject

abbrev empty : Cache
empty = record { layout = large; free_pools = []; partial_pools = []; busy_pools = [] }

abbrev no_slabs : Slabs
no_slabs = record { cache = empty; pools = λ _. untouched }

empty-IsCache : IsCache empty (λ _. untouched)
empty-IsCache = record {
  free_ok = λ k h. absurd (ground arith);
  partial_ok = λ k h. absurd (ground arith);
  busy_ok = λ k h. absurd (ground arith);
  free_once = tt;
  partial_once = tt;
  busy_once = tt;
}

cache_alloc-Outcome_example : Outcome (some 8192) no_slabs
cache_alloc-Outcome_example =
    cache_alloc-Outcome (some 8192) no_slabs empty-IsCache (omega arith) refl
      (λ k e. record { free = refl; partial = refl; busy = refl })

-- The slab with one object taken, on the partial list.
abbrev touched : Pool
touched = (pool_alloc-IsTaken large untouched untouched-IsPool (omega arith)).1

abbrev one_slab : Slabs
one_slab = record { cache = record empty { partial_pools = 8192 ∷ [] }; pools = λ _. touched }

one_slab-IsCache : IsCache one_slab.cache one_slab.pools
one_slab-IsCache =
    let t = (pool_alloc-IsTaken large untouched untouched-IsPool (omega arith)).3 in
    record {
      free_ok = λ k h. absurd (ground arith);
      partial_ok = λ k h. (t.pool, omega (arith, t.one_less), omega (arith, t.one_less));
      busy_ok = λ k h. absurd (ground arith);
      free_once = tt;
      partial_once = (refl, tt);
      busy_once = tt;
    }

one_slab-IsHome : IsHome one_slab 8192 0
one_slab-IsHome =
    let t = (pool_alloc-IsTaken large untouched untouched-IsPool (omega arith)).3 in
    record {
      listed = refl;
      starts = t.start;
      aligned = refl;
      object = record { inside = omega arith; sized = omega arith; below = omega (arith, t.start) };
      inside = omega arith;
    }

cache_free-Returned_example :
    (busy touched.bitmask 0 ≡ true)
      × ((s' : Slabs) × (cache_free 8192 one_slab ≡ some s') × Returned one_slab 8192 0 s')
    ⊎ (busy touched.bitmask 0 ≡ false) × (cache_free 8192 one_slab ≡ none)
cache_free-Returned_example =
    cache_free-Returned one_slab 8192 0 one_slab-IsCache (omega arith) one_slab-IsHome
