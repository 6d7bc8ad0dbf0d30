-- ===== src/Slab/Cache/Returned.antt =====
-- `__mem_cache_free` of src/alloc.c.
use native.Mathlib.Nat.{div-add-mod, add-mul-div_left, div-eq_of_lt}
use files_co.Base.{
  ℕ, ◌+◌, ◌*◌, ◌/◌, ◌%◌, ◌^◌, ◌≤◌, ◌<◌, ◌≡◌, ◌⊎◌, refl, true, false, ◌||◌, Option, none, some, ◌==◌,
  arith, update, update_self, update_other, has, Bool-cases, inl, inr, sym, ◌∙◌, ap,
}
use files_co.Base.Pow.{pow_pos}
use files_co.PageAlloc.{page_shift}
use files_co.Slab.{align_down}
use files_co.Slab.Pool.{Pool, pool_free}
use files_co.Slab.Pool.Objects.{busy, IsPool}
use files_co.Slab.Pool.Given.{IsGiven, IsObject, pool_free-IsGiven}
use files_co.Slab.Cache.{Cache, Slabs, unlist, add_free, add_partial, settle_given, cache_free}
use files_co.Slab.Cache.Lists.{
  IsCache, ListsWith, moved_partial-ListsWith, moved_free-ListsWith, same-ListsWith,
}
use files_co.Slab.Cache.Served.{stay-IsCache, moved_partial, moved_free}

-- Rounding down finds the start of an aligned block.
align_down_block : (k o size : ℕ) → 0 < size → k % size ≡ 0 → o < size → align_down (k + o) size ≡ k
align_down_block k o size pos al lt =
    let whole : size * (k / size) ≡ k = omega (arith, div-add-mod k size) in
    let q : (k + o) / size ≡ k / size =
      ap (λ (t : ℕ). t / size) (omega (arith, whole))
      ∙ add-mul-div_left o (k / size) pos
      ∙ omega (arith, div-eq_of_lt lt) in
    rw q whole

-- The slab `k` is on a list of the cache, and its objects lie in its block.
pub record IsHome (s : Slabs) (k pos : ℕ) : Type 0 where
  pub listed : (has k s.cache.partial_pools || has k s.cache.busy_pools) ≡ true
  pub starts : (s.pools k).start ≡ k
  pub aligned : k % 2 ^ (s.cache.layout.pool_order + page_shift) ≡ 0
  pub object : IsObject s.cache.layout (s.pools k) pos
  pub inside : pos * s.cache.layout.obj_size < 2 ^ (s.cache.layout.pool_order + page_shift)

settle_given-IsCache :
    (k : ℕ) (p : Pool) (c : Cache) (pools : ℕ → Pool)
    → IsCache c pools
    → 2 ≤ c.layout.obj_count
    → (has k c.partial_pools || has k c.busy_pools) ≡ true
    → IsPool c.layout p
    → p.free ≡ (pools k).free + 1
    → p.free ≤ c.layout.obj_count
    → IsCache (settle_given k p c) (update pools k p)
      × ((settle_given k p c).layout ≡ c.layout)
      × ListsWith k c (settle_given k p c)
unfolding settle_given
settle_given-IsCache k p c pools i two here ok more most = elim (Bool-cases (p.free == 1)) [
  | inl e ↦
      let one : p.free ≡ 1 = ground arith in
      let few : (p.free == c.layout.obj_count) ≡ false = ground arith in
      rw (few, e)
        (
          moved_partial c pools i k p ok (omega arith) (omega arith),
          unfold add_partial unlist in refl,
          moved_partial-ListsWith k c,
        )
  | inr e ↦ elim (Bool-cases (p.free == c.layout.obj_count)) [
    | inl all ↦
        rw (all, e)
          (
            moved_free c pools i k p ok (ground arith),
            unfold add_free unlist in refl,
            moved_free-ListsWith k c,
          )
    | inr some_busy ↦
        rw (some_busy, e)
          (
            stay-IsCache k p c pools i (partial e) ok (omega arith) (ground arith),
            refl,
            same-ListsWith k c (ground arith),
          )
  ]
]
  where
    partial : (p.free == 1) ≡ false → has k c.partial_pools ≡ true
    partial e = elim (Bool-cases (has k c.partial_pools)) [
      | inl h ↦ h
      | inr h ↦ absurd (ground (arith, i.busy_ok k))
    ]

-- The object `pos` of the slab `k` was taken, and is free again in `s'`.
pub record Returned (s : Slabs) (k pos : ℕ) (s' : Slabs) : Type 0 where
  pub given : IsGiven s.cache.layout (s.pools k) pos (s'.pools k)
  pub others : (j : ℕ) → (j == k) ≡ false → s'.pools j ≡ s.pools j
  pub ok : IsCache s'.cache s'.pools
  pub listed : ListsWith k s.cache s'.cache
  pub layout : s'.cache.layout ≡ s.cache.layout

listed-IsPool :
    (s : Slabs) (k : ℕ)
    → IsCache s.cache s.pools
    → (has k s.cache.partial_pools || has k s.cache.busy_pools) ≡ true
    → IsPool s.cache.layout (s.pools k)
listed-IsPool s k i here = elim (Bool-cases (has k s.cache.partial_pools)) [
  | inl h ↦ (i.partial_ok k h).0
  | inr h ↦ (i.busy_ok k (rw h at here)).0
]

-- Given an object of a slab that has taken objects, `__mem_cache_free` finds the slab by the object's
-- address. A taken object is free again, no other changes, the same slabs are on the lists, and the
-- cache stays well formed, so that the slab is on the list for its new number of free objects. An object that is free is refused by a BUG_ON.
pub cache_free-Returned :
    (s : Slabs) (k pos : ℕ)
    → IsCache s.cache s.pools
    → 2 ≤ s.cache.layout.obj_count
    → IsHome s k pos
    → (busy (s.pools k).bitmask pos ≡ true)
        × ((s' : Slabs) × (cache_free (k + pos * s.cache.layout.obj_size) s ≡ some s')
            × Returned s k pos s')
      ⊎ (busy (s.pools k).bitmask pos ≡ false)
        × (cache_free (k + pos * s.cache.layout.obj_size) s ≡ none)
unfolding cache_free
cache_free-Returned s k pos i two home =
    elim (pool_free-IsGiven s.cache.layout (s.pools k) pos (listed-IsPool s k i home.listed)
      home.object) [
        | inr (was, refused) ↦ inr (was, rw (found, run_of refused) refl)
        | inl (was, (p, run, g)) ↦
            let (ok, lay, listed) =
              settle_given-IsCache k p s.cache s.pools i two home.listed g.pool g.one_more
                (omega (arith, g.pool.counted)) in
            inl (
              was,
              (
                record { pools = update s.pools k p; cache = settle_given k p s.cache },
                rw (found, run_of run) refl,
                record {
                  given = rw (update_self s.pools k p) g;
                  others = λ j ne. update_other s.pools k j p ne;
                  ok = ok;
                  listed = listed;
                  layout = lay;
                },
              ),
            )
      ]
  where
    found :
        align_down
          (k + pos * s.cache.layout.obj_size)
          (2 ^ (s.cache.layout.pool_order + page_shift))
        ≡ k
    found =
        align_down_block k (pos * s.cache.layout.obj_size)
          (2 ^ (s.cache.layout.pool_order + page_shift))
          (pow_pos (s.cache.layout.pool_order + page_shift)) home.aligned home.inside

    run_of :
        {r : Option Pool}
        → pool_free s.cache.layout (s.pools k) ((s.pools k).start + pos * s.cache.layout.obj_size)
          ≡ r
        → pool_free s.cache.layout (s.pools k) (k + pos * s.cache.layout.obj_size) ≡ r
    run_of e =
        ap (λ t. pool_free s.cache.layout (s.pools k) (t + pos * s.cache.layout.obj_size))
          (sym home.starts)
        ∙ e
