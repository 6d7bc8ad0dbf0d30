-- ===== src/Slab/Cache/Served.antt =====
-- `__mem_cache_alloc` of src/alloc.c, by its branches.
use files_co.Base.{
  ℕ, ◌+◌, ◌*◌, ◌≤◌, ◌<◌, ◌≡◌, refl, true, false, ◌||◌, Option, none, some, List, [], ◌∷◌, ◌==◌,
  arith, update, update_self, update_other, has, Bool-cases, inl, inr, ◌∙◌, ap, List-cases,
  Option-cases,
}
use files_co.Slab.{ceil, objs_per_word}
use files_co.Slab.Pool.{Pool}
use files_co.Slab.Pool.Objects.{IsPool}
use files_co.Slab.Pool.Taken.{IsTaken, pool_alloc-IsTaken}
use files_co.Slab.Pool.Fresh.{bitmap_setup-IsPool}
use files_co.Slab.Cache.{
  Cache, Slabs, unlist, add_free, add_partial, add_busy, alloc_partial, alloc_free, alloc_new,
  new_pool, cache_alloc, alloc_by_lists, settle_partial, settle_free,
}
use files_co.Slab.Cache.Lists.{
  IsCache, IsOff, unlist-IsCache, unlist-IsOff, update-IsCache, add_free-IsCache,
  add_partial-IsCache, add_busy-IsCache, ListsWith, add_partial-ListsWith, moved_partial-ListsWith,
  moved_busy-ListsWith, same-ListsWith,
}

-- The object `pos` of the slab `k`, which was `before`, is taken, and the cache stays well formed, with
-- the same slabs on its lists and `k`.
pub record Served (s : Slabs) (k : ℕ) (before : Pool) (ptr : ℕ) (s' : Slabs) : Type 0 where
  pub pos : ℕ
  pub address : ptr ≡ before.start + pos * s.cache.layout.obj_size
  pub taken : IsTaken s.cache.layout before pos (s'.pools k)
  pub others : (j : ℕ) → (j == k) ≡ false → s'.pools j ≡ s.pools j
  pub ok : IsCache s'.cache s'.pools
  pub listed : ListsWith k s.cache s'.cache
  pub layout : s'.cache.layout ≡ s.cache.layout

-- A slab of the partial list that stays there.
pub stay-IsCache :
    (k : ℕ) (p : Pool) (c : Cache) (pools : ℕ → Pool)
    → IsCache c pools
    → has k c.partial_pools ≡ true
    → IsPool c.layout p
    → 0 < p.free
    → p.free < c.layout.obj_count
    → IsCache c (update pools k p)
stay-IsCache k p c pools i here ok lo hi = record {
  free_ok = λ j h. elim (Bool-cases (j == k)) [
    | inl e ↦
        let s : j ≡ k = ground arith in
        let h' : has k c.free_pools ≡ true = rw s at h in
        absurd (omega (arith, (i.free_ok k h').1, (i.partial_ok k here).2))
    | inr e ↦ rw e (i.free_ok j h)
  ];
  partial_ok = λ j h. elim (Bool-cases (j == k)) [
    | inl e ↦ rw e (ok, lo, hi)
    | inr e ↦ rw e (i.partial_ok j h)
  ];
  busy_ok = λ j h. elim (Bool-cases (j == k)) [
    | inl e ↦
        let s : j ≡ k = ground arith in
        let h' : has k c.busy_pools ≡ true = rw s at h in
        absurd (omega (arith, (i.busy_ok k h').1, (i.partial_ok k here).1))
    | inr e ↦ rw e (i.busy_ok j h)
  ];
  free_once = i.free_once;
  partial_once = i.partial_once;
  busy_once = i.busy_once;
}

module _ (c : Cache) (pools : ℕ → Pool) (i : IsCache c pools) (k : ℕ) (p : Pool)
    (ok : IsPool c.layout p) where
  abbrev written : ℕ → Pool
  written = update pools k p

  written_ok : IsPool c.layout (written k)
  written_ok = rw (update_self pools k p) ok

  pub moved_busy : p.free ≡ 0 → IsCache (add_busy k (unlist k c)) written
  moved_busy e =
      add_busy-IsCache k (unlist k c) written (unlist-IsCache k p c pools i)
        (unlist-IsOff k c pools i) (unfold unlist in written_ok) (rw (update_self pools k p) e)

  pub moved_partial :
      0 < p.free → p.free < c.layout.obj_count → IsCache (add_partial k (unlist k c)) written
  moved_partial lo hi =
      add_partial-IsCache k (unlist k c) written (unlist-IsCache k p c pools i)
        (unlist-IsOff k c pools i) (unfold unlist in written_ok) (rw (update_self pools k p) lo)
        (unfold unlist in (rw (update_self pools k p) hi))

  pub moved_free : p.free ≡ c.layout.obj_count → IsCache (add_free k (unlist k c)) written
  moved_free e =
      add_free-IsCache k (unlist k c) written (unlist-IsCache k p c pools i)
        (unlist-IsOff k c pools i) (unfold unlist in written_ok)
        (unfold unlist in (rw (update_self pools k p) e))

settle_partial_layout : (k : ℕ) (p : Pool) (c : Cache) → (settle_partial k p c).layout ≡ c.layout
unfolding settle_partial
settle_partial_layout k p c = elim (Bool-cases (p.free == 0)) [
  | inl e ↦ rw e refl
  | inr e ↦ rw e refl
]

settle_free_layout : (k : ℕ) (p : Pool) (c : Cache) → (settle_free k p c).layout ≡ c.layout
unfolding settle_free
settle_free_layout k p c = elim (Bool-cases (p.free == c.layout.obj_count)) [
  | inl e ↦ rw e refl
  | inr e ↦ rw e refl
]

-- A slab of the partial list.
alloc_partial-Served :
    (s : Slabs) (k : ℕ)
    → IsCache s.cache s.pools
    → has k s.cache.partial_pools ≡ true
    → (ptr : ℕ) × (s' : Slabs) × (alloc_partial k s ≡ some (ptr, s'))
      × Served s k (s.pools k) ptr s'
unfolding alloc_partial
alloc_partial-Served s k i here =
    let (ok, lo, hi) = i.partial_ok k here in
    let (pos, p, run, t) = pool_alloc-IsTaken s.cache.layout (s.pools k) ok lo in
    (
      (s.pools k).start + pos * s.cache.layout.obj_size,
      record { pools = update s.pools k p; cache = settle_partial k p s.cache },
      rw run refl,
      record {
        pos = pos;
        address = refl;
        taken = rw (update_self s.pools k p) t;
        others = λ j ne. update_other s.pools k j p ne;
        ok =
            unfold settle_partial in
            (elim (Bool-cases (p.free == 0)) [
              | inl e ↦ rw e (moved_busy s.cache s.pools i k p t.pool (ground arith))
              | inr e ↦ rw e (
                  stay-IsCache k p s.cache s.pools i here t.pool (ground arith)
                    (omega (arith, t.one_less)))
            ]);
        listed =
            unfold settle_partial in
            (elim (Bool-cases (p.free == 0)) [
              | inl e ↦ rw e (moved_busy-ListsWith k s.cache)
              | inr e ↦ rw e (same-ListsWith k s.cache (ground arith))
            ]);
        layout = settle_partial_layout k p s.cache;
      },
    )

-- A slab of the free list, where a slab has at least two objects.
alloc_free-Served :
    (s : Slabs) (k : ℕ)
    → IsCache s.cache s.pools
    → has k s.cache.free_pools ≡ true
    → 2 ≤ s.cache.layout.obj_count
    → (ptr : ℕ) × (s' : Slabs) × (alloc_free k s ≡ some (ptr, s')) × Served s k (s.pools k) ptr s'
unfolding alloc_free
alloc_free-Served s k i here two =
    let (ok, all) = i.free_ok k here in
    let (pos, p, run, t) = pool_alloc-IsTaken s.cache.layout (s.pools k) ok (omega arith) in
    let some_taken : (p.free == s.cache.layout.obj_count) ≡ false = ground (arith, t.one_less) in
    (
      (s.pools k).start + pos * s.cache.layout.obj_size,
      record { pools = update s.pools k p; cache = settle_free k p s.cache },
      rw run refl,
      record {
        pos = pos;
        address = refl;
        taken = rw (update_self s.pools k p) t;
        others = λ j ne. update_other s.pools k j p ne;
        ok =
            unfold settle_free in
            (rw some_taken (
              moved_partial s.cache s.pools i k p t.pool (omega (arith, t.one_less))
                (omega (arith, t.one_less))));
        listed = unfold settle_free in (rw some_taken (moved_partial-ListsWith k s.cache));
        layout = settle_free_layout k p s.cache;
      },
    )

-- A new slab.
alloc_new-Served :
    (s : Slabs) (k : ℕ)
    → IsCache s.cache s.pools
    → IsOff k s.cache
    → 2 ≤ s.cache.layout.obj_count
    → s.cache.layout.mask_words ≡ ceil s.cache.layout.obj_count objs_per_word
    → (ptr : ℕ) × (s' : Slabs) × (alloc_new k s ≡ some (ptr, s'))
      × Served s k (new_pool s.cache.layout k) ptr s'
unfolding alloc_new
alloc_new-Served s k i off two sized =
    let l = s.cache.layout in
    let ok : IsPool l (new_pool l k) = unfold new_pool in (bitmap_setup-IsPool l k sized) in
    let all : (new_pool l k).free ≡ l.obj_count = unfold new_pool in refl in
    let (pos, p, run, t) = pool_alloc-IsTaken l (new_pool l k) ok (omega arith) in
    (
      (new_pool l k).start + pos * l.obj_size,
      record { pools = update s.pools k p; cache = add_partial k s.cache },
      rw run refl,
      record {
        pos = pos;
        address = refl;
        taken = rw (update_self s.pools k p) t;
        others = λ j ne. update_other s.pools k j p ne;
        ok =
            add_partial-IsCache k s.cache (update s.pools k p)
              (update-IsCache k p s.cache s.pools i off) off (rw (update_self s.pools k p) t.pool)
              (rw (update_self s.pools k p) (omega (arith, t.one_less)))
              (rw (update_self s.pools k p) (omega (arith, t.one_less)));
        listed = add_partial-ListsWith k s.cache;
        layout = unfold add_partial in refl;
      },
    )

-- An object was taken, of a slab that was on the partial or the free list, or of a new one.
pub data Outcome (fresh : Option ℕ) (s : Slabs) : Type 0 where
  listed :
      (k ptr : ℕ) (s' : Slabs)
      → (has k s.cache.partial_pools || has k s.cache.free_pools) ≡ true
      → cache_alloc fresh s ≡ some (ptr, s')
      → Served s k (s.pools k) ptr s'
      → Outcome fresh s
  created :
      (k ptr : ℕ) (s' : Slabs)
      → fresh ≡ some k
      → cache_alloc fresh s ≡ some (ptr, s')
      → Served s k (new_pool s.cache.layout k) ptr s'
      → Outcome fresh s
  exhausted :
      fresh ≡ none
      → s.cache.partial_pools ≡ []
      → s.cache.free_pools ≡ []
      → cache_alloc fresh s ≡ some (0, s)
      → Outcome fresh s

cache_alloc-of :
    (fresh : Option ℕ) (s : Slabs) (partial free : List ℕ) (o : Option ℕ)
    → s.cache.partial_pools ≡ partial
    → s.cache.free_pools ≡ free
    → fresh ≡ o
    → cache_alloc fresh s ≡ alloc_by_lists partial free o s
unfolding cache_alloc
cache_alloc-of fresh s partial free o e f g =
    ap (λ l. alloc_by_lists l s.cache.free_pools fresh s) e
    ∙ ap (λ l. alloc_by_lists partial l fresh s) f
    ∙ ap (λ x. alloc_by_lists partial free x s) g

head_has : (k : ℕ) (l rest : List ℕ) → l ≡ k ∷ rest → has k l ≡ true
head_has k l rest e = rw e (ground arith)

-- `__mem_cache_alloc` of a well-formed cache, whose slabs have at least two objects, fails no
-- BUG_ON: it takes the first free object of a listed slab or of a new one and the cache stays well
-- formed, with the same slabs on its lists and the one that served; or it changes nothing, as no listed slab has a free object and there is no page for a new one.
pub cache_alloc-Outcome :
    (fresh : Option ℕ) (s : Slabs)
    → IsCache s.cache s.pools
    → 2 ≤ s.cache.layout.obj_count
    → s.cache.layout.mask_words ≡ ceil s.cache.layout.obj_count objs_per_word
    → ((k : ℕ) → fresh ≡ some k → IsOff k s.cache)
    → Outcome fresh s
cache_alloc-Outcome fresh s i two sized off = elim (List-cases s.cache.partial_pools) [
  | inr (k, rest, e) ↦
      let here = head_has k s.cache.partial_pools rest e in
      let (ptr, s', run, served) = alloc_partial-Served s k i here in
      listed k ptr s' (ground arith)
        (cache_alloc-of fresh s (k ∷ rest) s.cache.free_pools fresh e refl refl
          ∙ (unfold alloc_by_lists in run))
        served
  | inl e ↦ elim (List-cases s.cache.free_pools) [
    | inr (k, rest, f) ↦
        let here = head_has k s.cache.free_pools rest f in
        let (ptr, s', run, served) = alloc_free-Served s k i here two in
        listed k ptr s' (rw here (ground arith))
          (cache_alloc-of fresh s [] (k ∷ rest) fresh e f refl ∙ (unfold alloc_by_lists in run))
          served
    | inl f ↦ elim (Option-cases fresh) [
      | inr (k, g) ↦
          let (ptr, s', run, served) = alloc_new-Served s k i (off k g) two sized in
          created k ptr s' g
            (cache_alloc-of fresh s [] [] (some k) e f g ∙ (unfold alloc_by_lists in run)) served
      | inl g ↦
          exhausted g e f
            (cache_alloc-of fresh s [] [] none e f g ∙ (unfold alloc_by_lists in refl))
    ]
  ]
]
