-- ===== src/Slab/Cache/Lists.antt =====
-- The three lists of a cache of src/alloc.c: what they keep true, and the moves between them.
use files_co.Base.{
  ℕ, ◌<◌, ◌≡◌, refl, Bool, true, false, ◌||◌, has-erase_ne, List, ◌∷◌, ◌==◌, arith, update, erase,
  has, Distinct, Distinct-erase, has-erase_self, has_of-erase, Bool-cases, inl, inr,
}
use files_co.Slab.Pool.{Pool}
use files_co.Slab.Pool.Objects.{IsPool}
use files_co.Slab.Cache.{Cache, unlist, add_free, add_partial, add_busy}

-- Each slab on a list is well formed and on it once; those of the free list have all their objects
-- free, those of the partial list some but not all, those of the busy list none.
pub record IsCache (c : Cache) (pools : ℕ → Pool) : Type 0 where
  pub free_ok :
      (k : ℕ)
      → has k c.free_pools ≡ true
      → IsPool c.layout (pools k) × ((pools k).free ≡ c.layout.obj_count)
  pub partial_ok :
      (k : ℕ)
      → has k c.partial_pools ≡ true
      → IsPool c.layout (pools k) × (0 < (pools k).free) × ((pools k).free < c.layout.obj_count)
  pub busy_ok :
      (k : ℕ) → has k c.busy_pools ≡ true → IsPool c.layout (pools k) × ((pools k).free ≡ 0)
  pub free_once : Distinct c.free_pools
  pub partial_once : Distinct c.partial_pools
  pub busy_once : Distinct c.busy_pools

-- The slab is on no list.
pub record IsOff (k : ℕ) (c : Cache) : Type 0 where
  pub free : has k c.free_pools ≡ false
  pub partial : has k c.partial_pools ≡ false
  pub busy : has k c.busy_pools ≡ false

erased_ne : (k j : ℕ) (l : List ℕ) → Distinct l → has j (erase k l) ≡ true → (j == k) ≡ false
erased_ne k j l d h = elim (Bool-cases (j == k)) [
  | inl e ↦
      let s : j ≡ k = ground arith in
      let h' : has k (erase k l) ≡ true = rw s at h in absurd (ground (arith, has-erase_self k l d))
  | inr e ↦ e
]

-- What is written of a slab that is taken off its list does not matter.
pub unlist-IsCache :
    (k : ℕ) (p : Pool) (c : Cache) (pools : ℕ → Pool)
    → IsCache c pools
    → IsCache (unlist k c) (update pools k p)
unfolding unlist
unlist-IsCache k p c pools i = record {
  free_ok = λ j h.
      rw (erased_ne k j c.free_pools i.free_once h) (i.free_ok j (has_of-erase j k c.free_pools h));
  partial_ok = λ j h.
      rw (erased_ne k j c.partial_pools i.partial_once h)
        (i.partial_ok j (has_of-erase j k c.partial_pools h));
  busy_ok = λ j h.
      rw (erased_ne k j c.busy_pools i.busy_once h) (i.busy_ok j (has_of-erase j k c.busy_pools h));
  free_once = Distinct-erase k c.free_pools i.free_once;
  partial_once = Distinct-erase k c.partial_pools i.partial_once;
  busy_once = Distinct-erase k c.busy_pools i.busy_once;
}

pub unlist-IsOff : (k : ℕ) (c : Cache) (pools : ℕ → Pool) → IsCache c pools → IsOff k (unlist k c)
unfolding unlist
unlist-IsOff k c pools i = record {
  free = has-erase_self k c.free_pools i.free_once;
  partial = has-erase_self k c.partial_pools i.partial_once;
  busy = has-erase_self k c.busy_pools i.busy_once;
}

-- A slab that was on no list.
pub update-IsCache :
    (k : ℕ) (p : Pool) (c : Cache) (pools : ℕ → Pool)
    → IsCache c pools
    → IsOff k c
    → IsCache c (update pools k p)
update-IsCache k p c pools i off = record {
  free_ok = λ j h. rw (differs j c.free_pools off.free h) (i.free_ok j h);
  partial_ok = λ j h. rw (differs j c.partial_pools off.partial h) (i.partial_ok j h);
  busy_ok = λ j h. rw (differs j c.busy_pools off.busy h) (i.busy_ok j h);
  free_once = i.free_once;
  partial_once = i.partial_once;
  busy_once = i.busy_once;
}
  where
    differs : (j : ℕ) (l : List ℕ) → has k l ≡ false → has j l ≡ true → (j == k) ≡ false
    differs j l out h = elim (Bool-cases (j == k)) [
      | inl e ↦
          let s : j ≡ k = ground arith in
          let h' : has k l ≡ true = rw s at h in absurd (ground arith)
      | inr e ↦ e
    ]

module _ (k : ℕ) (c : Cache) (pools : ℕ → Pool) (i : IsCache c pools) (off : IsOff k c)
    (ok : IsPool c.layout (pools k)) where
  -- A slab of the list, or the one that is put there.
  either :
      {P : ℕ → Type 0} (l : List ℕ)
      → P k
      → ((j : ℕ) → has j l ≡ true → P j)
      → (j : ℕ) → has j (k ∷ l) ≡ true
      → P j
  either {P} l here there j h = elim (Bool-cases (j == k)) [
    | inl e ↦ let s : j ≡ k = ground arith in rw s here
    | inr e ↦ there j (ground arith)
  ]

  pub add_free-IsCache : (pools k).free ≡ c.layout.obj_count → IsCache (add_free k c) pools
  unfolding add_free
  add_free-IsCache e = record {
    free_ok = either c.free_pools (ok, e) i.free_ok;
    partial_ok = i.partial_ok;
    busy_ok = i.busy_ok;
    free_once = (off.free, i.free_once);
    partial_once = i.partial_once;
    busy_once = i.busy_once;
  }

  pub add_partial-IsCache :
      0 < (pools k).free → (pools k).free < c.layout.obj_count → IsCache (add_partial k c) pools
  unfolding add_partial
  add_partial-IsCache lo hi = record {
    free_ok = i.free_ok;
    partial_ok = either c.partial_pools (ok, lo, hi) i.partial_ok;
    busy_ok = i.busy_ok;
    free_once = i.free_once;
    partial_once = (off.partial, i.partial_once);
    busy_once = i.busy_once;
  }

  pub add_busy-IsCache : (pools k).free ≡ 0 → IsCache (add_busy k c) pools
  unfolding add_busy
  add_busy-IsCache e = record {
    free_ok = i.free_ok;
    partial_ok = i.partial_ok;
    busy_ok = either c.busy_pools (ok, e) i.busy_ok;
    free_once = i.free_once;
    partial_once = i.partial_once;
    busy_once = (off.busy, i.busy_once);
  }

-- The slab is on one of the three lists.
abbrev pub is_listed : ℕ → Cache → Bool
is_listed j c = has j c.free_pools || has j c.partial_pools || has j c.busy_pools

-- The slabs on the lists of `c'` are those on the lists of `c`, and `k`.
abbrev pub ListsWith : ℕ → Cache → Cache → Type 0
ListsWith k c c' = (j : ℕ) → is_listed j c' ≡ (is_listed j c || j == k)

unlist_keeps : (j k : ℕ) (c : Cache) → (j == k) ≡ false → is_listed j (unlist k c) ≡ is_listed j c
unfolding unlist
unlist_keeps j k c ne =
    rw
      (
        has-erase_ne j k c.free_pools ne,
        has-erase_ne j k c.partial_pools ne,
        has-erase_ne j k c.busy_pools ne,
      )
      refl

or_free : (b x y z : Bool) → ((b || x) || y || z) ≡ ((x || y || z) || b)
or_free b x y z = ground arith

or_partial : (b x y z : Bool) → (x || (b || y) || z) ≡ ((x || y || z) || b)
or_partial b x y z = ground arith

or_busy : (b x y z : Bool) → (x || y || (b || z)) ≡ ((x || y || z) || b)
or_busy b x y z = ground arith

pub add_partial-ListsWith : (k : ℕ) (c : Cache) → ListsWith k c (add_partial k c)
unfolding add_partial
add_partial-ListsWith k c j =
    or_partial (j == k) (has j c.free_pools) (has j c.partial_pools) (has j c.busy_pools)

add_free-ListsWith : (k : ℕ) (c : Cache) → ListsWith k c (add_free k c)
unfolding add_free
add_free-ListsWith k c j =
    or_free (j == k) (has j c.free_pools) (has j c.partial_pools) (has j c.busy_pools)

add_busy-ListsWith : (k : ℕ) (c : Cache) → ListsWith k c (add_busy k c)
unfolding add_busy
add_busy-ListsWith k c j =
    or_busy (j == k) (has j c.free_pools) (has j c.partial_pools) (has j c.busy_pools)

moved-ListsWith : (k : ℕ) (c c' : Cache) → ListsWith k (unlist k c) c' → ListsWith k c c'
moved-ListsWith k c c' l j = elim (Bool-cases (j == k)) [
  | inl e ↦ ground (arith, l j)
  | inr e ↦ let keep = unlist_keeps j k c e in rw (l j, keep, e) refl
]

pub moved_partial-ListsWith : (k : ℕ) (c : Cache) → ListsWith k c (add_partial k (unlist k c))
moved_partial-ListsWith k c =
    moved-ListsWith k c (add_partial k (unlist k c)) (add_partial-ListsWith k (unlist k c))

pub moved_free-ListsWith : (k : ℕ) (c : Cache) → ListsWith k c (add_free k (unlist k c))
moved_free-ListsWith k c =
    moved-ListsWith k c (add_free k (unlist k c)) (add_free-ListsWith k (unlist k c))

pub moved_busy-ListsWith : (k : ℕ) (c : Cache) → ListsWith k c (add_busy k (unlist k c))
moved_busy-ListsWith k c =
    moved-ListsWith k c (add_busy k (unlist k c)) (add_busy-ListsWith k (unlist k c))

-- A slab that is listed
pub same-ListsWith : (k : ℕ) (c : Cache) → is_listed k c ≡ true → ListsWith k c c
same-ListsWith k c h j = elim (Bool-cases (j == k)) [
  | inl e ↦ let s : j ≡ k = ground arith in rw (s, h) refl
  | inr e ↦ rw e (ground arith)
]
