-- ===== src/Slab/Lookup.antt =====
-- The choice of a cache or of an order of pages for a request, in src/alloc.c.
use files_co.Base.{
  ℕ, zero, suc, ◌+◌, ◌^◌, ◌≤◌, ◌<◌, ◌≡◌, inl, inr, refl, Option, some, none, List, [], ◌∷◌, leb, ap,
  ◌==◌, get_elem?, arith, Bool-cases,
}
use files_co.PageAlloc.{max_order, page_shift}
use files_co.Slab.{lookup_loop, mem_pool_size, mem_pool_lookup, order_loop, mem_order_calculate}

-- The least order from `order` on, below `order + fuel`, of a block that holds the request.
pub record LeastOrder (fuel order size r : ℕ) : Type 0 where
  pub least : (q : ℕ) → order ≤ q → q < r → 2 ^ (q + page_shift) < size
  pub bound : r ≤ order + fuel
  pub fits : r < order + fuel → size ≤ 2 ^ (r + page_shift)

order_loop-LeastOrder :
    (fuel order size : ℕ) → LeastOrder fuel order size (order_loop fuel order size)
unfolding order_loop
order_loop-LeastOrder zero order size = record {
  least = λ q lo hi. absurd (omega arith);
  bound = omega arith;
  fits = λ lt. absurd (omega arith);
}
order_loop-LeastOrder (suc fuel) order size =
    let later = order_loop-LeastOrder fuel (order + 1) size in
    elim (Bool-cases (leb size (2 ^ (order + page_shift)))) [
      | inl e ↦ rw e (record {
        least = λ q lo hi. absurd (omega arith);
        bound = omega arith;
        fits = λ lt. ground arith;
      })
      | inr e ↦ rw e (record {
        least = λ q lo hi. elim (Bool-cases (q == order)) [
          | inl s ↦ let s' : q ≡ order = ground arith in rw s' (ground arith)
          | inr s ↦ later.least q (ground arith) hi
        ];
        bound = omega (arith, later.bound);
        fits = λ lt. later.fits (omega arith);
      })
    ]

-- `mem_order_calculate` gives the least order of a block of pages that holds the request, and at
-- most `max_order + 1`, which it gives only if the block of no order up to `max_order` holds it.
pub mem_order_calculate-LeastOrder :
    (size : ℕ) → LeastOrder (max_order + 1) 0 size (mem_order_calculate size)
unfolding mem_order_calculate
mem_order_calculate-LeastOrder size = order_loop-LeastOrder (max_order + 1) 0 size

-- `r` is the index, counted from `i`, of the first entry that is large enough; `none` if there is
-- no such entry.
abbrev pub FirstFit : List ℕ → ℕ → ℕ → Option ℕ → Type 0
FirstFit sizes i size none = (k s : ℕ) → get_elem? sizes k ≡ some s → s < size
FirstFit sizes i size (some r) =
    (k : ℕ) × (r ≡ i + k)
    × ((s : ℕ) × (get_elem? sizes k ≡ some s) × (size ≤ s))
    × ((j s : ℕ) → j < k → get_elem? sizes j ≡ some s → s < size)

some_same : (a b : ℕ) → ◌≡◌ {A = Option ℕ} (some a) (some b) → a ≡ b
some_same a b e = ap (λ o. elim o [ none ↦ a | some x ↦ x ]) e

-- An entry that is too small goes before.
FirstFit-cons :
    (x : ℕ) (rest : List ℕ) (i size : ℕ) (o : Option ℕ)
    → x < size
    → FirstFit rest (i + 1) size o
    → FirstFit (x ∷ rest) i size o
FirstFit-cons x rest i size none lt f = small
  where
    small : (k s : ℕ) → get_elem? (x ∷ rest) k ≡ some s → s < size
    small zero s e = rw (← some_same x s e) lt
    small (suc k) s e = f k s e
FirstFit-cons x rest i size (some r) lt (k, at, fit, before) = (suc k, omega arith, fit, small)
  where
    small : (j s : ℕ) → j < suc k → get_elem? (x ∷ rest) j ≡ some s → s < size
    small zero s h e = rw (← some_same x s e) lt
    small (suc j) s h e = before j s (omega arith) e

lookup_loop-FirstFit :
    (sizes : List ℕ) (i size : ℕ) → FirstFit sizes i size (lookup_loop sizes i size)
unfolding lookup_loop
lookup_loop-FirstFit [] i size = λ k s e. absurd (ground arith)
lookup_loop-FirstFit (x ∷ rest) i size =
    let later = lookup_loop-FirstFit rest (i + 1) size in
    elim (Bool-cases (leb size x)) [
      | inl e ↦ rw e (0, omega arith, (x, refl, ground arith), λ j s lt h. absurd (omega arith))
      | inr e ↦
          rw e (FirstFit-cons x rest i size (lookup_loop rest (i + 1) size) (ground arith) later)
    ]

-- `mem_pool_lookup` finds the first cache whose objects are large enough, and none only if the
-- objects of every cache are smaller than the request.
pub mem_pool_lookup-FirstFit : (size : ℕ) → FirstFit mem_pool_size 0 size (mem_pool_lookup size)
unfolding mem_pool_lookup
mem_pool_lookup-FirstFit size = lookup_loop-FirstFit mem_pool_size 0 size
