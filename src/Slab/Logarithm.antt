-- ===== src/Slab/Logarithm.antt =====
-- `ilog2` of src/alloc.c.
use native.Mathlib.Nat.{mod-eq_of_lt}
use files_co.Base.{
  ℕ, zero, suc, ◌+◌, ◌*◌, ◌%◌, ◌^◌, ◌≤◌, ◌<◌, ◌≡◌, inl, inr, refl, true, some, ◌==◌, ◌∙◌, ltb,
  arith, Bool-cases,
}
use files_co.Base.Pow.{pow_suc}
use files_co.Slab.{ilog2_loop, ilog2}

-- The least power of 2 that is not below `x`.
pub record IsLog (x p : ℕ) : Type 0 where
  pub upper : x ≤ 2 ^ p
  pub least : (q : ℕ) → q < p → 2 ^ q < x

ilog2_loop-IsLog :
    (fuel p x : ℕ)
    → x ≤ 2 ^ 63
    → ((q : ℕ) → q < p → 2 ^ q < x)
    → 64 ≤ fuel + p
    → p ≤ 63
    → (r : ℕ) × (ilog2_loop (suc fuel) (2 ^ p) p x ≡ some r) × IsLog x r × (r ≤ 63)
unfolding ilog2_loop
ilog2_loop-IsLog zero p x h l f b = absurd (omega arith)
ilog2_loop-IsLog (suc fuel) p x h l f b = elim (Bool-cases (ltb (2 ^ p) x)) [
  | inr e ↦ (p, rw e refl, record { upper = ground arith; least = l }, b)
  | inl e ↦
      let below : 2 ^ p < 2 ^ 63 = ground arith in
      let twice : 2 ^ p * 2 % 2 ^ 64 ≡ 2 ^ suc p =
        mod-eq_of_lt (omega arith) ∙ omega (arith, pow_suc p) in
      let (r, run, log, small) =
        ilog2_loop-IsLog fuel (suc p) x h (next e) (omega arith) (room below) in
      let same : p + 1 ≡ suc p = omega arith in (r, rw (e, twice, same) run, log, small)
]
  where
    next : ltb (2 ^ p) x ≡ true → (q : ℕ) → q < suc p → 2 ^ q < x
    next e q lt = elim (Bool-cases (q == p)) [
      | inl s ↦ let s' : q ≡ p = ground arith in rw s' (ground arith)
      | inr s ↦ l q (ground arith)
    ]

    room : 2 ^ p < 2 ^ 63 → suc p ≤ 63
    room below = elim (Bool-cases (p == 63)) [
      | inl s ↦
          let s' : p ≡ 63 = ground arith in
          let c : 2 ^ 63 < 2 ^ 63 = rw s' at below in absurd (omega arith)
      | inr s ↦ ground arith
    ]

-- `ilog2` ends for every number to 2 ^ 63, with the exponent of the least power of 2 that is not
-- below it.
pub ilog2-IsLog : (x : ℕ) → x ≤ 2 ^ 63 → (r : ℕ) × (ilog2 x ≡ some r) × IsLog x r
unfolding ilog2
ilog2-IsLog x h =
    let (r, run, log, _) =
      ilog2_loop-IsLog 64 0 x h (λ q lt. absurd (omega arith)) (omega arith) (omega arith) in
    (r, run, log)
