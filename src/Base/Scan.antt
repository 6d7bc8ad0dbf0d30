-- ===== src/Base/Scan.antt =====
-- Loops that look for the first index that passes a test, and the number of indices that pass it.
use Prim.Native.Nat.{ℕ, zero, suc, ◌+◌, ◌≤◌, ◌<◌}
use mathlib.Core.Path.{◌≡◌, refl}
use mathlib.Core.Logic.{inl, inr}
use mathlib.Core.Bool.{Bool, true, false}
use native.Mathlib.Omega.{arith}
use files_co.Base.Tests.{◌==◌, if◌then◌else◌, Bool-cases}

-- `for (i = first; i != first + count; ++i) if (test(i)) break;`
unfoldable pub scan : (count first : ℕ) → (ℕ → Bool) → ℕ
scan zero i test = i
scan (suc count) i test = let rest = scan count (i + 1) test in if test i then i else rest

-- `r` is the first index from `first` on that passes, or `first + count`.
pub record IsFirst (count first : ℕ) (test : ℕ → Bool) (r : ℕ) : Type 0 where
  pub lower : first ≤ r
  pub upper : r ≤ first + count
  pub before : (j : ℕ) → first ≤ j → j < r → test j ≡ false
  pub found : r < first + count → test r ≡ true

pub scan-IsFirst :
    (count first : ℕ) (test : ℕ → Bool) → IsFirst count first test (scan count first test)
unfolding scan
scan-IsFirst zero i test = record {
  lower = omega arith;
  upper = omega arith;
  before = λ j lo hi. absurd (omega arith);
  found = λ lt. absurd (omega arith);
}
scan-IsFirst (suc count) i test =
    let later = scan-IsFirst count (i + 1) test in
    elim (Bool-cases (test i)) [
      | inl e ↦ rw e (record {
        lower = omega arith;
        upper = omega arith;
        before = λ j lo hi. absurd (omega arith);
        found = λ lt. e;
      })
      | inr e ↦ rw e (record {
        lower = omega (arith, later.lower);
        upper = omega (arith, later.upper);
        before = λ j lo hi. elim (Bool-cases (j == i)) [
          | inl s ↦ let s' : j ≡ i = ground arith in rw s' e
          | inr s ↦ later.before j (ground arith) hi
        ];
        found = λ lt. later.found (omega arith);
      })
    ]

-- How many indices below `n` pass.
unfoldable pub count : ℕ → (ℕ → Bool) → ℕ
count zero test = 0
count (suc n) test = count n test + (if test n then 1 else 0)

pub count-le : (n : ℕ) (test : ℕ → Bool) → count n test ≤ n
unfolding count
count-le zero test = omega arith
count-le (suc n) test = ground (arith, count-le n test)

-- When not all pass, one does not.
pub count_missing :
    (n : ℕ) (test : ℕ → Bool) → count n test < n → (i : ℕ) × (i < n) × (test i ≡ false)
unfolding count
count_missing zero test h = absurd (omega arith)
count_missing (suc n) test h = elim (Bool-cases (test n)) [
  | inr e ↦ (n, omega arith, e)
  | inl e ↦ let (i, lt, f) = count_missing n test (ground arith) in (i, omega arith, f)
]

pub count_same : (n : ℕ) (f g : ℕ → Bool) → ((j : ℕ) → j < n → f j ≡ g j) → count n f ≡ count n g
unfolding count
count_same zero f g h = refl
count_same (suc n) f g h = rw (h n (omega arith), count_same n f g (λ j lt. h j (omega arith)))

-- One index more passes.
pub count_more :
    (n i : ℕ) (f g : ℕ → Bool)
    → i < n
    → f i ≡ false
    → g i ≡ true
    → ((j : ℕ) → (j == i) ≡ false → g j ≡ f j)
    → count n g ≡ count n f + 1
unfolding count
count_more zero i f g lt a b h = absurd (omega arith)
count_more (suc n) i f g lt a b h = elim (Bool-cases (i == n)) [
  | inl s ↦
      let s' : i ≡ n = ground arith in
      let a' : f n ≡ false = rw s' at a in
      let b' : g n ≡ true = rw s' at b in
      let same = count_same n g f (λ j l. h j (ground arith)) in rw (a', b', same) (omega arith)
  | inr s ↦
      let ih = count_more n i f g (ground arith) a b h in rw (h n (ground arith), ih) (omega arith)
]

pub count_none : (n : ℕ) (f : ℕ → Bool) → ((j : ℕ) → j < n → f j ≡ false) → count n f ≡ 0
unfolding count
count_none zero f h = refl
count_none (suc n) f h = rw (h n (omega arith), count_none n f (λ j lt. h j (omega arith))) refl
