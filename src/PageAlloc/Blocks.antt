-- ===== src/PageAlloc/Blocks.antt =====
-- Aligned blocks of 2 ^ o pages: halves, buddies, and when two blocks can meet.
use native.Mathlib.Nat.{
  div-add-mod, mul-mod_right, mod_self, mul-add, lt_of_mul-lt-mul_left, mul-div_cancel_left,
}
use files_co.Base.{
  ℕ, zero, suc, ◌+◌, ◌-◌, ◌*◌, ◌/◌, ◌%◌, ◌^◌, ◌≤◌, ◌<◌, ◌≡◌, false, ◌==◌, arith, Bool-cases, inl,
  inr, ap, sym, ◌∙◌,
}
use files_co.Base.Bits.{test_bit, flip_bit}
use files_co.Base.Pow.{pow_suc, pow_pos}

abbrev pub IsAligned : ℕ → ℕ → Type 0
IsAligned i o = i % 2 ^ o ≡ 0

-- An aligned number as a multiple.
multiple : (i o : ℕ) → IsAligned i o → 2 ^ o * (i / 2 ^ o) ≡ i
multiple i o a = omega (arith, div-add-mod i (2 ^ o))

IsAligned-mul : (i o q : ℕ) → i ≡ 2 ^ o * q → IsAligned i o
IsAligned-mul i o q e = rw e (mul-mod_right (2 ^ o) q)

-- A block of order o + 1 starts where its lower half does, and its upper half is aligned too.
module _ (i o : ℕ) (a : IsAligned i (suc o)) where
  double : 2 ^ o * (2 * (i / 2 ^ suc o)) ≡ i
  double =
      omega
        (arith, multiple i (suc o) a, pow_suc o, ap (λ (t : ℕ). t * (i / 2 ^ suc o)) (pow_suc o))

  pub IsAligned-lower : IsAligned i o
  IsAligned-lower = IsAligned-mul i o (2 * (i / 2 ^ suc o)) (sym double)

  pub IsAligned-upper : IsAligned (i + 2 ^ o) o
  IsAligned-upper = IsAligned-mul (i + 2 ^ o) o (2 * (i / 2 ^ suc o) + 1) (omega (arith, double))

  pub flip-upper : flip_bit i o ≡ i + 2 ^ o
  flip-upper =
      let e : i / 2 ^ o ≡ 2 * (i / 2 ^ suc o) =
        ap (λ (t : ℕ). t / 2 ^ o) (sym double)
        ∙ mul-div_cancel_left (2 * (i / 2 ^ suc o)) (pow_pos o) in
      ground arith

-- The buddy of an aligned block, and the block that the two make.
pub data Buddy (i o : ℕ) : Type 0 where
  upper : flip_bit i o ≡ i + 2 ^ o → IsAligned i (suc o) → Buddy i o
  lower : flip_bit i o + 2 ^ o ≡ i → IsAligned (flip_bit i o) (suc o) → Buddy i o

Buddy-of_even : (i o r : ℕ) → IsAligned i o → i / 2 ^ o ≡ 2 * r → Buddy i o
Buddy-of_even i o r a e =
    let a' : IsAligned i (suc o) = IsAligned-mul i (suc o) r (
      omega (
        arith,
        multiple i o a,
        pow_suc o,
        ap (λ (t : ℕ). t * r) (pow_suc o),
        ap (λ (t : ℕ). 2 ^ o * t) e,
      )) in
    upper (ground arith) a'

Buddy-of_odd : (i o r : ℕ) → IsAligned i o → i / 2 ^ o ≡ 2 * r + 1 → Buddy i o
Buddy-of_odd i o r a e =
    let f : i ≡ 2 ^ suc o * r + 2 ^ o = omega (
      arith,
      multiple i o a,
      pow_suc o,
      ap (λ (t : ℕ). t * r) (pow_suc o),
      ap (λ (t : ℕ). 2 ^ o * t) e,
    ) in
    let g : flip_bit i o ≡ i - 2 ^ o = ground arith in
    lower (omega arith) (IsAligned-mul (flip_bit i o) (suc o) r (omega arith))

pub buddy : (i o : ℕ) → IsAligned i o → Buddy i o
buddy i o a = elim (Bool-cases (i / 2 ^ o % 2 == 1)) [
  | inl odd ↦ Buddy-of_odd i o (i / 2 ^ o / 2) a (ground arith)
  | inr even ↦ Buddy-of_even i o (i / 2 ^ o / 2) a (ground arith)
]

IsAligned-down : (i o k : ℕ) → IsAligned i (k + o) → IsAligned i o
IsAligned-down i o zero a = let e : zero + o ≡ o = omega arith in rw e at a
IsAligned-down i o (suc k) a =
    let e : suc k + o ≡ suc (k + o) = omega arith in
    IsAligned-down i o k (IsAligned-lower i (k + o) (rw e at a))

-- A block is aligned for every smaller order.
pub IsAligned-le : (i o p : ℕ) → o ≤ p → IsAligned i p → IsAligned i o
IsAligned-le i o p h a =
    let e : p ≡ p - o + o = omega arith in IsAligned-down i o (p - o) (rw e at a)

-- Multiples of `m` in order are a whole `m` apart.
gap : (m a b : ℕ) → m * a < m * b → m * a + m ≤ m * b
gap m a b h = let lt : a < b = lt_of_mul-lt-mul_left m h in grow a b lt
  where
    grow : (a b : ℕ) → a < b → m * a + m ≤ m * b
    grow a b lt = grind arith

-- Where a small block meets a large one, it lies within it.
pub within :
    (i o j p : ℕ)
    → IsAligned i o
    → IsAligned j p
    → o ≤ p
    → i < j + 2 ^ p
    → j < i + 2 ^ o
    → (j ≤ i) × (i + 2 ^ o ≤ j + 2 ^ p)
within i o j p ai aj h lt lt' =
    let ei = multiple i o ai in
    let ej = multiple j o (IsAligned-le j o p h aj) in
    let ep = multiple (2 ^ p) o (IsAligned-le (2 ^ p) o p h (mod_self (2 ^ p))) in
    let sum = mul-add (2 ^ o) (j / 2 ^ o) (2 ^ p / 2 ^ o) in
    let up = gap (2 ^ o) (i / 2 ^ o) (j / 2 ^ o + 2 ^ p / 2 ^ o) (omega arith) in
    let down =
      gap (2 ^ o) (j / 2 ^ o) (i / 2 ^ o + 1) (omega (arith, mul-add (2 ^ o) (i / 2 ^ o) 1)) in
    (omega (arith, mul-add (2 ^ o) (i / 2 ^ o) 1), omega arith)

-- An aligned number whose next bit is clear is aligned for the next order.
pub IsAligned-suc : (i o : ℕ) → IsAligned i o → test_bit i o ≡ false → IsAligned i (suc o)
IsAligned-suc i o a t = IsAligned-mul i (suc o) (i / 2 ^ o / 2) (
    omega (
      arith,
      multiple i o a,
      pow_suc o,
      ap (λ (t : ℕ). t * (i / 2 ^ o / 2)) (pow_suc o),
      ap (λ (t : ℕ). 2 ^ o * t) even,
    ))
  where
    even : i / 2 ^ o ≡ 2 * (i / 2 ^ o / 2)
    even = ground arith
