-- ===== src/Base/Bits/Laws.antt =====
-- Single bits of a word that is written at one bit.
use native.Mathlib.Nat.{div-add-mod, div-div-eq-div-mul, pow-succ', pow-le-pow_right}
use files_co.Base.{
  ℕ, zero, suc, ◌+◌, ◌-◌, ◌*◌, ◌/◌, ◌%◌, ◌^◌, ◌≤◌, ◌<◌, ◌≡◌, refl, true, false, not, ltb, ◌⊎◌, ◌==◌,
  if◌then◌else◌, arith, Bool-cases, inl, inr, ap, sym, ◌∙◌,
}
use files_co.Base.Bits.{test_bit, set_bit, clear_bit}
use files_co.Base.Pow.{pow_suc, pow_pos}

div_half : (x k : ℕ) → x / 2 ^ suc k ≡ x / 2 / 2 ^ k
div_half x k = ap (λ (d : ℕ). x / d) (pow-succ' 2 k) ∙ sym (div-div-eq-div-mul x 2 (2 ^ k))

-- Each bit but the lowest is a bit of the half.
pub test_bit-half : (x k : ℕ) → test_bit x (suc k) ≡ test_bit (x / 2) k
test_bit-half x k = ap (λ (q : ℕ). q % 2 == 1) (div_half x k)

set_bit-half : (x k : ℕ) → set_bit x (suc k) / 2 ≡ set_bit (x / 2) k
set_bit-half x k = rw (test_bit-half x k) (ground (arith, pow_suc k))

clear_bit-half : (x k : ℕ) → clear_bit x (suc k) / 2 ≡ clear_bit (x / 2) k
clear_bit-half x k = rw (test_bit-half x k) (ground (arith, pow_suc k))

set_bit-low : (x k : ℕ) → set_bit x (suc k) % 2 ≡ x % 2
set_bit-low x k = ground (arith, pow_suc k)

pub test_bit-zero : (x : ℕ) → test_bit x 0 ≡ (x % 2 == 1)
test_bit-zero x = ground arith

pub test_bit-set_bit :
    (x k j : ℕ) → test_bit (set_bit x k) j ≡ (if j == k then true else test_bit x j)
test_bit-set_bit x zero zero = ground arith
test_bit-set_bit x zero (suc j) =
    let e : set_bit x 0 / 2 ≡ x / 2 = ground arith in
    rw (test_bit-half (set_bit x 0) j, e, test_bit-half x j) (ground arith)
test_bit-set_bit x (suc k) zero = ground (arith, set_bit-low x k)
test_bit-set_bit x (suc k) (suc j) =
    let same : (suc j == suc k) ≡ (j == k) = ground arith in
    rw (test_bit-half (set_bit x (suc k)) j, test_bit-half x j, same, set_bit-half x k)
      (test_bit-set_bit (x / 2) k j)

-- A word that has a bit is not below its weight.
pub test_bit-le : (x k : ℕ) → test_bit x k ≡ true → 2 ^ k ≤ x
test_bit-le x zero h = ground arith
test_bit-le x (suc k) h =
    omega (arith, test_bit-le (x / 2) k (rw (← test_bit-half x k) h), pow_suc k)

clear_bit-low : (x k : ℕ) → clear_bit x (suc k) % 2 ≡ x % 2
clear_bit-low x k = ground (arith, pow_suc k, test_bit-le x (suc k))

pub test_bit-clear_bit :
    (x k j : ℕ) → test_bit (clear_bit x k) j ≡ (if j == k then false else test_bit x j)
test_bit-clear_bit x zero zero = ground arith
test_bit-clear_bit x zero (suc j) =
    let e : clear_bit x 0 / 2 ≡ x / 2 = ground arith in
    rw (test_bit-half (clear_bit x 0) j, e, test_bit-half x j) (ground arith)
test_bit-clear_bit x (suc k) zero = ground (arith, clear_bit-low x k)
test_bit-clear_bit x (suc k) (suc j) =
    let same : (suc j == suc k) ≡ (j == k) = ground arith in
    rw (test_bit-half (clear_bit x (suc k)) j, test_bit-half x j, same, clear_bit-half x k)
      (test_bit-clear_bit (x / 2) k j)

-- A bit that is written within the width leaves the word within it.
pub set_bit-lt : (w x k : ℕ) → x < 2 ^ w → k < w → set_bit x k < 2 ^ w
set_bit-lt zero x k h lt = absurd (omega arith)
set_bit-lt (suc w) x zero h lt = ground (arith, pow_suc w)
set_bit-lt (suc w) x (suc k) h lt = omega (
  arith,
  set_bit-lt w (x / 2) k (omega (arith, pow_suc w)) (omega arith),
  set_bit-half x k,
  pow_suc w,
)

pub clear_bit-le : (x k : ℕ) → clear_bit x k ≤ x
clear_bit-le x k = ground arith

-- The bits of the complement of a word of `w` bits.
pub test_bit-complement :
    (w x k : ℕ) → x < 2 ^ w → k < w → test_bit (2 ^ w - 1 - x) k ≡ not (test_bit x k)
test_bit-complement zero x k h lt = absurd (omega arith)
test_bit-complement (suc w) x zero h lt = ground (arith, pow_suc w, pow_pos w)
test_bit-complement (suc w) x (suc k) h lt =
    let e : (2 ^ suc w - 1 - x) / 2 ≡ 2 ^ w - 1 - x / 2 = omega (arith, pow_suc w, pow_pos w) in
    rw (test_bit-half (2 ^ suc w - 1 - x) k, test_bit-half x k, e)
      (test_bit-complement w (x / 2) k (omega (arith, pow_suc w)) (omega arith))

-- A word of `w` bits none of which is set is 0.
pub zero_of-test_bit : (w x : ℕ) → x < 2 ^ w → ((k : ℕ) → k < w → test_bit x k ≡ false) → x ≡ 0
zero_of-test_bit zero x h f = omega arith
zero_of-test_bit (suc w) x h f =
    let low = f 0 (omega arith) in
    let half =
      zero_of-test_bit w (x / 2) (omega (arith, pow_suc w))
        (λ k lt. rw (test_bit-half x k) at (f (suc k) (omega arith))) in
    ground arith

-- Above and below the bit that is written nothing changes.
pub set_bit-div : (w x k : ℕ) → k < w → set_bit x k / 2 ^ w ≡ x / 2 ^ w
set_bit-div zero x k lt = absurd (omega arith)
set_bit-div (suc w) x zero lt =
    let e : set_bit x 0 / 2 ≡ x / 2 = ground arith in
    rw (div_half (set_bit x 0) w, div_half x w, e) refl
set_bit-div (suc w) x (suc k) lt =
    rw (div_half (set_bit x (suc k)) w, div_half x w, set_bit-half x k)
      (set_bit-div w (x / 2) k (omega arith))

pub clear_bit-div : (w x k : ℕ) → k < w → clear_bit x k / 2 ^ w ≡ x / 2 ^ w
clear_bit-div zero x k lt = absurd (omega arith)
clear_bit-div (suc w) x zero lt =
    let e : clear_bit x 0 / 2 ≡ x / 2 = ground arith in
    rw (div_half (clear_bit x 0) w, div_half x w, e) refl
clear_bit-div (suc w) x (suc k) lt =
    rw (div_half (clear_bit x (suc k)) w, div_half x w, clear_bit-half x k)
      (clear_bit-div w (x / 2) k (omega arith))

mod_half : (x w : ℕ) → x % 2 ^ suc w ≡ x % 2 + 2 * (x / 2 % 2 ^ w)
mod_half x w =
    let q = x / 2 / 2 ^ w in
    let whole = rw (div_half x w) at (div-add-mod x (2 ^ suc w)) in
    omega (arith, whole, div-add-mod (x / 2) (2 ^ w), ap (λ (t : ℕ). t * q) (pow_suc w))

pub set_bit-mod : (w x k : ℕ) → w ≤ k → set_bit x k % 2 ^ w ≡ x % 2 ^ w
set_bit-mod zero x k le = omega arith
set_bit-mod (suc w) x zero le = absurd (omega arith)
set_bit-mod (suc w) x (suc k) le =
    rw (mod_half (set_bit x (suc k)) w, mod_half x w, set_bit-half x k, set_bit-low x k)
      (omega (arith, set_bit-mod w (x / 2) k (omega arith)))

pub clear_bit-mod : (w x k : ℕ) → w ≤ k → clear_bit x k % 2 ^ w ≡ x % 2 ^ w
clear_bit-mod zero x k le = omega arith
clear_bit-mod (suc w) x zero le = absurd (omega arith)
clear_bit-mod (suc w) x (suc k) le =
    rw (mod_half (clear_bit x (suc k)) w, mod_half x w, clear_bit-half x k, clear_bit-low x k)
      (omega (arith, clear_bit-mod w (x / 2) k (omega arith)))

pub test_bit-div : (n x k : ℕ) → test_bit (x / 2 ^ n) k ≡ test_bit x (n + k)
test_bit-div zero x k =
    let e : 0 + k ≡ k = omega arith in let e' : x / 2 ^ 0 ≡ x = omega arith in rw (e, e') refl
test_bit-div (suc n) x k =
    let e : suc n + k ≡ suc (n + k) = omega arith in
    rw (e, test_bit-half x (n + k), div_half x n) (test_bit-div n (x / 2) k)

pub test_bit-mod : (w x k : ℕ) → k < w → test_bit (x % 2 ^ w) k ≡ test_bit x k
test_bit-mod zero x k lt = absurd (omega arith)
test_bit-mod (suc w) x zero lt = ground (arith, mod_half x w)
test_bit-mod (suc w) x (suc k) lt =
    let e : x % 2 ^ suc w / 2 ≡ x / 2 % 2 ^ w = omega (arith, mod_half x w) in
    rw (test_bit-half (x % 2 ^ suc w) k, test_bit-half x k, e)
      (test_bit-mod w (x / 2) k (omega arith))

pub zero-test_bit : (k : ℕ) → test_bit 0 k ≡ false
zero-test_bit zero = refl
zero-test_bit (suc k) = rw (test_bit-half 0 k) (zero-test_bit k)

-- The bits of `2 ^ n - 1`.
pub test_bit_ones : (n k : ℕ) → test_bit (2 ^ n - 1) k ≡ ltb k n
test_bit_ones n k = elim (Bool-cases (ltb k n)) [
  | inl lt ↦
      let e : 2 ^ n - 1 - 0 ≡ 2 ^ n - 1 = omega arith in
      rw lt (rw (e, zero-test_bit k) at (test_bit-complement n 0 k (pow_pos n) (ground arith)))
  | inr ge ↦ rw ge (none_set (Bool-cases (test_bit (2 ^ n - 1) k)) (ground arith))
]
  where
    none_set :
        (test_bit (2 ^ n - 1) k ≡ true) ⊎ (test_bit (2 ^ n - 1) k ≡ false)
        → n ≤ k
        → test_bit (2 ^ n - 1) k ≡ false
    none_set (inl h) le =
        let low = test_bit-le (2 ^ n - 1) k h in
        let up : 2 ^ n ≤ 2 ^ k = pow-le-pow_right (omega arith) le in
        absurd (omega (arith, pow_pos n))
    none_set (inr h) le = h
