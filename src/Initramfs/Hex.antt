-- ===== src/Initramfs/Hex.antt =====
-- `parse_str_to_hex` of src/initramfs.c.
use native.Mathlib.Nat.{mod-eq_of_lt, div-add-mod, mod-lt, mul_comm}
use files_co.Base.{ℕ, zero, suc, ◌+◌, ◌*◌, ◌/◌, ◌%◌, ◌^◌, ◌<◌, ◌≡◌, ◌∙◌, ap, true, some, ltb, arith}
use files_co.Base.Pow.{pow_suc, pow_pos}
use files_co.StringOps.{Memory}
use files_co.Initramfs.{hex_digit, hex_loop, parse_str_to_hex}

-- A character that stands for a digit: from `0` to `9`, from `A` to `F` or from `a` to `f`
pub data IsDigit : (c d : ℕ) → Type 0 where
  decimal : (d : ℕ) → d < 10 → IsDigit (b'0' + d) d
  upper_case : (d : ℕ) → d < 6 → IsDigit (b'A' + d) (10 + d)
  lower_case : (d : ℕ) → d < 6 → IsDigit (b'a' + d) (10 + d)

hex_digit-IsDigit : {c d : ℕ} → IsDigit c d → hex_digit c ≡ some d
unfolding hex_digit
hex_digit-IsDigit (decimal d h) = ground arith
hex_digit-IsDigit (upper_case d h) = ground arith
hex_digit-IsDigit (lower_case d h) = ground arith

-- The text of a number, each digit in upper or lower case, the first one at `start`
unfoldable pub IsHex : (digits : ℕ) → Memory → (start n : ℕ) → Type 0
IsHex zero m start n = Unit {0}
IsHex (suc left) m start n =
    (IsDigit (m start) (n / 2 ^ (4 * left))) × IsHex left m (start + 1) (n % 2 ^ (4 * left))

digit_pow : (left : ℕ) → 2 ^ (4 * suc left) ≡ 16 * 2 ^ (4 * left)
digit_pow left =
    let e : 4 * suc left ≡ suc (suc (suc (suc (4 * left)))) = omega arith in
    ap (λ (k : ℕ). 2 ^ k) e
    ∙ omega (
      arith,
      pow_suc (4 * left),
      pow_suc (suc (4 * left)),
      pow_suc (suc (suc (4 * left))),
      pow_suc (suc (suc (suc (4 * left)))),
    )

hex_loop_lem :
    (left : ℕ) (m : Memory) (start res n : ℕ)
    → n < 2 ^ 31
    → n < 2 ^ (4 * left)
    → res + n < 2 ^ 64
    → IsHex left m start n
    → hex_loop left m start res ≡ some (res + n)
unfolding hex_loop IsHex
hex_loop_lem zero m start res n h l w k = ap some (omega arith)
hex_loop_lem (suc left) m start res n h l w (d, k) =
    let q = 2 ^ (4 * left) in
    let whole : (n / q) * q + n % q ≡ n = omega (arith, div-add-mod n q, mul_comm q (n / q)) in
    let read = hex_digit-IsDigit d in
    let fits : ltb ((n / q) * q) (2 ^ 31) ≡ true = below (omega (arith, whole, h)) in
    let sum : (res + (n / q) * q) % 2 ^ 64 ≡ res + (n / q) * q =
      mod-eq_of_lt {n = res + (n / q) * q} {m = 2 ^ 64} (omega (arith, whole, w)) in
    let rest =
      hex_loop_lem left m (start + 1) (res + (n / q) * q) (n % q) (omega (arith, whole, h))
        (mod-lt n (pow_pos (4 * left))) (omega (arith, whole, w)) k in
    rw (hex_loop, read, fits, sum) (rest ∙ ap some (omega (arith, whole)))
  where
    below : {a b : ℕ} → a < b → ltb a b ≡ true
    below h = ground arith

-- `parse_str_to_hex` reads the number whose eight digits, in upper or lower case, are at an address,
-- for a number below 2 ^ 31.
pub parse_str_to_hex-IsHex :
    (m : Memory) (start n : ℕ) → n < 2 ^ 31 → IsHex 8 m start n → parse_str_to_hex m start ≡ some n
unfolding parse_str_to_hex
parse_str_to_hex-IsHex m start n h k =
    hex_loop_lem 8 m start 0 n h (omega (arith, h)) (omega (arith, h)) k ∙ ap some (omega arith)
