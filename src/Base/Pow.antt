-- ===== src/Base/Pow.antt =====
-- Powers of two at a variable exponent.
use native.Mathlib.Nat.{pow-suc}
use files_co.Base.{ℕ, zero, suc, ◌+◌, ◌^◌, ◌<◌, ◌≡◌, arith}

pub pow_suc : (n : ℕ) → 2 ^ suc n ≡ 2 ^ n + 2 ^ n
pow_suc n = omega (arith, pow-suc 2 n)

pub pow_pos : (n : ℕ) → 0 < 2 ^ n
pow_pos zero = omega arith
pow_pos (suc n) = omega (arith, pow_suc n, pow_pos n)
