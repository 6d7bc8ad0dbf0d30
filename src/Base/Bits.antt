-- ===== src/Base/Bits.antt =====
-- Single bits of a word, by their weights: what `|`, `&` and `^` with `1 << k` do.
pub mod Laws
use files_co.Base.{ℕ, ◌+◌, ◌-◌, ◌/◌, ◌%◌, ◌^◌, Bool, ◌==◌, if◌then◌else◌}

-- `x & (1 << k)`, as a test.
abbrev pub test_bit : ℕ → ℕ → Bool
test_bit x k = x / 2 ^ k % 2 == 1

-- `x | (1 << k)`.
abbrev pub set_bit : ℕ → ℕ → ℕ
set_bit x k = if test_bit x k then x else x + 2 ^ k

-- `x & ~(1 << k)`.
abbrev pub clear_bit : ℕ → ℕ → ℕ
clear_bit x k = if test_bit x k then x - 2 ^ k else x

-- `x ^ (1 << k)`.
abbrev pub flip_bit : ℕ → ℕ → ℕ
flip_bit x k = if test_bit x k then x - 2 ^ k else x + 2 ^ k
