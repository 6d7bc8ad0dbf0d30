-- ===== src/StringOps.antt =====
-- src/string.c: strlen, memcpy and memset over memory, a byte at each address.
pub mod Laws
mod Tests
use files_co.Base.{ℕ, zero, suc, ◌+◌, ◌-◌, ◌%◌, Option, none, some, ◌==◌, if◌then◌else◌}

abbrev pub Memory : Type 0
Memory = ℕ → ℕ

unfoldable pub store : ℕ → ℕ → Memory → Memory
store p c m a = if a == p then c else m a

-- `while (*str++);`: the pointer after the loop, `none` if the fuel runs out.
strlen_loop : ℕ → ℕ → Memory → Option ℕ
strlen_loop zero str m = none
strlen_loop (suc fuel) str m =
    let rest = strlen_loop fuel (str + 1) m in if m str == 0 then some (str + 1) else rest

pub strlen : ℕ → ℕ → Memory → Option ℕ
unfolding strlen_loop
strlen fuel str m = elim (strlen_loop fuel str m) [ none ↦ none | some p ↦ some (p - str - 1) ]

-- `while (size--) *to++ = *from++;`
pub memcpy : (dst src size : ℕ) → Memory → Memory
unfolding store
memcpy dst src zero m = m
memcpy dst src (suc size) m = memcpy (dst + 1) (src + 1) size (store dst (m src) m)

-- `while (size--) *to++ = fill;`, with `fill` cast to char
pub memset : (dst fill size : ℕ) → Memory → Memory
unfolding store
memset dst fill zero m = m
memset dst fill (suc size) m = memset (dst + 1) fill size (store dst (fill % 256) m)
