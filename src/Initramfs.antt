-- ===== src/Initramfs.antt =====
-- src/initramfs.c and inc/initramfs.h: the archive with the first files, in memory at its physical
-- addresses. A failed BUG_ON is `none`.
pub mod Hex
mod Tests
use files_co.Base.{
  ℕ, zero, suc, ◌+◌, ◌-◌, ◌*◌, ◌/◌, ◌%◌, ◌^◌, Bool, true, false, ◌&&◌, ◌||◌, List, [], ◌∷◌, Option,
  none, some, ◌>>=◌, ltb, leb, ◌==◌, if◌then◌else◌,
}
use files_co.Base.Bits.{test_bit}
use files_co.StringOps.{Memory}
use files_co.Balloc.Setup.{number_at}

-- `mboot_info_t`, and one of the descriptors at `mods_addr`
pub record ModsInfo : Type 0 where
  pub mods_flags : ℕ
  pub mods_count : ℕ
  pub mods_addr : ℕ

-- `mbt->flags & 1000`, whose bits are 3 and 5 to 9
unfoldable pub has_mods : ℕ → Bool
has_mods flags =
    test_bit flags 3
    || test_bit flags 5
    || test_bit flags 6
    || test_bit flags 7
    || test_bit flags 8
    || test_bit flags 9

-- The test of a module's first bytes
unfoldable pub has_magic : Memory → (first second : ℕ) → Bool
has_magic m first second =
    leb 7 ((second + 2 ^ 64 - first) % 2 ^ 64)
    && (m first == b'0'
        || m (first + 1) == b'7'
        || m (first + 2) == b'0'
        || m (first + 3) == b'7'
        || m (first + 4) == b'0'
        || m (first + 5) == b'1')

-- The loop of `initramfs` over the descriptors that are left
unfoldable pub mods_loop : (left : ℕ) → Memory → (current_desc : ℕ) → Option (ℕ × ℕ)
unfolding has_magic number_at
mods_loop zero m current_desc = none
mods_loop (suc left) m current_desc =
    let first = number_at 4 m current_desc in
    let second = number_at 4 m (current_desc + 4) in
    let rest = mods_loop left m (current_desc + 16) in
    if has_magic m first second then some (first, second) else rest

unfoldable pub initramfs : ModsInfo → Memory → Option (ℕ × ℕ)
unfolding has_mods mods_loop
initramfs mbt m = if has_mods mbt.mods_flags then mods_loop mbt.mods_count m mbt.mods_addr else none

-- The three ranges of `parse_str_to_hex`
unfoldable pub hex_digit : ℕ → Option ℕ
hex_digit c =
    if leb c b'9' && leb b'0' c
    then some (c - b'0')
    else if leb c b'F' && leb b'A' c
    then some (c - b'A' + 10)
    else if leb c b'f' && leb b'a' c
    then some (c - b'a' + 10)
    else none

-- The product of a digit and its weight is an int: where it overflows, which is for a first digit of
-- 8 or more, it wraps around and is negative, as compiled code has it, and so it is added to `res`.
abbrev pub int_to_64 : ℕ → ℕ
int_to_64 t = if ltb t (2 ^ 31) then t else t + (2 ^ 64 - 2 ^ 32)

-- The loop of `parse_str_to_hex` with the digits that are left
unfoldable pub hex_loop : (left : ℕ) → Memory → (start res : ℕ) → Option ℕ
unfolding hex_digit
hex_loop zero m start res = some res
hex_loop (suc left) m start res = elim (hex_digit (m start)) [
  | none ↦ none
  | some d ↦ hex_loop left m (start + 1) ((res + int_to_64 (d * 2 ^ (4 * left))) % 2 ^ 64)
]

unfoldable pub parse_str_to_hex : Memory → (start : ℕ) → Option ℕ
unfolding hex_loop
parse_str_to_hex m start = hex_loop 8 m start 0
