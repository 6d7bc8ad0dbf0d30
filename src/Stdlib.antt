-- ===== src/Stdlib.antt =====
-- src/stdlib.c: numbers to text and back, over memory. Values are 64-bit words; `none` means that
-- the fuel of a loop ran out.
pub mod Digits
pub mod Print
mod Tests
use files_co.Base.{
  ℕ, zero, suc, ◌+◌, ◌-◌, ◌*◌, ◌/◌, ◌%◌, ◌^◌, Bool, true, false, not, ◌&&◌, ◌||◌, Option, none,
  some, ◌==◌, ltb, leb, if◌then◌else◌, ◌>>=◌,
}
use files_co.Ctype.{isspace, isdigit, tolower, toupper}
use files_co.StringOps.{Memory, store}

-- `"0123456789abcdefghijklmnopqrstuvwxyz"[r]`
unfoldable pub digit_char : ℕ → ℕ
digit_char r = if ltb r 10 then b'0' + r else b'a' + (r - 10)

-- The `do … while (value)` of `ulltoa`: the pointer behind the digits, and the memory.
digits_loop : ℕ → (value ptr base : ℕ) → Memory → Option (ℕ × Memory)
unfolding store digit_char
digits_loop zero value ptr base m = none
digits_loop (suc fuel) value ptr base m =
    let m' = store ptr (digit_char (value % base)) m in
    let rest = digits_loop fuel (value / base) (ptr + 1) base m' in
    if value / base == 0 then some (ptr + 1, m') else rest

-- `while (start < ptr)`, which reverses the text in place.
reverse_loop : ℕ → (start ptr : ℕ) → Memory → Memory
unfolding store
reverse_loop zero start ptr m = m
reverse_loop (suc fuel) start ptr m =
    let rest =
      reverse_loop fuel (start + 1) (ptr - 1) (store start (m ptr) (store ptr (m start) m)) in
    if ltb start ptr then rest else m

-- `ulltoa`: a 64-bit value has at most 64 digits.
pub ulltoa : (value str base : ℕ) → Memory → Option Memory
unfolding digits_loop reverse_loop
ulltoa value str base m = digits_loop 64 value str base m >>= λ (ptr, m').
    some (reverse_loop 64 str (ptr - 1) (store ptr 0 m'))

-- `lltoa`, of the 64-bit word that stands for a signed value
pub lltoa : (value str base : ℕ) → Memory → Option Memory
unfolding ulltoa
lltoa value str base m =
    if ltb value (2 ^ 63)
    then ulltoa value str base m
    else ulltoa (2 ^ 64 - value) (str + 1) base (store str b'-' m)

-- `ultoa` and `utoa`, whose arguments are words of 64 and 32 bits
pub ultoa : (value str base : ℕ) → Memory → Option Memory
unfolding ulltoa
ultoa value str base m = ulltoa value str base m

pub utoa : (value str base : ℕ) → Memory → Option Memory
unfolding ulltoa
utoa value str base m = ulltoa value str base m

-- `ltoa` and `itoa`, of words of 64 and 32 bits that stand for signed values
pub ltoa : (value str base : ℕ) → Memory → Option Memory
unfolding lltoa
ltoa value str base m = lltoa value str base m

pub itoa : (value str base : ℕ) → Memory → Option Memory
unfolding lltoa
itoa value str base m =
    lltoa (if ltb value (2 ^ 31) then value else value + (2 ^ 64 - 2 ^ 32)) str base m

-- `while (isspace(*ptr)) ++ptr;`
skip_spaces : ℕ → ℕ → Memory → Option ℕ
unfolding isspace
skip_spaces zero ptr m = none
skip_spaces (suc fuel) ptr m =
    let rest = skip_spaces fuel (ptr + 1) m in if isspace (m ptr) then rest else some ptr

-- `isdigit(c) ? c - '0' : c - 'A' + 10`, of a signed char, converted to unsigned long
pub digit_value : ℕ → ℕ
unfolding isdigit
digit_value c =
    if isdigit c
    then c - b'0'
    else if ltb c 128
    then (c + 2 ^ 64 - b'A' + 10) % 2 ^ 64
    else (c + 2 ^ 64 - 256 - b'A' + 10) % 2 ^ 64

-- The loop of `strtoul` over the digits: the value, whether a digit was read, and the pointer.
pub parse_loop : ℕ → (ptr base ret : ℕ) → Bool → Memory → Option (ℕ × Bool × ℕ)
unfolding toupper digit_value
parse_loop zero ptr base ret consumed m = none
parse_loop (suc fuel) ptr base ret consumed m =
    let digit = digit_value (toupper (m ptr)) in
    let rest = parse_loop fuel (ptr + 1) base ((ret * base + digit) % 2 ^ 64) true m in
    if m ptr == 0
    then some (ret, consumed, ptr)
    else if ltb ((2 ^ 64 - 1 + 2 ^ 64 - digit) % 2 ^ 64 / base) ret
    then some (2 ^ 64 - 1, consumed, ptr)
    else rest

-- What stands before the digits: the base, and where they start.
pub parse_prefix : (ptr base : ℕ) → Memory → ℕ × ℕ
unfolding tolower
parse_prefix ptr base m =
    if base == 0
    then (if m ptr == b'0'
        then (if tolower (m (ptr + 1)) == b'x' then (16, ptr + 2) else (8, ptr + 1))
        else (10, ptr))
    else if base == 8 && m ptr == b'0'
    then (base, ptr + 1)
    else if base == 16 && m ptr == b'0' && m (ptr + 1) == b'x'
    then (base, ptr + 2)
    else (base, ptr)

-- `strtoul`: the value, and what `*endptr` is set to.
pub strtoul : ℕ → (str base : ℕ) → Memory → Option (ℕ × ℕ)
unfolding skip_spaces parse_loop parse_prefix
strtoul fuel str base m = skip_spaces fuel str m >>= λ ptr.
    let signed = m ptr == b'-' || m ptr == b'+' in
    let negate = m ptr == b'-' in
    let (base', start) = parse_prefix (if signed then ptr + 1 else ptr) base m in
    parse_loop fuel start base' 0 false m >>= λ (ret, consumed, end).
    some (if negate then (2 ^ 64 - ret) % 2 ^ 64 else ret, if consumed then end else str)
