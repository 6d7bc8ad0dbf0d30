-- ===== src/Initramfs/Tests.antt =====
-- An archive of a directory `d` and the trailer, and the theorems on src/initramfs.c there.
use files_co.Base.{
  ℕ, zero, suc, ◌-◌, ◌≡◌, List, [], ◌∷◌, some, arith, if◌then◌else◌, ◌==◌, leb, ltb, ◌&&◌,
}
use files_co.StringOps.{Memory}
use files_co.Initramfs.{parse_str_to_hex}
use files_co.Initramfs.Hex.{IsHex, decimal, upper_case, parse_str_to_hex-IsHex}

abbrev text_at : List ℕ → ℕ → ℕ
text_at [] k = b'0'
text_at (c ∷ cs) zero = c
text_at (c ∷ cs) (suc k) = text_at cs k

-- Headers at 0 and 112: the mode 4000 and the sizes of the names, 2 and 11
abbrev archive : Memory
archive a =
    if a == 18
    then b'4'
    else if a == 101
    then b'2'
    else if a == 213
    then b'B'
    else if leb 222 a
    then text_at (b'T' ∷ b'R' ∷ b'A' ∷ b'I' ∷ b'L' ∷ b'E' ∷ b'R' ∷ b'!' ∷ b'!' ∷ b'!' ∷ 0 ∷ [])
        (a - 222)
    else if leb 110 a && ltb a 112
    then text_at (b'd' ∷ 0 ∷ []) (a - 110)
    else b'0'

parse_str_to_hex-IsHex_example : parse_str_to_hex archive 206 ≡ some 11
unfolding IsHex
parse_str_to_hex-IsHex_example = parse_str_to_hex-IsHex archive 206 11 (omega arith) (
  decimal 0 (omega arith),
  (
    decimal 0 (omega arith),
    (
      decimal 0 (omega arith),
      (
        decimal 0 (omega arith),
        (
          decimal 0 (omega arith),
          (decimal 0 (omega arith), (decimal 0 (omega arith), (upper_case 1 (omega arith), tt))),
        ),
      ),
    ),
  ),
)
