-- ===== src/Ctype.antt =====
-- src/ctype.c: the classes of characters, from a table of 256 entries. A character is its byte.
pub mod Classes
use Prim.Native.Nat.{bit_and, bit_or}
use files_co.Base.{
  ℕ, ◌+◌, ◌-◌, Bool, not, ◌==◌, if◌then◌else◌, List, [], ◌∷◌, ◌++◌, replicate, get_or,
}

abbrev pub ctype_sp : ℕ
ctype_sp = 0x01

abbrev pub ctype_di : ℕ
ctype_di = 0x02

abbrev pub ctype_lo : ℕ
ctype_lo = 0x04

abbrev pub ctype_up : ℕ
ctype_up = 0x08

abbrev pub ctype_xd : ℕ
ctype_xd = 0x10

abbrev pub ctype_pu : ℕ
ctype_pu = 0x20

abbrev pub ctype_xs : ℕ
ctype_xs = 0x40

-- The array `ctype`, equal neighbours written once.
unfoldable pub ctype : List ℕ
ctype =
    replicate 9 0
    ++ replicate 5 ctype_sp
    ++ replicate 18 0
    ++ bit_or ctype_xs ctype_sp ∷ []
    ++ replicate 15 ctype_pu
    ++ replicate 10 (bit_or ctype_di ctype_xd)
    ++ replicate 7 ctype_pu
    ++ replicate 6 (bit_or ctype_up ctype_xd)
    ++ replicate 20 ctype_up
    ++ replicate 6 ctype_pu
    ++ replicate 6 (bit_or ctype_lo ctype_xd)
    ++ replicate 20 ctype_lo
    ++ replicate 4 ctype_pu
    ++ 0 ∷ []
    ++ replicate 128 0

-- `ctype[c] & mask`, as a test
unfoldable pub has_class : ℕ → ℕ → Bool
unfolding ctype
has_class c mask = not (bit_and (get_or ctype c 0) mask == 0)

unfoldable pub isprint : ℕ → Bool
unfolding has_class
isprint c =
    has_class c (bit_or ctype_lo (bit_or ctype_up (bit_or ctype_di (bit_or ctype_pu ctype_xs))))

unfoldable pub isalpha : ℕ → Bool
unfolding has_class
isalpha c = has_class c (bit_or ctype_lo ctype_up)

unfoldable pub isdigit : ℕ → Bool
unfolding has_class
isdigit c = has_class c ctype_di

unfoldable pub isxdigit : ℕ → Bool
unfolding has_class
isxdigit c = has_class c ctype_xd

unfoldable pub isspace : ℕ → Bool
unfolding has_class
isspace c = has_class c ctype_sp

unfoldable pub islower : ℕ → Bool
unfolding has_class
islower c = has_class c ctype_lo

unfoldable pub isupper : ℕ → Bool
unfolding has_class
isupper c = has_class c ctype_up

unfoldable pub toupper : ℕ → ℕ
unfolding islower
toupper c = if islower c then c - 0x20 else c

unfoldable pub tolower : ℕ → ℕ
unfolding isupper
tolower c = if isupper c then c + 0x20 else c
