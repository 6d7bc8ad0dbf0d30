-- ===== src/Print/Tests.antt =====
-- Runs of formatted output on small inputs.
use files_co.Base.{ℕ, ◌≡◌, refl, false, List, [], ◌∷◌, some}
use files_co.StringOps.{Memory}
use files_co.Ctype.{isdigit}
use files_co.Print.{
  Ctx, serial_out, vprintf_with, vprintf_loop, vprintf, next_piece, piece, prefix, print,
}
use files_co.Print.Decode.{
  decode_format, directive, skip_flag, skip_digits, skip_precision, skip_length, convert,
  conversion, plain_loop,
}
use files_co.Print.Total.{vprintf_with_total}

-- The format "a%c", and the argument 'b'
abbrev fmt : List ℕ
fmt = b'a' ∷ b'%' ∷ b'c' ∷ []

abbrev args : List ℕ
args = b'b' ∷ []

abbrev no_string : ℕ → List ℕ
no_string a = []

abbrev blank : Memory
blank a = 0

vprintf_with_total_example :
    (ctx : Ctx no_string serial_out) × (vprintf_with no_string serial_out fmt args [] ≡ some ctx)
vprintf_with_total_example = vprintf_with_total no_string serial_out fmt args []

prints_both : vprintf no_string fmt args [] ≡ some (false, 2, b'a' ∷ b'b' ∷ [])
unfolding vprintf vprintf_with vprintf_loop next_piece piece prefix print serial_out decode_format
    directive skip_flag skip_digits skip_precision skip_length convert conversion plain_loop isdigit
prints_both = refl
