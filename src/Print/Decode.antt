-- ===== src/Print/Decode.antt =====
-- `decode_format` of src/print.c.
use files_co.Base.{ℕ, Bool, true, false, ◌||◌, List, [], ◌∷◌, if◌then◌else◌, ◌==◌}
use files_co.Ctype.{isdigit}

-- `enum format_type`
pub data FormatType : Type 0 where
  invalid : FormatType
  plain : FormatType
  str : FormatType
  char : FormatType
  int : FormatType
  percent : FormatType

-- `type | spec`, a field for each flag
pub record Format : Type 0 where
  pub type : FormatType
  pub sshort : Bool
  pub short : Bool
  pub long : Bool
  pub llong : Bool
  pub unsigned : Bool
  pub hex : Bool
  pub oct : Bool

abbrev pub no_spec : Format
no_spec = record {
  type = invalid;
  sshort = false;
  short = false;
  long = false;
  llong = false;
  unsigned = false;
  hex = false;
  oct = false;
}

-- The flag behind `%`
unfoldable pub skip_flag : List ℕ → List ℕ
skip_flag [] = []
skip_flag (c ∷ fmt) =
    if c == b'-' || c == b'+' || c == b' ' || c == b'#' || c == b'0' then fmt else c ∷ fmt

unfoldable pub skip_digits : List ℕ → List ℕ
skip_digits [] = []
skip_digits (c ∷ fmt) = elim (isdigit c) [ true ↦ skip_digits fmt | false ↦ c ∷ fmt ]

unfoldable pub skip_precision : List ℕ → List ℕ
skip_precision [] = []
skip_precision (c ∷ fmt) = if c == b'.' then skip_digits fmt else c ∷ fmt

-- The length: `once` for one letter, `twice` for two
unfoldable pub skip_second : (letter : ℕ) → (once twice : Format) → List ℕ → Format × List ℕ
skip_second letter once twice [] = (once, [])
skip_second letter once twice (c ∷ fmt) = if c == letter then (twice, fmt) else (once, c ∷ fmt)

unfoldable pub skip_length : List ℕ → Format × List ℕ
skip_length [] = (no_spec, [])
skip_length (c ∷ fmt) =
    if c == b'l'
    then skip_second b'l' (record no_spec { long = true }) (record no_spec { llong = true }) fmt
    else if c == b'h'
    then skip_second b'h' (record no_spec { short = true }) (record no_spec { sshort = true }) fmt
    else (no_spec, c ∷ fmt)

-- The switch on the conversion; its cases fall through.
unfoldable pub conversion : ℕ → Format → Format
conversion c f =
    if c == b'p'
    then record f { type = int; long = true; hex = true; unsigned = true }
    else if c == b'x' || c == b'X'
    then record f { type = int; hex = true; unsigned = true }
    else if c == b'o'
    then record f { type = int; oct = true; unsigned = true }
    else if c == b'u'
    then record f { type = int; unsigned = true }
    else if c == b'd' || c == b'i'
    then record f { type = int }
    else if c == b's'
    then record f { type = str }
    else if c == b'c'
    then record f { type = char }
    else if c == b'%'
    then record f { type = percent }
    else f

-- `c = *fmt++`, where the format ends with 0; then the type is invalid, and the pointer not used.
unfoldable pub convert : Format × List ℕ → Format × List ℕ
convert (f, []) = (f, [])
convert (f, c ∷ fmt) = (conversion c f, fmt)

-- What stands behind `%`
unfoldable pub directive : List ℕ → Format × List ℕ
directive fmt = convert (skip_length (skip_precision (skip_digits (skip_flag fmt))))

-- The loop over characters once the type is FMT_NONE
unfoldable pub plain_loop : List ℕ → List ℕ
plain_loop [] = []
plain_loop (c ∷ fmt) = elim (c == b'%') [ true ↦ c ∷ fmt | false ↦ plain_loop fmt ]

-- `decode_format`
unfoldable pub decode_format : List ℕ → Format × List ℕ
decode_format [] = (no_spec, [])
decode_format (c ∷ fmt) = elim (c == b'%') [
  | true ↦ directive fmt
  | false ↦ (record no_spec { type = plain }, plain_loop fmt)
]
