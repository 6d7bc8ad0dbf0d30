-- ===== src/Print.antt =====
-- src/print.c: formatted output. A text is the list of its characters before the 0.
pub mod Decode
pub mod Total
mod Buffer
pub mod Bounded
mod Tests
use files_co.Base.{
  leb, not, ◌&&◌, ℕ, zero, suc, ◌+◌, ◌-◌, ◌^◌, ◌%◌, Bool, true, false, List, [], ◌∷◌, ◌++◌, Option,
  none, some, if◌then◌else◌, ◌==◌, ltb, length, ◌>>=◌, update,
}
use files_co.StringOps.{Memory, store}
use files_co.Stdlib.{ulltoa, lltoa}
use files_co.Print.Decode.{
  Format, FormatType, invalid, plain, str, char, int, percent, decode_format,
}

-- The text at an address, of at most so many characters
unfoldable pub text_at : (most ptr : ℕ) → Memory → List ℕ
text_at zero ptr m = []
text_at (suc most) ptr m =
    let rest = text_at most (ptr + 1) m in if m ptr == 0 then [] else m ptr ∷ rest

-- What a conversion leaves in `buf` of `print_number`, which has 64 bytes
unfoldable pub buf_text : Option Memory → List ℕ
buf_text none = []
buf_text (some m) = text_at 64 0 m

-- The value that `va_arg` gives for a word, by its format: `long` and `long long` have 64 bits, and
-- signed numbers stand as words of 64 bits.
unfoldable pub arg_value : Format → ℕ → ℕ
arg_value f word =
    let low = word % 2 ^ 32 in
    if f.long
    then word
    else if f.llong
    then word
    else if f.unsigned
    then low
    else if ltb low (2 ^ 31)
    then low
    else low + (2 ^ 64 - 2 ^ 32)

-- What `print_number` prints
unfoldable pub number_text : Format → ℕ → List ℕ
number_text f word =
    let base = if f.hex then 16 else if f.oct then 8 else 10 in
    let value = arg_value f word in
    if f.unsigned
    then buf_text (ulltoa value 0 base (λ a. 0))
    else buf_text (lltoa value 0 base (λ a. 0))

-- The rest of the format, the arguments that are left, and what is printed: `none` is rc = -1.
pub record Piece : Type 0 where
  pub rest : List ℕ
  pub args : List ℕ
  pub out : Option (List ℕ)

-- `va_arg`: a missing argument, which is undefined in C, is 0.
abbrev pub first_arg : List ℕ → ℕ
first_arg [] = 0
first_arg (a ∷ args) = a

abbrev pub other_args : List ℕ → List ℕ
other_args [] = []
other_args (a ∷ args) = args

-- The first `n` characters, for `fmt - start`
unfoldable pub prefix : ℕ → List ℕ → List ℕ
prefix zero l = []
prefix (suc n) [] = []
prefix (suc n) (c ∷ l) = c ∷ prefix n l

-- `string` gives the text at an address, which printing does not change.
module _ (string : ℕ → List ℕ) where
  -- The switch of `__vprintf`
  unfoldable pub piece : (start rest args : List ℕ) → Format → FormatType → Piece
  piece start rest args f str = record {
    rest = rest;
    args = other_args args;
    out = some (string (first_arg args));
  }
  piece start rest args f char = record {
    rest = rest;
    args = other_args args;
    out = some (first_arg args % 256 ∷ []);
  }
  piece start rest args f int = record {
    rest = rest;
    args = other_args args;
    out = some (number_text f (first_arg args));
  }
  piece start rest args f plain = record {
    rest = rest;
    args = args;
    out = some (prefix (length start - length rest) start);
  }
  piece start rest args f percent = record { rest = rest; args = args; out = some (37 ∷ []) }
  piece start rest args f invalid = record { rest = rest; args = args; out = none }

  unfoldable pub next_piece : (fmt args : List ℕ) → Piece
  next_piece fmt args = let (f, rest) = decode_format fmt in piece fmt rest args f f.type

  -- `S` is what the function `out` of a context writes to; it is given `written`, and the text.
  module _ {S : Type 0} (out : ℕ → List ℕ → S → S) where
    -- `struct print_ctx`, and whether rc is negative
    pub record Ctx : Type 0 where
      pub written : ℕ
      pub sink : S
      pub failed : Bool

    -- `print`: both functions `out` return 0.
    unfoldable pub print : List ℕ → Ctx → Ctx
    print buf ctx = record ctx {
      written = ctx.written + length buf;
      sink = out ctx.written buf ctx.sink;
    }

    -- The loop of `__vprintf`; `none` is no fuel.
    unfoldable pub vprintf_loop : (fuel : ℕ) → (fmt args : List ℕ) → Ctx → Option Ctx
    vprintf_loop zero fmt args ctx = none
    vprintf_loop (suc fuel) [] args ctx = some ctx
    vprintf_loop (suc fuel) (c ∷ fmt) args ctx =
        let p = next_piece (c ∷ fmt) args in
        elim p.out [
          | none ↦ some (record ctx { failed = true })
          | some text ↦ vprintf_loop fuel p.rest p.args (print text ctx)
        ]

    -- `__vprintf`: each round takes a character of the format.
    unfoldable pub vprintf_with : (fmt args : List ℕ) → S → Option Ctx
    vprintf_with fmt args sink =
        vprintf_loop (length fmt + 1) fmt args (record { written = 0; sink = sink; failed = false })

-- `serial_out`: what was sent to the port
unfoldable pub serial_out : ℕ → List ℕ → List ℕ → List ℕ
serial_out written text sent = sent ++ text

-- A text is copied to memory.
unfoldable pub put_text : ℕ → List ℕ → Memory → Memory
unfolding store
put_text p [] m = m
put_text p (c ∷ l) m = put_text (p + 1) l (store p c m)

-- An int of 32 bits, in two's complement, and as it is added to a pointer
abbrev pub is_negative : ℕ → Bool
is_negative n = leb (2 ^ 31) n

abbrev pub pointer_int : ℕ → ℕ
pointer_int n = if is_negative n then n + (2 ^ 64 - 2 ^ 32) else n

-- The counts of characters are ints: one that would exceed 2 ^ 31 - 1 is an overflow, whose result the
-- language does not define, and is `none` in `vprintf` and `vsnprintf`.
abbrev pub overflows : ℕ → Bool
overflows written = leb (2 ^ 31) written

-- `str_out` with a size that is not negative
unfoldable pub copy_within : (buf size : ℕ) → ℕ → List ℕ → Memory → Memory
copy_within buf size written text m =
    let left = size - written in
    let remain = if ltb (length text) left then length text else left in
    if ltb size written then m else put_text (buf + written) (prefix remain text) m

-- `str_out`, with the fields `buf` and `size` of its context, an int: `written` is above a negative one.
unfoldable pub str_out : (buf size : ℕ) → ℕ → List ℕ → Memory → Memory
unfolding copy_within
str_out buf size written text m =
    if is_negative size then m else copy_within buf size written text m

-- `vsnprintf`: where it puts the 0
unfoldable pub end_text : (buf size rc : ℕ) → Memory → Memory
end_text buf size rc m =
    let last = if not (is_negative size) && ltb rc size then rc else pointer_int size in
    store ((buf + last + 2 ^ 64 - 1) % 2 ^ 64) 0 m

-- `vsnprintf` with its function `out` and its end: whether rc is negative, rc if it is not, and memory
unfoldable pub vsnprintf_by :
    (string : ℕ → List ℕ) (out : ℕ → List ℕ → Memory → Memory) (ending : ℕ → Memory → Memory)
    (fmt args : List ℕ)
    → Memory
    → Option (Bool × ℕ × Memory)
vsnprintf_by string out ending fmt args m = do
  ctx ← vprintf_with string out fmt args m
  let sink = if ctx.failed then ctx.sink else ending ctx.written ctx.sink
  if overflows ctx.written then none else some (ctx.failed, ctx.written, sink)

-- `vsnprintf`, with `(int)size`
unfoldable pub vsnprintf :
    (string : ℕ → List ℕ) (buf size : ℕ) (fmt args : List ℕ) → Memory → Option (Bool × ℕ × Memory)
vsnprintf string buf size fmt args m =
    vsnprintf_by string (str_out buf (size % 2 ^ 32)) (end_text buf (size % 2 ^ 32)) fmt args m

-- `vprintf`: what was sent to the serial port
unfoldable pub vprintf : (string : ℕ → List ℕ) (fmt args sent : List ℕ) → Option (Bool × ℕ × List ℕ)
vprintf string fmt args sent = do
  ctx ← vprintf_with string serial_out fmt args sent
  if overflows ctx.written then none else some (ctx.failed, ctx.written, ctx.sink)
