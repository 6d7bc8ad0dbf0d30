-- ===== src/Print/Total.antt =====
-- `__vprintf` of src/print.c comes to the end of its format.
use files_co.Base.{
  ℕ, zero, suc, ◌+◌, ◌≤◌, ◌<◌, ◌≡◌, refl, true, false, List, [], ◌∷◌, ◌==◌, length, arith, some,
  Bool-cases, Option-cases, inl, inr,
}
use files_co.Ctype.{isdigit}
use files_co.Print.Decode.{
  Format, FormatType, invalid, plain, str, char, int, percent, no_spec, skip_flag, skip_digits,
  skip_precision, skip_second, skip_length, convert, directive, plain_loop, decode_format,
}
use files_co.Print.{piece, next_piece, Ctx, print, vprintf_loop, vprintf_with}

skip_flag-le : (fmt : List ℕ) → length (skip_flag fmt) ≤ length fmt
unfolding skip_flag
skip_flag-le [] = omega arith
skip_flag-le (c ∷ fmt) = ground arith

skip_digits-le : (fmt : List ℕ) → length (skip_digits fmt) ≤ length fmt
unfolding skip_digits
skip_digits-le [] = omega arith
skip_digits-le (c ∷ fmt) = elim (Bool-cases (isdigit c)) [
  | inl e ↦ rw (e, skip_digits) (omega (arith, skip_digits-le fmt))
  | inr e ↦ rw (e, skip_digits) (omega arith)
]

skip_precision-le : (fmt : List ℕ) → length (skip_precision fmt) ≤ length fmt
unfolding skip_precision
skip_precision-le [] = omega arith
skip_precision-le (c ∷ fmt) = ground (arith, skip_digits-le fmt)

skip_second-le :
    (l : ℕ) (once twice : Format) (fmt : List ℕ)
    → length (skip_second l once twice fmt).1 ≤ length fmt
unfolding skip_second
skip_second-le l once twice [] = omega arith
skip_second-le l once twice (c ∷ fmt) = elim (Bool-cases (c == l)) [
  | inl e ↦ rw e (omega arith)
  | inr e ↦ rw e (omega arith)
]

skip_length-le : (fmt : List ℕ) → length (skip_length fmt).1 ≤ length fmt
unfolding skip_length
skip_length-le [] = omega arith
skip_length-le (c ∷ fmt) = elim (Bool-cases (c == b'l')) [
  | inl e ↦ rw e (
      omega (
        arith,
        skip_second-le b'l' (record no_spec { long = true }) (record no_spec { llong = true }) fmt,
      ))
  | inr e ↦ elim (Bool-cases (c == b'h')) [
    | inl e' ↦
        rw (e, e')
          (omega (
            arith,
            skip_second-le b'h' (record no_spec { short = true }) (record no_spec { sshort = true })
                fmt,
          ))
    | inr e' ↦ rw (e, e') (omega arith)
  ]
]

convert-le : (r : Format × List ℕ) → length (convert r).1 ≤ length r.1
unfolding convert
convert-le (f, []) = omega arith
convert-le (f, c ∷ fmt) = omega arith

directive-le : (fmt : List ℕ) → length (directive fmt).1 ≤ length fmt
unfolding directive
directive-le fmt =
    let a = skip_flag-le fmt in
    let b = skip_digits-le (skip_flag fmt) in
    let c = skip_precision-le (skip_digits (skip_flag fmt)) in
    let d = skip_length-le (skip_precision (skip_digits (skip_flag fmt))) in
    let e = convert-le (skip_length (skip_precision (skip_digits (skip_flag fmt)))) in
    omega (arith, a, b, c, d, e)

plain_loop-le : (fmt : List ℕ) → length (plain_loop fmt) ≤ length fmt
unfolding plain_loop
plain_loop-le [] = omega arith
plain_loop-le (c ∷ fmt) = elim (Bool-cases (c == b'%')) [
  | inl e ↦ rw (e, plain_loop) (omega arith)
  | inr e ↦ rw (e, plain_loop) (omega (arith, plain_loop-le fmt))
]

-- Decoding takes a character at least.
decode_format-lt : (c : ℕ) (fmt : List ℕ) → length (decode_format (c ∷ fmt)).1 < length (c ∷ fmt)
unfolding decode_format
decode_format-lt c fmt = elim (Bool-cases (c == b'%')) [
  | inl e ↦ rw (e, decode_format) (omega (arith, directive-le fmt))
  | inr e ↦ rw (e, decode_format) (omega (arith, plain_loop-le fmt))
]

module _ (string : ℕ → List ℕ) where
  piece_rest :
      (start rest args : List ℕ) (f : Format) (t : FormatType)
      → (piece string start rest args f t).rest ≡ rest
  unfolding piece
  piece_rest start rest args f str = refl
  piece_rest start rest args f char = refl
  piece_rest start rest args f int = refl
  piece_rest start rest args f plain = refl
  piece_rest start rest args f percent = refl
  piece_rest start rest args f invalid = refl

  next_piece-lt :
      (c : ℕ) (fmt args : List ℕ)
      → length (next_piece string (c ∷ fmt) args).rest < length (c ∷ fmt)
  unfolding next_piece
  next_piece-lt c fmt args =
      let (f, rest) = decode_format (c ∷ fmt) in
      rw (piece_rest (c ∷ fmt) rest args f f.type) (decode_format-lt c fmt)

  module _ {S : Type 0} (out : ℕ → List ℕ → S → S) where
    vprintf_loop_total :
        (fuel : ℕ) (fmt args : List ℕ) (ctx : Ctx string out)
        → length fmt < fuel
        → (ctx' : Ctx string out) × (vprintf_loop string out fuel fmt args ctx ≡ some ctx')
    unfolding vprintf_loop
    vprintf_loop_total zero fmt args ctx lt = absurd (omega arith)
    vprintf_loop_total (suc fuel) [] args ctx lt = (ctx, refl)
    vprintf_loop_total (suc fuel) (c ∷ fmt) args ctx lt =
        let p = next_piece string (c ∷ fmt) args in
        let less = next_piece-lt c fmt args in
        elim (Option-cases p.out) [
          | inl e ↦ (record ctx { failed = true }, rw (e, vprintf_loop) refl)
          | inr (text, e) ↦
              let (ctx', run) =
                vprintf_loop_total fuel p.rest p.args (print string out text ctx)
                  (omega (arith, less)) in
              (ctx', rw (e, vprintf_loop) run)
        ]

    -- Whatever the format, `__vprintf` comes to an end.
    pub vprintf_with_total :
        (fmt args : List ℕ) (sink : S)
        → (ctx : Ctx string out) × (vprintf_with string out fmt args sink ≡ some ctx)
    unfolding vprintf_with
    vprintf_with_total fmt args sink =
        vprintf_loop_total (length fmt + 1) fmt args
          (record { written = 0; sink = sink; failed = false }) (omega arith)
