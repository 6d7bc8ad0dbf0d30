-- ===== src/Slab/Pool/FirstBit.antt =====
-- `ffs` of src/alloc.c finds the lowest bit.
use files_co.Base.{
  ℕ, ◌+◌, ◌-◌, ◌*◌, ◌/◌, ◌%◌, ◌^◌, ◌<◌, ◌≡◌, ◌≢◌, Bool, true, false, not, ◌==◌, ltb, arith, scan,
  IsFirst, scan-IsFirst, Bool-cases, inl, inr, sym, ◌∙◌, ap,
}
use files_co.Base.Bits.{test_bit}
use files_co.Base.Bits.Laws.{test_bit-div, test_bit-mod, zero-test_bit, zero_of-test_bit}
use files_co.Slab.Pool.{ffs}

-- The bits of one byte.
byte_bit :
    (x byte k : ℕ) → k < 8 → test_bit (x / 2 ^ (byte * 8) % 256) k ≡ test_bit x (byte * 8 + k)
byte_bit x byte k lt = test_bit-mod 8 (x / 2 ^ (byte * 8)) k lt ∙ test_bit-div (byte * 8) x k

zero_byte :
    (x byte k : ℕ) → (x / 2 ^ (byte * 8) % 256) ≡ 0 → k < 8 → test_bit x (byte * 8 + k) ≡ false
zero_byte x byte k e lt =
    sym (byte_bit x byte k lt) ∙ ap (λ (b : ℕ). test_bit b k) e ∙ zero-test_bit k

-- The lowest bit of a word of 64 bits.
pub record IsLowest (x r : ℕ) : Type 0 where
  pub small : r < 64
  pub is_set : test_bit x r ≡ true
  pub lower_clear : (k : ℕ) → k < r → test_bit x k ≡ false

module _ (x : ℕ) where
  abbrev byte_used : ℕ → Bool
  byte_used byte = not (x / 2 ^ (byte * 8) % 256 == 0)

  unused : (byte : ℕ) → byte_used byte ≡ false → (x / 2 ^ (byte * 8) % 256) ≡ 0
  unused byte h = ground arith

  -- All bits below the byte that was found are clear.
  below_byte : (byte k : ℕ) → IsFirst 8 0 byte_used byte → k < byte * 8 → test_bit x k ≡ false
  below_byte byte k f lt =
      let e : k / 8 * 8 + k % 8 ≡ k = omega arith in
      rw e at (
        zero_byte x (k / 8) (k % 8) (unused (k / 8) (f.before (k / 8) (omega arith) (omega arith)))
          (omega arith))

  byte_found : (byte : ℕ) → IsFirst 8 0 byte_used byte → x < 2 ^ 64 → x ≢ 0 → byte < 8
  byte_found byte f h ne = elim (Bool-cases (ltb byte 8)) [
    | inl lt ↦ ground arith
    | inr ge ↦
        let all : byte ≡ 8 = ground (arith, f.upper) in
        absurd (ne (zero_of-test_bit 64 x h (λ k lt. below_byte byte k f (omega arith))))
  ]

  bit_found :
      (byte bit : ℕ)
      → byte_used byte ≡ true
      → IsFirst 8 0 (λ b. test_bit x (byte * 8 + b)) bit
      → bit < 8
  bit_found byte bit used f = elim (Bool-cases (ltb bit 8)) [
    | inl lt ↦ ground arith
    | inr ge ↦
        let all : bit ≡ 8 = ground (arith, f.upper) in
        let z =
          zero_of-test_bit 8 (x / 2 ^ (byte * 8) % 256) (omega arith)
            (λ k lt. byte_bit x byte k lt ∙ f.before k (omega arith) (omega arith)) in
        absurd (ground arith)
  ]

-- `ffs` of a word that is not 0 is its lowest bit.
pub ffs-IsLowest : (x : ℕ) → x < 2 ^ 64 → x ≢ 0 → IsLowest x (ffs x)
unfolding ffs
ffs-IsLowest x h ne =
    let byte = scan 8 0 (byte_used x) in
    let f = scan-IsFirst 8 0 (byte_used x) in
    let lt = byte_found x byte f h ne in
    let bit = scan 8 0 (λ b. test_bit x (byte * 8 + b)) in
    let g = scan-IsFirst 8 0 (λ b. test_bit x (byte * 8 + b)) in
    let lt' = bit_found x byte bit (f.found lt) g in
    record {
      small = omega arith;
      is_set = g.found lt';
      lower_clear = λ k l. elim (Bool-cases (ltb k (byte * 8))) [
        | inl low ↦ below_byte x byte k f (ground arith)
        | inr high ↦
            let e : byte * 8 + (k - byte * 8) ≡ k = ground arith in
            rw e at (g.before (k - byte * 8) (omega arith) (ground arith))
      ];
    }
