-- ===== src/Slab/Pool/Objects.antt =====
-- What src/alloc.c keeps true of a slab, and that taking and giving back an object keep it.
use files_co.Base.{
  ℕ, ◌+◌, ◌*◌, ◌/◌, ◌%◌, ◌^◌, ◌≤◌, ◌<◌, ◌≡◌, refl, Bool, true, false, List, if◌then◌else◌, ◌==◌,
  arith, length, get_or, set, get_or-set, count, Bool-cases, inl, inr,
}
use files_co.Base.Bits.{test_bit, set_bit, clear_bit}
use files_co.Base.Bits.Laws.{test_bit-set_bit, test_bit-clear_bit}
use files_co.Slab.{Layout}
use files_co.Slab.Pool.{Pool}

-- The bit of an object.
abbrev pub busy : List ℕ → ℕ → Bool
busy bitmask pos = test_bit (get_or bitmask (pos / 64) 0) (pos % 64)

-- The mask has the layout's words, the bits that have no object are set, and `free` is the number of
-- objects whose bit is clear.
pub record IsPool (l : Layout) (p : Pool) : Type 0 where
  pub words : length p.bitmask ≡ l.mask_words
  pub room : l.obj_count ≤ 64 * l.mask_words
  pub word_lt : (w : ℕ) → get_or p.bitmask w 0 < 2 ^ 64
  pub padding : (pos : ℕ) → l.obj_count ≤ pos → pos < 64 * l.mask_words → busy p.bitmask pos ≡ true
  pub counted : p.free + count l.obj_count (busy p.bitmask) ≡ l.obj_count

module _ (bitmask : List ℕ) (word v : ℕ) (lt : word < length bitmask) where
  busy_other :
      (pos : ℕ) → (pos / 64 == word) ≡ false → busy (set bitmask word v) pos ≡ busy bitmask pos
  busy_other pos ne = rw (get_or-set bitmask word (pos / 64) v 0 lt, ne) refl

  busy_word :
      (pos : ℕ) → (pos / 64 == word) ≡ true → busy (set bitmask word v) pos ≡ test_bit v (pos % 64)
  busy_word pos e = rw (get_or-set bitmask word (pos / 64) v 0 lt, e) refl

  pub word_lt-set :
      v < 2 ^ 64
      → ((w : ℕ) → get_or bitmask w 0 < 2 ^ 64)
      → (w : ℕ) → get_or (set bitmask word v) w 0 < 2 ^ 64
  word_lt-set hv h w = rw (get_or-set bitmask word w v 0 lt) (ground (arith, h w))

-- A mask written at one bit.
module _ (bitmask : List ℕ) (word bit : ℕ) (lt : word < length bitmask) (small : bit < 64) where
  abbrev mask : ℕ
  mask = get_or bitmask word 0

  pub busy-set :
      (pos : ℕ)
      → busy (set bitmask word (set_bit mask bit)) pos
        ≡ (if pos == 64 * word + bit then true else busy bitmask pos)
  busy-set pos = elim (Bool-cases (pos / 64 == word)) [
    | inr ne ↦
        let other : (pos == 64 * word + bit) ≡ false = ground arith in
        rw (busy_other bitmask word (set_bit mask bit) lt pos ne, other) refl
    | inl e ↦
        let w : pos / 64 ≡ word = ground arith in
        let same : (pos == 64 * word + bit) ≡ (pos % 64 == bit) = ground arith in
        rw (busy_word bitmask word (set_bit mask bit) lt pos e, same, w)
          (test_bit-set_bit mask bit (pos % 64))
  ]

  pub busy-clear :
      (pos : ℕ)
      → busy (set bitmask word (clear_bit mask bit)) pos
        ≡ (if pos == 64 * word + bit then false else busy bitmask pos)
  busy-clear pos = elim (Bool-cases (pos / 64 == word)) [
    | inr ne ↦
        let other : (pos == 64 * word + bit) ≡ false = ground arith in
        rw (busy_other bitmask word (clear_bit mask bit) lt pos ne, other) refl
    | inl e ↦
        let w : pos / 64 ≡ word = ground arith in
        let same : (pos == 64 * word + bit) ≡ (pos % 64 == bit) = ground arith in
        rw (busy_word bitmask word (clear_bit mask bit) lt pos e, same, w)
          (test_bit-clear_bit mask bit (pos % 64))
  ]
