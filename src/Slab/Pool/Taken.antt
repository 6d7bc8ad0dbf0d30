-- ===== src/Slab/Pool/Taken.antt =====
-- `mem_pool_alloc` of src/alloc.c.
use files_co.Base.{
  ℕ, ◌+◌, ◌-◌, ◌*◌, ◌/◌, ◌%◌, ◌<◌, ◌≡◌, ◌≢◌, refl, Bool, true, false, not, some, if◌then◌else◌,
  ◌==◌, ltb, arith, length, get_or, set, length-set, scan, IsFirst, scan-IsFirst, count,
  count_missing, count_more, count-le, Bool-cases, inl, inr, ◌∙◌,
}
use files_co.Base.Bits.{test_bit, set_bit}
use files_co.Base.Bits.Laws.{test_bit-complement, zero-test_bit, set_bit-lt}
use files_co.Slab.{Layout}
use files_co.Slab.Pool.{Pool, full_word, ffs, pool_alloc}
use files_co.Slab.Pool.FirstBit.{IsLowest, ffs-IsLowest}
use files_co.Slab.Pool.Objects.{busy, IsPool, busy-set, word_lt-set}

-- The object at `pos` was the first free one, and is now taken.
pub record IsTaken (l : Layout) (p : Pool) (pos : ℕ) (p' : Pool) : Type 0 where
  pub inside : pos < l.obj_count
  pub was_free : busy p.bitmask pos ≡ false
  pub lower_busy : (j : ℕ) → j < pos → busy p.bitmask j ≡ true
  pub now : (j : ℕ) → busy p'.bitmask j ≡ (if j == pos then true else busy p.bitmask j)
  pub start : p'.start ≡ p.start
  pub one_less : p'.free + 1 ≡ p.free
  pub pool : IsPool l p'

-- All objects of a full word are busy.
full_busy : (k : ℕ) → k < 64 → test_bit full_word k ≡ true
full_busy k lt = rw (test_bit-complement 64 0 k (omega arith) lt, zero-test_bit k) refl

module _ (l : Layout) (p : Pool) (ip : IsPool l p) where
  abbrev some_free : ℕ → Bool
  some_free word = not (get_or p.bitmask word 0 == full_word)

  full_words :
      (word j : ℕ) → IsFirst l.mask_words 0 some_free word → j < 64 * word → busy p.bitmask j ≡ true
  full_words word j f lt =
      let e : get_or p.bitmask (j / 64) 0 ≡ full_word =
        ground (arith, f.before (j / 64) (omega arith) (omega arith)) in
      rw e (full_busy (j % 64) (omega arith))

  -- A slab with a free object has a word that is not full.
  word_found : (word : ℕ) → IsFirst l.mask_words 0 some_free word → 0 < p.free → word < l.mask_words
  word_found word f pos = elim (Bool-cases (ltb word l.mask_words)) [
    | inl lt ↦ ground arith
    | inr ge ↦
        let (i, lt, clear) =
          count_missing l.obj_count (busy p.bitmask) (omega (arith, ip.counted)) in
        let c = full_words word i f (ground (arith, ip.room)) in absurd (ground arith)
  ]

  module _ (word : ℕ) (f : IsFirst l.mask_words 0 some_free word) (lt : word < l.mask_words) where
    abbrev mask : ℕ
    mask = get_or p.bitmask word 0

    abbrev bit : ℕ
    bit = ffs (full_word - mask)

    lowest : IsLowest (full_word - mask) bit
    lowest = ffs-IsLowest (full_word - mask) (omega arith) not_full
      where
        not_full : full_word - mask ≢ 0
        not_full z = absurd (ground (arith, f.found (omega arith), ip.word_lt word))

    bit_clear : test_bit mask bit ≡ false
    bit_clear =
        ground
          (arith, test_bit-complement 64 mask bit (ip.word_lt word) lowest.small, lowest.is_set)

    free_at : busy p.bitmask (64 * word + bit) ≡ false
    free_at =
        let w : (64 * word + bit) / 64 ≡ word = omega (arith, lowest.small) in
        let b : (64 * word + bit) % 64 ≡ bit = omega (arith, lowest.small) in rw (w, b) bit_clear

    busy_below : (j : ℕ) → j < 64 * word + bit → busy p.bitmask j ≡ true
    busy_below j h = elim (Bool-cases (ltb j (64 * word))) [
      | inl low ↦ full_words word j f (ground arith)
      | inr high ↦
          let w : j / 64 ≡ word = ground (arith, lowest.small) in
          let k : j % 64 < bit = ground (arith, lowest.small) in
          rw w (
            ground (
              arith,
              test_bit-complement 64 mask (j % 64) (ip.word_lt word) (omega arith),
              lowest.lower_clear (j % 64) k,
            ))
    ]

    inside : 64 * word + bit < l.obj_count
    inside = elim (Bool-cases (ltb (64 * word + bit) l.obj_count)) [
      | inl h ↦ ground arith
      | inr h ↦
          let b = ip.padding (64 * word + bit) (ground arith) (omega (arith, lowest.small)) in
          let c = free_at in absurd (ground arith)
    ]

    abbrev taken : Pool
    taken = record p { bitmask = set p.bitmask word (set_bit mask bit); free = p.free - 1 }

    within : word < length p.bitmask
    within = omega (arith, ip.words)

    now_busy :
        (j : ℕ) → busy taken.bitmask j ≡ (if j == 64 * word + bit then true else busy p.bitmask j)
    now_busy j = busy-set p.bitmask word bit within lowest.small j

    one_more : count l.obj_count (busy taken.bitmask) ≡ count l.obj_count (busy p.bitmask) + 1
    one_more =
        count_more l.obj_count (64 * word + bit) (busy p.bitmask) (busy taken.bitmask) inside
          free_at
          (let e : (64 * word + bit == 64 * word + bit) ≡ true = ground arith in
            rw (now_busy (64 * word + bit), e) refl)
          (λ j ne. rw (now_busy j, ne) refl)

    taken-IsPool : IsPool l taken
    taken-IsPool = record {
      words = length-set p.bitmask word (set_bit mask bit) ∙ ip.words;
      room = ip.room;
      word_lt =
          word_lt-set p.bitmask word (set_bit mask bit) within
            (set_bit-lt 64 mask bit (ip.word_lt word) lowest.small) ip.word_lt;
      padding = λ j lo hi. rw (now_busy j) (ground (arith, ip.padding j lo hi));
      counted = omega (arith, one_more, ip.counted, count-le l.obj_count (busy taken.bitmask));
    }

    taken-IsTaken : IsTaken l p (64 * word + bit) taken
    taken-IsTaken = record {
      inside = inside;
      was_free = free_at;
      lower_busy = busy_below;
      now = now_busy;
      start = refl;
      one_less = omega (arith, one_more, ip.counted, count-le l.obj_count (busy taken.bitmask));
      pool = taken-IsPool;
    }

-- A slab with a free object gives its first free one: no BUG_ON fails, the address is that of an
-- object of the slab, only its bit changes, `free` is one less, and the slab stays well formed.
pub pool_alloc-IsTaken :
    (l : Layout) (p : Pool)
    → IsPool l p
    → 0 < p.free
    → (pos : ℕ) × (p' : Pool) × (pool_alloc l p ≡ some (p.start + pos * l.obj_size, p'))
      × IsTaken l p pos p'
unfolding pool_alloc
pool_alloc-IsTaken l p ip pos =
    let word = scan l.mask_words 0 (some_free l p ip) in
    let f = scan-IsFirst l.mask_words 0 (some_free l p ip) in
    let lt = word_found l p ip word f pos in
    let some_left : (p.free == 0) ≡ false = ground arith in
    let not_end : (word == l.mask_words) ≡ false = ground arith in
    (
      64 * word + bit l p ip word f lt,
      taken l p ip word f lt,
      rw (some_left, not_end) refl,
      taken-IsTaken l p ip word f lt,
    )
