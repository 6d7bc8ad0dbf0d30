-- ===== src/Slab/Pool/Fresh.antt =====
-- `mem_pool_bitmap_setup` of src/alloc.c.
use native.Mathlib.Nat.{pow-le-pow_right}
use files_co.Base.{
  ℕ, zero, suc, ◌+◌, ◌-◌, ◌*◌, ◌/◌, ◌%◌, ◌^◌, ◌≤◌, ◌<◌, ◌≡◌, refl, false, not, List, if◌then◌else◌,
  ◌==◌, ltb, leb, arith, length, get_or, set, get_or-set, length-set, length-replicate, replicate,
  count, count_none, Bool-cases, inl, inr, ◌∙◌, ap,
}
use files_co.Base.Bits.{test_bit}
use files_co.Base.Bits.Laws.{test_bit-complement, test_bit_ones, zero-test_bit}
use files_co.Slab.{Layout, objs_per_word, ceil}
use files_co.Slab.Pool.{full_word, fill_loop, bitmap_setup}
use files_co.Slab.Pool.Objects.{busy, IsPool}

get_or-replicate : (n j : ℕ) → get_or {A = ℕ} (replicate n 0) j 0 ≡ 0
get_or-replicate zero j = refl
get_or-replicate (suc n) zero = refl
get_or-replicate (suc n) (suc j) = get_or-replicate n j

module _ (l : Layout) (sized : l.mask_words ≡ ceil l.obj_count objs_per_word) where
  abbrev pos : ℕ
  pos = l.obj_count % 64

  abbrev word : ℕ
  word = l.obj_count / 64

  abbrev clear : List ℕ
  clear = replicate l.mask_words 0

  -- No word is left for the last loop.
  bitmap_setup_lem :
      bitmap_setup l ≡ (if pos == 0 then clear else set clear word (full_word - (2 ^ pos - 1)))
  unfolding bitmap_setup
  bitmap_setup_lem =
      let e : l.mask_words - (word + 1) ≡ 0 = omega (arith, sized) in
      rw e (unfold fill_loop in refl)

  -- Without a rest all bits are clear, and all have an object.
  whole_busy : (j : ℕ) → busy clear j ≡ false
  whole_busy j = rw (get_or-replicate l.mask_words (j / 64)) (zero-test_bit (j % 64))

  module _ (rest : (pos == 0) ≡ false) where
    within : word < length clear
    within = ground (arith, sized, length-replicate {A = ℕ} l.mask_words 0)

    last_word : (k : ℕ) → k < 64 → test_bit (full_word - (2 ^ pos - 1)) k ≡ not (ltb k pos)
    last_word k lt =
        test_bit-complement 64 (2 ^ pos - 1) k (omega (arith, fits)) lt
        ∙ ap not (test_bit_ones pos k)
      where
        fits : 2 ^ pos ≤ 2 ^ 64
        fits = pow-le-pow_right {n = 2} (omega arith) {i = pos} {j = 64} (omega arith)

    part_busy :
        (j : ℕ)
        → busy (set clear word (full_word - (2 ^ pos - 1))) j
          ≡ (if j / 64 == word then not (ltb (j % 64) pos) else false)
    part_busy j = elim (Bool-cases (j / 64 == word)) [
      | inl e ↦
          rw (get_or-set clear word (j / 64) (full_word - (2 ^ pos - 1)) 0 within, e)
            (last_word (j % 64) (omega arith))
      | inr e ↦
          rw (get_or-set clear word (j / 64) (full_word - (2 ^ pos - 1)) 0 within, e) (whole_busy j)
    ]

  abbrev fresh : List ℕ
  fresh = if pos == 0 then clear else set clear word (full_word - (2 ^ pos - 1))

  -- A bit of the new mask is set exactly when it has no object.
  fresh_busy : (j : ℕ) → j < 64 * l.mask_words → busy fresh j ≡ leb l.obj_count j
  fresh_busy j lt = elim (Bool-cases (pos == 0)) [
    | inl e ↦ rw e (rw (whole_busy j) (ground (arith, sized)))
    | inr e ↦ rw e (rw (part_busy e j) (ground (arith, sized)))
  ]

  fresh_words : length fresh ≡ l.mask_words
  fresh_words = elim (Bool-cases (pos == 0)) [
    | inl e ↦ rw e (length-replicate l.mask_words 0)
    | inr e ↦
        rw e (length-set clear word (full_word - (2 ^ pos - 1)) ∙ length-replicate l.mask_words 0)
  ]

  fresh_lt : (w : ℕ) → get_or fresh w 0 < 2 ^ 64
  fresh_lt w = elim (Bool-cases (pos == 0)) [
    | inl e ↦ rw e (rw (get_or-replicate l.mask_words w) (omega arith))
    | inr e ↦ rw e (
        rw (get_or-set clear word w (full_word - (2 ^ pos - 1)) 0 (within e))
          (ground (arith, get_or-replicate l.mask_words w)))
  ]

-- The mask of a new slab has no object's bit set, and every other bit: with all objects free the slab
-- is well formed.
pub bitmap_setup-IsPool :
    (l : Layout) (start : ℕ)
    → l.mask_words ≡ ceil l.obj_count objs_per_word
    → IsPool l (record { start = start; free = l.obj_count; bitmask = bitmap_setup l })
bitmap_setup-IsPool l start sized = rw (bitmap_setup_lem l sized) (record {
  words = fresh_words l sized;
  room = omega (arith, sized);
  word_lt = fresh_lt l sized;
  padding = λ j lo hi. rw (fresh_busy l sized j hi) (ground arith);
  counted = none_busy;
})
  where
    none_busy : l.obj_count + count l.obj_count (busy (fresh l sized)) ≡ l.obj_count
    none_busy =
        rw
          (count_none l.obj_count (busy (fresh l sized))
            (λ j lt. rw (fresh_busy l sized j (omega (arith, sized))) (ground arith)))
          (omega arith)
