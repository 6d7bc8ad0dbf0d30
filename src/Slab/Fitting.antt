-- ===== src/Slab/Fitting.antt =====
-- The objects of a slab and its description fit in the block of pages, in src/alloc.c.
use native.Mathlib.Nat.{le-div_iff_mul-le, div-le_self, pow-le-pow_right}
use files_co.Base.Pow.{pow_pos, pow_suc}
use files_co.Base.{
  ℕ, ◌/◌, ◌%◌, ◌^◌, some, zero, suc, ◌+◌, ◌-◌, ◌*◌, ◌≤◌, ◌<◌, ◌≡◌, inl, inr, refl, false, some,
  ◌==◌, ltb, arith, Bool-cases,
}
use files_co.PageAlloc.{page_shift}
use files_co.Slab.Logarithm.{ilog2-IsLog}
use files_co.Slab.{
  Layout, layout_setup, ilog2, min_pool_objs, objs_per_word, ceil, align_up, shrink_loop, meta_size,
}

-- The most objects, up to `most`, that fit with their description in `pool_size` bytes.
pub record MostObjects (most obj_size pool_size objs : ℕ) : Type 0 where
  pub bound : objs ≤ most
  pub fits : obj_size * objs + meta_size objs ≤ pool_size
  pub more : (n : ℕ) → objs < n → n ≤ most → pool_size < obj_size * n + meta_size n

-- The loop that takes objects away, when at least one fits: it ends with the largest number of
-- objects, which is not 0, that fit with their description.
pub shrink_loop-MostObjects :
    (most obj_size pool_size : ℕ)
    → 1 ≤ most
    → obj_size + meta_size 1 ≤ pool_size
    → (objs : ℕ) × (shrink_loop most obj_size pool_size ≡ some objs)
      × MostObjects most obj_size pool_size objs
      × (1 ≤ objs)
unfolding shrink_loop
shrink_loop-MostObjects zero obj_size pool_size h one = absurd (omega arith)
shrink_loop-MostObjects (suc zero) obj_size pool_size h one =
    let whole : ltb pool_size (obj_size * 1 + meta_size 1) ≡ false = ground arith in
    (
      1,
      rw whole refl,
      record { bound = omega arith; fits = omega arith; more = λ k lo hi. absurd (omega arith) },
      omega arith,
    )
shrink_loop-MostObjects (suc (suc n)) obj_size pool_size h one =
    let (objs, run, most, pos) =
      shrink_loop-MostObjects (suc n) obj_size pool_size (omega arith) one in
    elim (Bool-cases (ltb pool_size (obj_size * suc (suc n) + meta_size (suc (suc n))))) [
      | inr e ↦ (
        suc (suc n),
        rw e refl,
        record { bound = omega arith; fits = ground arith; more = λ k lo hi. absurd (omega arith) },
        omega arith,
      )
      | inl e ↦ (
        objs,
        rw e run,
        record {
          bound = omega (arith, most.bound);
          fits = most.fits;
          more = λ k lo hi. elim (Bool-cases (k == suc (suc n))) [
            | inl q ↦ let q' : k ≡ suc (suc n) = ground arith in rw q' (ground arith)
            | inr q ↦ most.more k lo (ground arith)
          ];
        },
        pos,
      )
    ]

-- The layout that `mem_cache_layout_setup` makes for objects of `obj_size` bytes.
pub record Fitting (obj_size : ℕ) (l : Layout) : Type 0 where
  pub size : l.obj_size ≡ obj_size
  pub two_objects : 2 ≤ l.obj_count
  pub words : l.mask_words ≡ ceil l.obj_count objs_per_word
  pub objects_before : obj_size * l.obj_count ≤ l.meta_offs
  -- `struct mem_pool` is of 48 bytes, of which the last 8 are the first word of the mask.
  pub mask_inside : l.meta_offs + 40 + 8 * l.mask_words ≤ 2 ^ (l.pool_order + page_shift)
  pub aligned : l.meta_offs % 8 ≡ 0

-- What `meta_size` leaves room for
meta_size_room :
    (objs : ℕ) → 1 ≤ objs → objs ≤ 2 ^ 60 → 40 + 8 * ceil objs objs_per_word ≤ meta_size objs
unfolding meta_size
meta_size_room objs lo hi =
    let c = ceil objs objs_per_word in
    let pos : 1 ≤ c = omega arith in let small : c ≤ 2 ^ 55 = omega arith in meta_of c pos small
  where
    meta_of :
        (c : ℕ)
        → 1 ≤ c
        → c ≤ 2 ^ 55
        → 40 + 8 * c ≤ align_up ((48 + (c + 2 ^ 64 - 1) % 2 ^ 64 * 8 % 2 ^ 64) % 2 ^ 64) 8
    meta_of c pos small = omega arith

meta_size_aligned : (objs : ℕ) → meta_size objs % 8 ≡ 0
unfolding meta_size
meta_size_aligned objs = omega arith

one_description : meta_size 1 ≡ 48
unfolding meta_size
one_description = refl

eight_descriptions : meta_size min_pool_objs ≡ 48
unfolding meta_size
eight_descriptions = refl

-- One object and its description fit in a block of the order that is chosen.
room_for_one :
    (obj_size x r : ℕ) → (obj_size * 8 + 48) / 4096 ≡ x → x ≤ 2 ^ r → obj_size + 48 ≤ 2 ^ r * 4096
room_for_one obj_size x r e h = omega (arith, pow_pos r)

-- So do two.
room_for_two :
    (obj_size x r : ℕ)
    → (obj_size * 8 + 48) / 4096 ≡ x
    → x ≤ 2 ^ r
    → obj_size * 2 + 48 ≤ 2 ^ r * 4096
room_for_two obj_size x r e h = omega (arith, pow_pos r)

two_descriptions : meta_size 2 ≡ 48
unfolding meta_size
two_descriptions = refl

-- The most objects that fit are two at least, when two fit.
two_fit :
    (most obj_size pool_size objs : ℕ)
    → MostObjects most obj_size pool_size objs
    → 1 ≤ objs
    → 2 ≤ most
    → obj_size * 2 + meta_size 2 ≤ pool_size
    → 2 ≤ objs
two_fit most obj_size pool_size objs m one two fit = elim (Bool-cases (objs == 1)) [
  | inl e ↦ let more = m.more 2 (ground arith) two in absurd (omega arith)
  | inr e ↦ ground arith
]

pub pool_bytes : (r : ℕ) → 2 ^ (r + page_shift) ≡ 2 ^ r * 4096
pool_bytes zero = refl
pool_bytes (suc r) =
    let e : suc r + page_shift ≡ suc (r + page_shift) = omega arith in
    rw (e, pow_suc (r + page_shift), pool_bytes r, pow_suc r) (omega arith)

-- No more objects fit than the mask's size can count.
few_objects :
    (obj_size x r objs : ℕ)
    → (obj_size * 8 + 48) / 4096 ≡ x
    → obj_size ≤ 2 ^ 48
    → ((q : ℕ) → q < r → 2 ^ q < x)
    → objs ≤ 2 ^ (r + page_shift) / obj_size
    → objs ≤ 2 ^ 60
few_objects obj_size x r objs e small least most = elim (Bool-cases (ltb 48 r)) [
  | inl far ↦ absurd (omega (arith, least 48 (ground arith)))
  | inr near ↦
      let bytes : 2 ^ (r + page_shift) ≤ 2 ^ 60 =
        pow-le-pow_right {n = 2} (omega arith) {i = r + page_shift} {j = 60} (ground arith) in
      omega (arith, div-le_self (2 ^ (r + page_shift)) obj_size)
]

-- The layout with the order and the number of objects that were found.
abbrev found : (size align pool_order objs : ℕ) → Layout
found size align pool_order objs = record {
  meta_offs = 2 ^ (pool_order + page_shift) - meta_size objs;
  obj_count = objs;
  mask_words = ceil objs objs_per_word;
  obj_size = align_up size align;
  pool_order = pool_order;
}

layout_setup-found :
    (size align r objs : ℕ)
    → ilog2 ((align_up size align * min_pool_objs + meta_size min_pool_objs) / 4096) ≡ some r
    → shrink_loop
        (2 ^ (r + page_shift) / align_up size align)
        (align_up size align)
        (2 ^ (r + page_shift))
      ≡ some objs
    → layout_setup size align ≡ some (found size align r objs)
unfolding layout_setup
layout_setup-found size align r objs run run' = rw (run, run') refl

-- For objects of at most 2 ^ 48 bytes `mem_cache_layout_setup` ends, with at least two objects in a
-- slab, and a bit of the mask for each; the objects end before the description of the slab, which is
-- aligned and ends, with all words of the mask, within the block of pages.
pub layout_setup-Fitting :
    (size align : ℕ)
    → 1 ≤ align_up size align
    → align_up size align ≤ 2 ^ 48
    → (l : Layout) × (layout_setup size align ≡ some l) × Fitting (align_up size align) l
layout_setup-Fitting size align lo hi =
    let o = align_up size align in
    let (r, run, log) =
      ilog2-IsLog ((o * min_pool_objs + meta_size min_pool_objs) / 4096)
        (rw eight_descriptions (omega arith)) in
    let double = room_for_two o ((o * 8 + 48) / 4096) r refl (rw eight_descriptions at log.upper) in
    let room = room_for_one o ((o * 8 + 48) / 4096) r refl (rw eight_descriptions at log.upper) in
    let (objs, run', most, pos) =
      shrink_loop-MostObjects (2 ^ (r + page_shift) / o) o (2 ^ (r + page_shift))
        (rw (pool_bytes r) ((le-div_iff_mul-le lo).1 (omega (arith, room))))
        (rw (pool_bytes r, one_description) room) in
    let few =
      few_objects o ((o * 8 + 48) / 4096) r objs refl hi (rw eight_descriptions at log.least)
        most.bound in
    (
      found size align r objs,
      layout_setup-found size align r objs run run',
      record {
        size = refl;
        two_objects =
            two_fit (2 ^ (r + page_shift) / o) o (2 ^ (r + page_shift)) objs most pos
              (rw (pool_bytes r) ((le-div_iff_mul-le lo).1 (omega (arith, double))))
              (rw (pool_bytes r, two_descriptions) double);
        words = refl;
        objects_before = omega (arith, most.fits);
        mask_inside = omega (arith, most.fits, meta_size_room objs pos few);
        aligned =
            rw (pool_bytes r)
              (omega (arith, meta_size_aligned objs, rw (pool_bytes r) at most.fits));
      },
    )
