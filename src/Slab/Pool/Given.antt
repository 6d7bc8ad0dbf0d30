-- ===== src/Slab/Pool/Given.antt =====
-- `mem_pool_free` of src/alloc.c.
use native.Mathlib.Nat.{mul-div_left}
use files_co.Base.{
  ℕ, ◌+◌, ◌-◌, ◌*◌, ◌/◌, ◌%◌, ◌^◌, ◌≤◌, ◌<◌, ◌≡◌, ◌⊎◌, refl, true, false, none, some, if◌then◌else◌,
  ◌==◌, ltb, leb, arith, length, get_or, set, length-set, count, count_more, Bool-cases, inl, inr,
  ◌∙◌,
}
use files_co.Base.Bits.{clear_bit}
use files_co.Base.Bits.Laws.{clear_bit-le}
use files_co.Slab.{Layout}
use files_co.Slab.Pool.{Pool, pool_free}
use files_co.Slab.Pool.Objects.{busy, IsPool, busy-clear, word_lt-set}

-- The object at `pos` is free again.
pub record IsGiven (l : Layout) (p : Pool) (pos : ℕ) (p' : Pool) : Type 0 where
  pub now : (j : ℕ) → busy p'.bitmask j ≡ (if j == pos then false else busy p.bitmask j)
  pub start : p'.start ≡ p.start
  pub one_more : p'.free ≡ p.free + 1
  pub pool : IsPool l p'

-- A pointer to the object at `pos`: the objects end below 2 ^ 64.
pub record IsObject (l : Layout) (p : Pool) (pos : ℕ) : Type 0 where
  pub inside : pos < l.obj_count
  pub sized : 0 < l.obj_size
  pub below : p.start + pos * l.obj_size < 2 ^ 64

module _ (l : Layout) (p : Pool) (ip : IsPool l p) (pos : ℕ) (ob : IsObject l p pos) where
  abbrev ptr : ℕ
  ptr = p.start + pos * l.obj_size

  found : (ptr + 2 ^ 64 - p.start) % 2 ^ 64 / l.obj_size ≡ pos
  found =
      let e : (ptr + 2 ^ 64 - p.start) % 2 ^ 64 ≡ pos * l.obj_size = omega (arith, ob.below) in
      rw e (mul-div_left pos ob.sized)

  abbrev word : ℕ
  word = pos / 64

  abbrev bit : ℕ
  bit = pos % 64

  abbrev given : Pool
  given = record p {
    bitmask = set p.bitmask word (clear_bit (get_or p.bitmask word 0) bit);
    free = p.free + 1;
  }

  within : word < length p.bitmask
  within = omega (arith, ip.words, ip.room, ob.inside)

  now_free : (j : ℕ) → busy given.bitmask j ≡ (if j == pos then false else busy p.bitmask j)
  now_free j =
      let e : 64 * word + bit ≡ pos = omega arith in
      rw e at (busy-clear p.bitmask word bit within (omega arith) j)

  module _ (was : busy p.bitmask pos ≡ true) where
    one_less : count l.obj_count (busy p.bitmask) ≡ count l.obj_count (busy given.bitmask) + 1
    one_less =
        count_more l.obj_count pos (busy given.bitmask) (busy p.bitmask) ob.inside
          (let e : (pos == pos) ≡ true = ground arith in rw (now_free pos, e) refl) was
          (λ j ne. rw (now_free j, ne) refl)

    not_all : p.free + 1 ≤ l.obj_count
    not_all = omega (arith, one_less, ip.counted)

    given-IsGiven : IsGiven l p pos given
    given-IsGiven = record {
      now = now_free;
      start = refl;
      one_more = refl;
      pool = record {
        words = length-set p.bitmask word (clear_bit (get_or p.bitmask word 0) bit) ∙ ip.words;
        room = ip.room;
        word_lt =
            word_lt-set p.bitmask word (clear_bit (get_or p.bitmask word 0) bit) within
              (omega (arith, clear_bit-le (get_or p.bitmask word 0) bit, ip.word_lt word))
              ip.word_lt;
        padding = λ j lo hi. rw (now_free j) (ground (arith, ip.padding j lo hi, ob.inside));
        counted = omega (arith, one_less, ip.counted);
      };
    }

-- Given back, an object that is taken becomes free, and nothing else changes: no BUG_ON fails and the
-- slab stays well formed. An object that is free already is refused by a BUG_ON.
pub pool_free-IsGiven :
    (l : Layout) (p : Pool) (pos : ℕ)
    → IsPool l p
    → IsObject l p pos
    → (busy p.bitmask pos ≡ true)
        × ((p' : Pool) × (pool_free l p (p.start + pos * l.obj_size) ≡ some p')
            × IsGiven l p pos p')
      ⊎ (busy p.bitmask pos ≡ false) × (pool_free l p (p.start + pos * l.obj_size) ≡ none)
unfolding pool_free
pool_free-IsGiven l p pos ip ob =
    let at = found l p ip pos ob in
    let low : leb l.obj_count pos ≡ false = ground (arith, ob.inside) in
    elim (Bool-cases (busy p.bitmask pos)) [
      | inl was ↦
          let room : ltb l.obj_count (p.free + 1) ≡ false =
            ground (arith, not_all l p ip pos ob was) in
          inl (
            was,
            (given l p ip pos ob, rw (at, low, was, room) refl, given-IsGiven l p ip pos ob was),
          )
      | inr was ↦ inr (was, rw (at, low, was) refl)
    ]
