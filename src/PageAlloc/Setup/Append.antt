-- ===== src/PageAlloc/Setup/Append.antt =====
-- A block of `__page_alloc_zone_free` goes to the end of its list.
use files_co.Base.{
  ℕ, ◌+◌, ◌^◌, ◌≤◌, ◌<◌, ◌≡◌, ◌≢◌, ◌⊎◌, inl, inr, true, false, some, ◌==◌, ◌||◌, [], ◌∷◌, ◌++◌,
  update, arith, has, has-append, Distinct, Distinct-snoc, Bool-cases,
}
use files_co.Base.Pow.{pow_pos}
use files_co.PageAlloc.{Zone, max_order}
use files_co.PageAlloc.Flags.{page_order, page_is_free, page_set_order, page_set_free}
use files_co.PageAlloc.Blocks.{IsAligned}
use files_co.PageAlloc.Invariant.{BlockSet, Held, Inv}
use files_co.PageAlloc.InHand.{Apart-clash}
use files_co.PageAlloc.Setup.{put_free_tail}

-- The pages from `page` up to `end` are in no block yet, and none is marked free.
pub record IsClear (z : Zone) (b : BlockSet) (page end : ℕ) : Type 0 where
  pub outside : (j p : ℕ) → Held z b j p → (j + 2 ^ p ≤ page) ⊎ (end ≤ j)
  pub unmarked : (k : ℕ) → page ≤ k → k < end → page_is_free (z.flags k) ≡ false

-- `z` with the block `(i, o)` at the end of its list.
abbrev pub appended : Zone → ℕ → ℕ → ℕ → Zone
appended z i o f = record z {
  order = update z.order o (z.order o ++ i ∷ []);
  flags = update z.flags i f;
}

module _ (z : Zone) (b : BlockSet) (i o end f : ℕ) (inv : Inv z b) (clear : IsClear z b i end)
    (small : o ≤ max_order) (al : IsAligned i o) (fits : i + 2 ^ o ≤ end) (ge : z.begin ≤ i)
    (le : end ≤ z.end) (order : page_order f ≡ o) (free : page_is_free f ≡ true) where
  abbrev g : Zone
  g = appended z i o f

  data From (j p : ℕ) : Type 0 where
    new : j ≡ i → p ≡ o → From j p
    old : Held z b j p → j ≢ i → (j + 2 ^ p ≤ i) ⊎ (i + 2 ^ o ≤ j) → From j p

  old_of : (j p : ℕ) → Held z b j p → From j p
  old_of j p h =
      old h (omega (arith, clear.outside j p h, pow_pos p, pow_pos o))
        (omega (arith, clear.outside j p h))

  from : (j p : ℕ) → Held g b j p → From j p
  from j p h = elim (Bool-cases (has j (z.order p) || b j p)) [
    | inl here ↦ old_of j p here
    | inr there ↦
        new (ground (arith, has-append j (z.order o) (i ∷ [])))
          (ground (arith, has-append j (z.order o) (i ∷ [])))
  ]

  append_apart :
      (j p k q : ℕ) → From j p → From k q → j < k + 2 ^ q → k < j + 2 ^ p → (j ≡ k) × (p ≡ q)
  append_apart j p k q (new e r) (new e' r') lt lt' = omega arith
  append_apart j p k q (old h n a) (old h' n' a') lt lt' = inv.apart j p k q h h' lt lt'
  append_apart j p k q (new e r) (old h n a) lt lt' =
      absurd (Apart-clash i o k q (omega (arith, a)) e r lt lt')
  append_apart j p k q (old h n a) (new e r) lt lt' =
      absurd (Apart-clash i o j p (omega (arith, a)) e r lt' lt)

  append_free_marked :
      (j p : ℕ)
      → has j (g.order p) ≡ true
      → (page_is_free (g.flags j) ≡ true) × (page_order (g.flags j) ≡ p)
  append_free_marked j p h = elim (Bool-cases (has j (z.order p))) [
    | inl l ↦
        let ne : j ≢ i = omega (arith, clear.outside j p (ground arith), pow_pos p, pow_pos o) in
        ground (arith, inv.free_marked j p)
    | inr l ↦ ground (arith, has-append j (z.order o) (i ∷ []))
  ]

  append_busy : (j p : ℕ) → b j p ≡ true → page_is_free (g.flags j) ≡ false
  append_busy j p h =
      let ne : j ≢ i = omega (arith, clear.outside j p (ground arith), pow_pos p, pow_pos o) in
      ground (arith, inv.busy_marked j p)

  not_yet : has i (z.order o) ≡ false
  not_yet = elim (Bool-cases (has i (z.order o))) [
    | inl l ↦ absurd (omega (arith, clear.outside i o (ground arith), pow_pos o))
    | inr l ↦ l
  ]

  append_once : (p : ℕ) → Distinct (g.order p)
  append_once p = ground (arith, inv.once p, Distinct-snoc (z.order o) i (inv.once o) not_yet)

  append_known :
      (k : ℕ)
      → z.begin ≤ k
      → k < z.end
      → page_is_free (g.flags k) ≡ true
      → (j : ℕ) × (p : ℕ) × Held g b j p × (j ≤ k) × (k < j + 2 ^ p)
  append_known k lo hi fr = elim (Bool-cases (k == i)) [
    | inl e ↦ (
      i,
      o,
      ground (arith, has-append i (z.order o) (i ∷ [])),
      ground arith,
      ground (arith, pow_pos o),
    )
    | inr e ↦
        let (j, p, h, s, t) = inv.known k lo hi (ground arith) in
        (j, p, ground (arith, has-append j (z.order o) (i ∷ [])), s, t)
  ]

  from_order_le : (j p : ℕ) → From j p → p ≤ max_order
  from_order_le j p (new e q) = rw q small
  from_order_le j p (old h n a) = inv.order_le j p h

  from_begin_le : (j p : ℕ) → From j p → z.begin ≤ j
  from_begin_le j p (new e q) = rw e ge
  from_begin_le j p (old h n a) = inv.begin_le j p h

  from_le_end : (j p : ℕ) → From j p → j + 2 ^ p ≤ z.end
  from_le_end j p (new e q) = rw (e, q) (omega arith)
  from_le_end j p (old h n a) = inv.le_end j p h

  from-IsAligned : (j p : ℕ) → From j p → IsAligned j p
  from-IsAligned j p (new e q) = rw (e, q) al
  from-IsAligned j p (old h n a) = inv.aligned j p h

  pub append-Inv : Inv g b
  append-Inv = record {
    geo = record {
      order_le = λ j p h. from_order_le j p (from j p h);
      begin_le = λ j p h. from_begin_le j p (from j p h);
      le_end = λ j p h. from_le_end j p (from j p h);
      aligned = λ j p h. from-IsAligned j p (from j p h);
      apart = λ j p k q h h'. append_apart j p k q (from j p h) (from k q h');
      free_marked = append_free_marked;
      once = append_once;
      known = append_known;
    };
    busy_marked = append_busy;
  }

  from_outside : (j p : ℕ) → From j p → (j + 2 ^ p ≤ i + 2 ^ o) ⊎ (end ≤ j)
  from_outside j p (new e q) = rw (e, q) (inl self)
    where
      self : i + 2 ^ o ≤ i + 2 ^ o
      self = omega arith
  from_outside j p (old h n a) = omega (arith, clear.outside j p h)

  pub append-IsClear : IsClear g b (i + 2 ^ o) end
  append-IsClear = record {
    outside = λ j p h. from_outside j p (from j p h);
    unmarked = λ k lo hi. ground (arith, pow_pos o, clear.unmarked k);
  }

pub put_free_tail-appended :
    (z : Zone) (i o f : ℕ)
    → page_set_order (z.flags i) o ≡ some f
    → put_free_tail z i o ≡ some (appended z i o (page_set_free f))
unfolding put_free_tail
put_free_tail-appended z i o f e = rw e
