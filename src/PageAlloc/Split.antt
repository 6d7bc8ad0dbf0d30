-- ===== src/PageAlloc/Split.antt =====
-- One round of the loop of `__page_alloc_zone`: a block in hand is cut in two halves, and the upper
-- one goes to its free list.
use files_co.Base.{
  ℕ, suc, ◌+◌, ◌^◌, ◌≤◌, ◌<◌, ◌≡◌, ◌≢◌, refl, true, false, ◌||◌, ◌&&◌, ◌==◌, leb, ltb, arith, has,
  Distinct, update, inl, inr, ◌∷◌, Bool-cases,
}
use files_co.Base.Pow.{pow_suc, pow_pos}
use files_co.PageAlloc.{Zone, max_order}
use files_co.PageAlloc.Flags.{page_order, page_is_free}
use files_co.PageAlloc.Blocks.{IsAligned, IsAligned-lower, IsAligned-upper}
use files_co.PageAlloc.Invariant.{BlockSet, insert, Held, Inv, Fresh}
use files_co.PageAlloc.InHand.{Apart, Apart-clash, IsOther, hand, other, Unlisted-of}

-- `z` with the block `(u, o)` on its list, its first page carrying the word `f`.
abbrev pub listed : Zone → ℕ → ℕ → ℕ → Zone
listed z u o f = record z { order = update z.order o (u ∷ z.order o); flags = update z.flags u f }

-- Where a block of the new state comes from.
data From (z : Zone) (b : BlockSet) (i o j p : ℕ) : Type 0 where
  top : j ≡ i + 2 ^ o → p ≡ o → From z b i o j p
  low : j ≡ i → p ≡ o → From z b i o j p
  old : Held z b j p → IsOther z b i (suc o) j p → From z b i o j p

module _ (z : Zone) (b : BlockSet) (i o f : ℕ) (inv : Inv z (insert b i (suc o)))
    (fresh : Fresh b i) (order : page_order f ≡ o) (free : page_is_free f ≡ true) where
  abbrev u : ℕ
  u = i + 2 ^ o

  abbrev cut : Zone
  cut = listed z u o f

  from : (j p : ℕ) → Held cut (insert b i o) j p → From z b i o j p
  from j p h = elim (Bool-cases (has j (z.order p) || b j p)) [
    | inl k ↦ old k (other z b i (suc o) inv.geo fresh (Unlisted-of z b i (suc o) inv) j p k)
    | inr k ↦ elim (Bool-cases (j == i)) [
      | inl e ↦ low (ground arith) (ground arith)
      | inr e ↦ top (ground arith) (ground arith)
    ]
  ]

  whole : Held z (insert b i (suc o)) i (suc o)
  whole = hand z b i (suc o) inv.geo fresh (Unlisted-of z b i (suc o) inv)

  split_order_le : (j p : ℕ) → From z b i o j p → p ≤ max_order
  split_order_le j p (top e q) = omega (arith, inv.order_le i (suc o) whole)
  split_order_le j p (low e q) = omega (arith, inv.order_le i (suc o) whole)
  split_order_le j p (old k a) = inv.order_le j p a.held

  split_begin_le : (j p : ℕ) → From z b i o j p → z.begin ≤ j
  split_begin_le j p (top e q) = omega (arith, inv.begin_le i (suc o) whole)
  split_begin_le j p (low e q) = omega (arith, inv.begin_le i (suc o) whole)
  split_begin_le j p (old k a) = inv.begin_le j p a.held

  split_le_end : (j p : ℕ) → From z b i o j p → j + 2 ^ p ≤ z.end
  split_le_end j p (top e q) = rw (e, q) (omega (arith, inv.le_end i (suc o) whole, pow_suc o))
  split_le_end j p (low e q) = rw (e, q) (omega (arith, inv.le_end i (suc o) whole, pow_suc o))
  split_le_end j p (old k a) = inv.le_end j p a.held

  split-IsAligned : (j p : ℕ) → From z b i o j p → IsAligned j p
  split-IsAligned j p (top e q) = rw (e, q) (IsAligned-upper i o (inv.aligned i (suc o) whole))
  split-IsAligned j p (low e q) = rw (e, q) (IsAligned-lower i o (inv.aligned i (suc o) whole))
  split-IsAligned j p (old k a) = inv.aligned j p a.held

  halves-Apart : (k q : ℕ) → k ≡ i → q ≡ o → Apart u o k q
  halves-Apart k q e r = rw (e, r) (inr le)
    where
      le : i + 2 ^ o ≤ u
      le = omega arith

  -- A block away from the whole is away from both halves.
  halves : {j p : ℕ} → IsOther z b i (suc o) j p → Apart u o j p × Apart i o j p
  halves {j} {p} a = omega (arith, a.away, pow_suc o)

  split_apart :
      (j p k q : ℕ)
      → From z b i o j p
      → From z b i o k q
      → j < k + 2 ^ q
      → k < j + 2 ^ p
      → (j ≡ k) × (p ≡ q)
  split_apart j p k q (top e r) (top e' r') lt lt' = omega arith
  split_apart j p k q (low e r) (low e' r') lt lt' = omega arith
  split_apart j p k q (top e r) (low e' r') lt lt' =
      absurd (Apart-clash u o k q (halves-Apart k q e' r') e r lt lt')
  split_apart j p k q (low e r) (top e' r') lt lt' =
      absurd (Apart-clash u o j p (halves-Apart j p e r) e' r' lt' lt)
  split_apart j p k q (old h a) (old h' a') lt lt' = inv.apart j p k q a.held a'.held lt lt'
  split_apart j p k q (old h a) (top e r) lt lt' =
      absurd (Apart-clash u o j p (halves a).0 e r lt' lt)
  split_apart j p k q (old h a) (low e r) lt lt' =
      absurd (Apart-clash i o j p (halves a).1 e r lt' lt)
  split_apart j p k q (top e r) (old h a) lt lt' =
      absurd (Apart-clash u o k q (halves a).0 e r lt lt')
  split_apart j p k q (low e r) (old h a) lt lt' =
      absurd (Apart-clash i o k q (halves a).1 e r lt lt')

  listed-IsOther : (j p : ℕ) → has j (z.order p) ≡ true → IsOther z b i (suc o) j p
  listed-IsOther j p h =
      other z b i (suc o) inv.geo fresh (Unlisted-of z b i (suc o) inv) j p (ground arith)

  -- The first page of the upper half is no listed block's, and not the first page of a held one.
  other-ne-u : (j p : ℕ) → IsOther z b i (suc o) j p → j ≢ u
  other-ne-u j p a e = omega (arith, a.away, a.size, pow_suc o, pow_pos o)

  split_free_marked :
      (j p : ℕ)
      → has j (cut.order p) ≡ true
      → (page_is_free (cut.flags j) ≡ true) × (page_order (cut.flags j) ≡ p)
  split_free_marked j p h = elim (Bool-cases (has j (z.order p))) [
    | inl l ↦ ground (arith, inv.free_marked j p, other-ne-u j p (listed-IsOther j p l))
    | inr l ↦ ground arith
  ]

  split_busy_marked : (j p : ℕ) → insert b i o j p ≡ true → page_is_free (cut.flags j) ≡ false
  split_busy_marked j p h = elim (Bool-cases (b j p)) [
    | inl l ↦ ground (
      arith,
      inv.busy_marked j p,
      other-ne-u j p
          (other z b i (suc o) inv.geo fresh (Unlisted-of z b i (suc o) inv) j p (ground arith)),
    )
    | inr l ↦ ground (arith, inv.busy_marked i (suc o), pow_pos o)
  ]

  split_once : (p : ℕ) → Distinct (cut.order p)
  split_once p = elim (Bool-cases (has u (z.order o))) [
    | inl l ↦ absurd (other-ne-u u o (listed-IsOther u o l) refl)
    | inr l ↦ ground (arith, inv.once p)
  ]

  -- A block that reaches outside the one in hand is still there.
  split_still :
      (k j p : ℕ)
      → (leb i k && ltb k (i + 2 ^ suc o)) ≡ false
      → Held z (insert b i (suc o)) j p
      → j ≤ k
      → k < j + 2 ^ p
      → Held cut (insert b i o) j p
  split_still k j p out h le lt = elim (Bool-cases (j == i && p == suc o)) [
    | inl e ↦
        let ei : j ≡ i = ground arith in
        let eo : p ≡ suc o = ground arith in absurd (within_hand (rw ei at le) (rw (ei, eo) at lt))
    | inr e ↦ ground arith
  ]
    where
      within_hand : i ≤ k → k < i + 2 ^ suc o → ⊥
      within_hand s t = ground arith

  split_known :
      (k : ℕ)
      → z.begin ≤ k
      → k < z.end
      → page_is_free (cut.flags k) ≡ true
      → (j : ℕ) × (p : ℕ) × Held cut (insert b i o) j p × (j ≤ k) × (k < j + 2 ^ p)
  split_known k ge lt free = elim (Bool-cases (leb i k && ltb k (i + 2 ^ suc o))) [
    | inl l ↦ elim (Bool-cases (ltb k u)) [
      | inl m ↦ (i, o, ground arith, ground arith, ground arith)
      | inr m ↦ (u, o, ground arith, ground arith, ground (arith, pow_suc o))
    ]
    | inr l ↦
        let (j, p, h, le, lt') = inv.known k ge lt (ground (arith, pow_suc o, pow_pos o)) in
        (j, p, split_still k j p l h le lt', le, lt')
  ]

  -- Cutting a block in hand keeps the zone well formed: the lower half stays in hand.
  pub cut-Inv : Inv cut (insert b i o)
  cut-Inv = record {
    geo = record {
      order_le = λ j p h. split_order_le j p (from j p h);
      begin_le = λ j p h. split_begin_le j p (from j p h);
      le_end = λ j p h. split_le_end j p (from j p h);
      aligned = λ j p h. split-IsAligned j p (from j p h);
      apart = λ j p k q h h'. split_apart j p k q (from j p h) (from k q h');
      free_marked = split_free_marked;
      once = split_once;
      known = split_known;
    };
    busy_marked = split_busy_marked;
  }
