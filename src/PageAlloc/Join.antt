-- ===== src/PageAlloc/Join.antt =====
-- The state after a round of the loop of `__page_free_zone`: the buddy is off its list, and the
-- block in hand is twice as large.
use files_co.Base.{
  ℕ, suc, ◌+◌, ◌^◌, ◌≤◌, ◌<◌, ◌≡◌, ◌≢◌, ◌⊎◌, refl, true, false, ◌||◌, ◌&&◌, ◌==◌, leb, ltb, arith,
  has, Distinct, update, inl, inr, Bool-cases, erase, has_of-erase, has-erase_self, has-erase_ne,
  Distinct-erase,
}
use files_co.Base.Pow.{pow_suc, pow_pos}
use files_co.PageAlloc.{Zone, max_order}
use files_co.PageAlloc.Flags.{page_is_free}
use files_co.PageAlloc.Blocks.{IsAligned}
use files_co.PageAlloc.Invariant.{BlockSet, insert, Held, Geo, Fresh, Unlisted}
use files_co.PageAlloc.InHand.{Apart, Apart-of, Apart-clash, hand, other}
use files_co.PageAlloc.Merge.{IsJoin}

-- Where a block of the new state comes from.
data From (z : Zone) (b : BlockSet) (i o m k p : ℕ) : Type 0 where
  new : k ≡ m → p ≡ suc o → From z b i o m k p
  old : Held z (insert b i o) k p → Apart m (suc o) k p → From z b i o m k p

-- `z` with the block `(j, o)` taken off its list.
abbrev pub unlinked : Zone → ℕ → ℕ → Zone
unlinked z j o = record z { order = update z.order o (erase j (z.order o)) }

module _ (z : Zone) (b : BlockSet) (i o j m : ℕ) (geo : Geo z (insert b i o)) (fresh : Fresh b i)
    (unlisted : Unlisted z i) (busy : (k p : ℕ) → b k p ≡ true → page_is_free (z.flags k) ≡ false)
    (jn : IsJoin i o j m) (free : page_is_free (z.flags j) ≡ true)
    (listed : has j (z.order o) ≡ true) (small : suc o ≤ max_order) where
  abbrev g : Zone
  g = unlinked z j o

  in_hand : Held z (insert b i o) i o
  in_hand = hand z b i o geo fresh unlisted

  still_listed : (k p : ℕ) → has k (g.order p) ≡ true → has k (z.order p) ≡ true
  still_listed k p h = elim (Bool-cases (p == o)) [
    | inl e ↦
        let eo : p ≡ o = ground arith in
        let l : has k (z.order o) ≡ true = has_of-erase k j (z.order o) (ground arith) in rw eo l
    | inr e ↦ ground arith
  ]

  off_list : has j (g.order o) ≡ false
  off_list = ground (arith, has-erase_self j (z.order o) (geo.once o))

  -- The buddy's first page is on no list any more.
  pub buddy-Unlisted : Unlisted g j
  buddy-Unlisted p = elim (Bool-cases (has j (g.order p))) [
    | inr no_more ↦ no_more
    | inl l ↦ absurd (on l)
  ]
    where
      on : has j (g.order p) ≡ true → ⊥
      on l =
          let q : p ≡ o =
            (geo.apart j p j o (ground (arith, still_listed j p l)) (ground arith)
              (omega (arith, pow_pos o)) (omega (arith, pow_pos p))).1 in
          let l' : has j (g.order o) ≡ true = rw q at l in ground (arith, off_list)

  ne_buddy : (k p : ℕ) → Held g b k p → j ≢ k
  ne_buddy k p h e =
      let h' : Held g b j p = rw (← e) at h in ground (arith, buddy-Unlisted p, busy j p)

  rest : (k p : ℕ) → Held g b k p → From z b i o m k p
  rest k p h =
      let h' : Held z b k p = ground (arith, still_listed k p) in
      let a = other z b i o geo fresh unlisted k p h' in
      let aj : Apart j o k p =
        Apart-of j o k p (λ s t. (geo.apart j o k p (ground arith) a.held s t).0)
          (ne_buddy k p h) in
      old a.held (omega (arith, jn.parts, a.away, a.size, pow_suc o))

  from : (k p : ℕ) → Held g (insert b m (suc o)) k p → From z b i o m k p
  from k p h = elim (Bool-cases (has k (g.order p) || b k p)) [
    | inl here ↦ rest k p here
    | inr there ↦ new (ground arith) (ground arith)
  ]

  join_order_le : (k p : ℕ) → From z b i o m k p → p ≤ max_order
  join_order_le k p (new e q) = rw q small
  join_order_le k p (old h a) = geo.order_le k p h

  buddy-Held : Held z (insert b i o) j o
  buddy-Held = ground arith

  join_begin_le : (k p : ℕ) → From z b i o m k p → z.begin ≤ k
  join_begin_le k p (new e q) =
      omega (arith, jn.parts, geo.begin_le i o in_hand, geo.begin_le j o buddy-Held)
  join_begin_le k p (old h a) = geo.begin_le k p h

  join_le_end : (k p : ℕ) → From z b i o m k p → k + 2 ^ p ≤ z.end
  join_le_end k p (new e q) =
      rw (e, q)
        (omega (arith, pow_suc o, jn.parts, geo.le_end i o in_hand, geo.le_end j o buddy-Held))
  join_le_end k p (old h a) = geo.le_end k p h

  join-IsAligned : (k p : ℕ) → From z b i o m k p → IsAligned k p
  join-IsAligned k p (new e q) = rw (e, q) jn.aligned
  join-IsAligned k p (old h a) = geo.aligned k p h

  join_apart :
      (k p l q : ℕ)
      → From z b i o m k p
      → From z b i o m l q
      → k < l + 2 ^ q
      → l < k + 2 ^ p
      → (k ≡ l) × (p ≡ q)
  join_apart k p l q (new e r) (new e' r') lt lt' = omega arith
  join_apart k p l q (old h a) (old h' a') lt lt' = geo.apart k p l q h h' lt lt'
  join_apart k p l q (new e r) (old h a) lt lt' = absurd (Apart-clash m (suc o) l q a e r lt lt')
  join_apart k p l q (old h a) (new e r) lt lt' = absurd (Apart-clash m (suc o) k p a e r lt' lt)

  join_once : (p : ℕ) → Distinct (g.order p)
  join_once p = ground (arith, geo.once p, geo.once o, Distinct-erase j (z.order o))

  join_known :
      (k : ℕ)
      → z.begin ≤ k
      → k < z.end
      → page_is_free (z.flags k) ≡ true
      → (l : ℕ) × (p : ℕ) × Held g (insert b m (suc o)) l p × (l ≤ k) × (k < l + 2 ^ p)
  join_known k ge lt fr = elim (Bool-cases (leb m k && ltb k (m + 2 ^ suc o))) [
    | inl l ↦ (m, suc o, ground arith, ground arith, ground arith)
    | inr l ↦
        let (k', p, h, le, lt') = geo.known k ge lt fr in
        (k', p, still k' p (λ s t. ground arith) h le lt', le, lt')
  ]
    where
      half :
          (k' p a : ℕ)
          → (m ≤ k → k < m + 2 ^ suc o → ⊥)
          → (a ≡ i) ⊎ (a ≡ j)
          → k' ≡ a
          → p ≡ o
          → k' ≤ k
          → k < k' + 2 ^ p
          → ⊥
      half k' p a out w e r = rw (e, r) inside
        where
          inside : a ≤ k → k < a + 2 ^ o → ⊥
          inside s t = out (omega (arith, jn.parts, pow_suc o)) (omega (arith, jn.parts, pow_suc o))

      still :
          (k' p : ℕ)
          → (m ≤ k → k < m + 2 ^ suc o → ⊥)
          → Held z (insert b i o) k' p
          → k' ≤ k
          → k < k' + 2 ^ p
          → Held g (insert b m (suc o)) k' p
      still k' p out h le lt' = elim (Bool-cases (k' == i && p == o)) [
        | inl e ↦ absurd (half k' p i out (inl refl) (ground arith) (ground arith) le lt')
        | inr e ↦ elim (Bool-cases (k' == j && p == o)) [
          | inl f ↦ absurd (half k' p j out (inr refl) (ground arith) (ground arith) le lt')
          | inr f ↦ ground (arith, has-erase_ne k' j (z.order o))
        ]
      ]

  in-Fresh : Fresh b m
  in-Fresh p = ground (arith, jn.parts, fresh p, busy j p)

  in-Unlisted : Unlisted g m
  in-Unlisted p = ground (arith, jn.parts, unlisted p, buddy-Unlisted p, still_listed i p)

  -- The joined block is in hand, and the rest is as it should be.
  pub joined : Geo g (insert b m (suc o)) × Fresh b m × Unlisted g m
  joined = (
    record {
      order_le = λ k p h. join_order_le k p (from k p h);
      begin_le = λ k p h. join_begin_le k p (from k p h);
      le_end = λ k p h. join_le_end k p (from k p h);
      aligned = λ k p h. join-IsAligned k p (from k p h);
      apart = λ k p l q h h'. join_apart k p l q (from k p h) (from l q h');
      free_marked = λ k p h. geo.free_marked k p (still_listed k p h);
      once = join_once;
      known = join_known;
    },
    in-Fresh,
    in-Unlisted,
  )
