-- ===== src/PageAlloc/Alloc.antt =====
-- `__page_alloc_zone` of src/memory.c on a well-formed zone.
use mathlib.Core.Path.{subst}
use files_co.Base.{
  ℕ, zero, suc, ◌+◌, ◌-◌, ◌^◌, ◌≤◌, ◌<◌, ◌≡◌, ◌≢◌, refl, true, false, ◌==◌, arith, has, Distinct,
  update, inl, inr, List, [], ◌∷◌, Option, none, some, Bool-cases, List-cases, Option-cases, sym,
  ◌∙◌, ap,
}
use files_co.Base.Bits.{flip_bit}
use files_co.Base.Pow.{pow_pos}
use files_co.PageAlloc.{Zone, max_order, put_free, find_order, split, alloc_from, page_alloc_zone}
use files_co.PageAlloc.Flags.{
  page_is_free, page_set_free, page_set_busy, mark_free, page_is_free-set_busy,
}
use files_co.PageAlloc.Blocks.{flip-upper}
use files_co.PageAlloc.Invariant.{BlockSet, insert, Held, Inv, Fresh}
use files_co.PageAlloc.InHand.{hand, Unlisted-of}
use files_co.PageAlloc.Split.{listed, cut-Inv}

-- Taking the first block of a list in hand.
module _ (z : Zone) (b : BlockSet) (i o : ℕ) (rest : List ℕ) (inv : Inv z b)
    (first : z.order o ≡ i ∷ rest) where
  abbrev pub taken : Zone
  taken = record z {
    order = update z.order o rest;
    flags = update z.flags i (page_set_busy (z.flags i));
  }

  on_list : has i (z.order o) ≡ true
  on_list = rw first (ground arith)

  taken-Fresh : Fresh b i
  taken-Fresh p = ground (arith, inv.free_marked i o on_list, inv.busy_marked i p)

  taken-Held : (j p : ℕ) → Held taken (insert b i o) j p → Held z b j p
  taken-Held j p h = elim (Bool-cases (p == o)) [
    | inl e ↦
        let eo : p ≡ o = ground arith in
        let l : z.order p ≡ i ∷ rest = ap z.order eo ∙ first in rw l (ground arith)
    | inr e ↦ ground arith
  ]

  Held-taken : (j p : ℕ) → Held z b j p → Held taken (insert b i o) j p
  Held-taken j p h = elim (Bool-cases (p == o)) [
    | inl e ↦
        let eo : p ≡ o = ground arith in
        let l : z.order p ≡ i ∷ rest = ap z.order eo ∙ first in let h' = rw l at h in ground arith
    | inr e ↦ ground arith
  ]

  -- The block that was taken is on no list any more.
  gone : (j p : ℕ) → has j (taken.order p) ≡ true → (has j (z.order p) ≡ true) × (j ≢ i)
  gone j p h = elim (Bool-cases (p == o)) [
    | inl e ↦
        let eo : p ≡ o = ground arith in
        let l : z.order p ≡ i ∷ rest = ap z.order eo ∙ first in
        let d : Distinct (i ∷ rest) = rw l at (inv.once p) in (rw l (ground arith), ground arith)
    | inr e ↦
        let l : has j (z.order p) ≡ true = ground arith in
        (l, λ ji. elsewhere (ground arith) (rw ji at l))
  ]
    where
      elsewhere : p ≢ o → has i (z.order p) ≡ true → ⊥
      elsewhere ne l = ne (
          sym
            (inv.apart i o i p (ground (arith, on_list)) (ground arith) (omega (arith, pow_pos p))
              (omega (arith, pow_pos o))).1)

  taken_once : (p : ℕ) → Distinct (taken.order p)
  taken_once p = elim (Bool-cases (p == o)) [
    | inl e ↦
        let eo : p ≡ o = ground arith in
        let l : z.order p ≡ i ∷ rest = ap z.order eo ∙ first in
        let d : Distinct (i ∷ rest) = rw l at (inv.once p) in ground arith
    | inr e ↦ ground (arith, inv.once p)
  ]

  taken_busy : (j p : ℕ) → insert b i o j p ≡ true → page_is_free (taken.flags j) ≡ false
  taken_busy j p h =
      ground (arith, page_is_free-set_busy (z.flags i), inv.busy_marked j p, taken-Fresh p)

  taken_known :
      (k : ℕ)
      → z.begin ≤ k
      → k < z.end
      → page_is_free (taken.flags k) ≡ true
      → (j : ℕ) × (p : ℕ) × Held taken (insert b i o) j p × (j ≤ k) × (k < j + 2 ^ p)
  taken_known k ge lt free =
      let (j, p, h, le, lt') =
        inv.known k ge lt (ground (arith, page_is_free-set_busy (z.flags i))) in
      (j, p, Held-taken j p h, le, lt')

  -- The client holds the block that it took.
  pub taken-Inv : Inv taken (insert b i o)
  taken-Inv = record {
    geo = record {
      order_le = λ j p h. inv.order_le j p (taken-Held j p h);
      begin_le = λ j p h. inv.begin_le j p (taken-Held j p h);
      le_end = λ j p h. inv.le_end j p (taken-Held j p h);
      aligned = λ j p h. inv.aligned j p (taken-Held j p h);
      apart = λ j p k q h h'. inv.apart j p k q (taken-Held j p h) (taken-Held k q h');
      free_marked = λ j p h. let (l, ne) = gone j p h in ground (arith, inv.free_marked j p l);
      once = taken_once;
      known = taken_known;
    };
    busy_marked = taken_busy;
  }

-- The rounds of the loop, with the block in hand.
pub record Served (z : Zone) (b : BlockSet) (i o : ℕ) (z' : Zone) : Type 0 where
  pub inv : Inv z' (insert b i o)
  pub fresh : Fresh b i
  pub same_begin : z'.begin ≡ z.begin
  pub same_end : z'.end ≡ z.end

split-Served :
    (rounds i o : ℕ) (z : Zone) (b : BlockSet)
    → Inv z (insert b i (o + rounds))
    → Fresh b i
    → (z' : Zone) × (split rounds i o z ≡ some z') × Served z b i o z'
unfolding split put_free
split-Served zero i o z b inv fresh =
    let e : o + 0 ≡ o = omega arith in
    (z, refl, record { inv = rw e at inv; fresh = fresh; same_begin = refl; same_end = refl })
split-Served (suc rounds) i o z b inv fresh =
    let e : o + suc rounds ≡ suc (o + rounds) = omega arith in
    let inv' : Inv z (insert b i (suc (o + rounds))) = rw e at inv in
    let whole =
      hand z b i (suc (o + rounds)) inv'.geo fresh (Unlisted-of z b i (suc (o + rounds)) inv') in
    let u : flip_bit i (o + rounds) ≡ i + 2 ^ (o + rounds) =
      flip-upper i (o + rounds) (inv'.aligned i (suc (o + rounds)) whole) in
    let (f, set, order, free) =
      mark_free (z.flags (i + 2 ^ (o + rounds))) (o + rounds)
        (omega (arith, inv'.order_le i (suc (o + rounds)) whole)) in
    let (z', run, served) =
      split-Served rounds i o (listed z (i + 2 ^ (o + rounds)) (o + rounds) (page_set_free f)) b
        (cut-Inv z b i (o + rounds) (page_set_free f) inv' fresh order free) fresh in
    (
      z',
      rw (u, set) run,
      record {
        inv = served.inv;
        fresh = fresh;
        same_begin = served.same_begin;
        same_end = served.same_end;
      },
    )

-- The search stops at the first list that is not empty.
find_order-some :
    (fuel c : ℕ) (z : Zone) {k : ℕ}
    → find_order fuel c z ≡ some k
    → (c ≤ k) × (k < c + fuel) × (i : ℕ) × (rest : List ℕ) × (z.order k ≡ i ∷ rest)
unfolding find_order
find_order-some zero c z h = cc
find_order-some (suc fuel) c z {k} h = elim (List-cases (z.order c)) [
  | inl e ↦
      let (ge, lt, i, rest, l) = find_order-some fuel (c + 1) z (rw (find_order, e) at h) in
      (omega arith, omega arith, i, rest, l)
  | inr (i, rest, e) ↦
      let kc : c ≡ k = ground arith in (omega arith, omega arith, i, rest, rw (← kc) e)
]

find_order-none :
    (fuel c : ℕ) (z : Zone)
    → find_order fuel c z ≡ none
    → (p : ℕ) → c ≤ p
    → p < c + fuel
    → z.order p ≡ []
unfolding find_order
find_order-none zero c z h p ge lt = absurd (omega arith)
find_order-none (suc fuel) c z h p ge lt = elim (List-cases (z.order c)) [
  | inl e ↦ elim (Bool-cases (c == p)) [
    | inl here ↦ let cp : c ≡ p = ground arith in rw (← cp) e
    | inr more ↦
        find_order-none fuel (c + 1) z (rw (find_order, e) at h) p (ground arith) (omega arith)
  ]
  | inr (i, rest, e) ↦ ground arith
]

-- What `__page_alloc_zone` returns, and what it leaves.
abbrev pub Allocated : Zone → BlockSet → ℕ → Option ℕ × Zone → Type 0
Allocated z b order (none, z') = (z' ≡ z) × ((p : ℕ) → order ≤ p → p ≤ max_order → z.order p ≡ [])
Allocated z b order (some i, z') = Served z b i order z'

alloc_from-eq :
    (z : Zone) (k order i : ℕ) (rest : List ℕ)
    → z.order k ≡ i ∷ rest
    → {z' : Zone}
    → split (k - order) i order (record z {
      order = update z.order k rest;
      flags = update z.flags i (page_set_busy (z.flags i));
    })
      ≡ some z'
    → alloc_from k order z ≡ some (some i, z')
unfolding alloc_from
alloc_from-eq z k order i rest first run = rw (alloc_from, first, run)

alloc_from-Served :
    (z : Zone) (b : BlockSet) (k order i : ℕ) (rest : List ℕ)
    → Inv z b
    → order ≤ k
    → z.order k ≡ i ∷ rest
    → (z' : Zone) × (alloc_from k order z ≡ some (some i, z')) × Served z b i order z'
alloc_from-Served z b k order i rest inv le first =
    let e : k ≡ order + (k - order) = omega arith in
    let start =
      subst (λ q. Inv (taken z b i k rest inv first) (insert b i q)) e
        (taken-Inv z b i k rest inv first) in
    let (z', run, served) =
      split-Served (k - order) i order (taken z b i k rest inv first) b start
        (taken-Fresh z b i k rest inv first) in
    (
      z',
      alloc_from-eq z k order i rest first run,
      record {
        inv = served.inv;
        fresh = served.fresh;
        same_begin = served.same_begin;
        same_end = served.same_end;
      },
    )

page_alloc_zone-eq :
    (z : Zone) (order : ℕ) {k : ℕ} {r : Option ℕ × Zone}
    → find_order (max_order + 1 - order) order z ≡ some k
    → alloc_from k order z ≡ some r
    → page_alloc_zone z order ≡ some r
unfolding page_alloc_zone
page_alloc_zone-eq z order e run = rw (page_alloc_zone, e) run

-- On a well-formed zone no BUG_ON fails. Either a block of the order asked for is taken, which no
-- one held before and which shares no page with a block that is free or held, and the zone stays
-- well formed; or every list from that order up is empty, and the zone is unchanged.
pub page_alloc_zone-Allocated :
    (z : Zone) (b : BlockSet) (order : ℕ)
    → Inv z b
    → order ≤ max_order
    → (r : Option ℕ × Zone) × (page_alloc_zone z order ≡ some r) × Allocated z b order r
unfolding page_alloc_zone
page_alloc_zone-Allocated z b order inv le =
    elim (Option-cases (find_order (max_order + 1 - order) order z)) [
      | inl e ↦ (
        (none, z),
        rw (page_alloc_zone, e),
        (refl, λ p ge lt. find_order-none (max_order + 1 - order) order z e p ge (omega arith)),
      )
      | inr (k, e) ↦
          let (ge, lt, i, rest, l) = find_order-some (max_order + 1 - order) order z e in
          let (z', run, served) = alloc_from-Served z b k order i rest inv ge l in
          ((some i, z'), page_alloc_zone-eq z order e run, served)
    ]
