-- ===== src/PageAlloc/Setup/Populate.antt =====
-- The free lists that `__page_alloc_zone_free` builds are well formed and hold every page.
use files_co.Base.{
  ℕ, zero, suc, ◌+◌, ◌-◌, ◌*◌, ◌/◌, ◌%◌, ◌⊎◌, ◌++◌, ◌^◌, ◌≤◌, ◌<◌, ◌≡◌, ◌≢◌, inl, inr, refl, true,
  false, some, ◌==◌, ltb, leb, ◌||◌, if◌then◌else◌, [], ◌∷◌, arith, has, has-append, Bool-cases,
  ◌∙◌,
}
use native.Mathlib.Nat.{mod-one}
use files_co.Base.Bits.{test_bit}
use files_co.Base.Pow.{pow_pos}
use files_co.PageAlloc.{Zone, max_order, page_size}
use files_co.PageAlloc.Flags.{page_is_free, page_set_order, page_set_free, mark_free}
use files_co.PageAlloc.Blocks.{IsAligned, IsAligned-suc}
use files_co.PageAlloc.Invariant.{BlockSet, Inv}
use files_co.PageAlloc.Setup.Append.{
  IsClear, appended, append-Inv, append-IsClear, put_free_tail-appended,
}
use files_co.PageAlloc.Setup.{block_order, free_loop, begin_page, end_page, zone_free, new_zone}

-- The block fits and is aligned; the order grows only while both stay true.
block_order-fits :
    (fuel page end o : ℕ)
    → o + fuel ≤ max_order
    → IsAligned page o
    → page + 2 ^ o ≤ end
    → (block_order fuel page end o ≤ max_order)
      × IsAligned page (block_order fuel page end o)
      × (page + 2 ^ block_order fuel page end o ≤ end)
unfolding block_order
block_order-fits zero page end o h a f = (omega arith, a, f)
block_order-fits (suc fuel) page end o h a f = elim (Bool-cases (test_bit page o)) [
  | inl t ↦ rw t (omega arith, a, f)
  | inr t ↦ elim (Bool-cases (ltb end (page + 2 ^ (o + 1)))) [
    | inl s ↦ rw (t, s) (omega arith, a, f)
    | inr s ↦
        let e : o + 1 ≡ suc o = omega arith in
        rw (t, s)
          (block_order-fits fuel page end (o + 1) (omega arith) (rw e (IsAligned-suc page o a t))
            (ground arith))
  ]
]

-- What the loop does to a zone whose pages from `page` up to `end` are clear.
pub record Freed (z : Zone) (b : BlockSet) (page end : ℕ) (z' : Zone) : Type 0 where
  pub inv : Inv z' b
  pub same_begin : z'.begin ≡ z.begin
  pub same_end : z'.end ≡ z.end
  pub kept : (j p : ℕ) → has j (z.order p) ≡ true → has j (z'.order p) ≡ true
  pub within :
      (j p : ℕ)
      → has j (z'.order p) ≡ true
      → (has j (z.order p) ≡ true) ⊎ (page ≤ j) × (j + 2 ^ p ≤ end)
  pub covers :
      (k : ℕ)
      → page ≤ k
      → k < end
      → (j : ℕ) × (p : ℕ) × (has j (z'.order p) ≡ true) × (j ≤ k) × (k < j + 2 ^ p)

free_loop-step :
    (fuel page end : ℕ) (z : Zone) {f : ℕ}
    → page ≢ end
    → page_set_order (z.flags page) (block_order max_order page end 0) ≡ some f
    → free_loop (suc fuel) page end z
      ≡ free_loop fuel
          (page + 2 ^ block_order max_order page end 0)
          end
          (appended z page (block_order max_order page end 0) (page_set_free f))
unfolding free_loop
free_loop-step fuel page end z {f} ne e =
    let t : (page == end) ≡ false = ground arith in
    rw (free_loop, t, put_free_tail-appended z page (block_order max_order page end 0) f e)

added_within :
    (z : Zone) (page end o f j p : ℕ)
    → page + 2 ^ o ≤ end
    → has j ((appended z page o f).order p) ≡ true
    → (has j (z.order p) ≡ true) ⊎ (page ≤ j) × (j + 2 ^ p ≤ end)
added_within z page end o f j p fits h = elim (Bool-cases (p == o)) [
  | inr e ↦ inl (rw e at h)
  | inl e ↦
      let same : p ≡ o = ground arith in
      let h' : has j (z.order o ++ page ∷ []) ≡ true = ground (arith, h) in
      elim (Bool-cases (j == page)) [
        | inl s ↦ let q : j ≡ page = ground arith in inr (omega arith, rw (q, same) fits)
        | inr s ↦ inl (ground (arith, has-append j (z.order o) (page ∷ [])))
      ]
]

free_loop-Freed :
    (fuel page end : ℕ) (z : Zone) (b : BlockSet)
    → Inv z b
    → IsClear z b page end
    → z.begin ≤ page
    → end ≤ z.end
    → page ≤ end
    → end < page + fuel
    → (z' : Zone) × (free_loop fuel page end z ≡ some z') × Freed z b page end z'
free_loop-Freed zero page end z b inv clear ge le lt fuel = absurd (omega arith)
free_loop-Freed (suc fuel) page end z b inv clear ge le lt enough =
    elim (Bool-cases (page == end)) [
      | inl done ↦ (
        z,
        unfold free_loop in (rw (free_loop, done)),
        record {
          inv = inv;
          same_begin = refl;
          same_end = refl;
          kept = λ j p h. h;
          within = λ j p h. inl h;
          covers = λ k lo hi. absurd (ground arith);
        },
      )
      | inr more ↦
          let o = block_order max_order page end 0 in
          let (small, al, fits) =
            block_order-fits max_order page end 0 (omega arith) (mod-one page) (ground arith) in
          let (f, set, order, free) = mark_free (z.flags page) o (omega arith) in
          let y = appended z page o (page_set_free f) in
          let (z', run, r) =
            free_loop-Freed fuel (page + 2 ^ o) end y b
              (append-Inv z b page o end (page_set_free f) inv clear small al fits ge le order free)
              (append-IsClear z b page o end (page_set_free f) inv clear small al fits ge le order
                free)
              (omega arith) le fits (omega (arith, pow_pos o)) in
          let here : has page (y.order o) ≡ true =
            ground (arith, has-append page (z.order o) (page ∷ [])) in
          (
            z',
            free_loop-step fuel page end z (ground arith) set ∙ run,
            record {
              inv = r.inv;
              same_begin = r.same_begin;
              same_end = r.same_end;
              kept = λ j p h. r.kept j p (ground (arith, has-append j (z.order o) (page ∷ [])));
              within = λ j p h. elim (r.within j p h) [
                | inl old ↦ added_within z page end o (page_set_free f) j p fits old
                | inr (s, t) ↦ inr (omega arith, t)
              ];
              covers = λ k lo hi. elim (Bool-cases (ltb k (page + 2 ^ o))) [
                | inl now ↦ (page, o, r.kept page o here, lo, ground arith)
                | inr later ↦ r.covers k (ground arith) hi
              ];
            },
          )
    ]

-- A zone whose pages are not marked free, with all lists empty, is well formed for no client.
abbrev pub nothing : BlockSet
nothing i o = false

pub new_zone-Inv :
    (begin end : ℕ) (flags : ℕ → ℕ)
    → ((k : ℕ) → page_is_free (flags k) ≡ false)
    → Inv (new_zone begin end flags) nothing
unfolding new_zone
new_zone-Inv begin end flags clear = record {
  geo = record {
    order_le = λ j p h. cc;
    begin_le = λ j p h. cc;
    le_end = λ j p h. cc;
    aligned = λ j p h. cc;
    apart = λ j p k q h h'. cc;
    free_marked = λ j p h. cc;
    once = λ p. tt;
    known = λ k lo hi fr. absurd (ground (arith, clear k));
  };
  busy_marked = λ j p h. cc;
}

abbrev first_page : ℕ → ℕ
first_page zbegin = if begin_page zbegin == 0 then 1 else begin_page zbegin

in_range : (p begin end : ℕ) → begin ≤ p → p < end → (ltb p begin || leb end p) ≡ false
in_range p begin end h k = ground arith

end_in_range : (q begin end : ℕ) → begin < q → q ≤ end → (leb q begin || ltb end q) ≡ false
end_in_range q begin end h k = ground arith

lt_of_leb : (q p : ℕ) → leb q p ≡ false → p < q
lt_of_leb q p h = ground arith

-- The first page is the first one, but page 0, whose first byte is not before `zbegin`.
first_page-first :
    (zbegin : ℕ)
    → zbegin + page_size ≤ 2 ^ 64
    → (0 < first_page zbegin)
      × (zbegin ≤ first_page zbegin * page_size)
      × ((k : ℕ) → 0 < k → zbegin ≤ k * page_size → first_page zbegin ≤ k)
unfolding begin_page
first_page-first zbegin h =
    let q = (zbegin + page_size - 1) / page_size in
    let e : (zbegin + page_size - 1) % 2 ^ 64 ≡ zbegin + page_size - 1 = omega arith in
    elim (Bool-cases (q == 0)) [
      | inl c ↦ rw (e, c) (omega arith, ground arith, λ k s t. omega arith)
      | inr c ↦ rw (e, c) (ground arith, omega arith, λ k s t. omega arith)
    ]

-- The blocks on the free lists are made of the whole pages from `zbegin` up to `zend`, but page 0.
pub record Populated (z : Zone) (zbegin zend : ℕ) (z' : Zone) : Type 0 where
  pub inv : Inv z' nothing
  pub same_begin : z'.begin ≡ z.begin
  pub same_end : z'.end ≡ z.end
  pub covers :
      (k : ℕ)
      → 0 < k
      → zbegin ≤ k * page_size
      → (k + 1) * page_size ≤ zend
      → (j : ℕ) × (p : ℕ) × (has j (z'.order p) ≡ true) × (j ≤ k) × (k < j + 2 ^ p)
  pub within :
      (j p : ℕ)
      → has j (z'.order p) ≡ true
      → (0 < j) × (zbegin ≤ j * page_size) × ((j + 2 ^ p) * page_size ≤ zend)

Freed-Populated :
    (begin end zbegin zend : ℕ) (flags : ℕ → ℕ) (z' : Zone)
    → zbegin + page_size ≤ 2 ^ 64
    → Freed (new_zone begin end flags) nothing (first_page zbegin) (end_page zend) z'
    → Populated (new_zone begin end flags) zbegin zend z'
unfolding new_zone end_page
Freed-Populated begin end zbegin zend flags z' h r =
    let (pos, ge, least) = first_page-first zbegin h in
    record {
      inv = r.inv;
      same_begin = r.same_begin;
      same_end = r.same_end;
      covers = λ k k0 lo hi. r.covers k (least k k0 lo) (omega arith);
      within = λ j p e. elim (r.within j p e) [
        | inl none_there ↦ absurd (ground arith)
        | inr (s, t) ↦ (omega arith, omega arith, omega arith)
      ];
    }

-- A zone that was just set up, with no page marked free, takes any range of free memory within it
-- that begins a page or more below 2 ^ 64: no BUG_ON fails, the loop ends, the free lists are well formed, and
-- the blocks on them are made of just the whole pages of the range, without page 0.
pub zone_free-Freed :
    (begin end zbegin zend : ℕ) (flags : ℕ → ℕ)
    → ((k : ℕ) → page_is_free (flags k) ≡ false)
    → begin * page_size ≤ zbegin
    → zend ≤ end * page_size
    → zbegin + page_size ≤ 2 ^ 64
    → (z' : Zone) × (zone_free (new_zone begin end flags) zbegin zend ≡ some z')
      × Populated (new_zone begin end flags) zbegin zend z'
unfolding zone_free new_zone
zone_free-Freed begin end zbegin zend flags clear below above small =
    let p = first_page zbegin in
    let q = end_page zend in
    let (pos, ge, least) = first_page-first zbegin small in
    let lo : begin ≤ p = omega arith in
    let hi : q ≤ end = unfold end_page in omega arith in
    elim (Bool-cases (leb (end_page zend) (first_page zbegin))) [
      | inl empty ↦ (
        new_zone begin end flags,
        rw empty,
        Freed-Populated begin end zbegin zend flags (new_zone begin end flags) small (record {
          inv = new_zone-Inv begin end flags clear;
          same_begin = refl;
          same_end = refl;
          kept = λ j p h. h;
          within = λ j p h. inl h;
          covers = λ k s t. absurd (ground arith);
        }),
      )
      | inr some_pages ↦
          let lt : p < q = lt_of_leb q p some_pages in
          let (z', run, r) =
            free_loop-Freed (q - p + 1) p q (new_zone begin end flags) nothing
              (new_zone-Inv begin end flags clear)
              (record { outside = λ j s h. cc; unmarked = λ k s t. clear k }) lo hi (omega arith)
              (omega arith) in
          let t1 = in_range p begin end lo (omega arith) in
          let t2 = end_in_range q begin end (omega arith) hi in
          (z', rw (some_pages, t1, t2) run, Freed-Populated begin end zbegin zend flags z' small r)
    ]
