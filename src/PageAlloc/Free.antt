-- ===== src/PageAlloc/Free.antt =====
-- `__page_free_zone` of src/memory.c on a well-formed zone.
use mathlib.Core.Path.{subst, fun_ext}
use files_co.Base.{
  ℕ, zero, suc, ◌+◌, ◌-◌, ◌^◌, ◌%◌, ◌≤◌, ◌<◌, ◌≡◌, ◌≢◌, ◌⊎◌, refl, true, false, not, ◌||◌, ◌&&◌,
  ◌==◌, leb, ltb, arith, has, inl, inr, Bool-cases, sym, ◌∙◌, ap, some,
}
use files_co.Base.Bits.{flip_bit}
use files_co.Base.Pow.{pow_pos}
use files_co.PageAlloc.{Zone, max_order, put_free, take_out, merge, page_free_zone}
use files_co.PageAlloc.Flags.{page_order, page_is_free, page_set_order, page_set_free, mark_free}
use files_co.PageAlloc.Blocks.{IsAligned}
use files_co.PageAlloc.Invariant.{BlockSet, insert, remove, Held, Geo, Inv, Fresh, Unlisted}
use files_co.PageAlloc.InHand.{hand, Unlisted-of}
use files_co.PageAlloc.Split.{listed}
use files_co.PageAlloc.Merge.{lower_of, join, buddy_listed}
use files_co.PageAlloc.Join.{unlinked, joined}

-- A block in hand, that the loop may still join with its buddy.
pub record IsLoose (z : Zone) (b : BlockSet) (i o : ℕ) : Type 0 where
  pub geo : Geo z (insert b i o)
  pub fresh : Fresh b i
  pub unlisted : Unlisted z i
  pub busy : (k p : ℕ) → b k p ≡ true → page_is_free (z.flags k) ≡ false

pub record Merged (z : Zone) (b : BlockSet) (z' : Zone) (i o : ℕ) : Type 0 where
  pub loose : IsLoose z' b i o
  pub same_begin : z'.begin ≡ z.begin
  pub same_end : z'.end ≡ z.end

take_out-unlinked :
    (z : Zone) (j o : ℕ) → has j (z.order o) ≡ true → take_out z j o ≡ some (unlinked z j o)
unfolding take_out
take_out-unlinked z j o h = rw h

-- One round: the loop stops, or goes on with the joined block.
merge_round :
    (rounds i o : ℕ) (z : Zone) (b : BlockSet)
    → IsLoose z b i o
    → (merge (suc rounds) i o z ≡ some (i, o, z))
      ⊎ ((page_is_free (z.flags (flip_bit i o)) ≡ true)
          × (has (flip_bit i o) (z.order o) ≡ true)
          × (merge (suc rounds) i o z
              ≡ merge rounds (lower_of i o) (o + 1) (unlinked z (flip_bit i o) o)))
unfolding merge
merge_round rounds i o z b l =
    elim (Bool-cases (ltb (flip_bit i o) z.begin || leb z.end (flip_bit i o))) [
      | inl out ↦ inl (rw out)
      | inr within ↦
          elim (Bool-cases (
            not (page_is_free (z.flags (flip_bit i o)))
            || not (page_order (z.flags (flip_bit i o)) == o))) [
              | inl wrong ↦ inl (rw (within, wrong))
              | inr right ↦
                  let j = flip_bit i o in
                  let free : page_is_free (z.flags j) ≡ true = ground arith in
                  let jn = join i o (l.geo.aligned i o (hand z b i o l.geo l.fresh l.unlisted)) in
                  let on =
                    buddy_listed z b i o j (lower_of i o) l.geo l.fresh l.unlisted l.busy jn free
                      (ground arith) (ground arith) (ground arith) in
                  inr (free, on, rw (within, right, take_out-unlinked z j o on))
            ]
    ]

-- The loop ends, never takes a page off a list that does not have it, and leaves one block in hand.
merge-Merged :
    (rounds i o : ℕ) (z : Zone) (b : BlockSet)
    → o + rounds ≡ max_order
    → IsLoose z b i o
    → (i' : ℕ) × (o' : ℕ) × (z' : Zone) × (merge rounds i o z ≡ some (i', o', z'))
      × Merged z b z' i' o'
merge-Merged zero i o z b e l =
    (i, o, z, unfold merge in refl, record { loose = l; same_begin = refl; same_end = refl })
merge-Merged (suc rounds) i o z b e l = elim (merge_round rounds i o z b l) [
  | inl stop ↦ (i, o, z, stop, record { loose = l; same_begin = refl; same_end = refl })
  | inr (free, on, run) ↦
      let j = flip_bit i o in
      let m = lower_of i o in
      let jn = join i o (l.geo.aligned i o (hand z b i o l.geo l.fresh l.unlisted)) in
      let (geo, fresh, unlisted) =
        joined z b i o j m l.geo l.fresh l.unlisted l.busy jn free on (omega arith) in
      let so : o + 1 ≡ suc o = omega arith in
      let (i', o', z', go, r) =
        merge-Merged rounds m (suc o) (unlinked z j o) b (omega arith)
          (record { geo = geo; fresh = fresh; unlisted = unlisted; busy = l.busy }) in
      (
        i',
        o',
        z',
        run ∙ ap (λ q. merge rounds m q (unlinked z j o)) so ∙ go,
        record { loose = r.loose; same_begin = r.same_begin; same_end = r.same_end },
      )
]

-- The block in hand goes to its list.
module _ (z : Zone) (b : BlockSet) (i o f : ℕ) (l : IsLoose z b i o) (order : page_order f ≡ o)
    (free : page_is_free f ≡ true) where
  abbrev g : Zone
  g = listed z i o f

  back : (j p : ℕ) → Held g b j p → Held z (insert b i o) j p
  back j p h = ground arith

  away : (j p : ℕ) → Held z b j p → j ≢ i
  away j p h e = let h' : Held z b i p = rw e at h in ground (arith, l.unlisted p, l.fresh p)

  put_known :
      (k : ℕ)
      → z.begin ≤ k
      → k < z.end
      → page_is_free (g.flags k) ≡ true
      → (j : ℕ) × (p : ℕ) × Held g b j p × (j ≤ k) × (k < j + 2 ^ p)
  put_known k ge lt fr = elim (Bool-cases (k == i)) [
    | inl e ↦ (i, o, ground arith, ground arith, ground (arith, pow_pos o))
    | inr e ↦
        let (j, p, h, le, lt') = l.geo.known k ge lt (ground arith) in (j, p, ground arith, le, lt')
  ]

  put-Inv : Inv g b
  put-Inv = record {
    geo = record {
      order_le = λ j p h. l.geo.order_le j p (back j p h);
      begin_le = λ j p h. l.geo.begin_le j p (back j p h);
      le_end = λ j p h. l.geo.le_end j p (back j p h);
      aligned = λ j p h. l.geo.aligned j p (back j p h);
      apart = λ j p k q h h'. l.geo.apart j p k q (back j p h) (back k q h');
      free_marked = λ j p h. ground (arith, l.geo.free_marked j p, away j p);
      once = λ p. ground (arith, l.geo.once p, l.unlisted p);
      known = put_known;
    };
    busy_marked = λ j p h. ground (arith, l.busy j p, away j p);
  }

-- A block that the client holds is in hand once it is taken from the client's set.
remove-insert : (b : BlockSet) (i o : ℕ) → b i o ≡ true → insert (remove b i o) i o ≡ b
remove-insert b i o h = fun_ext λ j. fun_ext λ p. same j p
  where
    same : (j p : ℕ) → insert (remove b i o) i o j p ≡ b j p
    same j p = elim (Bool-cases (j == i && p == o)) [
      | inl e ↦
          let ei : j ≡ i = ground arith in
          let eo : p ≡ o = ground arith in rw (ei, eo, h) (ground arith)
      | inr e ↦ ground arith
    ]

IsLoose-of :
    (z : Zone) (b : BlockSet) (i o : ℕ) → Inv z b → b i o ≡ true → IsLoose z (remove b i o) i o
IsLoose-of z b i o inv h = record {
  geo = inv'.geo;
  fresh = λ p. fresh_at p;
  unlisted = Unlisted-of z (remove b i o) i o inv';
  busy = λ k p q. inv.busy_marked k p (ground arith);
}
  where
    inv' : Inv z (insert (remove b i o) i o)
    inv' = subst (λ c. Inv z c) (sym (remove-insert b i o h)) inv

    fresh_at : (p : ℕ) → remove b i o i p ≡ false
    fresh_at p = elim (Bool-cases (b i p)) [
      | inl q ↦
          let e =
            (inv.apart i o i p (ground (arith, h)) (ground arith) (omega (arith, pow_pos p))
              (omega (arith, pow_pos o))).1 in
          ground arith
      | inr q ↦ ground arith
    ]

put_free-listed :
    (z : Zone) (i o f : ℕ)
    → page_set_order (z.flags i) o ≡ some f
    → put_free z i o ≡ some (listed z i o (page_set_free f))
unfolding put_free
put_free-listed z i o f e = rw e

page_free_zone-eq :
    (z : Zone) (i o : ℕ) {i' o' : ℕ} {z' r : Zone}
    → IsAligned i o
    → merge (max_order - o) i o z ≡ some (i', o', z')
    → put_free z' i' o' ≡ some r
    → page_free_zone z i o ≡ some r
unfolding page_free_zone
page_free_zone-eq z i o a e p =
    let t : (i % 2 ^ o == 0) ≡ true = ground arith in rw (page_free_zone, t, e, p)

-- Given back by a client that holds it, a block of a well-formed zone is accepted: no BUG_ON fails,
-- no page is taken off a list that does not have it, and the zone stays well formed, for the
-- client's other blocks.
pub page_free_zone-Inv :
    (z : Zone) (b : BlockSet) (page order : ℕ)
    → Inv z b
    → b page order ≡ true
    → (z' : Zone) × (page_free_zone z page order ≡ some z')
      × Inv z' (remove b page order)
      × (z'.begin ≡ z.begin)
      × (z'.end ≡ z.end)
page_free_zone-Inv z b i o inv h =
    let held : Held z b i o = ground arith in
    let (i', o', z', run, r) =
      merge-Merged (max_order - o) i o z (remove b i o) (omega (arith, inv.order_le i o held))
        (IsLoose-of z b i o inv h) in
    let l = r.loose in
    let le = l.geo.order_le i' o' (hand z' (remove b i o) i' o' l.geo l.fresh l.unlisted) in
    let (f, set, order, free) = mark_free (z'.flags i') o' (omega arith) in
    (
      listed z' i' o' (page_set_free f),
      page_free_zone-eq z i o (inv.aligned i o held) run (put_free-listed z' i' o' f set),
      put-Inv z' (remove b i o) i' o' (page_set_free f) l order free,
      r.same_begin,
      r.same_end,
    )
