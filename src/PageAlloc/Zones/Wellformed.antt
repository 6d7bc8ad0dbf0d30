-- ===== src/PageAlloc/Zones/Wellformed.antt =====
-- The page allocator over all zones keeps each of them well formed.
use files_co.Base.{
  ℕ, ◌⊎◌, ◌*◌, ◌/◌, ◌≤◌, ◌<◌, ◌≡◌, ◌≢◌, refl, true, false, Option, none, some, ◌==◌, List, [], ◌∷◌,
  arith, inl, inr,
}
use files_co.Base.Pow.{pow_pos}
use files_co.PageAlloc.{Zone, max_order, page_size, page_alloc_zone, page_free_zone}
use files_co.PageAlloc.Invariant.{BlockSet, insert, remove, Held, Inv}
use files_co.PageAlloc.Alloc.{page_alloc_zone-Allocated, Allocated}
use files_co.PageAlloc.Free.{page_free_zone-Inv}
use files_co.PageAlloc.Zones.{in_zone, at_zone, alloc_loop, alloc_page, page_free}

-- Each zone is well formed for the blocks that the client holds of it.
abbrev pub AllInv : List Zone → List BlockSet → Type 0
AllInv [] [] = Unit {0}
AllInv [] (b ∷ bs) = ⊥
AllInv (z ∷ zs) [] = ⊥
AllInv (z ∷ zs) (b ∷ bs) = Inv z b × AllInv zs bs

-- One of the client's sets has gained the block.
pub data Gained (page order : ℕ) : List BlockSet → List BlockSet → Type 0 where
  here :
      {b : BlockSet} {bs : List BlockSet}
      → b page order ≡ false
      → Gained page order (b ∷ bs) (insert b page order ∷ bs)
  there :
      {b : BlockSet} {bs cs : List BlockSet}
      → Gained page order bs cs
      → Gained page order (b ∷ bs) (b ∷ cs)

-- No zone has a free block of this order or a larger one.
abbrev pub Exhausted : ℕ → List Zone → Type 0
Exhausted order [] = Unit {0}
Exhausted order (z ∷ zs) =
    ((p : ℕ) → order ≤ p → p ≤ max_order → z.order p ≡ []) × Exhausted order zs

abbrev pub Outcome : ℕ → List Zone → List BlockSet → Option ℕ × List Zone → Type 0
Outcome order zs bs (none, zs') = (zs' ≡ zs) × Exhausted order zs
Outcome order zs bs (some page, zs') =
    (cs : List BlockSet) × Gained page order bs cs × AllInv zs' cs

alloc_cons :
    (order : ℕ) (z : Zone) (zs : List Zone) (b : BlockSet) (bs : List BlockSet)
    (r : Option ℕ × Zone)
    → page_alloc_zone z order ≡ some r
    → Allocated z b order r
    → Inv z b
    → AllInv zs bs
    → (q : Option ℕ × List Zone) × (alloc_loop order zs ≡ some q) × Outcome order zs bs q
    → (q : Option ℕ × List Zone) × (alloc_loop order (z ∷ zs) ≡ some q)
      × Outcome order (z ∷ zs) (b ∷ bs) q
unfolding alloc_loop
alloc_cons order z zs b bs (some page, z') e a inv all rec =
    ((some page, z' ∷ zs), rw e, (insert b page order ∷ bs, here (a.fresh order), (a.inv, all)))
alloc_cons order z zs b bs (none, z') e (same, empty) inv all ((none, zs'), run, (same', ex)) =
    ((none, z' ∷ zs'), rw (e, run), (cc, (empty, ex)))
alloc_cons order z zs b bs (none, z') e (same, empty) inv all
      ((some page, zs'), run, (cs, gained, all')) =
    ((some page, z' ∷ zs'), rw (e, run), (b ∷ cs, there gained, (rw same inv, all')))

alloc_loop-Outcome :
    (order : ℕ) (zs : List Zone) (bs : List BlockSet)
    → AllInv zs bs
    → order ≤ max_order
    → (q : Option ℕ × List Zone) × (alloc_loop order zs ≡ some q) × Outcome order zs bs q
alloc_loop-Outcome order [] [] all le = ((none, []), unfold alloc_loop in refl, (refl, tt))
alloc_loop-Outcome order [] (b ∷ bs) all le = absurd all
alloc_loop-Outcome order (z ∷ zs) [] all le = absurd all
alloc_loop-Outcome order (z ∷ zs) (b ∷ bs) all le =
    let (r, e, a) = page_alloc_zone-Allocated z b order all.0 le in
    alloc_cons order z zs b bs r e a all.0 all.1 (alloc_loop-Outcome order zs bs all.1 le)

-- Over well-formed zones `__page_alloc` fails no BUG_ON. It returns a block that no client of its
-- zone had, and every zone stays well formed; or it returns none, changes nothing, and no zone has
-- a free block that is large enough.
pub alloc_page-Outcome :
    (order : ℕ) (zs : List Zone) (bs : List BlockSet)
    → AllInv zs bs
    → order ≤ max_order
    → (q : Option ℕ × List Zone) × (alloc_page order zs ≡ some q) × Outcome order zs bs q
unfolding alloc_page
alloc_page-Outcome order zs bs all le =
    let (q, e, o) = alloc_loop-Outcome order zs bs all le in (q, ground arith, o)

-- The client's set of one zone had the block, and has lost it.
pub data Lost (page order : ℕ) : List BlockSet → List BlockSet → Type 0 where
  lost_here :
      {b : BlockSet} {bs : List BlockSet}
      → b page order ≡ true
      → Lost page order (b ∷ bs) (remove b page order ∷ bs)
  lost_there :
      {b : BlockSet} {bs cs : List BlockSet}
      → Lost page order bs cs
      → Lost page order (b ∷ bs) (b ∷ cs)

-- Zones share no page.
unfoldable pub ApartFrom : Zone → List Zone → Type 0
ApartFrom z [] = Unit {0}
ApartFrom z (z' ∷ zs) = ((z.end ≤ z'.begin) ⊎ (z'.end ≤ z.begin)) × ApartFrom z zs

unfoldable pub ZonesApart : List Zone → Type 0
unfolding ApartFrom
ZonesApart [] = Unit {0}
ZonesApart (z ∷ zs) = ApartFrom z zs × ZonesApart zs

-- A block that the client holds of a zone lies in it.
held_inside :
    (page order : ℕ) (z : Zone) (b : BlockSet)
    → Inv z b
    → b page order ≡ true
    → (z.begin ≤ page) × (page < z.end)
held_inside page order z b inv h =
    let held : Held z b page order = ground (arith, h) in
    (inv.begin_le page order held, omega (arith, inv.le_end page order held, pow_pos order))

-- The block is in no other zone.
not_in_zone :
    (page order : ℕ) (z : Zone) (zs : List Zone) (bs cs : List BlockSet)
    → AllInv zs bs
    → Lost page order bs cs
    → ApartFrom z zs
    → in_zone page z ≡ false
unfolding ApartFrom
not_in_zone page order z [] [] cs all lost apart = elim lost [ ]
not_in_zone page order z [] (b ∷ bs) cs all lost apart = absurd all
not_in_zone page order z (z' ∷ zs) [] cs all lost apart = absurd all
not_in_zone page order z (z' ∷ zs) (b ∷ bs) [] all lost apart = elim lost [ ]
not_in_zone page order z (z' ∷ zs) (b ∷ bs) (c ∷ cs) all (lost_here h) apart =
    let (lo, hi) = held_inside page order z' b all.0 h in
    elim (apart.0) [ inl e ↦ ground arith | inr e ↦ ground arith ]
not_in_zone page order z (z' ∷ zs) (b ∷ bs) (c ∷ cs) all (lost_there l) apart =
    not_in_zone page order z zs bs cs all.1 l apart.1

at_zone-AllInv :
    (page order : ℕ) (zs : List Zone) (bs cs : List BlockSet)
    → AllInv zs bs
    → ZonesApart zs
    → Lost page order bs cs
    → (zs' : List Zone) × (at_zone page (λ z. page_free_zone z page order) zs ≡ some zs')
      × AllInv zs' cs
unfolding at_zone ZonesApart
at_zone-AllInv page order [] [] cs all apart lost = elim lost [ ]
at_zone-AllInv page order [] (b ∷ bs) cs all apart lost = absurd all
at_zone-AllInv page order (z ∷ zs) [] cs all apart lost = absurd all
at_zone-AllInv page order (z ∷ zs) (b ∷ bs) [] all apart lost = elim lost [ ]
at_zone-AllInv page order (z ∷ zs) (b ∷ bs) (c ∷ cs) all apart (lost_here h) =
    let (lo, hi) = held_inside page order z b all.0 h in
    let t : in_zone page z ≡ true = ground arith in
    let (z', e, inv, _, _) = page_free_zone-Inv z b page order all.0 h in
    (z' ∷ zs, rw (t, e), (inv, all.1))
at_zone-AllInv page order (z ∷ zs) (b ∷ bs) (c ∷ cs) all apart (lost_there l) =
    let t = not_in_zone page order z zs bs cs all.1 l apart.0 in
    let (zs', e, rest) = at_zone-AllInv page order zs bs cs all.1 apart.1 l in
    (z ∷ zs', rw (t, e), (all.0, rest))

-- Over well-formed zones that share no page, `page_free` of the address of a block that the client
-- holds of one of them fails no BUG_ON, and leaves every zone well formed, where the client's set of
-- that zone has lost the block. The block is not the page 0, whose address is NULL.
pub page_free-AllInv :
    (page order : ℕ) (zs : List Zone) (bs cs : List BlockSet)
    → page ≢ 0
    → AllInv zs bs
    → ZonesApart zs
    → Lost page order bs cs
    → (zs' : List Zone) × (page_free (page * page_size) order zs ≡ some zs') × AllInv zs' cs
unfolding page_free
page_free-AllInv page order zs bs cs ne all apart lost =
    let e : page * page_size / page_size ≡ page = omega arith in
    let t : (page * page_size == 0) ≡ false = ground arith in
    let (zs', run, rest) = at_zone-AllInv page order zs bs cs all apart lost in
    (zs', rw (page_free, t, e) run, rest)
