-- ===== src/PageAlloc/Tests.antt =====
-- Runs of the page allocator on small zones, and its theorems there.
use files_co.Base.{inr, ℕ, ◌*◌, ◌≡◌, refl, Option, some, arith, List, [], ◌∷◌, ◌>>=◌}
use files_co.PageAlloc.{Zone, page_size, page_alloc_zone, page_free_zone}
use files_co.PageAlloc.Flags.{page_order, page_is_free, page_set_order}
use files_co.PageAlloc.Invariant.{insert, remove, Inv}
use files_co.PageAlloc.Alloc.{Allocated, page_alloc_zone-Allocated, taken, taken-Inv}
use files_co.PageAlloc.Free.{page_free_zone-Inv}
use files_co.PageAlloc.Setup.{new_zone, zone_free}
use files_co.PageAlloc.Setup.Append.{appended, append-Inv}
use files_co.PageAlloc.Setup.Populate.{nothing, new_zone-Inv, Populated, zone_free-Freed}
use files_co.PageAlloc.Zones.{alloc_page, page_free}
use files_co.PageAlloc.Zones.Wellformed.{
  AllInv, Outcome, alloc_page-Outcome, lost_here, lost_there, ApartFrom, ZonesApart,
  page_free-AllInv,
}

abbrev clear_flags : ℕ → ℕ
clear_flags _ = 0

abbrev bare : Zone
bare = record { begin = 4; end = 8; order = λ _. []; flags = clear_flags }

-- The pages 4 to 7 as one free block of order 2.
abbrev four : Zone
four = appended bare 4 2 0x102

bare-Inv : Inv bare nothing
unfolding new_zone page_is_free
bare-Inv = new_zone-Inv 4 8 clear_flags (λ k. refl)

four-Inv : Inv four nothing
unfolding page_order page_is_free
four-Inv =
    append-Inv bare nothing 4 2 8 0x102 bare-Inv
      (record { outside = λ j p h. cc; unmarked = λ k lo hi. refl }) (omega arith) refl
      (omega arith) (omega arith) (omega arith) refl refl

page_alloc_zone-Allocated_example :
    (r : Option ℕ × Zone) × (page_alloc_zone four 0 ≡ some r) × Allocated four nothing 0 r
page_alloc_zone-Allocated_example = page_alloc_zone-Allocated four nothing 0 four-Inv (omega arith)

-- The block is split twice: page 4 is handed out, 5 and 6 go to the lists.
abbrev lists : Zone → List (List ℕ)
lists z = z.order 0 ∷ z.order 1 ∷ z.order 2 ∷ []

split_twice :
    (page_alloc_zone four 0 >>= λ (r, z). some (lists z)) ≡ some ((5 ∷ []) ∷ (6 ∷ []) ∷ [] ∷ [])
unfolding page_alloc_zone page_order page_is_free page_set_order
split_twice = refl

-- All of the zone in the hands of the client.
abbrev full : Zone
full = taken four nothing 4 2 [] four-Inv refl

full-Inv : Inv full (insert nothing 4 2)
full-Inv = taken-Inv four nothing 4 2 [] four-Inv refl

page_free_zone-Inv_example :
    (z' : Zone) × (page_free_zone full 4 2 ≡ some z')
    × Inv z' (remove (insert nothing 4 2) 4 2)
    × (z'.begin ≡ 4)
    × (z'.end ≡ 8)
page_free_zone-Inv_example = page_free_zone-Inv full (insert nothing 4 2) 4 2 full-Inv refl

alloc_page-Outcome_example :
    (q : Option ℕ × List Zone) × (alloc_page 1 (four ∷ []) ≡ some q)
    × Outcome 1 (four ∷ []) (nothing ∷ []) q
alloc_page-Outcome_example =
    alloc_page-Outcome 1 (four ∷ []) (nothing ∷ []) (four-Inv, tt) (omega arith)

-- Another zone behind the first
abbrev behind : Zone
behind = record { begin = 8; end = 12; order = λ _. []; flags = clear_flags }

behind-Inv : Inv behind nothing
unfolding new_zone page_is_free
behind-Inv = new_zone-Inv 8 12 clear_flags (λ k. refl)

two_zones-ZonesApart : ZonesApart (behind ∷ full ∷ [])
unfolding ZonesApart ApartFrom
two_zones-ZonesApart = ((inr (omega arith), tt), (tt, tt))

page_free-AllInv_example :
    (zs' : List Zone) × (page_free (4 * page_size) 2 (behind ∷ full ∷ []) ≡ some zs')
    × AllInv zs' (nothing ∷ remove (insert nothing 4 2) 4 2 ∷ [])
page_free-AllInv_example =
    page_free-AllInv 4 2 (behind ∷ full ∷ []) (nothing ∷ insert nothing 4 2 ∷ [])
      (nothing ∷ remove (insert nothing 4 2) 4 2 ∷ []) (omega arith) (behind-Inv, (full-Inv, tt))
      two_zones-ZonesApart (lost_there (lost_here refl))

zone_free-Freed_example :
    (z' : Zone) × (zone_free (new_zone 0 64 clear_flags) 0x800 0x8fff ≡ some z')
    × Populated (new_zone 0 64 clear_flags) 0x800 0x8fff z'
unfolding page_is_free
zone_free-Freed_example =
    zone_free-Freed 0 64 0x800 0x8fff clear_flags (λ k. refl) (omega arith) (omega arith)
      (omega arith)

-- The pages 1 to 7 make blocks of orders 0, 1 and 2.
three_blocks :
    (zone_free (new_zone 0 64 clear_flags) 0x800 0x8fff >>= λ z. some (lists z))
    ≡ some ((1 ∷ []) ∷ (2 ∷ []) ∷ (4 ∷ []) ∷ [])
unfolding zone_free new_zone page_set_order
three_blocks = refl
