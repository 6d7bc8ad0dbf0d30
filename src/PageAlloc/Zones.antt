-- ===== src/PageAlloc/Zones.antt =====
-- The list of zones of src/memory.c, and the functions that the rest of the kernel calls:
-- `page_alloc_zone_find`, `__page_alloc` (alloc_page here), `page_alloc`, `__page_free` (free_page
-- here) and `page_free`. A null `struct page *` is `none`.
pub mod Wellformed
use files_co.Base.{
  ℕ, ◌+◌, ◌*◌, ◌/◌, ◌%◌, ◌^◌, Bool, not, ◌&&◌, Option, none, some, ◌==◌, ltb, leb, if◌then◌else◌,
  List, [], ◌∷◌, ◌>>=◌,
}
use files_co.PageAlloc.{Zone, max_order, page_size, page_alloc_zone, page_free_zone}

-- `idx >= zone->begin && idx < zone->end`
abbrev pub in_zone : ℕ → Zone → Bool
in_zone idx z = leb z.begin idx && ltb idx z.end

-- `page_alloc_zone_find`, and `page_zone` for the page with this number
unfoldable pub zone_find : ℕ → List Zone → Option Zone
zone_find idx [] = none
zone_find idx (z ∷ zs) = if in_zone idx z then some z else zone_find idx zs

-- Run `f` on the zone that `zone_find` finds; `none` is the failed BUG_ON of no zone.
pub at_zone : ℕ → (Zone → Option Zone) → List Zone → Option (List Zone)
at_zone idx f [] = none
at_zone idx f (z ∷ zs) =
    let rest = at_zone idx f zs >>= λ zs'. some (z ∷ zs') in
    let here = f z >>= λ z'. some (z' ∷ zs) in if in_zone idx z then here else rest

-- The loop of `__page_alloc` over the zones.
pub alloc_loop : ℕ → List Zone → Option (Option ℕ × List Zone)
alloc_loop order [] = some (none, [])
alloc_loop order (z ∷ zs) =
    let next = alloc_loop order zs in
    do
      (r, z') ← page_alloc_zone z order
      elim r [
        | some page ↦ some (some page, z' ∷ zs)
        | none ↦ next >>= λ (r', zs'). some (r', z' ∷ zs')
      ]

-- `__page_alloc`
pub alloc_page : ℕ → List Zone → Option (Option ℕ × List Zone)
unfolding alloc_loop
alloc_page order zs = if ltb max_order order then some (none, zs) else alloc_loop order zs

-- `page_alloc`: the address of the block, 0 if there is none.
pub page_alloc : ℕ → List Zone → Option (ℕ × List Zone)
unfolding alloc_loop
page_alloc order zs = if ltb max_order order then some (0, zs) else (do
  (r, zs') ← alloc_loop order zs
  elim r [ none ↦ some (0, zs') | some index ↦ some (index * page_size % 2 ^ 64, zs') ])

-- `page_free`
pub page_free : (addr order : ℕ) → List Zone → Option (List Zone)
unfolding at_zone
page_free addr order zs =
    if addr == 0
    then some zs
    else at_zone (addr / page_size) (λ z. page_free_zone z (addr / page_size) order) zs

-- `__page_free`
pub free_page : Option ℕ → ℕ → List Zone → Option (List Zone)
unfolding at_zone
free_page none order zs = some zs
free_page (some page) order zs = at_zone page (λ z. page_free_zone z page order) zs
