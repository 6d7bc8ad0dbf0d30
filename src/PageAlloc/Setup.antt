-- ===== src/PageAlloc/Setup.antt =====
-- `__page_alloc_zone_free` of src/memory.c: how the free memory is cut into blocks at boot.
pub mod Append
pub mod Populate
use files_co.Base.{
  ℕ, zero, suc, ◌+◌, ◌-◌, ◌*◌, ◌/◌, ◌%◌, ◌^◌, Bool, Option, none, some, ◌==◌, ltb, leb, ◌||◌,
  if◌then◌else◌, List, [], ◌∷◌, ◌++◌, update, ◌>>=◌,
}
use files_co.Base.Bits.{test_bit}
use files_co.PageAlloc.{Zone, max_order, page_shift, page_size}
use files_co.PageAlloc.Flags.{page_set_order, page_set_free}

-- The number of the first whole page from the address `zbegin` on, in 64-bit arithmetic.
unfoldable pub begin_page : ℕ → ℕ
begin_page zbegin = (zbegin + page_size - 1) % 2 ^ 64 / page_size

-- The number of the page that the address `zend` lies in.
unfoldable pub end_page : ℕ → ℕ
end_page zend = zend / page_size

-- The loop that finds the order of the largest block at `page`; `fuel` is `max_order - order`.
pub block_order : ℕ → (page end order : ℕ) → ℕ
block_order zero page end order = order
block_order (suc fuel) page end order =
    let next = block_order fuel page end (order + 1) in
    if test_bit page order then order else if ltb end (page + 2 ^ (order + 1)) then order else next

-- `list_add_tail(&ptr->ll, &zone->order[order]); page_set_order(ptr, order); page_set_free(ptr)`
pub put_free_tail : Zone → ℕ → ℕ → Option Zone
put_free_tail z page order = do
  f ← page_set_order (z.flags page) order
  some (record z {
    order = update z.order order (z.order order ++ page ∷ []);
    flags = update z.flags page (page_set_free f);
  })

-- `for (uintptr_t page = begin; page != end;)`; `none` also if the fuel runs out.
pub free_loop : ℕ → (page end : ℕ) → Zone → Option Zone
unfolding block_order put_free_tail
free_loop zero page end z = none
free_loop (suc fuel) page end z =
    let order = block_order max_order page end 0 in
    let rest = put_free_tail z page order >>= λ z'. free_loop fuel (page + 2 ^ order) end z' in
    if page == end then some z else rest

-- The body of `__page_alloc_zone_free` for the zone that it finds.
unfoldable pub zone_free : Zone → (zbegin zend : ℕ) → Option Zone
unfolding free_loop begin_page end_page
zone_free z zbegin zend =
    let begin = if begin_page zbegin == 0 then 1 else begin_page zbegin in
    let end = end_page zend in
    if leb end begin
    then some z
    else if ltb begin z.begin || leb z.end begin
    then none
    else if leb end z.begin || ltb z.end end
    then none
    else free_loop (end - begin + 1) begin end z

-- The zone that `__page_alloc_zone_setup` makes of a range of pages, with what its pages' words hold.
unfoldable pub new_zone : (begin end : ℕ) → (ℕ → ℕ) → Zone
new_zone begin end flags = record { begin = begin; end = end; order = λ _. []; flags = flags }
