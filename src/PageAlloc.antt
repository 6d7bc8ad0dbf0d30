-- ===== src/PageAlloc.antt =====
-- src/memory.c and inc/memory.h: the page allocator, a buddy system.
--
-- A `struct page *` is the frame number of its page, `zone->begin + (page - zone->pages)`. A
-- zone keeps the word `flags` of each page, and each of its lists `order[o]` as the frame numbers
-- on it: LinkedList shows that the circular lists of list.c are such sequences. The spinlocks and
-- the masking of interrupts around these functions are not part of this model. `none` stands for
-- a failed BUG_ON, and for a `list_del` of a page that is not on its list.
pub mod Alloc
pub mod Blocks
pub mod Flags
pub mod Setup
mod Tests
pub mod Zones
pub mod Free
pub mod Join
pub mod Merge
pub mod InHand
pub mod Invariant
pub mod Split
use files_co.Base.{
  ℕ, zero, suc, ◌+◌, ◌-◌, ◌*◌, ◌/◌, ◌%◌, ◌^◌, Bool, true, false, not, ◌&&◌, ◌||◌, Option, none,
  some, ◌==◌, ltb, leb, if◌then◌else◌, List, [], ◌∷◌, ◌++◌, has, update, erase, ◌>>=◌,
}
use files_co.Base.Bits.{flip_bit}
use Flags.{page_order, page_set_order, page_is_free, page_set_free, page_set_busy}

abbrev pub max_order : ℕ
max_order = 18

abbrev pub page_shift : ℕ
page_shift = 12

abbrev pub page_size : ℕ
page_size = 2 ^ page_shift

-- `struct page_alloc_zone`
pub record Zone : Type 0 where
  pub begin : ℕ
  pub end : ℕ
  pub order : ℕ → List ℕ
  pub flags : ℕ → ℕ

-- `list_add(&page->ll, &zone->order[order]); page_set_order(page, order); page_set_free(page)`
pub put_free : Zone → ℕ → ℕ → Option Zone
put_free z page order = do
  f ← page_set_order (z.flags page) order
  some (record z {
    order = update z.order order (page ∷ z.order order);
    flags = update z.flags page (page_set_free f);
  })

-- `list_del(&page->ll)`, of a page on `zone->order[order]`
pub take_out : Zone → ℕ → ℕ → Option Zone
take_out z page order =
    if has page (z.order order)
    then some (record z { order = update z.order order (erase page (z.order order)) })
    else none

-- The search of `__page_alloc_zone` for a list that is not empty, from `current` on; `fuel` is
-- `max_order + 1 - current`, the number of lists left.
find_order : ℕ → ℕ → Zone → Option ℕ
find_order zero current z = none
find_order (suc fuel) current z =
    let rest = find_order fuel (current + 1) z in
    elim (z.order current) [ [] ↦ rest | page ∷ _ ↦ some current ]

-- `while (current != order)`, with `current` being `order + rounds`.
split : ℕ → (page order : ℕ) → Zone → Option Zone
split zero page order z = some z
split (suc rounds) page order z = do
  z ← put_free z (flip_bit page (order + rounds)) (order + rounds)
  split rounds page order z

-- `page = list_first(...); page_set_busy(page); list_del(&page->ll)` and the loop that splits
alloc_from : ℕ → ℕ → Zone → Option (Option ℕ × Zone)
unfolding split put_free
alloc_from current order z = elim (z.order current) [
  | [] ↦ none
  | page ∷ rest ↦ do
    z ← split (current - order) page order (record z {
      order = update z.order current rest;
      flags = update z.flags page (page_set_busy (z.flags page));
    })
    some (some page, z)
]

-- `__page_alloc_zone`: the block is `none` if no list has one.
pub page_alloc_zone : Zone → ℕ → Option (Option ℕ × Zone)
unfolding find_order alloc_from
page_alloc_zone z order = elim (find_order (max_order + 1 - order) order z) [
  | none ↦ some (none, z)
  | some current ↦ alloc_from current order z
]

-- The loop of `__page_free_zone`; `rounds` is `max_order - order`. It returns the merged block.
merge : ℕ → (page order : ℕ) → Zone → Option (ℕ × ℕ × Zone)
merge zero page order z = some (page, order, z)
merge (suc rounds) page order z =
    let buddy = flip_bit page order in
    let merged = take_out z buddy order >>= λ z'.
    merge rounds (if ltb buddy page then buddy else page) (order + 1) z' in
    if ltb buddy z.begin || leb z.end buddy
    then some (page, order, z)
    else if not (page_is_free (z.flags buddy)) || not (page_order (z.flags buddy) == order)
    then some (page, order, z)
    else merged

-- `__page_free_zone`
pub page_free_zone : Zone → (page order : ℕ) → Option Zone
unfolding merge put_free take_out
page_free_zone z page order =
    if not (page % 2 ^ order == 0)
    then none
    else (do (page, order, z) ← merge (max_order - order) page order z; put_free z page order)
