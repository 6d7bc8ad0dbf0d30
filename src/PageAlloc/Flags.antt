-- ===== src/PageAlloc/Flags.antt =====
-- The word `flags` of a `struct page`: the order of the block in bits 0 to 7, the free mark in bit
-- 8, and the bits of the page's user from bit 16 on.
use files_co.Base.{
  ℕ, ◌+◌, ◌-◌, ◌%◌, ◌≤◌, ◌≡◌, Bool, true, false, ltb, Option, none, some, if◌then◌else◌, arith,
}
use files_co.Base.Bits.{test_bit, set_bit, clear_bit}

abbrev pub page_free_offs : ℕ
page_free_offs = 8

abbrev pub page_order_mask : ℕ
page_order_mask = 0xff

abbrev pub page_user_offs : ℕ
page_user_offs = 16

unfoldable pub page_order : ℕ → ℕ
page_order flags = flags % (page_order_mask + 1)

-- `none` is the failed BUG_ON of an order that does not fit the mask.
unfoldable pub page_set_order : ℕ → ℕ → Option ℕ
page_set_order flags order =
    if ltb page_order_mask order then none else some (flags - flags % (page_order_mask + 1) + order)

unfoldable pub page_is_free : ℕ → Bool
page_is_free flags = test_bit flags page_free_offs

unfoldable pub page_set_free : ℕ → ℕ
page_set_free flags = set_bit flags page_free_offs

unfoldable pub page_set_busy : ℕ → ℕ
page_set_busy flags = clear_bit flags page_free_offs

unfoldable pub page_set_bit : ℕ → ℕ → ℕ
page_set_bit flags bit = set_bit flags (bit + page_user_offs)

unfoldable pub page_clear_bit : ℕ → ℕ → ℕ
page_clear_bit flags bit = clear_bit flags (bit + page_user_offs)

unfoldable pub page_test_bit : ℕ → ℕ → Bool
page_test_bit flags bit = test_bit flags (bit + page_user_offs)

-- A block that goes to a free list is marked with its order and as free, whatever its word held.
pub mark_free :
    (flags order : ℕ)
    → order ≤ page_order_mask
    → (f : ℕ) × (page_set_order flags order ≡ some f)
      × (page_order (page_set_free f) ≡ order)
      × (page_is_free (page_set_free f) ≡ true)
unfolding page_set_order page_order page_is_free page_set_free
mark_free flags order h = (flags - flags % 256 + order, ground arith, ground arith, ground arith)

pub page_is_free-set_busy :
    (flags : ℕ)
    → (page_is_free (page_set_busy flags) ≡ false)
      × (page_order (page_set_busy flags) ≡ page_order flags)
unfolding page_is_free page_set_busy page_order
page_is_free-set_busy flags = (ground arith, ground arith)
