-- ===== src/PageAlloc/Invariant.antt =====
-- What a zone of src/memory.c keeps true, for a client that holds the blocks `b`.
use files_co.Base.{
  ℕ, ◌+◌, ◌^◌, ◌≤◌, ◌<◌, ◌≡◌, Bool, true, false, ◌||◌, ◌&&◌, ◌==◌, if◌then◌else◌, has, Distinct,
}
use files_co.PageAlloc.{Zone, max_order}
use files_co.PageAlloc.Flags.{page_order, page_is_free}
use files_co.PageAlloc.Blocks.{IsAligned}

-- A set of blocks, each its first page and its order.
abbrev pub BlockSet : Type 0
BlockSet = ℕ → ℕ → Bool

abbrev pub insert : BlockSet → ℕ → ℕ → BlockSet
insert b i o j p = (j == i && p == o) || b j p

abbrev pub remove : BlockSet → ℕ → ℕ → BlockSet
remove b i o j p = if j == i && p == o then false else b j p

-- The block is on a free list, or the client has it.
abbrev pub Held : Zone → BlockSet → ℕ → ℕ → Type 0
Held z b i o = (has i (z.order o) || b i o) ≡ true

-- The blocks and the free lists.
pub record Geo (z : Zone) (b : BlockSet) : Type 0 where
  -- blocks lie in the zone and are aligned
  pub order_le : (i o : ℕ) → Held z b i o → o ≤ max_order
  pub begin_le : (i o : ℕ) → Held z b i o → z.begin ≤ i
  pub le_end : (i o : ℕ) → Held z b i o → i + 2 ^ o ≤ z.end
  pub aligned : (i o : ℕ) → Held z b i o → IsAligned i o
  -- no page is in two blocks
  pub apart :
      (i o j p : ℕ)
      → Held z b i o
      → Held z b j p
      → i < j + 2 ^ p
      → j < i + 2 ^ o
      → (i ≡ j) × (o ≡ p)
  -- the first page of a free block says so, and gives its order
  pub free_marked :
      (i o : ℕ)
      → has i (z.order o) ≡ true
      → (page_is_free (z.flags i) ≡ true) × (page_order (z.flags i) ≡ o)
  pub once : (o : ℕ) → Distinct (z.order o)
  -- a page that is marked free belongs to a block
  pub known :
      (i : ℕ)
      → z.begin ≤ i
      → i < z.end
      → page_is_free (z.flags i) ≡ true
      → (j : ℕ) × (p : ℕ) × Held z b j p × (j ≤ i) × (i < j + 2 ^ p)

-- The first page of a block that the client holds is not marked free.
pub record Inv (z : Zone) (b : BlockSet) : Type 0 where
  pub geo : Geo z b
  pub open geo use *
  pub busy_marked : (i o : ℕ) → b i o ≡ true → page_is_free (z.flags i) ≡ false

-- `b` has no block that starts at the page `i`.
abbrev pub Fresh : BlockSet → ℕ → Type 0
Fresh b i = (p : ℕ) → b i p ≡ false

-- No list has the page `i`.
abbrev pub Unlisted : Zone → ℕ → Type 0
Unlisted z i = (p : ℕ) → has i (z.order p) ≡ false
