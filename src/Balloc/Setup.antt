-- ===== src/Balloc/Setup.antt =====
-- src/balloc.c: `balloc_setup`, from the memory map that the boot loader leaves in memory. The bounds
-- of the kernel's image and of the initial file system are arguments.
pub mod Reserved
mod Tests
use files_co.Base.{
  ℕ, zero, suc, ◌+◌, ◌*◌, ◌%◌, ◌^◌, Bool, true, false, List, [], ◌∷◌, Option, none, some, ◌>>=◌,
  leb, ◌==◌, if◌then◌else◌, not,
}
use files_co.Base.Bits.{test_bit}
use files_co.StringOps.{Memory}
use files_co.Balloc.{Range, add_range, remove_range}

-- `struct mboot_info` and `struct mboot_mmap_entry`
pub record MbootInfo : Type 0 where
  pub flags : ℕ
  pub mmap_size : ℕ
  pub mmap_addr : ℕ

pub record MmapEntry : Type 0 where
  pub size : ℕ
  pub addr : ℕ
  pub length : ℕ
  pub type : ℕ

-- A number of so many bytes, the lowest first
unfoldable pub number_at : (bytes : ℕ) → Memory → ℕ → ℕ
number_at zero m ptr = 0
number_at (suc bytes) m ptr = m ptr + 256 * number_at bytes m (ptr + 1)

unfoldable pub entry_at : Memory → ℕ → MmapEntry
unfolding number_at
entry_at m ptr = record {
  size = number_at 4 m ptr;
  addr = number_at 8 m (ptr + 4);
  length = number_at 8 m (ptr + 12);
  type = number_at 4 m (ptr + 20);
}

-- The entries that both loops of `balloc_parse_mmap` walk over; `none` if the fuel runs out.
unfoldable pub mmap_entries : (fuel : ℕ) → Memory → (ptr end : ℕ) → Option (List MmapEntry)
unfolding entry_at
mmap_entries zero m ptr end = if leb (ptr + 24) end then none else some []
mmap_entries (suc fuel) m ptr end =
    let rest = mmap_entries fuel m (ptr + (entry_at m ptr).size + 4) end in
    if leb (ptr + 24) end then (rest >>= λ es. some (entry_at m ptr ∷ es)) else some []

-- The state of the allocator: the free nodes and both trees
pub record State : Type 0 where
  pub spare : ℕ
  pub memory_map : List Range
  pub free_ranges : List Range

-- `balloc_setup_nodes`
abbrev pub balloc_setup_nodes : State
balloc_setup_nodes = record { spare = 128; memory_map = []; free_ranges = [] }

unfoldable pub add_both : (begin end : ℕ) → State → Option State
unfolding add_range
add_both begin end st = do
  (s, mm) ← add_range begin end st.spare st.memory_map
  (s', fr) ← add_range begin end s st.free_ranges
  some (record { spare = s'; memory_map = mm; free_ranges = fr })

unfoldable pub remove_free : (begin end : ℕ) → State → Option State
unfolding remove_range
remove_free begin end st = do
  (s, fr) ← remove_range begin end st.spare st.free_ranges
  some (record st { spare = s; free_ranges = fr })

-- `rend`
abbrev pub entry_end : MmapEntry → ℕ
entry_end e = (e.addr + e.length) % 2 ^ 64

unfoldable pub add_entries : List MmapEntry → State → Option State
unfolding add_both
add_entries [] st = some st
add_entries (e ∷ es) st = do st' ← add_both e.addr (entry_end e) st; add_entries es st'

unfoldable pub reserve_entries : List MmapEntry → State → Option State
unfolding remove_free
reserve_entries [] st = some st
reserve_entries (e ∷ es) st = do
  st' ← if e.type == 1 then some st else remove_free e.addr (entry_end e) st
  reserve_entries es st'

-- `balloc_parse_mmap`
unfoldable pub balloc_parse_mmap :
    (kbegin kend : ℕ) (init_module : ℕ × ℕ) → MbootInfo → Memory → State → Option State
unfolding add_entries reserve_entries mmap_entries
balloc_parse_mmap kbegin kend init_module info m st =
    let begin = info.mmap_addr in
    let end = begin + info.mmap_size in
    if not (test_bit info.flags 6) then none else do
      es ← mmap_entries (info.mmap_size + 1) m begin end
      known ← add_entries es st
      all ← add_both kbegin kend known
      free ← reserve_entries es all
      rest ← remove_free init_module.0 init_module.1 free
      remove_free kbegin kend rest

-- `balloc_setup`, less what it prints
unfoldable pub balloc_setup :
    (kbegin kend : ℕ) (init_module : ℕ × ℕ) → MbootInfo → Memory → Option State
unfolding balloc_parse_mmap
balloc_setup kbegin kend init_module info m =
    balloc_parse_mmap kbegin kend init_module info m balloc_setup_nodes
