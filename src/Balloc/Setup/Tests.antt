-- ===== src/Balloc/Setup/Tests.antt =====
-- `balloc_setup` of src/balloc.c for a map of two entries at 100, free memory and a hole.
use files_co.Base.{ℕ, zero, suc, ◌-◌, ◌≡◌, refl, false, ◌&&◌, ◌||◌, List, [], ◌∷◌, some, arith}
use files_co.StringOps.{Memory}
use files_co.Balloc.Ranges.{within, covers}
use files_co.Balloc.Setup.{MbootInfo, MmapEntry, entry_at, mmap_entries, State, balloc_setup}
use files_co.Balloc.Setup.Reserved.{IsReady, AllSound, reserved, balloc_setup-Reserved}

abbrev byte_at : List ℕ → ℕ → ℕ
byte_at [] k = 0
byte_at (b ∷ bs) zero = b
byte_at (b ∷ bs) (suc k) = byte_at bs k

-- From 0 to 0x9000, and from 0x4000 to 0x5000
abbrev map_bytes : List ℕ
map_bytes =
    20 ∷ 0 ∷ 0 ∷ 0 ∷ 0 ∷ 0 ∷ 0 ∷ 0 ∷ 0 ∷ 0 ∷ 0 ∷ 0 ∷ 0 ∷ 0x90 ∷ 0 ∷ 0 ∷ 0 ∷ 0 ∷ 0 ∷ 0 ∷ 1 ∷ 0 ∷ 0
    ∷ 0 ∷ 20 ∷ 0 ∷ 0 ∷ 0 ∷ 0 ∷ 0x40 ∷ 0 ∷ 0 ∷ 0 ∷ 0 ∷ 0 ∷ 0 ∷ 0 ∷ 0x10 ∷ 0 ∷ 0 ∷ 0 ∷ 0 ∷ 0 ∷ 0 ∷ 2
    ∷ 0 ∷ 0 ∷ 0 ∷ []

abbrev loaded : Memory
loaded a = byte_at map_bytes (a - 100)

abbrev two_entries : MbootInfo
two_entries = record { flags = 64; mmap_size = 48; mmap_addr = 100 }

abbrev entries : List MmapEntry
entries =
    record { size = 20; addr = 0; length = 0x9000; type = 1 }
    ∷ record { size = 20; addr = 0x4000; length = 0x1000; type = 2 }
    ∷ []

map_is_read : mmap_entries 49 loaded 100 148 ≡ some entries
unfolding mmap_entries entry_at
map_is_read = refl

entries-AllSound : AllSound entries
unfolding AllSound
entries-AllSound = (omega arith, λ f. omega arith, (omega arith, λ f. omega arith, tt))

balloc_setup-Reserved_example :
    (st : State) × (balloc_setup 0x1000 0x2000 (0x6000, 0x7000) two_entries loaded ≡ some st)
    × IsReady st
    × ((x : ℕ)
        → (covers st.free_ranges x
            && (reserved entries x || within 0x6000 0x7000 x || within 0x1000 0x2000 x))
          ≡ false)
balloc_setup-Reserved_example =
    balloc_setup-Reserved 0x1000 0x2000 (0x6000, 0x7000) two_entries loaded entries refl map_is_read
      entries-AllSound (omega arith) (omega arith) (omega arith)
