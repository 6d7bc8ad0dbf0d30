-- ===== src/FileSystem/Blocks/Chain.antt =====
-- Chains of the blocks of src/file_system.c, and the places of their bytes.
use files_co.Base.{
  ℕ, ◌+◌, ◌-◌, ◌*◌, ◌^◌, ◌≤◌, ◌<◌, ◌≡◌, ◌≢◌, ◌⊎◌, List, [], ◌∷◌, if◌then◌else◌, ltb, arith, length,
  inl, inr, Bool-cases,
}
use files_co.FileSystem.Blocks.{fs_block_size}

-- Two areas of memory that share no byte
abbrev pub Apart : (a n b m : ℕ) → Type 0
Apart a n b m = (a + n ≤ b) ⊎ (b + m ≤ a)

-- The links lead from `block` along the blocks of the list, and maybe further.
unfoldable pub IsChain : (ℕ → ℕ) → ℕ → List ℕ → Type 0
IsChain next block [] = Unit {0}
IsChain next block (b ∷ rest) = (block ≡ b) × (b ≢ 0) × IsChain next (next b) rest

-- The bytes of the blocks are not in the area.
unfoldable pub Clear : (ℕ → ℕ) → (a n : ℕ) → List ℕ → Type 0
Clear data_ptr a n [] = Unit {0}
Clear data_ptr a n (b ∷ rest) = Apart (data_ptr b) fs_block_size a n × Clear data_ptr a n rest

-- The blocks share no byte, and none of them wraps around the end of memory.
unfoldable pub Separate : (ℕ → ℕ) → List ℕ → Type 0
unfolding Clear
Separate data_ptr [] = Unit {0}
Separate data_ptr (b ∷ rest) =
    (data_ptr b + fs_block_size < 2 ^ 64)
    × Clear data_ptr (data_ptr b) fs_block_size rest
    × Separate data_ptr rest

-- Where the byte `k` of the chain is.
unfoldable pub byte_at : (ℕ → ℕ) → List ℕ → ℕ → ℕ
byte_at data_ptr [] k = 0
byte_at data_ptr (b ∷ rest) k =
    if ltb k fs_block_size then data_ptr b + k else byte_at data_ptr rest (k - fs_block_size)

pub Clear-part :
    (data_ptr : ℕ → ℕ) (a n c m : ℕ) (chain : List ℕ)
    → a ≤ c
    → c + m ≤ a + n
    → Clear data_ptr a n chain
    → Clear data_ptr c m chain
unfolding Clear
Clear-part data_ptr a n c m [] h h' cl = tt
Clear-part data_ptr a n c m (b ∷ rest) h h' (ap, cl) =
    (omega arith, Clear-part data_ptr a n c m rest h h' cl)

-- A byte of a chain is not in an area that the chain is clear of.
pub byte_at-Clear :
    (data_ptr : ℕ → ℕ) (a n : ℕ) (chain : List ℕ) (k : ℕ)
    → Clear data_ptr a n chain
    → k < fs_block_size * length chain
    → (byte_at data_ptr chain k < a) ⊎ (a + n ≤ byte_at data_ptr chain k)
unfolding Clear byte_at
byte_at-Clear data_ptr a n [] k cl lt = absurd (omega arith)
byte_at-Clear data_ptr a n (b ∷ rest) k (ap, cl) lt = elim (Bool-cases (ltb k fs_block_size)) [
  | inl e ↦ let l : k < fs_block_size = ground arith in rw e (omega (arith, ap, l))
  | inr e ↦
      let l : fs_block_size ≤ k = ground arith in
      rw e (byte_at-Clear data_ptr a n rest (k - fs_block_size) cl (omega arith))
]

pub IsChain-some :
    (next : ℕ → ℕ) (block : ℕ) (chain : List ℕ)
    → IsChain next block chain
    → 0 < length chain
    → block ≢ 0
unfolding IsChain
IsChain-some next block [] c lt = absurd (omega arith)
IsChain-some next block (b ∷ rest) (here, b0, c) lt = rw here b0
