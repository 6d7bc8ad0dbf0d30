-- ===== src/FileSystem/Blocks.antt =====
-- src/file_system.c: the blocks of files, and reading and writing their chains. Addresses and sizes
-- are of 64 bits and wrap around.
pub mod Chain
mod Written
mod Obtained
pub mod RoundTrip
pub mod Setup
use files_co.Base.{
  ℕ, zero, suc, ◌+◌, ◌-◌, ◌*◌, ◌%◌, ◌^◌, Bool, true, false, not, List, [], ◌∷◌, Option, none, some,
  if◌then◌else◌, ◌==◌, ltb, update, ◌>>=◌,
}
use files_co.StringOps.{Memory, memcpy}

abbrev pub fs_block_size : ℕ
fs_block_size = 512

-- The descriptors of blocks by their addresses, `fs_descriptors_head`, and memory; 0 is NULL.
pub record Blocks : Type 0 where
  pub next : ℕ → ℕ
  pub prev : ℕ → ℕ
  pub data_ptr : ℕ → ℕ
  pub head : ℕ
  pub memory : Memory

-- The part of `struct fs_node` that is about the bytes of a file.
pub record Contents : Type 0 where
  pub list_head : ℕ
  pub size : ℕ
  pub opened : Bool

-- One round of `allocate_fs_blocks`, with what the two calls of `mem_alloc` give
unfoldable pub add_descriptor : (descriptor block : ℕ) → Blocks → Blocks
add_descriptor descriptor block fs =
    let prev = update fs.prev descriptor 0 in
    record fs {
      prev = if fs.head == 0 then prev else update prev fs.head descriptor;
      next = update fs.next descriptor fs.head;
      data_ptr = update fs.data_ptr descriptor block;
      head = descriptor;
    }

-- `allocate_fs_blocks`, for what `mem_alloc` gives in its rounds
unfoldable pub add_descriptors : List (ℕ × ℕ) → Blocks → Blocks
unfolding add_descriptor
add_descriptors [] fs = fs
add_descriptors ((descriptor, block) ∷ rest) fs =
    add_descriptors rest (add_descriptor descriptor block fs)

unfoldable pub allocate_fs_blocks : List (ℕ × ℕ) → Blocks → Blocks
unfolding add_descriptors
allocate_fs_blocks given fs = add_descriptors given (record fs { head = 0 })

-- `get_fs_block`: the link of the block that is taken is left as it was. `none` is a BUG.
unfoldable pub get_fs_block : Blocks → Option (ℕ × Blocks)
get_fs_block fs =
    let res = fs.head in
    let head = fs.next res in
    if res == 0
    then none
    else some (
      res,
      record fs { head = head; prev = if head == 0 then fs.prev else update fs.prev head 0 },
    )

-- `if (block->next_ == NULL) …` of `write_to_block`
unfoldable pub next_block : ℕ → Blocks → Option Blocks
next_block block fs =
    if fs.next block == 0
    then (do
      (new, fs) ← get_fs_block fs
      some (record fs { next = update fs.next block new; prev = update fs.prev new block }))
    else some fs

-- Arithmetic of 64 bits
abbrev pub add_64 : ℕ → ℕ → ℕ
add_64 a b = (a + b) % 2 ^ 64

abbrev pub sub_64 : ℕ → ℕ → ℕ
sub_64 a b = (a + 2 ^ 64 - b) % 2 ^ 64

abbrev pub lower : ℕ → ℕ → ℕ
lower a b = if ltb a b then a else b

-- The loops that copy bytes, `rounds` of them
unfoldable pub copy_bytes : (to from rounds : ℕ) → Blocks → Blocks
copy_bytes to from rounds fs = record fs { memory = memcpy to from rounds fs.memory }

-- The rounds of the loop of `write_to_block`, and of that of `read_from_block`
unfoldable pub write_rounds : (offset source size : ℕ) → ℕ
write_rounds offset source size =
    lower (add_64 source size) (sub_64 (source + fs_block_size) offset) - source

unfoldable pub read_rounds : (offset dest size left : ℕ) → ℕ
read_rounds offset dest size left =
    lower (lower (add_64 dest size) (sub_64 (dest + fs_block_size) offset)) (add_64 dest left)
    - dest

-- `write_to_block`; `none` is a BUG, or no fuel. Fuel is used up by each block of the chain.
unfoldable pub write_to_block : (fuel block offset source size : ℕ) → Blocks → Option Blocks
write_to_block zero block offset source size fs = none
write_to_block (suc fuel) block offset source size fs =
    let rounds = write_rounds offset source size in
    do
      fs ← elim (ltb fs_block_size offset) [
        | true ↦ (do
          fs ← next_block block fs
          write_to_block fuel (fs.next block) (offset - fs_block_size) source size fs)
        | false ↦ some fs
      ]
      let fs = copy_bytes (add_64 (fs.data_ptr block) offset) source rounds fs
      elim (ltb (source + rounds) (add_64 source size)) [
        | true ↦ (do
          fs ← next_block block fs
          write_to_block fuel (fs.next block) 0 (source + rounds) (sub_64 size fs_block_size) fs)
        | false ↦ some fs
      ]

-- The block that `write` starts at
unfoldable pub start_block : Contents → Blocks → Option (ℕ × Blocks)
start_block node fs = if node.list_head == 0 then get_fs_block fs else some (node.list_head, fs)

-- The size of the file behind a write
unfoldable pub grown : (old end : ℕ) → ℕ
grown old end = if ltb old end then end else old

-- `write`
unfoldable pub write :
    (fuel : ℕ) → Contents → (offset source size : ℕ) → Blocks → Option (Contents × Blocks)
write fuel node offset source size fs = if not node.opened then none else (do
  (block, fs) ← start_block node fs
  fs ← write_to_block fuel block offset source size fs
  some (record node { size = grown node.size (add_64 offset size); list_head = block }, fs))

-- `read_from_block`, with the new value of `bytes_read`; `none` is no fuel.
unfoldable pub read_from_block :
    (fuel block offset dest size left bytes_read : ℕ) → Blocks → Option (ℕ × Blocks)
read_from_block zero block offset dest size left bytes_read fs = none
read_from_block (suc fuel) block offset dest size left bytes_read fs =
    let rounds = read_rounds offset dest size left in
    let fs' = copy_bytes dest (add_64 (fs.data_ptr block) offset) rounds fs in
    elim (block == 0) [
      | true ↦ some (bytes_read, fs)
      | false ↦ elim (ltb fs_block_size offset) [
        | true ↦
            read_from_block fuel (fs.next block) (offset - fs_block_size) dest size
              (sub_64 left fs_block_size) bytes_read fs
        | false ↦ elim (ltb (dest + rounds) (add_64 dest size)) [
          | true ↦
              read_from_block fuel (fs.next block) 0 (dest + rounds) (sub_64 size fs_block_size)
                (sub_64 left fs_block_size) (add_64 bytes_read rounds) fs'
          | false ↦ some (add_64 bytes_read rounds, fs')
        ]
      ]
    ]

-- `read`
unfoldable pub read : (fuel : ℕ) → Contents → (offset dest size : ℕ) → Blocks → Option (ℕ × Blocks)
read fuel node offset dest size fs =
    if not node.opened
    then none
    else read_from_block fuel node.list_head offset dest size node.size 0 fs
