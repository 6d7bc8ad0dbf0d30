-- ===== src/FileSystem/Blocks/RoundTrip.antt =====
-- `write` and `read` of src/file_system.c, from the start of a file.
use files_co.Base.{
  ℕ, ◌+◌, ◌*◌, ◌^◌, ◌≤◌, ◌<◌, ◌≡◌, ◌∙◌, ap, ◌≢◌, ◌⊎◌, refl, List, some, if◌then◌else◌, ◌==◌, arith,
  length, inl, inr, Bool, not, true, false, none, Bool-cases, update,
}
use files_co.StringOps.{Memory}
use files_co.FileSystem.Blocks.{
  Blocks, Contents, fs_block_size, get_fs_block, start_block, grown, write, read, add_64,
}
use files_co.FileSystem.Blocks.Chain.{IsChain, Clear, Separate, IsChain-some}
use files_co.FileSystem.Blocks.Written.{remember, IsWritten, write_to_block-IsWritten}
use files_co.FileSystem.Blocks.Obtained.{read_from_block-IsObtained}

-- Where the chain of a file starts, or will start.
unfoldable pub chain_start : Contents → Blocks → ℕ
chain_start node fs = if node.list_head == 0 then fs.head else node.list_head

-- The descriptors with another list of free blocks
abbrev taken : ℕ → (ℕ → ℕ) → Blocks → Blocks
taken head prev fs = record fs { head = head; prev = prev }

start_block-chain_start :
    (node : Contents) (fs : Blocks)
    → chain_start node fs ≢ 0
    → (head : ℕ) × (prev : ℕ → ℕ) × (start_block node fs
        ≡ some (chain_start node fs, taken head prev fs))
unfolding start_block chain_start get_fs_block
start_block-chain_start node fs ne = elim (Bool-cases (node.list_head == 0)) [
  | inl e ↦
      let at : fs.head ≢ 0 = rw e at ne in
      let there : (fs.head == 0) ≡ false = ground arith in
      (
        fs.next fs.head,
        if fs.next fs.head == 0 then fs.prev else update fs.prev (fs.next fs.head) 0,
        rw (e, there) refl,
      )
  | inr e ↦ (fs.head, fs.prev, rw e refl)
]

-- An open file, and a chain of blocks for it that has room for `size` bytes; the blocks are apart from
-- the area at `source`, and from that at `dest`.
pub record HasRoom (fuel : ℕ) (node : Contents) (fs : Blocks) (chain : List ℕ)
    (source dest size : ℕ) : Type 0 where
  pub is_open : node.opened ≡ true
  pub is_chain : IsChain fs.next (chain_start node fs) chain
  pub separate : Separate fs.data_ptr chain
  pub source_clear : Clear fs.data_ptr source size chain
  pub dest_clear : Clear fs.data_ptr dest size chain
  pub some_bytes : 0 < size
  pub room : size ≤ fs_block_size * length chain
  pub short : length chain ≤ fuel
  pub source_end : source + size + fs_block_size < 2 ^ 64
  pub dest_end : dest + size + node.size + fs_block_size < 2 ^ 64

guarded : {A : Type 0} → (b : Bool) (bug rest : A) → b ≡ true → (if not b then bug else rest) ≡ rest
guarded b bug rest e = rw e refl

write_lem :
    (fuel : ℕ) (node : Contents) (fs : Blocks) (chain : List ℕ) (source dest size : ℕ)
    → HasRoom fuel node fs chain source dest size
    → (head : ℕ) × (prev : ℕ → ℕ) × (m : Memory) × (write fuel node 0 source size fs
        ≡ some (
          record node { size = grown node.size size; list_head = chain_start node fs },
          remember m (taken head prev fs),
        ))
      × IsWritten fs.data_ptr chain source size fs.memory m
unfolding write
write_lem fuel node fs chain source dest size r =
    let (head, prev, start) = start_block-chain_start node fs (
      IsChain-some fs.next (chain_start node fs) chain r.is_chain
        (omega (arith, r.room, r.some_bytes))) in
    let (m, run, w) =
      write_to_block-IsWritten fuel (chain_start node fs) source size chain (taken head prev fs)
        r.short r.some_bytes r.room r.source_end r.is_chain r.separate r.source_clear in
    let end : add_64 0 size ≡ size = omega (arith, r.source_end) in
    (head, prev, m, guarded node.opened none _ r.is_open ∙ rw (start, run, end) refl, w)

-- For an open file whose chain of blocks, from its first block or else from that of the free list on,
-- already has room for `size` bytes, so that no block is added: the size is positive, the blocks share
-- no byte with each other or with the areas at `source` and `dest`, and no address wraps around. Then
-- `write` at the start of the file and `read` from it return, with fuel for each block: the number of
-- bytes is `size`, the bytes at `dest` are those that were at `source`, and memory is unchanged but for
-- these and the blocks of the chain.
pub read-write :
    (fuel : ℕ) (node : Contents) (fs : Blocks) (chain : List ℕ) (source dest size : ℕ)
    → HasRoom fuel node fs chain source dest size
    → (node' : Contents) × (fs' : Blocks) × (fs'' : Blocks) × (write fuel node 0 source size fs
        ≡ some (node', fs'))
      × (read fuel node' 0 dest size fs' ≡ some (size, fs''))
      × ((k : ℕ) → k < size → fs''.memory (dest + k) ≡ fs.memory (source + k))
      × ((a : ℕ)
          → (a < dest) ⊎ (dest + size ≤ a)
          → Clear fs.data_ptr a 1 chain
          → fs''.memory a ≡ fs.memory a)
unfolding read
read-write fuel node fs chain source dest size r =
    let (head, prev, m, run, w) = write_lem fuel node fs chain source dest size r in
    let fs' = remember m (taken head prev fs) in
    let all : 0 + size ≡ size = omega arith in
    let fits : size ≤ grown node.size size = unfold grown in ground arith in
    let bound : dest + grown node.size size + fs_block_size < 2 ^ 64 =
      unfold grown in ground (arith, r.dest_end) in
    let (m', run', g) =
      read_from_block-IsObtained fuel (chain_start node fs) dest size (grown node.size size) 0 chain
        fs' r.short r.some_bytes fits r.room bound (omega (arith, r.source_end)) r.is_chain
        r.separate r.dest_clear in
    (
      _,
      fs',
      remember m' fs',
      run,
      guarded node.opened none _ r.is_open ∙ run' ∙ ap (λ (t : ℕ). some (t, remember m' fs')) all,
      λ k lt. g.got k lt ∙ w.stored k lt,
      λ a o cl. g.kept a o ∙ w.kept a cl,
    )
