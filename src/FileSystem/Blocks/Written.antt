-- ===== src/FileSystem/Blocks/Written.antt =====
-- Writing from the start of a chain, of src/file_system.c.
use files_co.Base.{
  ℕ, zero, suc, ◌+◌, ◌-◌, ◌*◌, ◌^◌, ◌≤◌, ◌<◌, ◌≡◌, ◌∙◌, ◌≢◌, refl, List, [], ◌∷◌, some, ltb, leb,
  ◌==◌, arith, length, inl, inr, true, false, Bool-cases,
}
use files_co.StringOps.{Memory, memcpy}
use files_co.StringOps.Laws.{memcpy_lem}
use files_co.FileSystem.Blocks.{
  Blocks, fs_block_size, write_to_block, write_rounds, copy_bytes, next_block, add_64, sub_64,
}
use files_co.FileSystem.Blocks.Chain.{
  IsChain, Apart, Clear, Separate, byte_at, Clear-part, IsChain-some,
}

-- The state with other memory
abbrev pub remember : Memory → Blocks → Blocks
remember m fs = record fs { memory = m }

-- The chain has the `size` bytes from `source` of the memory `m`, and no byte outside is changed.
pub record IsWritten (data_ptr : ℕ → ℕ) (chain : List ℕ) (source size : ℕ) (m m' : Memory)
    : Type 0 where
  pub stored : (k : ℕ) → k < size → m' (byte_at data_ptr chain k) ≡ m (source + k)
  pub kept : (a : ℕ) → Clear data_ptr a 1 chain → m' a ≡ m a

write_block_last :
    (fuel block source size : ℕ) (fs : Blocks)
    → source + size + fs_block_size < 2 ^ 64
    → fs.data_ptr block < 2 ^ 64
    → size ≤ fs_block_size
    → write_to_block (suc fuel) block 0 source size fs
      ≡ some (copy_bytes (fs.data_ptr block) source size fs)
unfolding write_to_block
write_block_last fuel block source size fs h d le =
    let rounds : write_rounds 0 source size ≡ size = unfold write_rounds in ground arith in
    let stop : ltb (source + size) (add_64 source size) ≡ false = ground arith in
    let start : add_64 (fs.data_ptr block) 0 ≡ fs.data_ptr block = omega arith in
    rw (rounds, stop, rounds, start) refl

write_block_full :
    (fuel block source size : ℕ) (fs : Blocks)
    → source + size + fs_block_size < 2 ^ 64
    → fs.data_ptr block < 2 ^ 64
    → fs_block_size < size
    → fs.next block ≢ 0
    → write_to_block (suc fuel) block 0 source size fs
      ≡ write_to_block fuel
          (fs.next block)
          0
          (source + fs_block_size)
          (size - fs_block_size)
          (copy_bytes (fs.data_ptr block) source fs_block_size fs)
unfolding write_to_block
write_block_full fuel block source size fs h d lt ne =
    let rounds : write_rounds 0 source size ≡ fs_block_size = unfold write_rounds in ground arith in
    let go : ltb (source + fs_block_size) (add_64 source size) ≡ true = ground arith in
    let start : add_64 (fs.data_ptr block) 0 ≡ fs.data_ptr block = omega arith in
    let linked : (fs.next block == 0) ≡ false = ground arith in
    let stay : next_block block (copy_bytes (fs.data_ptr block) source fs_block_size fs)
        ≡ some (copy_bytes (fs.data_ptr block) source fs_block_size fs) =
      unfold next_block copy_bytes in rw linked refl in
    let left : sub_64 size fs_block_size ≡ size - fs_block_size = omega arith in
    rw (rounds, go, rounds, start, stay, left) (unfold copy_bytes in refl)

last_IsWritten :
    (data_ptr : ℕ → ℕ) (b : ℕ) (rest : List ℕ) (source size : ℕ) (m : Memory)
    → size ≤ fs_block_size
    → Apart (data_ptr b) fs_block_size source size
    → IsWritten data_ptr (b ∷ rest) source size m (memcpy (data_ptr b) source size m)
unfolding Clear byte_at
last_IsWritten data_ptr b rest source size m le ap =
    let (copied, kept) = memcpy_lem (data_ptr b) source size m (omega (arith, ap)) in
    record {
      stored = λ k lt. (let e : ltb k fs_block_size ≡ true = ground arith in rw e (copied k lt));
      kept = λ a cl. kept a (omega (arith, cl.0));
    }

full_IsWritten :
    (data_ptr : ℕ → ℕ) (b : ℕ) (rest : List ℕ) (source size : ℕ) (m m' : Memory)
    → fs_block_size < size
    → size ≤ fs_block_size * length (b ∷ rest)
    → Apart (data_ptr b) fs_block_size source size
    → Clear data_ptr (data_ptr b) fs_block_size rest
    → IsWritten data_ptr rest
        (source + fs_block_size)
        (size - fs_block_size)
        (memcpy (data_ptr b) source fs_block_size m)
        m'
    → IsWritten data_ptr (b ∷ rest) source size m m'
unfolding Clear byte_at
full_IsWritten data_ptr b rest source size m m' gt fits ap own w =
    let (copied, kept) = memcpy_lem (data_ptr b) source fs_block_size m (omega (arith, ap)) in
    record {
      stored = λ k lt. elim (Bool-cases (ltb k fs_block_size)) [
        | inl e ↦
            let l : k < fs_block_size = ground arith in
            rw e (
              w.kept (data_ptr b + k) (
                Clear-part data_ptr (data_ptr b) fs_block_size (data_ptr b + k) 1 rest (omega arith)
                  (omega arith) own)
              ∙ copied k l)
        | inr e ↦
            let l : fs_block_size ≤ k = ground arith in
            let s : source + fs_block_size + (k - fs_block_size) ≡ source + k = omega arith in
            rw e (
              w.stored (k - fs_block_size) (omega arith)
              ∙ rw s (kept (source + k) (omega (arith, ap))))
      ];
      kept = λ a cl. w.kept a cl.1 ∙ kept a (omega (arith, cl.0));
    }

-- Writing `size` bytes from the start of a chain that is long enough stores them all, and changes
-- memory only.
pub write_to_block-IsWritten :
    (fuel block source size : ℕ) (chain : List ℕ) (fs : Blocks)
    → length chain ≤ fuel
    → 0 < size
    → size ≤ fs_block_size * length chain
    → source + size + fs_block_size < 2 ^ 64
    → IsChain fs.next block chain
    → Separate fs.data_ptr chain
    → Clear fs.data_ptr source size chain
    → (m : Memory) × (write_to_block fuel block 0 source size fs ≡ some (remember m fs))
      × IsWritten fs.data_ptr chain source size fs.memory m
unfolding copy_bytes IsChain Separate Clear byte_at
write_to_block-IsWritten fuel block source size [] fs f pos fits h c s cl = absurd (omega arith)
write_to_block-IsWritten zero block source size (b ∷ rest) fs f pos fits h c s cl =
    absurd (omega arith)
write_to_block-IsWritten (suc fuel) block source size (b ∷ rest) fs f pos fits h (here, b0, c)
      (d, own, s) (ap, cl) =
    rw here (elim (Bool-cases (leb size fs_block_size)) [
      | inl e ↦
          let le : size ≤ fs_block_size = ground arith in
          (
            memcpy (fs.data_ptr b) source size fs.memory,
            write_block_last fuel b source size fs h (omega arith) le ∙ refl,
            last_IsWritten fs.data_ptr b rest source size fs.memory le ap,
          )
      | inr e ↦
          let lt : fs_block_size < size = ground arith in
          let fs' = copy_bytes (fs.data_ptr b) source fs_block_size fs in
          let (m, run, w) =
            write_to_block-IsWritten fuel (fs.next b) (source + fs_block_size)
              (size - fs_block_size) rest fs' (omega arith) (omega arith) (omega arith)
              (omega arith) c s
              (Clear-part fs.data_ptr source size (source + fs_block_size) (size - fs_block_size)
                rest (omega arith) (omega arith) cl) in
          (
            m,
            write_block_full fuel b source size fs h (omega arith) lt
                  (IsChain-some fs.next (fs.next b) rest c (omega arith))
                ∙ run
                ∙ refl,
            full_IsWritten fs.data_ptr b rest source size fs.memory m lt fits ap own w,
          )
    ])
