-- ===== src/FileSystem/Blocks/Obtained.antt =====
-- Reading from the start of a chain, of src/file_system.c.
use files_co.Base.{
  ℕ, zero, suc, ◌+◌, ◌-◌, ◌*◌, ◌^◌, ◌≤◌, ◌<◌, ◌≡◌, ◌∙◌, ◌≢◌, ◌⊎◌, refl, List, [], ◌∷◌, some, ltb,
  leb, ◌==◌, arith, length, inl, inr, true, false, Bool-cases,
}
use files_co.StringOps.{Memory, memcpy}
use files_co.StringOps.Laws.{memcpy_lem}
use files_co.FileSystem.Blocks.{
  Blocks, fs_block_size, read_from_block, read_rounds, copy_bytes, add_64, sub_64,
}
use files_co.FileSystem.Blocks.Chain.{
  IsChain, Apart, Clear, Separate, byte_at, Clear-part, byte_at-Clear,
}
use files_co.FileSystem.Blocks.Written.{remember}

-- The `size` bytes at `dest` are the first of the chain, and no other byte is changed.
pub record IsObtained (data_ptr : ℕ → ℕ) (chain : List ℕ) (dest size : ℕ) (m m' : Memory)
    : Type 0 where
  pub got : (k : ℕ) → k < size → m' (dest + k) ≡ m (byte_at data_ptr chain k)
  pub kept : (a : ℕ) → (a < dest) ⊎ (dest + size ≤ a) → m' a ≡ m a

read_block_last :
    (fuel block dest size left n : ℕ) (fs : Blocks)
    → dest + left + fs_block_size < 2 ^ 64
    → fs.data_ptr block < 2 ^ 64
    → size ≤ left
    → size ≤ fs_block_size
    → block ≢ 0
    → n + size < 2 ^ 64
    → read_from_block (suc fuel) block 0 dest size left n fs
      ≡ some (n + size, copy_bytes dest (fs.data_ptr block) size fs)
unfolding read_from_block
read_block_last fuel block dest size left n fs h d sl le b0 c =
    let rounds : read_rounds 0 dest size left ≡ size = unfold read_rounds in ground arith in
    let stop : ltb (dest + size) (add_64 dest size) ≡ false = ground arith in
    let start : add_64 (fs.data_ptr block) 0 ≡ fs.data_ptr block = omega arith in
    let linked : (block == 0) ≡ false = ground arith in
    let count : add_64 n size ≡ n + size = omega arith in
    rw (linked, read_from_block, rounds, stop, rounds, start, count) refl

read_block_full :
    (fuel block dest size left n : ℕ) (fs : Blocks)
    → dest + left + fs_block_size < 2 ^ 64
    → fs.data_ptr block < 2 ^ 64
    → size ≤ left
    → fs_block_size < size
    → block ≢ 0
    → n + size < 2 ^ 64
    → read_from_block (suc fuel) block 0 dest size left n fs
      ≡ read_from_block fuel
          (fs.next block)
          0
          (dest + fs_block_size)
          (size - fs_block_size)
          (left - fs_block_size)
          (n + fs_block_size)
          (copy_bytes dest (fs.data_ptr block) fs_block_size fs)
unfolding read_from_block
read_block_full fuel block dest size left n fs h d sl lt b0 c =
    let rounds : read_rounds 0 dest size left ≡ fs_block_size =
      unfold read_rounds in ground arith in
    let go : ltb (dest + fs_block_size) (add_64 dest size) ≡ true = ground arith in
    let start : add_64 (fs.data_ptr block) 0 ≡ fs.data_ptr block = omega arith in
    let linked : (block == 0) ≡ false = ground arith in
    let count : add_64 n fs_block_size ≡ n + fs_block_size = omega arith in
    let less : sub_64 size fs_block_size ≡ size - fs_block_size = omega arith in
    let fewer : sub_64 left fs_block_size ≡ left - fs_block_size = omega arith in
    rw (linked, read_from_block, rounds, go, rounds, start, count, less, fewer) refl

last_IsObtained :
    (data_ptr : ℕ → ℕ) (b : ℕ) (rest : List ℕ) (dest size : ℕ) (m : Memory)
    → size ≤ fs_block_size
    → Apart (data_ptr b) fs_block_size dest size
    → IsObtained data_ptr (b ∷ rest) dest size m (memcpy dest (data_ptr b) size m)
unfolding byte_at
last_IsObtained data_ptr b rest dest size m le ap =
    let (copied, kept) = memcpy_lem dest (data_ptr b) size m (omega (arith, ap)) in
    record {
      got = λ k lt. (let e : ltb k fs_block_size ≡ true = ground arith in rw e (copied k lt));
      kept = kept;
    }

full_IsObtained :
    (data_ptr : ℕ → ℕ) (b : ℕ) (rest : List ℕ) (dest size : ℕ) (m m' : Memory)
    → fs_block_size < size
    → size ≤ fs_block_size * length (b ∷ rest)
    → Apart (data_ptr b) fs_block_size dest size
    → Clear data_ptr dest size rest
    → IsObtained data_ptr rest
        (dest + fs_block_size)
        (size - fs_block_size)
        (memcpy dest (data_ptr b) fs_block_size m)
        m'
    → IsObtained data_ptr (b ∷ rest) dest size m m'
unfolding byte_at
full_IsObtained data_ptr b rest dest size m m' gt fits ap cl w =
    let (copied, kept) = memcpy_lem dest (data_ptr b) fs_block_size m (omega (arith, ap)) in
    record {
      got = λ k lt. elim (Bool-cases (ltb k fs_block_size)) [
        | inl e ↦
            let l : k < fs_block_size = ground arith in
            rw e (w.kept (dest + k) (omega arith) ∙ copied k l)
        | inr e ↦
            let l : fs_block_size ≤ k = ground arith in
            let s : dest + fs_block_size + (k - fs_block_size) ≡ dest + k = omega arith in
            let out = byte_at-Clear data_ptr dest size rest (k - fs_block_size) cl (omega arith) in
            rw e (
              rw s at (w.got (k - fs_block_size) (omega arith))
              ∙ kept (byte_at data_ptr rest (k - fs_block_size)) (omega (arith, out)))
      ];
      kept = λ a o. w.kept a (omega (arith, o)) ∙ kept a (omega (arith, o));
    }

-- Reading `size` bytes from the start of a chain that is long enough, of a file with as many bytes,
-- gets them all, and changes no other memory.
pub read_from_block-IsObtained :
    (fuel block dest size left n : ℕ) (chain : List ℕ) (fs : Blocks)
    → length chain ≤ fuel
    → 0 < size
    → size ≤ left
    → size ≤ fs_block_size * length chain
    → dest + left + fs_block_size < 2 ^ 64
    → n + size < 2 ^ 64
    → IsChain fs.next block chain
    → Separate fs.data_ptr chain
    → Clear fs.data_ptr dest size chain
    → (m : Memory) × (read_from_block fuel block 0 dest size left n fs
        ≡ some (n + size, remember m fs))
      × IsObtained fs.data_ptr chain dest size fs.memory m
unfolding copy_bytes IsChain Separate Clear byte_at
read_from_block-IsObtained fuel block dest size left n [] fs f pos sl fits h nn c s cl =
    absurd (omega arith)
read_from_block-IsObtained zero block dest size left n (b ∷ rest) fs f pos sl fits h nn c s cl =
    absurd (omega arith)
read_from_block-IsObtained (suc fuel) block dest size left n (b ∷ rest) fs f pos sl fits h nn
      (here, b0, c) (d, own, s) (ap, cl) =
    rw here (elim (Bool-cases (leb size fs_block_size)) [
      | inl e ↦
          let le : size ≤ fs_block_size = ground arith in
          (
            memcpy dest (fs.data_ptr b) size fs.memory,
            read_block_last fuel b dest size left n fs h (omega arith) sl le b0 nn,
            last_IsObtained fs.data_ptr b rest dest size fs.memory le ap,
          )
      | inr e ↦
          let lt : fs_block_size < size = ground arith in
          let fs' = copy_bytes dest (fs.data_ptr b) fs_block_size fs in
          let (m, run, w) =
            read_from_block-IsObtained fuel (fs.next b) (dest + fs_block_size)
              (size - fs_block_size) (left - fs_block_size) (n + fs_block_size) rest fs'
              (omega arith) (omega arith) (omega arith) (omega arith) (omega arith) (omega arith) c
              s
              (Clear-part fs.data_ptr dest size (dest + fs_block_size) (size - fs_block_size) rest
                (omega arith) (omega arith) cl) in
          let all : n + fs_block_size + (size - fs_block_size) ≡ n + size = omega arith in
          (
            m,
            read_block_full fuel b dest size left n fs h (omega arith) sl lt b0 nn ∙ rw all at run,
            full_IsObtained fs.data_ptr b rest dest size fs.memory m lt fits ap cl w,
          )
    ])
