-- ===== src/FileSystem/Blocks/Setup.antt =====
-- `allocate_fs_blocks` of src/file_system.c.
use files_co.Base.{
  ℕ, ◌+◌, ◌^◌, ◌<◌, ◌≡◌, ◌≢◌, refl, List, [], ◌∷◌, true, false, ◌==◌, arith, length, has, update,
  update_self, update_other, Distinct, ◌∙◌,
}
use files_co.FileSystem.Blocks.{
  Blocks, fs_block_size, add_descriptor, add_descriptors, allocate_fs_blocks,
}
use files_co.FileSystem.Blocks.Chain.{IsChain, Clear, Separate}

-- The links end behind the chain with NULL.
unfoldable pub Ends : (ℕ → ℕ) → ℕ → List ℕ → Type 0
Ends next block [] = block ≡ 0
Ends next block (b ∷ rest) = Ends next (next b) rest

-- Each `prev_` link leads to the block before, that of the first block to `before`.
unfoldable pub AreLinkedBack : (ℕ → ℕ) → (before : ℕ) → List ℕ → Type 0
AreLinkedBack prev before [] = Unit {0}
AreLinkedBack prev before (b ∷ rest) = (prev b ≡ before) × AreLinkedBack prev b rest

-- The free blocks: the list leads along the chain to its end and back to NULL, and the blocks are
-- separate.
pub record IsFree (fs : Blocks) (chain : List ℕ) : Type 0 where
  pub chained : IsChain fs.next fs.head chain
  pub ends : Ends fs.next fs.head chain
  pub back : AreLinkedBack fs.prev 0 chain
  pub once : Distinct chain
  pub separate : Separate fs.data_ptr chain

-- What `mem_alloc` promises for each round: descriptors that are not in use, and blocks that share no
-- byte with the others.
unfoldable pub AreFresh : List (ℕ × ℕ) → List ℕ → Blocks → Type 0
unfolding add_descriptor
AreFresh [] chain fs = Unit {0}
AreFresh ((d, b) ∷ rest) chain fs =
    (d ≢ 0)
    × (has d chain ≡ false)
    × (b + fs_block_size < 2 ^ 64)
    × Clear fs.data_ptr b fs_block_size chain
    × AreFresh rest (d ∷ chain) (add_descriptor d b fs)

unfoldable pub chain_of : List (ℕ × ℕ) → List ℕ → List ℕ
chain_of [] chain = chain
chain_of ((d, b) ∷ rest) chain = chain_of rest (d ∷ chain)

not_first : (d c : ℕ) (rest : List ℕ) → has d (c ∷ rest) ≡ false → (c == d) ≡ false
not_first d c rest h = ground arith

not_rest : (d c : ℕ) (rest : List ℕ) → has d (c ∷ rest) ≡ false → has d rest ≡ false
not_rest d c rest h = ground arith

IsChain-update :
    (next : ℕ → ℕ) (d v block : ℕ) (chain : List ℕ)
    → has d chain ≡ false
    → IsChain next block chain
    → IsChain (update next d v) block chain
unfolding IsChain
IsChain-update next d v block [] h c = tt
IsChain-update next d v block (b ∷ rest) h (here, b0, c) =
    let ne = not_first d b rest h in
    (here, b0, rw ne (IsChain-update next d v (next b) rest (not_rest d b rest h) c))

Ends-update :
    (next : ℕ → ℕ) (d v block : ℕ) (chain : List ℕ)
    → has d chain ≡ false
    → Ends next block chain
    → Ends (update next d v) block chain
unfolding Ends
Ends-update next d v block [] h e = e
Ends-update next d v block (b ∷ rest) h e =
    rw (not_first d b rest h) (Ends-update next d v (next b) rest (not_rest d b rest h) e)

AreLinkedBack-update :
    (prev : ℕ → ℕ) (d v before : ℕ) (chain : List ℕ)
    → has d chain ≡ false
    → AreLinkedBack prev before chain
    → AreLinkedBack (update prev d v) before chain
unfolding AreLinkedBack
AreLinkedBack-update prev d v before [] h l = tt
AreLinkedBack-update prev d v before (b ∷ rest) h (e, l) =
    (rw (not_first d b rest h) e, AreLinkedBack-update prev d v b rest (not_rest d b rest h) l)

AreLinkedBack-along :
    (prev prev' : ℕ → ℕ) (chain : List ℕ)
    → prev ≡ prev'
    → AreLinkedBack prev' 0 chain
    → AreLinkedBack prev 0 chain
AreLinkedBack-along prev prev' chain e l = rw e l

put_before-AreLinkedBack :
    (d c : ℕ) (prev : ℕ → ℕ) (rest : List ℕ)
    → has d (c ∷ rest) ≡ false
    → has c rest ≡ false
    → AreLinkedBack prev c rest
    → AreLinkedBack (update (update prev d 0) c d) 0 (d ∷ c ∷ rest)
unfolding AreLinkedBack
put_before-AreLinkedBack d c prev rest h once l =
    let ne : (d == c) ≡ false = ground arith in
    let p = update prev d 0 in
    (
      update_other p c d d ne ∙ update_self prev d 0,
      (
        update_self p c d,
        AreLinkedBack-update p c d c rest once
            (AreLinkedBack-update prev d 0 c rest (not_rest d c rest h) l),
      ),
    )

-- The links back once the block `d` stands before the chain
add_descriptor-AreLinkedBack :
    (d b : ℕ) (fs : Blocks) (chain : List ℕ)
    → has d chain ≡ false
    → IsFree fs chain
    → AreLinkedBack (add_descriptor d b fs).prev 0 (d ∷ chain)
unfolding add_descriptor IsChain AreLinkedBack Ends
add_descriptor-AreLinkedBack d b fs [] h i =
    let e : (fs.head == 0) ≡ true = ground (arith, i.ends) in rw e (update_self fs.prev d 0, tt)
add_descriptor-AreLinkedBack d b fs (c ∷ rest) h i =
    let (here, c0, more) = i.chained in
    let e : (fs.head == 0) ≡ false = rw here (ground arith) in
    let written : (add_descriptor d b fs).prev ≡ update (update fs.prev d 0) c d =
      rw (e, here) refl in
    AreLinkedBack-along (add_descriptor d b fs).prev (update (update fs.prev d 0) c d)
      (d ∷ c ∷ rest) written (put_before-AreLinkedBack d c fs.prev rest h i.once.0 i.back.1)

Clear-update :
    (data_ptr : ℕ → ℕ) (d v a n : ℕ) (chain : List ℕ)
    → has d chain ≡ false
    → Clear data_ptr a n chain
    → Clear (update data_ptr d v) a n chain
unfolding Clear
Clear-update data_ptr d v a n [] h c = tt
Clear-update data_ptr d v a n (b ∷ rest) h (ap, c) =
    let ne = not_first d b rest h in
    (rw ne ap, Clear-update data_ptr d v a n rest (not_rest d b rest h) c)

Separate-update :
    (data_ptr : ℕ → ℕ) (d v : ℕ) (chain : List ℕ)
    → has d chain ≡ false
    → Separate data_ptr chain
    → Separate (update data_ptr d v) chain
unfolding Separate
Separate-update data_ptr d v [] h s = tt
Separate-update data_ptr d v (b ∷ rest) h (e, cl, s) =
    let ne = not_first d b rest h in
    (
      rw ne e,
      rw ne (Clear-update data_ptr d v (data_ptr b) fs_block_size rest (not_rest d b rest h) cl),
      Separate-update data_ptr d v rest (not_rest d b rest h) s,
    )

add_descriptor-IsFree :
    (d b : ℕ) (fs : Blocks) (chain : List ℕ)
    → d ≢ 0
    → has d chain ≡ false
    → b + fs_block_size < 2 ^ 64
    → Clear fs.data_ptr b fs_block_size chain
    → IsFree fs chain
    → IsFree (add_descriptor d b fs) (d ∷ chain)
unfolding add_descriptor IsChain Separate Ends
add_descriptor-IsFree d b fs chain d0 h e cl i =
    let at = update_self fs.data_ptr d b in
    record {
      chained = (
        refl,
        d0,
        rw (update_self fs.next d fs.head)
            (IsChain-update fs.next d fs.head fs.head chain h i.chained),
      );
      ends =
          rw (update_self fs.next d fs.head) (Ends-update fs.next d fs.head fs.head chain h i.ends);
      back = add_descriptor-AreLinkedBack d b fs chain h i;
      once = (h, i.once);
      separate = (
        rw at e,
        rw at (Clear-update fs.data_ptr d b b fs_block_size chain h cl),
        Separate-update fs.data_ptr d b chain h i.separate,
      );
    }

add_descriptors-IsFree :
    (given : List (ℕ × ℕ)) (fs : Blocks) (chain : List ℕ)
    → AreFresh given chain fs
    → IsFree fs chain
    → IsFree (add_descriptors given fs) (chain_of given chain)
unfolding add_descriptors AreFresh chain_of
add_descriptors-IsFree [] fs chain f i = i
add_descriptors-IsFree ((d, b) ∷ rest) fs chain (d0, h, e, cl, f) i =
    add_descriptors-IsFree rest (add_descriptor d b fs) (d ∷ chain) f
      (add_descriptor-IsFree d b fs chain d0 h e cl i)

length-chain_of :
    (given : List (ℕ × ℕ)) (chain : List ℕ)
    → length (chain_of given chain) ≡ length given + length chain
unfolding chain_of
length-chain_of [] chain = omega arith
length-chain_of ((d, b) ∷ rest) chain = omega (arith, length-chain_of rest (d ∷ chain))

-- Where `mem_alloc` gives new descriptors and blocks, `allocate_fs_blocks` leaves a list of separate
-- free blocks, one for each round, linked both ways and ended by NULL.
pub allocate_fs_blocks-IsFree :
    (given : List (ℕ × ℕ)) (fs : Blocks)
    → AreFresh given [] (record fs { head = 0 })
    → IsFree (allocate_fs_blocks given fs) (chain_of given [])
      × (length (chain_of given []) ≡ length given)
unfolding allocate_fs_blocks IsChain Separate Ends AreLinkedBack
allocate_fs_blocks-IsFree given fs f = (
  add_descriptors-IsFree given (record fs { head = 0 }) [] f
      (record { chained = tt; ends = refl; back = tt; once = tt; separate = tt }),
  omega (arith, length-chain_of given []),
)
