-- ===== src/Balloc/Setup/Reserved.antt =====
-- What `balloc_setup` of src/balloc.c leaves free.
use files_co.Base.{
  ℕ, zero, suc, ◌+◌, ◌*◌, ◌^◌, ◌≤◌, ◌<◌, ◌≡◌, ◌∙◌, refl, ap, Bool, true, false, not, ◌&&◌, ◌||◌,
  List, [], ◌∷◌, some, Bool-cases, inl, inr, ◌==◌, leb, length, arith,
}
use files_co.Base.Bits.{test_bit}
use native.Mathlib.Nat.{mod-eq_of_lt}
use files_co.StringOps.{Memory}
use files_co.Balloc.Ranges.{within, covers, IsSeparate, IsAbove}
use files_co.Balloc.Added.{add_range-Changed}
use files_co.Balloc.Removed.{remove_range-Changed}
use files_co.Balloc.Setup.{
  MbootInfo, MmapEntry, entry_at, mmap_entries, State, balloc_setup_nodes, add_both, remove_free,
  entry_end, add_entries, reserve_entries, balloc_parse_mmap, balloc_setup,
}

pub record IsReady (st : State) : Type 0 where
  pub known : IsSeparate st.memory_map
  pub free : IsSeparate st.free_ranges

-- After an operation that takes `cost` nodes at most, with what is free then
record Next (cost : ℕ) (st : State) (st' : State) : Type 0 where
  ready : IsReady st'
  nodes : st.spare ≤ st'.spare + cost

add_both-Next :
    (begin end : ℕ) (st : State)
    → IsReady st
    → begin ≤ end
    → 2 ≤ st.spare
    → (st' : State) × (add_both begin end st ≡ some st') × Next 2 st st'
unfolding add_both
add_both-Next begin end st k h s =
    let ((s₁, mm), e, c) =
      add_range-Changed begin end st.spare st.memory_map k.known h (omega arith) in
    let ((s₂, fr), e', c') =
      add_range-Changed begin end s₁ st.free_ranges k.free h (omega (arith, c.room)) in
    rw (e, e')
      (
        record { spare = s₂; memory_map = mm; free_ranges = fr },
        refl,
        record {
          ready = record { known = c.separate; free = c'.separate };
          nodes = omega (arith, c.room, c'.room);
        },
      )

remove_free-Next :
    (begin end : ℕ) (st : State)
    → IsReady st
    → begin < end
    → 2 ≤ st.spare
    → (st' : State) × (remove_free begin end st ≡ some st')
      × Next 1 st st'
      × ((x : ℕ) → covers st'.free_ranges x ≡ (covers st.free_ranges x && not (within begin end x)))
unfolding remove_free
remove_free-Next begin end st k h s =
    let ((s₁, fr), e, c) = remove_range-Changed begin end st.spare st.free_ranges k.free h s in
    rw e (
      record st { spare = s₁; free_ranges = fr },
      refl,
      record {
        ready = record { known = k.known; free = c.separate };
        nodes = omega (arith, c.room);
      },
      c.cover,
    )

-- Entries whose end does not wrap around; those that are not free memory have bytes.
unfoldable pub AllSound : List MmapEntry → Type 0
AllSound [] = Unit {0}
AllSound (e ∷ es) =
    (e.addr + e.length < 2 ^ 64) × ((e.type == 1) ≡ false → 1 ≤ e.length) × AllSound es

-- An entry that is not free memory has the byte `x`.
unfoldable pub reserved : List MmapEntry → ℕ → Bool
unfolding within
reserved [] x = false
reserved (e ∷ es) x = (not (e.type == 1) && within e.addr (e.addr + e.length) x) || reserved es x

entry_end_lem : (e : MmapEntry) → e.addr + e.length < 2 ^ 64 → entry_end e ≡ e.addr + e.length
entry_end_lem e h = mod-eq_of_lt {n = e.addr + e.length} {m = 2 ^ 64} h

add_entries-Next :
    (es : List MmapEntry) (st : State)
    → IsReady st
    → AllSound es
    → 2 * length es + 2 ≤ st.spare
    → (st' : State) × (add_entries es st ≡ some st') × Next (2 * length es) st st'
unfolding add_entries AllSound
add_entries-Next [] st k h s = (st, refl, record { ready = k; nodes = omega arith })
add_entries-Next (e ∷ es) st k (h, _, hs) s =
    let (st₁, run, n) = add_both-Next e.addr (e.addr + e.length) st k (omega arith) (omega arith) in
    let (st₂, run', n') = add_entries-Next es st₁ n.ready hs (omega (arith, n.nodes)) in
    (
      st₂,
      rw (entry_end_lem e h, run) run',
      record { ready = n'.ready; nodes = omega (arith, n.nodes, n'.nodes) },
    )

reserve_entries-Next :
    (es : List MmapEntry) (st : State)
    → IsReady st
    → AllSound es
    → length es + 2 ≤ st.spare
    → (st' : State) × (reserve_entries es st ≡ some st')
      × Next (length es) st st'
      × ((x : ℕ) → covers st'.free_ranges x ≡ (covers st.free_ranges x && not (reserved es x)))
unfolding reserve_entries AllSound reserved
reserve_entries-Next [] st k h s =
    (st, refl, record { ready = k; nodes = omega arith }, λ x. and_true (covers st.free_ranges x))
  where
    and_true : (c : Bool) → c ≡ (c && true)
    and_true c = ground arith
reserve_entries-Next (e ∷ es) st k (h, p, hs) s = elim (Bool-cases (e.type == 1)) [
  | inl y ↦
      let (st₂, run', n', c') = reserve_entries-Next es st k hs (omega arith) in
      rw (y, reserve_entries)
        (st₂, run', record { ready = n'.ready; nodes = omega (arith, n'.nodes) }, c')
  | inr f ↦
      let (st₁, run, n, c) =
        remove_free-Next e.addr (e.addr + e.length) st k (omega (arith, p f)) (omega arith) in
      let (st₂, run', n', c') = reserve_entries-Next es st₁ n.ready hs (omega (arith, n.nodes)) in
      rw (f, entry_end_lem e h, run, reserve_entries)
        (
          st₂,
          run',
          record { ready = n'.ready; nodes = omega (arith, n.nodes, n'.nodes) },
          λ x.
              c' x
              ∙ ap (λ b. b && not (reserved es x)) (c x)
              ∙ and_not (covers st.free_ranges x) (within e.addr (e.addr + e.length) x)
                  (reserved es x),
        )
]
  where
    and_not : (c w r : Bool) → ((c && not w) && not r) ≡ (c && not (w || r))
    and_not c w r = ground arith

-- The walk over the entries comes to its end: each is four bytes long at least.
pub mmap_entries_total :
    (fuel : ℕ) (m : Memory) (ptr end : ℕ)
    → end < ptr + fuel
    → (es : List MmapEntry) × (mmap_entries fuel m ptr end ≡ some es)
unfolding mmap_entries
mmap_entries_total zero m ptr end h =
    let e : leb (ptr + 24) end ≡ false = ground arith in ([], rw e refl)
mmap_entries_total (suc fuel) m ptr end h = elim (Bool-cases (leb (ptr + 24) end)) [
  | inr n ↦ rw (n, mmap_entries) ([], refl)
  | inl y ↦
      let (es, e) = mmap_entries_total fuel m (ptr + (entry_at m ptr).size + 4) end (omega arith) in
      rw (y, mmap_entries, e) (entry_at m ptr ∷ es, refl)
]

-- For a memory map of at most 40 sound entries, a kernel and an initial file system that are not
-- empty, `balloc_setup` returns: both trees are in order, and no byte of an entry that is not free
-- memory, of the kernel or of the initial file system is left among the free ranges.
pub balloc_setup-Reserved :
    (kbegin kend : ℕ) (init_module : ℕ × ℕ) (info : MbootInfo) (m : Memory) (es : List MmapEntry)
    → test_bit info.flags 6 ≡ true
    → mmap_entries (info.mmap_size + 1) m info.mmap_addr (info.mmap_addr + info.mmap_size) ≡ some es
    → AllSound es
    → length es ≤ 40
    → kbegin < kend
    → init_module.0 < init_module.1
    → (st : State) × (balloc_setup kbegin kend init_module info m ≡ some st)
      × IsReady st
      × ((x : ℕ)
          → (covers st.free_ranges x
              && (reserved es x || within init_module.0 init_module.1 x || within kbegin kend x))
            ≡ false)
unfolding balloc_setup balloc_parse_mmap
balloc_setup-Reserved kbegin kend init_module info m es b e hs l hk hi =
    let start : IsReady balloc_setup_nodes =
      unfold IsSeparate in unfold IsAbove in record { known = tt; free = tt } in
    let (st₁, r₁, n₁) = add_entries-Next es balloc_setup_nodes start hs (omega arith) in
    let (st₂, r₂, n₂) =
      add_both-Next kbegin kend st₁ n₁.ready (omega arith) (omega (arith, n₁.nodes)) in
    let (st₃, r₃, n₃, c₃) =
      reserve_entries-Next es st₂ n₂.ready hs (omega (arith, n₁.nodes, n₂.nodes)) in
    let (st₄, r₄, n₄, c₄) =
      remove_free-Next init_module.0 init_module.1 st₃ n₃.ready hi
        (omega (arith, n₁.nodes, n₂.nodes, n₃.nodes)) in
    let (st₅, r₅, n₅, c₅) =
      remove_free-Next kbegin kend st₄ n₄.ready hk
        (omega (arith, n₁.nodes, n₂.nodes, n₃.nodes, n₄.nodes)) in
    rw (b, e, r₁, r₂, r₃, r₄)
      (
        st₅,
        r₅,
        n₅.ready,
        λ x.
            taken (covers st₂.free_ranges x) (reserved es x) (within init_module.0 init_module.1 x)
              (within kbegin kend x) (covers st₅.free_ranges x)
              (c₅ x
                ∙ ap (λ c. c && not (within kbegin kend x))
                    (c₄ x ∙ ap (λ c. c && not (within init_module.0 init_module.1 x)) (c₃ x))),
      )
  where
    taken :
        (c r i k d : Bool) → d ≡ (((c && not r) && not i) && not k) → (d && (r || i || k)) ≡ false
    taken c r i k d h = ground arith
