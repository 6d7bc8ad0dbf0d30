-- ===== src/StringOps/Laws.antt =====
-- What strlen, memcpy and memset of src/string.c do.
use files_co.Base.{
  ℕ, zero, suc, ◌+◌, ◌%◌, ◌≤◌, ◌<◌, ◌≡◌, ◌≢◌, ◌⊎◌, refl, false, ◌&&◌, some, ◌==◌, leb, ltb,
  if◌then◌else◌, arith, inl,
}
use files_co.StringOps.{Memory, store, strlen_loop, strlen, memcpy, memset}

-- The text at `str` has `n` bytes, none of them 0, before its end.
pub record IsText (m : Memory) (str n : ℕ) : Type 0 where
  pub inside : (k : ℕ) → k < n → m (str + k) ≢ 0
  pub stop : m (str + n) ≡ 0

strlen_loop-IsText :
    (fuel n str : ℕ) (m : Memory)
    → IsText m str n
    → n < fuel
    → strlen_loop fuel str m ≡ some (str + n + 1)
unfolding strlen_loop
strlen_loop-IsText zero n str m t h = absurd (omega arith)
strlen_loop-IsText (suc fuel) zero str m t h =
    let e : str + 0 ≡ str = omega arith in let z : m str ≡ 0 = rw e at t.stop in ground arith
strlen_loop-IsText (suc fuel) (suc n) str m t h =
    let e : str + 0 ≡ str = omega arith in
    let z : m str ≢ 0 = rw e at (t.inside 0 (omega arith)) in
    let rest =
      strlen_loop-IsText fuel n (str + 1) m
        (record {
          inside = λ k lt.
              let e' : str + 1 + k ≡ str + suc k = omega arith in
              rw e' (t.inside (suc k) (omega arith));
          stop = let e' : str + 1 + n ≡ str + suc n = omega arith in rw e' t.stop;
        })
        (omega arith) in
    ground (arith, rest)

-- `strlen` counts the bytes before the end of a text, with fuel for one round more.
pub strlen-IsText :
    (fuel n str : ℕ) (m : Memory) → IsText m str n → n < fuel → strlen fuel str m ≡ some n
unfolding strlen
strlen-IsText fuel n str m t h = ground (arith, strlen_loop-IsText fuel n str m t h)

memcpy_outside :
    (dst src size : ℕ) (m : Memory) (a : ℕ)
    → (a < dst) ⊎ (dst + size ≤ a)
    → memcpy dst src size m a ≡ m a
unfolding memcpy
memcpy_outside dst src zero m a h = refl
memcpy_outside dst src (suc size) m a h =
    ground (arith, memcpy_outside (dst + 1) (src + 1) size (store dst (m src) m) a (omega arith))

memcpy_inside :
    (dst src size : ℕ) (m : Memory) (k : ℕ)
    → (dst ≤ src) ⊎ (src + size ≤ dst)
    → k < size
    → memcpy dst src size m (dst + k) ≡ m (src + k)
unfolding memcpy
memcpy_inside dst src zero m k h lt = absurd (omega arith)
memcpy_inside dst src (suc size) m zero h lt =
    let e : dst + 0 ≡ dst = omega arith in
    let e' : src + 0 ≡ src = omega arith in
    rw (e, e', memcpy_outside (dst + 1) (src + 1) size (store dst (m src) m) dst (inl le))
      (ground arith)
  where
    le : dst < dst + 1
    le = omega arith
memcpy_inside dst src (suc size) m (suc k) h lt =
    let ih =
      memcpy_inside (dst + 1) (src + 1) size (store dst (m src) m) k (omega arith) (omega arith) in
    let e : dst + 1 + k ≡ dst + suc k = omega arith in
    let e' : src + 1 + k ≡ src + suc k = omega arith in
    let ne : (src + suc k == dst) ≡ false = ground arith in rw (e, e', ne) at ih

-- `memcpy` copies `size` bytes and writes no other, where the areas do not overlap or the copy goes
-- down.
pub memcpy_lem :
    (dst src size : ℕ) (m : Memory)
    → (dst ≤ src) ⊎ (src + size ≤ dst)
    → ((k : ℕ) → k < size → memcpy dst src size m (dst + k) ≡ m (src + k))
      × ((a : ℕ) → (a < dst) ⊎ (dst + size ≤ a) → memcpy dst src size m a ≡ m a)
memcpy_lem dst src size m h =
    (λ k lt. memcpy_inside dst src size m k h lt, λ a o. memcpy_outside dst src size m a o)

-- `memset` writes the low byte of `fill` to `size` bytes, and writes no other.
pub memset_lem :
    (dst fill size : ℕ) (m : Memory) (a : ℕ)
    → memset dst fill size m a ≡ (if leb dst a && ltb a (dst + size) then fill % 256 else m a)
unfolding memset
memset_lem dst fill zero m a = ground arith
memset_lem dst fill (suc size) m a =
    rw (memset_lem (dst + 1) fill size (store dst (fill % 256) m) a) (ground arith)
