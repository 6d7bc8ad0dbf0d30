-- ===== src/Print/Bounded.antt =====
-- `vsnprintf` of src/print.c against `vprintf`.
use files_co.Base.{
  ℕ, ◌+◌, ◌-◌, ◌≤◌, ◌<◌, ◌≡◌, ◌⊎◌, Bool, false, List, if◌then◌else◌, ltb, length, get_or, Option,
}
use files_co.StringOps.{Memory}
use files_co.Print.{copy_within, serial_out, Ctx}

module _ (string : ℕ → List ℕ) (buf size : ℕ) (m : Memory) where
  -- A context of `vprintf`, which starts with nothing sent, and one of `vsnprintf`, which starts with
  -- the memory `m`: both have come equally far, and the buffer has the start of what was sent.
  pub record Agree (c : Ctx string serial_out) (s : Ctx string (copy_within buf size))
      : Type 0 where
    pub written : s.written ≡ c.written
    pub sent : c.written ≡ length c.sink
    pub failed : s.failed ≡ c.failed
    pub stored : (k : ℕ) → k < length c.sink → k < size → s.sink (buf + k) ≡ get_or c.sink k 0
    pub kept : (a : ℕ) → (a < buf) ⊎ (buf + size ≤ a) → s.sink a ≡ m a

  -- What is in the buffer after `vsnprintf`, of the text that `vprintf` prints: its start, and a 0 where
  -- the last character of it would be.
  pub record IsCut (failed : Bool) (out : List ℕ) (m' : Memory) : Type 0 where
    pub stored : (k : ℕ) → k + 1 < length out → k + 1 < size → m' (buf + k) ≡ get_or out k 0
    pub ended :
        failed ≡ false
        → 0 < length out
        → m' (buf + (if ltb (length out) size then length out else size) - 1) ≡ 0
    pub kept : 0 < length out → (a : ℕ) → (a < buf) ⊎ (buf + size ≤ a) → m' a ≡ m a
