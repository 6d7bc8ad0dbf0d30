-- ===== src/PageAlloc/InHand.antt =====
-- A block in hand: the client's set is `b` with one block more, at a page where `b` has none.
use files_co.Base.{
  ℕ, ◌+◌, ◌^◌, ◌≤◌, ◌<◌, ◌≡◌, ◌≢◌, ◌⊎◌, true, leb, arith, has, inl, inr, Bool-cases,
}
use files_co.Base.Pow.{pow_pos}
use files_co.PageAlloc.{Zone}
use files_co.PageAlloc.Invariant.{BlockSet, insert, Held, Geo, Inv, Fresh, Unlisted}

-- Two blocks that share no page.
abbrev pub Apart : ℕ → ℕ → ℕ → ℕ → Type 0
Apart i o j p = (i + 2 ^ o ≤ j) ⊎ (j + 2 ^ p ≤ i)

pub Apart-of : (i o j p : ℕ) → (i < j + 2 ^ p → j < i + 2 ^ o → i ≡ j) → i ≢ j → Apart i o j p
Apart-of i o j p h ne = elim (Bool-cases (leb (i + 2 ^ o) j)) [
  | inl a ↦ inl (ground arith)
  | inr a ↦ elim (Bool-cases (leb (j + 2 ^ p) i)) [
    | inl c ↦ inr (ground arith)
    | inr c ↦ absurd (ne (h (ground arith) (ground arith)))
  ]
]

pub Apart-clash :
    (i o j p : ℕ) {k q : ℕ} → Apart i o j p → k ≡ i → q ≡ o → k < j + 2 ^ p → j < k + 2 ^ q → ⊥
Apart-clash i o j p a e r = rw (e, r) clash
  where
    clash : i < j + 2 ^ p → j < i + 2 ^ o → ⊥
    clash s t = omega arith

-- A block of the rest, listed or held.
pub record IsOther (z : Zone) (b : BlockSet) (i o j p : ℕ) : Type 0 where
  pub held : Held z (insert b i o) j p
  pub away : Apart i o j p
  pub size : 0 < 2 ^ p

module _ (z : Zone) (b : BlockSet) (i o : ℕ) (geo : Geo z (insert b i o)) (fresh : Fresh b i)
    (unlisted : Unlisted z i) where
  pub hand : Held z (insert b i o) i o
  hand = ground arith

  other_ne : (j p : ℕ) → Held z b j p → i ≢ j
  other_ne j p h e = let h' : Held z b i p = rw (← e) at h in ground (arith, unlisted p, fresh p)

  -- It shares no page with the block in hand.
  pub other : (j p : ℕ) → Held z b j p → IsOther z b i o j p
  other j p h = record {
    held = held;
    away = Apart-of i o j p (λ s t. (geo.apart i o j p hand held s t).0) (other_ne j p h);
    size = pow_pos p;
  }
    where
      held : Held z (insert b i o) j p
      held = ground arith

-- A block that is marked busy is on no list.
module _ (z : Zone) (b : BlockSet) (i o : ℕ) (inv : Inv z (insert b i o)) where
  unlisted_at : (p : ℕ) → has i (z.order p) ≡ true → ⊥
  unlisted_at p l =
      let e =
        inv.apart i o i p (ground arith) (ground arith) (omega (arith, pow_pos p))
          (omega (arith, pow_pos o)) in
      ground (arith, inv.free_marked i p, inv.busy_marked i o)

  pub Unlisted-of : Unlisted z i
  Unlisted-of p = ground (arith, unlisted_at p)
