-- ===== src/PageAlloc/Merge.antt =====
-- One round of the loop of `__page_free_zone`: a block in hand is joined with its free buddy.
use files_co.Base.{
  ℕ, suc, ◌+◌, ◌^◌, ◌≤◌, ◌<◌, ◌≡◌, ◌≢◌, ◌⊎◌, true, false, ◌||◌, leb, ltb, if◌then◌else◌, arith, has,
  inl, inr, Bool-cases, sym, ◌∙◌,
}
use files_co.Base.Bits.{flip_bit}
use files_co.Base.Pow.{pow_suc, pow_pos}
use files_co.PageAlloc.{Zone}
use files_co.PageAlloc.Flags.{page_order, page_is_free}
use files_co.PageAlloc.Blocks.{
  IsAligned, IsAligned-lower, IsAligned-upper, Buddy, buddy, upper, lower, within,
}
use files_co.PageAlloc.Invariant.{BlockSet, insert, Geo, Fresh, Unlisted}
use files_co.PageAlloc.InHand.{IsOther, hand, other}

-- The first page of the block that `i` and its buddy make.
abbrev pub lower_of : ℕ → ℕ → ℕ
lower_of i o = if ltb (flip_bit i o) i then flip_bit i o else i

-- The blocks of order `o` at `i` and `j` are the halves of the block at `m`.
pub record IsJoin (i o j m : ℕ) : Type 0 where
  pub aligned : IsAligned m (suc o)
  pub buddy_aligned : IsAligned j o
  pub parts : ((m ≡ i) × (j ≡ i + 2 ^ o)) ⊎ ((m ≡ j) × (j + 2 ^ o ≡ i))

IsJoin-of :
    (i o j : ℕ)
    → IsAligned i o
    → (j ≡ i + 2 ^ o) × IsAligned i (suc o) ⊎ (j + 2 ^ o ≡ i) × IsAligned j (suc o)
    → IsJoin i o j (if ltb j i then j else i)
IsJoin-of i o j a (inl (e, al)) =
    let up : (if ltb j i then j else i) ≡ i = ground (arith, pow_pos o) in
    record {
      aligned = rw up al;
      buddy_aligned = rw e (IsAligned-upper i o al);
      parts = inl (up, e);
    }
IsJoin-of i o j a (inr (e, al)) =
    let lo : (if ltb j i then j else i) ≡ j = ground (arith, pow_pos o) in
    record { aligned = rw lo al; buddy_aligned = IsAligned-lower j o al; parts = inr (lo, e) }

pub join : (i o : ℕ) → IsAligned i o → IsJoin i o (flip_bit i o) (lower_of i o)
join i o a = IsJoin-of i o (flip_bit i o) a (sides (buddy i o a))
  where
    sides :
        Buddy i o
        → (flip_bit i o ≡ i + 2 ^ o) × IsAligned i (suc o)
          ⊎ (flip_bit i o + 2 ^ o ≡ i) × IsAligned (flip_bit i o) (suc o)
    sides (upper e al) = inl (e, al)
    sides (lower e al) = inr (e, al)

module _ (z : Zone) (b : BlockSet) (i o j m : ℕ) (geo : Geo z (insert b i o)) (fresh : Fresh b i)
    (unlisted : Unlisted z i) (busy : (k p : ℕ) → b k p ≡ true → page_is_free (z.flags k) ≡ false)
    (jn : IsJoin i o j m) (free : page_is_free (z.flags j) ≡ true) where
  -- A page in the buddy that is not in the block in hand.
  off : (j ≢ i) × (j < i + 2 ^ o → j < i)
  off = (ground (arith, jn.parts, pow_pos o), λ lt. omega (arith, jn.parts, pow_pos o))

  -- A block that holds the buddy's first page starts there, and is no larger.
  buddy_block : (k p : ℕ) → IsOther z b i o k p → k ≤ j → j < k + 2 ^ p → (k ≡ j) × (p ≤ o)
  buddy_block k p a le lt = elim (Bool-cases (leb p o)) [
    | inl small ↦
        let (ge, _) =
          within k p j o (geo.aligned k p a.held) jn.buddy_aligned (ground arith)
            (omega (arith, pow_pos o)) lt in
        (omega arith, ground arith)
    | inr large ↦
        let (ge, fits) =
          within m (suc o) k p jn.aligned (geo.aligned k p a.held) (ground arith)
            (omega (arith, jn.parts, pow_pos o)) (omega (arith, jn.parts, pow_suc o, pow_pos o)) in
        absurd (omega (arith, jn.parts, a.away, pow_suc o, pow_pos o))
  ]

  -- A buddy that is marked free with the order of the block in hand is on the list of that order.
  pub buddy_listed : z.begin ≤ j → j < z.end → page_order (z.flags j) ≡ o → has j (z.order o) ≡ true
  buddy_listed ge lt order =
      let (k, p, h, le, lt') = geo.known j ge lt free in
      elim (Bool-cases (has k (z.order p) || b k p)) [
        | inl here ↦
            let (e, _) = buddy_block k p (other z b i o geo fresh unlisted k p here) le lt' in
            let here' : (has j (z.order p) || b j p) ≡ true = rw e at here in
            let l : has j (z.order p) ≡ true = ground (arith, busy j p) in
            let q : p ≡ o = sym (geo.free_marked j p l).1 ∙ order in rw q at l
        | inr hand ↦
            let ei : k ≡ i = ground arith in
            let eo : p ≡ o = ground arith in absurd (clash (rw ei at le) (rw (ei, eo) at lt'))
      ]
    where
      clash : i ≤ j → j < i + 2 ^ o → ⊥
      clash s t = omega (arith, jn.parts, pow_pos o)
