-- ===== src/Balloc/Block.antt =====
-- The block that `__balloc_alloc` of src/balloc.c tries in a range.
use native.Mathlib.Nat.{div-add-mod, mod-lt, mod-eq_of_lt, mul-mod_right, mul-le-mul_left, mul-suc}
use files_co.Base.{
  ℕ, suc, ◌+◌, ◌-◌, ◌*◌, ◌/◌, ◌%◌, ◌^◌, ◌≤◌, ◌<◌, ◌≡◌, refl, true, false, ◌&&◌, Bool-cases, inl,
  inr, ltb, leb, arith, if◌then◌else◌,
}
use files_co.Balloc.{Range, aligned}

-- The least multiple of `align` from `b` on
pub record IsLeast (b align a : ℕ) : Type 0 where
  pub lower : b ≤ a
  pub upper : a < b + align
  pub multiple : a % align ≡ 0
  pub least : (c : ℕ) → c % align ≡ 0 → b ≤ c → a ≤ c

multiple_le :
    (align q c x : ℕ) → align * q ≤ x → x < c + align → c % align ≡ 0 → 1 ≤ align → align * q ≤ c
multiple_le align q c x h i m p = elim (Bool-cases (leb q (c / align))) [
  | inl y ↦ omega (arith, mul-le-mul_left align (le y), div-add-mod c align)
  | inr n ↦
      absurd (
        omega (arith, mul-le-mul_left align (lt n), mul-suc align (c / align), div-add-mod c align))
]
  where
    le : leb q (c / align) ≡ true → q ≤ c / align
    le h = ground arith

    lt : leb q (c / align) ≡ false → suc (c / align) ≤ q
    lt h = ground arith

aligned-IsLeast : (b align : ℕ) → 1 ≤ align → b + align ≤ 2 ^ 64 → IsLeast b align (aligned b align)
aligned-IsLeast b align p h =
    let x = b + (align - 1) in
    let fits : x % 2 ^ 64 ≡ x = mod-eq_of_lt {n = x} {m = 2 ^ 64} (omega (arith, p, h)) in
    let e : aligned b align ≡ align * (x / align) = rw fits (omega (arith, div-add-mod x align)) in
    rw e (record {
      lower = omega (arith, div-add-mod x align, mod-lt x p);
      upper = omega (arith, div-add-mod x align, p);
      multiple = mul-mod_right align (x / align);
      least = λ c m l.
          multiple_le align (x / align) c x (omega (arith, div-add-mod x align))
            (omega (arith, l, p)) m p;
    })

-- The sizes for which no sum in the code wraps around
pub record IsSmall (size align from to : ℕ) : Type 0 where
  pub size_pos : 1 ≤ size
  pub size_le : size ≤ 2 ^ 62
  pub align_pos : 1 ≤ align
  pub align_le : align ≤ 2 ^ 62
  pub from_le : from ≤ 2 ^ 62
  pub from_lt : from < to

-- The part of a range between `from` and `to`, and the first aligned block there
abbrev pub low : Range → ℕ → ℕ
low r from = if ltb from r.begin then r.begin else from

abbrev pub high : Range → ℕ → ℕ
high r to = if ltb r.end to then r.end else to

pub record IsBlock (r : Range) (size align from to : ℕ) : Type 0 where
  pub least : IsLeast (low r from) align (aligned (low r from) align)
  pub after : (aligned (low r from) align + size) % 2 ^ 64 ≡ aligned (low r from) align + size

low_le : (r : Range) (from top : ℕ) → r.begin ≤ top → from ≤ top → low r from ≤ top
low_le r from top h i = ground arith

pub block :
    (r : Range) (size align from to : ℕ)
    → IsSmall size align from to
    → r.begin ≤ r.end
    → r.end ≤ 2 ^ 62
    → IsBlock r size align from to
block r size align from to k o t =
    let b = low_le r from (2 ^ 62) (omega (arith, o, t)) k.from_le in
    let l = aligned-IsLeast (low r from) align k.align_pos (omega (arith, b, k.align_le)) in
    record {
      least = l;
      after =
          mod-eq_of_lt {n = aligned (low r from) align + size} {m = 2 ^ 64}
            (omega (arith, l.upper, b, k.align_le, k.size_le));
    }

pub low_lower : (r : Range) (from : ℕ) → (r.begin ≤ low r from) × (from ≤ low r from)
low_lower r from = (ground arith, ground arith)

pub high_upper : (r : Range) (to : ℕ) → (high r to ≤ r.end) × (high r to ≤ to)
high_upper r to = (ground arith, ground arith)

-- No block of a range fits, if the first one does not.
pub not_here :
    (r : Range) (size align from to a : ℕ)
    → IsBlock r size align from to
    → leb (aligned (low r from) align + size) (high r to) ≡ false
    → a % align ≡ 0
    → from ≤ a
    → a + size ≤ to
    → (leb r.begin a && leb (a + size) r.end) ≡ false
not_here r size align from to a k n d l u = elim (Bool-cases (leb r.begin a)) [
  | inr f ↦ rw f refl
  | inl y ↦ elim (Bool-cases (leb (a + size) r.end)) [
    | inr f ↦ rw (y, f) refl
    | inl z ↦
        absurd (omega (arith, gt n, k.least.least a d (low_upper (le y) l), high_lower (le z) u))
  ]
]
  where
    le : {c e : ℕ} → leb c e ≡ true → c ≤ e
    le h = ground arith

    low_upper : r.begin ≤ a → from ≤ a → low r from ≤ a
    low_upper h i = ground arith

    high_lower : a + size ≤ r.end → a + size ≤ to → a + size ≤ high r to
    high_lower h i = ground arith

    gt : {c e : ℕ} → leb c e ≡ false → suc e ≤ c
    gt h = ground arith

-- Where the block lies in the range and the window
pub block_bounds :
    (r : Range) (size align from to : ℕ)
    → IsBlock r size align from to
    → leb (aligned (low r from) align + size) (high r to) ≡ true
    → let addr = aligned (low r from) align in
      (r.begin ≤ addr) × (from ≤ addr) × (addr + size ≤ r.end) × (addr + size ≤ to)
block_bounds r size align from to w z =
    let (rl, fl) = low_lower r from in
    let (rh, th) = high_upper r to in
    let lo = w.least.lower in
    let hi = le z in
    (omega (arith, rl, lo), omega (arith, fl, lo), omega (arith, rh, hi), omega (arith, th, hi))
  where
    le : {c e : ℕ} → leb c e ≡ true → c ≤ e
    le h = ground arith
