-- ===== src/Balloc/Kept.antt =====
-- What src/balloc.c keeps of a range that it takes apart.
use files_co.Base.{
  ℕ, suc, ◌+◌, ◌≤◌, ◌<◌, ◌≡◌, refl, ap, Bool, true, false, not, ◌&&◌, ◌||◌, List, ◌∷◌, some,
  Bool-cases, inl, inr, ltb, length, arith, if◌then◌else◌,
}
use files_co.Base.Compare.{ltb_le}
use files_co.Balloc.{Range, rewind, balloc_free_node, add_range, keep_outside}
use files_co.Balloc.Ranges.{
  within, covers, IsAbove, IsBelow, IsAbove-le, IsBelow-le, covers-rewind, length-rewind,
}
use files_co.Balloc.Apart.{add_apart}

-- What is left of a range on both sides of `from` and `to`
unfoldable pub left_part : Range → ℕ → List Range → List Range
left_part r from bef =
    if ltb r.begin from then record { begin = r.begin; end = from } ∷ bef else bef

unfoldable pub right_part : Range → ℕ → List Range → List Range
right_part r to aft = if ltb to r.end then record { begin = to; end = r.end } ∷ aft else aft

pub left_part-IsBelow :
    (r : Range) (from m : ℕ) (bef : List Range)
    → IsBelow r.begin bef
    → IsBelow m bef
    → from < m
    → IsBelow m (left_part r from bef)
unfolding left_part IsBelow
left_part-IsBelow r from m bef b b' h = elim (Bool-cases (ltb r.begin from)) [
  | inl y ↦ rw (y, left_part) ((h, ltb_le y, b))
  | inr n ↦ rw (n, left_part) b'
]

pub right_part-IsAbove :
    (r : Range) (to m : ℕ) (aft : List Range)
    → IsAbove (suc r.end) aft
    → IsAbove m aft
    → m ≤ to
    → IsAbove m (right_part r to aft)
unfolding right_part IsAbove
right_part-IsAbove r to m aft a a' h = elim (Bool-cases (ltb to r.end)) [
  | inl y ↦ rw (y, right_part) ((h, ltb_le y, a))
  | inr n ↦ rw (n, right_part) a'
]

keep_left :
    (r : Range) (from spare : ℕ) (bef aft : List Range)
    → IsBelow r.begin bef
    → IsAbove (suc from) aft
    → (if ltb r.begin from
        then add_range r.begin from (suc spare) (rewind bef aft)
        else some (suc spare, rewind bef aft))
      ≡ some (if ltb r.begin from then spare else suc spare, rewind (left_part r from bef) aft)
unfolding left_part rewind
keep_left r from spare bef aft b a = elim (Bool-cases (ltb r.begin from)) [
  | inl y ↦ rw (y, left_part) (add_apart r.begin from spare bef aft b a (ltb_le y))
  | inr n ↦ rw (n, left_part) refl
]

keep_right :
    (r : Range) (to spare : ℕ) (bef aft : List Range)
    → IsBelow to bef
    → IsAbove (suc r.end) aft
    → (if ltb to r.end
        then add_range to r.end (suc spare) (rewind bef aft)
        else some (suc spare, rewind bef aft))
      ≡ some (if ltb to r.end then spare else suc spare, rewind bef (right_part r to aft))
unfolding right_part
keep_right r to spare bef aft b a = elim (Bool-cases (ltb to r.end)) [
  | inl y ↦ rw (y, right_part) (add_apart to r.end spare bef aft b a (ltb_le y))
  | inr n ↦ rw (n, right_part) refl
]

-- The free nodes then
unfoldable pub left_over : Range → (from to spare : ℕ) → ℕ
left_over r from to spare =
    (if ltb to r.end then 0 else 1) + (if ltb r.begin from then 0 else 1) + spare + 1

left_one : (c : Bool) (s : ℕ) → (if c then s else suc s) + 1 ≡ (if c then 0 else 1) + 0 + s + 1
left_one c s = ground arith

left_two :
    (c : Bool) (s : ℕ) → (if c then suc s else suc (suc s)) + 1 ≡ (if c then 0 else 1) + 1 + s + 1
left_two c s = ground arith

pub keep_outside_lem :
    (r : Range) (from to spare : ℕ) (bef aft : List Range)
    → IsBelow r.begin bef
    → IsAbove (suc r.end) aft
    → from < to
    → from ≤ r.end
    → r.begin < to
    → keep_outside r from to (suc (suc spare)) (rewind bef aft)
      ≡ some (left_over r from to spare, rewind (left_part r from bef) (right_part r to aft))
unfolding keep_outside left_over balloc_free_node
keep_outside_lem r from to spare bef aft b a h i j =
    let l =
      keep_left r from (suc spare) bef aft b
        (IsAbove-le (suc from) (suc r.end) aft (omega arith) a) in
    let b' = left_part-IsBelow r from to bef b (IsBelow-le r.begin to bef (omega arith) b) h in
    elim (Bool-cases (ltb r.begin from)) [
      | inl y ↦
          let k = keep_right r to spare (left_part r from bef) aft b' a in
          rw (l, y, k, keep_outside)
            (ap (λ s. some (s, rewind (left_part r from bef) (right_part r to aft)))
              (left_one (ltb to r.end) spare))
      | inr n ↦
          let k = keep_right r to (suc spare) (left_part r from bef) aft b' a in
          rw (l, n, k, keep_outside)
            (ap (λ s. some (s, rewind (left_part r from bef) (right_part r to aft)))
              (left_two (ltb to r.end) spare))
    ]

length_if :
    (c : Bool) (q : Range) (rs : List Range)
    → length (if c then q ∷ rs else rs) ≡ length rs + (if c then 1 else 0)
length_if true q rs = omega arith
length_if false q rs = omega arith

pub left_over-length :
    (r : Range) (from to spare : ℕ) (bef aft : List Range)
    → left_over r from to spare + length (rewind (left_part r from bef) (right_part r to aft))
      ≡ suc (suc spare) + length (rewind bef (r ∷ aft))
unfolding left_over left_part right_part
left_over-length r from to spare bef aft =
    total (ltb r.begin from) (ltb to r.end) (length bef) (length aft)
      (length_if (ltb r.begin from) (record { begin = r.begin; end = from }) bef)
      (length_if (ltb to r.end) (record { begin = to; end = r.end }) aft)
      (length-rewind (left_part r from bef) (right_part r to aft)) (length-rewind bef (r ∷ aft))
  where
    total :
        (c d : Bool) (lb la : ℕ) {l k a b : ℕ}
        → l ≡ lb + (if c then 1 else 0)
        → k ≡ la + (if d then 1 else 0)
        → a ≡ l + k
        → b ≡ lb + suc la
        → (if d then 0 else 1) + (if c then 0 else 1) + spare + 1 + a ≡ suc (suc spare) + b
    total c d lb la e f g h = ground arith

cover_if :
    (c : Bool) (q : Range) (rs : List Range) (x : ℕ)
    → covers (if c then q ∷ rs else rs) x ≡ ((c && within q.begin q.end x) || covers rs x)
unfolding covers
cover_if true q rs x = refl
cover_if false q rs x = refl

split_within :
    (a e from to x : ℕ) (b o : Bool)
    → from < to
    → from ≤ e
    → a < to
    → b ≡ (b && not (within from to x))
    → o ≡ (o && not (within from to x))
    → (((ltb a from && within a from x) || b) || ((ltb to e && within to e x) || o))
      ≡ ((b || (within a e x || o)) && not (within from to x))
unfolding within
split_within a e from to x b o h i j c d = ground arith

pub keep_cover :
    (r : Range) (from to x : ℕ) (bef aft : List Range)
    → from < to
    → from ≤ r.end
    → r.begin < to
    → covers bef x ≡ (covers bef x && not (within from to x))
    → covers aft x ≡ (covers aft x && not (within from to x))
    → covers (rewind (left_part r from bef) (right_part r to aft)) x
      ≡ (covers (rewind bef (r ∷ aft)) x && not (within from to x))
unfolding left_part right_part covers within
keep_cover r from to x bef aft h i j e f =
    rw
      (
        covers-rewind x (left_part r from bef) (right_part r to aft),
        covers-rewind x bef (r ∷ aft),
        cover_if (ltb r.begin from) (record { begin = r.begin; end = from }) bef x,
        cover_if (ltb to r.end) (record { begin = to; end = r.end }) aft x,
      )
      (split_within r.begin r.end from to x (covers bef x) (covers aft x) h i j e f)

pub left_over_le :
    (r : Range) (from to spare : ℕ) → suc (suc spare) ≤ suc (left_over r from to spare)
unfolding left_over
left_over_le r from to spare = ground arith

pub left_over_kept :
    (r : Range) (from to spare : ℕ)
    → ltb to r.end ≡ false
    → suc (suc spare) ≤ left_over r from to spare
unfolding left_over
left_over_kept r from to spare z = rw z (ground arith)

pub right_part_none :
    (r : Range) (to : ℕ) (aft : List Range) → ltb to r.end ≡ false → right_part r to aft ≡ aft
unfolding right_part
right_part_none r to aft z = rw z refl

pub right_part_some :
    (r : Range) (to : ℕ) (aft : List Range)
    → ltb to r.end ≡ true
    → right_part r to aft ≡ record { begin = to; end = r.end } ∷ aft
unfolding right_part
right_part_some r to aft z = rw z refl

left_within :
    (a e from to x : ℕ) (b o : Bool)
    → e ≤ to
    → from ≤ e
    → a < to
    → ((((ltb a from && within a from x) || b) || o) && not (within from to x))
      ≡ ((b || (within a e x || o)) && not (within from to x))
unfolding within
left_within a e from to x b o h i j = ground arith

pub left_cover :
    (r : Range) (from to x : ℕ) (bef aft : List Range)
    → r.end ≤ to
    → from ≤ r.end
    → r.begin < to
    → (covers (rewind (left_part r from bef) aft) x && not (within from to x))
      ≡ (covers (rewind bef (r ∷ aft)) x && not (within from to x))
unfolding left_part covers
left_cover r from to x bef aft h i j =
    rw
      (
        covers-rewind x (left_part r from bef) aft,
        covers-rewind x bef (r ∷ aft),
        cover_if (ltb r.begin from) (record { begin = r.begin; end = from }) bef x,
      )
      (left_within r.begin r.end from to x (covers bef x) (covers aft x) h i j)
