-- ===== src/Balloc/Ranges.antt =====
-- The ranges of src/balloc.c: what they cover, and their order.
use files_co.Base.{
  ℕ, suc, ◌+◌, ◌≤◌, ◌<◌, ◌≡◌, ◌∙◌, refl, Bool, true, false, ◌&&◌, ◌||◌, List, [], ◌∷◌, Bool-cases,
  inl, inr, ltb, leb, length, arith,
}
use files_co.Balloc.{Range, rewind, seek}

-- `from <= x && x < to`
unfoldable pub within : (from to x : ℕ) → Bool
within from to x = leb from x && ltb x to

unfoldable pub covers : List Range → ℕ → Bool
unfolding within
covers [] x = false
covers (r ∷ rs) x = within r.begin r.end x || covers rs x

-- In order from `lo` on, with room between the ranges
unfoldable pub IsAbove : ℕ → List Range → Type 0
IsAbove lo [] = Unit {0}
IsAbove lo (r ∷ rs) = (lo ≤ r.begin) × (r.begin ≤ r.end) × IsAbove (suc r.end) rs

-- The same, below `hi` and the last range first
unfoldable pub IsBelow : ℕ → List Range → Type 0
IsBelow hi [] = Unit {0}
IsBelow hi (p ∷ bef) = (p.end < hi) × (p.begin ≤ p.end) × IsBelow p.begin bef

unfoldable pub IsSeparate : List Range → Type 0
unfolding IsAbove
IsSeparate rs = IsAbove 0 rs

pub IsAbove-le : (lo hi : ℕ) (rs : List Range) → lo ≤ hi → IsAbove hi rs → IsAbove lo rs
unfolding IsAbove
IsAbove-le lo hi [] h a = tt
IsAbove-le lo hi (r ∷ rs) h (b, e, a) = (omega arith, e, a)

pub IsBelow-le : (lo hi : ℕ) (bef : List Range) → lo ≤ hi → IsBelow lo bef → IsBelow hi bef
unfolding IsBelow
IsBelow-le lo hi [] h b = tt
IsBelow-le lo hi (p ∷ bef) h (e, b, below) = (omega arith, b, below)

pub rewind-IsSeparate :
    (hi : ℕ) (bef aft : List Range) → IsBelow hi bef → IsAbove hi aft → IsSeparate (rewind bef aft)
unfolding IsSeparate IsAbove IsBelow rewind
rewind-IsSeparate hi [] aft b a = IsAbove-le 0 hi aft (omega arith) a
rewind-IsSeparate hi (p ∷ bef) aft (e, o, b) a =
    rewind-IsSeparate p.begin bef (p ∷ aft) b (omega arith, o, IsAbove-le (suc p.end) hi aft e a)

or_turn : (a b c : Bool) → (a || (b || c)) ≡ ((b || a) || c)
or_turn true true c = refl
or_turn true false c = refl
or_turn false true c = refl
or_turn false false c = refl

pub covers-rewind :
    (x : ℕ) (bef aft : List Range) → covers (rewind bef aft) x ≡ (covers bef x || covers aft x)
unfolding rewind covers
covers-rewind x [] aft = refl
covers-rewind x (p ∷ bef) aft =
    covers-rewind x bef (p ∷ aft) ∙ or_turn (covers bef x) (within p.begin p.end x) (covers aft x)

pub length-rewind : (bef aft : List Range) → length (rewind bef aft) ≡ length bef + length aft
unfolding rewind
length-rewind [] aft = omega arith
length-rewind (p ∷ bef) aft = let e = length-rewind bef (p ∷ aft) in omega (arith, e)

-- The range before a place is skipped, and the one there is not.
unfoldable pub Skipped : (Range → Bool) → List Range → Type 0
Skipped skip [] = Unit {0}
Skipped skip (p ∷ bef) = skip p ≡ true

unfoldable pub Kept : (Range → Bool) → List Range → Type 0
Kept skip [] = Unit {0}
Kept skip (r ∷ aft) = skip r ≡ false

pub record IsCut (skip : Range → Bool) (rs bef aft : List Range) : Type 0 where
  pub whole : rewind bef aft ≡ rs
  pub middle : ℕ
  pub below : IsBelow middle bef
  pub above : IsAbove middle aft
  pub skipped : Skipped skip bef
  pub kept : Kept skip aft

pub seek-IsCut :
    (skip : Range → Bool) (lo : ℕ) (bef aft : List Range)
    → IsBelow lo bef
    → IsAbove lo aft
    → Skipped skip bef
    → IsCut skip (rewind bef aft) (seek skip bef aft).0 (seek skip bef aft).1
unfolding seek IsBelow IsAbove Skipped Kept rewind
seek-IsCut skip lo bef [] b a s = record {
  whole = refl;
  middle = lo;
  below = b;
  above = tt;
  skipped = s;
  kept = tt;
}
seek-IsCut skip lo bef (r ∷ aft) b (l, o, a) s = elim (Bool-cases (skip r)) [
  | inl y ↦
      rw (y, seek)
        (seek-IsCut skip (suc r.end) (r ∷ bef) aft (omega arith, o, IsBelow-le lo r.begin bef l b) a
          y)
  | inr n ↦
      rw (n, seek)
        (record { whole = refl; middle = lo; below = b; above = (l, o, a); skipped = s; kept = n })
]

-- A walk over a tree's ranges passes those that it skips.
unfoldable pub AllSkipped : (Range → Bool) → List Range → Type 0
AllSkipped skip [] = Unit {0}
AllSkipped skip (p ∷ bef) = (skip p ≡ true) × AllSkipped skip bef

pub seek_past :
    (skip : Range → Bool) (bef aft : List Range)
    → AllSkipped skip bef
    → seek skip [] (rewind bef aft) ≡ seek skip bef aft
unfolding AllSkipped rewind
seek_past skip [] aft s = refl
seek_past skip (p ∷ bef) aft (e, s) =
    seek_past skip bef (p ∷ aft) s ∙ unfold seek in rw (e, seek) refl

pub seek-Kept :
    (skip : Range → Bool) (bef aft : List Range) → Kept skip aft → seek skip bef aft ≡ (bef, aft)
unfolding seek Kept
seek-Kept skip bef [] k = refl
seek-Kept skip bef (r ∷ aft) k = rw (k, seek) refl

-- A range of the tree has a block of `size` bytes at `a`.
unfoldable pub has_room : (a size : ℕ) → List Range → Bool
has_room a size [] = false
has_room a size (r ∷ rs) = (leb r.begin a && leb (a + size) r.end) || has_room a size rs

pub has_room-rewind :
    (a size : ℕ) (bef aft : List Range)
    → has_room a size bef ≡ false
    → has_room a size aft ≡ false
    → has_room a size (rewind bef aft) ≡ false
unfolding rewind has_room
has_room-rewind a size [] aft b h = h
has_room-rewind a size (p ∷ bef) aft b h =
    has_room-rewind a size bef (p ∷ aft) (ground arith) (ground arith)
