-- ===== src/Balloc/Outside.antt =====
-- What src/balloc.c leaves of a tree outside of the bytes that it takes out.
use files_co.Base.{ℕ, suc, ◌≤◌, ◌<◌, ◌≡◌, refl, Bool, not, ◌&&◌, ◌||◌, List, [], ◌∷◌, arith}
use files_co.Balloc.{Range, rewind}
use files_co.Balloc.Ranges.{
  within, covers, IsAbove, IsBelow, IsBelow-le, rewind-IsSeparate, covers-rewind,
}
use files_co.Balloc.Changed.{Changed}
use files_co.Balloc.Kept.{
  left_part, right_part, left_part-IsBelow, right_part-IsAbove, left_over, left_over-length,
  keep_cover, left_over_le,
}

-- What lies outside of `from` and `to` is not removed.
clear_below :
    (from to x m : ℕ) (bef : List Range)
    → IsBelow m bef
    → m ≤ suc from
    → covers bef x ≡ (covers bef x && not (within from to x))
unfolding IsBelow covers
clear_below from to x m [] b h = refl
clear_below from to x m (p ∷ bef) (e, o, b) h =
    clear (covers bef x) p.begin p.end (omega arith)
      (clear_below from to x p.begin bef b (omega arith))
  where
    clear :
        (c : Bool) (a e : ℕ)
        → e ≤ from
        → c ≡ (c && not (within from to x))
        → (within a e x || c) ≡ ((within a e x || c) && not (within from to x))
    clear c a e h i = unfold within in ground arith

clear_above :
    (from to x m : ℕ) (aft : List Range)
    → IsAbove m aft
    → to ≤ m
    → covers aft x ≡ (covers aft x && not (within from to x))
unfolding IsAbove covers
clear_above from to x m [] a h = refl
clear_above from to x m (r ∷ aft) (l, o, a) h =
    clear (covers aft x) r.begin r.end (omega arith)
      (clear_above from to x (suc r.end) aft a (omega arith))
  where
    clear :
        (c : Bool) (a e : ℕ)
        → to ≤ a
        → c ≡ (c && not (within from to x))
        → (within a e x || c) ≡ ((within a e x || c) && not (within from to x))
    clear c a e h i = unfold within in ground arith

clear_both : (b c w : Bool) → b ≡ (b && not w) → c ≡ (c && not w) → (b || c) ≡ ((b || c) && not w)
clear_both b c w h i = ground arith

-- A tree that is left as it is
pub same_Changed :
    (from to spare m : ℕ) (bef aft : List Range)
    → IsBelow m bef
    → m ≤ suc from
    → IsAbove to aft
    → from < to
    → Changed spare
        (rewind bef aft)
        (λ x. covers (rewind bef aft) x && not (within from to x))
        (spare, rewind bef aft)
same_Changed from to spare m bef aft b l a h = record {
  separate = rewind-IsSeparate to bef aft (IsBelow-le m to bef (omega arith) b) a;
  nodes = refl;
  room = omega arith;
  cover = λ x. rw (covers-rewind x bef aft) (
      clear_both (covers bef x) (covers aft x) (within from to x) (clear_below from to x m bef b l)
        (clear_above from to x to aft a (omega arith)));
}

-- The tree with what is kept of its last range ltb_lt `to`
pub kept_Changed :
    (r : Range) (from to spare : ℕ) (bef aft : List Range)
    → IsBelow r.begin bef
    → IsBelow (suc from) bef
    → IsAbove (suc r.end) aft
    → IsAbove to aft
    → from < to
    → from ≤ r.end
    → r.begin < to
    → Changed
        (suc (suc spare))
        (rewind bef (r ∷ aft))
        (λ x. covers (rewind bef (r ∷ aft)) x && not (within from to x))
        (left_over r from to spare, rewind (left_part r from bef) (right_part r to aft))
kept_Changed r from to spare bef aft b b' a a' h i j = record {
  separate =
      rewind-IsSeparate to (left_part r from bef) (right_part r to aft)
        (left_part-IsBelow r from to bef b (IsBelow-le r.begin to bef (omega arith) b) h)
        (right_part-IsAbove r to to aft a a' (omega arith));
  nodes = left_over-length r from to spare bef aft;
  room = left_over_le r from to spare;
  cover = λ x.
      keep_cover r from to x bef aft h i j (clear_below from to x (suc from) bef b' (omega arith))
        (clear_above from to x to aft a' (omega arith));
}
