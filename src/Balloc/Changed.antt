-- ===== src/Balloc/Changed.antt =====
-- What the operations of src/balloc.c make of a tree, and the end of `__balloc_add_range`.
use files_co.Base.{
  ℕ, suc, ◌+◌, ◌≤◌, ◌≡◌, ◌∙◌, ap, Bool, false, ◌||◌, List, [], ◌∷◌, Bool-cases, inl, inr, ltb, leb,
  length, arith, if◌then◌else◌,
}
use files_co.Base.Compare.{leb_le, le_of_leb}
use files_co.Balloc.{Range, rewind, balloc_free_node, merge_next}
use files_co.Balloc.Ranges.{
  within, covers, IsAbove, IsBelow, IsSeparate, rewind-IsSeparate, covers-rewind, length-rewind,
}

-- What an operation makes of `spare` free nodes and the tree `rs`: a tree that is in order and covers
-- `now`, with no node lost, and one more node in use at most.
pub record Changed (spare : ℕ) (rs : List Range) (now : ℕ → Bool) (out : ℕ × List Range)
    : Type 0 where
  pub separate : IsSeparate out.1
  pub nodes : out.0 + length out.1 ≡ spare + length rs
  pub room : spare ≤ suc out.0
  pub cover : (x : ℕ) → covers out.1 x ≡ now x

-- Where a range that is added ends: at the end of the range behind it, if that comes first.
unfoldable pub cut_at : ℕ → List Range → ℕ
cut_at to [] = to
cut_at to (n ∷ aft) = if ltb n.end to then n.end else to

within_join :
    (a b c d x : ℕ) (o : Bool)
    → a ≤ c
    → c ≤ b
    → c ≤ d
    → (within a d x || o) ≡ (within a (if ltb d b then d else b) x || (within c d x || o))
unfolding within
within_join a b c d x o h i j = ground arith

not_cut : (b e to : ℕ) → b ≤ e → leb b to ≡ false → to ≡ (if ltb e to then e else to)
not_cut b e to h f = ground arith

pub merge_next-Changed :
    (spare m : ℕ) (bef : List Range) (new : Range) (aft : List Range)
    → IsBelow m bef
    → m ≤ new.begin
    → new.begin ≤ new.end
    → IsAbove new.begin aft
    → Changed
        (suc spare)
        (rewind bef aft)
        (λ x. covers bef x || (within new.begin (cut_at new.end aft) x || covers aft x))
        (merge_next spare bef new aft)
unfolding merge_next IsAbove IsBelow cut_at covers balloc_free_node
merge_next-Changed spare m bef new [] b l o a = record {
  separate = rewind-IsSeparate m bef (new ∷ []) b (l, o, tt);
  nodes = omega (arith, length-rewind bef (new ∷ []), length-rewind bef []);
  room = omega arith;
  cover = λ x. covers-rewind x bef (new ∷ []);
}
merge_next-Changed spare m bef new (n ∷ aft) b l o (i, j, a) =
    elim (Bool-cases (leb n.begin new.end)) [
      | inl y ↦
          rw (y, merge_next)
            (record {
              separate = rewind-IsSeparate m bef (_ ∷ aft) b (l, omega arith, a);
              nodes = omega (
                arith,
                length-rewind bef (record new { end = n.end } ∷ aft),
                length-rewind bef (n ∷ aft),
              );
              room = omega arith;
              cover = λ x.
                  covers-rewind x bef (record new { end = n.end } ∷ aft)
                  ∙ ap (λ c. covers bef x || c)
                      (within_join new.begin new.end n.begin n.end x (covers aft x) i (leb_le y) j);
            })
      | inr f ↦
          rw (f, merge_next)
            (record {
              separate = rewind-IsSeparate m bef (new ∷ n ∷ aft) b (l, o, (le_of_leb f, j, a));
              nodes = omega (arith, length-rewind bef (new ∷ n ∷ aft), length-rewind bef (n ∷ aft));
              room = omega arith;
              cover = λ x.
                  covers-rewind x bef (new ∷ n ∷ aft)
                  ∙ ap
                      (λ e.
                        covers bef x
                        || (within new.begin e x || (within n.begin n.end x || covers aft x)))
                      (not_cut n.begin n.end new.end j f);
            })
    ]

pub Changed-same :
    {s s' : ℕ} {rs rs' : List Range} {now now' : ℕ → Bool} (out : ℕ × List Range)
    → s' ≤ s
    → s + length rs ≡ s' + length rs'
    → ((x : ℕ) → now x ≡ now' x)
    → Changed s rs now out
    → Changed s' rs' now' out
Changed-same out l n e c = record {
  separate = c.separate;
  nodes = c.nodes ∙ n;
  room = omega (arith, c.room);
  cover = λ x. c.cover x ∙ e x;
}
