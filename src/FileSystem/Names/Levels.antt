-- ===== src/FileSystem/Names/Levels.antt =====
-- A path and its levels.
use mathlib.Core.List.{append-nil, append_assoc}
use files_co.Base.{
  ℕ, suc, ◌≡◌, ◌≢◌, ◌∙◌, ap, sym, refl, true, false, List, [], ◌∷◌, ◌++◌, some, ◌==◌, leb, length,
  arith,
}
use files_co.FileSystem.Names.{slash, slashes, push_level, levels_loop, name_to_levels_array}

-- The path of some levels: each of them behind a slash
unfoldable pub path : List (List ℕ) → List ℕ
path [] = []
path (level ∷ levels) = slash ∷ (level ++ path levels)

unfoldable pub NoSlash : List ℕ → Type 0
NoSlash [] = Unit {0}
NoSlash (c ∷ level) = (c ≢ slash) × NoSlash level

-- Levels are not empty, and have no slash.
unfoldable pub AreLevels : List (List ℕ) → Type 0
AreLevels [] = Unit {0}
AreLevels (level ∷ levels) = (level ≢ []) × NoSlash level × AreLevels levels

levels_loop-append :
    (level name start : List ℕ)
    → NoSlash level
    → levels_loop (level ++ name) start ≡ levels_loop name (start ++ level)
unfolding levels_loop NoSlash
levels_loop-append [] name start ns = ap (levels_loop name) (sym (append-nil start))
levels_loop-append (c ∷ level) name start (ne, ns) =
    let e : (c == slash) ≡ false = ground arith in
    rw (e, levels_loop)
      (levels_loop-append level name (start ++ c ∷ []) ns
        ∙ ap (levels_loop name) (append_assoc start (c ∷ []) level))

slashes-append : (level name : List ℕ) → NoSlash level → slashes (level ++ name) ≡ slashes name
unfolding slashes NoSlash
slashes-append [] name ns = refl
slashes-append (c ∷ level) name (ne, ns) = ground (arith, slashes-append level name ns)

slashes-path : (levels : List (List ℕ)) → AreLevels levels → slashes (path levels) ≡ length levels
unfolding slashes path AreLevels
slashes-path [] h = refl
slashes-path (level ∷ levels) (ne, ns, h) =
    ap suc (slashes-append level (path levels) ns ∙ slashes-path levels h)

push_level-some :
    (level : List ℕ) (levels : List (List ℕ))
    → level ≢ []
    → push_level level (some levels) ≡ some (level ∷ levels)
unfolding push_level
push_level-some [] levels ne = absurd (ne refl)
push_level-some (c ∷ level) levels ne = refl

levels_loop-path :
    (levels : List (List ℕ)) (level : List ℕ)
    → AreLevels levels
    → levels_loop (path levels) level ≡ push_level level (some levels)
unfolding levels_loop path AreLevels
levels_loop-path [] level h = refl
levels_loop-path (l ∷ levels) level (ne, ns, h) = ap (push_level level) (
    levels_loop-append l (path levels) [] ns
    ∙ levels_loop-path levels l h
    ∙ push_level-some l levels ne)

-- A path of at least one level, whose levels are not empty and have no slash, is taken apart into
-- these levels, and their number is counted right.
pub name_to_levels_array-path :
    (level : List ℕ) (levels : List (List ℕ))
    → AreLevels (level ∷ levels)
    → name_to_levels_array (path (level ∷ levels)) ≡ some (length (level ∷ levels), level ∷ levels)
unfolding path AreLevels name_to_levels_array
name_to_levels_array-path level levels (ne, ns, h) =
    let run =
      levels_loop-append level (path levels) [] ns
      ∙ levels_loop-path levels level h
      ∙ push_level-some level levels ne in
    let count = slashes-path (level ∷ levels) (ne, ns, h) in
    let fits : leb (length (level ∷ levels)) (length (level ∷ levels)) ≡ true = ground arith in
    rw (run, count, fits) refl
