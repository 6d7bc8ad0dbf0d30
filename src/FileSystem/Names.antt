-- ===== src/FileSystem/Names.antt =====
-- src/file_system.c: the names of files, and their parts between slashes. A text is the list of its
-- characters before the 0.
pub mod Levels
use files_co.Base.{
  ℕ, zero, suc, ◌+◌, ◌≡◌, ◌≢◌, Bool, true, false, ◌&&◌, List, [], ◌∷◌, ◌++◌, Option, none, some,
  if◌then◌else◌, ◌==◌, leb, length, ◌>>=◌,
}

abbrev pub slash : ℕ
slash = 47

-- `streq`: the loop ends with the first text.
unfoldable pub streq : (from to : List ℕ) → Bool
streq [] to = true
streq (c ∷ from) [] = false
streq (c ∷ from) (d ∷ to) = if d == c then streq from to else false

-- The loop that counts the levels
unfoldable pub slashes : List ℕ → ℕ
slashes [] = 0
slashes (c ∷ name) = if c == slash then suc (slashes name) else slashes name

-- What the loop of `name_to_levels_array` does at the end of a level; `none` is the BUG_ON.
unfoldable pub push_level : (level : List ℕ) → Option (List (List ℕ)) → Option (List (List ℕ))
push_level [] rest = none
push_level (c ∷ level) rest = do levels ← rest; some ((c ∷ level) ∷ levels)

-- The loop over the characters from the second on; `level` are those from `level_start` on.
unfoldable pub levels_loop : (name level : List ℕ) → Option (List (List ℕ))
levels_loop [] level = push_level level (some [])
levels_loop (c ∷ name) level = elim (c == slash) [
  | true ↦ push_level level (levels_loop name [])
  | false ↦ levels_loop name (level ++ c ∷ [])
]

-- `name_to_levels_array`: the number of slashes, which is that of the places in the array, and the
-- levels that are written to it; `none` is a failed BUG_ON, or a level that is written behind the array.
unfoldable pub name_to_levels_array : List ℕ → Option (ℕ × List (List ℕ))
name_to_levels_array [] = none
name_to_levels_array (c ∷ name) = do
  levels ← levels_loop name []
  let levels_num = slashes (c ∷ name)
  if leb (length levels) levels_num then some (levels_num, levels) else none
