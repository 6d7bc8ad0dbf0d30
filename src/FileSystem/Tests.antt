-- ===== src/FileSystem/Tests.antt =====
-- Runs of the file system on small inputs.
use files_co.Base.{
  ℕ, ◌+◌, ◌*◌, ◌<◌, ◌≤◌, ◌≡◌, ◌⊎◌, refl, List, [], ◌∷◌, none, some, ◌==◌, if◌then◌else◌, Bool, true,
  false, arith, length,
}
use files_co.FileSystem.Blocks.{Blocks, Contents, write, read, allocate_fs_blocks}
use files_co.FileSystem.Blocks.Chain.{IsChain, Clear, Separate}
use files_co.FileSystem.Blocks.RoundTrip.{HasRoom, chain_start, read-write}
use files_co.FileSystem.Blocks.Setup.{IsFree, AreFresh, chain_of, allocate_fs_blocks-IsFree}
use files_co.FileSystem.Names.{name_to_levels_array, levels_loop, push_level, slashes}
use files_co.FileSystem.Names.Levels.{path, NoSlash, AreLevels, name_to_levels_array-path}
use files_co.FileSystem.Nodes.{
  Node, file, dir, fs_node, no_nodes, first_node, init_fs_node, find_levels, find_last, find_child,
  found_first, child_at, set_child, add_child, children_num, open_at, update_at, set_opened,
  find_node, open_node, close, node_at, opened_of,
}
use files_co.FileSystem.Nodes.Opened.{Findable, open_node-Outcome}

abbrev two_blocks : Blocks
two_blocks = record {
  next = λ a. if a == 16 then 8 else 0;
  prev = λ a. if a == 8 then 16 else 0;
  data_ptr = λ a. a * 1024;
  head = 16;
  memory = λ a. a;
}

abbrev new_file : Contents
new_file = record { list_head = 0; size = 0; opened = true }

two_blocks-HasRoom : HasRoom 2 new_file two_blocks (16 ∷ 8 ∷ []) 30000 40000 600
two_blocks-HasRoom = record {
  is_open = refl;
  is_chain = unfold IsChain chain_start in (refl, omega arith, (refl, omega arith, tt));
  separate = unfold Separate Clear in (omega arith, (omega arith, tt), (omega arith, tt, tt));
  source_clear = unfold Clear in (omega arith, (omega arith, tt));
  dest_clear = unfold Clear in (omega arith, (omega arith, tt));
  some_bytes = omega arith;
  room = omega arith;
  short = omega arith;
  source_end = omega arith;
  dest_end = omega arith;
}

read-write_example :
    (node' : Contents) × (fs' : Blocks) × (fs'' : Blocks) × (write 2 new_file 0 30000 600 two_blocks
      ≡ some (node', fs'))
    × (read 2 node' 0 40000 600 fs' ≡ some (600, fs''))
    × ((k : ℕ) → k < 600 → fs''.memory (40000 + k) ≡ two_blocks.memory (30000 + k))
    × ((a : ℕ)
        → (a < 40000) ⊎ (40000 + 600 ≤ a)
        → Clear two_blocks.data_ptr a 1 (16 ∷ 8 ∷ [])
        → fs''.memory a ≡ two_blocks.memory a)
read-write_example =
    read-write 2 new_file two_blocks (16 ∷ 8 ∷ []) 30000 40000 600 two_blocks-HasRoom

abbrev no_blocks : Blocks
no_blocks = record { next = λ a. 0; prev = λ a. 0; data_ptr = λ a. 0; head = 0; memory = λ a. 0 }

abbrev given : List (ℕ × ℕ)
given = (8, 4096) ∷ (16, 8192) ∷ []

given-AreFresh : AreFresh given [] no_blocks
unfolding AreFresh Clear
given-AreFresh =
    (omega arith, refl, omega arith, tt, (omega arith, refl, omega arith, (omega arith, tt), tt))

allocate_fs_blocks-IsFree_example :
    IsFree (allocate_fs_blocks given no_blocks) (chain_of given [])
    × (length (chain_of given []) ≡ length given)
allocate_fs_blocks-IsFree_example = allocate_fs_blocks-IsFree given no_blocks given-AreFresh

-- The names "ab" and "c"
abbrev ab : List ℕ
ab = 97 ∷ 98 ∷ []

abbrev c : List ℕ
c = 99 ∷ []

two_levels-AreLevels : AreLevels (ab ∷ c ∷ [])
unfolding AreLevels NoSlash
two_levels-AreLevels = (
  (λ e. absurd (ground (arith, e))),
  (omega arith, (omega arith, tt)),
  ((λ e. absurd (ground (arith, e))), (omega arith, tt), tt),
)

name_to_levels_array-path_example :
    name_to_levels_array (path (ab ∷ c ∷ [])) ≡ some (2, ab ∷ c ∷ [])
name_to_levels_array-path_example = name_to_levels_array-path ab (c ∷ []) two_levels-AreLevels

-- The path "/ab", and an empty root
abbrev slash_ab : List ℕ
slash_ab = 47 ∷ 97 ∷ 98 ∷ []

abbrev root : Node
root = fs_node dir (47 ∷ []) (record { list_head = 0; size = 0; opened = false }) no_nodes

open_node-Outcome_example :
    (open_node slash_ab root ≡ none)
      × ((¬ Findable slash_ab root)
          ⊎ (p : List ℕ) × (made n : Node) × (find_node slash_ab file root ≡ some (p, made))
            × (node_at p made ≡ some n)
            × (opened_of n ≡ true))
    ⊎ (p : List ℕ) × (root' : Node) × (open_node slash_ab root ≡ some (p, root'))
      × ((n : Node) × (node_at p root' ≡ some n) × (opened_of n ≡ true))
      × (open_node slash_ab root' ≡ none)
      × ((root'' : Node) × (open_node slash_ab (close p root') ≡ some (p, root'')))
open_node-Outcome_example = open_node-Outcome slash_ab root

abbrev ab_node : Bool → Node
ab_node b = fs_node file ab (record { list_head = 0; size = 0; opened = b }) no_nodes

abbrev root_with : Node → Node
root_with node =
    fs_node dir (47 ∷ []) (record { list_head = 0; size = 0; opened = false })
      (first_node node no_nodes)

-- `open` makes a file that is missing, and opens it.
opens_new : open_node slash_ab root ≡ some (0 ∷ [], root_with (ab_node true))
unfolding open_node find_node find_levels find_last find_child child_at set_child add_child
    children_num init_fs_node name_to_levels_array levels_loop push_level slashes open_at node_at
    update_at set_opened opened_of found_first
opens_new = refl
