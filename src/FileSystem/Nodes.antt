-- ===== src/FileSystem/Nodes.antt =====
-- src/file_system.c: the tree of nodes, and `open`, `close`, `mkdir` and `readdir`. A pointer to a node
-- is the list of its positions in the arrays of children, from the root on; nodes never move.
pub mod Children
pub mod Leads
pub mod Opened
use files_co.Base.{
  ℕ, zero, suc, ◌+◌, Bool, true, false, List, [], ◌∷◌, ◌++◌, Option, none, some, if◌then◌else◌,
  ◌==◌, leb, ◌||◌, length, ◌>>=◌,
}
use files_co.FileSystem.Names.{streq, name_to_levels_array}
use files_co.FileSystem.Blocks.{Contents}

-- `node_t`
pub data NodeType : Type 0 where
  file : NodeType
  dir : NodeType

-- `struct fs_node`: its type, its name, what it has as a file, and the used part of the array of
-- its children. `find_last` keeps the names below 128 characters and the children to 256, the sizes
-- of their arrays.
mutual
  pub data Node : Type 0 where
    fs_node : NodeType → List ℕ → Contents → Nodes → Node

  pub data Nodes : Type 0 where
    no_nodes : Nodes
    first_node : Node → Nodes → Nodes

unfoldable pub name_of : Node → List ℕ
name_of (fs_node type name contents children) = name

unfoldable pub children_num : Nodes → ℕ
children_num no_nodes = 0
children_num (first_node node nodes) = suc (children_num nodes)

unfoldable pub add_child : Node → Nodes → Nodes
add_child new no_nodes = first_node new no_nodes
add_child new (first_node node nodes) = first_node node (add_child new nodes)

unfoldable pub child_at : ℕ → Nodes → Option Node
child_at j no_nodes = none
child_at zero (first_node node nodes) = some node
child_at (suc j) (first_node node nodes) = child_at j nodes

unfoldable pub set_child : ℕ → Node → Nodes → Nodes
set_child j new no_nodes = no_nodes
set_child zero new (first_node node nodes) = first_node new nodes
set_child (suc j) new (first_node node nodes) = first_node node (set_child j new nodes)

-- `init_fs_node`
unfoldable pub init_fs_node : List ℕ → NodeType → Node
init_fs_node name type =
    fs_node type name (record { list_head = 0; size = 0; opened = false }) no_nodes

-- The loops over the children: the first whose name `streq` takes for the level
unfoldable pub found_first : Bool → Option ℕ → Option ℕ
found_first true later = some 0
found_first false none = none
found_first false (some j) = some (suc j)

unfoldable pub find_child : (level : List ℕ) → Nodes → Option ℕ
find_child level no_nodes = none
find_child level (first_node node nodes) =
    found_first (streq level (name_of node)) (find_child level nodes)

-- The last level in `find_node`: the node that is found, or a new one behind the others. `none` is a
-- failed BUG_ON, which is for more than 256 children; a 257th child, written behind the array of 256
-- though no BUG_ON fails; or a name of 128 characters or more, which `strcopy` writes on behind
-- `name_` with its 0.
unfoldable pub find_last : (level : List ℕ) → NodeType → Nodes → Option ℕ → Option (ℕ × Nodes)
find_last level type children (some j) = some (j, children)
find_last level type children none =
    if leb 128 (length level) || leb 256 (children_num children)
    then none
    else some (children_num children, add_child (init_fs_node level type) children)

-- `find_node` below a node, for the levels that are left: where it ends, and the node with what is new
unfoldable pub find_levels : (levels : List (List ℕ)) → NodeType → Node → Option (List ℕ × Node)
find_levels [] type node = none
find_levels (level ∷ rest) type (fs_node file name contents children) = none
find_levels (level ∷ []) type (fs_node dir name contents children) = do
  (j, children) ← find_last level type children (find_child level children)
  some (j ∷ [], fs_node dir name contents children)
find_levels (level ∷ next ∷ rest) type (fs_node dir name contents children) = do
  j ← find_child level children
  child ← child_at j children
  (p, child) ← find_levels (next ∷ rest) type child
  some (j ∷ p, fs_node dir name contents (set_child j child children))

-- `find_node`, from `fs_root_ptr`; `none` also for a place of the array that has no level
unfoldable pub find_node : (name : List ℕ) → NodeType → (root : Node) → Option (List ℕ × Node)
find_node name type root = do
  (levels_num, levels) ← name_to_levels_array name
  if levels_num == length levels then find_levels levels type root else none

-- What a pointer to a node leads to, and a write through it
unfoldable pub node_at : List ℕ → Node → Option Node
node_at [] node = some node
node_at (j ∷ p) (fs_node type name contents children) = do
  child ← child_at j children
  node_at p child

unfoldable pub update_at : List ℕ → (Node → Node) → Node → Node
update_at [] f node = f node
update_at (j ∷ p) f (fs_node type name contents children) = elim (child_at j children) [
  | none ↦ fs_node type name contents children
  | some child ↦ fs_node type name contents (set_child j (update_at p f child) children)
]

unfoldable pub opened_of : Node → Bool
opened_of (fs_node type name contents children) = contents.opened

unfoldable pub set_opened : Bool → Node → Node
set_opened b (fs_node type name contents children) =
    fs_node type name (record contents { opened = b }) children

-- The guard of `open`
unfoldable pub open_at : List ℕ → Node → Option Node → Option (List ℕ × Node)
open_at p root none = none
open_at p root (some node) =
    if opened_of node then none else some (p, update_at p (set_opened true) root)

-- `open`
unfoldable pub open_node : (name : List ℕ) → (root : Node) → Option (List ℕ × Node)
open_node name root = do (p, root) ← find_node name file root; open_at p root (node_at p root)

-- `close`
unfoldable pub close : List ℕ → (root : Node) → Node
close p root = update_at p (set_opened false) root

-- `mkdir`
unfoldable pub mkdir : (name : List ℕ) → (root : Node) → Option Node
mkdir name root = do (p, root) ← find_node name dir root; some root

-- The loop of `readdir`
unfoldable pub names : Nodes → List (List ℕ)
names no_nodes = []
names (first_node node nodes) = name_of node ∷ names nodes

unfoldable pub names_of : Node → List (List ℕ)
names_of (fs_node type name contents children) = names children

-- `readdir`, which makes a directory that is missing
unfoldable pub readdir : (name : List ℕ) → (root : Node) → Option (List (List ℕ) × Node)
readdir name root = do
  (p, root) ← find_node name dir root
  node ← node_at p root
  some (names_of node, root)
