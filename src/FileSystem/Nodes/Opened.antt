-- ===== src/FileSystem/Nodes/Opened.antt =====
-- `open`, `close`, `mkdir` and `readdir` of src/file_system.c.
use files_co.Base.{
  sym, ℕ, ◌==◌, length, arith, ◌≡◌, ◌∙◌, refl, Bool, true, false, List, [], ◌∷◌, ◌⊎◌, inl, inr,
  none, some, if◌then◌else◌, Bool-cases, Option-cases,
}
use files_co.FileSystem.Names.{name_to_levels_array}
use files_co.FileSystem.Nodes.{
  NodeType, file, dir, Node, fs_node, name_of, child_at, find_node, node_at, update_at, opened_of,
  set_opened, open_at, open_node, close, mkdir, names_of, readdir,
}
use files_co.FileSystem.Nodes.Children.{child_at-set_child, find_child-set_child}
use files_co.FileSystem.Nodes.Leads.{
  Leads, leads_last, leads_step, Outcome, find_levels-Leads, find_levels-Outcome, CanFind,
  find_levels-CanFind,
}

-- A path that `find_node` finds by the name, and the tree as it is then
pub record Found (name : List ℕ) (p : List ℕ) (root : Node) : Type 0 where
  pub levels : List (List ℕ)
  pub of_name : name_to_levels_array name ≡ some (length levels, levels)
  pub leads : Leads levels p root

pub Found-again :
    (name : List ℕ) (type : NodeType) (p : List ℕ) (root : Node)
    → Found name p root
    → find_node name type root ≡ some (p, root)
unfolding find_node
Found-again name type p root f =
    let all : (length f.levels == length f.levels) ≡ true = ground arith in
    rw (f.of_name, all) (find_levels-Leads f.levels type p root f.leads)

-- The levels of the name but the last one are directories that are there, and the last one is there
-- or can be made.
unfoldable pub Findable : List ℕ → Node → Type 0
Findable name root =
    (levels : List (List ℕ)) × (name_to_levels_array name ≡ some (length levels, levels))
    × CanFind levels root

find_node-Findable :
    (name : List ℕ) (type : NodeType) (root : Node)
    → Findable name root
    → (q : List ℕ × Node) × (find_node name type root ≡ some q)
unfolding find_node Findable
find_node-Findable name type root (levels, e, can) =
    let all : (length levels == length levels) ≡ true = ground arith in
    let (q, run) = find_levels-CanFind levels type root can in (q, rw (e, all) run)

failed-Findable :
    (name : List ℕ) (type : NodeType) (root : Node)
    → find_node name type root ≡ none
    → ¬ Findable name root
failed-Findable name type root e can =
    let (q, run) = find_node-Findable name type root can in
    let clash : none ≡ some q = sym e ∙ run in absurd (ground arith)

find_node_finds :
    (name : List ℕ) (type again : NodeType) (root : Node)
    → (find_node name type root ≡ none)
      ⊎ (p : List ℕ) × (root' : Node) × (find_node name type root ≡ some (p, root'))
        × Found name p root'
        × (find_node name again root' ≡ some (p, root'))
unfolding find_node Outcome
find_node_finds name type again root = elim (Option-cases (name_to_levels_array name)) [
  | inl e ↦ rw e (inl refl)
  | inr ((levels_num, levels), e) ↦ elim (Bool-cases (levels_num == length levels)) [
    | inr short ↦ inl (rw (e, short) refl)
    | inl all ↦ elim (find_levels-Outcome levels type root) [
      | inl b ↦ inl (rw (e, all) b)
      | inr (p, root', run, l, same) ↦
          let count : levels_num ≡ length levels = ground arith in
          let f : Found name p root' = record {
            levels = levels;
            of_name = rw count at e;
            leads = l;
          } in
          inr (p, root', rw (e, all) run, f, Found-again name again p root' f)
    ]
  ]
]

name_of-update_at :
    (p : List ℕ) (f : Node → Node) (node : Node)
    → ((n : Node) → name_of (f n) ≡ name_of n)
    → name_of (update_at p f node) ≡ name_of node
unfolding update_at name_of
name_of-update_at [] f node keep = keep node
name_of-update_at (j ∷ p) f (fs_node type name contents ch) keep =
    elim (Option-cases (child_at j ch)) [
      | inl e ↦ rw (e, name_of, update_at) refl
      | inr (child, e) ↦ rw (e, name_of, update_at) refl
    ]

update_at-Leads :
    (levels : List (List ℕ)) (p : List ℕ) (f : Node → Node) (node : Node)
    → ((n : Node) → name_of (f n) ≡ name_of n)
    → Leads levels p node
    → Leads levels p (update_at p f node)
unfolding update_at
update_at-Leads levels p f node keep
      (leads_last {level = level} {ch = ch} {j = j} {child = child} e c) =
    rw (c, update_at)
      (leads_last (find_child-set_child level j child (f child) ch c (keep child) ∙ e)
        (child_at-set_child j child (f child) ch c))
update_at-Leads levels p f node keep
      (leads_step {level = level} {ch = ch} {j = j} {p = q} {child = child} e c l) =
    rw (c, update_at)
      (leads_step
        (find_child-set_child level j child (update_at q f child) ch c
            (name_of-update_at q f child keep)
          ∙ e)
        (child_at-set_child j child (update_at q f child) ch c)
        (update_at-Leads _ q f child keep l))

-- What the path leads to, before and after a write through it
node_at-update_at :
    (levels : List (List ℕ)) (p : List ℕ) (f : Node → Node) (node : Node)
    → Leads levels p node
    → (n : Node) × (node_at p node ≡ some n) × (node_at p (update_at p f node) ≡ some (f n))
unfolding node_at update_at
node_at-update_at levels p f node (leads_last {ch = ch} {j = j} {child = child} e c) =
    (child, rw c refl, rw (update_at, c) (rw (child_at-set_child j child (f child) ch c) refl))
node_at-update_at levels p f node (leads_step {ch = ch} {j = j} {p = q} {child = child} e c l) =
    let (n, old, new) = node_at-update_at _ q f child l in
    (
      n,
      rw c old,
      rw (update_at, c) (rw (child_at-set_child j child (update_at q f child) ch c) new),
    )

name_of-set_opened : (b : Bool) (n : Node) → name_of (set_opened b n) ≡ name_of n
unfolding name_of set_opened
name_of-set_opened b (fs_node type name contents ch) = refl

opened_of-set_opened : (b : Bool) (n : Node) → opened_of (set_opened b n) ≡ b
unfolding opened_of set_opened
opened_of-set_opened b (fs_node type name contents ch) = refl

-- A write of the mark keeps the path, and the node at its end has the mark.
marked :
    (name : List ℕ) (p : List ℕ) (root : Node) (b : Bool)
    → Found name p root
    → (n : Node) × (node_at p (update_at p (set_opened b) root) ≡ some n)
      × (opened_of n ≡ b)
      × Found name p (update_at p (set_opened b) root)
marked name p root b f =
    let (n, old, new) = node_at-update_at f.levels p (set_opened b) root f.leads in
    (
      set_opened b n,
      new,
      opened_of-set_opened b n,
      record {
        levels = f.levels;
        of_name = f.of_name;
        leads = update_at-Leads f.levels p (set_opened b) root (name_of-set_opened b) f.leads;
      },
    )

-- `open` of a name whose path is there
open_there :
    (name : List ℕ) (p : List ℕ) (root n : Node) (b : Bool)
    → Found name p root
    → node_at p root ≡ some n
    → opened_of n ≡ b
    → open_node name root ≡ (if b then none else some (p, update_at p (set_opened true) root))
unfolding open_node open_at
open_there name p root n b f at o = rw (Found-again name file p root f, at, o) refl

-- `open` opens a node: the node has the mark, a further `open` of it is a BUG_ON, and once it is closed,
-- `open` opens it again. Or `open` runs into a BUG_ON or writes outside an array; then the name is not
-- `Findable`, or the node that `find_node` gives has the mark.
pub open_node-Outcome :
    (name : List ℕ) (root : Node)
    → (open_node name root ≡ none)
        × ((¬ Findable name root)
            ⊎ (p : List ℕ) × (made n : Node) × (find_node name file root ≡ some (p, made))
              × (node_at p made ≡ some n)
              × (opened_of n ≡ true))
      ⊎ (p : List ℕ) × (root' : Node) × (open_node name root ≡ some (p, root'))
        × ((n : Node) × (node_at p root' ≡ some n) × (opened_of n ≡ true))
        × (open_node name root' ≡ none)
        × ((root'' : Node) × (open_node name (close p root') ≡ some (p, root'')))
unfolding open_node close
open_node-Outcome name root = elim (find_node_finds name file file root) [
  | inl e ↦ inl (rw e refl, inl (failed-Findable name file root e))
  | inr (p, made, run, f, again) ↦
      let (n, at, same) = node_at-update_at f.levels p (λ m. m) made f.leads in
      elim (Bool-cases (opened_of n)) [
        | inl o ↦ inl (rw run (unfold open_at in rw (at, o) refl), inr (p, made, n, run, at, o))
        | inr o ↦
            let root' = update_at p (set_opened true) made in
            let (n1, at1, o1, f1) = marked name p made true f in
            let (n2, at2, o2, f2) = marked name p root' false f1 in
            inr (
              p,
              root',
              rw run (unfold open_at in rw (at, o) refl),
              (n1, at1, o1),
              open_there name p root' n1 true f1 at1 o1,
              (
                update_at p (set_opened true) (close p root'),
                open_there name p (close p root') n2 false f2 at2 o2,
              ),
            )
      ]
]

-- A directory that `mkdir` makes or finds is there for `readdir`, which makes nothing and gives the
-- names of the children; without it, `mkdir` is a BUG_ON.
pub readdir-mkdir :
    (name : List ℕ) (root : Node)
    → (mkdir name root ≡ none)
      ⊎ (root' node : Node) × (p : List ℕ) × (mkdir name root ≡ some root')
        × (node_at p root' ≡ some node)
        × (readdir name root' ≡ some (names_of node, root'))
        × (mkdir name root' ≡ some root')
unfolding mkdir readdir
readdir-mkdir name root = elim (find_node_finds name dir dir root) [
  | inl e ↦ rw e (inl refl)
  | inr (p, root', run, f, again) ↦
      let (n, at, same) = node_at-update_at f.levels p (λ m. m) root' f.leads in
      inr (root', n, p, rw run refl, at, rw (again, at) refl, rw again refl)
]
