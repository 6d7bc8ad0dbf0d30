-- ===== src/FileSystem/Nodes/Leads.antt =====
-- `find_node` of src/file_system.c: the nodes that paths lead to.
use files_co.Base.{
  false, arith, ◌<◌, ℕ, ◌≡◌, ◌∙◌, ap, refl, true, List, [], ◌∷◌, ◌⊎◌, inl, inr, Option, none, some,
  leb, ◌||◌, length, ◌>>=◌, Bool-cases, Option-cases,
}
use files_co.FileSystem.Blocks.{Contents}
use files_co.FileSystem.Names.{streq}
use files_co.FileSystem.Nodes.{
  NodeType, file, dir, Node, Nodes, fs_node, name_of, children_num, add_child, child_at, set_child,
  find_child, find_last, find_levels, init_fs_node,
}
use files_co.FileSystem.Nodes.Children.{
  streq_self, child_at-add_child, child_at-set_child, set_child_same, find_child-child_at,
  find_child-add_child, find_child-set_child,
}

-- From the node on, the levels are names, as `streq` takes them, of the nodes on the path.
pub data Leads : List (List ℕ) → List ℕ → Node → Type 0 where
  leads_last :
      {level : List ℕ} {name : List ℕ} {contents : Contents} {ch : Nodes} {j : ℕ} {child : Node}
      → find_child level ch ≡ some j
      → child_at j ch ≡ some child
      → Leads (level ∷ []) (j ∷ []) (fs_node dir name contents ch)
  leads_step :
      {level next : List ℕ} {rest : List (List ℕ)} {name : List ℕ} {contents : Contents}
      {ch : Nodes} {j : ℕ} {p : List ℕ} {child : Node}
      → find_child level ch ≡ some j
      → child_at j ch ≡ some child
      → Leads (next ∷ rest) p child
      → Leads (level ∷ next ∷ rest) (j ∷ p) (fs_node dir name contents ch)

-- A path is found, and nothing is made.
pub find_levels-Leads :
    (levels : List (List ℕ)) (type : NodeType) (p : List ℕ) (node : Node)
    → Leads levels p node
    → find_levels levels type node ≡ some (p, node)
unfolding find_levels find_last
find_levels-Leads levels type p node (leads_last f c) = rw f refl
find_levels-Leads levels type p node
      (leads_step {name = name} {contents = contents} {ch = ch} {j = j} {p = q} {child = child} f c
        l) =
    rw (f, c, find_levels-Leads _ type q child l)
      (ap (λ (t : Nodes). some (j ∷ q, fs_node dir name contents t)) (set_child_same j child ch c))

-- What `find_node` makes of a node
unfoldable pub Outcome : List (List ℕ) → Node → Option (List ℕ × Node) → Type 0
Outcome levels node r =
    (r ≡ none)
    ⊎ (p : List ℕ) × (node' : Node) × (r ≡ some (p, node'))
      × Leads levels p node'
      × (name_of node' ≡ name_of node)

last_Outcome :
    (level : List ℕ) (type : NodeType) (name : List ℕ) (contents : Contents) (ch : Nodes)
    → Outcome
        (level ∷ [])
        (fs_node dir name contents ch)
        (find_levels (level ∷ []) type (fs_node dir name contents ch))
unfolding find_levels Outcome
last_Outcome level type name contents ch = elim (Option-cases (find_child level ch)) [
  | inr (j, f) ↦
      let (child, c) = find_child-child_at level ch j f in
      rw f (
        unfold find_last in
        inr (j ∷ [], fs_node dir name contents ch, refl, leads_last f c, unfold name_of in refl))
  | inl f ↦ elim (Bool-cases (leb 128 (length level) || leb 256 (children_num ch))) [
    | inl full ↦ rw f (unfold find_last in rw full (inl refl))
    | inr room ↦
        let new = init_fs_node level type in
        let named : streq level (name_of (init_fs_node level type)) ≡ true =
          unfold init_fs_node name_of in streq_self level in
        rw f (
          unfold find_last in
          rw room (
            inr (
              children_num ch ∷ [],
              fs_node dir name contents (add_child new ch),
              refl,
              leads_last (find_child-add_child level new ch f named) (child_at-add_child new ch),
              unfold name_of in refl,
            )))
  ]
]

step_Outcome :
    (level next : List ℕ) (rest : List (List ℕ)) (name : List ℕ) (contents : Contents) (ch : Nodes)
    (j : ℕ) (child : Node) (r : Option (List ℕ × Node))
    → find_child level ch ≡ some j
    → child_at j ch ≡ some child
    → Outcome (next ∷ rest) child r
    → Outcome
        (level ∷ next ∷ rest)
        (fs_node dir name contents ch)
        (do (q, new) ← r; some (j ∷ q, fs_node dir name contents (set_child j new ch)))
unfolding Outcome
step_Outcome level next rest name contents ch j child r f c (inl e) = rw e (inl refl)
step_Outcome level next rest name contents ch j child r f c (inr (q, new, e, l, same)) = rw e (
    inr (
      j ∷ q,
      fs_node dir name contents (set_child j new ch),
      refl,
      leads_step (find_child-set_child level j child new ch c same ∙ f)
          (child_at-set_child j child new ch c) l,
      unfold name_of in refl,
    ))

pub find_levels-Outcome :
    (levels : List (List ℕ)) (type : NodeType) (node : Node)
    → Outcome levels node (find_levels levels type node)
unfolding find_levels Outcome
find_levels-Outcome [] type node = inl refl
find_levels-Outcome (level ∷ rest) type (fs_node file name contents ch) = inl refl
find_levels-Outcome (level ∷ []) type (fs_node dir name contents ch) =
    last_Outcome level type name contents ch
find_levels-Outcome (level ∷ next ∷ rest) type (fs_node dir name contents ch) =
    elim (Option-cases (find_child level ch)) [
      | inl f ↦ rw f (inl refl)
      | inr (j, f) ↦ elim (Option-cases (child_at j ch)) [
        | inl c ↦ rw (f, c) (inl refl)
        | inr (child, c) ↦
            rw (f, c)
              (step_Outcome level next rest name contents ch j child
                (find_levels (next ∷ rest) type child) f c
                (find_levels-Outcome (next ∷ rest) type child))
      ]
    ]

-- The levels but the last one are directories that are there, and for the last one there is a child, or
-- room for its name and for one more child.
unfoldable pub CanFind : List (List ℕ) → Node → Type 0
CanFind [] node = ⊥
CanFind (level ∷ rest) (fs_node file name contents ch) = ⊥
CanFind (level ∷ []) (fs_node dir name contents ch) =
    ((j : ℕ) × (find_child level ch ≡ some j)) ⊎ (length level < 128) × (children_num ch < 256)
CanFind (level ∷ next ∷ rest) (fs_node dir name contents ch) =
    (j : ℕ) × (child : Node) × (find_child level ch ≡ some j)
    × (child_at j ch ≡ some child)
    × CanFind (next ∷ rest) child

find_last-found :
    (level : List ℕ) (type : NodeType) (ch : Nodes)
    → ((j : ℕ) × (find_child level ch ≡ some j)) ⊎ (length level < 128) × (children_num ch < 256)
    → (q : ℕ × Nodes) × (find_last level type ch (find_child level ch) ≡ some q)
unfolding find_last
find_last-found level type ch (inl (j, f)) = rw f (_, refl)
find_last-found level type ch (inr (short, few)) = elim (Option-cases (find_child level ch)) [
  | inr (j, f) ↦ rw f (_, refl)
  | inl f ↦
      let room : (leb 128 (length level) || leb 256 (children_num ch)) ≡ false = ground arith in
      rw (f, room) (_, refl)
]

pub find_levels-CanFind :
    (levels : List (List ℕ)) (type : NodeType) (node : Node)
    → CanFind levels node
    → (q : List ℕ × Node) × (find_levels levels type node ≡ some q)
unfolding find_levels CanFind
find_levels-CanFind [] type node can = absurd can
find_levels-CanFind (level ∷ rest) type (fs_node file name contents ch) can = absurd can
find_levels-CanFind (level ∷ []) type (fs_node dir name contents ch) can =
    let (q, e) = find_last-found level type ch can in rw e (_, refl)
find_levels-CanFind (level ∷ next ∷ rest) type (fs_node dir name contents ch)
      (j, child, f, c, can) =
    let (q, e) = find_levels-CanFind (next ∷ rest) type child can in rw (f, c, e) (_, refl)
