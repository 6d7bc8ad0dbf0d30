-- ===== src/FileSystem/Nodes/Children.antt =====
-- The children of a node of src/file_system.c, by position and by name.
use files_co.Base.{
  ℕ, zero, suc, ◌≡◌, ◌∙◌, ap, sym, refl, Bool, true, false, List, [], ◌∷◌, Option, none, some, ◌==◌,
  arith,
}
use mathlib.Core.Option.{some-injective}
use files_co.FileSystem.Names.{streq}
use files_co.FileSystem.Nodes.{
  Node, Nodes, no_nodes, first_node, name_of, children_num, add_child, child_at, set_child,
  found_first, find_child,
}

pub streq_self : (name : List ℕ) → streq name name ≡ true
unfolding streq
streq_self [] = refl
streq_self (c ∷ name) = let e : (c == c) ≡ true = ground arith in rw e (streq_self name)

pub child_at-add_child :
    (new : Node) (ch : Nodes) → child_at (children_num ch) (add_child new ch) ≡ some new
unfolding child_at add_child children_num
child_at-add_child new no_nodes = refl
child_at-add_child new (first_node node ch) = child_at-add_child new ch

pub child_at-set_child :
    (j : ℕ) (old new : Node) (ch : Nodes)
    → child_at j ch ≡ some old
    → child_at j (set_child j new ch) ≡ some new
unfolding child_at set_child
child_at-set_child j old new no_nodes e = absurd (ground (arith, e))
child_at-set_child zero old new (first_node node ch) e = refl
child_at-set_child (suc j) old new (first_node node ch) e = child_at-set_child j old new ch e

pub set_child_same :
    (j : ℕ) (old : Node) (ch : Nodes) → child_at j ch ≡ some old → set_child j old ch ≡ ch
unfolding child_at set_child
set_child_same j old no_nodes e = refl
set_child_same zero old (first_node node ch) e =
    ap (λ (t : Node). first_node t ch) (sym (some-injective node old e))
set_child_same (suc j) old (first_node node ch) e = ap (first_node node) (set_child_same j old ch e)

found_child :
    (node : Node) (ch : Nodes) (b : Bool) (r : Option ℕ) (j : ℕ)
    → found_first b r ≡ some j
    → ((k : ℕ) → r ≡ some k → (c : Node) × (child_at k ch ≡ some c))
    → (c : Node) × (child_at j (first_node node ch) ≡ some c)
unfolding found_first child_at
found_child node ch true r j e ih = let z : j ≡ 0 = sym (some-injective 0 j e) in rw z (node, refl)
found_child node ch false none j e ih = absurd (ground (arith, e))
found_child node ch false (some k) j e ih =
    let z : j ≡ suc k = sym (some-injective (suc k) j e) in rw z (ih k refl)

pub find_child-child_at :
    (level : List ℕ) (ch : Nodes) (j : ℕ)
    → find_child level ch ≡ some j
    → (c : Node) × (child_at j ch ≡ some c)
unfolding find_child
find_child-child_at level no_nodes j e = absurd (ground (arith, e))
find_child-child_at level (first_node node ch) j e =
    found_child node ch (streq level (name_of node)) (find_child level ch) j e
      (λ k f. find_child-child_at level ch k f)

found_none : (b : Bool) (r : Option ℕ) → found_first b r ≡ none → (b ≡ false) × (r ≡ none)
unfolding found_first
found_none true r e = absurd (ground (arith, e))
found_none false none e = (refl, refl)
found_none false (some j) e = absurd (ground (arith, e))

pub find_child-add_child :
    (level : List ℕ) (new : Node) (ch : Nodes)
    → find_child level ch ≡ none
    → streq level (name_of new) ≡ true
    → find_child level (add_child new ch) ≡ some (children_num ch)
unfolding find_child add_child children_num
find_child-add_child level new no_nodes e s = unfold found_first in rw s refl
find_child-add_child level new (first_node node ch) e s =
    let (other, later) = found_none (streq level (name_of node)) (find_child level ch) e in
    rw (other, find_child-add_child level new ch later s) (unfold found_first in refl)

pub find_child-set_child :
    (level : List ℕ) (j : ℕ) (old new : Node) (ch : Nodes)
    → child_at j ch ≡ some old
    → name_of new ≡ name_of old
    → find_child level (set_child j new ch) ≡ find_child level ch
unfolding child_at set_child find_child
find_child-set_child level j old new no_nodes e same = refl
find_child-set_child level zero old new (first_node node ch) e same =
    let n : name_of new ≡ name_of node = same ∙ ap name_of (sym (some-injective node old e)) in
    rw n refl
find_child-set_child level (suc j) old new (first_node node ch) e same =
    rw (find_child-set_child level j old new ch e same) refl
