-- ===== src/Node.antt =====
-- Node.py: a node's place in the tree, and the paths between nodes.
pub mod Relative
pub mod Tests
use meguro.Base.{
  string_eq, ℕ, zero, suc, ◌-◌, String, List, [], ◌∷◌, ◌++◌, Option, none, some, Bool, true, false,
  ◌&&◌, ltb, if◌then◌else◌, ◌==◌, length,
}

-- A node as its name and the names of the folders above it, the nearest first; the root is the empty
-- list. A folder has one child of a name, so nodes are the same where these are.
abbrev pub Node : Type 0
Node = List String

unfoldable pub same_node : Node → Node → Bool
same_node [] [] = true
same_node [] (y ∷ q) = false
same_node (x ∷ p) [] = false
same_node (x ∷ p) (y ∷ q) = x == y && same_node p q

-- `height`: the number of parents.
unfoldable pub height : Node → ℕ
height [] = 0
height (x ∷ p) = suc (height p)

-- `p = p.parent`, as often as it says.
unfoldable pub climb : ℕ → Node → Node
climb zero p = p
climb (suc n) [] = []
climb (suc n) (x ∷ p) = climb n p

unfoldable pub is_child_of : Node → Node → Bool
unfolding height climb same_node
is_child_of self node = same_node (climb (height self - height node) self) node

abbrev pub reverse_onto : List String → List String → List String
reverse_onto [] m = m
reverse_onto (x ∷ l) m = reverse_onto l (x ∷ m)

-- The names that are passed on the way up.
unfoldable pub names_up : ℕ → Node → List String
names_up zero p = []
names_up (suc n) [] = []
names_up (suc n) (x ∷ p) = x ∷ names_up n p

-- `path_to_parent`, as the list that is joined.
unfoldable pub path_to_parent : Node → Node → List String
unfolding height names_up
path_to_parent self parent = reverse_onto (names_up (height self - height parent) self) []

-- The loop of `find_ancestor`, with both at one height.
unfoldable pub meet : Node → Node → Option Node
unfolding same_node
meet (x ∷ cand) (y ∷ cursor) =
    let higher = meet cand cursor in if same_node cand cursor then some cand else higher
meet cand cursor = none

unfoldable pub ancestor_from : Node → Node → Option Node
unfolding height climb meet
ancestor_from self node =
    let cand = climb (height self - height node) self in
    if same_node cand node then some cand else meet cand node

unfoldable pub find_ancestor : Node → Node → Option Node
unfolding ancestor_from
find_ancestor self node =
    if ltb (height self) (height node) then ancestor_from node self else ancestor_from self node

-- The names from a node up to its ancestor.
unfoldable pub names_to : Node → Node → List String
names_to ancestor [] = []
names_to ancestor (x ∷ cand) =
    let above = names_to ancestor cand in if same_node (x ∷ cand) ancestor then [] else x ∷ above

abbrev pub dots : List String → List String
dots [] = []
dots (_ ∷ l) = ".." ∷ dots l

-- The path over the common ancestor; `none` where that is None.
unfoldable pub over_ancestor : Node → Node → Option (List String)
unfolding find_ancestor names_to
over_ancestor self from_node = elim (find_ancestor self from_node) [
  | none ↦ none
  | some ancestor ↦
      some (reverse_onto (names_to ancestor self ++ dots (names_to ancestor from_node)) [])
]

-- `relpath_gen`, as the list that is joined by `os.sep`.
unfoldable pub relpath_gen : Node → Node → Option (List String)
unfolding same_node over_ancestor
relpath_gen self [] = if same_node self [] then some ("." ∷ []) else over_ancestor self []
relpath_gen self (y ∷ above) =
    if same_node self (y ∷ above)
    then some ("." ∷ [])
    else if same_node above self
    then some (".." ∷ [])
    else over_ancestor self (y ∷ above)
