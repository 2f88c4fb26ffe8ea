-- ===== src/Node/Tests.antt =====
-- Node.py: paths between the nodes of a small tree, and the theorems at them.
use meguro.Base.{string_eq, String, List, [], ◌∷◌, some, ◌≡◌, refl}
use meguro.Node.{
  Node, relpath_gen, path_to_parent, is_child_of, over_ancestor, find_ancestor, ancestor_from, meet,
  same_node, height, climb, names_to, names_up,
}
use meguro.Node.Relative.{follow, follow-relpath_gen, follow-path_to_parent}

abbrev source : Node
source = "a.c" ∷ "src" ∷ "top" ∷ []

abbrev build : Node
build = "default" ∷ "build" ∷ "top" ∷ []

relpath_test : relpath_gen source build ≡ some (".." ∷ ".." ∷ "src" ∷ "a.c" ∷ [])
unfolding relpath_gen over_ancestor find_ancestor ancestor_from meet same_node height climb names_to
relpath_test = refl

path_test : path_to_parent source ("top" ∷ []) ≡ "src" ∷ "a.c" ∷ []
unfolding path_to_parent height names_up
path_test = refl

follow-relpath_gen_example :
    (path : List String) × ((relpath_gen source build ≡ some path) × (follow build path ≡ source))
follow-relpath_gen_example =
    follow-relpath_gen source build ((refl, refl), ((refl, refl), ((refl, refl), tt)))

follow-path_to_parent_example : follow ("top" ∷ []) (path_to_parent source ("top" ∷ [])) ≡ source
unfolding is_child_of same_node height climb
follow-path_to_parent_example =
    follow-path_to_parent source ("top" ∷ []) ((refl, refl), ((refl, refl), ((refl, refl), tt)))
      refl
