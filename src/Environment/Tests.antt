-- ===== src/Environment/Tests.antt =====
-- Runs of Environment.py's operations, and the theorems at concrete inputs.
use meguro.Base.{
  ◌≡◌, refl, [], ◌∷◌, ◌++◌, some, true, ◌||◌, arith, lookup, insert, string_eq, nat_eq,
}
use meguro.Environment.{
  Scalar, Heap, Environment, Arg, text, number, scalar, list, one, getitem, get_flat, append_value,
  list_for_modification, prepend_value, append_unique, add_unique, inherited, get_merged_dict,
  in_list, contains, arg_items,
}
use meguro.Environment.Isolation.{modification-parents, modification-listing, own_list, listing}
use meguro.Environment.Unique.{add_unique_lem, distinct}
use meguro.Environment.Merge.{getitem-get_merged_dict, contains-get_merged_dict, is_some}

-- A heap with one list, and an environment derived from one that holds it.
abbrev heap : Heap
heap = record { next = 1; cells = λ r. text "-g" ∷ [] }

abbrev root : Environment
root = record { table = ("CCFLAGS", list 0) ∷ ("CC", scalar (text "gcc")) ∷ []; parents = [] }

abbrev child : Environment
child = record { table = []; parents = root.table ∷ [] }

abbrev opt : Arg
opt = one (text "-O2")

append_value_test :
    (let (h, env) = append_value heap child "CCFLAGS" opt in get_flat h env "CCFLAGS")
    ≡ some "-g -O2"
unfolding getitem get_flat append_value list_for_modification lookup insert
append_value_test = refl

modification-parents_example :
    (inherited (append_value heap child "CCFLAGS" opt).0 child.parents "CCFLAGS"
      ≡ inherited heap child.parents "CCFLAGS")
    × (inherited (prepend_value heap child "CCFLAGS" opt).0 child.parents "CCFLAGS"
        ≡ inherited heap child.parents "CCFLAGS")
    × (inherited (append_unique heap child "CCFLAGS" opt).0 child.parents "CCFLAGS"
        ≡ inherited heap child.parents "CCFLAGS")
unfolding lookup
modification-parents_example =
    modification-parents heap child "CCFLAGS" opt "CCFLAGS" (((omega arith, tt), (tt, tt)), tt)

modification-listing_example :
    (own_list (append_value heap child "CCFLAGS" opt) "CCFLAGS"
      ≡ some (listing heap child "CCFLAGS" ++ arg_items opt))
    × (own_list (prepend_value heap child "CCFLAGS" opt) "CCFLAGS"
        ≡ some (arg_items opt ++ listing heap child "CCFLAGS"))
    × (own_list (append_unique heap child "CCFLAGS" opt) "CCFLAGS"
        ≡ some (add_unique (listing heap child "CCFLAGS") (arg_items opt)))
modification-listing_example = modification-listing heap child "CCFLAGS" opt

add_unique_lem_example :
    (distinct (add_unique (text "-g" ∷ []) (text "-g" ∷ number 1 ∷ [])) ≡ true)
    × ((z : Scalar)
        → in_list z (add_unique (text "-g" ∷ []) (text "-g" ∷ number 1 ∷ []))
          ≡ (in_list z (text "-g" ∷ []) || in_list z (text "-g" ∷ number 1 ∷ [])))
unfolding in_list
add_unique_lem_example = add_unique_lem (text "-g" ∷ []) (text "-g" ∷ number 1 ∷ []) refl

getitem-get_merged_dict_example : getitem child "CC" ≡ lookup "CC" (get_merged_dict child)
getitem-get_merged_dict_example = getitem-get_merged_dict child "CC" (tt, ((tt, (tt, tt)), tt))

contains-get_merged_dict_example :
    contains child "CC" ≡ is_some (lookup "CC" (get_merged_dict child))
contains-get_merged_dict_example = contains-get_merged_dict child "CC"
