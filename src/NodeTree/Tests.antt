-- ===== src/NodeTree/Tests.antt =====
-- Node.py: searches in a small tree.
use Prim.Native.String.{◌++◌ as ◌+◌}
use meguro.Base.{
  string_eq, nat_eq, ℕ, ◌%◌, ◌≤◌, ◌<◌, String, List, [], ◌∷◌, ◌++◌, Option, none, some, Bool, true,
  false, if◌then◌else◌, ◌==◌, ◌≡◌, refl, lookup, insert, delete, arith,
}
use meguro.Base.Raise.{ok, err}
use meguro.NodeTree.{
  waf_error, dir, build, code, Tree, Context, is_kind, child, new_node, rescan, Disk, abspath, get,
  parent_of,
}
use meguro.NodeTree.Growth.{bound, IsTree, is_tree, Kept, kept_refl}
use meguro.NodeTree.Search.{
  find_dir, find_resource, find_or_declare, exclusive_build_node, ensure_dir_node_from_path,
}
use meguro.NodeTree.Declared.{find_dir_again, find_resource_again, find_or_declare_again}
use meguro.NodeTree.Paths.{IsAt, at_root, at_child, followed}
use meguro.NodeTree.Located.{find_dir-abspath, find_or_declare-abspath}
use meguro.NodeTree.Invariant.{Keeps, searches-Keeps, get-new_node}

abbrev joined : List String → String
joined [] = ""
joined (x ∷ l) = "/" + (x + joined l)

-- A source folder with a file and a folder `lib`, which the build directory lacks.
abbrev folder_of : String → Option (List String)
folder_of path =
    if path == "/src"
    then some ("a.c" ∷ "lib" ∷ [])
    else (if path == "/src/lib"
        then some ("b.c" ∷ [])
        else (if path == "/build/default" then some [] else none))

abbrev disk : Disk
disk = record {
  listdir = λ path. folder_of (joined path);
  h_file = λ path. some (joined path);
  isdir = λ path. joined path == "/src/lib";
  makedirs = λ path. true;
}

abbrev ctx : Context
ctx = record { disk = disk; srcnode = 9; bldnode = 13; lst_variants = "default" ∷ [] }

abbrev root_only : Tree
root_only = record {
  id_nodes = 4;
  names = (5, "") ∷ [];
  parents = [];
  childs = (5, []) ∷ [];
  cache_scanned_folders = [];
  cache_dir_contents = [];
  source_sigs = [];
  variant_sigs = ("default", []) ∷ [];
}

root_only-IsTree : IsTree root_only
unfolding child lookup
root_only-IsTree = is_tree refl (λ n s c h. empty n s c (5 == n) h) λ n p h. cc
  where
    empty :
        (n : ℕ) (s : String) (c : ℕ) (e : Bool)
        → (elim (if◌then◌else◌ {A = Option (List (String × ℕ))} e (some []) none)
            as (λ _. Option ℕ) [ none ↦ none | some d ↦ lookup s d ])
          ≡ some c
        → (c < bound root_only)
          × ((lookup c root_only.names ≡ some s) × (parent_of c root_only ≡ some n))
    empty n s c true h = cc
    empty n s c false h = cc

abbrev start : Tree
start = record {
  id_nodes = 12;
  names = (5, "") ∷ (9, "src") ∷ (13, "build") ∷ [];
  parents = (9, 5) ∷ (13, 5) ∷ [];
  childs = (5, ("src", 9) ∷ ("build", 13) ∷ []) ∷ (9, []) ∷ (13, []) ∷ [];
  cache_scanned_folders = [];
  cache_dir_contents = [];
  source_sigs = [];
  variant_sigs = ("default", []) ∷ [];
}

start-IsTree : IsTree start
unfolding ensure_dir_node_from_path lookup insert Keeps
start-IsTree =
    let src = searches-Keeps ctx 5 ("src" ∷ []) "" dir root_only root_only-IsTree (omega arith) in
    let bld =
      searches-Keeps ctx 5 ("build" ∷ []) "" dir
        (ensure_dir_node_from_path ctx 5 ("src" ∷ []) root_only).1 src.1.0.0 (omega arith) in
    bld.1.0.0

-- With `lib` and a file that is to be made in it.
abbrev built : Tree
built = record start {
  id_nodes = 20;
  names = (5, "") ∷ (9, "src") ∷ (13, "build") ∷ (17, "lib") ∷ (23, "b.o") ∷ [];
  parents = (9, 5) ∷ (13, 5) ∷ (17, 9) ∷ (23, 17) ∷ [];
  childs =
      (5, ("src", 9) ∷ ("build", 13) ∷ [])
      ∷ (9, ("lib", 17) ∷ [])
      ∷ (13, [])
      ∷ (17, ("b.o", 23) ∷ [])
      ∷ [];
  cache_scanned_folders = 17 ∷ 9 ∷ [];
  cache_dir_contents = (9, "a.c" ∷ "lib" ∷ []) ∷ (17, "b.c" ∷ []) ∷ [];
}

declare_b : find_or_declare ctx 9 ("lib" ∷ []) "b.o" start ≡ (ok (some 23), built)
unfolding find_or_declare lookup insert delete
declare_b = refl

-- The sources that follow are hashed, and stay by the side of what was declared.
abbrev later : Tree
later = record built {
  id_nodes = 24;
  names = (5, "") ∷ (9, "src") ∷ (13, "build") ∷ (17, "lib") ∷ (23, "b.o") ∷ (26, "b.c") ∷ [];
  parents = (9, 5) ∷ (13, 5) ∷ (17, 9) ∷ (23, 17) ∷ (26, 17) ∷ [];
  childs =
      (5, ("src", 9) ∷ ("build", 13) ∷ [])
      ∷ (9, ("lib", 17) ∷ [])
      ∷ (13, [])
      ∷ (17, ("b.o", 23) ∷ ("b.c", 26) ∷ [])
      ∷ [];
  source_sigs = (26, "/src/lib/b.c") ∷ [];
}

resource_b : find_resource ctx 9 ("lib" ∷ []) "b.c" built ≡ (ok (some 26), later)
unfolding find_resource lookup insert delete
resource_b = refl

missing_dir : find_dir ctx 9 ("a.c" ∷ []) built ≡ (ok none, built)
unfolding find_dir lookup insert delete
missing_dir = refl

source_refused : find_or_declare ctx 9 ("lib" ∷ []) "b.c" later ≡ (err waf_error, later)
unfolding find_or_declare lookup insert delete
source_refused = refl

built-IsTree : IsTree built
unfolding find_or_declare lookup insert delete Keeps
built-IsTree =
    (searches-Keeps ctx 9 ("lib" ∷ []) "b.o" dir start start-IsTree (omega arith)).0.1.0.0

built-later : Kept built later
unfolding find_resource lookup insert delete Keeps
built-later = (searches-Keeps ctx 9 ("lib" ∷ []) "b.c" dir built built-IsTree (omega arith)).0.0.1.1

find_dir_again_example : find_dir ctx 9 ("lib" ∷ []) later ≡ (ok (some 17), later)
unfolding find_dir lookup insert delete
find_dir_again_example =
    find_dir_again ctx 9 17 ("lib" ∷ []) built built later built-IsTree (omega arith) refl
      built-later

find_resource_again_example : find_resource ctx 9 ("lib" ∷ []) "b.c" later ≡ (ok (some 26), later)
unfolding find_resource lookup insert delete
find_resource_again_example =
    find_resource_again ctx 9 26 ("lib" ∷ []) "b.c" built later later built-IsTree (omega arith)
      refl (kept_refl later)

find_or_declare_again_example :
    (is_kind build 23 ≡ true)
    × ((find_or_declare ctx 9 ("lib" ∷ []) "b.o" later ≡ (ok (some 23), later))
        × (find_resource ctx 9 ("lib" ∷ []) "b.o" later ≡ (ok (some 23), later)))
unfolding find_or_declare lookup insert delete
find_or_declare_again_example =
    find_or_declare_again ctx 9 23 ("lib" ∷ []) "b.o" start built later start-IsTree (omega arith)
      refl built-later

searches-Keeps_example :
    ((Keeps (find_dir ctx 9 ("lib" ∷ [])) start
        × Keeps (find_resource ctx 9 ("lib" ∷ []) "b.o") start)
      × (Keeps (find_or_declare ctx 9 ("lib" ∷ []) "b.o") start
          × Keeps (exclusive_build_node ctx 9 ("lib" ∷ []) "b.o") start))
    × (Keeps (ensure_dir_node_from_path ctx 9 ("lib" ∷ [])) start
        × (Keeps (rescan ctx 9) start × Keeps (new_node "b.o" 9 build) start))
searches-Keeps_example =
    searches-Keeps ctx 9 ("lib" ∷ []) "b.o" build start start-IsTree (omega arith)

abbrev with_log : Tree
with_log = record start {
  id_nodes = 16;
  names = (5, "") ∷ (9, "src") ∷ (13, "build") ∷ (19, "log") ∷ [];
  parents = (9, 5) ∷ (13, 5) ∷ (19, 9) ∷ [];
  childs = (5, ("src", 9) ∷ ("build", 13) ∷ []) ∷ (9, ("log", 19) ∷ []) ∷ (13, []) ∷ [];
}

get-new_node_example :
    ((16 ≤ 19) × ((19 < 20) × (19 % 4 ≡ code build)))
    × (get build 9 "log" with_log
        ≡ (ok (if code build == code build then some 19 else none), with_log))
unfolding new_node lookup insert
get-new_node_example =
    get-new_node 9 19 "log" build build start with_log start-IsTree (omega arith) refl

src-IsAt : IsAt start 9 ("src" ∷ [])
unfolding lookup
src-IsAt = at_child 9 5 [] "src" refl refl (at_root 5 refl refl)

-- Down to `lib`, above the root and down again.
abbrev round : List String
round = "lib" ∷ "." ∷ ".." ∷ ".." ∷ ".." ∷ "src" ∷ "" ∷ "lib" ∷ []

find_dir-abspath_example :
    abspath 17 (find_dir ctx 9 round start).1 ≡ followed (abspath 9 start) round
unfolding find_dir lookup insert delete
find_dir-abspath_example =
    find_dir-abspath ctx 9 17 ("src" ∷ []) round start (find_dir ctx 9 round start).1 start-IsTree
      (omega arith) src-IsAt refl

find_or_declare-abspath_example :
    abspath 23 built ≡ followed (abspath 9 start) ("lib" ∷ []) ++ "b.o" ∷ []
find_or_declare-abspath_example =
    find_or_declare-abspath ctx 9 23 ("src" ∷ []) ("lib" ∷ []) "b.o" start built start-IsTree
      (omega arith) src-IsAt declare_b

followed_test : followed ("src" ∷ []) round ≡ "src" ∷ "lib" ∷ []
followed_test = refl

abspath_b : abspath 23 built ≡ "src" ∷ "lib" ∷ "b.o" ∷ []
unfolding abspath lookup
abspath_b = refl
