-- ===== src/NodeTree.antt =====
-- Node.py and Build.py: the tree of nodes, and the search that extends it.
pub mod Search
pub mod Scan
pub mod Growth
pub mod Fresh
pub mod Finding
pub mod Again
pub mod Declared
pub mod Paths
pub mod Located
pub mod Invariant
pub mod Tests
use meguro.Base.{
  string_eq, nat_eq, ℕ, zero, suc, ◌+◌, ◌-◌, ◌%◌, String, List, [], ◌∷◌, ◌++◌, Option, none, some,
  Bool, true, false, not, ◌&&◌, ◌||◌, if◌then◌else◌, ◌==◌, mem, lookup, insert, delete, length,
}
use meguro.Base.Raise.{Result, ok, err, ◌>>=◌, ◌>>◌, return, raise}

pub data Failure : Type 0 where
  waf_error attribute_error key_error os_error : Failure

pub data Kind : Type 0 where
  undefined dir file build : Kind

abbrev pub code : Kind → ℕ
code undefined = 0
code dir = 1
code file = 2
code build = 3

-- The attributes of the nodes, by `id`, and of the build what the search reads and changes. The root has no parent, and only a
-- folder has `childs`. `source_sigs` is `node_sigs[0]`, `variant_sigs` the rest of `node_sigs`.
pub record Tree : Type 0 where
  pub id_nodes : ℕ
  pub names : List (ℕ × String)
  pub parents : List (ℕ × ℕ)
  pub childs : List (ℕ × List (String × ℕ))
  pub cache_scanned_folders : List ℕ
  pub cache_dir_contents : List (ℕ × List String)
  pub source_sigs : List (ℕ × String)
  pub variant_sigs : List (String × List (ℕ × String))

abbrev pub M : Type 0 → Type 0
M A = Tree → Result Failure A × Tree

-- The files, each folder on the way to one a name of the list; `none` and `false` stand for an OSError or IOError.
pub record Disk : Type 0 where
  pub listdir : List String → Option (List String)
  pub h_file : List String → Option String
  pub isdir : List String → Bool
  pub makedirs : List String → Bool

pub record Context : Type 0 where
  pub disk : Disk
  pub srcnode : ℕ
  pub bldnode : ℕ
  pub lst_variants : List String

-- `x.id & 3 == k`
abbrev pub is_kind : Kind → ℕ → Bool
is_kind k n = n % 4 == code k

abbrev pub name_of : ℕ → Tree → String
name_of n t = elim (lookup n t.names) [ none ↦ "" | some s ↦ s ]

abbrev pub parent_of : ℕ → Tree → Option ℕ
parent_of n t = lookup n t.parents

abbrev pub childs_of : ℕ → M (List (String × ℕ))
childs_of n t = elim (lookup n t.childs) [ none ↦ (err attribute_error, t) | some c ↦ (ok c, t) ]

-- `parent.childs.get(name, None)`, where `parent` has `childs`.
unfoldable pub child : ℕ → String → Tree → Option ℕ
child n s t = elim (lookup n t.childs) [ none ↦ none | some c ↦ lookup s c ]

-- The names from the node up to the root, whose own is left out; a parent is older than its childs.
unfoldable pub names_from : ℕ → ℕ → Tree → List String
names_from zero n t = []
names_from (suc fuel) n t = elim (parent_of n t) [
  | none ↦ []
  | some p ↦ name_of n t ∷ names_from fuel p t
]

abbrev pub reverse_onto : List String → List String → List String
reverse_onto [] m = m
reverse_onto (x ∷ l) m = reverse_onto l (x ∷ m)

unfoldable pub abspath : ℕ → Tree → List String
unfolding names_from
abspath n t = reverse_onto (names_from (suc n) n t) []

-- What is left of a path behind the first `n` names.
abbrev pub drop : ℕ → List String → List String
drop zero l = l
drop (suc n) [] = []
drop (suc n) (x ∷ l) = drop n l

-- `childs` with the new node, and of the new node if it is a folder.
abbrev pub with_child :
    Kind
    → ℕ
    → String
    → ℕ
    → List (String × ℕ)
    → List (ℕ × List (String × ℕ))
    → List (ℕ × List (String × ℕ))
with_child dir parent name id c childs = insert id [] (insert parent (insert name id c) childs)
with_child _ parent name id c childs = insert parent (insert name id c) childs

-- `Node.__init__`, for a node that has a parent.
unfoldable pub new_node : String → ℕ → Kind → M ℕ
unfolding child
new_node name parent kind t =
    let id = t.id_nodes + 4 + code kind in
    let t1 = record t { id_nodes = t.id_nodes + 4 } in
    elim (lookup parent t.childs) [
      | none ↦ (err attribute_error, t1)
      | some c ↦ elim (lookup name c) [
        | some other ↦ (err waf_error, t1)
        | none ↦ (
          ok id,
          record t1 {
            names = insert id name t.names;
            parents = insert id parent t.parents;
            childs = with_child kind parent name id c t.childs;
          },
        )
      ]
    ]

-- `get_dir`, `get_file` and `get_build`
unfoldable pub get : Kind → ℕ → String → M (Option ℕ)
get kind n s = do
  c ← childs_of n
  return (elim (lookup s c) [ none ↦ none | some x ↦ if is_kind kind x then some x else none ])

unfoldable pub without : List ℕ → List (ℕ × String) → List (ℕ × String)
without [] sigs = sigs
without (x ∷ l) sigs = without l (delete x sigs)

unfoldable pub ids_to_remove : List String → List (String × ℕ) → List ℕ
ids_to_remove lst [] = []
ids_to_remove lst ((s, x) ∷ c) =
    let more = ids_to_remove lst c in if is_kind build x && not (mem s lst) then x ∷ more else more

-- `listdir_bld`, where the folder could be listed.
unfoldable pub listdir_bld : List (String × ℕ) → List String → String → M (Unit {0})
unfolding without ids_to_remove
listdir_bld c lst variant t = elim (lookup variant t.variant_sigs) [
  | none ↦ (err key_error, t)
  | some sigs ↦ (
    ok tt,
    record t { variant_sigs = insert variant (without (ids_to_remove lst c) sigs) t.variant_sigs },
  )
]

-- Each child but the given one is deleted from `d` by its name.
unfoldable pub keep_only : ℕ → List (String × ℕ) → List (String × ℕ) → List (String × ℕ)
keep_only n [] d = d
keep_only n ((s, x) ∷ c) d = keep_only n c (if x == n then d else delete s d)

abbrev pub ids : List (String × ℕ) → List ℕ
ids [] = []
ids ((s, x) ∷ c) = x ∷ ids c

module _ (ctx : Context) where
  -- A turn of the first loop of `rescan`, over a copy of `childs`.
  unfoldable pub hash_source : ℕ → List String → String → ℕ → M (Unit {0})
  unfolding abspath
  hash_source n lst s x t =
      if not (is_kind file x)
      then (ok tt, t)
      else (if mem s lst
          then (elim (ctx.disk.h_file (abspath x t)) [
            | none ↦ (err waf_error, t)
            | some h ↦ (ok tt, record t { source_sigs = insert x h t.source_sigs })
          ])
          else (
            ok tt,
            record t {
              source_sigs = delete x t.source_sigs;
              childs = elim (lookup n t.childs) [
                | none ↦ t.childs
                | some d ↦ insert n (delete s d) t.childs
              ];
            },
          ))

  unfoldable pub hash_sources : ℕ → List String → List (String × ℕ) → M (Unit {0})
  unfolding hash_source
  hash_sources n lst [] = return tt
  hash_sources n lst ((s, x) ∷ c) = do hash_source n lst s x; hash_sources n lst c

  -- The path of the folder in the build directory of the variant.
  abbrev pub sub_path : ℕ → String → Tree → List String
  sub_path n variant t =
      abspath ctx.bldnode t ++ variant ∷ drop (length (abspath ctx.srcnode t)) (abspath n t)

  -- The folder of the variant cannot be listed: the childs go, and it is made.
  unfoldable pub remove_childs : ℕ → String → M (Unit {0})
  unfolding without keep_only abspath
  remove_childs n variant t = elim (lookup variant t.variant_sigs) [
    | none ↦ (err key_error, t)
    | some sigs ↦ elim (lookup n t.childs) [
      | none ↦ (err attribute_error, t)
      | some c ↦ (
        if ctx.disk.makedirs (sub_path n variant t) then ok tt else err os_error,
        record t {
          variant_sigs = insert variant (without (ids c) sigs) t.variant_sigs;
          childs = insert n (keep_only ctx.bldnode c c) t.childs;
        },
      )
    ]
  ]

  unfoldable pub scan_variant : ℕ → String → List (String × ℕ) → M (Unit {0})
  unfolding listdir_bld remove_childs abspath
  scan_variant n variant c t = elim (ctx.disk.listdir (sub_path n variant t)) [
    | none ↦ remove_childs n variant t
    | some lst ↦ listdir_bld c lst variant t
  ]

  unfoldable pub scan_variants : ℕ → List String → M (Unit {0})
  unfolding scan_variant
  scan_variants n [] = return tt
  scan_variants n (variant ∷ l) = do c ← childs_of n; scan_variant n variant c; scan_variants n l

  abbrev pub contents : ℕ → Tree → List String
  contents n t = elim (ctx.disk.listdir (abspath n t)) [ none ↦ [] | some lst ↦ lst ]

  unfoldable pub scan_folder : ℕ → M (Unit {0})
  unfolding hash_sources scan_variants abspath
  scan_folder n = do
    lst ← (λ t. (
      ok (contents n t),
      record t { cache_dir_contents = insert n (contents n t) t.cache_dir_contents },
    ))
    c ← childs_of n
    hash_sources n lst c
    scan_variants n ctx.lst_variants

  unfoldable pub rescan : ℕ → M (Unit {0})
  unfolding scan_folder
  rescan n t =
      if mem n t.cache_scanned_folders
      then (ok tt, t)
      else scan_folder n (record t { cache_scanned_folders = n ∷ t.cache_scanned_folders })
