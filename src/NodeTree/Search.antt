-- ===== src/NodeTree/Search.antt =====
-- Node.py: `find_dir` and the searches that begin with it.
use Prim.Native.String.{len, slice}
use meguro.Base.{
  string_eq, nat_eq, ℕ, String, List, [], ◌∷◌, ◌++◌, Option, none, some, Bool, false, not, ◌&&◌,
  ◌||◌, if◌then◌else◌, ◌==◌, mem, lookup, insert,
}
use meguro.Base.Raise.{Result, ok, err, ◌>>=◌, ◌>>◌, return, raise}
use meguro.NodeTree.{
  Failure, waf_error, key_error, os_error, dir, file, build, Tree, M, Context, is_kind, name_of,
  parent_of, childs_of, abspath, new_node, rescan,
}

-- A drive letter or the path of a share.
unfoldable pub is_drive : ℕ → String → Tree → Bool
is_drive cur name t =
    (name_of cur t == "" && (len name == 2 && slice name 1 2 == ":")) || slice name 0 2 == "\\\\"

abbrev pub new_dir : String → ℕ → M (Option ℕ)
new_dir name cur = do n ← new_node name cur dir; return (some n)

abbrev pub listed : ℕ → String → Tree → Bool
listed cur name t = elim (lookup cur t.cache_dir_contents) [
  | none ↦ false
  | some lst ↦ mem name lst
]

module _ (ctx : Context) where
  -- A child that is no node yet.
  unfoldable pub make_dir : ℕ → String → M (Option ℕ)
  unfolding is_drive new_node abspath
  make_dir cur name t =
      if listed cur name t
      then (if ctx.disk.isdir (abspath cur t ++ name ∷ [])
          then new_dir name cur t
          else (ok none, t))
      else (if is_drive cur name t then new_dir name cur t else (ok none, t))

  unfoldable pub enter : ℕ → String → M (Option ℕ)
  unfolding make_dir
  enter cur name = do
    c ← childs_of cur
    elim (lookup name c) as (λ _. M (Option ℕ)) [
      | some x ↦ return (if is_kind dir x then some x else none)
      | none ↦ make_dir cur name
    ]

  abbrev pub up : ℕ → Tree → ℕ
  up cur t = elim (parent_of cur t) [ none ↦ cur | some p ↦ p ]

  abbrev pub is_root_name : ℕ → String → Tree → Bool
  is_root_name cur name t = elim (parent_of cur t) [ none ↦ name == name_of cur t | some p ↦ false ]

  -- One turn of the loop of `find_dir`, behind `rescan`.
  unfoldable pub advance : ℕ → String → M (Option ℕ)
  unfolding enter
  advance cur name t =
      if is_root_name cur name t || name == "" || name == "."
      then (ok (some cur), t)
      else (if name == ".." then (ok (some (up cur t)), t) else enter cur name t)

  unfoldable pub find_dir : ℕ → List String → M (Option ℕ)
  unfolding rescan advance
  find_dir cur [] = return (some cur)
  find_dir cur (name ∷ lst) = do
    rescan ctx cur
    found ← advance cur name
    elim found as (λ _. M (Option ℕ)) [ none ↦ return none | some n ↦ find_dir n lst ]

  -- A file of the folder that is no node yet.
  unfoldable pub make_file : ℕ → String → M (Option ℕ)
  unfolding new_node abspath
  make_file parent name t = elim (lookup parent t.cache_dir_contents) [
    | none ↦ (err key_error, t)
    | some lst ↦
        if not (mem name lst)
        then (ok none, t)
        else (elim (ctx.disk.h_file (abspath parent t ++ name ∷ [])) [
          | none ↦ (ok none, t)
          | some st ↦
              (do
                n ← new_node name parent file
                (λ t1. (ok (some n), record t1 { source_sigs = insert n st t1.source_sigs })))
                t
        ])
  ]

  unfoldable pub resource_in : ℕ → String → M (Option ℕ)
  unfolding make_file
  resource_in parent name = do
    c ← childs_of parent
    elim (lookup name c) as (λ _. M (Option ℕ)) [
      | some x ↦ return (if is_kind file x || is_kind build x then some x else none)
      | none ↦ make_file parent name
    ]

  -- The path is given as its folders and its last name; with no folder, `find_dir` answers the node itself.
  unfoldable pub find_resource : ℕ → List String → String → M (Option ℕ)
  unfolding find_dir rescan resource_in
  find_resource self folders name = do
    found ← find_dir self folders
    elim found as (λ _. M (Option ℕ)) [
      | none ↦ return none
      | some parent ↦ (do rescan ctx parent; resource_in parent name)
    ]

  unfoldable pub declare_in : ℕ → String → M (Option ℕ)
  unfolding new_node
  declare_in parent name = do
    c ← childs_of parent
    elim (lookup name c) as (λ _. M (Option ℕ)) [
      | some x ↦ if is_kind build x then return (some x) else raise waf_error
      | none ↦ (do n ← new_node name parent build; return (some n))
    ]

  unfoldable pub find_or_declare : ℕ → List String → String → M (Option ℕ)
  unfolding find_dir rescan declare_in
  find_or_declare self folders name = do
    found ← find_dir self folders
    elim found as (λ _. M (Option ℕ)) [
      | none ↦ return none
      | some parent ↦ (do rescan ctx parent; declare_in parent name)
    ]

  -- A turn of `ensure_dir_node_from_path`.
  unfoldable pub ensure_dir : ℕ → String → M ℕ
  unfolding new_node
  ensure_dir cur name t =
      if name == "" || name == "."
      then (ok cur, t)
      else (if name == ".."
          then (ok (up cur t), t)
          else (do
            c ← childs_of cur
            elim (lookup name c) as (λ _. M ℕ) [ some x ↦ return x | none ↦ new_node name cur dir ])
              t)

  unfoldable pub ensure_dir_node_from_path : ℕ → List String → M ℕ
  unfolding ensure_dir
  ensure_dir_node_from_path cur [] = return cur
  ensure_dir_node_from_path cur (name ∷ lst) = do
    n ← ensure_dir cur name
    ensure_dir_node_from_path n lst

  -- `try: m` and `except OSError: pass`
  abbrev pub or_else : {A : Type 0} → A → Result Failure A × Tree → Result Failure A × Tree
  or_else a (err os_error, t) = (ok a, t)
  or_else a (err e, t) = (err e, t)
  or_else a (ok x, t) = (ok x, t)

  abbrev pub exclusive_parent : ℕ → List String → M ℕ
  exclusive_parent self folders = do
    found ← (λ t. or_else none (find_dir self folders t))
    elim found as (λ _. M ℕ) [
      | none ↦ (do
        parent ← ensure_dir_node_from_path self folders
        rescan ctx parent
        return parent)
      | some parent ↦ (do (λ t. or_else tt (rescan ctx parent t)); return parent)
    ]

  unfoldable pub exclusive_build_node : ℕ → List String → String → M ℕ
  unfolding find_dir ensure_dir_node_from_path rescan new_node
  exclusive_build_node self folders name = do
    parent ← elim folders as (λ _. M ℕ) [ [] ↦ return self | f ∷ l ↦ exclusive_parent self (f ∷ l) ]
    c ← childs_of parent
    elim (lookup name c) as (λ _. M ℕ) [ some x ↦ return x | none ↦ new_node name parent build ]
