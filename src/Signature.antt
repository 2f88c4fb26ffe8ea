-- ===== src/Signature.antt =====
-- Task.py: the signature of a task, by which the next build tells whether the task must run again.
pub mod Status
pub mod Recorded
pub mod Skipping
pub mod Rebuild
pub mod Missing
pub mod Tests
use meguro.Base.{
  Key, string_eq, nat_eq, ◌↔◌, ℕ, String, List, [], ◌∷◌, ◌++◌, Option, none, some, Bool, true,
  false, not, ◌&&◌, if◌then◌else◌, ◌==◌, ◌≡◌, mem, lookup, insert, arith,
}
use meguro.Base.Raise.{Result, ok, err, ◌>>=◌, ◌>>◌, return, raise}

abbrev pub Sig : Type 0
Sig = String

-- What a signature reads of a node; `folder` is the identity of its parent.
pub record TaskNode : Type 0 where
  pub ident : ℕ
  pub folder : ℕ
  pub folder_path : String
  pub name : String
  pub is_file : Bool

-- 0 for a source, and otherwise the variant of an environment.
pub data Variant : Type 0 where
  source : Variant
  of_env : String → Variant

abbrev pub same_variant : Variant → Variant → Bool
same_variant source source = true
same_variant (of_env v) (of_env w) = v == w
same_variant _ _ = false

pub same_variant_iff : (v w : Variant) → (same_variant v w ≡ true) ↔ (v ≡ w)
same_variant_iff source source = ground arith
same_variant_iff source (of_env w) = ground arith
same_variant_iff (of_env v) source = ground arith
same_variant_iff (of_env v) (of_env w) = ground (arith, string_eq.decides v w)

instance abbrev pub variant_eq : Key Variant
variant_eq = record { same = same_variant; decides = same_variant_iff }

-- An entry of `deps_man`: a node, or a text, that of a function being what it returns.
pub data Manual : Type 0 where
  node : TaskNode → Manual
  text : String → Manual

-- The signature and the three that it is made of.
abbrev pub Sigs : Type 0
Sigs = Sig × (Sig × (Sig × Sig))

pub record Build : Type 0 where
  pub node_sigs : List (Variant × List (ℕ × Sig))
  pub task_sigs : List (Sig × Sigs)
  pub node_deps : List (Sig × List TaskNode)
  pub raw_deps : List (Sig × List String)
  pub deps_man : List (ℕ × List Manual)
  pub cache_scanned_folders : List ℕ

pub data Failure : Type 0 where
  key_error os_error waf_error other_error : Failure

abbrev pub M : Type 0 → Type 0
M A = Build → Result Failure A × Build

-- `bld.node_sigs[variant][ident]`
unfoldable pub node_sig : Variant → ℕ → Build → Option Sig
node_sig v ident b = elim (lookup v b.node_sigs) [ none ↦ none | some sigs ↦ lookup ident sigs ]

abbrev pub read_sig : Variant → ℕ → M Sig
read_sig v ident b = elim (node_sig v ident b) [ none ↦ (err key_error, b) | some s ↦ (ok s, b) ]

pub record Task : Type 0 where
  pub class_name : String
  pub variant : String
  pub inputs : List TaskNode
  pub outputs : List TaskNode
  pub dep_nodes : List TaskNode
  pub deps_nodes : List TaskNode
  pub vars : List String
  pub dep_vars : List String
  pub cache_sig : Option Sigs

-- `node.variant(env)`
abbrev pub variant_of : Task → TaskNode → Variant
variant_of t x = if x.is_file then source else of_env t.variant

-- Hashing, the disk and the scanner: the digest behind some updates, `h_list` of the values of the
-- variables, what `rescan` does to a folder that was not scanned, the scanner of the task's class.
pub record World : Type 0 where
  pub md5 : List String → Sig
  pub env_sig : List String → Sig
  pub refresh : ℕ → M (Unit {0})
  pub scan : Option (M (List TaskNode × List String))

unfoldable pub path_updates : Option ℕ → List TaskNode → List String
path_updates p [] = []
path_updates p (x ∷ nodes) =
    let named = x.name ∷ path_updates (some x.folder) nodes in
    elim p [
      | none ↦ x.folder_path ∷ named
      | some f ↦ if f == x.folder then named else x.folder_path ∷ named
    ]

module _ (w : World) where
  -- `rescan`: a folder is looked at once.
  unfoldable pub rescan : ℕ → M (Unit {0})
  rescan folder b =
      if mem folder b.cache_scanned_folders
      then (ok tt, b)
      else w.refresh folder (record b { cache_scanned_folders = folder ∷ b.cache_scanned_folders })

  unfoldable pub unique_id : Task → Sig
  unfolding path_updates
  unique_id t = w.md5 (t.class_name ∷ t.variant ∷ path_updates none (t.inputs ++ t.outputs))

  unfoldable pub input_updates : Task → List TaskNode → M (List Sig)
  unfolding rescan
  input_updates t [] = return []
  input_updates t (x ∷ nodes) = do
    rescan x.folder
    s ← read_sig (variant_of t x) x.ident
    l ← input_updates t nodes
    return (s ∷ l)

  -- A manual dependency on a node whose signature is missing counts as the empty text.
  unfoldable pub manual_updates : Task → List Manual → M (List Sig)
  unfolding rescan
  manual_updates t [] = return []
  manual_updates t (node v ∷ d) = do
    rescan v.folder
    s ← (λ b. (ok (elim (node_sig (variant_of t v) v.ident b) [ none ↦ "" | some s ↦ s ]), b))
    l ← manual_updates t d
    return (s ∷ l)
  manual_updates t (text v ∷ d) = do l ← manual_updates t d; return (v ∷ l)

  unfoldable pub all_manual_updates : Task → List TaskNode → M (List Sig)
  unfolding manual_updates
  all_manual_updates t [] = return []
  all_manual_updates t (x ∷ nodes) = do
    d ← (λ b. (ok (elim (lookup x.ident b.deps_man) [ none ↦ [] | some d ↦ d ]), b))
    l ← manual_updates t d
    m ← all_manual_updates t nodes
    return (l ++ m)

  unfoldable pub node_updates : Task → List TaskNode → M (List Sig)
  node_updates t [] = return []
  node_updates t (x ∷ nodes) = do
    s ← read_sig (variant_of t x) x.ident
    l ← node_updates t nodes
    return (s ∷ l)

  unfoldable pub sig_explicit_deps : Task → M Sig
  unfolding input_updates all_manual_updates node_updates
  sig_explicit_deps t = do
    a ← input_updates t (t.inputs ++ t.dep_nodes)
    m ← all_manual_updates t (t.inputs ++ t.outputs)
    n ← node_updates t t.deps_nodes
    return (w.md5 (a ++ (m ++ n)))

  unfoldable pub sig_vars : Task → Sig
  sig_vars t =
      w.md5 (w.env_sig t.vars ∷ elim t.dep_vars [ [] ↦ [] | v ∷ l ↦ w.env_sig (v ∷ l) ∷ [] ])

  unfoldable pub implicit_updates : Task → List TaskNode → M (List Sig)
  unfolding input_updates
  implicit_updates t nodes = input_updates t nodes

  unfoldable pub compute_sig_implicit_deps : Task → M Sig
  unfolding unique_id implicit_updates
  compute_sig_implicit_deps t = do
    nodes ← (λ b. (ok (elim (lookup (unique_id t) b.node_deps) [ none ↦ [] | some l ↦ l ]), b))
    l ← implicit_updates t nodes
    return (w.md5 l)

  -- The dependencies are asked of the scanner anew, and kept.
  unfoldable pub scan_again : Task → M (List TaskNode × List String) → M Sig
  unfolding compute_sig_implicit_deps
  scan_again t scan = do
    r ← scan
    (λ b. (
      ok tt,
      record b {
        node_deps = insert (unique_id t) r.0 b.node_deps;
        raw_deps = insert (unique_id t) r.1 b.raw_deps;
      },
    ))
    compute_sig_implicit_deps t

  -- The signature of the last run, if it is still that of the dependencies known then.
  abbrev pub if_same :
      Task
      → M (List TaskNode × List String)
      → Sig
      → Result Failure Sig × Build
      → Result Failure Sig × Build
  if_same t scan prev (ok s, b) = if prev == s then (ok prev, b) else scan_again t scan b
  if_same t scan prev (err key_error, b) = scan_again t scan b
  if_same t scan prev (err os_error, b) = scan_again t scan b
  if_same t scan prev (err e, b) = (err e, b)

  unfoldable pub sig_implicit_deps : Task → M (List TaskNode × List String) → M Sig
  unfolding scan_again compute_sig_implicit_deps
  sig_implicit_deps t scan b = elim (lookup (unique_id t) b.task_sigs) [
    | none ↦ scan_again t scan b
    | some sigs ↦ if_same t scan sigs.1.1.0 (compute_sig_implicit_deps t b)
  ]

  abbrev pub sig_nil : Sig
  sig_nil = "iluvcuteoverload"

  -- `self.scan and self.sig_implicit_deps() or SIG_NIL`
  unfoldable pub implicit_sig : Task → M Sig
  unfolding sig_implicit_deps
  implicit_sig t = elim w.scan [
    | none ↦ return sig_nil
    | some scan ↦ (do s ← sig_implicit_deps t scan; return (if s == "" then sig_nil else s))
  ]

  unfoldable pub compute_signature : Task → M Sigs
  unfolding sig_explicit_deps implicit_sig sig_vars
  compute_signature t = do
    exp_sig ← sig_explicit_deps t
    imp_sig ← implicit_sig t
    return (w.md5 (exp_sig ∷ imp_sig ∷ sig_vars t ∷ []), (exp_sig, (imp_sig, sig_vars t)))

  -- With the task as it is left.
  unfoldable pub signature : Task → M (Sigs × Task)
  unfolding compute_signature
  signature t = elim t.cache_sig [
    | some sigs ↦ return (sigs, t)
    | none ↦ (do sigs ← compute_signature t; return (sigs, record t { cache_sig = some sigs }))
  ]
