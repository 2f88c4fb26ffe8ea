-- ===== src/NodeTree/Invariant.antt =====
-- Node.py: every operation leaves a tree.
use meguro.Base.{
  string_eq, nat_eq, ℕ, ◌+◌, ◌%◌, ◌≤◌, ◌<◌, String, List, [], ◌∷◌, Option, none, some, ◌||◌,
  if◌then◌else◌, ◌==◌, ◌≡◌, sym, ap, ◌∙◌, lookup, insert, on_if, arith,
}
use meguro.Base.Raise.{Result, ok, err, ◌>>=◌, ◌>>◌, return, bind_ok, given}
use meguro.NodeTree.{
  Failure, waf_error, attribute_error, key_error, os_error, Kind, dir, build, code, Tree, M,
  Context, is_kind, childs_of, new_node, rescan, get, with_child,
}
use meguro.NodeTree.Growth.{
  from_step, bound, IsTree, Kept, kept_refl, Step, and_then, Scanned, rescan-Step,
}
use meguro.NodeTree.Fresh.{Made, new_node-Step}
use meguro.NodeTree.Search.{
  find_dir, find_resource, find_or_declare, or_else, exclusive_parent, exclusive_build_node,
  ensure_dir, ensure_dir_node_from_path, up,
}
use meguro.NodeTree.Finding.{
  Stable, weaker, kept_lt, child_lt, by_name, by_name-Step, up_lt, child-table, childs_of_lem,
}
use meguro.NodeTree.Again.{find_dir-Step, find_resource-Step, find_or_declare-Step}

-- Whatever the outcome, the tree stays one and nothing of it is lost.
unfoldable pub Keeps : {A : Type 0} → M A → Tree → Type 0
Keeps m t = IsTree (m t).1 × Kept t (m t).1

left :
    {A : Type 0} (Q : A → Tree → Type 0) (t : Tree) (r : Result Failure A × Tree)
    → Step Q t r
    → IsTree r.1 × Kept t r.1
left Q t (ok a, t') h = (h.0, h.1.0)
left Q t (err e, t') h = h

-- A node of the tree.
Old : ℕ → Tree → Type 0
Old n t = n < bound t

or_else-Step :
    {A : Type 0} (ctx : Context) (Q : A → Tree → Type 0) (a : A) (t : Tree)
    (r : Result Failure A × Tree)
    → Step Q t r
    → ((t' : Tree) → Kept t t' → Q a t')
    → Step Q t (or_else ctx a r)
or_else-Step ctx Q a t (err os_error, t') h k = (h.0, (h.1, k t' h.1))
or_else-Step ctx Q a t (err waf_error, t') h k = h
or_else-Step ctx Q a t (err attribute_error, t') h k = h
or_else-Step ctx Q a t (err key_error, t') h k = h
or_else-Step ctx Q a t (ok x, t') h k = h

module _ (ctx : Context) where
  -- A name of the folder, or a new node of the kind.
  found_or_new :
      (cur : ℕ) (name : String) (k : Kind) (t : Tree)
      → IsTree t
      → cur < bound t
      → Step Old t (by_name cur name (λ x. return x) (new_node name cur k) t)
  unfolding Old Made
  found_or_new cur name k t v lt =
      by_name-Step cur name (λ x. return x) (new_node name cur k) Old t v
        (λ x h. (v, (kept_refl t, child_lt t cur name x v h)))
        (weaker (Made cur name k) Old t (new_node name cur k t) (λ n t1 keeps m. m.0)
          (new_node-Step cur name k t v lt))

  ensure_dir-Step :
      (cur : ℕ) (name : String) (t : Tree)
      → IsTree t
      → cur < bound t
      → Step Old t (ensure_dir ctx cur name t)
  unfolding ensure_dir Old
  ensure_dir-Step cur name t v lt =
      on_if (Step Old t) (name == "" || name == ".") (ok cur, t) _ (λ _. (v, (kept_refl t, lt)))
        λ _.
          on_if (Step Old t) (name == "..") (ok (up ctx cur t), t) _
            (λ _. (v, (kept_refl t, up_lt ctx t cur v lt))) λ _. found_or_new cur name dir t v lt

  ensure_dir_node_from_path-Step :
      (lst : List String) (cur : ℕ) (t : Tree)
      → IsTree t
      → cur < bound t
      → Step Old t (ensure_dir_node_from_path ctx cur lst t)
  unfolding ensure_dir_node_from_path Old
  ensure_dir_node_from_path-Step [] cur t v lt = (v, (kept_refl t, lt))
  ensure_dir_node_from_path-Step (name ∷ lst) cur t v lt =
      and_then Old Old (λ n. ensure_dir_node_from_path ctx n lst) t (ensure_dir ctx cur name t)
        (ensure_dir-Step cur name t v lt)
        λ n t1 v1 keeps lt1. ensure_dir_node_from_path-Step lst n t1 v1 lt1

  -- A scan of the parent, caught or not.
  with_scan :
      (r : ℕ) (t : Tree) (m : M (Unit {0}))
      → r < bound t
      → Step (λ _ _. Unit {0}) t (m t)
      → Step Old t ((m >> return r) t)
  unfolding Old
  with_scan r t m lt h =
      and_then (λ _ _. Unit {0}) Old (λ _. return r) t (m t) h
        λ u t1 v1 keeps x. (v1, (kept_refl t1, kept_lt t t1 r keeps lt))

  scan : (r : ℕ) (t : Tree) → IsTree t → Step (λ _ _. Unit {0}) t (rescan ctx r t)
  scan r t v =
      weaker (Scanned r) (λ _ _. Unit {0}) t (rescan ctx r t) (λ u t1 keeps x. tt)
        (rescan-Step ctx r t v)

  exclusive_parent-Step :
      (self : ℕ) (folders : List String) (t : Tree)
      → IsTree t
      → self < bound t
      → Step Old t (exclusive_parent ctx self folders t)
  unfolding Stable Old
  exclusive_parent-Step self folders t v lt =
      and_then (Stable (find_dir ctx self folders)) Old
        (λ found. elim found as (λ _. M ℕ) [
          | none ↦
              (ensure_dir_node_from_path ctx self folders >>= λ parent.
              rescan ctx parent >> return parent)
          | some parent ↦ ((λ t'. or_else ctx tt (rescan ctx parent t')) >> return parent)
        ])
        t (or_else ctx none (find_dir ctx self folders t))
        (or_else-Step ctx (Stable (find_dir ctx self folders)) none t (find_dir ctx self folders t)
          (find_dir-Step ctx folders self t v lt) λ t' k. tt)
        next
    where
      next :
          (o : Option ℕ) (t1 : Tree)
          → IsTree t1
          → Kept t t1
          → Stable (find_dir ctx self folders) o t1
          → Step Old t1 (
              (elim o as (λ _. M ℕ) [
                | none ↦
                    (ensure_dir_node_from_path ctx self folders >>= λ parent.
                    rescan ctx parent >> return parent)
                | some parent ↦ ((λ t'. or_else ctx tt (rescan ctx parent t')) >> return parent)
              ])
                t1)
      next none t1 v1 keeps s =
          and_then Old Old (λ parent. rescan ctx parent >> return parent) t1
            (ensure_dir_node_from_path ctx self folders t1)
            (ensure_dir_node_from_path-Step folders self t1 v1 (kept_lt t t1 self keeps lt))
            λ n t2 v2 keeps2 lt2. with_scan n t2 (rescan ctx n) lt2 (scan n t2 v2)
      next (some n) t1 v1 keeps s =
          with_scan n t1 (λ t'. or_else ctx tt (rescan ctx n t')) s.0
            (or_else-Step ctx (λ _ _. Unit {0}) tt t1 (rescan ctx n t1) (scan n t1 v1) λ t' k. tt)

  exclusive_build_node-Step :
      (self : ℕ) (folders : List String) (name : String) (t : Tree)
      → IsTree t
      → self < bound t
      → Step Old t (exclusive_build_node ctx self folders name t)
  unfolding exclusive_build_node Old
  exclusive_build_node-Step self folders name t v lt =
      and_then Old Old (λ parent. by_name parent name (λ x. return x) (new_node name parent build))
        t
        ((elim folders as (λ _. M ℕ) [
          | [] ↦ return self
          | f ∷ l ↦ exclusive_parent ctx self (f ∷ l)
        ])
          t)
        (parent folders) λ n t1 v1 keeps lt1. found_or_new n name build t1 v1 lt1
    where
      parent :
          (l : List String)
          → Step Old t (
              (elim l as (λ _. M ℕ) [
                | [] ↦ return self
                | f ∷ l ↦ exclusive_parent ctx self (f ∷ l)
              ])
                t)
      parent [] = (v, (kept_refl t, lt))
      parent (f ∷ l) = exclusive_parent-Step self (f ∷ l) t v lt

-- Every search from a node of the tree, `rescan` and the constructor, whatever their outcome, leave a tree: `id` and name and parent
-- of the nodes fit together. The nodes keep name and parent, and the folders that were scanned keep their childs.
pub searches-Keeps :
    (ctx : Context) (self : ℕ) (folders : List String) (name : String) (kind : Kind) (t : Tree)
    → IsTree t
    → self < bound t
    → ((Keeps (find_dir ctx self folders) t × Keeps (find_resource ctx self folders name) t)
        × (Keeps (find_or_declare ctx self folders name) t
            × Keeps (exclusive_build_node ctx self folders name) t))
      × (Keeps (ensure_dir_node_from_path ctx self folders) t
          × (Keeps (rescan ctx self) t × Keeps (new_node name self kind) t))
unfolding Keeps
searches-Keeps ctx self folders name kind t v lt = (
  (
    (
      left (Stable (find_dir ctx self folders)) t _ (find_dir-Step ctx folders self t v lt),
      left (Stable (find_resource ctx self folders name)) t _
          (find_resource-Step ctx self folders name t v lt),
    ),
    (
      left (Stable (find_or_declare ctx self folders name)) t _
          (find_or_declare-Step ctx self folders name t v lt),
      left Old t _ (exclusive_build_node-Step ctx self folders name t v lt),
    ),
  ),
  (
    left Old t _ (ensure_dir_node_from_path-Step ctx folders self t v lt),
    (
      left (Scanned self) t _ (rescan-Step ctx self t v),
      left (Made self name kind) t _ (new_node-Step self name kind t v lt),
    ),
  ),
)

kind_code : (j k : Kind) (n : ℕ) → n % 4 ≡ code k → is_kind j n ≡ (code k == code j)
kind_code j k n h = ap (λ x. x == code j) h

new_node-id :
    (p n : ℕ) (name : String) (kind : Kind) (t t' : Tree)
    → new_node name p kind t ≡ (ok n, t')
    → n ≡ bound t + code kind
unfolding new_node
new_node-id p n name kind t t' h = table (lookup p t.childs) h
  where
    spent : Tree
    spent = record t { id_nodes = t.id_nodes + 4 }

    other :
        (o : Option ℕ) (s : Tree)
        → ◌≡◌ {A = Result Failure ℕ × Tree}
            (elim o as (λ _. Result Failure ℕ × Tree) [
              | some x ↦ (err waf_error, spent)
              | none ↦ (ok (bound t + code kind), s)
            ])
            (ok n, t')
        → n ≡ bound t + code kind
    other none s k = sym (given (bound t + code kind) n s t' k).0
    other (some x) s k = cc

    table :
        (o : Option (List (String × ℕ)))
        → ◌≡◌ {A = Result Failure ℕ × Tree}
            (elim o as (λ _. Result Failure ℕ × Tree) [
              | none ↦ (err attribute_error, spent)
              | some c ↦ elim (lookup name c) [
                | some x ↦ (err waf_error, spent)
                | none ↦ (
                  ok (bound t + code kind),
                  record spent {
                    names = insert (bound t + code kind) name t.names;
                    parents = insert (bound t + code kind) p t.parents;
                    childs = with_child kind p name (bound t + code kind) c t.childs;
                  },
                )
              ]
            ])
            (ok n, t')
        → n ≡ bound t + code kind
    table none k = cc
    table (some c) k = other (lookup name c) _ k

-- A new node has an `id` that no node of the tree had, its two lowest bits are the kind, and of `get_dir`, `get_file` and
-- `get_build` that of its kind gives it by its name, and the others give nothing.
pub get-new_node :
    (p n : ℕ) (name : String) (kind asked : Kind) (t t' : Tree)
    → IsTree t
    → p < bound t
    → new_node name p kind t ≡ (ok n, t')
    → ((bound t ≤ n) × ((n < bound t') × (n % 4 ≡ code kind)))
      × (get asked p name t' ≡ (ok (if code kind == code asked then some n else none), t'))
unfolding get Made
get-new_node p n name kind asked t t' v lt h =
    let m =
      from_step (Made p name kind) t t' n (new_node name p kind t) h
        (new_node-Step p name kind t v lt) in
    let at = child-table t' p name n m.1.1.1.0 in
    (
      (omega (arith, new_node-id p n name kind t t' h), (m.1.1.0, m.1.1.1.1)),
      bind_ok (childs_of p)
            (λ c. return (elim (lookup name c) as (λ _. Option ℕ) [
              | none ↦ none
              | some x ↦ if is_kind asked x then some x else none
            ]))
            t' t' at.0 (childs_of_lem t' p at.0 at.1.0)
          ∙ ap
              (λ (o : Option ℕ). (
                ok (elim o as (λ _. Option ℕ) [
                  | none ↦ none
                  | some x ↦ if is_kind asked x then some x else none
                ]),
                t',
              ))
              at.1.1
          ∙ ap (λ b. (ok (if b then some n else none), t')) (kind_code asked kind n m.1.1.1.1),
    )
