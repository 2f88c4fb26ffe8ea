-- ===== src/NodeTree/Declared.antt =====
-- Node.py: what a search found is found again, and the tree stays one.
use meguro.Base.{
  true_or, string_eq, nat_eq, ℕ, ◌<◌, String, List, Option, none, some, Bool, true, false,
  if◌then◌else◌, ◌≡◌, refl, ◌∙◌, mem,
}
use meguro.Base.Raise.{ok, ◌>>=◌, ◌>>◌, return, raise, bind_ok, bound as bound_parts, given}
use meguro.NodeTree.{waf_error, file, build, Tree, M, Context, is_kind, child, new_node, rescan}
use meguro.NodeTree.Growth.{
  from_step, bound, IsTree, Kept, kept_refl, kept_trans, Step, and_then, Scanned, rescan_done,
  rescan-Step,
}
use meguro.NodeTree.Fresh.{Made, new_node-Step}
use meguro.NodeTree.Search.{find_dir, resource_in, find_resource, declare_in, find_or_declare}
use meguro.NodeTree.Finding.{Stable, kept-mem, kept_lt, kept-child, by_name-Step}
use meguro.NodeTree.Again.{
  find_dir-Step, find_resource-Step, declared, declare_in_again, resource_in_again,
}

-- `find_dir` that gave a folder gives the same folder in every later state, and then makes no node and scans nothing.
pub find_dir_again :
    (ctx : Context) (self n : ℕ) (lst : List String) (t t' later : Tree)
    → IsTree t
    → self < bound t
    → find_dir ctx self lst t ≡ (ok (some n), t')
    → Kept t' later
    → find_dir ctx self lst later ≡ (ok (some n), later)
unfolding Stable
find_dir_again ctx self n lst t t' later v lt h k =
    (from_step (Stable (find_dir ctx self lst)) t t' (some n) (find_dir ctx self lst t) h
        (find_dir-Step ctx lst self t v lt)).1.1.1
      later k

-- `find_resource` that gave a node gives the same node in every later state, and then makes no node, hashes no file and scans
-- nothing.
pub find_resource_again :
    (ctx : Context) (self n : ℕ) (folders : List String) (name : String) (t t' later : Tree)
    → IsTree t
    → self < bound t
    → find_resource ctx self folders name t ≡ (ok (some n), t')
    → Kept t' later
    → find_resource ctx self folders name later ≡ (ok (some n), later)
unfolding Stable
find_resource_again ctx self n folders name t t' later v lt h k =
    (from_step (Stable (find_resource ctx self folders name)) t t' (some n)
        (find_resource ctx self folders name t) h
        (find_resource-Step ctx self folders name t v lt)).1.1.1
      later k

-- The node that is declared.
IsBuild : ℕ → String → Option ℕ → Tree → Type 0
IsBuild p name none t = Unit {0}
IsBuild p name (some n) t = (child p name t ≡ some n) × (is_kind build n ≡ true)

module _ (ctx : Context) where
  declare_in-IsBuild :
      (t : Tree) (p : ℕ) (name : String)
      → IsTree t
      → p < bound t
      → Step (IsBuild p name) t (declare_in ctx p name t)
  unfolding declare_in IsBuild Made
  declare_in-IsBuild t p name v lt =
      by_name-Step p name (declared ctx) (new_node name p build >>= λ n. return (some n))
        (IsBuild p name) t v (λ x h. one x h (is_kind build x) refl)
        (and_then (Made p name build) (IsBuild p name) (λ n. return (some n)) t
          (new_node name p build t) (new_node-Step p name build t v lt)
          λ n t1 v1 keeps m. (v1, (kept_refl t1, (m.1.0, rw m.1.1 refl))))
    where
      one :
          (x : ℕ)
          → child p name t ≡ some x
          → (b : Bool) → is_kind build x ≡ b
          → Step (IsBuild p name) t ((if b then return (some x) else raise waf_error) t)
      one x h true e = (v, (kept_refl t, (h, e)))
      one x h false e = (v, kept_refl t)

  -- What a declaration went through.
  pub declared_parts :
      (self n : ℕ) (folders : List String) (name : String) (t t' : Tree)
      → IsTree t
      → self < bound t
      → find_or_declare ctx self folders name t ≡ (ok (some n), t')
      → (p : ℕ) × (((later : Tree)
            → Kept t' later
            → find_dir ctx self folders later ≡ (ok (some p), later))
          × ((mem p t'.cache_scanned_folders ≡ true)
              × ((child p name t' ≡ some n) × (is_kind build n ≡ true))))
  unfolding find_or_declare Stable Scanned IsBuild
  declared_parts self n folders name t t' v lt h =
      let first =
        bound_parts
          (λ found. elim found as (λ _. M (Option ℕ)) [
            | none ↦ return none
            | some p ↦ (rescan ctx p >> declare_in ctx p name)
          ])
          (some n) t' (find_dir ctx self folders t) h in
      parts first.0 first.1.0 first.1.1.0 first.1.1.1
    where
      parts :
          (o : Option ℕ) (s : Tree)
          → find_dir ctx self folders t ≡ (ok o, s)
          → (elim o as (λ _. M (Option ℕ)) [
            | none ↦ return none
            | some p ↦ (rescan ctx p >> declare_in ctx p name)
          ])
              s
            ≡ (ok (some n), t')
          → (p : ℕ) × (((later : Tree)
                → Kept t' later
                → find_dir ctx self folders later ≡ (ok (some p), later))
              × ((mem p t'.cache_scanned_folders ≡ true)
                  × ((child p name t' ≡ some n) × (is_kind build n ≡ true))))
      parts none s e k = let wrong = (given none (some n) s t' k).0 in cc
      parts (some p) s e k =
          let d =
            from_step (Stable (find_dir ctx self folders)) t s (some p)
              (find_dir ctx self folders t) e (find_dir-Step ctx folders self t v lt) in
          let second = bound_parts (λ _. declare_in ctx p name) (some n) t' (rescan ctx p s) k in
          let s2 : Tree = second.1.0 in
          let m =
            from_step (Scanned p) s s2 second.0 (rescan ctx p s) second.1.1.0
              (rescan-Step ctx p s d.0) in
          let r =
            from_step (IsBuild p name) s2 t' (some n) (declare_in ctx p name s2) second.1.1.1
              (declare_in-IsBuild s2 p name m.0 (kept_lt s s2 p m.1.0 d.1.1.0)) in
          (
            p,
            (
              λ later keeps.
                  d.1.1.1 later (kept_trans s t' later (kept_trans s s2 t' m.1.0 r.1.0) keeps),
              (kept-mem s2 t' p r.1.0 m.1.1, r.1.1),
            ),
          )

-- `find_or_declare` that gave a node gives a build node, and in every later state it and `find_resource` give the same
-- node, and then make no node and scan nothing.
pub find_or_declare_again :
    (ctx : Context) (self n : ℕ) (folders : List String) (name : String) (t t' later : Tree)
    → IsTree t
    → self < bound t
    → find_or_declare ctx self folders name t ≡ (ok (some n), t')
    → Kept t' later
    → (is_kind build n ≡ true)
      × ((find_or_declare ctx self folders name later ≡ (ok (some n), later))
          × (find_resource ctx self folders name later ≡ (ok (some n), later)))
unfolding find_or_declare find_resource
find_or_declare_again ctx self n folders name t t' later v lt h keeps =
    let parts = declared_parts ctx self n folders name t t' v lt h in
    let p : ℕ = parts.0 in
    let marked = kept-mem t' later p keeps parts.1.1.0 in
    let there = kept-child t' later p name n keeps parts.1.1.0 parts.1.1.1.0 in
    (
      parts.1.1.1.1,
      (
        bind_ok (find_dir ctx self folders)
              (λ found. elim found as (λ _. M (Option ℕ)) [
                | none ↦ return none
                | some q ↦ (rescan ctx q >> declare_in ctx q name)
              ])
              later later (some p) (parts.1.0 later keeps)
            ∙ bind_ok (rescan ctx p) (λ _. declare_in ctx p name) later later tt
                (rescan_done ctx p later marked)
            ∙ declare_in_again ctx later p name n there parts.1.1.1.1,
        bind_ok (find_dir ctx self folders)
              (λ found. elim found as (λ _. M (Option ℕ)) [
                | none ↦ return none
                | some q ↦ (rescan ctx q >> resource_in ctx q name)
              ])
              later later (some p) (parts.1.0 later keeps)
            ∙ bind_ok (rescan ctx p) (λ _. resource_in ctx p name) later later tt
                (rescan_done ctx p later marked)
            ∙ resource_in_again ctx later p name n there
                (true_or (is_kind file n) (is_kind build n) parts.1.1.1.1),
      ),
    )
