-- ===== src/NodeTree/Again.antt =====
-- Node.py: a search is repeated.
use meguro.Base.{
  string_eq, nat_eq, ℕ, ◌<◌, String, List, [], ◌∷◌, Option, none, some, Bool, true, false, not,
  ◌||◌, if◌then◌else◌, ◌≡◌, refl, ap, ◌∙◌, mem, lookup, insert, on_option, on_if,
}
use meguro.Base.Raise.{ok, err, ◌>>=◌, ◌>>◌, return, raise, bind_ok}
use meguro.NodeTree.{
  waf_error, key_error, file, build, Tree, M, Context, is_kind, child, new_node, rescan,
}
use meguro.NodeTree.Growth.{
  bound, IsTree, Kept, kept_refl, kept_trans, Step, and_then, Scanned, rescan_done, rescan-Step,
  child-sigs, sigs-IsTree, sigs-Kept,
}
use meguro.NodeTree.Fresh.{Made, new_node-Step}
use meguro.NodeTree.Search.{
  advance, find_dir, make_file, resource_in, find_resource, declare_in, find_or_declare,
}
use meguro.NodeTree.Finding.{
  Stable, weaker, kept-mem, kept_lt, kept-child, child_lt, by_name_lem, by_name-Step, advance-Step,
}

module _ (ctx : Context) where
  -- The rest of a search in the folder that the first part found.
  abbrev pub go_on : M (Option ℕ) → (ℕ → M (Option ℕ)) → M (Option ℕ)
  go_on m k = m >>= λ found. elim found as (λ _. M (Option ℕ)) [ none ↦ return none | some n ↦ k n ]

  pub go_on-Step :
      (m : M (Option ℕ)) (k : ℕ → M (Option ℕ)) (t : Tree)
      → Step (Stable m) t (m t)
      → ((n : ℕ) (t1 : Tree)
          → IsTree t1
          → Kept t t1
          → n < bound t1
          → Step (Stable (k n)) t1 (k n t1))
      → Step (Stable (go_on m k)) t (go_on m k t)
  unfolding Stable
  go_on-Step m k t first rest =
      and_then (Stable m) (Stable (go_on m k))
        (λ found. elim found as (λ _. M (Option ℕ)) [ none ↦ return none | some n ↦ k n ]) t (m t)
        first next
    where
      next :
          (o : Option ℕ) (t1 : Tree)
          → IsTree t1
          → Kept t t1
          → Stable m o t1
          → Step
              (Stable (go_on m k))
              t1
              ((elim o as (λ _. M (Option ℕ)) [ none ↦ return none | some n ↦ k n ]) t1)
      next none t1 v keeps s = (v, (kept_refl t1, tt))
      next (some n) t1 v keeps s =
          weaker (Stable (k n)) (Stable (go_on m k)) t1 (k n t1) both (rest n t1 v keeps s.0)
        where
          both :
              (o : Option ℕ) (t2 : Tree) → Kept t1 t2 → Stable (k n) o t2 → Stable (go_on m k) o t2
          both none t2 keeps2 r = tt
          both (some x) t2 keeps2 r = (
            r.0,
            λ t3 keeps3.
                bind_ok m
                  (λ found. elim found as (λ _. M (Option ℕ)) [ none ↦ return none | some y ↦ k y ])
                  t3 t3 (some n) (s.1 t3 (kept_trans t1 t2 t3 keeps2 keeps3))
                ∙ r.1 t3 keeps3,
          )

  -- A step behind the scan of its folder.
  pub scanned-Step :
      (cur : ℕ) (m : M (Option ℕ)) (t : Tree)
      → IsTree t
      → ((t1 : Tree)
          → IsTree t1
          → Kept t t1
          → mem cur t1.cache_scanned_folders ≡ true
          → Step (Stable m) t1 (m t1))
      → Step (Stable (rescan ctx cur >> m)) t ((rescan ctx cur >> m) t)
  unfolding Stable Scanned
  scanned-Step cur m t v h =
      and_then (Scanned cur) (Stable (rescan ctx cur >> m)) (λ _. m) t (rescan ctx cur t)
        (rescan-Step ctx cur t v)
        λ u t1 v1 keeps marked.
          weaker (Stable m) (Stable (rescan ctx cur >> m)) t1 (m t1) (later t1 marked)
            (h t1 v1 keeps marked)
    where
      later :
          (t1 : Tree)
          → mem cur t1.cache_scanned_folders ≡ true
          → (o : Option ℕ) (t2 : Tree) → Kept t1 t2
          → Stable m o t2
          → Stable (rescan ctx cur >> m) o t2
      later t1 marked none t2 keeps s = tt
      later t1 marked (some n) t2 keeps s = (
        s.0,
        λ t3 keeps3.
            bind_ok (rescan ctx cur) (λ _. m) t3 t3 tt
              (rescan_done ctx cur t3
                (kept-mem t1 t3 cur (kept_trans t1 t2 t3 keeps keeps3) marked))
            ∙ s.1 t3 keeps3,
      )

  pub find_dir-Step :
      (lst : List String) (cur : ℕ) (t : Tree)
      → IsTree t
      → cur < bound t
      → Step (Stable (find_dir ctx cur lst)) t (find_dir ctx cur lst t)
  unfolding find_dir Stable
  find_dir-Step [] cur t v lt = (v, (kept_refl t, (lt, λ t' k. refl)))
  find_dir-Step (name ∷ lst) cur t v lt =
      scanned-Step cur (go_on (advance ctx cur name) (λ n. find_dir ctx n lst)) t v
        λ t1 v1 keeps marked.
          go_on-Step (advance ctx cur name) (λ n. find_dir ctx n lst) t1
            (advance-Step ctx t1 cur name v1 (kept_lt t t1 cur keeps lt) marked)
            λ n t2 v2 keeps2 lt2. find_dir-Step lst n t2 v2 lt2

  -- The two searches in the folder that was found.
  abbrev pub known : ℕ → M (Option ℕ)
  known x = return (if is_kind file x || is_kind build x then some x else none)

  abbrev pub declared : ℕ → M (Option ℕ)
  declared x = if is_kind build x then return (some x) else raise waf_error

  pub resource_in_again :
      (t : Tree) (p : ℕ) (name : String) (x : ℕ)
      → child p name t ≡ some x
      → (is_kind file x || is_kind build x) ≡ true
      → resource_in ctx p name t ≡ (ok (some x), t)
  unfolding resource_in
  resource_in_again t p name x h k =
      by_name_lem p name known (make_file ctx p name) t x h
      ∙ ap (λ b. (ok (if b then some x else none), t)) k

  pub declare_in_again :
      (t : Tree) (p : ℕ) (name : String) (x : ℕ)
      → child p name t ≡ some x
      → is_kind build x ≡ true
      → declare_in ctx p name t ≡ (ok (some x), t)
  unfolding declare_in
  declare_in_again t p name x h k =
      by_name_lem p name declared (new_node name p build >>= λ n. return (some n)) t x h
      ∙ ap (λ b. (if b then return (some x) else raise waf_error) t) k

  resource-Stable :
      (t : Tree) (p : ℕ) (name : String) (x : ℕ)
      → IsTree t
      → mem p t.cache_scanned_folders ≡ true
      → child p name t ≡ some x
      → (is_kind file x || is_kind build x) ≡ true
      → Stable (resource_in ctx p name) (some x) t
  unfolding Stable
  resource-Stable t p name x v marked h k = (
    child_lt t p name x v h,
    λ t' keeps. resource_in_again t' p name x (kept-child t t' p name x keeps marked h) k,
  )

  declare-Stable :
      (t : Tree) (p : ℕ) (name : String) (x : ℕ)
      → IsTree t
      → mem p t.cache_scanned_folders ≡ true
      → child p name t ≡ some x
      → is_kind build x ≡ true
      → Stable (declare_in ctx p name) (some x) t
  unfolding Stable
  declare-Stable t p name x v marked h k = (
    child_lt t p name x v h,
    λ t' keeps. declare_in_again t' p name x (kept-child t t' p name x keeps marked h) k,
  )

  declare_in-Step :
      (t : Tree) (p : ℕ) (name : String)
      → IsTree t
      → p < bound t
      → mem p t.cache_scanned_folders ≡ true
      → Step (Stable (declare_in ctx p name)) t (declare_in ctx p name t)
  unfolding declare_in Made
  declare_in-Step t p name v lt marked =
      by_name-Step p name declared (new_node name p build >>= λ n. return (some n))
        (Stable (declare_in ctx p name)) t v (λ x h. on_if_build x h (is_kind build x) refl)
        (and_then (Made p name build) (Stable (declare_in ctx p name)) (λ n. return (some n)) t
          (new_node name p build t) (new_node-Step p name build t v lt)
          λ n t1 v1 keeps m.
            (v1, (kept_refl t1, from_made n t1 v1 (kept-mem t t1 p keeps marked) m)))
    where
      on_if_build :
          (x : ℕ)
          → child p name t ≡ some x
          → (b : Bool) → is_kind build x ≡ b
          → Step
              (Stable (declare_in ctx p name))
              t
              ((if b then return (some x) else raise waf_error) t)
      on_if_build x h true e = (v, (kept_refl t, declare-Stable t p name x v marked h e))
      on_if_build x h false e = (v, kept_refl t)

      from_made :
          (n : ℕ) (t1 : Tree)
          → IsTree t1
          → mem p t1.cache_scanned_folders ≡ true
          → Made p name build n t1
          → Stable (declare_in ctx p name) (some n) t1
      from_made n t1 v1 h m = declare-Stable t1 p name n v1 h m.1.0 (rw m.1.1 refl)

  resource_in-Step :
      (t : Tree) (p : ℕ) (name : String)
      → IsTree t
      → p < bound t
      → mem p t.cache_scanned_folders ≡ true
      → Step (Stable (resource_in ctx p name)) t (resource_in ctx p name t)
  unfolding resource_in make_file Stable Made
  resource_in-Step t p name v lt marked =
      by_name-Step p name known (make_file ctx p name) (Stable (resource_in ctx p name)) t v
        (λ x h. (v, (kept_refl t, if_known x h (is_kind file x || is_kind build x) refl)))
        (on_option (Step (Stable (resource_in ctx p name)) t) (lookup p t.cache_dir_contents)
          (err key_error, t) _ (v, kept_refl t)
          λ lst _.
            on_if (Step (Stable (resource_in ctx p name)) t) (not (mem name lst)) (ok none, t) _
              (λ _. nothing)
              λ _.
                on_option (Step (Stable (resource_in ctx p name)) t) (ctx.disk.h_file _)
                  (ok none, t) _ nothing
                  λ st _.
                    and_then (Made p name file) (Stable (resource_in ctx p name))
                      (λ n t1.
                        (ok (some n), record t1 { source_sigs = insert n st t1.source_sigs }))
                      t (new_node name p file t) (new_node-Step p name file t v lt)
                      λ n t1 v1 keeps m.
                        hashed n t1 (insert n st t1.source_sigs) v1 (kept-mem t t1 p keeps marked)
                          m)
    where
      nothing : Step (Stable (resource_in ctx p name)) t (ok none, t)
      nothing = (v, (kept_refl t, tt))

      if_known :
          (x : ℕ)
          → child p name t ≡ some x
          → (b : Bool) → (is_kind file x || is_kind build x) ≡ b
          → Stable (resource_in ctx p name) (if b then some x else none) t
      if_known x h true e = resource-Stable t p name x v marked h e
      if_known x h false e = tt

      hashed :
          (n : ℕ) (t1 : Tree) (sigs : List (ℕ × String))
          → IsTree t1
          → mem p t1.cache_scanned_folders ≡ true
          → Made p name file n t1
          → Step
              (Stable (resource_in ctx p name))
              t1
              (ok (some n), record t1 { source_sigs = sigs })
      hashed n t1 sigs v1 h m = (
        sigs-IsTree t1 sigs v1,
        (
          sigs-Kept t1 sigs,
          resource-Stable (record t1 { source_sigs = sigs }) p name n (sigs-IsTree t1 sigs v1) h
              (child-sigs t1 sigs p name ∙ m.1.0) (rw m.1.1 refl),
        ),
      )

  pub find_or_declare-Step :
      (self : ℕ) (folders : List String) (name : String) (t : Tree)
      → IsTree t
      → self < bound t
      → Step
          (Stable (find_or_declare ctx self folders name))
          t
          (find_or_declare ctx self folders name t)
  unfolding find_or_declare
  find_or_declare-Step self folders name t v lt =
      go_on-Step (find_dir ctx self folders)
        (λ parent. rescan ctx parent >> declare_in ctx parent name) t
        (find_dir-Step folders self t v lt)
        λ n t1 v1 keeps lt1.
          scanned-Step n (declare_in ctx n name) t1 v1
            λ t2 v2 keeps2 marked. declare_in-Step t2 n name v2 (kept_lt t1 t2 n keeps2 lt1) marked

  pub find_resource-Step :
      (self : ℕ) (folders : List String) (name : String) (t : Tree)
      → IsTree t
      → self < bound t
      → Step
          (Stable (find_resource ctx self folders name))
          t
          (find_resource ctx self folders name t)
  unfolding find_resource
  find_resource-Step self folders name t v lt =
      go_on-Step (find_dir ctx self folders)
        (λ parent. rescan ctx parent >> resource_in ctx parent name) t
        (find_dir-Step folders self t v lt)
        λ n t1 v1 keeps lt1.
          scanned-Step n (resource_in ctx n name) t1 v1
            λ t2 v2 keeps2 marked. resource_in-Step t2 n name v2 (kept_lt t1 t2 n keeps2 lt1) marked
