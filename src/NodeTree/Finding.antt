-- ===== src/NodeTree/Finding.antt =====
-- Node.py: what the searches promise.
use meguro.Base.{
  string_eq, nat_eq, ℕ, ◌<◌, String, List, Option, none, some, Bool, true, false, ◌||◌,
  if◌then◌else◌, ◌==◌, ◌≡◌, refl, sym, ap, ◌∙◌, subst, mem, lookup, Bool-cases, Option-cases,
  on_option, on_if, inl, inr, arith,
}
use meguro.Base.Raise.{Result, ok, err, ◌>>=◌, return, bind_ok}
use meguro.NodeTree.{
  Failure, attribute_error, dir, Tree, M, Context, is_kind, childs_of, child, parent_of, new_node,
}
use meguro.NodeTree.Growth.{bound, IsTree, is_tree, Kept, kept, kept_refl, Step, and_then}
use meguro.NodeTree.Fresh.{Made, new_node-Step}
use meguro.NodeTree.Search.{new_dir, is_drive, listed, make_dir, enter, up, is_root_name, advance}

-- A search that found a node finds it in every later state, and changes nothing.
unfoldable pub Stable : M (Option ℕ) → Option ℕ → Tree → Type 0
Stable m none t = Unit {0}
Stable m (some n) t = (n < bound t) × ((t' : Tree) → Kept t t' → m t' ≡ (ok (some n), t'))

pub weaker :
    {A : Type 0} (Q P : A → Tree → Type 0) (t : Tree) (r : Result Failure A × Tree)
    → ((a : A) (t' : Tree) → Kept t t' → Q a t' → P a t')
    → Step Q t r
    → Step P t r
weaker Q P t (ok a, t') f h = (h.0, (h.1.0, f a t' h.1.0 h.1.1))
weaker Q P t (err e, t') f h = h

pub kept-child :
    (t t' : Tree) (n : ℕ) (s : String) (x : ℕ)
    → Kept t t'
    → mem n t.cache_scanned_folders ≡ true
    → child n s t ≡ some x
    → child n s t' ≡ some x
kept-child t t' n s x (kept a b c) h e = (c n h).1 s x e

pub kept-mem :
    (t t' : Tree) (n : ℕ)
    → Kept t t'
    → mem n t.cache_scanned_folders ≡ true
    → mem n t'.cache_scanned_folders ≡ true
kept-mem t t' n (kept a b c) h = (c n h).0

pub kept_lt : (t t' : Tree) (n : ℕ) → Kept t t' → n < bound t → n < bound t'
kept_lt t t' n (kept a b c) h = omega (arith, a, h)

-- The parts of a folder's table.
child_lem :
    (t : Tree) (n : ℕ) (s : String) (c : List (String × ℕ))
    → lookup n t.childs ≡ some c
    → child n s t ≡ lookup s c
unfolding child
child_lem t n s c h =
    ap
      (λ (o : Option (List (String × ℕ))). elim o as (λ _. Option ℕ) [
        | none ↦ none
        | some d ↦ lookup s d
      ])
      h

pub child-table :
    (t : Tree) (n : ℕ) (s : String) (x : ℕ)
    → child n s t ≡ some x
    → (c : List (String × ℕ)) × ((lookup n t.childs ≡ some c) × (lookup s c ≡ some x))
unfolding child
child-table t n s x h = from (lookup n t.childs) h
  where
    from :
        (o : Option (List (String × ℕ)))
        → (elim o as (λ _. Option ℕ) [ none ↦ none | some d ↦ lookup s d ]) ≡ some x
        → (c : List (String × ℕ)) × ((o ≡ some c) × (lookup s c ≡ some x))
    from none k = cc
    from (some c) k = (c, (refl, k))

pub child_lt :
    (t : Tree) (n : ℕ) (s : String) (x : ℕ) → IsTree t → child n s t ≡ some x → x < bound t
child_lt t n s x (is_tree a b c) h = (b n s x h).0

pub childs_of_lem :
    (t : Tree) (n : ℕ) (c : List (String × ℕ))
    → lookup n t.childs ≡ some c
    → childs_of n t ≡ (ok c, t)
childs_of_lem t n c h =
    ap
      (λ (o : Option (List (String × ℕ))).
        elim o as (λ _. Result Failure (List (String × ℕ)) × Tree) [
          | none ↦ (err attribute_error, t)
          | some d ↦ (ok d, t)
        ])
      h

-- A step that looks a name up in a folder.
module _ {A : Type 0} (cur : ℕ) (name : String) (found : ℕ → M A) (missing : M A) where
  abbrev pub by_name : M A
  by_name = childs_of cur >>= λ c. elim (lookup name c) as (λ _. M A) [
    | some x ↦ found x
    | none ↦ missing
  ]

  pub by_name_lem : (t : Tree) (x : ℕ) → child cur name t ≡ some x → by_name t ≡ found x t
  by_name_lem t x h =
      let at = child-table t cur name x h in
      bind_ok (childs_of cur)
        (λ c. elim (lookup name c) as (λ _. M A) [ some y ↦ found y | none ↦ missing ]) t t at.0
        (childs_of_lem t cur at.0 at.1.0)
      ∙ ap (λ (o : Option ℕ). (elim o as (λ _. M A) [ some y ↦ found y | none ↦ missing ]) t) at.1.1

  pub by_name-Step :
      (P : A → Tree → Type 0) (t : Tree)
      → IsTree t
      → ((x : ℕ) → child cur name t ≡ some x → Step P t (found x t))
      → Step P t (missing t)
      → Step P t (by_name t)
  by_name-Step P t v f m =
      on_option
        (λ (r : Result Failure (List (String × ℕ)) × Tree).
          Step P t (elim r.0 as (λ _. Result Failure A × Tree) [
            | ok c ↦ (elim (lookup name c) as (λ _. M A) [ some x ↦ found x | none ↦ missing ]) r.1
            | err e ↦ (err e, r.1)
          ]))
        (lookup cur t.childs) (err attribute_error, t) (λ c. (ok c, t)) (v, kept_refl t)
        λ c h.
          on_option (λ (k : M A). Step P t (k t)) (lookup name c) missing found m
            λ x e. f x (child_lem t cur name c h ∙ e)

module _ (ctx : Context) where
  abbrev folder_only : ℕ → M (Option ℕ)
  folder_only x = return (if is_kind dir x then some x else none)

  enter_again :
      (t : Tree) (cur : ℕ) (name : String) (x : ℕ)
      → child cur name t ≡ some x
      → is_kind dir x ≡ true
      → enter ctx cur name t ≡ (ok (some x), t)
  unfolding enter
  enter_again t cur name x h k =
      by_name_lem cur name folder_only (make_dir ctx cur name) t x h
      ∙ ap (λ b. (ok (if b then some x else none), t)) k

  new_dir-Step :
      (t : Tree) (cur : ℕ) (name : String)
      → IsTree t
      → cur < bound t
      → mem cur t.cache_scanned_folders ≡ true
      → Step (Stable (enter ctx cur name)) t (new_dir name cur t)
  unfolding Stable Made
  new_dir-Step t cur name v lt h =
      and_then (Made cur name dir) (Stable (enter ctx cur name)) (λ n. return (some n)) t
        (new_node name cur dir t) (new_node-Step cur name dir t v lt)
        λ n t1 v1 k made. (
          v1,
          (
            kept_refl t1,
            (
              made.0,
              λ t2 k2.
                  enter_again t2 cur name n
                    (kept-child t1 t2 cur name n k2 (kept-mem t t1 cur k h) made.1.0)
                    (rw made.1.1 refl),
            ),
          ),
        )

  make_dir-Step :
      (t : Tree) (cur : ℕ) (name : String)
      → IsTree t
      → cur < bound t
      → mem cur t.cache_scanned_folders ≡ true
      → Step (Stable (enter ctx cur name)) t (make_dir ctx cur name t)
  unfolding make_dir Stable
  make_dir-Step t cur name v lt h =
      let make = new_dir-Step t cur name v lt h in
      let none_found : Step (Stable (enter ctx cur name)) t (ok none, t) = (v, (kept_refl t, tt)) in
      on_if (Step (Stable (enter ctx cur name)) t) (listed cur name t) _ _
        (λ _.
          on_if (Step (Stable (enter ctx cur name)) t) (ctx.disk.isdir _) _ _ (λ _. make)
            λ _. none_found)
        λ _.
          on_if (Step (Stable (enter ctx cur name)) t) (is_drive cur name t) _ _ (λ _. make)
            λ _. none_found

  enter-Step :
      (t : Tree) (cur : ℕ) (name : String)
      → IsTree t
      → cur < bound t
      → mem cur t.cache_scanned_folders ≡ true
      → Step (Stable (enter ctx cur name)) t (enter ctx cur name t)
  unfolding enter Stable
  enter-Step t cur name v lt h =
      by_name-Step cur name folder_only (make_dir ctx cur name) (Stable (enter ctx cur name)) t v
        (λ x e. (
          v,
          (
            kept_refl t,
            elim (Bool-cases (is_kind dir x)) [
              | inl d ↦
                  subst (λ b. Stable (enter ctx cur name) (if b then some x else none) t) (sym d)
                    (
                      child_lt t cur name x v e,
                      λ t' k. enter_again t' cur name x (kept-child t t' cur name x k h e) d,
                    )
              | inr d ↦
                  subst (λ b. Stable (enter ctx cur name) (if b then some x else none) t) (sym d) tt
            ],
          ),
        ))
        (make_dir-Step t cur name v lt h)

  -- What a turn reads of the folder itself stays.
  abbrev stays : ℕ → String → Tree → Bool
  stays cur name t = is_root_name ctx cur name t || name == "" || name == "."

  same_look :
      (t t' : Tree) (cur : ℕ) (name : String)
      → Kept t t'
      → cur < bound t
      → (stays cur name t' ≡ stays cur name t) × (up ctx cur t' ≡ up ctx cur t)
  same_look t t' cur name (kept a b c) lt =
      let same = b cur lt in
      let both : ◌≡◌ {A = Option String × Option ℕ} (lookup cur t'.names, parent_of cur t')
          (lookup cur t.names, parent_of cur t) =
        rw (same.0, same.1) refl in
      (
        ap
            (λ (y : Option String × Option ℕ).
              (elim y.1 as (λ _. Bool) [
                | none ↦ name == (elim y.0 as (λ _. String) [ none ↦ "" | some s ↦ s ])
                | some p ↦ false
              ])
              || name == ""
              || name == ".")
            both,
        ap (λ (y : Option ℕ). elim y as (λ _. ℕ) [ none ↦ cur | some p ↦ p ]) same.1,
      )

  advance_branch :
      (t : Tree) (cur : ℕ) (name : String) (e f : Bool)
      → stays cur name t ≡ e
      → (name == "..") ≡ f
      → advance ctx cur name t ≡ (
          if e
          then (ok (some cur), t)
          else (if f then (ok (some (up ctx cur t)), t) else enter ctx cur name t))
  unfolding advance
  advance_branch t cur name e f h k =
      ap
        (λ (b : Bool × Bool).
          if b.0
          then (ok (some cur), t)
          else (if b.1 then (ok (some (up ctx cur t)), t) else enter ctx cur name t))
        (rw (h, k) refl)

  pub up_lt : (t : Tree) (cur : ℕ) → IsTree t → cur < bound t → up ctx cur t < bound t
  up_lt t cur (is_tree a b c) lt = elim (Option-cases (parent_of cur t)) [
    | inl e ↦
        subst (λ (o : Option ℕ). (elim o as (λ _. ℕ) [ none ↦ cur | some p ↦ p ]) < bound t) (sym e)
          lt
    | inr e ↦
        subst (λ (o : Option ℕ). (elim o as (λ _. ℕ) [ none ↦ cur | some p ↦ p ]) < bound t)
          (sym e.1) (let older = c cur e.0 e.1 in omega (arith, older.0, older.1))
  ]

  -- An answer of `advance` is the same later where the branch is.
  advance-Stable :
      (t : Tree) (cur : ℕ) (name : String) (e f : Bool)
      → cur < bound t
      → stays cur name t ≡ e
      → (name == "..") ≡ f
      → (n : ℕ) → n < bound t
      → ((t' : Tree)
          → Kept t t'
          → ◌≡◌ {A = Result Failure (Option ℕ) × Tree}
              (if e
                then (ok (some cur), t')
                else (if f then (ok (some (up ctx cur t)), t') else enter ctx cur name t'))
              (ok (some n), t'))
      → Stable (advance ctx cur name) (some n) t
  unfolding Stable
  advance-Stable t cur name e f lt h k n l again = (
    l,
    λ t' keeps.
        let look = same_look t t' cur name keeps lt in
        advance_branch t' cur name e f (look.0 ∙ h) k
        ∙ ap
            (λ u.
              if e
              then (ok (some cur), t')
              else (if f then (ok (some u), t') else enter ctx cur name t'))
            look.1
        ∙ again t' keeps,
  )

  pub advance-Step :
      (t : Tree) (cur : ℕ) (name : String)
      → IsTree t
      → cur < bound t
      → mem cur t.cache_scanned_folders ≡ true
      → Step (Stable (advance ctx cur name)) t (advance ctx cur name t)
  unfolding Stable
  advance-Step t cur name v lt h = branch (stays cur name t) (name == "..") refl refl
    where
      branch :
          (e f : Bool)
          → stays cur name t ≡ e
          → (name == "..") ≡ f
          → Step (Stable (advance ctx cur name)) t (advance ctx cur name t)
      branch true f e k =
          subst (Step (Stable (advance ctx cur name)) t)
            (sym (advance_branch t cur name true f e k))
            (v, (kept_refl t, advance-Stable t cur name true f lt e k cur lt λ t' keeps. refl))
      branch false true e k =
          subst (Step (Stable (advance ctx cur name)) t)
            (sym (advance_branch t cur name false true e k))
            (
              v,
              (
                kept_refl t,
                advance-Stable t cur name false true lt e k (up ctx cur t) (up_lt t cur v lt)
                    λ t' keeps. refl,
              ),
            )
      branch false false e k =
          subst (Step (Stable (advance ctx cur name)) t)
            (sym (advance_branch t cur name false false e k))
            (weaker (Stable (enter ctx cur name)) (Stable (advance ctx cur name)) t _
              (λ o t1 keeps s. later o t1 keeps s) (enter-Step t cur name v lt h))
        where
          later :
              (o : Option ℕ) (t1 : Tree)
              → Kept t t1
              → Stable (enter ctx cur name) o t1
              → Stable (advance ctx cur name) o t1
          later none t1 keeps s = tt
          later (some n) t1 keeps s =
              advance-Stable t1 cur name false false (kept_lt t t1 cur keeps lt)
                ((same_look t t1 cur name keeps lt).0 ∙ e) k n s.0 s.1
