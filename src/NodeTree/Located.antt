-- ===== src/NodeTree/Located.antt =====
-- Node.py: where `find_dir` and `find_or_declare` arrive.
use meguro.Base.{
  string_eq, nat_eq, ℕ, ◌<◌, String, List, [], ◌∷◌, ◌++◌, Option, none, some, Bool, true, false,
  ◌||◌, ◌⊎◌, if◌then◌else◌, ◌==◌, ◌≡◌, refl, sym, ap, ◌∙◌, subst, on_if, inl, inr,
}
use meguro.Base.Raise.{Result, ok, ◌>>=◌, return}
use meguro.NodeTree.{Failure, dir, Tree, M, Context, is_kind, name_of, new_node, rescan, abspath}
use meguro.NodeTree.Growth.{
  from_step, bound, IsTree, Kept, kept_refl, Step, and_then, Scanned, rescan-Step,
}
use meguro.NodeTree.Fresh.{Made, new_node-Step}
use meguro.NodeTree.Search.{
  new_dir, is_drive, listed, make_dir, enter, up, is_root_name, advance, find_dir, find_or_declare,
}
use meguro.NodeTree.Finding.{Stable, by_name-Step, child_lt, kept_lt}
use meguro.NodeTree.Again.{find_or_declare-Step}
use meguro.NodeTree.Declared.{declared_parts}
use meguro.NodeTree.Paths.{
  IsAt, at_root, at_child, without_last, without_last-append, onward, followed, abspath-IsAt,
  parent_lt, Kept-IsAt, child-IsAt,
}

-- What a search that arrives at a path promises.
unfoldable Found : List String → Option ℕ → Tree → Type 0
Found l none t = Unit {0}
Found l (some n) t = (n < bound t) × IsAt t n l

Found-Kept :
    (l : List String) (t t1 : Tree) (n : ℕ)
    → IsTree t
    → Kept t t1
    → n < bound t
    → IsAt t n l
    → Found l (some n) t1
unfolding Found
Found-Kept l t t1 n v k lt at = (kept_lt t t1 n k lt, Kept-IsAt t t1 n l v k lt at)

module _ (ctx : Context) (l : List String) (cur : ℕ) (t : Tree) (v : IsTree t) (lt : cur < bound t)
    (at : IsAt t cur l) where
  new_dir-Found : (name : String) → Step (Found (l ++ name ∷ [])) t (new_dir name cur t)
  unfolding Found Made
  new_dir-Found name =
      and_then (Made cur name dir) (Found (l ++ name ∷ [])) (λ n. return (some n)) t
        (new_node name cur dir t) (new_node-Step cur name dir t v lt)
        λ n t1 v1 k made. (
          v1,
          (
            kept_refl t1,
            (made.0, child-IsAt t1 cur name n l v1 made.1.0 (Kept-IsAt t t1 cur l v k lt at)),
          ),
        )

  make_dir-Found : (name : String) → Step (Found (l ++ name ∷ [])) t (make_dir ctx cur name t)
  unfolding make_dir Found
  make_dir-Found name =
      let P = Step (Found (l ++ name ∷ [])) t in
      let make = new_dir-Found name in
      let none_found : P (ok none, t) = (v, (kept_refl t, tt)) in
      on_if P (listed cur name t) _ _
        (λ _. on_if P (ctx.disk.isdir _) _ _ (λ _. make) λ _. none_found)
        λ _. on_if P (is_drive cur name t) _ _ (λ _. make) λ _. none_found

  enter-Found : (name : String) → Step (Found (l ++ name ∷ [])) t (enter ctx cur name t)
  unfolding enter Found
  enter-Found name =
      by_name-Step cur name (λ x. return (if is_kind dir x then some x else none))
        (make_dir ctx cur name) (Found (l ++ name ∷ [])) t v
        (λ x e. (
          v,
          (
            kept_refl t,
            on_if (λ o. Found (l ++ name ∷ []) o t) (is_kind dir x) (some x) none
                (λ _. (child_lt t cur name x v e, child-IsAt t cur name x l v e at)) λ _. tt,
          ),
        ))
        (make_dir-Found name)

  up-Found : Found (without_last l) (some (up ctx cur t)) t
  unfolding Found
  up-Found = from l lt at
    where
      from :
          (m : List String)
          → cur < bound t
          → IsAt t cur m
          → Found (without_last m) (some (up ctx cur t)) t
      from _ lt (at_root _ e k) =
          subst
            (λ (o : Option ℕ). Found [] (some (elim o as (λ _. ℕ) [ none ↦ cur | some p ↦ p ])) t)
            (sym e) (lt, at_root cur e k)
      from _ lt (at_child _ p m s e k h) =
          subst
            (λ (o : Option ℕ).
              Found (without_last (m ++ s ∷ []))
                (some (elim o as (λ _. ℕ) [ none ↦ cur | some p ↦ p ])) t)
            (sym e) (parent_lt t cur p v e lt, subst (IsAt t p) (sym (without_last-append m s)) h)

  root_is :
      (name : String)
      → (m : List String) → IsAt t cur m
      → (is_root_name ctx cur name t ≡ (name == "")) ⊎ (is_root_name ctx cur name t ≡ false)
  root_is name _ (at_root _ e k) = inl (
      ap (λ (o : Option ℕ). elim o as (λ _. Bool) [ none ↦ name == name_of cur t | some p ↦ false ])
        e
      ∙ ap (λ s. name == s) k)
  root_is name _ (at_child _ p m s e k h) = inr (
      ap (λ (o : Option ℕ). elim o as (λ _. Bool) [ none ↦ name == name_of cur t | some p ↦ false ])
        e)

  -- The name of the root is empty, so the test of it adds nothing.
  root_name :
      (name : String)
      → (is_root_name ctx cur name t || name == "" || name == ".") ≡ (name == "" || name == ".")
  root_name name = elim (root_is name l at) [
    | inl e ↦ ap (λ b. b || name == "" || name == ".") e ∙ or_same (name == "") (name == ".")
    | inr e ↦ ap (λ b. b || name == "" || name == ".") e
  ]
    where
      or_same : (a b : Bool) → (a || a || b) ≡ (a || b)
      or_same true b = refl
      or_same false b = refl

  turn : String → Bool → Bool → Result Failure (Option ℕ) × Tree
  turn name a b =
      if a
      then (ok (some cur), t)
      else (if b then (ok (some (up ctx cur t)), t) else enter ctx cur name t)

  turn-Found :
      (name : String) (a b : Bool)
      → Step
          (Found (if a then l else (if b then without_last l else l ++ name ∷ [])))
          t
          (turn name a b)
  unfolding turn Found
  turn-Found name true b = (v, (kept_refl t, (lt, at)))
  turn-Found name false true = (v, (kept_refl t, up-Found))
  turn-Found name false false = enter-Found name

  advance-Found : (name : String) → Step (Found (onward l name)) t (advance ctx cur name t)
  unfolding advance turn
  advance-Found name =
      subst (Step (Found (onward l name)) t)
        (sym (ap (λ a. turn name a (name == "..")) (root_name name)))
        (turn-Found name (name == "" || name == ".") (name == ".."))

module _ (ctx : Context) where
  -- What is behind a turn of the loop.
  rest_of : List String → Option ℕ → M (Option ℕ)
  rest_of lst found = elim found as (λ _. M (Option ℕ)) [
    | none ↦ return none
    | some n ↦ find_dir ctx n lst
  ]

  rest-Found :
      (p : List String) (lst : List String)
      → ((n : ℕ) (t : Tree)
          → IsTree t
          → n < bound t
          → IsAt t n p
          → Step (Found (followed p lst)) t (find_dir ctx n lst t))
      → (found : Option ℕ) (t : Tree) → IsTree t
      → Found p found t
      → Step (Found (followed p lst)) t (rest_of lst found t)
  unfolding rest_of Found
  rest-Found p lst k none t v f = (v, (kept_refl t, tt))
  rest-Found p lst k (some n) t v f = k n t v f.0 f.1

  find_dir-Found :
      (lst l : List String) (cur : ℕ) (t : Tree)
      → IsTree t
      → cur < bound t
      → IsAt t cur l
      → Step (Found (followed l lst)) t (find_dir ctx cur lst t)
  unfolding find_dir Found Scanned rest_of
  find_dir-Found [] l cur t v lt at = (v, (kept_refl t, (lt, at)))
  find_dir-Found (name ∷ lst) l cur t v lt at =
      and_then (Scanned cur) (Found (followed (onward l name) lst))
        (λ _. advance ctx cur name >>= rest_of lst) t (rescan ctx cur t) (rescan-Step ctx cur t v)
        λ u t1 v1 keeps marked.
          and_then (Found (onward l name)) (Found (followed (onward l name) lst)) (rest_of lst) t1
            (advance ctx cur name t1)
            (advance-Found ctx l cur t1 v1 (kept_lt t t1 cur keeps lt)
              (Kept-IsAt t t1 cur l v keeps lt at) name)
            λ found t2 v2 keeps2 f.
              rest-Found (onward l name) lst
                (λ n t3 v3 lt3 at3. find_dir-Found lst (onward l name) n t3 v3 lt3 at3) found t2 v2
                f

-- In a tree in which the walk up from `self` gives the path and ends at a root whose name is empty:
-- a node that `find_dir` gives has the path (`abspath` without an environment) that the names lead
-- to from that of `self`, an empty name or `.` staying, `..` leaving off the last name, if there is
-- one, and any other name coming behind.
pub find_dir-abspath :
    (ctx : Context) (self n : ℕ) (path lst : List String) (t t' : Tree)
    → IsTree t
    → self < bound t
    → IsAt t self path
    → find_dir ctx self lst t ≡ (ok (some n), t')
    → abspath n t' ≡ followed (abspath self t) lst
unfolding Found
find_dir-abspath ctx self n path lst t t' v lt at h =
    let r =
      from_step (Found (followed path lst)) t t' (some n) (find_dir ctx self lst t) h
        (find_dir-Found ctx lst path self t v lt at) in
    abspath-IsAt t' n (followed path lst) r.0 r.1.1.1
    ∙ ap (λ p. followed p lst) (sym (abspath-IsAt t self path v at))

-- In a tree in which the walk up from `self` gives the path and ends at a root whose name is empty:
-- a node that `find_or_declare` gives has the path (`abspath` without an environment) that the
-- folders lead to, read as for `find_dir`, with the last name behind it as it stands.
pub find_or_declare-abspath :
    (ctx : Context) (self n : ℕ) (path folders : List String) (name : String) (t t' : Tree)
    → IsTree t
    → self < bound t
    → IsAt t self path
    → find_or_declare ctx self folders name t ≡ (ok (some n), t')
    → abspath n t' ≡ followed (abspath self t) folders ++ name ∷ []
unfolding Found
find_or_declare-abspath ctx self n path folders name t t' v lt at h =
    let later =
      from_step (Stable (find_or_declare ctx self folders name)) t t' (some n)
        (find_or_declare ctx self folders name t) h
        (find_or_declare-Step ctx self folders name t v lt) in
    let parts = declared_parts ctx self n folders name t t' v lt h in
    let r =
      from_step (Found (followed path folders)) t' t' (some parts.0) (find_dir ctx self folders t')
        (parts.1.0 t' (kept_refl t'))
        (find_dir-Found ctx folders path self t' later.0 (kept_lt t t' self later.1.0 lt)
          (Kept-IsAt t t' self path v later.1.0 lt at)) in
    abspath-IsAt t' n _ later.0
      (child-IsAt t' parts.0 name n (followed path folders) later.0 parts.1.1.1.0 r.1.1.1)
    ∙ ap (λ p. followed p folders ++ name ∷ []) (sym (abspath-IsAt t self path v at))
