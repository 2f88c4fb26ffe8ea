-- ===== src/NodeTree/Fresh.antt =====
-- Node.py: what a new node changes.
use meguro.Base.{
  string_eq, nat_eq, ℕ, ◌+◌, ◌%◌, ◌≤◌, ◌<◌, ◌⊎◌, String, List, [], Option, none, some, Bool, true,
  false, ◌&&◌, if◌then◌else◌, ◌==◌, ◌≡◌, refl, sym, ap, ◌∙◌, subst, lookup, insert, lookup-insert,
  lookup-insert_ne, lookup-insert_self, Bool-cases, Option-cases, on_option, inl, inr, arith,
  beq_refl,
}
use meguro.Base.Raise.{Result, ok, err}
use meguro.NodeTree.{
  Failure, waf_error, attribute_error, Kind, undefined, dir, file, build, code, Tree, child,
  parent_of, new_node, with_child,
}
use meguro.NodeTree.Scan.{within}
use meguro.NodeTree.Growth.{bound, IsTree, is_tree, Kept, kept, Step}

code_lt : (k : Kind) → code k < 4
code_lt undefined = omega arith
code_lt dir = omega arith
code_lt file = omega arith
code_lt build = omega arith

code_mod : (n : ℕ) (k : Kind) → n % 4 ≡ 0 → (n + 4 + code k) % 4 ≡ code k
code_mod n undefined h = omega arith
code_mod n dir h = omega arith
code_mod n file h = omega arith
code_mod n build h = omega arith

apart : (n m : ℕ) → n < m → (m == n) ≡ false
apart n m h = ground (arith, nat_eq.decides m n)

below : (n m : ℕ) → n < m → (n == m) ≡ false
below n m h = ground (arith, nat_eq.decides n m)

within-insert :
    (p m : ℕ) (s r : String) (id : ℕ) (c : List (String × ℕ)) (d : List (ℕ × List (String × ℕ)))
    → lookup p d ≡ some c
    → within r (lookup m (insert p (insert s id c) d))
      ≡ (if p == m && s == r then some id else within r (lookup m d))
within-insert p m s r id c d h =
    ground
      (arith, h, lookup-insert p m (insert s id c) d, lookup-insert s r id c, nat_eq.decides p m)

-- A case that gave a value.
from_if :
    (e : Bool) (i x : ℕ) (o : Option ℕ)
    → (if e then some i else o) ≡ some x
    → ((e ≡ true) × (i ≡ x)) ⊎ ((e ≡ false) × (o ≡ some x))
from_if true i x o h = inl (refl, ground (arith, h))
from_if false i x o h = inr (refl, h)

-- What is not made yet has no childs.
childless :
    (t : Tree) (m : ℕ) (r : String) → IsTree t → bound t ≤ m → within r (lookup m t.childs) ≡ none
unfolding child
childless t m r (is_tree a b c) le = elim (Option-cases (within r (lookup m t.childs))) [
  | inl e ↦ e
  | inr e ↦
      (let at = b m r e.0 e.1 in let older = c e.0 m at.1.1 in ground (arith, at.0, older.0, le))
]

neither : (e f : Bool) (i o : Option ℕ) → e ≡ false → o ≡ none → (if e && f then i else o) ≡ none
neither true f i o h k = cc
neither false f i o h k = k

same_place : (p n : ℕ) (s r : String) → (p == n && s == r) ≡ true → (p ≡ n) × (s ≡ r)
same_place p n s r e = ground (arith, nat_eq.decides p n, string_eq.decides s r, e)

module _ (p : ℕ) (s : String) (t : Tree) (c : List (String × ℕ)) (h : lookup p t.childs ≡ some c)
    (lt : p < bound t) (v : IsTree t) where
  within-with_child :
      (k : Kind) (m : ℕ) (r : String)
      → within r (lookup m (with_child k p s (bound t + code k) c t.childs))
        ≡ (if p == m && s == r then some (bound t + code k) else within r (lookup m t.childs))
  unfolding lookup
  within-with_child undefined m r = within-insert p m s r (bound t + 0) c t.childs h
  within-with_child file m r = within-insert p m s r (bound t + 2) c t.childs h
  within-with_child build m r = within-insert p m s r (bound t + 3) c t.childs h
  within-with_child dir m r =
      let id : ℕ = bound t + 1 in
      elim (Bool-cases (id == m)) [
        | inl e ↦
            (let same : id ≡ m = (nat_eq.decides id m).0 e in
              let new : lookup m (insert id [] (insert p (insert s id c) t.childs)) ≡ some [] =
                lookup-insert id m [] (insert p (insert s id c) t.childs) ∙ rw e refl in
              ap (within r) new
              ∙ sym (
                  neither (p == m) (s == r) (some id) (within r (lookup m t.childs))
                    (subst (λ x. (p == x) ≡ false) same (below p id (omega (arith, lt))))
                    (childless t m r v (subst (λ x. bound t ≤ x) same (omega arith)))))
        | inr e ↦
            ap (within r) (lookup-insert_ne id m [] (insert p (insert s id c) t.childs) e)
            ∙ within-insert p m s r id c t.childs h
      ]

  -- The new node.
  made : Kind → Tree
  made k = record t {
    id_nodes = t.id_nodes + 4;
    names = insert (bound t + code k) s t.names;
    parents = insert (bound t + code k) p t.parents;
    childs = with_child k p s (bound t + code k) c t.childs;
  }

  child-made :
      (k : Kind) (m : ℕ) (r : String)
      → child m r (made k) ≡ (if p == m && s == r then some (bound t + code k) else child m r t)
  unfolding child made
  child-made k m r = within-with_child k m r

  made-IsTree : (k : Kind) → IsTree (made k)
  unfolding made
  made-IsTree k = grows v
    where
      id : ℕ
      id = bound t + code k

      grows : IsTree t → IsTree (made k)
      grows (is_tree a b d) =
          is_tree (omega (arith, a))
            (λ n r x e.
              linked n r x
                (from_if (p == n && s == r) id x (child n r t) (sym (child-made k n r) ∙ e)))
            λ n q e.
              older n q
                (from_if (id == n) p q (parent_of n t) (sym (lookup-insert id n p t.parents) ∙ e))
        where
          linked :
              (n : ℕ) (r : String) (x : ℕ)
              → (((p == n && s == r) ≡ true) × (id ≡ x))
                ⊎ (((p == n && s == r) ≡ false) × (child n r t ≡ some x))
              → (x < bound (made k))
                × ((lookup x (insert id s t.names) ≡ some r)
                    × (lookup x (insert id p t.parents) ≡ some n))
          linked n r x (inl (e, same)) =
              let both = same_place p n s r e in
              subst
                (λ y.
                  (y < bound (made k))
                  × ((lookup y (insert id s t.names) ≡ some r)
                      × (lookup y (insert id p t.parents) ≡ some n)))
                same
                (
                  omega (arith, code_lt k),
                  (
                    lookup-insert_self id s t.names ∙ ap some both.1,
                    lookup-insert_self id p t.parents ∙ ap some both.0,
                  ),
                )
          linked n r x (inr (e, o)) =
              let old = b n r x o in
              let other = apart x id (omega (arith, old.0)) in
              (
                omega (arith, old.0),
                (
                  lookup-insert_ne id x s t.names other ∙ old.1.0,
                  lookup-insert_ne id x p t.parents other ∙ old.1.1,
                ),
              )

          older :
              (n q : ℕ)
              → (((id == n) ≡ true) × (p ≡ q)) ⊎ (((id == n) ≡ false) × (parent_of n t ≡ some q))
              → (q < n) × (n < bound (made k))
          older n q (inl (e, same)) =
              let i : id ≡ n = (nat_eq.decides id n).0 e in
              subst (λ y. (y < n) × (n < bound (made k))) same
                (subst (λ y. (p < y) × (y < bound (made k))) i
                  (omega (arith, lt), omega (arith, code_lt k)))
          older n q (inr (e, o)) = let old = d n q o in (old.0, omega (arith, old.1))

  absent : lookup s c ≡ none → child p s t ≡ none
  unfolding child
  absent e = ap (within s) h ∙ e

  made-Kept : (k : Kind) → lookup s c ≡ none → Kept t (made k)
  unfolding made
  made-Kept k e =
      kept (omega arith)
        (λ n l.
          let other = apart n (bound t + code k) (omega (arith, l)) in
          (
            lookup-insert_ne (bound t + code k) n s t.names other,
            lookup-insert_ne (bound t + code k) n p t.parents other,
          ))
        λ n l. (l, λ r x q. child-made k n r ∙ rw (old n r x q (p == n && s == r) refl) q)
    where
      old :
          (n : ℕ) (r : String) (x : ℕ)
          → child n r t ≡ some x
          → (b : Bool) → (p == n && s == r) ≡ b
          → b ≡ false
      old n r x q false i = refl
      old n r x q true i =
          let same = same_place p n s r i in
          let gone : child p s t ≡ none = absent e in
          let there : child n r t ≡ none =
            subst (λ (y : ℕ × String). child y.0 y.1 t ≡ none) (rw (same.0, same.1)) gone in
          cc

-- What holds of a new node.
unfoldable pub Made : ℕ → String → Kind → ℕ → Tree → Type 0
Made p s k n t = (n < bound t) × ((child p s t ≡ some n) × (n % 4 ≡ code k))

made-Made :
    (p : ℕ) (s : String) (t : Tree) (c : List (String × ℕ)) (h : lookup p t.childs ≡ some c)
    (lt : p < bound t) (v : IsTree t) (k : Kind)
    → Made p s k (bound t + code k) (made p s t c h lt v k)
unfolding Made made
made-Made p s t c h lt v k = (
  omega (arith, code_lt k),
  (child-made p s t c h lt v k p s ∙ rw (beq_refl p, beq_refl s) refl, kind v),
)
  where
    kind : IsTree t → (bound t + code k) % 4 ≡ code k
    kind (is_tree a b d) = code_mod t.id_nodes k a

-- A node that is refused has used an id up.
spent-IsTree : (t : Tree) → IsTree t → IsTree (record t { id_nodes = t.id_nodes + 4 })
unfolding child
spent-IsTree t (is_tree a b d) =
    is_tree (omega (arith, a)) (λ n s c h. let r = b n s c h in (omega (arith, r.0), r.1))
      λ n p h. let r = d n p h in (r.0, omega (arith, r.1))

spent-Kept : (t : Tree) → Kept t (record t { id_nodes = t.id_nodes + 4 })
unfolding child
spent-Kept t = kept (omega arith) (λ n h. (refl, refl)) λ n h. (h, λ s c k. k)

pub new_node-Step :
    (p : ℕ) (s : String) (k : Kind) (t : Tree)
    → IsTree t
    → p < bound t
    → Step (Made p s k) t (new_node s p k t)
unfolding new_node made
new_node-Step p s k t v lt =
    let spent : Tree = record t { id_nodes = t.id_nodes + 4 } in
    on_option (Step (Made p s k) t) (lookup p t.childs) (err attribute_error, spent) _
      (spent-IsTree t v, spent-Kept t) λ c h. before c h (lookup s c) refl
  where
    before :
        (c : List (String × ℕ))
        → lookup p t.childs ≡ some c
        → (o : Option ℕ) → lookup s c ≡ o
        → Step (Made p s k) t (elim o as (λ _. Result Failure ℕ × Tree) [
          | some other ↦ (err waf_error, record t { id_nodes = t.id_nodes + 4 })
          | none ↦ (
            ok (bound t + code k),
            record t {
              id_nodes = t.id_nodes + 4;
              names = insert (bound t + code k) s t.names;
              parents = insert (bound t + code k) p t.parents;
              childs = with_child k p s (bound t + code k) c t.childs;
            },
          )
        ])
    before c h none e =
        (made-IsTree p s t c h lt v k, (made-Kept p s t c h lt v k e, made-Made p s t c h lt v k))
    before c h (some other) e = (spent-IsTree t v, spent-Kept t)
