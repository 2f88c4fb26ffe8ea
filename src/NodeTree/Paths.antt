-- ===== src/NodeTree/Paths.antt =====
-- Node.py: the path of a node, and how a path is read.
use meguro.Base.{
  string_eq, nat_eq, ℕ, zero, suc, ◌<◌, String, List, [], ◌∷◌, ◌++◌, Option, none, some, ◌≡◌, refl,
  sym, ap, ◌∙◌, Option-cases, inl, inr, arith, ◌||◌, if◌then◌else◌, ◌==◌,
}
use meguro.NodeTree.{Tree, child, names_from, abspath, name_of, parent_of, reverse_onto}
use meguro.NodeTree.Growth.{bound, IsTree, is_tree, Kept, kept}

reverse_onto-append : (l m k : List String) → reverse_onto l (m ++ k) ≡ reverse_onto l m ++ k
reverse_onto-append [] m k = refl
reverse_onto-append (x ∷ l) m k = reverse_onto-append l (x ∷ m) k

names_step :
    (fuel n : ℕ) (t : Tree) (o : Option ℕ)
    → parent_of n t ≡ o
    → names_from (suc fuel) n t
      ≡ (elim o as (λ _. List String) [ none ↦ [] | some p ↦ name_of n t ∷ names_from fuel p t ])
unfolding names_from
names_step fuel n t o h =
    ap
      (λ o. elim o as (λ _. List String) [ none ↦ [] | some p ↦ name_of n t ∷ names_from fuel p t ])
      h

-- The fuel does not matter where there is enough.
names_from_enough :
    (f g n : ℕ) (t : Tree) → IsTree t → n < f → n < g → names_from f n t ≡ names_from g n t
names_from_enough zero g n t v a b = ground (arith, a, b)
names_from_enough (suc f) zero n t v a b = ground (arith, a, b)
names_from_enough (suc f) (suc g) n t (is_tree x y z) a b = elim (Option-cases (parent_of n t)) [
  | inl e ↦ names_step f n t none e ∙ sym (names_step g n t none e)
  | inr e ↦
      (let older = (z n e.0 e.1).0 in
        names_step f n t (some e.0) e.1
        ∙ ap (λ l. name_of n t ∷ l)
            (names_from_enough f g e.0 t (is_tree x y z) (omega (arith, older, a))
              (omega (arith, older, b)))
        ∙ sym (names_step g n t (some e.0) e.1))
]

abspath-parent :
    (n : ℕ) (t : Tree)
    → IsTree t
    → abspath n t ≡ (elim (parent_of n t) as (λ _. List String) [
      | none ↦ []
      | some p ↦ abspath p t ++ name_of n t ∷ []
    ])
unfolding abspath
abspath-parent n t (is_tree x y z) =
    let path : Option ℕ → List String = λ o. elim o as (λ _. List String) [
      | none ↦ []
      | some p ↦ reverse_onto (names_from (suc p) p t) [] ++ name_of n t ∷ []
    ] in
    elim (Option-cases (parent_of n t)) [
      | inl e ↦ ap (λ l. reverse_onto l []) (names_step n n t none e) ∙ sym (ap path e)
      | inr e ↦
          (let older = (z n e.0 e.1).0 in
            ap (λ l. reverse_onto l []) (names_step n n t (some e.0) e.1)
            ∙ reverse_onto-append (names_from n e.0 t) [] (name_of n t ∷ [])
            ∙ ap (λ l. reverse_onto l [] ++ name_of n t ∷ [])
                (names_from_enough n (suc e.0) e.0 t (is_tree x y z) older (omega arith))
            ∙ sym (ap path e.1))
    ]

abbrev pub without_last : List String → List String
without_last [] = []
without_last (x ∷ []) = []
without_last (x ∷ y ∷ l) = x ∷ without_last (y ∷ l)

-- The path behind one name, as a path is read.
abbrev pub onward : List String → String → List String
onward path name =
    if name == "" || name == "."
    then path
    else (if name == ".." then without_last path else path ++ name ∷ [])

abbrev pub followed : List String → List String → List String
followed path [] = path
followed path (name ∷ lst) = followed (onward path name) lst

-- The node has the path, up to a root whose name is empty.
pub data IsAt (t : Tree) : ℕ → List String → Type 0 where
  at_root : (n : ℕ) → parent_of n t ≡ none → name_of n t ≡ "" → IsAt t n []
  at_child :
      (n p : ℕ) (l : List String) (s : String)
      → parent_of n t ≡ some p
      → name_of n t ≡ s
      → IsAt t p l
      → IsAt t n (l ++ s ∷ [])

pub without_last-append : (l : List String) (s : String) → without_last (l ++ s ∷ []) ≡ l
without_last-append [] s = refl
without_last-append (x ∷ []) s = refl
without_last-append (x ∷ y ∷ l) s = ap (λ k. x ∷ k) (without_last-append (y ∷ l) s)

pub abspath-IsAt : (t : Tree) (n : ℕ) (l : List String) → IsTree t → IsAt t n l → abspath n t ≡ l
abspath-IsAt t n _ v (at_root _ e k) = abspath-parent n t v ∙ rw e refl
abspath-IsAt t n _ v (at_child _ p l s e k h) =
    abspath-parent n t v ∙ rw e (rw k (rw (abspath-IsAt t p l v h) refl))

name_of-Kept :
    (t t' : Tree) (n : ℕ)
    → Kept t t'
    → n < bound t
    → (name_of n t' ≡ name_of n t) × (parent_of n t' ≡ parent_of n t)
name_of-Kept t t' n (kept a b c) lt = (
  ap (λ (o : Option String). elim o as (λ _. String) [ none ↦ "" | some s ↦ s ]) (b n lt).0,
  (b n lt).1,
)

pub parent_lt : (t : Tree) (n p : ℕ) → IsTree t → parent_of n t ≡ some p → n < bound t → p < bound t
parent_lt t n p (is_tree a b c) e lt = let older = c n p e in omega (arith, older.0, lt)

pub Kept-IsAt :
    (t t' : Tree) (n : ℕ) (l : List String)
    → IsTree t
    → Kept t t'
    → n < bound t
    → IsAt t n l
    → IsAt t' n l
Kept-IsAt t t' n _ v k lt (at_root _ e h) =
    let same = name_of-Kept t t' n k lt in at_root n (same.1 ∙ e) (same.0 ∙ h)
Kept-IsAt t t' n _ v k lt (at_child _ p l s e h r) =
    let same = name_of-Kept t t' n k lt in
    at_child n p l s (same.1 ∙ e) (same.0 ∙ h) (Kept-IsAt t t' p l v k (parent_lt t n p v e lt) r)

pub child-IsAt :
    (t : Tree) (cur : ℕ) (name : String) (x : ℕ) (l : List String)
    → IsTree t
    → child cur name t ≡ some x
    → IsAt t cur l
    → IsAt t x (l ++ name ∷ [])
child-IsAt t cur name x l (is_tree a b c) h at =
    let r = b cur name x h in
    at_child x cur l name r.1.1
      (ap (λ (o : Option String). elim o as (λ _. String) [ none ↦ "" | some s ↦ s ]) r.1.0) at
