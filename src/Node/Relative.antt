-- ===== src/Node/Relative.antt =====
-- Node.py: following a relative path leads to the node that it was made for.
use meguro.Base.{
  string_eq, ℕ, zero, suc, ◌-◌, ◌+◌, ◌≤◌, String, List, [], ◌∷◌, ◌++◌, Option, none, some, true,
  false, ltb, beq_refl, append_assoc, if◌then◌else◌, ◌==◌, ◌≡◌, refl, sym, ap, ◌∙◌, length,
  Bool-cases, inl, inr, All, arith, subst,
}
use meguro.Node.{
  Node, same_node, height, climb, meet, ancestor_from, find_ancestor, names_to, dots, reverse_onto,
  over_ancestor, relpath_gen, names_up, path_to_parent, is_child_of,
}

-- What a path leads to.
unfoldable pub follow : Node → List String → Node
follow p [] = p
follow p (x ∷ l) = follow (if x == "." then p else if x == ".." then climb 1 p else x ∷ p) l

-- The node stands below the ancestor, or is it.
abbrev IsBelow : Node → Node → Type 0
IsBelow p a = (l : List String) × (p ≡ l ++ a)

same_node_lem : (p q : Node) → same_node p q ≡ true → p ≡ q
unfolding same_node
same_node_lem [] [] h = refl
same_node_lem [] (y ∷ q) h = cc
same_node_lem (x ∷ p) [] h = cc
same_node_lem (x ∷ p) (y ∷ q) h =
    let e : (x == y) ≡ true = ground (arith, h) in
    let t : same_node p q ≡ true = ground (arith, h) in
    let r = same_node_lem p q t in let f : x ≡ y = (string_eq.decides x y).0 e in cc

climb-IsBelow : (n : ℕ) (p : Node) → IsBelow p (climb n p)
unfolding climb
climb-IsBelow zero p = ([], refl)
climb-IsBelow (suc n) [] = ([], refl)
climb-IsBelow (suc n) (x ∷ p) = let r = climb-IsBelow n p in (x ∷ r.0, ap (λ q. x ∷ q) r.1)

height-climb : (n : ℕ) (p : Node) → height (climb n p) ≡ height p - n
unfolding climb height
height-climb zero p = omega arith
height-climb (suc n) [] = omega arith
height-climb (suc n) (x ∷ p) = omega (arith, height-climb n p)

-- Two nodes of one height that differ meet.
meet_lem :
    (p q : Node)
    → height p ≡ height q
    → same_node p q ≡ false
    → (a : Node) × ((meet p q ≡ some a) × (IsBelow p a × IsBelow q a))
unfolding meet height same_node
meet_lem [] [] h d = cc
meet_lem [] (y ∷ q) h d = absurd (omega (arith, h))
meet_lem (x ∷ p) [] h d = absurd (omega (arith, h))
meet_lem (x ∷ p) (y ∷ q) h d = elim (Bool-cases (same_node p q)) [
  | inl e ↦
      (p, (rw e refl, ((x ∷ [], refl), (y ∷ [], ap (λ r. y ∷ r) (sym (same_node_lem p q e))))))
  | inr e ↦
      let (a, (m, (u, v))) = meet_lem p q (omega (arith, h)) e in
      (a, (rw e m, ((x ∷ u.0, ap (λ r. x ∷ r) u.1), (y ∷ v.0, ap (λ r. y ∷ r) v.1))))
]

ancestor_from_lem :
    (p q : Node)
    → height q ≤ height p
    → (a : Node) × ((ancestor_from p q ≡ some a) × (IsBelow p a × IsBelow q a))
unfolding ancestor_from
ancestor_from_lem p q h =
    let n = height p - height q in
    let below = climb-IsBelow n p in
    elim (Bool-cases (same_node (climb n p) q)) [
      | inl e ↦ (climb n p, (rw e refl, (below, ([], sym (same_node_lem _ q e)))))
      | inr e ↦
          let (a, (m, (u, v))) = meet_lem (climb n p) q (omega (arith, height-climb n p)) e in
          (
            a,
            (
              rw e m,
              (
                (
                  below.0 ++ u.0,
                  below.1 ∙ (ap (λ r. below.0 ++ r) u.1 ∙ sym (append_assoc below.0 u.0 a)),
                ),
                v,
              ),
            ),
          )
    ]

find_ancestor_lem :
    (p q : Node) → (a : Node) × ((find_ancestor p q ≡ some a) × (IsBelow p a × IsBelow q a))
unfolding find_ancestor
find_ancestor_lem p q = elim (Bool-cases (ltb (height p) (height q))) [
  | inl e ↦
      let (a, (m, (u, v))) = ancestor_from_lem q p (ground (arith, e)) in (a, (rw e m, (v, u)))
  | inr e ↦ let (a, (m, uv)) = ancestor_from_lem p q (ground (arith, e)) in (a, (rw e m, uv))
]

same_node_refl : (p : Node) → same_node p p ≡ true
unfolding same_node
same_node_refl [] = refl
same_node_refl (x ∷ p) = ground (arith, beq_refl x, same_node_refl p)

height-append : (l : List String) (a : Node) → height (l ++ a) ≡ length l + height a
unfolding height
height-append [] a = omega arith
height-append (x ∷ l) a = omega (arith, height-append l a)

same_node-longer : (x : String) (l : List String) (a : Node) → same_node (x ∷ l ++ a) a ≡ false
same_node-longer x l a = elim (Bool-cases (same_node (x ∷ l ++ a) a)) [
  | inl e ↦
      let same : height (x ∷ l ++ a) ≡ height a = ap height (same_node_lem (x ∷ l ++ a) a e) in
      absurd (omega (arith, same, height-append (x ∷ l) a))
  | inr e ↦ e
]

names_to-below : (a : Node) (l : List String) → names_to a (l ++ a) ≡ l
unfolding names_to
names_to-below [] [] = refl
names_to-below (x ∷ a) [] = rw (same_node_refl (x ∷ a)) refl
names_to-below a (x ∷ l) = rw (same_node-longer x l a) (ap (λ r. x ∷ r) (names_to-below a l))

-- The names of a path are neither `.` nor `..`.
abbrev pub IsPlain : String → Type 0
IsPlain x = ((x == ".") ≡ false) × ((x == "..") ≡ false)

follow-reverse :
    (l m : List String) (p : Node) → All IsPlain l → follow p (reverse_onto l m) ≡ follow (l ++ p) m
unfolding follow
follow-reverse [] m p h = refl
follow-reverse (x ∷ l) m p ((a, b), h) = follow-reverse l (x ∷ m) p h ∙ rw a (rw b refl)

dots-snoc : (k m : List String) → dots k ++ ".." ∷ m ≡ ".." ∷ dots k ++ m
dots-snoc [] m = refl
dots-snoc (y ∷ k) m = ap (λ r. ".." ∷ r) (dots-snoc k m)

reverse_onto-dots : (k m : List String) → reverse_onto (dots k) m ≡ dots k ++ m
reverse_onto-dots [] m = refl
reverse_onto-dots (y ∷ k) m = reverse_onto-dots k (".." ∷ m) ∙ dots-snoc k m

follow-dots : (k m : List String) (a : Node) → follow (k ++ a) (dots k ++ m) ≡ follow a m
unfolding follow climb
follow-dots [] m a = refl
follow-dots (y ∷ k) m a = follow-dots k m a

reverse_onto-append :
    (l m r : List String) → reverse_onto (l ++ m) r ≡ reverse_onto m (reverse_onto l r)
reverse_onto-append [] m r = refl
reverse_onto-append (x ∷ l) m r = reverse_onto-append l m (x ∷ r)

All-prefix : (l a : List String) → All IsPlain (l ++ a) → All IsPlain l
All-prefix [] a h = tt
All-prefix (x ∷ l) a (p, h) = (p, All-prefix l a h)

-- Up from one node to the ancestor, and down to the other.
follow-between :
    (l k : List String) (a : Node)
    → All IsPlain l
    → follow (k ++ a) (reverse_onto (l ++ dots k) []) ≡ l ++ a
unfolding follow
follow-between l k a h =
    ap (follow (k ++ a))
      (reverse_onto-append l (dots k) [] ∙ reverse_onto-dots k (reverse_onto l []))
    ∙ (follow-dots k (reverse_onto l []) a ∙ follow-reverse l [] a h)

-- A path that leads from one node to the other.
abbrev Leads : Node → Node → Option (List String) → Type 0
Leads self from_node r = (path : List String) × ((r ≡ some path) × (follow from_node path ≡ self))

over_ancestor_lem :
    (self from_node a : Node)
    → find_ancestor self from_node ≡ some a
    → over_ancestor self from_node
      ≡ some (reverse_onto (names_to a self ++ dots (names_to a from_node)) [])
unfolding over_ancestor
over_ancestor_lem self from_node a m =
    ap
      (λ (o : Option Node). elim o [
        | none ↦ none
        | some b ↦ some (reverse_onto (names_to b self ++ dots (names_to b from_node)) [])
      ])
      m

over_ancestor-Leads :
    (self from_node : Node) → All IsPlain self → Leads self from_node (over_ancestor self from_node)
over_ancestor-Leads self from_node h =
    let (a, (m, (u, v))) = find_ancestor_lem self from_node in
    let down : names_to a self ≡ u.0 = ap (names_to a) u.1 ∙ names_to-below a u.0 in
    let up : names_to a from_node ≡ v.0 = ap (names_to a) v.1 ∙ names_to-below a v.0 in
    let plain = All-prefix u.0 a (subst (All IsPlain) u.1 h) in
    (
      reverse_onto (u.0 ++ dots v.0) [],
      (
        over_ancestor_lem self from_node a m ∙ ap some (rw down (rw up refl)),
        ap (λ q. follow q (reverse_onto (u.0 ++ dots v.0) [])) v.1
            ∙ (follow-between u.0 v.0 a plain ∙ sym u.1),
      ),
    )

self-Leads :
    (self from_node : Node) → same_node self from_node ≡ true → follow from_node ("." ∷ []) ≡ self
unfolding follow
self-Leads self from_node e = sym (same_node_lem self from_node e)

-- Where no name on the way to `self` is `.` or `..`, `relpath_gen` gives a path between any two nodes,
-- and following it from `from_node` leads to `self`.
pub follow-relpath_gen :
    (self from_node : Node)
    → All IsPlain self
    → (path : List String) × ((relpath_gen self from_node ≡ some path)
        × (follow from_node path ≡ self))
unfolding relpath_gen follow climb
follow-relpath_gen self [] h = elim (Bool-cases (same_node self [])) [
  | inl e ↦ ("." ∷ [], (rw e refl, self-Leads self [] e))
  | inr e ↦ let (path, (r, f)) = over_ancestor-Leads self [] h in (path, (rw e r, f))
]
follow-relpath_gen self (y ∷ above) h = elim (Bool-cases (same_node self (y ∷ above))) [
  | inl e ↦ ("." ∷ [], (rw e refl, self-Leads self (y ∷ above) e))
  | inr e ↦ elim (Bool-cases (same_node above self)) [
    | inl d ↦ (".." ∷ [], (rw e (rw d refl), same_node_lem above self d))
    | inr d ↦
        let (path, (r, f)) = over_ancestor-Leads self (y ∷ above) h in (path, (rw e (rw d r), f))
  ]
]

names_up-climb : (n : ℕ) (p : Node) → names_up n p ++ climb n p ≡ p
unfolding names_up climb
names_up-climb zero p = refl
names_up-climb (suc n) [] = refl
names_up-climb (suc n) (x ∷ p) = ap (λ r. x ∷ r) (names_up-climb n p)

-- Where `self` is in the subtree of `parent`, and no name on the way to it is `.` or `..`, following
-- `path_to_parent` from `parent` leads to `self`.
pub follow-path_to_parent :
    (self parent : Node)
    → All IsPlain self
    → is_child_of self parent ≡ true
    → follow parent (path_to_parent self parent) ≡ self
unfolding path_to_parent is_child_of follow
follow-path_to_parent self parent h e =
    let n = height self - height parent in
    let top : climb n self ≡ parent = same_node_lem _ _ e in
    let whole : names_up n self ++ parent ≡ self =
      ap (λ q. names_up n self ++ q) (sym top) ∙ names_up-climb n self in
    let plain = All-prefix (names_up n self) parent (subst (All IsPlain) (sym whole) h) in
    follow-reverse (names_up n self) [] parent plain ∙ whole
