-- ===== src/NodeTree/Growth.antt =====
-- Node.py: the tree stays a tree, and what was scanned stays.
use meguro.Base.{
  true_or, string_eq, nat_eq, ℕ, ◌+◌, ◌%◌, ◌≤◌, ◌<◌, String, List, ◌∷◌, Option, none, some, true,
  false, ◌==◌, ◌≡◌, refl, sym, ap, ◌∙◌, subst, mem, lookup, Bool-cases, inl, inr, arith, beq_refl,
}
use meguro.Base.Raise.{Result, ok, err}
use meguro.NodeTree.{Failure, Tree, M, Context, child, parent_of, scan_folder, rescan}
use meguro.NodeTree.Scan.{Shrunk, shrunk, scan_folder-Shrunk}

-- The root and every node made so far has an `id` below this.
abbrev pub bound : Tree → ℕ
bound t = t.id_nodes + 4

-- A child has the name that it is found by, and the folder as its parent; a parent is older than its childs.
pub data IsTree (t : Tree) : Type 0 where
  is_tree :
      t.id_nodes % 4 ≡ 0
      → ((n : ℕ) (s : String) (c : ℕ)
          → child n s t ≡ some c
          → (c < bound t) × ((lookup c t.names ≡ some s) × (parent_of c t ≡ some n)))
      → ((n p : ℕ) → parent_of n t ≡ some p → (p < n) × (n < bound t))
      → IsTree t

-- Nodes keep name and parent, and a scanned folder its childs.
pub data Kept (t t' : Tree) : Type 0 where
  kept :
      t.id_nodes ≤ t'.id_nodes
      → ((n : ℕ)
          → n < bound t
          → (lookup n t'.names ≡ lookup n t.names) × (parent_of n t' ≡ parent_of n t))
      → ((n : ℕ)
          → mem n t.cache_scanned_folders ≡ true
          → (mem n t'.cache_scanned_folders ≡ true)
            × ((s : String) (c : ℕ) → child n s t ≡ some c → child n s t' ≡ some c))
      → Kept t t'

pub kept_refl : (t : Tree) → Kept t t
kept_refl t = kept (omega arith) (λ n h. (refl, refl)) λ n h. (h, λ s c k. k)

pub kept_trans : (t t1 t2 : Tree) → Kept t t1 → Kept t1 t2 → Kept t t2
kept_trans t t1 t2 (kept a b c) (kept a' b' c') =
    kept (omega arith)
      (λ n h.
        let lt : n < bound t1 = omega arith in ((b' n lt).0 ∙ (b n h).0, (b' n lt).1 ∙ (b n h).1))
      λ n h. ((c' n (c n h).0).0, λ s x k. (c' n (c n h).0).1 s x ((c n h).1 s x k))

-- What a step promises: the tree stays one, nothing is lost, and `Q` holds of what it returns.
abbrev pub Step : {A : Type 0} → (A → Tree → Type 0) → Tree → Result Failure A × Tree → Type 0
Step Q t (ok a, t') = IsTree t' × (Kept t t' × Q a t')
Step Q t (err e, t') = IsTree t' × Kept t t'

pub further :
    {B : Type 0} (P : B → Tree → Type 0) (t t1 : Tree) (r : Result Failure B × Tree)
    → Kept t t1
    → Step P t1 r
    → Step P t r
further P t t1 (ok a, t2) k h = (h.0, (kept_trans t t1 t2 k h.1.0, h.1.1))
further P t t1 (err e, t2) k h = (h.0, kept_trans t t1 t2 k h.1)

pub and_then :
    {A : Type 0} {B : Type 0} (Q : A → Tree → Type 0) (P : B → Tree → Type 0) (f : A → M B)
    (t : Tree) (r : Result Failure A × Tree)
    → Step Q t r
    → ((a : A) (t1 : Tree) → IsTree t1 → Kept t t1 → Q a t1 → Step P t1 (f a t1))
    → Step P t
        (elim r.0 as (λ _. Result Failure B × Tree) [ ok a ↦ f a r.1 | err e ↦ (err e, r.1) ])
and_then Q P f t (ok a, t1) h k = further P t t1 (f a t1) h.1.0 (k a t1 h.0 h.1.0 h.1.1)
and_then Q P f t (err e, t1) h k = h

-- Of a scan, with the folder marked first.
Shrunk-IsTree : (n : ℕ) (t t' : Tree) → IsTree t → Shrunk n t t' → IsTree t'
Shrunk-IsTree n t t' (is_tree a b c) (shrunk i j k l m o) =
    is_tree (ap (λ x. x % 4) i ∙ a)
      (λ p s x h.
        let r = b p s x (m p s x h) in
        (subst (λ y. x < y + 4) (sym i) r.0, (ap (lookup x) j ∙ r.1.0, ap (lookup x) k ∙ r.1.1)))
      λ p q h.
        let r = c p q (ap (lookup p) (sym k) ∙ h) in (r.0, subst (λ y. p < y + 4) (sym i) r.1)

Shrunk-Kept :
    (n : ℕ) (t t' : Tree)
    → mem n t.cache_scanned_folders ≡ false
    → Shrunk n (record t { cache_scanned_folders = n ∷ t.cache_scanned_folders }) t'
    → Kept t t' × (mem n t'.cache_scanned_folders ≡ true)
unfolding child
Shrunk-Kept n t t' h (shrunk i j k l m o) = (
  kept (omega (arith, i)) (λ p lt. (ap (lookup p) j, ap (lookup p) k))
      (λ p e.
        let other : (n == p) ≡ false = not_scanned p e in
        (
          ap (mem p) l ∙ true_or (p == n) (mem p t.cache_scanned_folders) e,
          λ s x q.
              ap
                (λ (d : Option (List (String × ℕ))). elim d as (λ _. Option ℕ) [
                  | none ↦ none
                  | some y ↦ lookup s y
                ])
                (o p other)
              ∙ q,
        )),
  ap (mem n) l ∙ rw (beq_refl n) refl,
)
  where
    not_scanned : (p : ℕ) → mem p t.cache_scanned_folders ≡ true → (n == p) ≡ false
    not_scanned p e = elim (Bool-cases (n == p)) [
      | inl y ↦
          (let same : n ≡ p = (nat_eq.decides n p).0 y in
            let both : mem n t.cache_scanned_folders ≡ true =
              subst (λ q. mem q t.cache_scanned_folders ≡ true) (sym same) e in
            cc)
      | inr y ↦ y
    ]

unfoldable pub Scanned : ℕ → Unit {0} → Tree → Type 0
Scanned n u t = mem n t.cache_scanned_folders ≡ true

Shrunk-Step :
    (n : ℕ) (t : Tree) (r : Result Failure (Unit {0}) × Tree)
    → IsTree t
    → mem n t.cache_scanned_folders ≡ false
    → Shrunk n (record t { cache_scanned_folders = n ∷ t.cache_scanned_folders }) r.1
    → Step (Scanned n) t r
unfolding Scanned child
Shrunk-Step n t (ok u, t') (is_tree a b c) h k =
    let stays = Shrunk-Kept n t t' h k in
    (Shrunk-IsTree n _ t' (is_tree a b c) k, (stays.0, stays.1))
Shrunk-Step n t (err e, t') (is_tree a b c) h k =
    (Shrunk-IsTree n _ t' (is_tree a b c) k, (Shrunk-Kept n t t' h k).0)

module _ (ctx : Context) (n : ℕ) (t : Tree) where
  pub rescan_done : mem n t.cache_scanned_folders ≡ true → rescan ctx n t ≡ (ok tt, t)
  unfolding rescan
  rescan_done e = rw e refl

  rescan_new :
      mem n t.cache_scanned_folders ≡ false
      → rescan ctx n t
        ≡ scan_folder ctx n (record t { cache_scanned_folders = n ∷ t.cache_scanned_folders })
  unfolding rescan
  rescan_new e = rw e refl

  -- `rescan` marks the folder.
  pub rescan-Step : IsTree t → Step (Scanned n) t (rescan ctx n t)
  unfolding Scanned
  rescan-Step v = elim (Bool-cases (mem n t.cache_scanned_folders)) [
    | inl e ↦ subst (Step (Scanned n) t) (sym (rescan_done e)) (v, (kept_refl t, e))
    | inr e ↦
        subst (Step (Scanned n) t) (sym (rescan_new e))
          (Shrunk-Step n t _ v e (scan_folder-Shrunk ctx n _))
  ]

-- The signatures are no part of the tree.
module _ (t : Tree) (sigs : List (ℕ × String)) where
  pub child-sigs : (n : ℕ) (s : String) → child n s (record t { source_sigs = sigs }) ≡ child n s t
  unfolding child
  child-sigs n s = refl

  pub sigs-IsTree : IsTree t → IsTree (record t { source_sigs = sigs })
  sigs-IsTree (is_tree a b c) = is_tree a (λ n s x h. b n s x (sym (child-sigs n s) ∙ h)) c

  pub sigs-Kept : Kept t (record t { source_sigs = sigs })
  sigs-Kept = kept (omega arith) (λ n h. (refl, refl)) λ n h. (h, λ s x k. child-sigs n s ∙ k)

-- What a step that ended well left.
pub from_step :
    {A : Type 0} (Q : A → Tree → Type 0) (t t' : Tree) (a : A) (r : Result Failure A × Tree)
    → r ≡ (ok a, t')
    → Step Q t r
    → IsTree t' × (Kept t t' × Q a t')
from_step Q t t' a r e h = subst (Step Q t) e h
