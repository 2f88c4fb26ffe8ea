-- ===== src/FileDeps/Linked.antt =====
-- Task.py: what `extract_outputs` orders.
use meguro.Base.{
  or_right, true_or, or_true, both_true, true_both, string_eq, nat_eq, ◌↔◌, ℕ, String, List, [],
  ◌∷◌, ◌++◌, Option, none, some, Bool, true, false, ◌&&◌, ◌||◌, if◌then◌else◌, ◌==◌, ◌≡◌, refl, sym,
  ap, ◌∙◌, subst, foldl, lookup, insert, lookup-insert, mem, mem-append, Key, beq_refl, Bool-cases,
  inl, inr, arith,
}
use meguro.FileDeps.{
  FileTask, Index, add_at, Indexes, indexes_of, note_task, keys, after_each, after_all, tasks_at,
  link, link_all, extract_outputs,
}

module _ {K : Type 0} ⦃key : Key K⦄ where
  tasks_at-insert :
      (j k : K) (l : List ℕ) (d : List (K × List ℕ))
      → tasks_at j (insert k l d) ≡ (if k == j then l else tasks_at j d)
  tasks_at-insert j k l d = ground (arith, lookup-insert k j l d)

  mem-add_at :
      (a x : ℕ) (k j : K) (d : List (K × List ℕ))
      → mem a (tasks_at j (add_at x d k)) ≡ (mem a (tasks_at j d) || (j == k && a == x))
  unfolding add_at
  mem-add_at a x k j d = from (lookup k d) refl
    where
      from :
          (o : Option (List ℕ))
          → lookup k d ≡ o
          → mem a (
              tasks_at j (elim o as (λ _. List (K × List ℕ)) [
                | none ↦ insert k (x ∷ []) d
                | some l ↦ insert k (l ++ x ∷ []) d
              ]))
            ≡ (mem a (tasks_at j d) || (j == k && a == x))
      from none e =
          ap (mem a) (tasks_at-insert j k (x ∷ []) d)
          ∙ ground (arith, e, key.decides k j, key.decides j k)
      from (some l) e =
          ap (mem a) (tasks_at-insert j k (l ++ x ∷ []) d)
          ∙ ground (arith, e, mem-append a l (x ∷ []), key.decides k j, key.decides j k)

  pub mem-add_all :
      (a x : ℕ) (j : K) (ks : List K) (d : List (K × List ℕ))
      → mem a (tasks_at j (foldl (add_at x) d ks)) ≡ (mem a (tasks_at j d) || (mem j ks && a == x))
  mem-add_all a x j [] d = ground arith
  mem-add_all a x j (k ∷ ks) d =
      mem-add_all a x j ks (add_at x d k) ∙ spread _ _ (mem-add_at a x k j d)
    where
      spread :
          (m n : Bool)
          → m ≡ (n || (j == k && a == x))
          → (m || (mem j ks && a == x)) ≡ (n || ((j == k || mem j ks) && a == x))
      spread m n e = ground (arith, e)

indexes_of-insert :
    (w u : String) (p : Index × Index) (v : Indexes)
    → indexes_of w (insert u p v) ≡ (if u == w then p else indexes_of w v)
indexes_of-insert w u p v = ground (arith, lookup-insert u w p v)

-- Some task of the variant `w` and the identity `a` has the node `k` among its inputs, or its outputs.
pub takes : (FileTask → List ℕ) → String → ℕ → ℕ → List FileTask → Bool
takes nodes w k a [] = false
takes nodes w k a (x ∷ tasks) =
    (x.variant == w && (mem k (nodes x) && a == x.ident)) || takes nodes w k a tasks

-- The entry of a task's variant, and another.
in_variant :
    (c : Bool) (a k i : ℕ) (ks : List ℕ) (d e : Index)
    → (c ≡ true → d ≡ e)
    → mem a (tasks_at k (if c then foldl (add_at i) e ks else d))
      ≡ (mem a (tasks_at k d) || (c && (mem k ks && a == i)))
in_variant true a k i ks d e h =
    mem-add_all a i k ks e ∙ ap (λ f. mem a (tasks_at k f) || (mem k ks && a == i)) (sym (h refl))
in_variant false a k i ks d e h = ground arith

module _ (w : String) (k a : ℕ) where
  mem-note_task :
      (v : Indexes) (x : FileTask)
      → (mem a (tasks_at k (indexes_of w (note_task v x)).0) ≡ (
          mem a (tasks_at k (indexes_of w v).0)
          || (x.variant == w && (mem k x.inputs && a == x.ident))))
        × (mem a (tasks_at k (indexes_of w (note_task v x)).1) ≡ (
            mem a (tasks_at k (indexes_of w v).1)
            || (x.variant == w && (mem k x.outputs && a == x.ident))))
  unfolding note_task
  mem-note_task v x =
      let old = indexes_of x.variant v in
      let new : Index × Index =
        (foldl (add_at x.ident) old.0 x.inputs, foldl (add_at x.ident) old.1 x.outputs) in
      let at = indexes_of-insert w x.variant new v in
      let same : x.variant == w ≡ true → indexes_of w v ≡ old =
        λ e. ap (λ u. indexes_of u v) (sym ((string_eq.decides x.variant w).0 e)) in
      (
        ap (λ (p : Index × Index). mem a (tasks_at k p.0)) at
            ∙ ap (λ d. mem a (tasks_at k d)) (first (x.variant == w) new (indexes_of w v))
            ∙ in_variant (x.variant == w) a k x.ident x.inputs (indexes_of w v).0 old.0
                (λ e. ap (λ (p : Index × Index). p.0) (same e)),
        ap (λ (p : Index × Index). mem a (tasks_at k p.1)) at
            ∙ ap (λ d. mem a (tasks_at k d)) (second (x.variant == w) new (indexes_of w v))
            ∙ in_variant (x.variant == w) a k x.ident x.outputs (indexes_of w v).1 old.1
                (λ e. ap (λ (p : Index × Index). p.1) (same e)),
      )
    where
      first : (c : Bool) (p q : Index × Index) → (if c then p else q).0 ≡ (if c then p.0 else q.0)
      first true p q = refl
      first false p q = refl

      second : (c : Bool) (p q : Index × Index) → (if c then p else q).1 ≡ (if c then p.1 else q.1)
      second true p q = refl
      second false p q = refl

  mem-index :
      (tasks : List FileTask) (v : Indexes)
      → (mem a (tasks_at k (indexes_of w (foldl note_task v tasks)).0)
          ≡ (mem a (tasks_at k (indexes_of w v).0) || takes (λ x. x.inputs) w k a tasks))
        × (mem a (tasks_at k (indexes_of w (foldl note_task v tasks)).1)
            ≡ (mem a (tasks_at k (indexes_of w v).1) || takes (λ x. x.outputs) w k a tasks))
  unfolding takes
  mem-index [] v = (ground arith, ground arith)
  mem-index (x ∷ tasks) v =
      let ih = mem-index tasks (note_task v x) in
      let here = mem-note_task v x in (ih.0 ∙ shift _ _ _ _ here.0, ih.1 ∙ shift _ _ _ _ here.1)
    where
      shift : (m n c t : Bool) → m ≡ (n || c) → (m || t) ≡ (n || (c || t))
      shift m n c t e = ground (arith, e)

-- Whether `a.set_run_after(b)` is among the calls.
unfoldable pub orders : ℕ → ℕ → List (ℕ × ℕ) → Bool
orders a b [] = false
orders a b ((x, y) ∷ l) = (a == x && b == y) || orders a b l

pub orders-append :
    (a b : ℕ) (l m : List (ℕ × ℕ)) → orders a b (l ++ m) ≡ (orders a b l || orders a b m)
unfolding orders
orders-append a b [] m = refl
orders-append a b ((x, y) ∷ l) m = ground (arith, orders-append a b l m)

orders-after_each : (a b x : ℕ) (m : List ℕ) → orders a b (after_each x m) ≡ (a == x && mem b m)
unfolding orders after_each
orders-after_each a b x [] = ground arith
orders-after_each a b x (y ∷ m) = ground (arith, orders-after_each a b x m)

orders-after_all : (a b : ℕ) (l m : List ℕ) → orders a b (after_all l m) ≡ (mem a l && mem b m)
unfolding orders after_all
orders-after_all a b [] m = refl
orders-after_all a b (x ∷ l) m =
    orders-append a b (after_each x m) (after_all l m)
    ∙ ground (arith, orders-after_each a b x m, orders-after_all a b l m)

-- Some entry of a list passes a test.
unfoldable pub some_of : {K : Type 0} → (K → Bool) → List K → Bool
some_of P [] = false
some_of P (k ∷ l) = P k || some_of P l

pub some_of_iff :
    {K : Type 0} ⦃key : Key K⦄ (P : K → Bool) (l : List K)
    → (some_of P l ≡ true) ↔ ((k : K) × ((mem k l ≡ true) × (P k ≡ true)))
unfolding some_of
some_of_iff {K} ⦃key⦄ P l = (to l, λ h. from l h.0 h.1.0 h.1.1)
  where
    to : (l : List K) → some_of P l ≡ true → (k : K) × ((mem k l ≡ true) × (P k ≡ true))
    to [] h = cc
    to (k ∷ l) h = elim (Bool-cases (P k)) [
      | inl e ↦ (k, (or_true (k == k) (mem k l) (beq_refl k), e))
      | inr e ↦
          (let rest = to l (or_right (P k) (some_of P l) h e) in
            (rest.0, (true_or (rest.0 == k) (mem rest.0 l) rest.1.0, rest.1.1)))
    ]

    from : (l : List K) (k : K) → mem k l ≡ true → P k ≡ true → some_of P l ≡ true
    from [] k h e = cc
    from (j ∷ l) k h e = elim (Bool-cases (k == j)) [
      | inl s ↦ or_true (P j) (some_of P l) (subst (λ i. P i ≡ true) ((key.decides k j).0 s) e)
      | inr s ↦ true_or (P j) (some_of P l) (from l k (or_right (k == j) (mem k l) h s) e)
    ]

mem-keys :
    {K : Type 0} {V : Type 0} ⦃key : Key K⦄ (k : K) (v : V) (d : List (K × V))
    → lookup k d ≡ some v
    → mem k (keys d) ≡ true
unfolding keys lookup
mem-keys ⦃key⦄ k v [] h = cc
mem-keys ⦃key⦄ k v ((j, u) ∷ d) h = elim (Bool-cases (j == k)) [
  | inl s ↦ or_true (k == j) (mem k (keys d)) ((key.decides k j).1 (sym ((key.decides j k).0 s)))
  | inr s ↦ true_or (k == j) (mem k (keys d)) (mem-keys k v d (sym (rw s refl) ∙ h))
]

orders-link :
    (a b : ℕ) (ins outs : Index) (l : List ℕ)
    → orders a b (link ins outs l)
      ≡ some_of (λ k. mem a (tasks_at k ins) && mem b (tasks_at k outs)) l
unfolding link orders some_of
orders-link a b ins outs [] = refl
orders-link a b ins outs (k ∷ l) =
    orders-append a b (after_all (tasks_at k ins) (tasks_at k outs)) (link ins outs l)
    ∙ ground
        (arith, orders-after_all a b (tasks_at k ins) (tasks_at k outs), orders-link a b ins outs l)

orders-link_all :
    (a b : ℕ) (v : Indexes) (l : List String)
    → orders a b (link_all v l)
      ≡ some_of
          (λ w. orders a b (link (indexes_of w v).0 (indexes_of w v).1 (keys (indexes_of w v).0)))
          l
unfolding link_all orders some_of
orders-link_all a b v [] = refl
orders-link_all a b v (w ∷ l) =
    orders-append a b (link (indexes_of w v).0 (indexes_of w v).1 (keys (indexes_of w v).0))
      (link_all v l)
    ∙ ap
        (λ c.
          orders a b (link (indexes_of w v).0 (indexes_of w v).1 (keys (indexes_of w v).0)) || c)
        (orders-link_all a b v l)

-- A task has an entry for its node.
pub mem-tasks_at :
    {K : Type 0} ⦃key : Key K⦄
    → (a : ℕ) (k : K) (d : List (K × List ℕ)) → mem a (tasks_at k d) ≡ true
    → mem k (keys d) ≡ true
mem-tasks_at a k d h = from (lookup k d) refl h
  where
    from :
        (o : Option (List ℕ))
        → lookup k d ≡ o
        → mem a (elim o as (λ _. List ℕ) [ none ↦ [] | some l ↦ l ]) ≡ true
        → mem k (keys d) ≡ true
    from none e m = cc
    from (some l) e m = mem-keys k l d e

mem-indexes_of :
    (a k : ℕ) (w : String) (v : Indexes)
    → mem a (tasks_at k (indexes_of w v).0) ≡ true
    → mem w (keys v) ≡ true
unfolding lookup
mem-indexes_of a k w v h = from (lookup w v) refl h
  where
    from :
        (o : Option (Index × Index))
        → lookup w v ≡ o
        → mem a (tasks_at k (elim o as (λ _. Index × Index) [ none ↦ ([], []) | some p ↦ p ]).0)
          ≡ true
        → mem w (keys v) ≡ true
    from none e m = cc
    from (some p) e m = mem-keys w p v e

-- One task is ordered behind another exactly if, in some variant, a node is an input of the one and an output of the other.
pub extract_outputs_iff :
    (a b : ℕ) (tasks : List FileTask)
    → (orders a b (extract_outputs tasks) ≡ true) ↔ (
        (w : String) × ((k : ℕ) × ((takes (λ x. x.inputs) w k a tasks ≡ true)
            × (takes (λ x. x.outputs) w k b tasks ≡ true))))
unfolding extract_outputs lookup
extract_outputs_iff a b tasks = (
  λ h.
      let at_w = (some_of_iff test (keys v)).0 (sym (orders-link_all a b v (keys v)) ∙ h) in
      let w = at_w.0 in
      let at_k = (some_of_iff (pass w) (keys (indexes_of w v).0)).0 (
        sym (orders-link a b (indexes_of w v).0 (indexes_of w v).1 (keys (indexes_of w v).0))
        ∙ at_w.1.1) in
      let k = at_k.0 in
      let index = mem-index w k a tasks [] in
      let both = both_true _ _ at_k.1.1 in
      (
        w,
        (k, (sym (mem-index w k a tasks []).0 ∙ both.0, sym (mem-index w k b tasks []).1 ∙ both.1)),
      ),
  λ h.
      let w = h.0 in
      let k = h.1.0 in
      let ma : mem a (tasks_at k (indexes_of w v).0) ≡ true =
        (mem-index w k a tasks []).0 ∙ h.1.1.0 in
      let mb : mem b (tasks_at k (indexes_of w v).1) ≡ true =
        (mem-index w k b tasks []).1 ∙ h.1.1.1 in
      let at_k : test w ≡ true =
        orders-link a b (indexes_of w v).0 (indexes_of w v).1 (keys (indexes_of w v).0)
        ∙ (some_of_iff (pass w) (keys (indexes_of w v).0)).1
            (k, (mem-tasks_at a k (indexes_of w v).0 ma, true_both _ _ ma mb)) in
      orders-link_all a b v (keys v)
      ∙ (some_of_iff test (keys v)).1 (w, (mem-indexes_of a k w v ma, at_k)),
)
  where
    v : Indexes
    v = foldl note_task [] tasks

    pass : String → ℕ → Bool
    pass w k = mem a (tasks_at k (indexes_of w v).0) && mem b (tasks_at k (indexes_of w v).1)

    test : String → Bool
    test w = orders a b (link (indexes_of w v).0 (indexes_of w v).1 (keys (indexes_of w v).0))
