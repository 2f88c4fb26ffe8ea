-- ===== src/FileDeps/Depending.antt =====
-- Task.py: what `extract_deps` orders.
use meguro.Base.{
  or_right, true_or, or_true, both_true, true_both, string_eq, nat_eq, ◌↔◌, ◌⊎◌, ℕ, String, List,
  [], ◌∷◌, Option, none, some, Bool, true, false, ◌&&◌, ◌||◌, if◌then◌else◌, ◌==◌, ◌≡◌, refl, sym,
  ap, ◌∙◌, subst, foldl, lookup, insert, lookup-insert, mem, beq_refl, Bool-cases, inl, inr, arith,
}
use meguro.FileDeps.{
  FileTask, add_at, keys, tasks_at, place_eq, places, put_all, out_to_task, last_variant,
  dep_to_task, behind, link_deps, extract_outputs, extract_deps,
}
use meguro.FileDeps.Linked.{mem-add_all, mem-tasks_at, orders, orders-append, some_of, some_of_iff}

-- The task with the identity `a` has the node `k` among those of `node_deps`.
pub depends : ℕ → ℕ → List FileTask → Bool
depends k a [] = false
depends k a (x ∷ tasks) = (mem k x.deps && a == x.ident) || depends k a tasks

-- The last task of the variant that has the node among its outputs.
pub last_maker : String → ℕ → List FileTask → Option ℕ
last_maker w k [] = none
last_maker w k (x ∷ tasks) = elim (last_maker w k tasks) [
  | some b ↦ some b
  | none ↦ if w == x.variant && mem k x.outputs then some x.ident else none
]

mem-places : (w v : String) (k : ℕ) (l : List ℕ) → mem (w, k) (places v l) ≡ (w == v && mem k l)
mem-places w v k [] = ground arith
mem-places w v k (j ∷ l) = ground (arith, mem-places w v k l)

mem-dep_to_task :
    (w v : String) (k a : ℕ) (tasks : List FileTask) (d : List ((String × ℕ) × List ℕ))
    → mem a (tasks_at (w, k) (dep_to_task v d tasks))
      ≡ (mem a (tasks_at (w, k) d) || (w == v && depends k a tasks))
unfolding dep_to_task depends
mem-dep_to_task w v k a [] d = ground arith
mem-dep_to_task w v k a (x ∷ tasks) d =
    mem-dep_to_task w v k a tasks (foldl (add_at x.ident) d (places v x.deps))
    ∙ shift _ _ _ _ (mem-add_all a x.ident (w, k) (places v x.deps) d) (mem-places w v k x.deps)
  where
    shift :
        (m n p t : Bool)
        → m ≡ (n || (p && a == x.ident))
        → p ≡ (w == v && mem k x.deps)
        → (m || (w == v && t)) ≡ (n || (w == v && ((mem k x.deps && a == x.ident) || t)))
    shift m n p t e f = ground (arith, e, f)

lookup-put_all :
    (p : String × ℕ) (x : ℕ) (l : List (String × ℕ)) (d : List ((String × ℕ) × ℕ))
    → lookup p (put_all x d l) ≡ (if mem p l then some x else lookup p d)
unfolding put_all
lookup-put_all p x [] d = refl
lookup-put_all p x (q ∷ l) d =
    lookup-put_all p x l (insert q x d)
    ∙ ground (arith, lookup-insert q p x d, place_eq.decides p q, place_eq.decides q p)

lookup-out_to_task :
    (w : String) (k : ℕ) (tasks : List FileTask) (d : List ((String × ℕ) × ℕ))
    → lookup (w, k) (out_to_task d tasks) ≡ (elim (last_maker w k tasks) as (λ _. Option ℕ) [
      | some b ↦ some b
      | none ↦ lookup (w, k) d
    ])
unfolding out_to_task last_maker
lookup-out_to_task w k [] d = refl
lookup-out_to_task w k (x ∷ tasks) d =
    lookup-out_to_task w k tasks (put_all x.ident d (places x.variant x.outputs))
    ∙ merge (last_maker w k tasks) _ _
        (lookup-put_all (w, k) x.ident (places x.variant x.outputs) d)
        (mem-places w x.variant k x.outputs)
  where
    merge :
        (o m : Option ℕ) (c : Bool)
        → m ≡ (if c then some x.ident else lookup (w, k) d)
        → c ≡ (w == x.variant && mem k x.outputs)
        → (elim o as (λ _. Option ℕ) [ some b ↦ some b | none ↦ m ])
          ≡ (elim (elim o as (λ _. Option ℕ) [
            | some b ↦ some b
            | none ↦ if w == x.variant && mem k x.outputs then some x.ident else none
          ])
              as (λ _. Option ℕ) [ some b ↦ some b | none ↦ lookup (w, k) d ])
    merge (some b) m c e f = refl
    merge none m c e f = e ∙ pick c (w == x.variant && mem k x.outputs) f
      where
        pick :
            (c e : Bool)
            → c ≡ e
            → (if c then some x.ident else lookup (w, k) d)
              ≡ (elim (if e then some x.ident else none) as (λ _. Option ℕ) [
                | some b ↦ some b
                | none ↦ lookup (w, k) d
              ])
        pick true true h = refl
        pick false false h = refl
        pick true false h = cc
        pick false true h = cc

-- Whether an entry is the task.
abbrev is_task : ℕ → Option ℕ → Bool
is_task b none = false
is_task b (some x) = b == x

orders-behind :
    (a b : ℕ) (l : List ℕ) (o : Option ℕ) → orders a b (behind l o) ≡ (mem a l && is_task b o)
unfolding orders
orders-behind a b l none = ground arith
orders-behind a b [] (some x) = refl
orders-behind a b (y ∷ l) (some x) =
    ap (λ c. (a == y && b == x) || c) (orders-behind a b l (some x))
    ∙ share (a == y) (b == x) (mem a l)
  where
    share : (c d e : Bool) → ((c && d) || (e && d)) ≡ ((c || e) && d)
    share true true e = refl
    share true false true = refl
    share true false false = refl
    share false d e = refl

orders-link_deps :
    (a b : ℕ) (deps : List ((String × ℕ) × List ℕ)) (outs : List ((String × ℕ) × ℕ))
    (l : List (String × ℕ))
    → orders a b (link_deps deps outs l)
      ≡ some_of (λ p. mem a (tasks_at p deps) && is_task b (lookup p outs)) l
unfolding link_deps orders some_of
orders-link_deps a b deps outs [] = refl
orders-link_deps a b deps outs (p ∷ l) =
    orders-append a b (behind (tasks_at p deps) (lookup p outs)) (link_deps deps outs l)
    ∙ join _ _ _ _ (orders-behind a b (tasks_at p deps) (lookup p outs))
        (orders-link_deps a b deps outs l)
  where
    join : (m n c d : Bool) → m ≡ c → n ≡ d → (m || n) ≡ (c || d)
    join m n c d e f = ground (arith, e, f)

-- `extract_deps` orders what `extract_outputs` orders, and a task behind the last one of the list that has a dependency of the former
-- among its outputs and is of the variant of the last task of the whole list, whatever the variant of the former is.
pub extract_deps_iff :
    (a b : ℕ) (tasks : List FileTask)
    → (orders a b (extract_deps tasks) ≡ true) ↔ (
        (orders a b (extract_outputs tasks) ≡ true)
        ⊎ ((k : ℕ) × ((depends k a tasks ≡ true)
              × (last_maker (last_variant "" tasks) k tasks ≡ some b))))
unfolding extract_deps lookup
extract_deps_iff a b tasks = (
  λ h. elim (Bool-cases (orders a b (extract_outputs tasks))) [
    | inl e ↦ inl e
    | inr e ↦
        (let later = or_right _ _ (sym (orders-append a b (extract_outputs tasks) calls) ∙ h) e in
          let at =
            (some_of_iff test (keys deps)).0
              (sym (orders-link_deps a b deps outs (keys deps)) ∙ later) in
          inr (found at.0 (both_true _ _ at.1.1)))
  ],
  λ h. orders-append a b (extract_outputs tasks) calls ∙ elim h [
    | inl e ↦ or_true _ _ e
    | inr e ↦
        (let m : mem a (tasks_at (v, e.0) deps) ≡ true =
            mem-dep_to_task v v e.0 a tasks []
            ∙ true_both (v == v) (depends e.0 a tasks) (beq_refl v) e.1.0 in
          let o : lookup (v, e.0) outs ≡ some b =
            lookup-out_to_task v e.0 tasks [] ∙ ap kept e.1.1 in
          true_or _ _ (
            orders-link_deps a b deps outs (keys deps)
            ∙ (some_of_iff test (keys deps)).1 (
              (v, e.0),
              (mem-tasks_at a (v, e.0) deps m, true_both _ _ m (ap (is_task b) o ∙ beq_refl b)),
            )))
  ],
)
  where
    v : String
    v = last_variant "" tasks

    deps : List ((String × ℕ) × List ℕ)
    deps = dep_to_task v [] tasks

    outs : List ((String × ℕ) × ℕ)
    outs = out_to_task [] tasks

    calls : List (ℕ × ℕ)
    calls = link_deps deps outs (keys deps)

    test : String × ℕ → Bool
    test p = mem a (tasks_at p deps) && is_task b (lookup p outs)

    kept : Option ℕ → Option ℕ
    kept o = elim o [ some x ↦ some x | none ↦ none ]

    is_it : (o : Option ℕ) → is_task b o ≡ true → o ≡ some b
    is_it none h = cc
    is_it (some x) h = ap some (sym ((nat_eq.decides b x).0 h))

    same : (o : Option ℕ) → kept o ≡ o
    same none = refl
    same (some x) = refl

    found :
        (p : String × ℕ)
        → (mem a (tasks_at p deps) ≡ true) × (is_task b (lookup p outs) ≡ true)
        → (k : ℕ) × ((depends k a tasks ≡ true) × (last_maker v k tasks ≡ some b))
    found (w, k) h =
        let both =
          both_true (w == v) (depends k a tasks) (sym (mem-dep_to_task w v k a tasks []) ∙ h.0) in
        let here : w ≡ v = (string_eq.decides w v).0 both.0 in
        let made : last_maker w k tasks ≡ some b =
          sym (same (last_maker w k tasks))
          ∙ sym (lookup-out_to_task w k tasks [])
          ∙ is_it (lookup (w, k) outs) h.1 in
        (k, (both.1, subst (λ u. last_maker u k tasks ≡ some b) here made))
