-- ===== src/TaskGroup/Batch.antt =====
-- Task.py: what `tasks_in_parallel` gives out, and what it holds back.
use meguro.Base.{
  ℕ, String, ◌+◌, ◌≡◌, ◌≢◌, refl, List, [], ◌∷◌, ◌++◌, none, Bool, true, false, not, ◌&&◌, ◌==◌,
  nat_eq, nat_eqb_iff, if◌then◌else◌, arith, lookup, delete, lookup-delete, mem,
}
use meguro.TaskGroup.{
  Task, Groups, Orders, TaskGroup, ok, get_list, blocked, unconnected, collect, delete_all,
  all_tasks, tasks_in_parallel,
}

lookup-delete_all {ℓ} :
    {A : Type ℓ} (j : ℕ) (ys : List ℕ) (d : List (ℕ × A))
    → lookup j (delete_all ys d) ≡ (if mem j ys then none else lookup j d)
unfolding delete_all
lookup-delete_all j [] d = refl
lookup-delete_all j (y ∷ ys) d =
    ground (arith, lookup-delete_all j ys (delete y d), lookup-delete y j d)

-- A key that a value of the order holds is not among the free ones.
get_list-blocked :
    (a b : ℕ) (order : Orders) → mem b (get_list a order) ≡ true → blocked order b ≡ true
unfolding blocked lookup
get_list-blocked a b [] h = cc
get_list-blocked a b ((k, bs) ∷ order) h = ground (arith, get_list-blocked a b order)

mem-unconnected :
    (b : ℕ) (order : Orders) (gs : Groups)
    → blocked order b ≡ true
    → mem b (unconnected order gs) ≡ false
unfolding unconnected
mem-unconnected b order [] h = refl
mem-unconnected b order ((k, ts) ∷ gs) h =
    ground (arith, mem-unconnected b order gs h, nat_eqb_iff b k)

-- How often a task stands in a list.
abbrev pub times : ℕ → List Task → ℕ
times i [] = 0
times i (t ∷ ts) = (if t.ident == i then 1 else 0) + times i ts

times-append : (i : ℕ) (xs ys : List Task) → times i (xs ++ ys) ≡ times i xs + times i ys
times-append i [] ys = omega arith
times-append i (x ∷ xs) ys = omega (arith, times-append i xs ys)

abbrev pub keys {ℓ} : {A : Type ℓ} → List (ℕ × A) → List ℕ
keys [] = []
keys ((k, a) ∷ d) = k ∷ keys d

abbrev pub distinct : List ℕ → Bool
distinct [] = true
distinct (x ∷ xs) = not (mem x xs) && distinct xs

delete_absent : (y : ℕ) (gs : Groups) → mem y (keys gs) ≡ false → delete y gs ≡ gs
unfolding delete
delete_absent y [] h = refl
delete_absent y ((k, ts) ∷ gs) h = ground (arith, delete_absent y gs, nat_eqb_iff k y)

times-delete :
    (i y : ℕ) (gs : Groups)
    → distinct (keys gs) ≡ true
    → times i (get_list y gs) + times i (all_tasks (delete y gs)) ≡ times i (all_tasks gs)
unfolding lookup delete all_tasks
times-delete i y [] h = refl
times-delete i y ((k, ts) ∷ gs) h = ground (
  arith,
  times-delete i y gs,
  times-append i ts (all_tasks gs),
  times-append i ts (all_tasks (delete y gs)),
  delete_absent y gs,
  nat_eqb_iff k y,
)

collect-delete :
    (y : ℕ) (ys : List ℕ) (gs : Groups)
    → mem y ys ≡ false
    → collect (delete y gs) ys ≡ collect gs ys
unfolding collect
collect-delete y [] gs h = refl
collect-delete y (z ∷ ys) gs h =
    ground (arith, collect-delete y ys gs, lookup-delete y z gs, nat_eqb_iff y z)

keys-delete : (x y : ℕ) (gs : Groups) → mem x (keys gs) ≡ false → mem x (keys (delete y gs)) ≡ false
unfolding delete
keys-delete x y [] h = refl
keys-delete x y ((k, ts) ∷ gs) h = ground (arith, keys-delete x y gs)

distinct-delete :
    (y : ℕ) (gs : Groups) → distinct (keys gs) ≡ true → distinct (keys (delete y gs)) ≡ true
unfolding delete
distinct-delete y [] h = refl
distinct-delete y ((k, ts) ∷ gs) h = ground (arith, distinct-delete y gs, keys-delete k y gs)

times-delete_all :
    (i : ℕ) (ys : List ℕ) (gs : Groups)
    → distinct ys ≡ true
    → distinct (keys gs) ≡ true
    → times i (collect gs ys) + times i (all_tasks (delete_all ys gs)) ≡ times i (all_tasks gs)
unfolding collect delete_all
times-delete_all i [] gs hy hg = omega arith
times-delete_all i (y ∷ ys) gs hy hg = ground (
  arith,
  times-delete_all i ys (delete y gs),
  times-delete i y gs,
  distinct-delete y gs,
  collect-delete y ys gs,
  times-append i (get_list y gs) (collect gs ys),
)

mem-unconnected-keys :
    (x : ℕ) (order : Orders) (gs : Groups)
    → mem x (keys gs) ≡ false
    → mem x (unconnected order gs) ≡ false
unfolding unconnected
mem-unconnected-keys x order [] h = refl
mem-unconnected-keys x order ((k, ts) ∷ gs) h = ground (arith, mem-unconnected-keys x order gs)

distinct-unconnected :
    (order : Orders) (gs : Groups)
    → distinct (keys gs) ≡ true
    → distinct (unconnected order gs) ≡ true
unfolding unconnected
distinct-unconnected order [] h = refl
distinct-unconnected order ((k, ts) ∷ gs) h =
    ground (arith, distinct-unconnected order gs, mem-unconnected-keys k order gs)

module _ (hash : String × List String × List String × List String × List String × ℕ → ℕ) where
  -- Of a prepared group whose groups of tasks have keys that differ: a batch and the tasks still in the
  -- groups are the tasks that were in the groups, each as often.
  pub tasks_in_parallel-times :
      (g : TaskGroup) (i : ℕ) {batch : List Task} {g' : TaskGroup}
      → g.ready ≡ true
      → distinct (keys g.cstr_groups) ≡ true
      → tasks_in_parallel hash g ≡ ok (batch, g')
      → times i batch + times i (all_tasks g'.cstr_groups) ≡ times i (all_tasks g.cstr_groups)
  unfolding tasks_in_parallel
  tasks_in_parallel-times g i r d e =
      let free = unconnected g.cstr_order g.cstr_groups in
      ground (
        arith,
        times-delete_all i free g.cstr_groups,
        distinct-unconnected g.cstr_order g.cstr_groups,
      )

  -- Where the order puts group `a` before group `b`, the tasks of `b` stay in their group, and the
  -- order keeps saying so for as long as `a` is there.
  pub tasks_in_parallel-order :
      (g : TaskGroup) (a b : ℕ) {batch : List Task} {g' : TaskGroup}
      → g.ready ≡ true
      → tasks_in_parallel hash g ≡ ok (batch, g')
      → mem b (get_list a g.cstr_order) ≡ true
      → (lookup b g'.cstr_groups ≡ lookup b g.cstr_groups)
        × (lookup a g'.cstr_groups ≢ none → mem b (get_list a g'.cstr_order) ≡ true)
  unfolding tasks_in_parallel
  tasks_in_parallel-order g a b r e edge =
      let free = unconnected g.cstr_order g.cstr_groups in
      let held =
        mem-unconnected b g.cstr_order g.cstr_groups (get_list-blocked a b g.cstr_order edge) in
      (
        ground (arith, held, lookup-delete_all b free g.cstr_groups),
        λ ne. ground (
          arith,
          ne,
          lookup-delete_all a free g.cstr_groups,
          lookup-delete_all a free g.cstr_order,
        ),
      )
