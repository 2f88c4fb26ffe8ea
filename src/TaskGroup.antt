-- ===== src/TaskGroup.antt =====
-- tools/wafadmin/Task.py: the class TaskGroup, which gives out the tasks of a group in batches, and
-- the class TaskManager, which goes through the groups in order.
pub mod Batch
pub mod Progress
pub mod Tests
use Prim.Native.Nat.{min}
use meguro.Base.{
  ℕ, suc, ◌+◌, ◌<◌, String, List, [], ◌∷◌, ◌++◌, map, Option, none, some, Bool, true, false, not,
  ◌||◌, ◌&&◌, ◌==◌, nat_eq, string_eq, if◌then◌else◌, ltb, lookup, insert, delete, mem, length,
}

-- What the scheduler reads of a task, the attributes of its class included.
pub record Task : Type 0 where
  pub ident : ℕ
  pub class_name : String
  pub before : List String
  pub after : List String
  pub ext_in : List String
  pub ext_out : List String
  pub maxjobs : ℕ
  pub run_after : List ℕ

abbrev pub max_jobs : ℕ
max_jobs = 99999999

abbrev pub Groups : Type 0
Groups = List (ℕ × List Task)

abbrev pub Orders : Type 0
Orders = List (ℕ × List ℕ)

pub record TaskGroup : Type 0 where
  pub tasks : List Task
  pub cstr_groups : Groups
  pub cstr_order : Orders
  pub temp_tasks : List Task
  pub ready : Bool
  pub done : Bool

-- A raised WafError about a circular constraint, or a value.
pub data Outcome {ℓ} (A : Type ℓ) : Type ℓ where
  ok : A → Outcome A
  circular : List ℕ → Outcome A

abbrev pub get_list {ℓ} : {A : Type ℓ} → ℕ → List (ℕ × List A) → List A
get_list k d = elim (lookup k d) [ some xs ↦ xs | none ↦ [] ]

-- Three-way comparison: -1, 0, 1.
pub data Cmp : Type 0 where
  minus equal plus : Cmp

unfoldable pub meet : List String → List String → Bool
meet [] ys = false
meet (x ∷ xs) ys = mem x ys || meet xs ys

unfoldable pub compare_exts : Task → Task → Cmp
unfolding meet
compare_exts t1 t2 =
    if meet t1.ext_in t2.ext_out then minus else if meet t2.ext_in t1.ext_out then plus else equal

unfoldable pub compare_partial : Task → Task → Cmp
compare_partial t1 t2 =
    if mem t2.class_name t1.after
    then minus
    else if mem t2.class_name t1.before
    then plus
    else if mem t1.class_name t2.after
    then plus
    else if mem t1.class_name t2.before
    then minus
    else equal

-- `compare_exts(t1, t2) or compare_partial(t1, t2)`
unfoldable pub compare_tasks : Task → Task → Cmp
unfolding compare_exts compare_partial
compare_tasks t1 t2 = elim (compare_exts t1 t2) [
  | equal ↦ compare_partial t1 t2
  | minus ↦ minus
  | plus ↦ plus
]

-- `self.cstr_order[a].add(b)`
unfoldable pub set_order : ℕ → ℕ → Orders → Orders
set_order a b order =
    let old = get_list a order in insert a (if mem b old then old else b ∷ old) order

-- The constraint between two groups, by the first task of each.
unfoldable pub constrain : (ℕ × List Task) → (ℕ × List Task) → Orders → Orders
unfolding compare_tasks set_order
constrain (i, []) g order = order
constrain (i, t1 ∷ _) (j, []) order = order
constrain (i, t1 ∷ _) (j, t2 ∷ _) order = elim (compare_tasks t1 t2) [
  | plus ↦ set_order i j order
  | minus ↦ set_order j i order
  | equal ↦ order
]

-- The inner loop, over the groups behind `g`.
unfoldable pub constrain_all : (ℕ × List Task) → Groups → Orders → Orders
unfolding constrain
constrain_all g [] order = order
constrain_all g (h ∷ hs) order = constrain_all g hs (constrain g h order)

unfoldable pub extract_constraints : Groups → Orders → Orders
unfolding constrain_all
extract_constraints [] order = order
extract_constraints (g ∷ gs) order = extract_constraints gs (constrain_all g gs order)

-- `u` is in a value of `cstr_order`.
unfoldable pub blocked : Orders → ℕ → Bool
blocked [] u = false
blocked ((a, bs) ∷ order) u = mem u bs || blocked order u

unfoldable pub unconnected : Orders → Groups → List ℕ
unfolding blocked
unconnected order [] = []
unconnected order ((k, ts) ∷ gs) =
    let rest = unconnected order gs in if blocked order k then rest else k ∷ rest

unfoldable pub remainder : Orders → Groups → List ℕ
unfolding blocked
remainder order [] = []
remainder order ((k, ts) ∷ gs) =
    let rest = remainder order gs in if blocked order k then k ∷ rest else rest

unfoldable pub collect : Groups → List ℕ → List Task
collect gs [] = []
collect gs (y ∷ ys) = get_list y gs ++ collect gs ys

unfoldable pub delete_all {ℓ} : {A : Type ℓ} → List ℕ → List (ℕ × A) → List (ℕ × A)
delete_all [] d = d
delete_all (y ∷ ys) d = delete_all ys (delete y d)

abbrev pub is_nil {ℓ} : {A : Type ℓ} → List A → Bool
is_nil [] = true
is_nil (_ ∷ _) = false

-- One turn of the loop of `tasks_by_max_jobs`, over `(maxjobs, ret, remaining)`.
abbrev pub Selection : Type 0
Selection = ℕ × List Task × List Task

unfoldable pub select_task : Selection → Task → Selection
select_task (maxjobs, ret, remaining) t =
    if ltb maxjobs t.maxjobs
    then (maxjobs, ret, remaining ++ t ∷ [])
    else if ltb t.maxjobs maxjobs
    then (t.maxjobs, t ∷ [], remaining ++ ret)
    else (maxjobs, ret ++ t ∷ [], remaining)

unfoldable pub select_tasks : Selection → List Task → Selection
unfolding select_task
select_tasks s [] = s
select_tasks s (t ∷ ts) = select_tasks (select_task s t) ts

-- `n.set_run_after(m)`; tasks are shared, so each occurrence of `n` shows the change.
unfoldable pub set_run_after : ℕ → ℕ → List Task → List Task
set_run_after n m [] = []
set_run_after n m (t ∷ ts) =
    (if t.ident == n then record t { run_after = t.run_after ++ m ∷ [] } else t)
    ∷ set_run_after n m ts

-- `for m in groups[p]: for n in groups[v]: n.set_run_after(m)`
unfoldable pub order_one : Task → List Task → List Task → List Task
unfolding set_run_after
order_one m [] all = all
order_one m (n ∷ ns) all = order_one m ns (set_run_after n.ident m.ident all)

unfoldable pub order_groups : List Task → List Task → List Task → List Task
unfolding order_one
order_groups [] ns all = all
order_groups (m ∷ ms) ns all = order_groups ms ns (order_one m ns all)

unfoldable pub order_from : Groups → ℕ → List ℕ → List Task → List Task
unfolding order_groups
order_from gs p [] all = all
order_from gs p (v ∷ vs) all = order_from gs p vs (order_groups (get_list p gs) (get_list v gs) all)

unfoldable pub order_all : Groups → Orders → List Task → List Task
unfolding order_from
order_all gs [] all = all
order_all gs ((p, vs) ∷ order) all = order_all gs order (order_from gs p vs all)

pub data Algorithm : Type 0 where
  normal jobcontrol maxparallel : Algorithm

-- What a group gives out: the number of jobs and the tasks; `none` is the empty tuple.
abbrev pub Batch : Type 0
Batch = Option (ℕ × List Task)

abbrev pub as_batch : ℕ → List Task → Batch
as_batch maxjobs [] = none
as_batch maxjobs (t ∷ ts) = some (maxjobs, t ∷ ts)

-- `reset`
unfoldable pub all_tasks : Groups → List Task
all_tasks [] = []
all_tasks ((k, ts) ∷ gs) = ts ++ all_tasks gs

unfoldable pub reset : TaskGroup → TaskGroup
unfolding all_tasks
reset g = record {
  tasks = g.temp_tasks ++ (g.tasks ++ all_tasks g.cstr_groups);
  cstr_groups = [];
  cstr_order = [];
  temp_tasks = [];
  ready = false;
  done = g.done;
}

abbrev pub new_group : TaskGroup
new_group = record {
  tasks = [];
  cstr_groups = [];
  cstr_order = [];
  temp_tasks = [];
  ready = false;
  done = false;
}

-- `hash_constraints`: Python's `hash` of the fields that it reads.
module _ (hash : String × List String × List String × List String × List String × ℕ → ℕ) where
  unfoldable pub hash_constraints : Task → ℕ
  hash_constraints t = hash (t.class_name, t.before, t.after, t.ext_in, t.ext_out, t.maxjobs)

  -- The loop of `make_cstr_groups`.
  unfoldable pub group_tasks : List Task → Groups → Groups
  unfolding hash_constraints
  group_tasks [] gs = gs
  group_tasks (x ∷ xs) gs =
      let h = hash_constraints x in group_tasks xs (insert h (get_list h gs ++ x ∷ []) gs)

  unfoldable pub make_cstr_groups : TaskGroup → TaskGroup
  unfolding group_tasks
  make_cstr_groups g = record g { cstr_groups = group_tasks g.tasks [] }

  -- `prepare`; the hook `file_deps` does nothing by default.
  unfoldable pub prepare : TaskGroup → TaskGroup
  unfolding make_cstr_groups extract_constraints
  prepare g =
      let g' = make_cstr_groups (record g { ready = true }) in
      record g' { cstr_order = extract_constraints g'.cstr_groups g'.cstr_order }

  unfoldable pub prepared : TaskGroup → TaskGroup
  unfolding prepare
  prepared g = if g.ready then g else prepare g

  unfoldable pub tasks_in_parallel : TaskGroup → Outcome (List Task × TaskGroup)
  unfolding prepared unconnected remainder collect delete_all
  tasks_in_parallel g₀ =
      let g = prepared g₀ in
      let free = unconnected g.cstr_order g.cstr_groups in
      let left = remainder g.cstr_order g.cstr_groups in
      let batch = collect g.cstr_groups free in
      if is_nil batch && not (is_nil left)
      then circular left
      else ok (
        batch,
        record g {
          cstr_order = delete_all free g.cstr_order;
          cstr_groups = delete_all free g.cstr_groups;
        },
      )

  unfoldable pub tasks_by_max_jobs : TaskGroup → Outcome (Batch × TaskGroup)
  unfolding select_tasks prepared
  tasks_by_max_jobs g₀ =
      let g = prepared g₀ in
      let filled : Outcome (List Task × TaskGroup) =
        if is_nil g.temp_tasks then tasks_in_parallel g else ok (g.temp_tasks, g) in
      elim filled [
        | circular l ↦ circular l
        | ok (ts, g') ↦
            let (maxjobs, ret, remaining) = select_tasks (max_jobs, [], []) ts in
            ok (as_batch maxjobs ret, record g' { temp_tasks = remaining })
      ]

  unfoldable pub tasks_with_inner_constraints : TaskGroup → List Task × TaskGroup
  unfolding order_all prepared
  tasks_with_inner_constraints g₀ =
      let g = prepared g₀ in
      if g.done
      then ([], g)
      else (let tasks = order_all g.cstr_groups g.cstr_order g.tasks in
          (tasks, record g { tasks = tasks; cstr_order = []; cstr_groups = []; done = true }))

  -- `TaskGroup.get_next_set`
  unfoldable pub next_batch : Algorithm → TaskGroup → Outcome (Batch × TaskGroup)
  next_batch normal g = elim (tasks_in_parallel g) [
    | circular l ↦ circular l
    | ok (ts, g') ↦ ok (as_batch max_jobs ts, g')
  ]
  next_batch jobcontrol g = tasks_by_max_jobs g
  next_batch maxparallel g =
      let (ts, g') = tasks_with_inner_constraints g in ok (as_batch max_jobs ts, g')

  -- The loop of `TaskManager.get_next_set` over the groups from `current_group` on. The numbers are
  -- the place of the first of them, and of the group that gave the batch; each group passed over has
  -- its `process_install` run, and is listed.
  unfoldable pub next_in :
      Algorithm → ℕ → List TaskGroup → Outcome (Batch × List TaskGroup × ℕ × List ℕ)
  next_in algo current [] = ok (none, [], current, [])
  next_in algo current (g ∷ gs) = elim (next_batch algo g) [
    | circular l ↦ circular l
    | ok (some b, g') ↦ ok (some b, g' ∷ gs, current, [])
    | ok (none, g') ↦ elim (next_in algo (suc current) gs) [
      | circular l ↦ circular l
      | ok (b, gs', place, installed) ↦ ok (b, g' ∷ gs', place, current ∷ installed)
    ]
  ]
