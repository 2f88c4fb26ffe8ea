-- ===== src/TaskGroup/Tests.antt =====
-- Runs of Task.py's scheduling, and the theorems at concrete inputs.
use meguro.Base.{
  ℕ, ◌+◌, String, ◌≡◌, ◌≢◌, refl, List, [], ◌∷◌, none, true, false, arith, lookup, insert, delete,
  mem, nat_eq, string_eq, nat_eqb_iff,
}
use meguro.TaskGroup.{
  Task, TaskGroup, ok, get_list, tasks_in_parallel, prepare, new_group, is_nil, all_tasks,
}
use meguro.TaskGroup.Batch.{times, tasks_in_parallel-times, tasks_in_parallel-order}
use meguro.TaskGroup.Progress.{tasks_in_parallel_progress}

-- A stand-in for `hash` that tells the two kinds of tasks below apart.
abbrev hash : String × List String × List String × List String × List String × ℕ → ℕ
hash (name, before, after, ext_in, ext_out, jobs) = elim after [ [] ↦ 1 | _ ∷ _ ↦ 2 ]

abbrev compile : ℕ → Task
compile i = record {
  ident = i;
  class_name = "cxx";
  before = "cxx_link" ∷ [];
  after = [];
  ext_in = [];
  ext_out = [];
  maxjobs = 99999999;
  run_after = [];
}

abbrev link : Task
link = record {
  ident = 9;
  class_name = "cxx_link";
  before = [];
  after = "cxx" ∷ [];
  ext_in = [];
  ext_out = [];
  maxjobs = 99999999;
  run_after = [];
}

-- A prepared group: the link (key 2) comes after the two compilations (key 1).
abbrev prepared_group : TaskGroup
prepared_group = record {
  tasks = link ∷ compile 3 ∷ compile 4 ∷ [];
  cstr_groups = (2, link ∷ []) ∷ (1, compile 3 ∷ compile 4 ∷ []) ∷ [];
  cstr_order = (1, 2 ∷ []) ∷ [];
  temp_tasks = [];
  ready = true;
  done = false;
}

abbrev rest_group : TaskGroup
rest_group = record prepared_group { cstr_groups = (2, link ∷ []) ∷ []; cstr_order = [] }

prepare_test :
    prepare hash (record new_group { tasks = link ∷ compile 3 ∷ compile 4 ∷ [] }) ≡ prepared_group
unfolding prepare lookup insert
prepare_test = refl

first_batch : tasks_in_parallel hash prepared_group ≡ ok (compile 3 ∷ compile 4 ∷ [], rest_group)
unfolding tasks_in_parallel lookup delete
first_batch = refl

tasks_in_parallel-times_example :
    times 9 (compile 3 ∷ compile 4 ∷ []) + times 9 (all_tasks rest_group.cstr_groups)
    ≡ times 9 (all_tasks prepared_group.cstr_groups)
tasks_in_parallel-times_example =
    tasks_in_parallel-times hash prepared_group 9 refl refl first_batch

tasks_in_parallel-order_example :
    (lookup 2 rest_group.cstr_groups ≡ lookup 2 prepared_group.cstr_groups)
    × (lookup 1 rest_group.cstr_groups ≢ none → mem 2 (get_list 1 rest_group.cstr_order) ≡ true)
unfolding lookup
tasks_in_parallel-order_example =
    tasks_in_parallel-order hash prepared_group 1 2 refl first_batch refl

tasks_in_parallel_progress_example :
    (batch : List Task) × (g' : TaskGroup) × (tasks_in_parallel hash prepared_group
      ≡ ok (batch, g'))
    × (is_nil batch ≡ false)
tasks_in_parallel_progress_example =
    tasks_in_parallel_progress hash (λ n. n) prepared_group refl (cc) (refl, (refl, tt))
      (λ a b e. ground (arith, e, nat_eqb_iff 1 a, nat_eqb_iff b 2, nat_eqb_iff a 2))
