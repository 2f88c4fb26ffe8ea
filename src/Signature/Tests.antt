-- ===== src/Signature/Tests.antt =====
-- Task.py: signatures at a small build.
use meguro.Base.{
  string_eq, nat_eq, ◌↔◌, String, List, [], ◌∷◌, none, some, Bool, true, false, ◌≡◌, refl, lookup,
  insert, All, if◌then◌else◌, ◌==◌,
}
use Prim.Native.String.{◌++◌ as ◌+◌}
use meguro.Base.Raise.{ok, err}
use meguro.Signature.{
  Sig, Sigs, TaskNode, source, of_env, Build, waf_error, Task, variant_of, World, node_sig,
  unique_id, signature,
}
use meguro.Signature.Status.{have_run, skip_me, run_me, ask_later, runnable_status, post_run}
use meguro.Signature.Skipping.{same_task}
use meguro.Signature.Rebuild.{runnable_status-post_run, runnable_status-skip}
use meguro.Signature.Missing.{post_run-missing}

-- A digest that joins the updates, and a scanner that finds one header.
abbrev joined : List String → Sig
joined [] = "."
joined (x ∷ l) = x + joined l

abbrev header : TaskNode
header = record { ident = 6; folder = 1; folder_path = "/src"; name = "a.h"; is_file = true }

abbrev world : World
world = record {
  md5 = joined;
  env_sig = joined;
  refresh = λ folder b. (ok tt, b);
  scan = some λ b. (ok (header ∷ [], []), b);
}

abbrev input : TaskNode
input = record { ident = 2; folder = 1; folder_path = "/src"; name = "a.c"; is_file = true }

abbrev output : TaskNode
output = record { ident = 3; folder = 1; folder_path = "/src"; name = "a.o"; is_file = false }

abbrev cc_task : Task
cc_task = record {
  class_name = "cc";
  variant = "default";
  inputs = input ∷ [];
  outputs = output ∷ [];
  dep_nodes = [];
  deps_nodes = [];
  vars = "CCFLAGS" ∷ [];
  dep_vars = [];
  cache_sig = none;
}

abbrev first_build : Build
first_build = record {
  node_sigs = (source, (2, "i") ∷ (6, "h") ∷ []) ∷ (of_env "default", []) ∷ [];
  task_sigs = [];
  node_deps = [];
  raw_deps = [];
  deps_man = [];
  cache_scanned_folders = [];
}

abbrev sigs : Sigs
sigs = ("i.h.CCFLAGS...", ("i.", ("h.", "CCFLAGS..")))

abbrev done_task : Task
done_task = record cc_task { cache_sig = some sigs }

abbrev first_left : Build
first_left = record first_build {
  node_sigs =
      (source, (2, "i") ∷ (6, "h") ∷ []) ∷ (of_env "default", (3, "i.h.CCFLAGS...") ∷ []) ∷ [];
  task_sigs = ("ccdefault/srca.ca.o.", sigs) ∷ [];
  node_deps = ("ccdefault/srca.ca.o.", header ∷ []) ∷ [];
  raw_deps = ("ccdefault/srca.ca.o.", []) ∷ [];
  cache_scanned_folders = 1 ∷ [];
}

-- The next build, where the header has changed.
abbrev next_build : Build
next_build = record first_left {
  node_sigs =
      (source, (2, "i") ∷ (6, "g") ∷ []) ∷ (of_env "default", (3, "i.h.CCFLAGS...") ∷ []) ∷ [];
  cache_scanned_folders = [];
}

abbrev next_sigs : Sigs
next_sigs = ("i.g.CCFLAGS...", ("i.", ("g.", "CCFLAGS..")))

abbrev next_left : Build
next_left = record next_build { cache_scanned_folders = 1 ∷ [] }

abbrev next_task : Task
next_task = record cc_task { cache_sig = some next_sigs }

first_run : post_run world (λ _. true) cc_task first_build ≡ (ok done_task, first_left)
unfolding post_run node_sig lookup insert
first_run = refl

first_skip :
    runnable_status world (true ∷ []) cc_task first_left ≡ (ok (skip_me, done_task), first_left)
unfolding runnable_status lookup insert
first_skip = refl

next_run :
    runnable_status world (true ∷ []) cc_task next_build ≡ (ok (run_me, next_task), next_left)
unfolding runnable_status lookup insert
next_run = refl

waiting :
    runnable_status world (true ∷ false ∷ []) cc_task first_left
    ≡ (ok (ask_later, cc_task), first_left)
unfolding runnable_status
waiting = refl

unknown_input :
    runnable_status world (true ∷ []) (record cc_task { inputs = output ∷ [] }) first_build ≡ (
      ok (run_me, record cc_task { inputs = output ∷ [] }),
      record first_build { cache_scanned_folders = 1 ∷ [] },
    )
unfolding runnable_status lookup insert
unknown_input = refl

runnable_status-post_run_example :
    (old : Sigs) × ((done_task.cache_sig ≡ some old)
      × (runnable_status world (true ∷ []) cc_task next_build
          ≡ (ok (if next_sigs.0 == old.0 then skip_me else run_me, next_task), next_left)))
unfolding post_run signature node_sig lookup insert have_run
runnable_status-post_run_example =
    runnable_status-post_run world world (λ _. true) (true ∷ []) cc_task done_task cc_task next_task
      first_build first_left next_build next_left next_sigs refl (refl, tt) refl refl
      (same_task refl refl refl refl) refl (refl, tt) refl

runnable_status-skip_example :
    (runnable_status world (true ∷ []) cc_task first_left ≡ (ok (skip_me, done_task), first_left))
    ↔ ((have_run (true ∷ []) ≡ true)
        × ((new : Sigs) × ((signature world cc_task first_left ≡ (ok (new, done_task), first_left))
              × (((old : Sigs) × ((lookup (unique_id world done_task) first_left.task_sigs
                        ≡ some old)
                      × (old.0 ≡ new.0)))
                  × All
                      (λ x. node_sig (variant_of done_task x) x.ident first_left ≡ some new.0)
                      done_task.outputs))))
runnable_status-skip_example =
    runnable_status-skip world (true ∷ []) cc_task done_task first_left first_left

-- A second output, that the compiler did not make.
abbrev listing : TaskNode
listing = record { ident = 7; folder = 1; folder_path = "/src"; name = "a.lst"; is_file = false }

abbrev two_outputs : Task
two_outputs = record cc_task { outputs = output ∷ listing ∷ [] }

abbrev two_left : Build
two_left = record first_build {
  node_deps = ("ccdefault/srca.ca.oa.lst.", header ∷ []) ∷ [];
  raw_deps = ("ccdefault/srca.ca.oa.lst.", []) ∷ [];
  cache_scanned_folders = 1 ∷ [];
}

abbrev not_listing : TaskNode → Bool
not_listing x = if x.ident == 7 then false else true

post_run-missing_example :
    (b' : Build) × ((post_run world not_listing two_outputs first_build ≡ (err waf_error, b'))
      × ((b'.task_sigs ≡ two_left.task_sigs)
          × All
              (λ y. node_sig (of_env two_outputs.variant) y.ident b' ≡ some sigs.0)
              (output ∷ [])))
unfolding signature lookup insert node_sig
post_run-missing_example =
    post_run-missing world not_listing two_outputs (record two_outputs { cache_sig = some sigs })
      first_build two_left sigs [] listing (output ∷ []) [] refl refl refl (refl, tt) refl
