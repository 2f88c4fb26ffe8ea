-- ===== src/FileDeps/Tests.antt =====
-- Task.py: three tasks and their files.
use meguro.Base.{
  string_eq, nat_eq, ◌↔◌, ℕ, String, List, [], ◌∷◌, true, ◌⊎◌, some, ◌≡◌, refl, lookup, insert,
}
use meguro.FileDeps.{FileTask, extract_outputs, extract_deps, last_variant}
use meguro.FileDeps.Linked.{orders, takes, extract_outputs_iff}
use meguro.FileDeps.Depending.{depends, last_maker, extract_deps_iff}

-- The link takes what the compilation makes; a task of another variant takes the node too.
abbrev tasks : List FileTask
tasks =
    record { ident = 1; variant = "default"; inputs = 3 ∷ []; outputs = 7 ∷ []; deps = [] }
    ∷ record { ident = 2; variant = "default"; inputs = 6 ∷ []; outputs = 3 ∷ []; deps = [] }
    ∷ record { ident = 3; variant = "debug"; inputs = 3 ∷ []; outputs = 11 ∷ []; deps = [] }
    ∷ []

link_behind : extract_outputs tasks ≡ (1, 2) ∷ []
unfolding extract_outputs lookup insert
link_behind = refl

-- A task that reads what it writes waits for itself.
own_output :
    extract_outputs
      (record { ident = 1; variant = "default"; inputs = 3 ∷ []; outputs = 3 ∷ []; deps = [] } ∷ [])
    ≡ (1, 1) ∷ []
unfolding extract_outputs lookup insert
own_output = refl

extract_outputs_iff_example : (orders 1 2 (extract_outputs tasks) ≡ true) ↔ (
    (w : String) × ((k : ℕ) × ((takes (λ x. x.inputs) w k 1 tasks ≡ true)
        × (takes (λ x. x.outputs) w k 2 tasks ≡ true))))
extract_outputs_iff_example = extract_outputs_iff 1 2 tasks

-- The scanner found the node 3 for the first task; 3 is made in the variant of both, but the last task is of another.
abbrev scanned : List FileTask
scanned =
    record { ident = 1; variant = "default"; inputs = []; outputs = 7 ∷ []; deps = 3 ∷ [] }
    ∷ record { ident = 2; variant = "default"; inputs = 6 ∷ []; outputs = 3 ∷ []; deps = [] }
    ∷ record { ident = 3; variant = "debug"; inputs = 6 ∷ []; outputs = 11 ∷ []; deps = [] }
    ∷ []

found_without_order : extract_deps scanned ≡ []
unfolding extract_deps lookup insert
found_without_order = refl

extract_deps_iff_example : (orders 1 2 (extract_deps scanned) ≡ true) ↔ (
    (orders 1 2 (extract_outputs scanned) ≡ true)
    ⊎ ((k : ℕ) × ((depends k 1 scanned ≡ true)
          × (last_maker (last_variant "" scanned) k scanned ≡ some 2))))
extract_deps_iff_example = extract_deps_iff 1 2 scanned
