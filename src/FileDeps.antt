-- ===== src/FileDeps.antt =====
-- Task.py: `extract_outputs` and `extract_deps`, the order between tasks that nodes imply.
pub mod Linked
pub mod Depending
pub mod Tests
use meguro.Base.{
  Key, string_eq, nat_eq, ◌↔◌, ℕ, String, List, [], ◌∷◌, ◌++◌, Option, none, some, Bool, true,
  false, ◌&&◌, ◌||◌, ◌==◌, foldl, map, lookup, insert, if◌then◌else◌, ◌≡◌, arith,
}

-- A task by its identity, and the `id` of its nodes; `deps` are those that `node_deps` holds for it
-- once its signature was asked for.
pub record FileTask : Type 0 where
  pub ident : ℕ
  pub variant : String
  pub inputs : List ℕ
  pub outputs : List ℕ
  pub deps : List ℕ

-- The tasks that have a node.
abbrev pub Index : Type 0
Index = List (ℕ × List ℕ)

-- `d[k].append(x)`, or `d[k] = [x]` on a KeyError.
unfoldable pub add_at : {K : Type 0} ⦃key : Key K⦄ → ℕ → List (K × List ℕ) → K → List (K × List ℕ)
add_at x d k = elim (lookup k d) [ none ↦ insert k (x ∷ []) d | some l ↦ insert k (l ++ x ∷ []) d ]

abbrev pub Indexes : Type 0
Indexes = List (String × (Index × Index))

abbrev pub indexes_of : String → Indexes → Index × Index
indexes_of w v = elim (lookup w v) [ none ↦ ([], []) | some p ↦ p ]

-- A turn of the first loop.
unfoldable pub note_task : Indexes → FileTask → Indexes
unfolding add_at
note_task v x =
    insert x.variant
      (
        foldl (add_at x.ident) (indexes_of x.variant v).0 x.inputs,
        foldl (add_at x.ident) (indexes_of x.variant v).1 x.outputs,
      )
      v

unfoldable pub keys : {K : Type 0} {V : Type 0} → List (K × V) → List K
keys [] = []
keys ((k, v) ∷ d) = k ∷ keys d

-- A call `a.set_run_after(b)` is the pair of the two.
unfoldable pub after_each : ℕ → List ℕ → List (ℕ × ℕ)
after_each a [] = []
after_each a (b ∷ m) = (a, b) ∷ after_each a m

unfoldable pub after_all : List ℕ → List ℕ → List (ℕ × ℕ)
unfolding after_each
after_all [] m = []
after_all (a ∷ l) m = after_each a m ++ after_all l m

abbrev pub tasks_at : {K : Type 0} ⦃key : Key K⦄ → K → List (K × List ℕ) → List ℕ
tasks_at k d = elim (lookup k d) [ none ↦ [] | some l ↦ l ]

-- The loop over the nodes that both have; with no task on one side there is no call.
unfoldable pub link : Index → Index → List ℕ → List (ℕ × ℕ)
unfolding after_all
link ins outs [] = []
link ins outs (k ∷ l) = after_all (tasks_at k ins) (tasks_at k outs) ++ link ins outs l

unfoldable pub link_all : Indexes → List String → List (ℕ × ℕ)
unfolding link keys
link_all v [] = []
link_all v (w ∷ l) =
    link (indexes_of w v).0 (indexes_of w v).1 (keys (indexes_of w v).0) ++ link_all v l

unfoldable pub extract_outputs : List FileTask → List (ℕ × ℕ)
unfolding note_task link_all
extract_outputs tasks = let v = foldl note_task [] tasks in link_all v (keys v)

-- A node in a variant.
abbrev pub same_place : String × ℕ → String × ℕ → Bool
same_place p q = p.0 == q.0 && p.1 == q.1

pub same_place_iff : (p q : String × ℕ) → (same_place p q ≡ true) ↔ (p ≡ q)
same_place_iff (v, k) (w, j) = ground (arith, string_eq.decides v w, nat_eq.decides k j)

instance abbrev pub place_eq : Key (String × ℕ)
place_eq = record { same = same_place; decides = same_place_iff }

abbrev pub places : String → List ℕ → List (String × ℕ)
places v [] = []
places v (k ∷ l) = (v, k) ∷ places v l

-- `out_to_task[p] = x` for each place.
unfoldable pub put_all : ℕ → List ((String × ℕ) × ℕ) → List (String × ℕ) → List ((String × ℕ) × ℕ)
put_all x d [] = d
put_all x d (p ∷ l) = put_all x (insert p x d) l

unfoldable pub out_to_task : List ((String × ℕ) × ℕ) → List FileTask → List ((String × ℕ) × ℕ)
unfolding put_all
out_to_task d [] = d
out_to_task d (x ∷ tasks) = out_to_task (put_all x.ident d (places x.variant x.outputs)) tasks

-- `v` as the loop leaves it.
unfoldable pub last_variant : String → List FileTask → String
last_variant v [] = v
last_variant v (x ∷ tasks) = last_variant x.variant tasks

unfoldable pub dep_to_task :
    String → List ((String × ℕ) × List ℕ) → List FileTask → List ((String × ℕ) × List ℕ)
unfolding add_at
dep_to_task v d [] = d
dep_to_task v d (x ∷ tasks) = dep_to_task v (foldl (add_at x.ident) d (places v x.deps)) tasks

-- Each of the tasks behind the one, if there is one.
abbrev pub behind : List ℕ → Option ℕ → List (ℕ × ℕ)
behind l none = []
behind [] (some b) = []
behind (a ∷ l) (some b) = (a, b) ∷ behind l (some b)

unfoldable pub link_deps :
    List ((String × ℕ) × List ℕ) → List ((String × ℕ) × ℕ) → List (String × ℕ) → List (ℕ × ℕ)
link_deps deps outs [] = []
link_deps deps outs (p ∷ l) = behind (tasks_at p deps) (lookup p outs) ++ link_deps deps outs l

unfoldable pub extract_deps : List FileTask → List (ℕ × ℕ)
unfolding extract_outputs out_to_task last_variant dep_to_task link_deps keys
extract_deps tasks =
    let deps = dep_to_task (last_variant "" tasks) [] tasks in
    extract_outputs tasks ++ link_deps deps (out_to_task [] tasks) (keys deps)
