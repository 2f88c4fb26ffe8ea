-- ===== src/Lib.antt =====
-- The build system of meguro: waf, in tools/wafadmin.
--
-- Meguro is built by the Python program under tools/wafadmin. A build script declares tasks; the
-- environments of their tools are looked up, the sources are scanned for what they include, the
-- tasks are put in an order, and threads run them. The parts that decide what is built and when
-- are modelled here, each from its file.
--
-- * Environment (Environment.py): `Environment` of the source is a record of an own table and the
--   tables of the parents, and lists live in a heap, so that two tables may hold the same list.
--   `getitem`, `setitem`, `append_value`, `prepend_value`, `append_unique`, `get_merged_dict` and
--   the others keep their names; `copy` is `derive`. Isolation is about what a modification leaves
--   alone, Unique about `append_unique`, Merge about the chain of parents read as one table.
-- * TaskGroup (Task.py): the groups of tasks with equal constraints (`make_cstr_groups`), the order
--   between them (`extract_constraints`) and the three ways of giving out tasks
--   (`tasks_in_parallel`, `tasks_by_max_jobs`, `tasks_with_inner_constraints`). A hash is taken to
--   be the number that it is; a set is a list. Batch is about what one batch holds, Progress about
--   its not being empty.
-- * Runner (Runner.py): `Parallel.start` as a producer with a program counter (`Phase`), the
--   consumers as a pool, and the two queues `ready` and `out`. A step is one turn of either side,
--   and the steps interleave freely. What `runnable_status` answers, and how
--   the run of a task ends, is free; but that of the class Task, for which the parameter `waits` stands, first
--   asks to come back later where a task of `run_after` has not run. A class may have another one in its
--   place (`always_run`, TaskBase, the command-output tasks without input). Tasks are numbers; the manager's batches are the list
--   `sets`. Ordering, Safety, Complete and Livelock are the theorems on reachable states, Schedule
--   joins the manager's batches and the runner.
-- * Preproc (Tools/preproc.py): tokens and errors (Token), the evaluation of `#if` conditions (Eval),
--   macro definitions (Macro) and their expansion (Expand), `extract_include` (Scan), and the walk
--   of `c_parser` through the lines (Parser). What the module's regular expressions find in a text
--   is a parameter, the record `Lexer`, with the tokens that `tokenize` makes of it, a text on which that raises being left out; the nodes of Node.py and the reading of a file
--   (`filter_comments`) are the record `Files`, for one environment. `state` and
--   `currentnode_stack` have their last entry first. `process_line` gives the parser as it leaves
--   it and the exception that it raises, which `start` drops. Where an expansion fails, the
--   definitions that it took apart on the way are kept as texts, to be taken apart again.
--   Parser/Blocks is about conditionals, Parser/Walk and Parser/Total about the end of the scan.
-- * Node (Node.py): a node is its name and the names of its folders up to the root, whose own is
--   empty and left out. `height`, `is_child_of`, `find_ancestor`, `path_to_parent` and
--   `relpath_gen` are modelled; a path is the list of texts that `os.sep` joins. Relative is about
--   following a path.
-- * Glob (Node.py): `filtre`, `accept` and `ant_iter` of `ant_glob`, for the names on the way from its
--   folder to a file, with what a compiled pattern says of a name as a function. Whether there is
--   such a file, and of which kind, is asked of the node tree. Matching compares them with a plain
--   reading of the patterns.
--
-- * TaskGen (TaskGen.py): `declare_order`, `before`, `after` and `feature` as changes of the tables
--   `traits` and `precs`, `apply` up to the order of the methods (Order, Tables), and the loop that
--   calls them, in which `exec_rule` and `sequence_order` change the list that is gone through
--   (Posting). What the other methods do to that list is the parameter `change`.
-- * Signature (Task.py): `signature` and its three parts, and in Status `runnable_status` and
--   `post_run` without the cache of files that builds share. What the build keeps is the record
--   `Build`; the digest, `hash_env_vars`, the scanner and what `rescan` does to a folder are the
--   record `World`. An exception leaves the state as it was when it was raised. `uid`
--   is computed each time, which the source keeps. Rebuild and Missing are about the next build.
--
-- * NodeTree (Node.py, Build.py): the tree as it is built, a node being its `id` and its attributes tables
--   by `id`: the constructor, `get_dir` and its likes, and `rescan` with `listdir_bld`; Search has
--   `find_dir`, `find_resource`, `find_or_declare`, `ensure_dir_node_from_path` and
--   `exclusive_build_node`, each with the path split already, and its last name apart. The
--   disk is the record `Disk` and does not change meanwhile; the system is one with `/` in its paths. `abspath` is the
--   list of names, computed each time, which the source keeps. Invariant is about all of these, Declared about asking again,
--   Located about the path of what is found.
-- * FileDeps (Task.py): `extract_outputs` and `extract_deps`, with their calls of `set_run_after` as a list of pairs. Tasks and nodes are numbers; the
--   order of a set or a dictionary is that of the insertions. Linked and Depending say which pairs there
--   are. What `signature` leaves in `node_deps` is given with a task, and `cache_sig` is left out.
--
-- Base holds what the parts share: Boolean tests, lists and dictionaries over the native numbers,
-- the integers with Python's operations on them, and code that changes a state and may raise (Raise).
--
-- Fuel: `get_num` and `get_term` take fuel, and `reduce_eval` gives them twice the length of the
-- list and 2, since each call takes a token off or makes three tokens one. `expand` takes fuel
-- because the source may recurse without end on a macro that names itself; running out is an error of the model's own, and
-- `process_line` treats it as the source treats Python's recursion limit. `run` takes fuel, and
-- `addlines` refuses the 30001st file, so that the lines of 30000 files are enough.
-- `names_from` goes up with as much fuel as the `id`, since a parent's is smaller.
-- Python's integers are unbounded, and so are these.
--
-- Not modelled: files, processes and pickled caches; the rest of Node.py, of the build
-- context (Build.py) and of task generators (TaskGen.py), the configuration and the tools for each compiler; the C++ of the map and reduce engine under src.
pub mod Base
pub mod Environment
pub mod TaskGroup
pub mod Runner
pub mod Preproc
pub mod Node
pub mod Glob
pub mod TaskGen
pub mod Signature
pub mod NodeTree
pub mod FileDeps
