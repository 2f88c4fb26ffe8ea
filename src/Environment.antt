-- ===== src/Environment.antt =====
-- tools/wafadmin/Environment.py: the class Environment, a dictionary with a parent.
-- List values are shared by reference, so they stand in a heap; an environment is its own table
-- and the tables of its parents, nearest first. No operation writes a parent's table.
pub mod Isolation
pub mod Unique
pub mod Merge
pub mod Tests
use meguro.Base.{
  ℕ, suc, String, ◌++◌, List, [], ◌∷◌, Option, none, some, Bool, true, false, ◌==◌, nat_eq,
  string_eq, if◌then◌else◌, lookup, insert,
}
use Prim.Native.String.{◌++◌ as concat}

-- The values that a list may hold.
pub data Scalar : Type 0 where
  nothing : Scalar
  text : String → Scalar
  number : ℕ → Scalar
  flag : Bool → Scalar

-- The values of a table: a list is a reference into the heap.
pub data Value : Type 0 where
  scalar : Scalar → Value
  list : ℕ → Value

abbrev pub Table : Type 0
Table = List (String × Value)

pub record Heap : Type 0 where
  pub next : ℕ
  pub cells : ℕ → List Scalar

pub record Environment : Type 0 where
  pub table : Table
  pub parents : List Table

unfoldable pub alloc : List Scalar → Heap → ℕ × Heap
alloc xs h =
    (h.next, record { next = suc h.next; cells = λ r. if r == h.next then xs else h.cells r })

unfoldable pub assign : ℕ → List Scalar → Heap → Heap
assign r xs h = record h { cells = λ s. if s == r then xs else h.cells s }

-- `x = self.table.get(key, None); if not x is None: return x`, else the search goes on.
unfoldable pub first_set : Option Value → Option Value → Option Value
first_set none rest = rest
first_set (some (scalar nothing)) rest = rest
first_set (some v) rest = some v

-- `__getitem__`: a stored `None` is passed over as a missing key is; `none` is the final `[]`.
unfoldable pub get_from : String → List Table → Option Value
unfolding first_set
get_from k [] = none
get_from k (t ∷ ts) = first_set (lookup k t) (get_from k ts)

unfoldable pub getitem : Environment → String → Option Value
unfolding get_from
getitem env k = get_from k (env.table ∷ env.parents)

unfoldable pub contains_in : String → List Table → Bool
contains_in k [] = false
contains_in k (t ∷ ts) = elim (lookup k t) [ some _ ↦ true | none ↦ contains_in k ts ]

-- `__contains__`
unfoldable pub contains : Environment → String → Bool
unfolding contains_in
contains env k = contains_in k (env.table ∷ env.parents)

-- `__setitem__`
unfoldable pub setitem : Environment → String → Value → Environment
setitem env k v = record env { table = insert k v env.table }

-- `copy`: an empty table whose parent is the environment.
unfoldable pub derive : Environment → Environment
derive env = record { table = []; parents = env.table ∷ env.parents }

-- `update`
unfoldable pub update : Environment → List (String × Value) → Environment
unfolding setitem
update env [] = env
update env ((k, v) ∷ d) = update (setitem env k v) d

abbrev pub variant_key : String
variant_key = "_VARIANT_"

unfoldable pub set_variant : Environment → String → Environment
unfolding setitem
set_variant env name = setitem env variant_key (scalar (text name))

-- `variant`: `none` is `DEFAULT`.
abbrev pub default_variant : Value
default_variant = scalar (text "default")

unfoldable pub variant : Environment → Value
unfolding getitem
variant env = elim (getitem env variant_key) [ some v ↦ v | none ↦ default_variant ]

-- What a list comparison `isinstance(value, list)` makes of a value found.
unfoldable pub items_of : Heap → Value → List Scalar
items_of h (scalar s) = s ∷ []
items_of h (list r) = h.cells r

-- The value that the parent gives, `[]` with no parent and with no entry.
unfoldable pub inherited : Heap → List Table → String → List Scalar
unfolding get_from items_of
inherited h ts k = elim (get_from k ts) [ some v ↦ items_of h v | none ↦ [] ]

-- `_get_list_value_for_modification`: the reference of a list that the own table holds.
unfoldable pub list_for_modification : Heap → Environment → String → ℕ × (Heap × Environment)
unfolding inherited alloc setitem
list_for_modification h env k = elim (lookup k env.table) [
  | none ↦ let (r, h') = alloc (inherited h env.parents k) h in (r, (h', setitem env k (list r)))
  | some (list r) ↦ (r, (h, setitem env k (list r)))
  | some (scalar s) ↦ let (r, h') = alloc (s ∷ []) h in (r, (h', setitem env k (list r)))
]

-- The argument of the methods below: a list, or any other value.
pub data Arg : Type 0 where
  one : Scalar → Arg
  many : List Scalar → Arg

abbrev pub arg_items : Arg → List Scalar
arg_items (one s) = s ∷ []
arg_items (many xs) = xs

unfoldable pub append_value : Heap → Environment → String → Arg → Heap × Environment
unfolding assign
append_value h env k value =
    let (r, (h', env')) = list_for_modification h env k in
    (assign r (h'.cells r ++ arg_items value) h', env')

-- A list argument makes a new list and stores it again; another value is inserted in place.
unfoldable pub prepend_value : Heap → Environment → String → Arg → Heap × Environment
unfolding assign alloc setitem
prepend_value h env k (many xs) =
    let (r, (h', env')) = list_for_modification h env k in
    let (s, h'') = alloc (xs ++ h'.cells r) h' in (h'', setitem env' k (list s))
prepend_value h env k (one x) =
    let (r, (h', env')) = list_for_modification h env k in (assign r (x ∷ h'.cells r) h', env')

-- Python's `==` on scalars.
unfoldable pub scalar_eqb : Scalar → Scalar → Bool
scalar_eqb nothing nothing = true
scalar_eqb (text s) (text t) = s == t
scalar_eqb (number m) (number n) = m == n
scalar_eqb (number m) (flag b) = m == (if b then 1 else 0)
scalar_eqb (flag b) (number m) = m == (if b then 1 else 0)
scalar_eqb (flag true) (flag b) = b
scalar_eqb (flag false) (flag b) = if b then false else true
scalar_eqb _ _ = false

unfoldable pub in_list : Scalar → List Scalar → Bool
unfolding scalar_eqb
in_list x [] = false
in_list x (y ∷ ys) = if scalar_eqb x y then true else in_list x ys

-- `if value_item not in current_value: current_value.append(value_item)` for each item.
unfoldable pub add_unique : List Scalar → List Scalar → List Scalar
unfolding in_list
add_unique current [] = current
add_unique current (x ∷ xs) =
    add_unique (if in_list x current then current else current ++ x ∷ []) xs

unfoldable pub append_unique : Heap → Environment → String → Arg → Heap × Environment
unfolding assign
append_unique h env k value =
    let (r, (h', env')) = list_for_modification h env k in
    (assign r (add_unique (h'.cells r) (arg_items value)) h', env')

-- `merged_table.update(table)`. A dictionary has each key once, so the order of its entries does
-- not matter; here the first is written last.
unfoldable pub update_table : Table → Table → Table
update_table t [] = t
update_table t ((k, v) ∷ d) = insert k v (update_table t d)

unfoldable pub merge_tables : List Table → Table
unfolding update_table
merge_tables [] = []
merge_tables (t ∷ ts) = update_table (merge_tables ts) t

-- `get_merged_dict`: the farthest parent first, the own table last.
unfoldable pub get_merged_dict : Environment → Table
unfolding merge_tables
get_merged_dict env = merge_tables (env.table ∷ env.parents)

unfoldable pub join_words : List Scalar → Option String
join_words [] = some ""
join_words (text s ∷ []) = some s
join_words (text s ∷ xs) = elim (join_words xs) [
  | some w ↦ some (concat s (concat " " w))
  | none ↦ none
]
join_words (_ ∷ xs) = none

-- `get_flat`: a text as it is, a list joined by blanks; `none` is the TypeError of any other value.
unfoldable pub get_flat : Heap → Environment → String → Option String
unfolding getitem join_words
get_flat h env k = elim (getitem env k) [
  | none ↦ some ""
  | some (scalar (text s)) ↦ some s
  | some (scalar _) ↦ none
  | some (list r) ↦ join_words (h.cells r)
]
