-- ===== src/Environment/Merge.antt =====
-- Environment.py: the merged dictionary against reading through the parents.
use meguro.Base.{
  String, ◌≡◌, refl, List, [], ◌∷◌, Option, none, some, Bool, true, false, string_eq, arith, lookup,
  lookup-insert,
}
use meguro.Environment.{
  Value, Table, Environment, scalar, nothing, first_set, get_from, getitem, contains_in, contains,
  update_table, merge_tables, get_merged_dict,
}

lookup-update_table :
    (k : String) (t d : Table)
    → lookup k (update_table t d) ≡ (elim (lookup k d) [ some v ↦ some v | none ↦ lookup k t ])
unfolding update_table lookup
lookup-update_table k t [] = refl
lookup-update_table k t ((j, v) ∷ d) =
    ground (arith, lookup-insert j k v (update_table t d), lookup-update_table k t d)

abbrev pub is_some : Option Value → Bool
is_some (some _) = true
is_some none = false

contains_in-merge :
    (k : String) (ts : List Table) → contains_in k ts ≡ is_some (lookup k (merge_tables ts))
unfolding contains_in merge_tables
contains_in-merge k [] = unfold lookup in refl
contains_in-merge k (t ∷ ts) =
    ground (arith, contains_in-merge k ts, lookup-update_table k (merge_tables ts) t)

-- A key is in an environment exactly when the merged dictionary has it.
pub contains-get_merged_dict :
    (env : Environment) (k : String) → contains env k ≡ is_some (lookup k (get_merged_dict env))
unfolding contains get_merged_dict
contains-get_merged_dict env k = contains_in-merge k (env.table ∷ env.parents)

-- No entry of the table is `None`.
abbrev IsNotNone : Value → Type 0
IsNotNone (scalar nothing) = ⊥
IsNotNone _ = Unit

abbrev pub IsNoneFree : Table → Type 0
IsNoneFree [] = Unit
IsNoneFree ((k, v) ∷ t) = IsNotNone v × IsNoneFree t

abbrev pub NoneFreeChain : List Table → Type 0
NoneFreeChain [] = Unit
NoneFreeChain (t ∷ ts) = IsNoneFree t × NoneFreeChain ts

first_set-lookup :
    (k : String) (t : Table) (rest : Option Value)
    → IsNoneFree t
    → first_set (lookup k t) rest ≡ (elim (lookup k t) [ some v ↦ some v | none ↦ rest ])
unfolding lookup first_set
first_set-lookup k [] rest h = refl
first_set-lookup k ((j, scalar nothing) ∷ t) rest h = absurd h.0
first_set-lookup k ((j, v) ∷ t) rest h = ground (arith, first_set-lookup k t rest h.1)

get_from-merge :
    (k : String) (ts : List Table) → NoneFreeChain ts → get_from k ts ≡ lookup k (merge_tables ts)
unfolding get_from merge_tables
get_from-merge k [] h = unfold lookup in refl
get_from-merge k (t ∷ ts) h = ground (
  arith,
  get_from-merge k ts h.1,
  lookup-update_table k (merge_tables ts) t,
  first_set-lookup k t (get_from k ts) h.0,
)

-- Where no table of the chain stores `None`, reading through the parents gives what the merged
-- dictionary stores for the key, an empty text, 0 or False included, and nothing, the empty list of
-- the source, where it has none.
pub getitem-get_merged_dict :
    (env : Environment) (k : String)
    → NoneFreeChain (env.table ∷ env.parents)
    → getitem env k ≡ lookup k (get_merged_dict env)
unfolding getitem get_merged_dict
getitem-get_merged_dict env k h = get_from-merge k (env.table ∷ env.parents) h
