-- ===== src/TaskGen.antt =====
-- TaskGen.py: the methods of a task generator, what must run before what, and the order that `apply`
-- puts them in.
pub mod Counts
pub mod Order
pub mod Tables
pub mod Posting
pub mod Tests
use meguro.Base.{
  string_eq, ℕ, zero, suc, ◌+◌, String, List, [], ◌∷◌, ◌++◌, Option, none, some, Bool, true, false,
  not, ◌||◌, if◌then◌else◌, length, mem, lookup, insert, delete,
}

-- `prec`: for a method, those that must run before it. `traits`: for a feature, its methods.
abbrev pub Table : Type 0
Table = List (String × List String)

-- `d[k]` of a DefaultDict, with the entry that the reading makes left out.
abbrev pub entry : String → Table → List String
entry k d = elim (lookup k d) [ none ↦ [] | some l ↦ l ]

-- `set.update`
unfoldable pub union : List String → List String → List String
union s [] = s
union s (x ∷ l) = union (if mem x s then s else s ++ x ∷ []) l

-- `if not f1 in prec[f2]: prec[f2].append(f1)`
unfoldable pub precede : String → String → Table → Table
precede f1 f2 prec =
    if mem f1 (entry f2 prec) then prec else insert f2 (entry f2 prec ++ f1 ∷ []) prec

unfoldable pub declare_order : List String → Table → Table
unfolding precede
declare_order [] prec = prec
declare_order (f1 ∷ []) prec = prec
declare_order (f1 ∷ f2 ∷ k) prec = declare_order (f2 ∷ k) (precede f1 f2 prec)

-- The decorators, on the name of the function.
unfoldable pub before : List String → String → Table → Table
unfolding precede
before [] func prec = prec
before (fun_name ∷ k) func prec = before k func (precede func fun_name prec)

unfoldable pub after : List String → String → Table → Table
unfolding precede
after [] func prec = prec
after (fun_name ∷ k) func prec = after k func (precede fun_name func prec)

unfoldable pub bind_feature : String → List String → Table → Table
unfolding union
bind_feature name lst traits = insert name (union (entry name traits) lst) traits

unfoldable pub feature : List String → String → Table → Table
unfolding bind_feature
feature [] func traits = traits
feature (name ∷ k) func traits = feature k func (bind_feature name (func ∷ []) traits)

-- The methods of the generator and of its features.
unfoldable pub methods : Table → List String → List String → List String
unfolding union
methods traits keys [] = keys
methods traits keys (x ∷ features) = methods traits (union keys (entry x traits)) features

-- The entries of the table for the methods at hand.
unfoldable pub restrict : List String → Table → Table
restrict keys [] = []
restrict keys ((x, l) ∷ tbl) =
    let rest = restrict keys tbl in if mem x keys then (x, l) ∷ rest else rest

-- Whether some entry has the method in its list.
unfoldable pub waits_for : String → Table → Bool
waits_for a [] = false
waits_for a ((x, l) ∷ prec) = mem a l || waits_for a prec

-- `tmp`, whose last element comes first here.
unfoldable pub disconnected : List String → Table → List String → List String
unfolding waits_for
disconnected [] prec tmp = tmp
disconnected (a ∷ keys) prec tmp =
    disconnected keys prec (if waits_for a prec then tmp else a ∷ tmp)

unfoldable pub release : List String → Table → List String → List String
unfolding waits_for
release [] prec tmp = tmp
release (x ∷ nlst) prec tmp = release nlst prec (if waits_for x prec then tmp else x ∷ tmp)

-- The loop of the sort, with fuel. What is put at the end of `out` stands first here, so that the list
-- is the reversed one. `none` is fuel run out; what is left of `prec` comes with the result.
unfoldable pub sort :
    List String → ℕ → List String → Table → List String → Option (List String × Table)
unfolding release
sort keys zero tmp prec out = none
sort keys (suc f) [] prec out = some (out, prec)
sort keys (suc f) (e ∷ tmp) prec out = elim (lookup e prec) [
  | none ↦ sort keys f tmp prec (if mem e keys then e ∷ out else out)
  | some nlst ↦
      sort keys f (release nlst (delete e prec) tmp) (delete e prec)
        (if mem e keys then e ∷ out else out)
]

-- A WafError about a cycle, with the entries that are left, or the methods in order.
pub data Ordered : Type 0 where
  meths : List String → Ordered
  cycle : Table → Ordered
  out_of_fuel : Ordered

abbrev pub ordered : Option (List String × Table) → Ordered
ordered none = out_of_fuel
ordered (some (out, [])) = meths out
ordered (some (out, x ∷ prec)) = cycle (x ∷ prec)

abbrev pub size : Table → ℕ
size [] = 0
size ((x, l) ∷ prec) = length l + size prec

-- The order of `apply` on the set of methods: enough fuel for each method and each entry of the lists.
unfoldable pub sort_methods : List String → Table → Ordered
unfolding sort disconnected restrict
sort_methods keys prec_tbl =
    let prec = restrict keys prec_tbl in
    ordered (sort keys (suc (length keys + size prec)) (disconnected keys prec []) prec [])

-- `self.prec or task_gen.prec`
abbrev pub or_table : Table → Table → Table
or_table [] t = t
or_table (x ∷ s) t = x ∷ s

-- `apply`, up to the calls of the methods: the generator's own table if it has entries.
unfoldable pub apply : List String → List String → Table → Table → Table → Ordered
unfolding sort_methods methods union
apply own_meths features traits own_prec prec =
    sort_methods (methods traits (union [] own_meths) (features ++ "*" ∷ []))
      (or_table own_prec prec)
