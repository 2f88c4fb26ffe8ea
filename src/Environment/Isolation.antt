-- ===== src/Environment/Isolation.antt =====
-- Environment.py: what `append_value`, `prepend_value` and `append_unique` write and leave alone.
use meguro.Base.{
  ℕ, ◌<◌, String, ◌≡◌, refl, ◌≢◌, List, [], ◌∷◌, ◌++◌, Option, none, some, false, ◌==◌, nat_eq,
  string_eq, arith, lookup, lookup-insert, lookup-insert_ne, lookup-insert_self, Bool-cases, inl,
  inr,
}
use meguro.Environment.{
  Scalar, Value, Table, Heap, Environment, Arg, scalar, list, nothing, get_from, items_of,
  inherited, first_set, list_for_modification, append_value, prepend_value, append_unique,
  add_unique, arg_items, one, many,
}

-- Every list that a value, a table or a chain of tables refers to satisfies `P`.
abbrev pub RefOk : (ℕ → Type 0) → Value → Type 0
RefOk P (scalar s) = Unit
RefOk P (list r) = P r

abbrev pub TableRefs : (ℕ → Type 0) → Table → Type 0
TableRefs P [] = Unit
TableRefs P ((k, v) ∷ t) = RefOk P v × TableRefs P t

abbrev pub ChainRefs : (ℕ → Type 0) → List Table → Type 0
ChainRefs P [] = Unit
ChainRefs P (t ∷ ts) = TableRefs P t × ChainRefs P ts

abbrev FoundOk : (ℕ → Type 0) → Option Value → Type 0
FoundOk P none = Unit
FoundOk P (some v) = RefOk P v

lookup-FoundOk : (P : ℕ → Type 0) (k : String) (t : Table) → TableRefs P t → FoundOk P (lookup k t)
unfolding lookup
lookup-FoundOk P k [] h = tt
lookup-FoundOk P k ((j, v) ∷ t) h = elim (Bool-cases (j == k)) [
  | inl e ↦ rw e h.0
  | inr e ↦ rw e (lookup-FoundOk P k t h.1)
]

first_set-FoundOk :
    (P : ℕ → Type 0) (o rest : Option Value)
    → FoundOk P o
    → FoundOk P rest
    → FoundOk P (first_set o rest)
unfolding first_set
first_set-FoundOk P none rest h k = k
first_set-FoundOk P (some (list r)) rest h k = h
first_set-FoundOk P (some (scalar nothing)) rest h k = k
first_set-FoundOk P (some (scalar _)) rest h k = tt

get_from-FoundOk :
    (P : ℕ → Type 0) (k : String) (ts : List Table) → ChainRefs P ts → FoundOk P (get_from k ts)
unfolding get_from
get_from-FoundOk P k [] h = tt
get_from-FoundOk P k (t ∷ ts) h =
    first_set-FoundOk P (lookup k t) (get_from k ts) (lookup-FoundOk P k t h.0)
      (get_from-FoundOk P k ts h.1)

-- A chain is read alike in two heaps that agree on what it refers to.
inherited-agree :
    (P : ℕ → Type 0) (h h' : Heap) (k : String) (ts : List Table)
    → ChainRefs P ts
    → ((r : ℕ) → P r → h'.cells r ≡ h.cells r)
    → inherited h' ts k ≡ inherited h ts k
unfolding inherited
inherited-agree P h h' k ts refs agree = step (get_from k ts) (get_from-FoundOk P k ts refs)
  where
    step :
        (o : Option Value)
        → FoundOk P o
        → (elim o [ some v ↦ items_of h' v | none ↦ [] ])
          ≡ (elim o [ some v ↦ items_of h v | none ↦ [] ])
    step none ok = refl
    step (some (scalar s)) ok = refl
    step (some (list r)) ok = agree r ok

-- The reference that the own table holds for `k` is not `r`.
abbrev pub OwnRefNot : ℕ → Option Value → Type 0
OwnRefNot r (some (list s)) = r ≢ s
OwnRefNot r _ = Unit

abbrev heap_of : Heap × Environment → Heap
heap_of p = p.0

module _ (h : Heap) (env : Environment) (k : String) (value : Arg) where
  append_value-agree :
      (r : ℕ)
      → r < h.next
      → OwnRefNot r (lookup k env.table)
      → (append_value h env k value).0.cells r ≡ h.cells r
  unfolding append_value list_for_modification
  append_value-agree r old own = ground arith

  append_unique-agree :
      (r : ℕ)
      → r < h.next
      → OwnRefNot r (lookup k env.table)
      → (append_unique h env k value).0.cells r ≡ h.cells r
  unfolding append_unique list_for_modification
  append_unique-agree r old own = ground arith

  prepend_value-agree :
      (r : ℕ)
      → r < h.next
      → OwnRefNot r (lookup k env.table)
      → (prepend_value h env k value).0.cells r ≡ h.cells r
  unfolding prepend_value list_for_modification
  prepend_value-agree r old own = ground arith

  -- References of the parents that the operations may not touch.
  abbrev pub Foreign : ℕ → Type 0
  Foreign r = (r < h.next) × OwnRefNot r (lookup k env.table)

-- Where every list of the parents stands in the heap and is not the very list that the own table
-- holds for the key, `append_value`, `prepend_value` and `append_unique` change nothing that the
-- parents give, for any key.
pub modification-parents :
    (h : Heap) (env : Environment) (k : String) (value : Arg) (j : String)
    → ChainRefs (Foreign h env k value) env.parents
    → (inherited (append_value h env k value).0 env.parents j ≡ inherited h env.parents j)
      × (inherited (prepend_value h env k value).0 env.parents j ≡ inherited h env.parents j)
      × (inherited (append_unique h env k value).0 env.parents j ≡ inherited h env.parents j)
modification-parents h env k value j refs = (
  inherited-agree (Foreign h env k value) h _ j env.parents refs
      (λ r p. append_value-agree h env k value r p.0 p.1),
  inherited-agree (Foreign h env k value) h _ j env.parents refs
      (λ r p. prepend_value-agree h env k value r p.0 p.1),
  inherited-agree (Foreign h env k value) h _ j env.parents refs
      (λ r p. append_unique-agree h env k value r p.0 p.1),
)

-- What the key stands for before a modification: the own entry, else what the parent gives.
abbrev pub listing : Heap → Environment → String → List Scalar
listing h env k = elim (lookup k env.table) [
  | some v ↦ items_of h v
  | none ↦ inherited h env.parents k
]

-- The list that a key stands for in the own table.
abbrev pub own_list : Heap × Environment → String → Option (List Scalar)
own_list (h, env) k = elim (lookup k env.table) [ some (list r) ↦ some (h.cells r) | _ ↦ none ]

list_for_modification-own :
    (h : Heap) (env : Environment) (k : String)
    → let (r, (h', env')) = list_for_modification h env k in
      (lookup k env'.table ≡ some (list r)) × (h'.cells r ≡ listing h env k)
unfolding list_for_modification
list_for_modification-own h env k = step (lookup k env.table) refl
  where
    step :
        (o : Option Value)
        → lookup k env.table ≡ o
        → let (r, (h', env')) = list_for_modification h env k in
          (lookup k env'.table ≡ some (list r)) × (h'.cells r ≡ listing h env k)
    step none e = (rw (e, list_for_modification) (lookup-insert_self k _ env.table), ground arith)
    step (some (list r)) e =
        (rw (e, list_for_modification) (lookup-insert_self k _ env.table), ground arith)
    step (some (scalar x)) e =
        (rw (e, list_for_modification) (lookup-insert_self k _ env.table), ground arith)

-- After each modification the own table holds a list for the key: the one that the key stood for,
-- with the argument's items behind it, before it, or (those not yet there) behind it.
pub modification-listing :
    (h : Heap) (env : Environment) (k : String) (value : Arg)
    → (own_list (append_value h env k value) k ≡ some (listing h env k ++ arg_items value))
      × (own_list (prepend_value h env k value) k ≡ some (arg_items value ++ listing h env k))
      × (own_list (append_unique h env k value) k
          ≡ some (add_unique (listing h env k) (arg_items value)))
unfolding append_value prepend_value append_unique
modification-listing h env k (many xs) =
    let own = list_for_modification-own h env k in
    let (r, (h', env')) = list_for_modification h env k in
    (
      ground (arith, own),
      ground (arith, own, lookup-insert_self k (list h'.next) env'.table),
      ground (arith, own),
    )
modification-listing h env k (one x) =
    let own = list_for_modification-own h env k in
    (ground (arith, own), ground (arith, own), ground (arith, own))

list_for_modification-lookup_ne :
    (h : Heap) (env : Environment) (k j : String)
    → (k == j) ≡ false
    → lookup j (list_for_modification h env k).1.1.table ≡ lookup j env.table
unfolding list_for_modification
list_for_modification-lookup_ne h env k j ne = step (lookup k env.table) refl
  where
    step :
        (o : Option Value)
        → lookup k env.table ≡ o
        → lookup j (list_for_modification h env k).1.1.table ≡ lookup j env.table
    step none e = rw (e, list_for_modification) (lookup-insert_ne k j _ env.table ne)
    step (some (list r)) e = rw (e, list_for_modification) (lookup-insert_ne k j _ env.table ne)
    step (some (scalar x)) e = rw (e, list_for_modification) (lookup-insert_ne k j _ env.table ne)

-- The other keys of the own table keep their entries.
pub modification-lookup_ne :
    (h : Heap) (env : Environment) (k : String) (value : Arg) (j : String)
    → (k == j) ≡ false
    → (lookup j (append_value h env k value).1.table ≡ lookup j env.table)
      × (lookup j (prepend_value h env k value).1.table ≡ lookup j env.table)
      × (lookup j (append_unique h env k value).1.table ≡ lookup j env.table)
unfolding append_value prepend_value append_unique
modification-lookup_ne h env k (one x) j ne =
    let other = list_for_modification-lookup_ne h env k j ne in (other, other, other)
modification-lookup_ne h env k (many xs) j ne =
    let other = list_for_modification-lookup_ne h env k j ne in
    let (r, (h', env')) = list_for_modification h env k in
    (other, ground (arith, other, lookup-insert k j (list h'.next) env'.table), other)
