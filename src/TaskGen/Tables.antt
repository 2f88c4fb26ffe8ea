-- ===== src/TaskGen/Tables.antt =====
-- TaskGen.py: the tables that the decorators build, and `apply` on them.
use meguro.Base.{
  string_eq, ℕ, ◌+◌, ◌≤◌, String, List, [], ◌∷◌, ◌++◌, if◌then◌else◌, ◌==◌, ◌≡◌, refl, mem, lookup,
  insert, lookup-insert, Bool-cases, inl, inr, arith, ◌⊎◌,
}
use meguro.TaskGen.{
  Table, entry, union, precede, declare_order, before, after, methods, or_table, apply, meths,
  cycle,
}
use meguro.TaskGen.Counts.{times, lt-times→mem, IsDict}
use meguro.TaskGen.Order.{IsOrdered, IsRanked, sort_methods_lem}

-- One entry for a method, and no repetition in it.
abbrev pub IsTable : Table → Type 0
IsTable t = IsDict t × ((k x : String) → times x (entry k t) ≤ 1)

times-snoc :
    (x y : String) (l : List String) → times x (l ++ y ∷ []) ≡ times x l + (if x == y then 1 else 0)
unfolding times
times-snoc x y [] = ground arith
times-snoc x y (z ∷ l) = omega (arith, times-snoc x y l)

times-union : (x : String) (s l : List String) → times x s ≤ 1 → times x (union s l) ≤ 1
unfolding union
times-union x s [] h = h
times-union x s (y ∷ l) h =
    times-union x (if mem y s then s else s ++ y ∷ []) l
      (ground (arith, times-snoc x y s, lt-times→mem y s, string_eq.decides x y))

times-methods :
    (x : String) (traits : Table) (keys features : List String)
    → times x keys ≤ 1
    → times x (methods traits keys features) ≤ 1
unfolding methods
times-methods x traits keys [] h = h
times-methods x traits keys (f ∷ features) h =
    times-methods x traits (union keys (entry f traits)) features
      (times-union x keys (entry f traits) h)

entry-insert :
    (k j : String) (l : List String) (t : Table)
    → entry j (insert k l t) ≡ (if k == j then l else entry j t)
entry-insert k j l t = ground (arith, lookup-insert k j l t)

IsDict-insert : (k : String) (l : List String) (t : Table) → IsDict t → IsDict (insert k l t)
unfolding insert lookup
IsDict-insert k l [] h = (refl, tt)
IsDict-insert k l ((j, m) ∷ t) (a, h) = elim (Bool-cases (j == k)) [
  | inl b ↦ rw b (ground (arith, string_eq.decides j k), h)
  | inr b ↦ rw b (
    ground (arith, lookup-insert k j l t, string_eq.decides k j, string_eq.decides j k),
    IsDict-insert k l t h,
  )
]

precede-IsTable : (f1 f2 : String) (t : Table) → IsTable t → IsTable (precede f1 f2 t)
unfolding precede
precede-IsTable f1 f2 t (d, l) = elim (Bool-cases (mem f1 (entry f2 t))) [
  | inl m ↦ rw m (d, l)
  | inr m ↦ rw m (
    IsDict-insert f2 _ t d,
    λ k x. ground (
      arith,
      l k x,
      entry-insert f2 k (entry f2 t ++ f1 ∷ []) t,
      times-snoc x f1 (entry f2 t),
      l f2 x,
      lt-times→mem f1 (entry f2 t),
      string_eq.decides x f1,
    ),
  )
]

declare_order-IsTable : (l : List String) (t : Table) → IsTable t → IsTable (declare_order l t)
unfolding declare_order
declare_order-IsTable [] t h = h
declare_order-IsTable (f ∷ []) t h = h
declare_order-IsTable (f ∷ g ∷ l) t h =
    declare_order-IsTable (g ∷ l) (precede f g t) (precede-IsTable f g t h)

before-IsTable : (l : List String) (f : String) (t : Table) → IsTable t → IsTable (before l f t)
unfolding before
before-IsTable [] f t h = h
before-IsTable (g ∷ l) f t h = before-IsTable l f (precede f g t) (precede-IsTable f g t h)

after-IsTable : (l : List String) (f : String) (t : Table) → IsTable t → IsTable (after l f t)
unfolding after
after-IsTable [] f t h = h
after-IsTable (g ∷ l) f t h = after-IsTable l f (precede g f t) (precede-IsTable g f t h)

-- `declare_order` and the decorators `before` and `after` keep a table in which a method has one entry,
-- free of repetitions.
pub decorators-IsTable :
    (l : List String) (f : String) (t : Table)
    → IsTable t
    → IsTable (declare_order l t) × (IsTable (before l f t) × IsTable (after l f t))
decorators-IsTable l f t h =
    (declare_order-IsTable l t h, (before-IsTable l f t h, after-IsTable l f t h))

or_table-IsTable : (s t : Table) → IsTable s → IsTable t → IsTable (or_table s t)
or_table-IsTable [] t h k = k
or_table-IsTable (x ∷ s) t h k = h

-- Where each of the two tables has one entry for a method, free of repetitions: `apply` gives each
-- method of the generator and of its features once, each behind the methods that the table in force
-- says must run before it; or it reports a cycle, and then no ranking of those methods is in accord
-- with that table.
pub apply_lem :
    (own_meths features : List String) (traits own_prec prec : Table)
    → IsTable own_prec
    → IsTable prec
    → ((out : List String) × ((apply own_meths features traits own_prec prec ≡ meths out)
          × (((x : String)
                → times x out ≡ (
                    if mem x (methods traits (union [] own_meths) (features ++ "*" ∷ []))
                    then 1
                    else 0))
              × IsOrdered
                  (methods traits (union [] own_meths) (features ++ "*" ∷ []))
                  (or_table own_prec prec)
                  out)))
      ⊎ ((p : Table) × ((apply own_meths features traits own_prec prec ≡ cycle p)
            × ((rank : String → ℕ)
                → ¬ IsRanked
                    (methods traits (union [] own_meths) (features ++ "*" ∷ []))
                    (or_table own_prec prec)
                    rank)))
unfolding apply times
apply_lem own_meths features traits own_prec prec h k =
    let (d, l) = or_table-IsTable own_prec prec h k in
    sort_methods_lem (methods traits (union [] own_meths) (features ++ "*" ∷ []))
      (or_table own_prec prec) d l
      (λ x.
        times-methods x traits (union [] own_meths) (features ++ "*" ∷ [])
          (times-union x [] own_meths (omega arith)))
