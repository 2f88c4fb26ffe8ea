-- ===== src/TaskGroup/Progress.antt =====
-- Task.py: an order between groups that has no cycle is never reported as circular.
use meguro.Base.{
  ℕ, String, ◌<◌, ◌≤◌, ◌≡◌, ◌≢◌, refl, List, [], ◌∷◌, ◌++◌, Bool, true, false, ◌&&◌, ◌||◌, ◌==◌,
  nat_eq, nat_eqb_iff, arith, lookup, mem, Bool-cases, inl, inr, dec_le, All,
}
use meguro.TaskGroup.{
  Task, Groups, Orders, TaskGroup, ok, get_list, blocked, unconnected, collect, delete_all,
  tasks_in_parallel, is_nil,
}
use meguro.TaskGroup.Batch.{keys}

-- The order puts group `a` before group `b`.
abbrev pub edge : ℕ → ℕ → Orders → Bool
edge a b [] = false
edge a b ((k, bs) ∷ order) = (k == a && mem b bs) || edge a b order

blocked-edge : (u : ℕ) (order : Orders) → blocked order u ≡ true → (a : ℕ) × (edge a u order ≡ true)
unfolding blocked
blocked-edge u [] h = cc
blocked-edge u ((k, bs) ∷ order) h = elim (Bool-cases (mem u bs)) [
  | inl e ↦ (k, ground (arith, e, nat_eqb_iff k k))
  | inr e ↦
      let (a, later) = blocked-edge u order (ground (arith, e, h)) in (a, ground (arith, later))
]

-- A group whose rank no other undercuts.
lowest :
    (rank : ℕ → ℕ) (gs : Groups)
    → gs ≢ []
    → (k : ℕ) × (mem k (keys gs) ≡ true) × ((j : ℕ) → mem j (keys gs) ≡ true → rank k ≤ rank j)
lowest rank [] h = absurd (h refl)
lowest rank ((k, ts) ∷ []) h =
    (k, ground (arith, nat_eqb_iff k k), λ j m. ground (arith, nat_eqb_iff j k))
lowest rank ((k, ts) ∷ (i, us) ∷ gs) h =
    let (low, there, least) = lowest rank ((i, us) ∷ gs) (cc) in
    elim (dec_le (rank k) (rank low)) [
      | yes p ↦
          (k, ground (arith, nat_eqb_iff k k), λ j m. ground (arith, nat_eqb_iff j k, least j))
      | no p ↦ (low, ground (arith, there), λ j m. ground (arith, nat_eqb_iff j k, least j))
    ]

mem-unconnected_free :
    (k : ℕ) (order : Orders) (gs : Groups)
    → mem k (keys gs) ≡ true
    → blocked order k ≡ false
    → mem k (unconnected order gs) ≡ true
unfolding unconnected
mem-unconnected_free k order [] m h = m
mem-unconnected_free k order ((j, ts) ∷ gs) m h =
    ground (arith, mem-unconnected_free k order gs, nat_eqb_iff k j)

-- Every group holds a task.
abbrev pub Inhabited : Groups → Type 0
Inhabited gs = All (λ (g : ℕ × List Task). is_nil g.1 ≡ false) gs

get_list-Inhabited :
    (k : ℕ) (gs : Groups) → Inhabited gs → mem k (keys gs) ≡ true → is_nil (get_list k gs) ≡ false
unfolding lookup
get_list-Inhabited k [] h m = cc
get_list-Inhabited k ((j, ts) ∷ gs) h m =
    ground (arith, get_list-Inhabited k gs h.1, nat_eqb_iff k j, nat_eqb_iff j k, h.0)

is_nil-append : (xs ys : List Task) → is_nil (xs ++ ys) ≡ (is_nil xs && is_nil ys)
is_nil-append [] ys = refl
is_nil-append (x ∷ xs) ys = refl

collect-Inhabited :
    (k : ℕ) (ys : List ℕ) (gs : Groups)
    → mem k ys ≡ true
    → is_nil (get_list k gs) ≡ false
    → is_nil (collect gs ys) ≡ false
unfolding collect
collect-Inhabited k [] gs m h = cc
collect-Inhabited k (y ∷ ys) gs m h = ground (
  arith,
  collect-Inhabited k ys gs,
  is_nil-append (get_list y gs) (collect gs ys),
  nat_eqb_iff k y,
)

-- Each edge leads from a group that is there to one of higher rank.
abbrev pub IsRanked : (ℕ → ℕ) → Groups → Orders → Type 0
IsRanked rank gs order =
    (a b : ℕ) → edge a b order ≡ true → (mem a (keys gs) ≡ true) × (rank a < rank b)

free_group :
    (rank : ℕ → ℕ) (gs : Groups) (order : Orders)
    → gs ≢ []
    → IsRanked rank gs order
    → (k : ℕ) × (mem k (keys gs) ≡ true) × (blocked order k ≡ false)
free_group rank gs order ne ranked =
    let (k, there, least) = lowest rank gs ne in
    elim (Bool-cases (blocked order k)) [
      | inr free ↦ (k, there, free)
      | inl held ↦
          let (a, e) = blocked-edge k order held in
          let (present, less) = ranked a k e in absurd (omega (arith, least a present, less))
    ]

module _ (hash : String × List String × List String × List String × List String × ℕ → ℕ) where
  -- A prepared group that still holds groups of tasks, none of them empty, in an order that has a
  -- ranking, gives out a batch with a task in it: it neither ends nor reports a circular constraint.
  pub tasks_in_parallel_progress :
      (rank : ℕ → ℕ) (g : TaskGroup)
      → g.ready ≡ true
      → g.cstr_groups ≢ []
      → Inhabited g.cstr_groups
      → IsRanked rank g.cstr_groups g.cstr_order
      → (batch : List Task) × (g' : TaskGroup) × (tasks_in_parallel hash g ≡ ok (batch, g'))
        × (is_nil batch ≡ false)
  unfolding tasks_in_parallel
  tasks_in_parallel_progress rank g r ne full ranked =
      let gs = g.cstr_groups in
      let (k, there, free) = free_group rank gs g.cstr_order ne ranked in
      let given =
        collect-Inhabited k (unconnected g.cstr_order gs) gs
          (mem-unconnected_free k g.cstr_order gs there free)
          (get_list-Inhabited k gs full there) in
      (
        collect gs (unconnected g.cstr_order gs),
        record g {
          cstr_order = delete_all (unconnected g.cstr_order gs) g.cstr_order;
          cstr_groups = delete_all (unconnected g.cstr_order gs) gs;
        },
        ground (arith, r, given),
        given,
      )
