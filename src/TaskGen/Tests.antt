-- ===== src/TaskGen/Tests.antt =====
-- TaskGen.py: the order of some methods, and the theorems at them.
use meguro.Base.{
  string_eq, ℕ, String, List, [], ◌∷◌, some, true, false, ◌≡◌, refl, mem, lookup, insert, delete,
  ◌⊎◌, arith, if◌then◌else◌, ◌==◌,
}
use meguro.TaskGen.{
  Table, union, precede, declare_order, before, after, methods, apply, meths, cycle, restrict,
  waits_for, disconnected, release, sort, sort_methods, bind_feature, feature,
}
use meguro.TaskGen.Counts.{times}
use meguro.TaskGen.Order.{IsOrdered, IsRanked}
use meguro.TaskGen.Tables.{IsTable, decorators-IsTable, apply_lem}
use meguro.TaskGen.Posting.{
  run_methods, remove, call, exec_rule, run_methods-exec_rule, run_methods-sequence_order,
}

-- exec_rule and link wait for nothing; apply_core runs behind exec_rule, and link behind apply_core.
abbrev prec : Table
prec = ("apply_core", "exec_rule" ∷ []) ∷ ("link", "apply_core" ∷ []) ∷ []

abbrev traits : Table
traits = ("*", "apply_core" ∷ "exec_rule" ∷ []) ∷ []

prec_test :
    before ("apply_core" ∷ []) "exec_rule" (after ("apply_core" ∷ []) "link" [])
    ≡ ("link", "apply_core" ∷ []) ∷ ("apply_core", "exec_rule" ∷ []) ∷ []
unfolding before after precede lookup insert
prec_test = refl

traits_test : feature ("*" ∷ []) "exec_rule" (bind_feature "*" ("apply_core" ∷ []) []) ≡ traits
unfolding feature bind_feature union lookup insert
traits_test = refl

order_test :
    apply ("link" ∷ []) [] traits [] prec ≡ meths ("exec_rule" ∷ "apply_core" ∷ "link" ∷ [])
unfolding apply sort_methods methods union restrict disconnected waits_for sort release lookup
    delete
order_test = refl

cycle_test :
    apply [] [] traits
      (("exec_rule", "apply_core" ∷ []) ∷ ("apply_core", "exec_rule" ∷ []) ∷ [])
      prec
    ≡ cycle (("exec_rule", "apply_core" ∷ []) ∷ ("apply_core", "exec_rule" ∷ []) ∷ [])
unfolding apply sort_methods methods union restrict disconnected waits_for sort release lookup
    delete
cycle_test = refl

empty-IsTable : IsTable []
unfolding times lookup
empty-IsTable = (tt, λ k x. omega arith)

prec-IsTable : IsTable prec
unfolding declare_order precede lookup insert
prec-IsTable =
    (decorators-IsTable ("exec_rule" ∷ "apply_core" ∷ "link" ∷ []) "a" [] empty-IsTable).0

decorators-IsTable_example :
    IsTable (declare_order ("a" ∷ "b" ∷ []) prec)
    × (IsTable (before ("a" ∷ "b" ∷ []) "link" prec) × IsTable (after ("a" ∷ "b" ∷ []) "link" prec))
decorators-IsTable_example = decorators-IsTable ("a" ∷ "b" ∷ []) "link" prec prec-IsTable

apply_lem_example :
    ((out : List String) × ((apply ("link" ∷ []) [] traits [] prec ≡ meths out)
        × (((x : String)
              → times x out
                ≡ (if mem x (methods traits (union [] ("link" ∷ [])) ("*" ∷ [])) then 1 else 0))
            × IsOrdered (methods traits (union [] ("link" ∷ [])) ("*" ∷ [])) prec out)))
    ⊎ ((p : Table) × ((apply ("link" ∷ []) [] traits [] prec ≡ cycle p)
          × ((rank : String → ℕ)
              → ¬ IsRanked (methods traits (union [] ("link" ∷ [])) ("*" ∷ [])) prec rank)))
apply_lem_example = apply_lem ("link" ∷ []) [] traits [] prec empty-IsTable prec-IsTable

-- What `apply_copy` of Tools/misc.py does to the list.
abbrev tools : String → List String → List String
tools x l = if x == "apply_copy" then remove "apply_core" l else l

run_methods-exec_rule_example :
    run_methods tools true 4 0 ("default_cc" ∷ "exec_rule" ∷ "apply_core" ∷ "link" ∷ [])
    ≡ some ("default_cc" ∷ "exec_rule" ∷ "link" ∷ [])
unfolding remove call
run_methods-exec_rule_example =
    run_methods-exec_rule tools 0 ("default_cc" ∷ []) ("apply_core" ∷ "link" ∷ [])
      ((refl, λ l. refl), tt) ((refl, λ l. refl), ((refl, λ l. refl), tt)) refl

run_methods-sequence_order_example :
    run_methods tools false 6 0 ("exec_rule" ∷ "sequence_order" ∷ "apply_core" ∷ "link" ∷ [])
    ≡ some ("exec_rule" ∷ "sequence_order" ∷ "apply_core" ∷ "link" ∷ "sequence_order" ∷ [])
unfolding call exec_rule
run_methods-sequence_order_example =
    run_methods-sequence_order tools 0 ("exec_rule" ∷ []) ("link" ∷ []) "apply_core"
      ((refl, λ l. refl), tt) ((refl, λ l. refl), ((refl, λ l. refl), tt))
