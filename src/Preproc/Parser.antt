-- ===== src/Preproc/Parser.antt =====
-- preproc.py: `c_parser`, the walk through the lines of a file and of the files that it includes.
pub mod Blocks
pub mod Walk
pub mod Total
pub mod Tests
use meguro.Base.{
  ℕ, zero, suc, ◌+◌, String, List, [], ◌∷◌, ◌++◌, Option, none, some, Bool, true, false, ◌||◌, ltb,
  if◌then◌else◌, ◌==◌, string_eq, mem, lookup, insert, delete,
}
use meguro.Preproc.Token.{Error, Result, ok, err, preproc, index, out_of_fuel}
use meguro.Preproc.Macro.{Defs, raw}
use meguro.Preproc.Expand.{eval_macro}
use meguro.Preproc.Scan.{
  Keyword, Line, Lexer, Files, if_line, ifdef_line, ifndef_line, elif_line, else_line, endif_line,
  include_line, import_line, define_line, undef_line, pragma_line, pop_file, other, lines_read,
  io_error, failed, is_moc, extract_include,
}

pub data Branch : Type 0 where
  accepted ignored undefined skipped : Branch

-- `state` and `currentnode_stack` have their last entry first.
pub record CParser (Node : Type 0) : Type 0 where
  pub lines : List Line
  pub defs : Defs
  pub state : List Branch
  pub count_files : ℕ
  pub currentnode_stack : List Node
  pub nodepaths : List Node
  pub nodes : List Node
  pub names : List String
  pub curfile : String
  pub ban_includes : List String
  pub parse_cache : List (String × List Line)

-- `skipped in self.state or ignored in self.state`
unfoldable pub dead : List Branch → Bool
dead [] = false
dead (ignored ∷ s) = true
dead (skipped ∷ s) = true
dead (accepted ∷ s) = dead s
dead (undefined ∷ s) = dead s

-- `state[-1] = b`
abbrev pub set_top : Branch → List Branch → List Branch
set_top b [] = []
set_top b (_ ∷ s) = b ∷ s

abbrev pub is_some {ℓ} : {A : Type ℓ} → Option A → Bool
is_some none = false
is_some (some _) = true

abbrev pub branch_if : Bool → Branch
branch_if b = if b then accepted else ignored

-- The parser as an operation leaves it, with the exception that it raises, if any.
abbrev pub After : Type 0 → Type 0
After Node = CParser Node × Option Error

module _ {Node : Type 0} where
  abbrev pub push : CParser Node → CParser Node
  push p = record p { state = undefined ∷ p.state }

  abbrev pub decide : Branch → CParser Node → CParser Node
  decide b p = record p { state = set_top b p.state }

  -- Lines of a branch that is not taken are passed over.
  abbrev pub guarded : CParser Node → After Node → After Node
  guarded p act = if dead p.state then (p, none) else act

  abbrev pub first_found : (Node → Option Node) → List Node → Option Node
  first_found find [] = none
  first_found find (n ∷ ns) = elim (find n) [ some m ↦ some m | none ↦ first_found find ns ]

  module _ (files : Files Node) where
    unfoldable pub addlines : Node → CParser Node → After Node
    addlines node p₀ =
        let p : CParser Node = record p₀ {
          currentnode_stack = files.parent node ∷ p₀.currentnode_stack;
          count_files = p₀.count_files + 1;
        } in
        let filepath = files.abspath node in
        if ltb 30000 p.count_files
        then (p, some preproc)
        else (elim (lookup filepath p.parse_cache) [
          | some lns ↦ (record p { lines = lns ++ p.lines }, none)
          | none ↦ elim (files.filter_comments filepath) [
            | lines_read l ↦ (
              record p {
                parse_cache = insert filepath (l ++ (pop_file, "") ∷ []) p.parse_cache;
                lines = (l ++ (pop_file, "") ∷ []) ++ p.lines;
              },
              none,
            )
            | io_error ↦ (p, some preproc)
            | failed ↦ (p, none)
          ]
        ])

    unfoldable pub found_at : Node → String → CParser Node → After Node
    unfolding addlines is_moc
    found_at found filename p =
        let q : CParser Node = record p { nodes = p.nodes ++ found ∷ [] } in
        if is_moc filename then (q, none) else addlines found q

    unfoldable pub tryfind : String → CParser Node → After Node
    unfolding found_at
    tryfind filename p₀ =
        let p : CParser Node = record p₀ { curfile = filename } in
        elim p.currentnode_stack [
          | [] ↦ (p, some index)
          | here ∷ _ ↦
              elim (first_found (λ n. files.find_resource n filename) (here ∷ p.nodepaths)) [
                | some found ↦ found_at found filename p
                | none ↦ (
                  record p {
                    names = if mem filename p.names then p.names else p.names ++ filename ∷ [];
                  },
                  none,
                )
              ]
        ]

    module _ (lexer : Lexer) (fuel : ℕ) where
      -- Whether the line names a macro that is defined.
      abbrev pub names_macro : String → Defs → Bool
      names_macro line defs = elim (lexer.macro_name line) [
        | none ↦ false
        | some name ↦ is_some (lookup name defs)
      ]

      -- The condition of `if` and `elif`. Macros that it took apart before it failed are taken apart again
      -- when they are used next.
      unfoldable pub on_condition : (Bool → Branch) → String → CParser Node → After Node
      unfolding eval_macro
      on_condition branch line p =
          elim (eval_macro lexer.tokenize lexer.looks_like_fun fuel (lexer.tokenize line) p.defs) [
            | err e ↦ (p, some e)
            | ok r ↦ (decide (branch r.0) (record p { defs = r.1 }), none)
          ]

      unfoldable pub on_elif : List Branch → String → CParser Node → After Node
      unfolding on_condition
      on_elif [] line p = (p, some index)
      on_elif (accepted ∷ _) line p = (decide skipped p, none)
      on_elif (ignored ∷ _) line p = on_condition branch_if line p
      on_elif (_ ∷ _) line p = (p, none)

      unfoldable pub on_else : List Branch → CParser Node → After Node
      on_else [] p = (p, some index)
      on_else (accepted ∷ _) p = (decide skipped p, none)
      on_else (ignored ∷ _) p = (decide accepted p, none)
      on_else (_ ∷ _) p = (p, none)

      unfoldable pub on_endif : List Branch → CParser Node → After Node
      on_endif [] p = (p, some index)
      on_endif (_ ∷ s) p = (record p { state = s }, none)

      unfoldable pub on_include : Bool → String → CParser Node → After Node
      unfolding extract_include tryfind
      on_include import line p = elim (extract_include lexer fuel line p.defs) [
        | err e ↦ (p, some e)
        | ok r ↦
            let q : CParser Node = record p { defs = r.1 } in
            let inc = r.0.1 in
            if mem inc q.ban_includes
            then (q, none)
            else tryfind inc
                (if import then record q { ban_includes = q.ban_includes ++ inc ∷ [] } else q)
      ]

      unfoldable pub on_define : String → CParser Node → After Node
      on_define line p = elim (lexer.macro_name line) [
        | none ↦ (p, some preproc)
        | some name ↦ (record p { defs = insert name (raw line) p.defs }, none)
      ]

      unfoldable pub on_undef : String → CParser Node → After Node
      on_undef line p = elim (lexer.macro_name line) [
        | none ↦ (p, none)
        | some name ↦ (
          if is_some (lookup name p.defs) then record p { defs = delete name p.defs } else p,
          none,
        )
      ]

      unfoldable pub on_pragma : String → CParser Node → After Node
      on_pragma line p = (
        if lexer.pragma_once line
            then record p { ban_includes = p.ban_includes ++ p.curfile ∷ [] }
            else p,
        none,
      )

      unfoldable pub process_line : Keyword → String → CParser Node → After Node
      unfolding on_condition on_elif on_else on_endif on_include on_define on_undef on_pragma
      process_line if_line line p = guarded (push p) (on_condition branch_if line (push p))
      process_line ifdef_line line p =
          guarded (push p) (decide (branch_if (names_macro line p.defs)) (push p), none)
      process_line ifndef_line line p =
          guarded (push p)
            (decide (if names_macro line p.defs then ignored else accepted) (push p), none)
      process_line endif_line line p = on_endif p.state p
      process_line elif_line line p = on_elif p.state line p
      process_line else_line line p = on_else p.state p
      process_line include_line line p = guarded p (on_include false line p)
      process_line import_line line p = guarded p (on_include true line p)
      process_line define_line line p = guarded p (on_define line p)
      process_line undef_line line p = guarded p (on_undef line p)
      process_line pragma_line line p = guarded p (on_pragma line p)
      process_line pop_file line p = guarded p (p, none)
      process_line other line p = guarded p (p, none)

      -- One turn of the loop of `start`, before the turns that follow. What a line raises is dropped, but a
      -- pop from an empty stack is not.
      unfoldable pub turn :
          (CParser Node → Result (CParser Node)) → List Line → CParser Node → Result (CParser Node)
      unfolding process_line
      turn again [] p = ok p
      turn again ((pop_file, line) ∷ rest) p = elim p.currentnode_stack [
        | [] ↦ err index
        | _ ∷ ns ↦ again (record p { lines = rest; currentnode_stack = ns })
      ]
      turn again ((kind, line) ∷ rest) p =
          again (process_line kind line (record p { lines = rest })).0

      unfoldable pub run : ℕ → CParser Node → Result (CParser Node)
      unfolding turn
      run zero p = err out_of_fuel
      run (suc f) p = turn (run f) p.lines p

      abbrev pub def_lines : List String → List Line
      def_lines [] = []
      def_lines (x ∷ xs) = (define_line, x) ∷ def_lines xs

      unfoldable pub start : ℕ → List String → Node → CParser Node → Result (CParser Node)
      unfolding addlines run
      start f deflines node p =
          let q = addlines node p in
          elim q.1 [
            | some e ↦ err e
            | none ↦ run f (record q.0 { lines = def_lines deflines ++ q.0.lines })
          ]
