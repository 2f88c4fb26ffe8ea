-- ===== src/Preproc/Parser/Tests.antt =====
-- preproc.py: the scan of a small source, and the theorems on it at concrete lines.
use meguro.Base.{
  string_eq, ℕ, String, List, [], ◌∷◌, ◌++◌, none, some, Bool, true, false, ◌≡◌, refl, subst, ◌⊎◌,
  length, lookup, insert, ◌==◌, arith, if◌then◌else◌, ◌<◌,
}
use meguro.Preproc.Token.{Result, ok, err, preproc, ident}
use meguro.Preproc.Macro.{raw}
use meguro.Preproc.Scan.{
  Line, Lexer, Files, Reading, if_line, ifndef_line, else_line, endif_line, include_line,
  define_line, lines_read, io_error, is_moc, extract_include,
}
use meguro.Preproc.Parser.{
  CParser, accepted, ignored, dead, run, start, turn, process_line, addlines, tryfind, found_at,
  on_include, on_define, on_endif,
}
use meguro.Preproc.Parser.Blocks.{balanced, run-dead_block, run-include_guard, run-else}
use meguro.Preproc.Parser.Total.{pops, IsReadable, start_total}

-- A line is its one token, its macro and its quoted include.
abbrev lexer : Lexer
lexer = record {
  tokenize = λ s. ident s ∷ [];
  looks_like_fun = λ s. false;
  macro_name = λ s. some s;
  pragma_once = λ s. s == "once";
  include_form = λ s. some ("\"", s);
}

abbrev header : List Line
header = (ifndef_line, "B_H") ∷ (define_line, "B_H") ∷ (include_line, "c.h") ∷ (endif_line, "") ∷ []

abbrev sources : String → Reading
sources path =
    if path == "a.c"
    then lines_read ((include_line, "b.h") ∷ (include_line, "b.h") ∷ [])
    else if path == "b.h"
    then lines_read header
    else io_error

abbrev files : Files String
files = record {
  find_resource = λ folder name. if name == "c.h" then none else some name;
  parent = λ node. "src";
  abspath = λ node. node;
  filter_comments = sources;
}

abbrev fresh : CParser String
fresh = record {
  lines = [];
  defs = [];
  state = [];
  count_files = 0;
  currentnode_stack = [];
  nodepaths = [];
  nodes = [];
  names = [];
  curfile = "";
  ban_includes = [];
  parse_cache = [];
}

abbrev nodes_of : Result (CParser String) → List String × List String
nodes_of (ok p) = (p.nodes, p.names)
nodes_of (err e) = ([], [])

-- The guarded header is added twice and looked through once; what it includes is not found.
scan_test : nodes_of (start files lexer 9 30 [] "a.c" fresh) ≡ ("b.h" ∷ "b.h" ∷ [], "c.h" ∷ [])
unfolding start run turn process_line addlines tryfind found_at is_moc on_include on_define on_endif
    dead extract_include insert lookup
scan_test = refl

IsReadable-if :
    (size : ℕ) (b : Bool) (m : List Line) (r : Reading) (l : List Line)
    → (pops m ≡ 0) × (length m < size)
    → (r ≡ lines_read l → (pops l ≡ 0) × (length l < size))
    → (if b then lines_read m else r) ≡ lines_read l
    → (pops l ≡ 0) × (length l < size)
IsReadable-if size true m r l h k e =
    let eq : m ≡ l = cc in subst (λ x. (pops x ≡ 0) × (length x < size)) eq h
IsReadable-if size false m r l h k e = k e

files-IsReadable : IsReadable files 5
unfolding pops
files-IsReadable path l e =
    IsReadable-if 5 (path == "a.c") _ _ l (refl, omega arith)
      (IsReadable-if 5 (path == "b.h") _ _ l (refl, omega arith) (λ h. cc)) e

start_total_example :
    (start files lexer 9 150007 ("X" ∷ []) "a.c" fresh ≡ err preproc)
    ⊎ ((q : CParser String) × ((start files lexer 9 150007 ("X" ∷ []) "a.c" fresh ≡ ok q)
          × (q.lines ≡ [])))
unfolding pops lookup
start_total_example =
    start_total files 5 lexer 9 150006 ("X" ∷ []) "a.c" fresh files-IsReadable (λ path l e. cc)
      (omega arith) (omega arith)

abbrev inside : List Line
inside =
    (if_line, "A")
    ∷ (include_line, "x.h")
    ∷ (else_line, "")
    ∷ (define_line, "B")
    ∷ (endif_line, "")
    ∷ []

run-dead_block_example :
    run files lexer 9 8
      (record fresh { lines = inside ++ (endif_line, "") ∷ []; state = ignored ∷ [] })
    ≡ run files lexer 9 3 (record fresh { lines = (endif_line, "") ∷ []; state = ignored ∷ [] })
unfolding balanced dead
run-dead_block_example =
    run-dead_block files lexer 9 3 inside ((endif_line, "") ∷ [])
      (record fresh { state = ignored ∷ [] }) refl refl

run-include_guard_example :
    run files lexer 9 10 (record fresh {
      lines = (ifndef_line, "B_H") ∷ inside ++ (endif_line, "") ∷ (include_line, "c.h") ∷ [];
      defs = ("B_H", raw "B_H") ∷ [];
    })
    ≡ run files lexer 9 3
        (record fresh { lines = (include_line, "c.h") ∷ []; defs = ("B_H", raw "B_H") ∷ [] })
unfolding balanced lookup
run-include_guard_example =
    run-include_guard files lexer 9 3 "B_H" "" "B_H" (raw "B_H") inside ((include_line, "c.h") ∷ [])
      (record fresh { defs = ("B_H", raw "B_H") ∷ [] }) refl refl refl

run-else_example :
    (run files lexer 9 10 (record fresh {
      lines = (else_line, "") ∷ inside ++ (endif_line, "") ∷ (include_line, "c.h") ∷ [];
      state = accepted ∷ [];
    })
      ≡ run files lexer 9 3 (record fresh { lines = (include_line, "c.h") ∷ []; state = [] }))
    × (run files lexer 9 5 (record fresh {
      lines = (define_line, "C") ∷ (else_line, "") ∷ inside;
      state = ignored ∷ [];
    })
        ≡ run files lexer 9 3 (record fresh { lines = inside; state = accepted ∷ [] }))
unfolding balanced
run-else_example =
    run-else files lexer 9 3 "" "" ((define_line, "C") ∷ []) inside ((include_line, "c.h") ∷ []) []
      fresh (refl, refl)
