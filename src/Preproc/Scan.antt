-- ===== src/Preproc/Scan.antt =====
-- preproc.py: what the scanner asks the lexer and the file tree, and `extract_include`.
use meguro.Base.{
  ℕ, String, List, [], ◌∷◌, Option, none, some, Bool, false, ◌&&◌, ◌||◌, if◌then◌else◌, ◌==◌,
  string_eq,
}
use meguro.Preproc.Token.{Token, Result, str, ok, err, preproc, value, ◌>>=◌}
use meguro.Preproc.Macro.{Defs, stringize, token_text}
use meguro.Preproc.Expand.{reduce_tokens}

-- The keyword of a line; `other` is one in capitals, which the pattern lets through.
pub data Keyword : Type 0 where
  if_line ifdef_line ifndef_line elif_line else_line endif_line : Keyword
  include_line import_line define_line undef_line pragma_line : Keyword
  pop_file other : Keyword

abbrev pub Line : Type 0
Line = Keyword × String

-- The module's regular expressions, as functions of a text: `tokenize`, `re_fun`, `re_mac`,
-- `re_pragma_once`, and the bracket and the name that `re_include` finds. A text on which `tokenize`
-- raises, for a literal that `parse_char` or `int` refuses, is left out.
pub record Lexer : Type 0 where
  pub tokenize : String → List Token
  pub looks_like_fun : String → Bool
  pub macro_name : String → Option String
  pub pragma_once : String → Bool
  pub include_form : String → Option (String × String)

-- What comes of reading a file: its lines, an IOError, or another exception.
pub data Reading : Type 0 where
  lines_read : List Line → Reading
  io_error failed : Reading

-- The nodes of the build's file tree, for the environment that is scanned with.
pub record Files (Node : Type 0) : Type 0 where
  pub find_resource : Node → String → Option Node
  pub parent : Node → Node
  pub abspath : Node → String
  pub filter_comments : String → Reading

-- `filename[-4:] == '.moc'`
unfoldable pub is_moc : String → Bool
is_moc String.[] = false
is_moc (String.◌∷◌ c s) = (String.◌∷◌ c s == ".moc") || is_moc s

abbrev last_text : Token → List Token → String
last_text t [] = token_text t
last_text t (u ∷ l) = last_text u l

-- `s.lstrip('<')`
unfoldable pub strip_left : String → String
strip_left String.[] = String.[]
strip_left (String.◌∷◌ c s) =
    let rest = strip_left s in if String.◌∷◌ c String.[] == "<" then rest else String.◌∷◌ c s

-- `s.rstrip('>')`
unfoldable pub strip_right : String → String
strip_right String.[] = String.[]
strip_right (String.◌∷◌ c s) =
    let rest = strip_right s in
    if rest == "" && String.◌∷◌ c String.[] == ">" then String.[] else String.◌∷◌ c rest

-- `(kind, inc) = s` for a text: it must have two characters.
unfoldable pub unpack : String → Result (String × String)
unpack (String.◌∷◌ a (String.◌∷◌ b String.[])) = ok (String.◌∷◌ a String.[], String.◌∷◌ b String.[])
unpack s = err value

unfoldable pub include_of : List Token → Result (String × String)
unfolding stringize strip_left strip_right unpack
include_of [] = err preproc
include_of (str s ∷ []) = ok ("\"", s)
include_of (t ∷ []) = err preproc
include_of (t ∷ u ∷ l) =
    if token_text t == "<" && last_text u l == ">"
    then unpack (strip_right (strip_left (stringize (t ∷ u ∷ l))))
    else err preproc

-- With the fuel for macros, and `process_line` taking the answer apart.
unfoldable pub extract_include : Lexer → ℕ → String → Defs → Result ((String × String) × Defs)
unfolding reduce_tokens include_of
extract_include lexer fuel txt defs = elim (lexer.include_form txt) [
  | some r ↦ ok (r, defs)
  | none ↦ (do
    r ← reduce_tokens lexer.tokenize lexer.looks_like_fun fuel (lexer.tokenize txt) defs
    i ← include_of r.0
    ok (i, r.1))
]
