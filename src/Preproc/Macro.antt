-- ===== src/Preproc/Macro.antt =====
-- preproc.py: macro definitions (`extract_macro`), and the texts and joins of tokens.
use Prim.Native.String.{◌++◌ as concat}
use meguro.Base.{
  ℕ, zero, suc, ◌/◌, ◌%◌, String, List, [], ◌∷◌, ◌++◌, Bool, true, false, ltb, if◌then◌else◌, ◌==◌,
  nat_eq, string_eq, insert,
}
use meguro.Base.Int.{ℤ, pos, negsuc, ◌+ℤ◌}
use meguro.Preproc.Token.{
  Val, Token, Result, int, text, tuple, num, op, ident, str, ok, err, preproc, type, index, ◌>>=◌,
}

-- An entry of `defs`: the text of a `#define` line, or what `extract_macro` made of it.
pub data Macro : Type 0 where
  raw : String → Macro
  object : List Token → Macro
  function : List (String × ℕ) → List Token → Macro

abbrev pub Defs : Type 0
Defs = List (String × Macro)

-- Where `extract_macro` stands in a parameter list.
pub data Prev : Type 0 where
  at_open at_ident at_comma : Prev

unfoldable pub params_loop : Prev → ℕ → List (String × ℕ) → List Token → Result Macro
params_loop prev pindex params [] = err index
params_loop at_open pindex params (ident v ∷ t) =
    params_loop at_ident (suc pindex) (insert v pindex params) t
params_loop at_open pindex params (op v ∷ t) =
    if v == ")" then ok (function params t) else err preproc
params_loop at_ident pindex params (op v ∷ t) =
    let more = params_loop at_comma pindex params t in
    if v == "," then more else if v == ")" then ok (function params t) else err preproc
params_loop at_comma pindex params (ident v ∷ t) =
    params_loop at_ident (suc pindex) (insert v pindex params) t
params_loop _ pindex params (x ∷ t) = err preproc

-- `extract_macro` on the tokens of the line; the flag says whether the line looks like a function.
unfoldable pub macro_of : Bool → List Token → Result Macro
unfolding params_loop
macro_of true [] = err index
macro_of true (n ∷ []) = err index
macro_of true (n ∷ op v ∷ t) = params_loop at_open 0 [] t
macro_of true (n ∷ x ∷ t) = err preproc
macro_of false [] = err index
macro_of false (n ∷ t) = ok (object t)

-- The decimal digits of a number, with fuel.
abbrev pub digit : ℕ → String
digit d =
    if d == 0
    then "0"
    else if d == 1
    then "1"
    else if d == 2
    then "2"
    else if d == 3
    then "3"
    else if d == 4
    then "4"
    else if d == 5
    then "5"
    else if d == 6
    then "6"
    else if d == 7
    then "7"
    else if d == 8
    then "8"
    else "9"

unfoldable pub show_ℕ : ℕ → ℕ → String
show_ℕ zero n = digit n
show_ℕ (suc f) n =
    let higher = show_ℕ f (n / 10) in if ltb n 10 then digit n else concat higher (digit (n % 10))

unfoldable pub show_ℤ : ℤ → String
unfolding show_ℕ
show_ℤ (pos n) = show_ℕ n n
show_ℤ (negsuc n) = concat "-" (show_ℕ (suc n) (suc n))

abbrev show_items : List ℤ → String
show_items [] = ")"
show_items (n ∷ []) = concat (show_ℤ n) ")"
show_items (n ∷ l) = concat (show_ℤ n) (concat ", " (show_items l))

-- `str(v2)`
abbrev pub token_text : Token → String
token_text (num (int n)) = show_ℤ n
token_text (num (text s)) = s
token_text (num (tuple l)) = concat "(" (show_items l)
token_text (op v) = v
token_text (ident v) = v
token_text (str v) = v

unfoldable pub stringize : List Token → String
unfolding show_ℤ
stringize [] = ""
stringize (t ∷ l) = concat (token_text t) (stringize l)

-- Python's `+` on the values of two NUM tokens.
unfoldable pub add_vals : Val → Val → Result Val
unfolding ◌+ℤ◌
add_vals (int a) (int b) = ok (int (a +ℤ b))
add_vals (text a) (text b) = ok (text (concat a b))
add_vals (tuple a) (tuple b) = ok (tuple (a ++ b))
add_vals _ _ = err type

unfoldable pub paste_tokens : Token → Token → Result Token
unfolding add_vals
paste_tokens (op a) (op b) = ok (op (concat a b))
paste_tokens (ident a) (ident b) = ok (ident (concat a b))
paste_tokens (ident a) (num (text b)) = ok (ident (concat a b))
paste_tokens (ident a) (num v) = err type
paste_tokens (num a) (num b) = do c ← add_vals a b; ok (num c)
paste_tokens _ _ = err preproc
