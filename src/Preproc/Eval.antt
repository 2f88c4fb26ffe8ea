-- ===== src/Preproc/Eval.antt =====
-- preproc.py: the evaluation of `#if` conditions, `reduce_nums`, `get_num`, `get_term`.
pub mod Fuel
pub mod Chains
pub mod Tests
use Prim.Native.Nat.{pred}
use meguro.Base.{
  ℕ, zero, suc, ◌+◌, ◌*◌, String, List, [], ◌∷◌, Option, none, some, Bool, true, false, not, ◌&&◌,
  ◌||◌, leb, if◌then◌else◌, ◌==◌, nat_eq, string_eq, length, mem,
}
use meguro.Base.Int.{
  ℤ, pos, negsuc, neg, is_zero, of_bool, ◌+ℤ◌, ◌-ℤ◌, ◌*ℤ◌, ltb_ℤ, eqb_ℤ, div_ℤ, mod_ℤ, and_ℤ, or_ℤ,
  xor_ℤ, shl_ℤ, shr_ℤ,
}
use meguro.Preproc.Token.{
  Val, Token, Error, Result, int, text, num, op, ident, str, ok, err, preproc, key, value,
  zero_division, unbound_local, out_of_fuel, ◌>>=◌, from_option, to_int, truth,
}

-- `prec`: the place of the operator in `ops`, 0 binding tightest.
unfoldable pub prec : String → Option ℕ
prec v =
    if mem v ("*" ∷ "/" ∷ "%" ∷ [])
    then some 0
    else if mem v ("+" ∷ "-" ∷ [])
    then some 1
    else if mem v ("<<" ∷ ">>" ∷ [])
    then some 2
    else if mem v ("<" ∷ "<=" ∷ ">=" ∷ ">" ∷ [])
    then some 3
    else if mem v ("==" ∷ "!=" ∷ [])
    then some 4
    else if mem v ("&" ∷ "|" ∷ "^" ∷ [])
    then some 5
    else if mem v ("&&" ∷ "||" ∷ [])
    then some 6
    else if v == ","
    then some 7
    else none

-- The operation on integers; an operator that is not listed gives 0.
unfoldable pub apply_op : ℤ → ℤ → String → Result ℤ
apply_op a b d =
    if d == "%"
    then from_option zero_division (mod_ℤ a b)
    else if d == "+"
    then ok (a +ℤ b)
    else if d == "-"
    then ok (a -ℤ b)
    else if d == "*"
    then ok (a *ℤ b)
    else if d == "/"
    then from_option zero_division (div_ℤ a b)
    else if d == "^"
    then ok (xor_ℤ a b)
    else if d == "|"
    then ok (or_ℤ a b)
    else if d == "||"
    then ok (if is_zero a then b else a)
    else if d == "&"
    then ok (and_ℤ a b)
    else if d == "&&"
    then ok (if is_zero a then a else b)
    else if d == "=="
    then ok (of_bool (eqb_ℤ a b))
    else if d == "!="
    then ok (of_bool (not (eqb_ℤ a b)))
    else if d == "<="
    then ok (of_bool (not (ltb_ℤ b a)))
    else if d == "<"
    then ok (of_bool (ltb_ℤ a b))
    else if d == ">"
    then ok (of_bool (ltb_ℤ b a))
    else if d == ">="
    then ok (of_bool (not (ltb_ℤ a b)))
    else if d == "<<"
    then from_option value (shl_ℤ a b)
    else if d == ">>"
    then from_option value (shr_ℤ a b)
    else ok (pos 0)

unfoldable pub reduce_nums : Val → Val → String → Result Val
reduce_nums val_1 val_2 val_op = do
  a ← to_int val_1
  b ← to_int val_2
  c ← apply_op a b val_op
  ok (int c)

-- The tokens up to the parenthesis that closes, with `count` open, and those behind it.
unfoldable pub split_paren : ℕ → List Token → Result (List Token × List Token)
split_paren count [] = err preproc
split_paren count (op v ∷ rest) =
    let inner =
      split_paren (if v == ")" then pred count else if v == "(" then suc count else count) rest in
    if v == ")" && count == 1 then ok ([], rest) else (do r ← inner; ok (op v ∷ r.0, r.1))
split_paren count (t ∷ rest) = do r ← split_paren count rest; ok (t ∷ r.0, r.1)

-- The branches of a conditional expression, before and behind the colon that no parenthesis holds.
unfoldable pub split_colon : ℤ → List Token → Result (List Token × List Token)
split_colon count [] = err preproc
split_colon count (op v ∷ rest) =
    let count' : ℤ =
      if v == ")" then count -ℤ pos 1 else if v == "(" then count +ℤ pos 1 else count in
    let inner = split_colon count' rest in
    if v == ":" && is_zero count then ok ([], rest) else (do r ← inner; ok (op v ∷ r.0, r.1))
split_colon count (t ∷ rest) = do r ← split_colon count rest; ok (t ∷ r.0, r.1)

-- The branches of `get_num` on an operator.
pub data Unary : Type 0 where
  paren plus minus bang tilde other : Unary

unfoldable pub unary : String → Unary
unary v =
    if v == "("
    then paren
    else if v == "+"
    then plus
    else if v == "-"
    then minus
    else if v == "!"
    then bang
    else if v == "~"
    then tilde
    else other

-- The branches of `get_term` behind a first number.
pub data Binary : Type 0 where
  stop skip choose combine : Binary

unfoldable pub binary : String → Val → Binary
binary v n =
    if v == "&&" && not (truth n)
    then stop
    else if v == "||" && truth n
    then stop
    else if v == ","
    then skip
    else if v == "?"
    then choose
    else combine

-- `prec[v2] >= prec[v]`
unfoldable pub binds_first : String → String → Result Bool
binds_first v v2 = do p2 ← from_option key (prec v2); p ← from_option key (prec v); ok (leb p p2)

-- The two functions, with their recursive calls as arguments.
module _ (number : List Token → Result (Val × List Token)) (term : List Token → Result Val) where
  -- `~` reads a variable that is not bound yet.
  unfoldable pub on_unary : Unary → List Token → Result (Val × List Token)
  on_unary paren rest = do r ← split_paren 1 rest; n ← term r.0; ok (n, r.1)
  on_unary plus rest = number rest
  on_unary minus rest = do r ← number rest; n ← reduce_nums (text "-1") r.0 "*"; ok (n, r.1)
  on_unary bang rest = do r ← number rest; n ← to_int r.0; ok (int (of_bool (is_zero n)), r.1)
  on_unary tilde rest = err unbound_local
  on_unary other rest = err preproc

  unfoldable pub num_step : List Token → Result (Val × List Token)
  num_step [] = err preproc
  num_step (op v ∷ rest) = on_unary (unary v) rest
  num_step (num v ∷ rest) = ok (v, rest)
  num_step (ident v ∷ rest) = ok (int (pos 0), rest)
  num_step (str v ∷ rest) = err preproc

  -- Behind `n v n2`.
  unfoldable pub on_second : Val → String → Val → List Token → Result Val
  on_second n v n2 [] = do c ← reduce_nums n n2 v; term (num c ∷ [])
  on_second n v n2 (op v2 ∷ rest) = do
    first ← binds_first v v2
    if first
        then (do c ← reduce_nums n n2 v; term (num c ∷ op v2 ∷ rest))
        else (do r ← number rest; c ← reduce_nums n2 r.0 v2; term (num n ∷ op v ∷ num c ∷ r.1))
  on_second n v n2 (t ∷ rest) = err preproc

  unfoldable pub on_binary : Binary → Val → String → List Token → Result Val
  on_binary stop n v rest = ok n
  on_binary skip n v rest = term rest
  on_binary choose n v rest = do
    r ← split_colon (pos 0) rest
    c ← to_int n
    if is_zero c then term r.1 else term r.0
  on_binary combine n v rest = do r ← number rest; on_second n v r.0 r.1

  unfoldable pub on_first : Val → List Token → Result Val
  on_first n [] = ok n
  on_first n (op v ∷ rest) = on_binary (binary v n) n v rest
  on_first n (t ∷ rest) = err preproc

  -- An empty list is refused by `get_num` with the same error.
  unfoldable pub term_step : List Token → Result Val
  term_step l = do r ← number l; on_first r.0 r.1

-- With fuel for the recursion. The list that `get_term` returns is always empty and never read.
unfoldable mutual
  pub get_num : ℕ → List Token → Result (Val × List Token)
  get_num zero l = err out_of_fuel
  get_num (suc f) l = num_step (get_num f) (get_term f) l

  pub get_term : ℕ → List Token → Result Val
  get_term zero l = err out_of_fuel
  get_term (suc f) l = term_step (get_num f) (get_term f) l

-- `reduce_eval`, with fuel by the length of the list.
unfoldable pub reduce_eval : List Token → Result Val
reduce_eval lst = get_term (2 * length lst + 2) lst
