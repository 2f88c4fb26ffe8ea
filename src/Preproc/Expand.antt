-- ===== src/Preproc/Expand.antt =====
-- preproc.py: `reduce_tokens`, the expansion of macros in a token list, and `eval_macro`.
use meguro.Base.{
  ℕ, zero, suc, ◌+◌, ◌-◌, String, List, [], ◌∷◌, ◌++◌, Option, none, some, Bool, true, false, not,
  ◌&&◌, leb, ltb, if◌then◌else◌, ◌==◌, nat_eq, string_eq, length, get_elem?, lookup, insert,
}
use meguro.Base.Int.{ℤ, pos, is_zero, ◌+ℤ◌, ◌-ℤ◌}
use meguro.Preproc.Token.{
  to_int, Token, Result, int, tuple, num, op, ident, str, ok, err, preproc, type, index,
  out_of_fuel, ◌>>=◌,
}
use meguro.Preproc.Macro.{
  Macro, Defs, raw, object, function, macro_of, stringize, token_text, paste_tokens,
}
use meguro.Preproc.Eval.{reduce_eval}

abbrev pub is_empty {ℓ} : {A : Type ℓ} → List A → Bool
is_empty [] = true
is_empty (_ ∷ _) = false

-- The loop that collects the arguments of a call, up to the parenthesis that closes it.
unfoldable pub collect_args :
    ℤ → List Token → List (List Token) → List Token → Result (List (List Token) × List Token)
unfolding ◌+ℤ◌ ◌-ℤ◌
collect_args count one_param args [] = err preproc
collect_args count one_param args (op v ∷ rest) =
    let deeper = collect_args (count +ℤ pos 1) (one_param ++ op v ∷ []) args rest in
    let higher = collect_args (count -ℤ pos 1) (one_param ++ op v ∷ []) args rest in
    let next_arg = collect_args count [] (args ++ one_param ∷ []) rest in
    let same = collect_args count (one_param ++ op v ∷ []) args rest in
    if is_zero count
    then (if v == "("
        then deeper
        else if v == ")"
        then ok (if is_empty one_param then args else args ++ one_param ∷ [], rest)
        else if v == ","
        then (if is_empty one_param then err preproc else next_arg)
        else same)
    else if v == "("
    then deeper
    else if v == ")"
    then higher
    else same
collect_args count one_param args (t ∷ rest) =
    let count' : ℤ =
      if token_text t == "("
      then count +ℤ pos 1
      else if token_text t == ")"
      then count -ℤ pos 1
      else count in
    collect_args count' (one_param ++ t ∷ []) args rest

-- `args[arg_table[name]]`; a name that is no parameter gives none.
unfoldable pub argument :
    List (String × ℕ) → List (List Token) → Token → Option (ℕ × Result (List Token))
argument params args (ident v) = elim (lookup v params) [
  | none ↦ none
  | some k ↦ some (k, elim (get_elem? args k) [ some l ↦ ok l | none ↦ err index ])
]
argument params args _ = none

abbrev pub set_nth {ℓ} : {A : Type ℓ} → List A → ℕ → A → List A
set_nth [] i v = []
set_nth (x ∷ xs) zero v = v ∷ xs
set_nth (x ∷ xs) (suc i) v = x ∷ set_nth xs i v

abbrev pub drop {ℓ} : {A : Type ℓ} → ℕ → List A → List A
drop zero l = l
drop (suc n) [] = []
drop (suc n) (x ∷ l) = drop n l

-- `args[pt-st+1:]`: a negative start counts from the end, and stops at the front.
abbrev pub variadic {ℓ} : {A : Type ℓ} → ℕ → List A → List A
variadic st args =
    let pt = length args in
    if leb st (pt + 1) then drop (pt + 1 - st) args else drop (pt + (pt + 1) - st) args

abbrev pub join_args : List (List Token) → List Token
join_args [] = []
join_args (x ∷ []) = x
join_args (x ∷ y ∷ l) = x ++ op "," ∷ join_args (y ∷ l)

-- The last token, and those before it.
abbrev pub unsnoc : List Token → Option (List Token × Token)
unsnoc [] = none
unsnoc (x ∷ l) = elim (unsnoc l) [ none ↦ some ([], x) | some (i, z) ↦ some (x ∷ i, z) ]

-- A paste that stands last is removed, and a comma before it if arguments are missing.
unfoldable pub trim_variadic : ℕ → ℕ → List Token → List Token
trim_variadic st pt accu = elim (unsnoc accu) [
  | none ↦ accu
  | some (init, z) ↦ elim (unsnoc init) [
    | none ↦ accu
    | some (front, y) ↦
        if token_text z == "##"
        then (if token_text y == "," && ltb pt st then front else init)
        else accu
  ]
]

abbrev pub is_name : String → Token → Bool
is_name v (ident w) = w == v
is_name v _ = false

-- `accu[-1] = paste_tokens(accu[-1], x)`, then `rest`.
unfoldable pub paste_last : List Token → Token → List Token → Result (List Token)
unfolding paste_tokens
paste_last accu x rest = elim (unsnoc accu) [
  | none ↦ err index
  | some (init, z) ↦ (do t ← paste_tokens z x; ok (init ++ t ∷ rest))
]

-- Pasting the token behind `##`, with something in `accu`.
unfoldable pub paste_next :
    List (String × ℕ) → List (List Token) → List Token → Token → Result (List Token)
unfolding argument paste_last trim_variadic
paste_next params args accu x = elim (argument params args x) [
  | some (k, toks) ↦ (do
    l ← toks
    elim l [ [] ↦ ok (accu ++ op "##" ∷ []) | t ∷ ts ↦ paste_last accu t ts ])
  | none ↦
      if is_name "__VA_ARGS__" x
      then ok (
          trim_variadic (length params) (length args) accu
          ++ join_args (variadic (length params) args))
      else paste_last accu x []
]

module _ (reduce : List Token → Defs → Result (List Token × Defs)) where
  -- The loop over the body of a function-like macro. An argument that is used is expanded in place.
  unfoldable pub substitute :
      List (String × ℕ)
      → List (List Token)
      → Defs
      → List Token
      → List Token
      → Result (List Token × Defs)
  unfolding argument stringize paste_next
  substitute params args defs accu [] = ok (accu, defs)
  substitute params args defs accu (op v ∷ x ∷ body) =
      let plain = substitute params args defs (accu ++ op v ∷ []) (x ∷ body) in
      let pasted = paste_next params args accu x >>= λ a. substitute params args defs a body in
      if v == "#"
      then (elim (argument params args x) [
        | none ↦ plain
        | some (k, toks) ↦ (do
          l ← toks
          substitute params args defs (accu ++ str (stringize l) ∷ []) body)
      ])
      else if v == "##" && not (is_empty accu)
      then pasted
      else plain
  substitute params args defs accu (op v ∷ []) = ok (accu ++ op v ∷ [], defs)
  substitute params args defs accu (t ∷ body) = elim (argument params args t) [
    | none ↦ substitute params args defs (accu ++ t ∷ []) body
    | some (k, toks) ↦ (do
      l ← toks
      r ← reduce l defs
      substitute params (set_nth args k r.0) r.1 (accu ++ r.0) body)
  ]

-- Whether a token's text is a macro's name.
abbrev pub is_defined : Defs → Token → Bool
is_defined defs (num (int n)) = false
is_defined defs (num (tuple l)) = false
is_defined defs t = elim (lookup (token_text t) defs) [ none ↦ false | some _ ↦ true ]

abbrev pub truth_token : Bool → Token
truth_token b = num (int (if b then pos 1 else pos 0))

-- `defined X` and `defined(X)`, behind the word: the tokens from the place of the result on.
unfoldable pub on_defined : Defs → List Token → Result (List Token)
on_defined defs [] = ok []
on_defined defs (ident v ∷ rest) = ok (truth_token (is_defined defs (ident v)) ∷ rest)
on_defined defs (op v ∷ []) = if v == "(" then err index else err preproc
on_defined defs (op v ∷ x ∷ []) = if v == "(" then err index else err preproc
on_defined defs (op v ∷ x ∷ y ∷ rest) =
    if v == "(" then ok (truth_token (is_defined defs x) ∷ rest) else err preproc
on_defined defs (t ∷ rest) = err preproc

-- The list from the second place on is still to do; the first token is passed over.
abbrev pub advance : List Token → List Token → List Token × List Token
advance done [] = (done, [])
advance done (t ∷ rest) = (done ++ t ∷ [], rest)

-- Reading the arguments of a call, whose parenthesis comes first.
unfoldable pub call_args : List Token → Result (List (List Token) × List Token)
unfolding collect_args
call_args [] = err preproc
call_args (op v ∷ rest) = if v == "(" then collect_args (pos 0) [] [] rest else err preproc
call_args (t ∷ rest) = err preproc

-- The regular expressions of the module, as functions of a line.
module _ (tokenize : String → List Token) (looks_like_fun : String → Bool) where
  -- A definition is taken apart when it is first used.
  unfoldable pub resolve : String → Macro → Defs → Result (Macro × Defs)
  unfolding macro_of
  resolve v (raw line) defs = do
    m ← macro_of (looks_like_fun line) (tokenize line)
    ok (m, insert v m defs)
  resolve v m defs = ok (m, defs)

  module _ (reduce : List Token → Defs → Result (List Token × Defs)) where
    -- The tokens before the place to go on from, and those from there on.
    unfoldable pub apply_macro :
        List Token → List Token → Macro → Defs → Result ((List Token × List Token) × Defs)
    unfolding call_args substitute
    apply_macro done rest (object body) defs = ok (advance (done ++ body) rest, defs)
    apply_macro done rest (function params body) defs = do
      a ← call_args rest
      s ← substitute reduce params a.0 defs [] body
      r ← reduce s.0 s.1
      ok (advance done (r.0 ++ a.1), r.1)
    apply_macro done rest (raw line) defs = err type

    -- One turn of the loop of `reduce_tokens`, at a token with `rest` behind it.
    unfoldable pub expand_step :
        List Token → Token → List Token → Defs → Result ((List Token × List Token) × Defs)
    unfolding on_defined resolve apply_macro
    expand_step done (ident v) rest defs =
        if v == "defined"
        then (do r ← on_defined defs rest; ok (advance done r, defs))
        else (elim (lookup v defs) [
          | none ↦ ok ((done ++ ident v ∷ [], rest), defs)
          | some m ↦ (do r ← resolve v m defs; apply_macro done rest r.0 r.1)
        ])
    expand_step done t rest defs = ok ((done ++ t ∷ [], rest), defs)

  -- The loop, with fuel: a macro that calls itself makes the code recurse without end.
  unfoldable mutual
    pub expand : ℕ → List Token → List Token → Defs → Result (List Token × Defs)
    expand zero done l defs = err out_of_fuel
    expand (suc f) done [] defs = ok (done, defs)
    expand (suc f) done (t ∷ rest) defs = do
      r ← expand_step (expand f []) done t rest defs
      expand f r.0.0 r.0.1 r.1

  unfoldable pub reduce_tokens : ℕ → List Token → Defs → Result (List Token × Defs)
  reduce_tokens fuel lst defs = expand fuel [] lst defs

  -- The condition of an `#if` line.
  unfoldable pub eval_macro : ℕ → List Token → Defs → Result (Bool × Defs)
  eval_macro fuel lst adefs = do
    r ← reduce_tokens fuel lst adefs
    if is_empty r.0
        then err preproc
        else (do n ← reduce_eval r.0; k ← to_int n; ok (not (is_zero k), r.1))
