-- ===== src/Preproc/Eval/Chains.antt =====
-- preproc.py: what `get_term` computes of a list of numbers joined by operators.
use meguro.Base.{
  ℕ, zero, suc, ◌+◌, ◌<◌, ◌≡◌, refl, ◌∙◌, String, List, [], ◌∷◌, true, nat_eq, string_eq, length,
  arith, some, leb, All,
}
use meguro.Preproc.Token.{Val, Token, Result, num, op, ok, err, ◌>>=◌}
use meguro.Preproc.Eval.{
  reduce_nums, binary, combine, num_step, binds_first, on_second, on_binary, on_first, term_step,
  get_num, get_term, reduce_eval, prec,
}

-- Operators of one class of precedence, none of which is `&&`, `||`, `,` or `?`.
abbrev pub IsArithmetic : ℕ → String → Type 0
IsArithmetic c v = (prec v ≡ some c) × ((n : Val) → binary v n ≡ combine)

-- `v₁ n₁ v₂ n₂ …` behind a first number.
abbrev pub tail_tokens : List (String × Val) → List Token
tail_tokens [] = []
tail_tokens ((v, n) ∷ rest) = op v ∷ num n ∷ tail_tokens rest

-- From the left, one operation after the other.
abbrev pub fold_left : Val → List (String × Val) → Result Val
fold_left n [] = ok n
fold_left n ((v, m) ∷ rest) = do c ← reduce_nums n m v; fold_left c rest

get_num_literal : (f : ℕ) (n : Val) (l : List Token) → get_num (suc f) (num n ∷ l) ≡ ok (n, l)
unfolding get_num num_step
get_num_literal f n l = refl

get_term_literal :
    (f : ℕ) (n : Val) (l : List Token)
    → get_term (suc (suc f)) (num n ∷ l) ≡ on_first (get_num (suc f)) (get_term (suc f)) n l
unfolding get_term term_step num_step
get_term_literal f n l = refl

get_term_single : (f : ℕ) (n : Val) → get_term (suc (suc f)) (num n ∷ []) ≡ ok n
unfolding on_first
get_term_single f n = get_term_literal f n []

-- Behind a first number: the second number is read, and `on_second` decides.
get_term_combine :
    (f : ℕ) (n m : Val) (v : String) (l : List Token)
    → binary v n ≡ combine
    → get_term (suc (suc f)) (num n ∷ op v ∷ num m ∷ l)
      ≡ on_second (get_num (suc f)) (get_term (suc f)) n v m l
unfolding on_first on_binary
get_term_combine f n m v l b =
    get_term_literal f n (op v ∷ num m ∷ l) ∙ rw (b, get_num_literal f m l)

leb_refl : (n : ℕ) → leb n n ≡ true
leb_refl n = ground arith

-- An operator that binds no tighter: the first operation is made.
get_term_first :
    (f : ℕ) (n m : Val) (v w : String) (c d : ℕ) (l : List Token)
    → binary v n ≡ combine
    → prec v ≡ some c
    → prec w ≡ some d
    → leb c d ≡ true
    → get_term (suc (suc f)) (num n ∷ op v ∷ num m ∷ op w ∷ l)
      ≡ (reduce_nums n m v >>= λ r. get_term (suc f) (num r ∷ op w ∷ l))
unfolding on_second binds_first
get_term_first f n m v w c d l b pv pw le = get_term_combine f n m v (op w ∷ l) b ∙ rw (pv, pw, le)

bind_congr :
    (r : Result Val) (f g : Val → Result Val) → ((v : Val) → f v ≡ g v) → (r >>= f) ≡ (r >>= g)
bind_congr (ok a) f g h = h a
bind_congr (err e) f g h = refl

module _ (c : ℕ) where
  get_term-fold_left :
      (rest : List (String × Val)) (f : ℕ) (n : Val)
      → length rest + 1 < f
      → All (λ (p : String × Val). IsArithmetic c p.0) rest
      → get_term f (num n ∷ tail_tokens rest) ≡ fold_left n rest
  get_term-fold_left rest zero n h a = absurd (omega arith)
  get_term-fold_left rest (suc zero) n h a = absurd (omega arith)
  get_term-fold_left [] (suc (suc f)) n h a = get_term_single f n
  get_term-fold_left ((v, m) ∷ []) (suc (suc zero)) n h a = absurd (omega arith)
  get_term-fold_left ((v, m) ∷ []) (suc (suc (suc f))) n h a =
      get_term_combine (suc f) n m v [] (a.0.1 n)
      ∙ unfold on_second in bind_congr (reduce_nums n m v) _ _ (λ r. get_term_single f r)
  get_term-fold_left ((v, m) ∷ (w, k) ∷ rest) (suc (suc f)) n h a =
      get_term_first f n m v w c c (num k ∷ tail_tokens rest) (a.0.1 n) a.0.0 a.1.0.0 (leb_refl c)
      ∙ bind_congr (reduce_nums n m v) _ _
          (λ r. get_term-fold_left ((w, k) ∷ rest) (suc f) r (omega arith) a.1)

length-tail_tokens :
    (rest : List (String × Val)) → length (tail_tokens rest) ≡ length rest + length rest
length-tail_tokens [] = refl
length-tail_tokens ((v, n) ∷ rest) = omega (arith, length-tail_tokens rest)

-- Numbers joined by operators of one class of precedence, other than `&&`, `||`, `,` and `?`, are
-- combined from the left.
pub reduce_eval-fold_left :
    (c : ℕ) (n : Val) (rest : List (String × Val))
    → All (λ (p : String × Val). IsArithmetic c p.0) rest
    → reduce_eval (num n ∷ tail_tokens rest) ≡ fold_left n rest
unfolding reduce_eval
reduce_eval-fold_left c n rest a =
    get_term-fold_left c rest _ n (omega (arith, length-tail_tokens rest)) a
