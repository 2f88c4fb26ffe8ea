-- ===== src/Preproc/Eval/Fuel.antt =====
-- preproc.py: `get_num` and `get_term` end on every list, within the fuel that `reduce_eval` gives.
use meguro.Base.{
  ℕ, zero, suc, ◌+◌, ◌*◌, ◌<◌, ◌≤◌, ◌≢◌, subst, String, List, [], ◌∷◌, Bool, true, false, nat_eq,
  string_eq, if◌then◌else◌, length, arith, Option, none, some,
}
use meguro.Base.Int.{ℤ, pos, is_zero}
use meguro.Preproc.Token.{
  Val, Token, Error, Result, int, text, tuple, num, op, ident, str, ok, err, key, out_of_fuel,
  ◌>>=◌, to_int, from_option, int_of_text, signed, decimal,
}
use meguro.Preproc.Eval.{
  reduce_nums, apply_op, split_paren, split_colon, Unary, unary, paren, plus, minus, bang, tilde,
  other, Binary, binary, stop, skip, choose, combine, on_unary, num_step, binds_first, on_second,
  on_binary, on_first, term_step, get_num, get_term, reduce_eval, prec,
}

abbrev NotFuel : Error → Type 0
NotFuel out_of_fuel = ⊥
NotFuel _ = Unit

-- A result that did not run out of fuel, and satisfies `P` if it is a value.
abbrev pub Ensures {ℓ} : {A : Type ℓ} → (A → Type 0) → Result A → Type 0
Ensures P (err e) = NotFuel e
Ensures P (ok a) = P a

Ensures-bind {ℓ κ} :
    {A : Type ℓ} {B : Type κ} (P : A → Type 0) (Q : B → Type 0) (r : Result A) (f : A → Result B)
    → Ensures P r
    → ((a : A) → P a → Ensures Q (f a))
    → Ensures Q (r >>= f)
Ensures-bind P Q (ok a) f h k = k a h
Ensures-bind P Q (err e) f h k = h

abbrev Anything {ℓ} : {A : Type ℓ} → A → Type 0
Anything a = Unit

from_option-Ensures {ℓ} :
    {A : Type ℓ} (e : Error) (o : Option A) → NotFuel e → Ensures Anything (from_option e o)
from_option-Ensures e none h = h
from_option-Ensures e (some a) h = tt

signed-Ensures : (f : ℕ → ℤ) (o : Option ℕ) → Ensures Anything (signed f o)
signed-Ensures f none = tt
signed-Ensures f (some n) = tt

Ensures-if {ℓ} :
    {A : Type ℓ} (P : A → Type 0) (b : Bool) (x y : Result A)
    → Ensures P x
    → Ensures P y
    → Ensures P (if b then x else y)
Ensures-if P true x y hx hy = hx
Ensures-if P false x y hx hy = hy

to_int-Ensures : (v : Val) → Ensures Anything (to_int v)
unfolding to_int
to_int-Ensures (int n) = tt
to_int-Ensures (tuple l) = tt
to_int-Ensures (text String.[]) = unfold int_of_text in tt
to_int-Ensures (text (String.◌∷◌ c s)) =
    unfold int_of_text in
    Ensures-if Anything _ _ _ (signed-Ensures _ (decimal s))
      (signed-Ensures _ (decimal (String.◌∷◌ c s)))

apply_op-Ensures : (a b : ℤ) (d : String) → Ensures Anything (apply_op a b d)
unfolding apply_op
apply_op-Ensures a b d = search (Ensures-if, from_option-Ensures, tt) depth 22

reduce_nums-Ensures : (a b : Val) (d : String) → Ensures Anything (reduce_nums a b d)
unfolding reduce_nums
reduce_nums-Ensures a b d = Ensures-bind Anything Anything (to_int a) _ (to_int-Ensures a) λ x _.
    Ensures-bind Anything Anything (to_int b) _ (to_int-Ensures b)
      λ y _. Ensures-bind Anything Anything (apply_op x y d) _ (apply_op-Ensures x y d) λ _ _. tt

binds_first-Ensures : (v v2 : String) → Ensures Anything (binds_first v v2)
unfolding binds_first
binds_first-Ensures v v2 =
    Ensures-bind Anything Anything (from_option key (prec v2)) _
      (from_option-Ensures key (prec v2) tt)
      λ _ _.
        Ensures-bind Anything Anything (from_option key (prec v)) _
          (from_option-Ensures key (prec v) tt) λ _ _. tt

-- Two parts of a list with a token between them.
abbrev Splits : ℕ → List Token × List Token → Type 0
Splits n r = length r.0 + length r.1 < n

split_paren-Ensures :
    (l : List Token) (count : ℕ) → Ensures (Splits (length l)) (split_paren count l)
unfolding split_paren
split_paren-Ensures [] count = tt
split_paren-Ensures (op v ∷ rest) count =
    Ensures-if (Splits (length (op v ∷ rest))) _ (ok ([], rest)) _ (omega arith) (
      Ensures-bind (Splits (length rest)) (Splits (length (op v ∷ rest))) _ _
        (split_paren-Ensures rest _) λ r h. omega arith)
split_paren-Ensures (num v ∷ rest) count =
    Ensures-bind (Splits (length rest)) (Splits (length (num v ∷ rest))) _ _
      (split_paren-Ensures rest count) λ r h. omega arith
split_paren-Ensures (ident v ∷ rest) count =
    Ensures-bind (Splits (length rest)) (Splits (length (num (text v) ∷ rest))) _ _
      (split_paren-Ensures rest count) λ r h. omega arith
split_paren-Ensures (str v ∷ rest) count =
    Ensures-bind (Splits (length rest)) (Splits (length (num (text v) ∷ rest))) _ _
      (split_paren-Ensures rest count) λ r h. omega arith

split_colon-Ensures :
    (l : List Token) (count : ℤ) → Ensures (Splits (length l)) (split_colon count l)
unfolding split_colon
split_colon-Ensures [] count = tt
split_colon-Ensures (op v ∷ rest) count =
    Ensures-if (Splits (length (op v ∷ rest))) _ (ok ([], rest)) _ (omega arith) (
      Ensures-bind (Splits (length rest)) (Splits (length (op v ∷ rest))) _ _
        (split_colon-Ensures rest _) λ r h. omega arith)
split_colon-Ensures (num v ∷ rest) count =
    Ensures-bind (Splits (length rest)) (Splits (length (num v ∷ rest))) _ _
      (split_colon-Ensures rest count) λ r h. omega arith
split_colon-Ensures (ident v ∷ rest) count =
    Ensures-bind (Splits (length rest)) (Splits (length (num (text v) ∷ rest))) _ _
      (split_colon-Ensures rest count) λ r h. omega arith
split_colon-Ensures (str v ∷ rest) count =
    Ensures-bind (Splits (length rest)) (Splits (length (num (text v) ∷ rest))) _ _
      (split_colon-Ensures rest count) λ r h. omega arith

-- `get_num` takes a token at least.
abbrev Shrinks : ℕ → Val × List Token → Type 0
Shrinks n r = length r.1 < n

module _ (f : ℕ) (number : List Token → Result (Val × List Token)) (term : List Token → Result Val)
    (number_ends : (l : List Token)
      → 2 * length l + 1 ≤ f
      → Ensures (Shrinks (length l)) (number l))
    (term_ends : (l : List Token) → 2 * length l + 2 ≤ f → Ensures Anything (term l)) where
  Shrinks-weaken :
      (k : ℕ) (r : Result (Val × List Token)) → Ensures (Shrinks k) r → Ensures (Shrinks (suc k)) r
  Shrinks-weaken k (ok r) h = omega arith
  Shrinks-weaken k (err e) h = h

  on_unary-Ensures :
      (u : Unary) (rest : List Token)
      → 2 * length rest + 2 ≤ f
      → Ensures (Shrinks (suc (length rest))) (on_unary number term u rest)
  unfolding on_unary
  on_unary-Ensures paren rest h =
      Ensures-bind (Splits (length rest)) (Shrinks (suc (length rest))) _ _
        (split_paren-Ensures rest 1)
        λ r s.
          Ensures-bind Anything (Shrinks (suc (length rest))) (term r.0) _
            (term_ends r.0 (omega arith)) λ _ _. omega arith
  on_unary-Ensures plus rest h = Shrinks-weaken (length rest) _ (number_ends rest (omega arith))
  on_unary-Ensures minus rest h =
      Ensures-bind (Shrinks (length rest)) (Shrinks (suc (length rest))) (number rest) _
        (number_ends rest (omega arith))
        λ r s.
          Ensures-bind Anything (Shrinks (suc (length rest))) _ _ (reduce_nums-Ensures _ r.0 "*")
            λ _ _. omega arith
  on_unary-Ensures bang rest h =
      Ensures-bind (Shrinks (length rest)) (Shrinks (suc (length rest))) (number rest) _
        (number_ends rest (omega arith))
        λ r s.
          Ensures-bind Anything (Shrinks (suc (length rest))) _ _ (to_int-Ensures r.0)
            λ _ _. omega arith
  on_unary-Ensures tilde rest h = tt
  on_unary-Ensures other rest h = tt

  num_step-Ensures :
      (l : List Token) → 2 * length l ≤ f → Ensures (Shrinks (length l)) (num_step number term l)
  unfolding num_step
  num_step-Ensures [] h = tt
  num_step-Ensures (op v ∷ rest) h = on_unary-Ensures (unary v) rest (omega arith)
  num_step-Ensures (num v ∷ rest) h = omega arith
  num_step-Ensures (ident v ∷ rest) h = omega arith
  num_step-Ensures (str v ∷ rest) h = tt

  on_second-Ensures :
      (a : Val) (v : String) (b : Val) (rest : List Token)
      → 2 * length rest + 4 ≤ f
      → Ensures Anything (on_second number term a v b rest)
  unfolding on_second
  on_second-Ensures a v b [] h =
      Ensures-bind Anything Anything (reduce_nums a b v) _ (reduce_nums-Ensures a b v)
        λ c _. term_ends (num c ∷ []) (omega arith)
  on_second-Ensures a v b (op v2 ∷ rest) h =
      Ensures-bind Anything Anything (binds_first v v2) _ (binds_first-Ensures v v2) λ first _.
        Ensures-if Anything first _ _
          (Ensures-bind Anything Anything (reduce_nums a b v) _ (reduce_nums-Ensures a b v)
            λ c _. term_ends (num c ∷ op v2 ∷ rest) (omega arith))
          (Ensures-bind (Shrinks (length rest)) Anything (number rest) _
            (number_ends rest (omega arith))
            λ r s.
              Ensures-bind Anything Anything (reduce_nums b r.0 v2) _ (reduce_nums-Ensures b r.0 v2)
                λ c _. term_ends (num a ∷ op v ∷ num c ∷ r.1) (omega arith))
  on_second-Ensures a v b (num w ∷ rest) h = tt
  on_second-Ensures a v b (ident w ∷ rest) h = tt
  on_second-Ensures a v b (str w ∷ rest) h = tt

  on_binary-Ensures :
      (k : Binary) (n : Val) (v : String) (rest : List Token)
      → 2 * length rest + 4 ≤ f
      → Ensures Anything (on_binary number term k n v rest)
  unfolding on_binary
  on_binary-Ensures stop n v rest h = tt
  on_binary-Ensures skip n v rest h = term_ends rest (omega arith)
  on_binary-Ensures choose n v rest h =
      Ensures-bind (Splits (length rest)) Anything _ _ (split_colon-Ensures rest (pos 0)) λ r s.
        Ensures-bind Anything Anything (to_int n) _ (to_int-Ensures n) λ c _.
          Ensures-if Anything (is_zero c) _ _ (term_ends r.1 (omega arith))
            (term_ends r.0 (omega arith))
  on_binary-Ensures combine n v rest h =
      Ensures-bind (Shrinks (length rest)) Anything (number rest) _ (number_ends rest (omega arith))
        λ r s. on_second-Ensures n v r.0 r.1 (omega arith)

  on_first-Ensures :
      (n : Val) (l : List Token)
      → 2 * length l + 2 ≤ f
      → Ensures Anything (on_first number term n l)
  unfolding on_first
  on_first-Ensures n [] h = tt
  on_first-Ensures n (op v ∷ rest) h = on_binary-Ensures (binary v n) n v rest (omega arith)
  on_first-Ensures n (num w ∷ rest) h = tt
  on_first-Ensures n (ident w ∷ rest) h = tt
  on_first-Ensures n (str w ∷ rest) h = tt

  term_step-Ensures :
      (l : List Token) → 2 * length l + 1 ≤ f → Ensures Anything (term_step number term l)
  unfolding term_step
  term_step-Ensures l h =
      Ensures-bind (Shrinks (length l)) Anything (number l) _ (number_ends l h)
        λ r s. on_first-Ensures r.0 r.1 (omega arith)

mutual
  unfolding get_num get_term

  get_num-Ensures :
      (f : ℕ) (l : List Token) → 2 * length l + 1 ≤ f → Ensures (Shrinks (length l)) (get_num f l)
  get_num-Ensures zero l h = absurd (omega arith)
  get_num-Ensures (suc f) l h =
      num_step-Ensures f (get_num f) (get_term f) (get_num-Ensures f) (get_term-Ensures f) l
        (omega arith)

  get_term-Ensures :
      (f : ℕ) (l : List Token) → 2 * length l + 2 ≤ f → Ensures Anything (get_term f l)
  get_term-Ensures zero l h = absurd (omega arith)
  get_term-Ensures (suc f) l h =
      term_step-Ensures f (get_num f) (get_term f) (get_num-Ensures f) (get_term-Ensures f) l
        (omega arith)

Ensures-ne {ℓ} : {A : Type ℓ} (P : A → Type 0) (r : Result A) → Ensures P r → r ≢ err out_of_fuel
Ensures-ne P (ok a) h e = cc
Ensures-ne P (err x) h e = subst (λ q. Ensures P q) e h

-- `reduce_eval` ends on every token list, with a value or with an error of the program.
pub reduce_eval_total : (l : List Token) → reduce_eval l ≢ err out_of_fuel
unfolding reduce_eval
reduce_eval_total l = Ensures-ne Anything _ (get_term-Ensures _ l (omega arith))
