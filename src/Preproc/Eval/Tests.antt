-- ===== src/Preproc/Eval/Tests.antt =====
-- Runs of preproc.py's evaluation, and the theorems at concrete inputs.
use meguro.Base.{String, ◌≡◌, ◌≢◌, refl, [], ◌∷◌}
use meguro.Base.Int.{
  pos, negsuc, ◌+ℤ◌, ◌-ℤ◌, ◌*ℤ◌, ltb_ℤ, eqb_ℤ, div_ℤ, mod_ℤ, and_ℤ, or_ℤ, xor_ℤ, shl_ℤ, shr_ℤ,
}
use meguro.Preproc.Token.{
  Token, int, text, num, op, ident, ok, err, out_of_fuel, to_int, truth, zero_division,
}
use meguro.Preproc.Eval.{
  reduce_eval, get_num, get_term, num_step, term_step, on_unary, unary, on_first, on_binary, binary,
  on_second, binds_first, prec, reduce_nums, apply_op, split_paren, split_colon,
}
use meguro.Preproc.Eval.Fuel.{reduce_eval_total}
use meguro.Preproc.Eval.Chains.{reduce_eval-fold_left, tail_tokens, fold_left}

-- What the runs below compute with.
runs : Unit {0}
unfolding reduce_eval get_num get_term num_step term_step on_unary unary on_first on_binary binary
    on_second binds_first prec reduce_nums apply_op split_paren split_colon to_int truth ◌+ℤ◌ ◌-ℤ◌
    ◌*ℤ◌ ltb_ℤ eqb_ℤ div_ℤ mod_ℤ and_ℤ or_ℤ xor_ℤ shl_ℤ shr_ℤ
runs = tt

abbrev lit : String → Token
lit s = num (text s)

-- (1 + 2) * 3 - -4
arithmetic_test :
    reduce_eval (
      op "("
      ∷ lit "1"
      ∷ op "+"
      ∷ lit "2"
      ∷ op ")"
      ∷ op "*"
      ∷ lit "3"
      ∷ op "-"
      ∷ op "-"
      ∷ lit "4"
      ∷ [])
    ≡ ok (int (pos 13))
unfolding runs
arithmetic_test = refl

-- X ? 1 : -7 / 2
choice_test :
    reduce_eval (ident "X" ∷ op "?" ∷ lit "1" ∷ op ":" ∷ op "-" ∷ lit "7" ∷ op "/" ∷ lit "2" ∷ [])
    ≡ ok (int (negsuc 3))
unfolding runs
choice_test = refl

division_test : reduce_eval (lit "1" ∷ op "/" ∷ lit "0" ∷ []) ≡ err zero_division
unfolding runs
division_test = refl

reduce_eval_total_example : reduce_eval (op "(" ∷ lit "1" ∷ []) ≢ err out_of_fuel
reduce_eval_total_example = reduce_eval_total (op "(" ∷ lit "1" ∷ [])

reduce_eval-fold_left_example :
    reduce_eval (num (int (pos 9)) ∷ tail_tokens (("-", int (pos 4)) ∷ ("-", int (pos 3)) ∷ []))
    ≡ fold_left (int (pos 9)) (("-", int (pos 4)) ∷ ("-", int (pos 3)) ∷ [])
unfolding prec binary
reduce_eval-fold_left_example =
    reduce_eval-fold_left 1 (int (pos 9)) (("-", int (pos 4)) ∷ ("-", int (pos 3)) ∷ [])
      ((refl, λ n. refl), ((refl, λ n. refl), tt))

-- The text of a literal counts as true.
text_or_test : reduce_eval (lit "0" ∷ op "||" ∷ lit "1" ∷ []) ≡ ok (text "0")
unfolding runs
text_or_test = refl
