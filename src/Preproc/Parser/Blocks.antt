-- ===== src/Preproc/Parser/Blocks.antt =====
-- preproc.py: what `c_parser` makes of the lines between a conditional and its `endif`.
use meguro.Base.{
  string_eq, ℕ, zero, suc, ◌+◌, String, List, [], ◌∷◌, ◌++◌, Option, none, some, Bool, true, false,
  ◌≡◌, refl, sym, ap, ◌∙◌, length, Bool-cases, inl, inr, lookup, if◌then◌else◌, arith,
}
use meguro.Preproc.Token.{Error, Result}
use meguro.Preproc.Macro.{Macro}
use meguro.Preproc.Scan.{
  Keyword, Line, Lexer, Files, if_line, ifdef_line, ifndef_line, elif_line, else_line, endif_line,
  include_line, import_line, define_line, undef_line, pragma_line, pop_file, other,
}
use meguro.Preproc.Parser.{
  Branch, CParser, accepted, ignored, undefined, skipped, dead, process_line, turn, run, guarded,
  on_endif, on_elif, on_else, decide, names_macro, push, is_some,
}

-- Whether the lines stay in one file and end the conditionals that they begin, `d` being open before.
unfoldable pub balanced : List Line → ℕ → Bool
balanced [] zero = true
balanced [] (suc d) = false
balanced ((if_line, x) ∷ l) d = balanced l (suc d)
balanced ((ifdef_line, x) ∷ l) d = balanced l (suc d)
balanced ((ifndef_line, x) ∷ l) d = balanced l (suc d)
balanced ((endif_line, x) ∷ l) zero = false
balanced ((endif_line, x) ∷ l) (suc d) = balanced l d
balanced ((elif_line, x) ∷ l) zero = false
balanced ((elif_line, x) ∷ l) (suc d) = balanced l (suc d)
balanced ((else_line, x) ∷ l) zero = false
balanced ((else_line, x) ∷ l) (suc d) = balanced l (suc d)
balanced ((pop_file, x) ∷ l) d = false
balanced ((k, x) ∷ l) d = balanced l d

-- The fuel `f` and one unit for each line.
abbrev pad : List Line → ℕ → ℕ
pad [] f = f
pad (x ∷ l) f = suc (pad l f)

pad-length : (l : List Line) (f : ℕ) → pad l f ≡ length l + f
pad-length [] f = omega arith
pad-length (x ∷ l) f = omega (arith, pad-length l f)

abbrev undefineds : ℕ → List Branch → List Branch
undefineds zero s = s
undefineds (suc d) s = undefined ∷ undefineds d s

dead-undefineds : (d : ℕ) (s : List Branch) → dead (undefineds d s) ≡ dead s
unfolding dead
dead-undefineds zero s = refl
dead-undefineds (suc d) s = dead-undefineds d s

module _ {Node : Type 0} (files : Files Node) (lexer : Lexer) (fuel : ℕ) where
  -- The parser with other lines and another state.
  abbrev at : List Line → List Branch → CParser Node → CParser Node
  at l s p = record p { lines = l; state = s }

  abbrev again : ℕ → CParser Node → Result (CParser Node)
  again f p = run files lexer fuel f p

  guarded-dead :
      (p : CParser Node) (act : CParser Node × Option Error)
      → dead p.state ≡ true
      → guarded p act ≡ (p, none)
  guarded-dead p act h = rw h refl

  -- The two kinds of lines that a dead branch passes over one by one.
  abbrev plain : Keyword → Bool
  plain include_line = true
  plain import_line = true
  plain define_line = true
  plain undef_line = true
  plain pragma_line = true
  plain other = true
  plain _ = false

  abbrev opens : Keyword → Bool
  opens if_line = true
  opens ifdef_line = true
  opens ifndef_line = true
  opens _ = false

  run-plain :
      (f : ℕ) (k : Keyword) (x : String) (l : List Line) (s : List Branch) (p : CParser Node)
      → plain k ≡ true
      → dead s ≡ true
      → again (suc f) (at ((k, x) ∷ l) s p) ≡ again f (at l s p)
  unfolding run turn process_line
  run-plain f include_line x l s p e h = ap (λ r. again f r.0) (guarded-dead (at l s p) _ h)
  run-plain f import_line x l s p e h = ap (λ r. again f r.0) (guarded-dead (at l s p) _ h)
  run-plain f define_line x l s p e h = ap (λ r. again f r.0) (guarded-dead (at l s p) _ h)
  run-plain f undef_line x l s p e h = ap (λ r. again f r.0) (guarded-dead (at l s p) _ h)
  run-plain f pragma_line x l s p e h = ap (λ r. again f r.0) (guarded-dead (at l s p) _ h)
  run-plain f other x l s p e h = ap (λ r. again f r.0) (guarded-dead (at l s p) _ h)
  run-plain f k x l s p e h = cc

  run-opens :
      (f : ℕ) (k : Keyword) (x : String) (l : List Line) (s : List Branch) (p : CParser Node)
      → opens k ≡ true
      → dead s ≡ true
      → again (suc f) (at ((k, x) ∷ l) s p) ≡ again f (at l (undefined ∷ s) p)
  unfolding run turn process_line dead
  run-opens f if_line x l s p e h =
      ap (λ r. again f r.0) (guarded-dead (at l (undefined ∷ s) p) _ h)
  run-opens f ifdef_line x l s p e h =
      ap (λ r. again f r.0) (guarded-dead (at l (undefined ∷ s) p) _ h)
  run-opens f ifndef_line x l s p e h =
      ap (λ r. again f r.0) (guarded-dead (at l (undefined ∷ s) p) _ h)
  run-opens f k x l s p e h = cc

  run-endif :
      (f : ℕ) (x : String) (l : List Line) (b : Branch) (s : List Branch) (p : CParser Node)
      → again (suc f) (at ((endif_line, x) ∷ l) (b ∷ s) p) ≡ again f (at l s p)
  unfolding run turn process_line on_endif
  run-endif f x l b s p = refl

  run_dead :
      (f d : ℕ) (block rest : List Line) (s : List Branch) (p : CParser Node)
      → balanced block d ≡ true
      → dead s ≡ true
      → again (pad block f) (at (block ++ rest) (undefineds d s) p) ≡ again f (at rest s p)
  unfolding balanced run turn process_line on_elif on_else
  run_dead f zero [] rest s p b h = refl
  run_dead f (suc d) [] rest s p b h = cc
  run_dead f d ((if_line, x) ∷ l) rest s p b h =
      run-opens (pad l f) if_line x _ _ p refl (dead-undefineds d s ∙ h)
      ∙ run_dead f (suc d) l rest s p b h
  run_dead f d ((ifdef_line, x) ∷ l) rest s p b h =
      run-opens (pad l f) ifdef_line x _ _ p refl (dead-undefineds d s ∙ h)
      ∙ run_dead f (suc d) l rest s p b h
  run_dead f d ((ifndef_line, x) ∷ l) rest s p b h =
      run-opens (pad l f) ifndef_line x _ _ p refl (dead-undefineds d s ∙ h)
      ∙ run_dead f (suc d) l rest s p b h
  run_dead f zero ((endif_line, x) ∷ l) rest s p b h = cc
  run_dead f (suc d) ((endif_line, x) ∷ l) rest s p b h =
      run-endif (pad l f) x _ undefined _ p ∙ run_dead f d l rest s p b h
  run_dead f zero ((elif_line, x) ∷ l) rest s p b h = cc
  run_dead f (suc d) ((elif_line, x) ∷ l) rest s p b h = run_dead f (suc d) l rest s p b h
  run_dead f zero ((else_line, x) ∷ l) rest s p b h = cc
  run_dead f (suc d) ((else_line, x) ∷ l) rest s p b h = run_dead f (suc d) l rest s p b h
  run_dead f d ((pop_file, x) ∷ l) rest s p b h = cc
  run_dead f d ((include_line, x) ∷ l) rest s p b h =
      run-plain (pad l f) include_line x _ _ p refl (dead-undefineds d s ∙ h)
      ∙ run_dead f d l rest s p b h
  run_dead f d ((import_line, x) ∷ l) rest s p b h =
      run-plain (pad l f) import_line x _ _ p refl (dead-undefineds d s ∙ h)
      ∙ run_dead f d l rest s p b h
  run_dead f d ((define_line, x) ∷ l) rest s p b h =
      run-plain (pad l f) define_line x _ _ p refl (dead-undefineds d s ∙ h)
      ∙ run_dead f d l rest s p b h
  run_dead f d ((undef_line, x) ∷ l) rest s p b h =
      run-plain (pad l f) undef_line x _ _ p refl (dead-undefineds d s ∙ h)
      ∙ run_dead f d l rest s p b h
  run_dead f d ((pragma_line, x) ∷ l) rest s p b h =
      run-plain (pad l f) pragma_line x _ _ p refl (dead-undefineds d s ∙ h)
      ∙ run_dead f d l rest s p b h
  run_dead f d ((other, x) ∷ l) rest s p b h =
      run-plain (pad l f) other x _ _ p refl (dead-undefineds d s ∙ h) ∙ run_dead f d l rest s p b h

  run-branch :
      (f : ℕ) (b : Branch) (block rest : List Line) (s : List Branch) (p : CParser Node)
      → balanced block 0 ≡ true
      → dead (b ∷ s) ≡ true
      → again (length block + f) (at (block ++ rest) (b ∷ s) p) ≡ again f (at rest (b ∷ s) p)
  run-branch f b block rest s p e h =
      ap (λ n. again n (at (block ++ rest) (b ∷ s) p)) (sym (pad-length block f))
      ∙ run_dead f 0 block rest (b ∷ s) p e h

  -- In a branch that is not taken, a run of lines that ends the conditionals it begins has no effect:
  -- nothing is defined, included or found, and the state is the one before.
  pub run-dead_block :
      (f : ℕ) (block rest : List Line) (p : CParser Node)
      → balanced block 0 ≡ true
      → dead p.state ≡ true
      → run files lexer fuel (length block + f) (record p { lines = block ++ rest })
        ≡ run files lexer fuel f (record p { lines = rest })
  run-dead_block f block rest p e h =
      ap (λ n. again n (record p { lines = block ++ rest })) (sym (pad-length block f))
      ∙ run_dead f 0 block rest p.state p e h

  -- A conditional whose lines are passed over, from the state that its first line leaves.
  run-conditional :
      (f : ℕ) (b : Branch) (k : Keyword) (g e : String) (body rest : List Line) (p : CParser Node)
      → balanced body 0 ≡ true
      → dead (b ∷ p.state) ≡ true
      → again
          (suc (length body + suc f))
          (record p { lines = (k, g) ∷ body ++ (endif_line, e) ∷ rest })
        ≡ again (length body + suc f) (at (body ++ (endif_line, e) ∷ rest) (b ∷ p.state) p)
      → again
          (suc (length body + suc f))
          (record p { lines = (k, g) ∷ body ++ (endif_line, e) ∷ rest })
        ≡ again f (record p { lines = rest })
  run-conditional f b k g e body rest p c h first =
      first
      ∙ (run-branch (suc f) b body ((endif_line, e) ∷ rest) p.state p c h
          ∙ run-endif f e rest b p.state p)

  guarded-live :
      (p : CParser Node) (act : CParser Node × Option Error)
      → dead p.state ≡ false
      → guarded p act ≡ act
  guarded-live p act h = rw h refl

  names_macro-defined :
      (g name : String) (m : Macro) (p : CParser Node)
      → lexer.macro_name g ≡ some name
      → lookup name p.defs ≡ some m
      → names_macro files lexer fuel g p.defs ≡ true
  names_macro-defined g name m p n d =
      ap (λ (o : Option String). elim o [ none ↦ false | some v ↦ is_some (lookup v p.defs) ]) n
      ∙ ap is_some d

  -- An include guard: where the macro `g` is defined, the lines from `#ifndef g` to its `#endif` have no
  -- effect, in a branch that is taken or in one that is not.
  pub run-include_guard :
      (f : ℕ) (g e name : String) (m : Macro) (body rest : List Line) (p : CParser Node)
      → lexer.macro_name g ≡ some name
      → lookup name p.defs ≡ some m
      → balanced body 0 ≡ true
      → run files lexer fuel
          (suc (length body + suc f))
          (record p { lines = (ifndef_line, g) ∷ body ++ (endif_line, e) ∷ rest })
        ≡ run files lexer fuel f (record p { lines = rest })
  unfolding run turn process_line dead
  run-include_guard f g e name m body rest p n d c = elim (Bool-cases (dead p.state)) [
    | inl h ↦
        run-conditional f undefined ifndef_line g e body rest p c h
          (run-opens _ ifndef_line g _ p.state p refl h)
    | inr h ↦ run-conditional f ignored ifndef_line g e body rest p c refl (
        ap (λ r. again (length body + suc f) r.0)
          (guarded-live (push (record p { lines = body ++ (endif_line, e) ∷ rest })) _ h
            ∙ ap
                (λ b. (
                  decide (if b then ignored else accepted)
                      (push (record p { lines = body ++ (endif_line, e) ∷ rest })),
                  none,
                ))
                (names_macro-defined g name m p n d)))
  ]

  -- In a branch that was taken, the lines from its `else` to its `endif` have no effect but to close the
  -- conditional; where it was not taken, the lines up to `else` have none, and those behind it are read.
  pub run-else :
      (f : ℕ) (x e : String) (body elses rest : List Line) (s : List Branch) (p : CParser Node)
      → (balanced body 0 ≡ true) × (balanced elses 0 ≡ true)
      → (run files lexer fuel (suc (length elses + suc f)) (record p {
        lines = (else_line, x) ∷ elses ++ (endif_line, e) ∷ rest;
        state = accepted ∷ s;
      })
          ≡ run files lexer fuel f (record p { lines = rest; state = s }))
        × (run files lexer fuel
              (length body + suc f)
              (record p { lines = body ++ (else_line, x) ∷ elses; state = ignored ∷ s })
            ≡ run files lexer fuel f (record p { lines = elses; state = accepted ∷ s }))
  unfolding run turn process_line on_else dead
  run-else f x e body elses rest s p (c, c') = (
    run-branch (suc f) skipped elses ((endif_line, e) ∷ rest) s p c' refl
        ∙ run-endif f e rest skipped s p,
    run-branch (suc f) ignored body ((else_line, x) ∷ elses) s p c refl,
  )
