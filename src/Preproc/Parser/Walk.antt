-- ===== src/Preproc/Parser/Walk.antt =====
-- preproc.py: how the lines that are left, the stack of folders and the files read change in `c_parser`.
use meguro.Base.{
  string_eq, ℕ, String, List, [], ◌∷◌, ◌++◌, Option, none, some, Bool, true, false, ◌≡◌, refl, ◌⊎◌,
  inl, inr, lookup, mem, if◌then◌else◌,
}
use meguro.Preproc.Token.{Error, Result, ok, err}
use meguro.Preproc.Expand.{eval_macro}
use meguro.Preproc.Scan.{
  Keyword, Line, Lexer, Files, if_line, ifdef_line, ifndef_line, elif_line, else_line, endif_line,
  include_line, import_line, define_line, undef_line, pragma_line, pop_file, other, is_moc,
  extract_include,
}
use meguro.Preproc.Parser.{
  Branch, CParser, After, accepted, ignored, process_line, guarded, addlines, found_at, tryfind,
  first_found, on_condition, on_elif, on_else, on_endif, on_include, on_define, on_undef, on_pragma,
  push, branch_if, is_some,
}

-- What holds of each case of a value that is taken apart holds of the outcome.
module _ {A : Type 0} {B : Type 0} (P : B → Type 0) where
  by-Result :
      (g : Error → B) (h : A → B) (r : Result A)
      → ((e : Error) → P (g e))
      → ((a : A) → P (h a))
      → P (elim r [ err e ↦ g e | ok a ↦ h a ])
  by-Result g h (err e) k l = k e
  by-Result g h (ok a) k l = l a

  pub by-Option :
      (b : B) (h : A → B) (o : Option A)
      → P b
      → ((a : A) → P (h a))
      → P (elim o [ none ↦ b | some a ↦ h a ])
  by-Option b h none k l = k
  by-Option b h (some a) k l = l a

  -- With what the value was, too.
  pub by-Option_eq :
      (b : B) (h : A → B) (o : Option A)
      → P b
      → ((a : A) → o ≡ some a → P (h a))
      → P (elim o [ none ↦ b | some a ↦ h a ])
  by-Option_eq b h none k l = k
  by-Option_eq b h (some a) k l = l a refl

  by-List :
      (b : B) (h : A → List A → B) (o : List A)
      → P b
      → ((a : A) (l : List A) → P (h a l))
      → P (elim o [ [] ↦ b | a ∷ l ↦ h a l ])
  by-List b h [] k l = k
  by-List b h (a ∷ o) k l = l a o

pub by-if : {B : Type 0} (P : B → Type 0) (a b : B) (c : Bool) → P a → P b → P (if c then a else b)
by-if P a b true k l = k
by-if P a b false k l = l

module _ {Node : Type 0} (files : Files Node) where
  -- What the loop of `start` depends on.
  abbrev pub fields : CParser Node → List Line × (List Node × (ℕ × List (String × List Line)))
  fields p = (p.lines, (p.currentnode_stack, (p.count_files, p.parse_cache)))

  -- From `p` to `q` nothing of that changes, or one file is added.
  abbrev pub Moves : CParser Node → CParser Node → Type 0
  Moves p q =
      (fields q ≡ fields p)
      ⊎ ((n : Node) × ((r : CParser Node) × ((fields r ≡ fields p)
              × (fields q ≡ fields (addlines files n r).0))))

  abbrev pub Ends : CParser Node → After Node → Type 0
  Ends p a = Moves p a.0

  found_at-Moves :
      (n : Node) (name : String) (p q : CParser Node)
      → fields q ≡ fields p
      → Moves p (found_at files n name q).0
  unfolding found_at
  found_at-Moves n name p q e =
      by-if (Ends p) _ _ (is_moc name) (inl e)
        (inr (n, (record q { nodes = q.nodes ++ n ∷ [] }, (e, refl))))

  tryfind-Moves :
      (name : String) (p q : CParser Node) → fields q ≡ fields p → Moves p (tryfind files name q).0
  unfolding tryfind
  tryfind-Moves name p q e = by-List (Ends p) _ _ q.currentnode_stack (inl e) (λ here l.
      by-Option (Ends p) _ _ (first_found (λ n. files.find_resource n name) (here ∷ q.nodepaths))
        (inl e) (λ n. found_at-Moves n name p (record q { curfile = name }) e))

  guarded-Moves :
      (p q : CParser Node) (act : After Node)
      → fields q ≡ fields p
      → Moves p act.0
      → Moves p (guarded q act).0
  guarded-Moves p q act e m = by-if (Ends p) _ _ _ (inl e) m

  module _ (lexer : Lexer) (fuel : ℕ) where
    on_condition-Moves :
        (branch : Bool → Branch) (x : String) (p q : CParser Node)
        → fields q ≡ fields p
        → Moves p (on_condition files lexer fuel branch x q).0
    unfolding on_condition
    on_condition-Moves branch x p q e =
        by-Result (Ends p) _ _
          (eval_macro lexer.tokenize lexer.looks_like_fun fuel (lexer.tokenize x) q.defs)
          (λ x. inl e) (λ a. inl e)

    on_elif-Moves :
        (s : List Branch) (x : String) (p : CParser Node)
        → Moves p (on_elif files lexer fuel s x p).0
    unfolding on_elif
    on_elif-Moves [] x p = inl refl
    on_elif-Moves (accepted ∷ s) x p = inl refl
    on_elif-Moves (ignored ∷ s) x p = on_condition-Moves branch_if x p p refl
    on_elif-Moves (_ ∷ s) x p = inl refl

    on_else-Moves : (s : List Branch) (p : CParser Node) → Moves p (on_else files lexer fuel s p).0
    unfolding on_else
    on_else-Moves [] p = inl refl
    on_else-Moves (accepted ∷ s) p = inl refl
    on_else-Moves (ignored ∷ s) p = inl refl
    on_else-Moves (_ ∷ s) p = inl refl

    on_endif-Moves :
        (s : List Branch) (p : CParser Node) → Moves p (on_endif files lexer fuel s p).0
    unfolding on_endif
    on_endif-Moves [] p = inl refl
    on_endif-Moves (_ ∷ s) p = inl refl

    on_include-Moves :
        (import : Bool) (x : String) (p : CParser Node)
        → Moves p (on_include files lexer fuel import x p).0
    unfolding on_include
    on_include-Moves import x p =
        by-Result (Ends p) _ _ (extract_include lexer fuel x p.defs) (λ x. inl refl)
          (λ r. by-if (Ends p) _ _ (mem r.0.1 p.ban_includes) (inl refl) (
            tryfind-Moves r.0.1 p
              (if import
                then record p { defs = r.1; ban_includes = p.ban_includes ++ r.0.1 ∷ [] }
                else record p { defs = r.1 })
              (by-if (λ (a : CParser Node). fields a ≡ fields p) _ _ import refl refl)))

    -- A line leaves the files, the folders and the lines to read as they are, or adds one file.
    pub process_line-Moves :
        (k : Keyword) (x : String) (p : CParser Node)
        → Moves p (process_line files lexer fuel k x p).0
    unfolding process_line on_define on_undef on_pragma
    process_line-Moves if_line x p =
        guarded-Moves p (push p) _ refl (on_condition-Moves branch_if x p (push p) refl)
    process_line-Moves ifdef_line x p = guarded-Moves p (push p) _ refl (inl refl)
    process_line-Moves ifndef_line x p = guarded-Moves p (push p) _ refl (inl refl)
    process_line-Moves endif_line x p = on_endif-Moves p.state p
    process_line-Moves elif_line x p = on_elif-Moves p.state x p
    process_line-Moves else_line x p = on_else-Moves p.state p
    process_line-Moves include_line x p = guarded-Moves p p _ refl (on_include-Moves false x p)
    process_line-Moves import_line x p = guarded-Moves p p _ refl (on_include-Moves true x p)
    process_line-Moves define_line x p =
        guarded-Moves p p _ refl
          (by-Option (Ends p) _ _ (lexer.macro_name x) (inl refl) (λ n. inl refl))
    process_line-Moves undef_line x p = guarded-Moves p p _ refl (
        by-Option (Ends p) _ _ (lexer.macro_name x) (inl refl)
          (λ n. by-if (Moves p) _ _ (is_some (lookup n p.defs)) (inl refl) (inl refl)))
    process_line-Moves pragma_line x p =
        guarded-Moves p p _ refl (by-if (Moves p) _ _ (lexer.pragma_once x) (inl refl) (inl refl))
    process_line-Moves pop_file x p = guarded-Moves p p _ refl (inl refl)
    process_line-Moves other x p = guarded-Moves p p _ refl (inl refl)
