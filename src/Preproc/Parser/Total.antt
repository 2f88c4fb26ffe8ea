-- ===== src/Preproc/Parser/Total.antt =====
-- preproc.py: the scan of a file ends, and no folder is missing from its stack.
use meguro.Base.{
  string_eq, ℕ, zero, suc, ◌+◌, ◌*◌, ◌<◌, ◌≤◌, String, List, [], ◌∷◌, ◌++◌, none, some, Bool, true,
  false, ◌≡◌, refl, sym, ◌∙◌, subst, ◌⊎◌, inl, inr, length, length-append, Bool-cases, lookup,
  insert, lookup-insert, ltb, ◌==◌, arith, if◌then◌else◌,
}
use native.Mathlib.Nat.{suc-mul}
use meguro.Preproc.Token.{Result, ok, err, index, preproc}
use meguro.Preproc.Scan.{
  Keyword, Line, Lexer, Files, Reading, pop_file, lines_read, io_error, failed,
}
use meguro.Preproc.Parser.{CParser, After, process_line, addlines, turn, run, def_lines, start}
use meguro.Preproc.Parser.Walk.{Moves, process_line-Moves, by-Option_eq}

-- How often the lines end a file.
abbrev ends : Keyword → ℕ
ends pop_file = 1
ends _ = 0

unfoldable pub pops : List Line → ℕ
pops [] = 0
pops ((k, x) ∷ l) = ends k + pops l

pops-append : (l m : List Line) → pops (l ++ m) ≡ pops l + pops m
unfolding pops
pops-append [] m = omega arith
pops-append ((k, x) ∷ l) m = omega (arith, pops-append l m)

-- A cached text ends one file and has at most `size` lines.
abbrev pub IsCached : ℕ → List (String × List Line) → Type 0
IsCached size cache =
    (path : String) (l : List Line) → lookup path cache ≡ some l → (pops l ≡ 1) × (length l ≤ size)

-- The lines read of a file end none, and are fewer than `size`.
abbrev pub IsReadable : {Node : Type 0} → Files Node → ℕ → Type 0
IsReadable files size =
    (path : String) (l : List Line)
    → files.filter_comments path ≡ lines_read l
    → (pops l ≡ 0) × (length l < size)

-- There is a folder for each file that is still to end, and fuel for the lines that are left and those
-- of the files that may still be added.
abbrev Good :
    {Node : Type 0} → ℕ → ℕ → List Line × (List Node × (ℕ × List (String × List Line))) → Type 0
Good size f t =
    ((pops t.0 ≤ length t.1.0) × ((k : ℕ) × ((30001 ≤ t.1.1.0 + k) × (length t.0 + k * size < f))))
    × IsCached size t.1.1.1

abbrev IsGood : {Node : Type 0} → ℕ → ℕ → CParser Node → Type 0
IsGood size f p = Good size f (p.lines, (p.currentnode_stack, (p.count_files, p.parse_cache)))

IsCached-insert :
    (size : ℕ) (path : String) (l : List Line) (cache : List (String × List Line))
    → (pops l ≡ 1) × (length l ≤ size)
    → IsCached size cache
    → IsCached size (insert path l cache)
IsCached-insert size path l cache h c key m e = elim (Bool-cases (path == key)) [
  | inl b ↦
      let same : some l ≡ some m = sym (lookup-insert path key l cache ∙ rw b refl) ∙ e in
      let eq : l ≡ m = cc in subst (λ x. (pops x ≡ 1) × (length x ≤ size)) eq h
  | inr b ↦ c key m (sym (lookup-insert path key l cache ∙ rw b refl) ∙ e)
]

text_end :
    {size : ℕ} (l : List Line)
    → (pops l ≡ 0) × (length l < size)
    → (pops (l ++ (pop_file, "") ∷ []) ≡ 1) × (length (l ++ (pop_file, "") ∷ []) ≤ size)
unfolding pops
text_end l (a, b) = (
  omega (arith, pops-append l ((pop_file, "") ∷ [])),
  omega (arith, length-append l ((pop_file, "") ∷ [])),
)

by-if_eq :
    {B : Type 0} (P : B → Type 0) (a b : B) (c : Bool)
    → P a
    → (c ≡ false → P b)
    → P (if c then a else b)
by-if_eq P a b true k l = k
by-if_eq P a b false k l = l refl

by-Reading :
    {B : Type 0} (P : B → Type 0) (g : List Line → B) (a b : B) (r : Reading)
    → ((l : List Line) → r ≡ lines_read l → P (g l))
    → P a
    → P b
    → P (elim r [ lines_read l ↦ g l | io_error ↦ a | failed ↦ b ])
by-Reading P g a b (lines_read l) k h m = k l refl
by-Reading P g a b io_error k h m = h
by-Reading P g a b failed k h m = m

-- The budget of files, by one and by the lines of the file that is added.
spend :
    (size f k count len add : ℕ)
    → 30001 ≤ count + k
    → len + k * size < f
    → count + 1 ≤ 30000
    → add ≤ size
    → (j : ℕ) × ((30001 ≤ count + 1 + j) × (add + len + j * size < f))
spend size f zero count len add a b c d = absurd (omega arith)
spend size f (suc k) count len add a b c d = (k, (omega arith, omega (arith, suc-mul k size)))

module _ {Node : Type 0} (files : Files Node) (size : ℕ) where
  -- The parser with a file on its stack, and counted.
  abbrev entered : Node → CParser Node → CParser Node
  entered n p = record p {
    currentnode_stack = files.parent n ∷ p.currentnode_stack;
    count_files = p.count_files + 1;
  }

  entered-IsGood :
      (f : ℕ) (n : Node) (p : CParser Node) → IsGood size f p → IsGood size f (entered n p)
  entered-IsGood f n p ((a, (k, (b, c))), d) = ((omega arith, (k, (omega arith, c))), d)

  added-IsGood :
      (f : ℕ) (n : Node) (l : List Line) (cache : List (String × List Line)) (p : CParser Node)
      → (pops l ≡ 1) × (length l ≤ size)
      → ltb 30000 (p.count_files + 1) ≡ false
      → IsCached size cache
      → IsGood size f p
      → IsGood size f (record (entered n p) { lines = l ++ p.lines; parse_cache = cache })
  added-IsGood f n l cache p (u, v) e d ((a, (k, (b, c))), _) =
      let budget = spend size f k p.count_files (length p.lines) (length l) b c (ground arith) v in
      (
        (
          omega (arith, pops-append l p.lines),
          (budget.0, (budget.1.0, omega (arith, budget.1.1, length-append l p.lines))),
        ),
        d,
      )

  addlines-IsGood :
      (f : ℕ) (n : Node) (p : CParser Node)
      → IsReadable files size
      → IsGood size f p
      → IsGood size f (addlines files n p).0
  unfolding addlines pops
  addlines-IsGood f n p r g =
      let stays = entered-IsGood f n p g in
      by-if_eq Done _ _ (ltb 30000 (p.count_files + 1)) stays (λ e.
        by-Option_eq Done _ _ (lookup (files.abspath n) p.parse_cache)
          (by-Reading Done _ _ _ (files.filter_comments (files.abspath n))
            (λ l h.
              let whole = text_end l (r (files.abspath n) l h) in
              added-IsGood f n (l ++ (pop_file, "") ∷ []) _ p whole e
                (IsCached-insert size (files.abspath n) (l ++ (pop_file, "") ∷ []) p.parse_cache
                  whole g.1)
                g)
            stays stays)
          (λ l h. added-IsGood f n l p.parse_cache p (g.1 (files.abspath n) l h) e g.1 g))
    where
      Done : After Node → Type 0
      Done a = IsGood size f a.0

  addlines-error :
      (n : Node) (p : CParser Node)
      → ((addlines files n p).1 ≡ none) ⊎ ((addlines files n p).1 ≡ some preproc)
  unfolding addlines
  addlines-error n p = by-if_eq Done _ _ (ltb 30000 (p.count_files + 1)) (inr refl) (λ e.
      by-Option_eq Done _ _ (lookup (files.abspath n) p.parse_cache)
        (by-Reading Done _ _ _ (files.filter_comments (files.abspath n)) (λ l h. inl refl)
          (inr refl) (inl refl))
        (λ l h. inl refl))
    where
      Done : After Node → Type 0
      Done a = (a.1 ≡ none) ⊎ (a.1 ≡ some preproc)

  Moves-IsGood :
      (f : ℕ) (p q : CParser Node)
      → IsReadable files size
      → Moves files p q
      → IsGood size f p
      → IsGood size f q
  Moves-IsGood f p q r (inl e) g = subst (Good size f) (sym e) g
  Moves-IsGood f p q r (inr (n, (m, (e, h)))) g =
      subst (Good size f) (sym h) (addlines-IsGood f n m r (subst (Good size f) (sym e) g))

  module _ (lexer : Lexer) (fuel : ℕ) where
    -- The scan ends with no line left.
    abbrev Finishes : Result (CParser Node) → Type 0
    Finishes r = (q : CParser Node) × ((r ≡ ok q) × (q.lines ≡ []))

    abbrev next : List Line → CParser Node → CParser Node
    next rest p = record p { lines = rest }

    next-IsGood :
        (f : ℕ) (k : Keyword) (x : String) (rest : List Line) (p : CParser Node)
        → IsGood size (suc f) (next ((k, x) ∷ rest) p)
        → IsGood size f (next rest p)
    unfolding pops
    next-IsGood f k x rest p ((a, (n, (b, c))), d) =
        ((omega (arith, a), (n, (b, omega (arith, c)))), d)

    -- Behind the end of a file there is its folder to take off.
    leave-Finishes :
        (f : ℕ) (x : String) (rest : List Line) (p : CParser Node) (s : List Node)
        → IsGood size (suc f) (record p { lines = (pop_file, x) ∷ rest; currentnode_stack = s })
        → ((q : CParser Node) → IsGood size f q → Finishes (run files lexer fuel f q))
        → Finishes (elim s [
          | [] ↦ err index
          | _ ∷ ns ↦ run files lexer fuel f (record p { lines = rest; currentnode_stack = ns })
        ])
    unfolding pops
    leave-Finishes f x rest p [] ((a, _), _) again = absurd (omega (arith, a))
    leave-Finishes f x rest p (n ∷ ns) ((a, (k, (b, c))), d) again =
        again (record p { lines = rest; currentnode_stack = ns })
          ((omega (arith, a), (k, (b, omega (arith, c)))), d)

    turn-Finishes :
        (f : ℕ) (k : Keyword) (x : String) (rest : List Line) (p : CParser Node)
        → IsReadable files size
        → IsGood size (suc f) (next ((k, x) ∷ rest) p)
        → ((q : CParser Node) → IsGood size f q → Finishes (run files lexer fuel f q))
        → Finishes (turn files lexer fuel (run files lexer fuel f) ((k, x) ∷ rest) p)
    unfolding turn
    turn-Finishes f pop_file x rest p r g again =
        leave-Finishes f x rest p p.currentnode_stack g again
    turn-Finishes f k x rest p r g again =
        again (process_line files lexer fuel k x (next rest p)).0 (
          Moves-IsGood f (next rest p) (process_line files lexer fuel k x (next rest p)).0 r
            (process_line-Moves files lexer fuel k x (next rest p)) (next-IsGood f k x rest p g))

    -- The same with the lines of the parser taken apart.
    lines-Finishes :
        (f : ℕ) (l : List Line) (p : CParser Node)
        → IsReadable files size
        → p.lines ≡ l
        → IsGood size (suc f) (next l p)
        → ((q : CParser Node) → IsGood size f q → Finishes (run files lexer fuel f q))
        → Finishes (turn files lexer fuel (run files lexer fuel f) l p)
    unfolding turn
    lines-Finishes f [] p r e g again = (p, (refl, e))
    lines-Finishes f ((k, x) ∷ rest) p r e g again = turn-Finishes f k x rest p r g again

    run-Finishes :
        (f : ℕ) (p : CParser Node)
        → IsReadable files size
        → IsGood size f p
        → Finishes (run files lexer fuel f p)
    unfolding run
    run-Finishes zero p r ((_, (k, (_, c))), _) = absurd (omega (arith, c))
    run-Finishes (suc f) p r g = lines-Finishes f p.lines p r refl g (λ q. run-Finishes f q r)

    def_lines-IsGood :
        (f : ℕ) (l : List String) (p : CParser Node)
        → IsGood size f p
        → IsGood size (length l + f) (next (def_lines files lexer fuel l ++ p.lines) p)
    unfolding pops
    def_lines-IsGood f [] p ((a, (k, (b, c))), d) = ((a, (k, (b, omega (arith, c)))), d)
    def_lines-IsGood f (x ∷ l) p g =
        let h = def_lines-IsGood f l p g in
        ((omega (arith, h.0.0), (h.0.1.0, (h.0.1.1.0, omega (arith, h.0.1.1.1)))), h.1)

    start_from :
        (f : ℕ) (l : List String) (q : After Node)
        → IsReadable files size
        → (q.1 ≡ none) ⊎ (q.1 ≡ some preproc)
        → IsGood size f q.0
        → (elim q.1 [
          | some e ↦ err e
          | none ↦
              run files lexer fuel
                (length l + f)
                (next (def_lines files lexer fuel l ++ q.0.lines) q.0)
        ]
            ≡ err preproc)
          ⊎ Finishes (elim q.1 [
            | some e ↦ err e
            | none ↦
                run files lexer fuel
                  (length l + f)
                  (next (def_lines files lexer fuel l ++ q.0.lines) q.0)
          ])
    start_from f l (q, none) r e g = inr (run-Finishes _ _ r (def_lines-IsGood f l q g))
    start_from f l (q, some e) r (inl h) g = cc
    start_from f l (q, some e) r (inr h) g = inl cc

    -- Where a file that is read has fewer than `size` lines, the texts that the cache holds are such
    -- files, and each file that is still to end has its folder on the stack: with fuel for 30001 files,
    -- the lines at hand and the definitions of the environment, the scan of a file goes on until no line
    -- is left, unless the file itself is refused with a PreprocError. It never lacks fuel, and never a
    -- folder to take off.
    pub start_total :
        (f : ℕ) (deflines : List String) (node : Node) (p : CParser Node)
        → IsReadable files size
        → IsCached size p.parse_cache
        → pops p.lines ≤ length p.currentnode_stack
        → length p.lines + 30001 * size < f
        → (start files lexer fuel (length deflines + f) deflines node p ≡ err preproc)
          ⊎ Finishes (start files lexer fuel (length deflines + f) deflines node p)
    unfolding start
    start_total f l node p r c d h =
        start_from f l (addlines files node p) r (addlines-error node p)
          (addlines-IsGood f node p r ((d, (30001, (omega arith, h))), c))
