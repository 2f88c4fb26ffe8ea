-- ===== src/TaskGen/Posting.antt =====
-- TaskGen.py: `post`, the calls that `apply` makes, and the methods that change the list which it walks
-- through.
use meguro.Base.{
  string_eq, ℕ, zero, suc, ◌+◌, String, List, [], ◌∷◌, ◌++◌, Option, none, some, Bool, true, false,
  not, ◌&&◌, if◌then◌else◌, ◌==◌, length, get_elem?, mem, ◌≡◌, refl, sym, ap, ◌∙◌, All,
  append_assoc, append-nil, arith,
}

-- `self.meths.remove(x)`, with the ValueError of a missing one passed over.
unfoldable pub remove : String → List String → List String
remove x [] = []
remove x (y ∷ l) = let rest = remove x l in if y == x then l else y ∷ rest

abbrev pub last_is : String → List String → Bool
last_is x [] = false
last_is x (y ∷ []) = y == x
last_is x (y ∷ z ∷ l) = last_is x (z ∷ l)

abbrev pub is_nil : List String → Bool
is_nil [] = true
is_nil (_ ∷ _) = false

-- What `exec_rule` does to the list, with and without the attribute `rule`.
unfoldable pub exec_rule : Bool → List String → List String
unfolding remove
exec_rule rule meths = if rule then remove "apply_core" meths else meths

-- What `sequence_order` does to it, and whether it goes on to order the tasks.
unfoldable pub sequence_order : List String → List String × Bool
sequence_order meths =
    if not (is_nil meths) && not (last_is "sequence_order" meths)
    then (meths ++ "sequence_order" ∷ [], false)
    else (meths, true)

-- The list behind a call. Methods may remove or add methods: `change` is what those of the tools do to it.
unfoldable pub call :
    (String → List String → List String) → Bool → String → List String → List String
unfolding exec_rule sequence_order
call change rule x meths =
    if x == "exec_rule"
    then exec_rule rule meths
    else if x == "sequence_order"
    then (sequence_order meths).0
    else change x meths

-- The calls of some methods, and then those of the rest of the loop.
abbrev pub also : List String → Option (List String) → Option (List String)
also l none = none
also l (some r) = some (l ++ r)

-- `for x in out: v()`, by the place in the list, which the calls change: the methods called, in order.
-- With fuel for the rounds.
unfoldable pub run_methods :
    (String → List String → List String) → Bool → ℕ → ℕ → List String → Option (List String)
unfolding call
run_methods change rule zero i meths = none
run_methods change rule (suc f) i meths = elim (get_elem? meths i) [
  | none ↦ some []
  | some x ↦ also (x ∷ []) (run_methods change rule f (suc i) (call change rule x meths))
]

-- A method other than `sequence_order` whose call leaves the list alone, whatever is in it.
abbrev IsQuiet : (String → List String → List String) → Bool → String → Type 0
IsQuiet change rule x =
    ((x == "sequence_order") ≡ false) × ((l : List String) → call change rule x l ≡ l)

abbrev rounds : List String → ℕ → ℕ
rounds [] f = f
rounds (x ∷ l) f = suc (rounds l f)

get_elem?-append :
    (done rest : List String) (x : String) → get_elem? (done ++ x ∷ rest) (length done) ≡ some x
get_elem?-append [] rest x = refl
get_elem?-append (y ∷ done) rest x = get_elem?-append done rest x

get_elem?-end : (done : List String) → get_elem? done (length done) ≡ none
get_elem?-end [] = refl
get_elem?-end (y ∷ done) = get_elem?-end done

length-snoc : (done : List String) (x : String) → length (done ++ x ∷ []) ≡ suc (length done)
length-snoc [] x = refl
length-snoc (y ∷ done) x = ap suc (length-snoc done x)

also-nil : (r : Option (List String)) → r ≡ also [] r
also-nil none = refl
also-nil (some r) = refl

also-also : (l m : List String) (r : Option (List String)) → also l (also m r) ≡ also (l ++ m) r
also-also l m none = refl
also-also l m (some r) = ap some (sym (append_assoc l m r))

module _ (change : String → List String → List String) (rule : Bool) where
  -- One round, by what the call leaves of the list.
  run_round :
      (f : ℕ) (done rest next : List String) (x : String)
      → call change rule x (done ++ x ∷ rest) ≡ (done ++ x ∷ []) ++ next
      → run_methods change rule (suc f) (length done) (done ++ x ∷ rest)
        ≡ also
            (x ∷ [])
            (run_methods change rule f (length (done ++ x ∷ [])) ((done ++ x ∷ []) ++ next))
  unfolding run_methods
  run_round f done rest next x e =
      rw (get_elem?-append done rest x, run_methods) (rw e (rw (length-snoc done x) refl))

  run_quiet :
      (f : ℕ) (done l rest : List String)
      → All (IsQuiet change rule) l
      → run_methods change rule (rounds l f) (length done) (done ++ (l ++ rest))
        ≡ also l (run_methods change rule f (length (done ++ l)) ((done ++ l) ++ rest))
  run_quiet f done [] rest h = rw (append-nil) (also-nil _)
  run_quiet f done (x ∷ l) rest (q, h) =
      run_round (rounds l f) done (l ++ rest) (l ++ rest) x
        (q.1 _ ∙ sym (append_assoc done (x ∷ []) (l ++ rest)))
      ∙ (ap (also (x ∷ [])) (run_quiet f (done ++ x ∷ []) l rest h)
          ∙ (also-also (x ∷ []) l _
              ∙ ap (λ d. also (x ∷ l) (run_methods change rule f (length d) (d ++ rest)))
                  (append_assoc done (x ∷ []) l)))

  -- A list of such methods is walked through to its end.
  run_quiet-All :
      (f : ℕ) (done l : List String)
      → All (IsQuiet change rule) l
      → run_methods change rule (rounds l (suc f)) (length done) (done ++ l) ≡ some l
  unfolding run_methods
  run_quiet-All f done [] h = rw append-nil (rw (get_elem?-end done, run_methods) refl)
  run_quiet-All f done (x ∷ l) (q, h) =
      run_round (rounds l (suc f)) done l l x (q.1 _ ∙ sym (append_assoc done (x ∷ []) l))
      ∙ ap (also (x ∷ [])) (run_quiet-All f (done ++ x ∷ []) l h)

rounds-length : (l : List String) (f : ℕ) → rounds l f ≡ length l + f
rounds-length [] f = omega arith
rounds-length (x ∷ l) f = omega (arith, rounds-length l f)

remove-append :
    (x y : String) (a b : List String)
    → mem x a ≡ false
    → (y == x) ≡ false
    → remove x (a ++ y ∷ b) ≡ a ++ y ∷ remove x b
unfolding remove
remove-append x y [] b h e = rw e refl
remove-append x y (z ∷ a) b h e =
    ground (arith, remove-append x y a b, string_eq.decides x z, string_eq.decides z x)

All-remove : (P : String → Type 0) (x : String) (l : List String) → All P l → All P (remove x l)
unfolding remove
All-remove P x [] h = tt
All-remove P x (y ∷ l) (q, h) = by_test (y == x) l (y ∷ remove x l) h (q, All-remove P x l h)
  where
    by_test : (b : Bool) (l m : List String) → All P l → All P m → All P (if b then l else m)
    by_test true l m h k = h
    by_test false l m h k = k

last_is-append : (x y : String) (a b : List String) → last_is x (a ++ y ∷ b) ≡ last_is x (y ∷ b)
last_is-append x y [] b = refl
last_is-append x y (z ∷ []) b = refl
last_is-append x y (z ∷ w ∷ a) b = last_is-append x y (w ∷ a) b

last_is-quiet :
    (change : String → List String → List String) (rule : Bool) (y : String) (b : List String)
    → All (IsQuiet change rule) (y ∷ b)
    → last_is "sequence_order" (y ∷ b) ≡ false
last_is-quiet change rule y [] (q, h) = q.0
last_is-quiet change rule y (z ∷ b) (q, h) = last_is-quiet change rule z b h

is_nil-append : (y : String) (a b : List String) → is_nil (a ++ y ∷ b) ≡ false
is_nil-append y [] b = refl
is_nil-append y (x ∷ a) b = refl

module _ (change : String → List String → List String) where
  called :
      (a b : List String)
      → mem "apply_core" a ≡ false
      → call change true "exec_rule" (a ++ "exec_rule" ∷ b)
        ≡ (a ++ "exec_rule" ∷ []) ++ remove "apply_core" b
  unfolding call exec_rule
  called a b m =
      remove-append "apply_core" "exec_rule" a b m refl
      ∙ sym (append_assoc a ("exec_rule" ∷ []) (remove "apply_core" b))

  -- With the attribute `rule`, where `exec_rule` stands once in the list, with no `apply_core` ahead of
  -- it, where `sequence_order` does not, and where the other methods in the list leave it alone: every
  -- method is called in order but the first `apply_core`.
  pub run_methods-exec_rule :
      (f : ℕ) (a b : List String)
      → All (IsQuiet change true) a
      → All (IsQuiet change true) b
      → mem "apply_core" a ≡ false
      → run_methods change true
          (length a + suc (length (remove "apply_core" b) + suc f))
          0
          (a ++ "exec_rule" ∷ b)
        ≡ some (a ++ "exec_rule" ∷ remove "apply_core" b)
  run_methods-exec_rule f a b h k m =
      let e = rounds-length a (suc (rounds (remove "apply_core" b) (suc f))) in
      let e' = rounds-length (remove "apply_core" b) (suc f) in
      rw (← e') (
        rw (← e) (
          run_quiet change true (suc (rounds (remove "apply_core" b) (suc f))) [] a
            ("exec_rule" ∷ b) h
          ∙ (ap (also a) (
              run_round change true (rounds (remove "apply_core" b) (suc f)) a b
                (remove "apply_core" b) "exec_rule" (called a b m)
              ∙ ap (also ("exec_rule" ∷ [])) (
                  run_quiet-All change true f (a ++ "exec_rule" ∷ []) (remove "apply_core" b)
                    (All-remove (IsQuiet change true) "apply_core" b k))))))

  appended :
      (a : List String) (y : String) (b : List String)
      → All (IsQuiet change false) (y ∷ b)
      → call change false "sequence_order" (a ++ "sequence_order" ∷ y ∷ b)
        ≡ (a ++ "sequence_order" ∷ []) ++ (y ∷ b ++ "sequence_order" ∷ [])
  unfolding call sequence_order
  appended a y b k = rw (last_is-append "sequence_order" "sequence_order" a (y ∷ b)) (
      rw (last_is-quiet change false y b k)
        (rw (is_nil-append "sequence_order" a (y ∷ b)) (simp append_assoc)))

  not_again :
      (d : List String)
      → call change false "sequence_order" (d ++ "sequence_order" ∷ [])
        ≡ (d ++ "sequence_order" ∷ []) ++ []
  unfolding call sequence_order
  not_again d =
      rw (last_is-append "sequence_order" "sequence_order" d [])
        (rw (is_nil-append "sequence_order" d []) (simp append-nil))

  -- Without the attribute `rule`, where `sequence_order` stands once in the list, not last, and where
  -- the other methods in the list leave it alone, as `exec_rule` does then: `sequence_order` is called
  -- in its place, and once more behind all the others.
  pub run_methods-sequence_order :
      (f : ℕ) (a b : List String) (y : String)
      → All (IsQuiet change false) a
      → All (IsQuiet change false) (y ∷ b)
      → run_methods change false
          (length a + suc (length (y ∷ b) + suc (suc f)))
          0
          (a ++ "sequence_order" ∷ y ∷ b)
        ≡ some (a ++ "sequence_order" ∷ (y ∷ b ++ "sequence_order" ∷ []))
  run_methods-sequence_order f a b y h k =
      let so : String = "sequence_order" in
      let tail = so ∷ [] in
      let d = (a ++ tail) ++ y ∷ b in
      let later = rounds (y ∷ b) (suc (suc f)) in
      let e = rounds-length a (suc later) in
      let e' = rounds-length (y ∷ b) (suc (suc f)) in
      rw (← e') (
        rw (← e) (
          run_quiet change false (suc later) [] a (so ∷ y ∷ b) h
          ∙ ap (also a) (
              run_round change false later a (y ∷ b) (y ∷ b ++ tail) so (appended a y b k)
              ∙ ap (also tail) (
                  run_quiet change false (suc (suc f)) (a ++ tail) (y ∷ b) tail k
                  ∙ ap (also (y ∷ b)) (
                      run_round change false (suc f) d [] [] so (not_again d)
                      ∙ ap (also tail) (run_quiet-All change false f (d ++ tail) [] tt))))))
