-- ===== src/Glob/Tests.antt =====
-- Node.py: `ant_glob` on small patterns, and its theorem at a concrete path.
use meguro.Base.{
  string_eq, String, List, [], ◌∷◌, none, some, true, false, not, ◌&&◌, ◌==◌, ◌≡◌, refl, arith,
}
use meguro.Glob.{Part, Pattern, stars, name_test, ant_iter, accept, filtre, filtre_one, has_empty}
use meguro.Glob.Matching.{matches_any, on_the_way, ant_iter_lem}

abbrev named : String → Part
named s = name_test (λ n. n == s)

-- src/**/a.c, without what is in a folder `old`
abbrev taken : List Pattern
taken = (named "src" ∷ stars ∷ named "a.c" ∷ []) ∷ []

abbrev left_out : List Pattern
left_out = (stars ∷ named "old" ∷ []) ∷ []

found_test : ant_iter 25 ("src" ∷ "x" ∷ "a.c" ∷ []) (taken, left_out) ≡ some true
unfolding ant_iter accept filtre filtre_one has_empty
found_test = refl

left_out_test : ant_iter 25 ("src" ∷ "old" ∷ "a.c" ∷ []) (taken, left_out) ≡ some false
unfolding ant_iter accept filtre filtre_one has_empty
left_out_test = refl

-- A `**` behind a `**` raises.
twice_test : ant_iter 25 ("src" ∷ []) ((stars ∷ stars ∷ []) ∷ [], []) ≡ none
unfolding ant_iter accept filtre filtre_one
twice_test = refl

ant_iter_lem_example :
    ant_iter 25 ("src" ∷ "old" ∷ "a.c" ∷ []) (taken, left_out)
    ≡ some (
        matches_any taken ("src" ∷ "old" ∷ "a.c" ∷ [])
        && not (on_the_way (matches_any left_out) ("src" ∷ "old" ∷ "a.c" ∷ [])))
ant_iter_lem_example =
    ant_iter_lem 25 "src" ("old" ∷ "a.c" ∷ []) taken left_out (omega arith) (tt, tt) (tt, tt)
