-- ===== src/Glob/Matching.antt =====
-- Node.py: `ant_glob` against a plain reading of its patterns.
use meguro.Base.{
  ℕ, zero, suc, ◌≤◌, String, List, [], ◌∷◌, ◌++◌, Option, some, Bool, true, false, not, ◌&&◌, ◌||◌,
  if◌then◌else◌, ◌≡◌, refl, ap, ◌∙◌, length, All, arith,
}
use meguro.Glob.{
  Part, Pattern, stars, name_test, filtre_one, filtre, has_empty, is_nil, accept, ant_iter,
}

abbrev any_suffix : (List String → Bool) → List String → Bool
any_suffix m [] = m []
any_suffix m (n ∷ ns) = m (n ∷ ns) || any_suffix m ns

-- Whether a pattern stands for a path: `**` for any number of names, but at least one where it is last.
unfoldable pub matches : Pattern → List String → Bool
matches [] [] = true
matches [] (n ∷ ns) = false
matches (stars ∷ []) [] = false
matches (stars ∷ []) (n ∷ ns) = true
matches (stars ∷ q ∷ p) ns = any_suffix (matches (q ∷ p)) ns
matches (name_test t ∷ p) [] = false
matches (name_test t ∷ p) (n ∷ ns) = t n && matches p ns

unfoldable pub matches_any : List Pattern → List String → Bool
unfolding matches
matches_any [] ns = false
matches_any (p ∷ nn) ns = matches p ns || matches_any nn ns

-- Whether the path, or a folder on the way to it, has the property.
unfoldable pub on_the_way : (List String → Bool) → List String → Bool
on_the_way m [] = false
on_the_way m (n ∷ ns) = m (n ∷ []) || on_the_way (λ l. m (n ∷ l)) ns

-- No `**` stands behind a `**`.
abbrev pub IsProper : Pattern → Type 0
IsProper [] = Unit
IsProper (stars ∷ []) = Unit
IsProper (stars ∷ stars ∷ p) = ⊥
IsProper (stars ∷ name_test t ∷ p) = IsProper p
IsProper (name_test t ∷ p) = IsProper p

-- One step of `filtre`: a list of proper patterns that stand for what is left of the paths.
abbrev IsStep : String → List Pattern → Option (List Pattern) → Type 0
IsStep name nn r =
    (l : List Pattern) × ((r ≡ some l)
      × (All IsProper l × ((ns : List String) → matches_any l ns ≡ matches_any nn (name ∷ ns))))

-- What a name test keeps of a pattern.
kept-IsProper : (b : Bool) (p : Pattern) → IsProper p → All IsProper (if b then p ∷ [] else [])
kept-IsProper true p h = (h, tt)
kept-IsProper false p h = tt

matches_any-kept :
    (b : Bool) (p : Pattern) (ns : List String)
    → matches_any (if b then p ∷ [] else []) ns ≡ (b && matches p ns)
unfolding matches_any
matches_any-kept true p ns = ground arith
matches_any-kept false p ns = refl

-- A last `**` takes a name, and then any others or none.
stars_step : (ns : List String) → matches_any ((stars ∷ []) ∷ [] ∷ []) ns ≡ true
unfolding matches_any matches
stars_step [] = refl
stars_step (n ∷ ns) = refl

filtre_one-IsStep :
    (name : String) (p : Pattern) → IsProper p → IsStep name (p ∷ []) (filtre_one name p)
unfolding filtre_one matches matches_any
filtre_one-IsStep name [] h = ([], (refl, (tt, λ ns. refl)))
filtre_one-IsStep name (stars ∷ []) h = (_, (refl, ((tt, (tt, tt)), stars_step)))
filtre_one-IsStep name (stars ∷ stars ∷ p) h = absurd h
filtre_one-IsStep name (stars ∷ name_test t ∷ p) h = (
  _,
  (
    refl,
    (
      (h, kept-IsProper (t name) p h),
      λ ns. let kept = matches_any-kept (t name) p ns in ground (arith, kept),
    ),
  ),
)
filtre_one-IsStep name (name_test t ∷ p) h = (
  _,
  (
    refl,
    (
      kept-IsProper (t name) p h,
      λ ns. let kept = matches_any-kept (t name) p ns in ground (arith, kept),
    ),
  ),
)

All-append : (l m : List Pattern) → All IsProper l → All IsProper m → All IsProper (l ++ m)
All-append [] m h k = k
All-append (x ∷ l) m (a, h) k = (a, All-append l m h k)

matches_any-append :
    (l m : List Pattern) (ns : List String)
    → matches_any (l ++ m) ns ≡ (matches_any l ns || matches_any m ns)
unfolding matches_any
matches_any-append [] m ns = refl
matches_any-append (x ∷ l) m ns = ground (arith, matches_any-append l m ns)

filtre-IsStep :
    (name : String) (nn : List Pattern) → All IsProper nn → IsStep name nn (filtre name nn)
unfolding filtre matches_any
filtre-IsStep name [] h = ([], (refl, (tt, λ ns. refl)))
filtre-IsStep name (p ∷ nn) (a, h) =
    let (x, (e, (u, v))) = filtre_one-IsStep name p a in
    let (y, (f, (w, z))) = filtre-IsStep name nn h in
    (
      x ++ y,
      (
        rw e (rw f refl),
        (All-append x y u w, λ ns. ground (arith, matches_any-append x y ns, v ns, z ns)),
      ),
    )

matches-nil : (q : Part) (p : Pattern) → matches (q ∷ p) [] ≡ false
unfolding matches
matches-nil stars [] = refl
matches-nil stars (q ∷ p) = matches-nil q p
matches-nil (name_test t) p = refl

has_empty_lem : (nn : List Pattern) → has_empty nn ≡ matches_any nn []
unfolding has_empty matches_any matches
has_empty_lem [] = refl
has_empty_lem ([] ∷ nn) = refl
has_empty_lem ((q ∷ p) ∷ nn) = ground (arith, matches-nil q p, has_empty_lem nn)

on_the_way-cong :
    (m k : List String → Bool) (ns : List String)
    → ((l : List String) → m l ≡ k l)
    → on_the_way m ns ≡ on_the_way k ns
unfolding on_the_way
on_the_way-cong m k [] h = refl
on_the_way-cong m k (n ∷ ns) h =
    ground
      (arith, h (n ∷ []), on_the_way-cong (λ l. m (n ∷ l)) (λ l. k (n ∷ l)) ns (λ l. h (n ∷ l)))

last_step :
    (b : Bool) (x : List Pattern)
    → (if is_nil (if b then [] else x) then false else has_empty (if b then [] else x))
      ≡ (has_empty x && not b)
last_step true x = ground arith
last_step false [] = unfold has_empty in refl
last_step false (p ∷ x) = ground arith

next_step :
    (maxdepth : ℕ) (b found : Bool) (l : List String) (x y : List Pattern)
    → ant_iter maxdepth l (x, y) ≡ some (matches_any x l && found)
    → (if is_nil (if b then [] else x)
        then some false
        else ant_iter maxdepth l (if b then [] else x, y))
      ≡ some ((matches_any x l && found) && not b)
unfolding matches_any
next_step maxdepth true found l x y e = ap some (ground arith)
next_step maxdepth false found l [] y e = refl
next_step maxdepth false found l (p ∷ x) y e = e ∙ ap some (ground arith)

-- Where no pattern has a `**` behind a `**`, and the path is not deeper than the search: a path is
-- accepted exactly if a pattern to take stands for it, and none to leave out stands for it or for a
-- folder on the way to it.
pub ant_iter_lem :
    (maxdepth : ℕ) (name : String) (names : List String) (incl excl : List Pattern)
    → length names ≤ maxdepth
    → All IsProper incl
    → All IsProper excl
    → ant_iter maxdepth (name ∷ names) (incl, excl)
      ≡ some (matches_any incl (name ∷ names) && not (on_the_way (matches_any excl) (name ∷ names)))
unfolding ant_iter accept on_the_way
ant_iter_lem maxdepth name [] incl excl d h k =
    let (x, (e, (u, v))) = filtre-IsStep name incl h in
    let (y, (f, (w, z))) = filtre-IsStep name excl k in
    rw e (
      rw f (
        ap some (
          last_step (has_empty y) x
          ∙ ground (arith, has_empty_lem x, has_empty_lem y, v [], z []))))
ant_iter_lem zero name (m ∷ names) incl excl d h k = absurd (omega (arith, d))
ant_iter_lem (suc maxdepth) name (m ∷ names) incl excl d h k =
    let (x, (e, (u, v))) = filtre-IsStep name incl h in
    let (y, (f, (w, z))) = filtre-IsStep name excl k in
    let ih = ant_iter_lem maxdepth m names x y (omega (arith, d)) u w in
    let way = on_the_way-cong (matches_any y) (λ l. matches_any excl (name ∷ l)) (m ∷ names) z in
    rw e (
      rw f (
        next_step maxdepth (has_empty y) (not (on_the_way (matches_any y) (m ∷ names))) (m ∷ names)
          x y ih
        ∙ ap some (ground (arith, has_empty_lem y, v (m ∷ names), z [], way))))
