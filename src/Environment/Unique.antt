-- ===== src/Environment/Unique.antt =====
-- Environment.py: `append_unique` keeps a list free of repetitions, up to Python's `==`.
use package.text.Mathlib.TextEquality.{eq_iff}
use meguro.Base.{
  ◌≡◌, refl, ◌↔◌, List, [], ◌∷◌, ◌++◌, Bool, true, false, not, ◌&&◌, ◌||◌, inl, inr, if◌then◌else◌,
  arith, Bool-cases,
}
use meguro.Environment.{Scalar, nothing, text, number, flag, scalar_eqb, in_list, add_unique}

-- A value by which two scalars are compared: `True` is 1 and `False` is 0.
abbrev canon : Scalar → Scalar
canon (flag true) = number 1
canon (flag false) = number 0
canon s = s

scalar_eqb_iff : (a b : Scalar) → (scalar_eqb a b ≡ true) ↔ (canon a ≡ canon b)
unfolding scalar_eqb
scalar_eqb_iff (text s) (text t) = ground (arith, eq_iff s t)
scalar_eqb_iff (flag true) (flag true) = ground arith
scalar_eqb_iff (flag true) (flag false) = ground arith
scalar_eqb_iff (flag false) (flag true) = ground arith
scalar_eqb_iff (flag false) (flag false) = ground arith
scalar_eqb_iff (flag true) (number n) = ground arith
scalar_eqb_iff (flag false) (number n) = ground arith
scalar_eqb_iff (number n) (flag true) = ground arith
scalar_eqb_iff (number n) (flag false) = ground arith
scalar_eqb_iff nothing nothing = ground arith
scalar_eqb_iff nothing (text s) = ground arith
scalar_eqb_iff nothing (number s) = ground arith
scalar_eqb_iff nothing (flag true) = ground arith
scalar_eqb_iff nothing (flag false) = ground arith
scalar_eqb_iff (text s) nothing = ground arith
scalar_eqb_iff (text s) (number n) = ground arith
scalar_eqb_iff (text s) (flag true) = ground arith
scalar_eqb_iff (text s) (flag false) = ground arith
scalar_eqb_iff (number n) nothing = ground arith
scalar_eqb_iff (number n) (text t) = ground arith
scalar_eqb_iff (number n) (number m) = ground arith
scalar_eqb_iff (flag true) nothing = ground arith
scalar_eqb_iff (flag false) nothing = ground arith
scalar_eqb_iff (flag true) (text t) = ground arith
scalar_eqb_iff (flag false) (text t) = ground arith

scalar_eqb_symm : (a b : Scalar) → scalar_eqb a b ≡ scalar_eqb b a
scalar_eqb_symm a b = ground (arith, scalar_eqb_iff a b, scalar_eqb_iff b a)

scalar_eqb_congr : (a b c : Scalar) → scalar_eqb a b ≡ true → scalar_eqb c a ≡ scalar_eqb c b
scalar_eqb_congr a b c h =
    ground (arith, scalar_eqb_iff a b, scalar_eqb_iff c a, scalar_eqb_iff c b)

in_list-append :
    (x : Scalar) (xs ys : List Scalar) → in_list x (xs ++ ys) ≡ (in_list x xs || in_list x ys)
unfolding in_list
in_list-append x [] ys = refl
in_list-append x (y ∷ xs) ys = ground (arith, in_list-append x xs ys)

in_list_congr :
    (x y : Scalar) (xs : List Scalar)
    → scalar_eqb y x ≡ true
    → in_list x xs ≡ true
    → in_list y xs ≡ true
unfolding in_list
in_list_congr x y (z ∷ zs) e h = ground (
  arith,
  in_list_congr x y zs e,
  scalar_eqb_congr y x z e,
  scalar_eqb_symm y z,
  scalar_eqb_symm x z,
)
in_list_congr x y [] e h = h

-- No item is equal to a later one.
abbrev pub distinct : List Scalar → Bool
distinct [] = true
distinct (x ∷ xs) = not (in_list x xs) && distinct xs

distinct-snoc :
    (xs : List Scalar) (x : Scalar)
    → distinct xs ≡ true
    → in_list x xs ≡ false
    → distinct (xs ++ x ∷ []) ≡ true
unfolding in_list
distinct-snoc [] x h e = refl
distinct-snoc (y ∷ xs) x h e =
    ground (arith, distinct-snoc xs x, in_list-append y xs (x ∷ []), scalar_eqb_symm x y)

abbrev add_one : List Scalar → Scalar → List Scalar
add_one current x = if in_list x current then current else current ++ x ∷ []

add_one-distinct :
    (current : List Scalar) (x : Scalar)
    → distinct current ≡ true
    → distinct (add_one current x) ≡ true
add_one-distinct current x h = elim (Bool-cases (in_list x current)) [
  | inl old ↦ rw old h
  | inr new ↦ rw new (distinct-snoc current x h new)
]

add_one-in_list :
    (current : List Scalar) (x z : Scalar)
    → in_list z (add_one current x) ≡ (in_list z current || scalar_eqb z x)
unfolding in_list
add_one-in_list current x z =
    ground (arith, in_list_congr x z current, in_list-append z current (x ∷ []))

-- A list free of repetitions stays so, and then holds exactly the items that it held and those of
-- the argument.
pub add_unique_lem :
    (current xs : List Scalar)
    → distinct current ≡ true
    → (distinct (add_unique current xs) ≡ true)
      × ((z : Scalar) → in_list z (add_unique current xs) ≡ (in_list z current || in_list z xs))
unfolding add_unique
add_unique_lem current [] h = (h, λ z. unfold in_list in ground arith)
add_unique_lem current (x ∷ xs) h =
    let ih = add_unique_lem (add_one current x) xs (add_one-distinct current x h) in
    (ih.0, λ z. unfold in_list in ground (arith, ih.1 z, add_one-in_list current x z))
