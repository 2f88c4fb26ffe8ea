-- ===== src/Base/Lists.antt =====
-- Lists measured by native numbers, under the library's names, and membership by tests.
use Prim.Native.Nat.{ℕ, zero, suc, ◌+◌}
use mathlib.Core.Path.{◌≡◌, refl}
use mathlib.Core.Bool.{Bool, false, ◌||◌}
use mathlib.Core.Option.{Option, none, some}
use mathlib.Core.List.{List, [], ◌∷◌, ◌++◌}
use native.Mathlib.Omega.{arith}
use meguro.Base.Tests.{Key, ◌==◌}

module _ {ℓ} {A : Type ℓ} where
  abbrev pub length : List A → ℕ
  length [] = 0
  length (x ∷ xs) = suc (length xs)

  abbrev pub get_elem? : List A → ℕ → Option A
  get_elem? [] i = none
  get_elem? (x ∷ xs) zero = some x
  get_elem? (x ∷ xs) (suc i) = get_elem? xs i

  pub length-append : (xs ys : List A) → length (xs ++ ys) ≡ length xs + length ys
  length-append [] ys = omega arith
  length-append (x ∷ xs) ys = omega (arith, length-append xs ys)

-- A predicate on every element.
abbrev pub All {ℓ κ} : {A : Type ℓ} → (A → Type κ) → List A → Type κ
All P [] = Unit
All P (x ∷ xs) = P x × All P xs

-- Python's `x in lst`.
module _ {ℓ} {A : Type ℓ} ⦃key : Key A⦄ where
  abbrev pub mem : A → List A → Bool
  mem a [] = false
  mem a (x ∷ xs) = a == x || mem a xs

  pub mem-append : (a : A) (xs ys : List A) → mem a (xs ++ ys) ≡ (mem a xs || mem a ys)
  mem-append a [] ys = refl
  mem-append a (x ∷ xs) ys = ground (arith, mem-append a xs ys)
