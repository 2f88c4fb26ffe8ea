-- ===== src/Base/Tests.antt =====
-- Boolean tests on the native numbers, the conditional, and equality of keys by instances.
use Prim.Native.Nat.{ℕ, ◌<◌, compare, Ordering}
use Prim.Native.String.{String}
use mathlib.Core.Path.{◌≡◌, refl}
use mathlib.Core.Logic.{◌↔◌, ◌⊎◌, inl, inr}
use mathlib.Core.Bool.{Bool, true, false, ◌&&◌, ◌||◌}
use mathlib.Core.Option.{Option, none, some}
use native.Mathlib.Omega.{arith}
use text.Mathlib.Text.{◌==◌ as str_eq}
use text.Mathlib.TextEquality.{eq_iff}

abbrev pub ltb : ℕ → ℕ → Bool
ltb a b = elim (compare a b) [ Ordering.lt ↦ true | _ ↦ false ]

abbrev pub leb : ℕ → ℕ → Bool
leb a b = elim (compare a b) [ Ordering.gt ↦ false | _ ↦ true ]

abbrev pub nat_eqb : ℕ → ℕ → Bool
nat_eqb a b = elim (compare a b) [ Ordering.eq ↦ true | _ ↦ false ]

infix 1 if◌then◌else◌
abbrev pub if◌then◌else◌ {ℓ} : {A : Type ℓ} → Bool → A → A → A
if true then x else y = x
if false then x else y = y

pub ltb→lt : (a b : ℕ) → ltb a b ≡ true → a < b
ltb→lt a b h = ground arith

pub nat_eqb_iff : (a b : ℕ) → (nat_eqb a b ≡ true) ↔ (a ≡ b)
nat_eqb_iff a b = ground arith

-- To split on a computed value and keep the equation.
pub Bool-cases : (b : Bool) → (b ≡ true) ⊎ (b ≡ false)
Bool-cases true = inl refl
Bool-cases false = inr refl

pub Option-cases {ℓ} : {A : Type ℓ} (o : Option A) → (o ≡ none) ⊎ ((a : A) × (o ≡ some a))
Option-cases none = inl refl
Option-cases (some a) = inr (a, refl)

module _ {ℓ κ} {B : Type ℓ} (P : B → Type κ) where
  -- What holds of both outcomes of a case holds of the case.
  pub on_option :
      {A : Type 0} (o : Option A) (x : B) (f : A → B)
      → P x
      → ((a : A) → o ≡ some a → P (f a))
      → P (elim o as (λ _. B) [ none ↦ x | some a ↦ f a ])
  on_option none x f h k = h
  on_option (some a) x f h k = k a refl

  pub on_if : (c : Bool) (x y : B) → (c ≡ true → P x) → (c ≡ false → P y) → P (if c then x else y)
  on_if true x y h k = h refl
  on_if false x y h k = k refl

-- A test that holds, taken apart and put together.
pub or_right : (a b : Bool) → (a || b) ≡ true → a ≡ false → b ≡ true
or_right true b h e = cc
or_right false b h e = h

pub true_or : (a b : Bool) → b ≡ true → (a || b) ≡ true
true_or true b h = refl
true_or false b h = h

pub or_true : (a b : Bool) → a ≡ true → (a || b) ≡ true
or_true true b h = refl
or_true false b h = cc

pub both_true : (a b : Bool) → (a && b) ≡ true → (a ≡ true) × (b ≡ true)
both_true true b h = (refl, h)
both_true false b h = cc

pub true_both : (a b : Bool) → a ≡ true → b ≡ true → (a && b) ≡ true
true_both true b h e = e
true_both false b h e = h

-- Types whose values the program compares: a test, and what it decides.
pub record Key {ℓ} (K : Type ℓ) : Type ℓ where
  pub same : K → K → Bool
  pub decides : (x y : K) → (same x y ≡ true) ↔ (x ≡ y)

module _ {ℓ} {K : Type ℓ} ⦃key : Key K⦄ where
  infix 50 ◌==◌
  abbrev pub ◌==◌ : K → K → Bool
  ◌==◌ = key.same

  pub beq_refl : (x : K) → (x == x) ≡ true
  beq_refl x = (key.decides x x).1 refl

-- Numbers stand for objects that the program tells apart by identity.
instance abbrev pub nat_eq : Key ℕ
nat_eq = record { same = nat_eqb; decides = nat_eqb_iff }

instance abbrev pub string_eq : Key String
string_eq = record { decides = eq_iff; same = str_eq }
