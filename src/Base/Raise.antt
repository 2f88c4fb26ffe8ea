-- ===== src/Base/Raise.antt =====
-- Code that changes a state and may raise an exception.
use mathlib.Core.Path.{◌≡◌, refl, ap}

pub data Result {ℓ} (F : Type ℓ) (A : Type ℓ) : Type ℓ where
  ok : A → Result F A
  err : F → Result F A

-- An exception leaves the state as it was when it was raised.
abbrev pub M : Type 0 → Type 0 → Type 0 → Type 0
M F S A = S → Result F A × S

module _ {F : Type 0} {S : Type 0} where
  abbrev pub return : {A : Type 0} → A → M F S A
  return a s = (ok a, s)

  abbrev pub raise : {A : Type 0} → F → M F S A
  raise e s = (err e, s)

  module _ {A : Type 0} {B : Type 0} where
    infixl 5 ◌>>=◌ ◌>>◌
    abbrev pub ◌>>=◌ : M F S A → (A → M F S B) → M F S B
    ◌>>=◌ m f s = elim (m s).0 [ ok a ↦ f a (m s).1 | err e ↦ (err e, (m s).1) ]

    abbrev pub ◌>>◌ : M F S A → M F S B → M F S B
    m >> k = m >>= λ _. k

    -- The parts of a step that ended well.
    pub bound :
        (f : A → M F S B) (y : B) (s' : S) (r : Result F A × S)
        → elim r.0 [ ok a ↦ f a r.1 | err e ↦ (err e, r.1) ] ≡ (ok y, s')
        → (a : A) × ((s : S) × ((r ≡ (ok a, s)) × (f a s ≡ (ok y, s'))))
    bound f y s' (ok a, s) k = (a, (s, (refl, k)))
    bound f y s' (err x, s) k = cc

    pub bind_ok :
        (m : M F S A) (f : A → M F S B) (s s' : S) (a : A) → m s ≡ (ok a, s') → (m >>= f) s ≡ f a s'
    bind_ok m f s s' a h =
        ap
          (λ (r : Result F A × S). elim r.0 as (λ _. Result F B × S) [
            | ok x ↦ f x r.1
            | err e ↦ (err e, r.1)
          ])
          h

    pub bind_err :
        (m : M F S A) (f : A → M F S B) (s s' : S) (e : F)
        → m s ≡ (err e, s')
        → (m >>= f) s ≡ (err e, s')
    bind_err m f s s' e h =
        ap
          (λ (r : Result F A × S). elim r.0 as (λ _. Result F B × S) [
            | ok x ↦ f x r.1
            | err y ↦ (err y, r.1)
          ])
          h

  pub given :
      {A : Type 0} (a y : A) (s s' : S)
      → ◌≡◌ {A = Result F A × S} (ok a, s) (ok y, s')
      → (a ≡ y) × (s ≡ s')
  given a y s s' h = (cc, cc)

  -- A relation of states that each of two steps keeps is kept by both.
  pub related :
      {A : Type 0} {B : Type 0} (R : S → S → Type 0)
      → ((s s1 s2 : S) → R s s1 → R s1 s2 → R s s2)
      → (m : M F S A) (f : A → M F S B) → ((s : S) → R s (m s).1)
      → ((a : A) (s : S) → R s (f a s).1)
      → (s : S) → R s ((m >>= f) s).1
  related {A} {B} R trans m f h k s = from (m s) (h s)
    where
      from :
          (r : Result F A × S)
          → R s r.1
          → R s (elim r.0 as (λ _. Result F B × S) [ ok a ↦ f a r.1 | err e ↦ (err e, r.1) ]).1
      from (ok a, s1) e = trans s s1 (f a s1).1 e (k a s1)
      from (err x, s1) e = e
