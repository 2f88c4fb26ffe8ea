-- ===== src/Base/Int.antt =====
-- Python's integers, with floor division and the bit operations of two's complement.
use Prim.Native.Nat.{ℕ, zero, suc, ◌+◌, ◌-◌, ◌*◌, ◌/◌, ◌^◌, bit_and, bit_or, bit_xor}
use mathlib.Core.Bool.{Bool, true, false}
use mathlib.Core.Option.{Option, none, some}
use meguro.Base.Tests.{leb, ltb, nat_eqb, if◌then◌else◌}

-- `negsuc n` is -(n + 1).
pub data ℤ : Type 0 where
  pos : ℕ → ℤ
  negsuc : ℕ → ℤ

abbrev pub sub_ℕ : ℕ → ℕ → ℤ
sub_ℕ a b = if leb b a then pos (a - b) else negsuc (b - a - 1)

infixl 65 ◌+ℤ◌ ◌-ℤ◌
infixl 70 ◌*ℤ◌
unfoldable pub ◌+ℤ◌ : ℤ → ℤ → ℤ
pos a +ℤ pos b = pos (a + b)
pos a +ℤ negsuc b = sub_ℕ a (suc b)
negsuc a +ℤ pos b = sub_ℕ b (suc a)
negsuc a +ℤ negsuc b = negsuc (a + b + 1)

abbrev pub neg : ℤ → ℤ
neg (pos n) = sub_ℕ 0 n
neg (negsuc n) = pos (suc n)

unfoldable pub ◌-ℤ◌ : ℤ → ℤ → ℤ
unfolding ◌+ℤ◌
a -ℤ b = a +ℤ neg b

unfoldable pub ◌*ℤ◌ : ℤ → ℤ → ℤ
pos a *ℤ pos b = pos (a * b)
pos a *ℤ negsuc b = neg (pos (a * suc b))
negsuc a *ℤ pos b = neg (pos (suc a * b))
negsuc a *ℤ negsuc b = pos (suc a * suc b)

abbrev pub is_zero : ℤ → Bool
is_zero (pos n) = nat_eqb n 0
is_zero (negsuc n) = false

unfoldable pub ltb_ℤ : ℤ → ℤ → Bool
ltb_ℤ (pos a) (pos b) = ltb a b
ltb_ℤ (pos a) (negsuc b) = false
ltb_ℤ (negsuc a) (pos b) = true
ltb_ℤ (negsuc a) (negsuc b) = ltb b a

unfoldable pub eqb_ℤ : ℤ → ℤ → Bool
eqb_ℤ (pos a) (pos b) = nat_eqb a b
eqb_ℤ (negsuc a) (negsuc b) = nat_eqb a b
eqb_ℤ _ _ = false

-- `int(b)` of a truth value.
abbrev pub of_bool : Bool → ℤ
of_bool b = if b then pos 1 else pos 0

-- Division rounds down; `none` is ZeroDivisionError.
unfoldable pub div_ℤ : ℤ → ℤ → Option ℤ
div_ℤ a (pos zero) = none
div_ℤ (pos a) (pos (suc b)) = some (pos (a / suc b))
div_ℤ (negsuc a) (pos (suc b)) = some (negsuc (a / suc b))
div_ℤ (pos zero) (negsuc b) = some (pos 0)
div_ℤ (pos (suc a)) (negsuc b) = some (negsuc (a / suc b))
div_ℤ (negsuc a) (negsuc b) = some (pos (suc a / suc b))

unfoldable pub mod_ℤ : ℤ → ℤ → Option ℤ
unfolding div_ℤ ◌-ℤ◌ ◌*ℤ◌
mod_ℤ a b = elim (div_ℤ a b) [ none ↦ none | some q ↦ some (a -ℤ q *ℤ b) ]

-- The bits of `a` that `b` does not have.
abbrev and_not : ℕ → ℕ → ℕ
and_not a b = a - bit_and a b

unfoldable pub and_ℤ : ℤ → ℤ → ℤ
and_ℤ (pos a) (pos b) = pos (bit_and a b)
and_ℤ (pos a) (negsuc b) = pos (and_not a b)
and_ℤ (negsuc a) (pos b) = pos (and_not b a)
and_ℤ (negsuc a) (negsuc b) = negsuc (bit_or a b)

unfoldable pub or_ℤ : ℤ → ℤ → ℤ
or_ℤ (pos a) (pos b) = pos (bit_or a b)
or_ℤ (pos a) (negsuc b) = negsuc (and_not b a)
or_ℤ (negsuc a) (pos b) = negsuc (and_not a b)
or_ℤ (negsuc a) (negsuc b) = negsuc (bit_and a b)

unfoldable pub xor_ℤ : ℤ → ℤ → ℤ
xor_ℤ (pos a) (pos b) = pos (bit_xor a b)
xor_ℤ (pos a) (negsuc b) = negsuc (bit_xor a b)
xor_ℤ (negsuc a) (pos b) = negsuc (bit_xor a b)
xor_ℤ (negsuc a) (negsuc b) = pos (bit_xor a b)

-- `none` is the ValueError of a negative shift count.
unfoldable pub shl_ℤ : ℤ → ℤ → Option ℤ
shl_ℤ (pos a) (pos b) = some (pos (a * 2 ^ b))
shl_ℤ (negsuc a) (pos b) = some (neg (pos (suc a * 2 ^ b)))
shl_ℤ a (negsuc b) = none

unfoldable pub shr_ℤ : ℤ → ℤ → Option ℤ
shr_ℤ (pos a) (pos b) = some (pos (a / 2 ^ b))
shr_ℤ (negsuc a) (pos b) = some (negsuc (a / 2 ^ b))
shr_ℤ a (negsuc b) = none
