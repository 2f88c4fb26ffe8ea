-- ===== src/Preproc/Token.antt =====
-- preproc.py: tokens, and the errors that the functions raise.
use Prim.Native.Char.{code}
use meguro.Base.{
  ℕ, ◌+◌, ◌-◌, ◌*◌, String, List, [], ◌∷◌, Option, none, some, Bool, true, false, not, ◌&&◌, leb,
  if◌then◌else◌, ◌==◌, nat_eq, string_eq,
}
use meguro.Base.Int.{ℤ, pos, neg, is_zero}

-- The value of a NUM token: an integer, the text of a literal, or the tuple that `parse_char` returns
-- for an octal escape. The None of a literal such as `1e5` is left out.
pub data Val : Type 0 where
  int : ℤ → Val
  text : String → Val
  tuple : List ℤ → Val

pub data Token : Type 0 where
  num : Val → Token
  op : String → Token
  ident : String → Token
  str : String → Token

-- PreprocError, the exceptions of Python that the code lets through, and (of the model alone) fuel.
pub data Error : Type 0 where
  preproc key value zero_division unbound_local type index : Error
  out_of_fuel : Error

pub data Result {ℓ} (A : Type ℓ) : Type ℓ where
  ok : A → Result A
  err : Error → Result A

infixl 5 ◌>>=◌
abbrev pub ◌>>=◌ {ℓ κ} : {A : Type ℓ} {B : Type κ} → Result A → (A → Result B) → Result B
r >>= next = elim r [ err e ↦ err e | ok a ↦ next a ]

abbrev pub from_option {ℓ} : {A : Type ℓ} → Error → Option A → Result A
from_option e none = err e
from_option e (some a) = ok a

-- The value of the decimal digits of a text, behind those that `acc` stands for.
unfoldable pub digits_value : ℕ → String → Option ℕ
digits_value acc String.[] = some acc
digits_value acc (String.◌∷◌ c s) =
    let later = digits_value (acc * 10 + (code c - b'0')) s in
    if leb b'0' (code c) && leb (code c) b'9' then later else none

-- A text of at least one digit.
unfoldable pub decimal : String → Option ℕ
unfolding digits_value
decimal String.[] = none
decimal (String.◌∷◌ c s) = digits_value 0 (String.◌∷◌ c s)

abbrev pub signed : (ℕ → ℤ) → Option ℕ → Result ℤ
signed sign none = err value
signed sign (some n) = ok (sign n)

-- `int(s)` of a literal's text, or of `'-1'`; the texts that occur have no blanks in them.
unfoldable pub int_of_text : String → Result ℤ
unfolding decimal
int_of_text String.[] = err value
int_of_text (String.◌∷◌ c s) =
    if code c == b'-'
    then signed (λ n. neg (pos n)) (decimal s)
    else signed pos (decimal (String.◌∷◌ c s))

-- `int(v)`
unfoldable pub to_int : Val → Result ℤ
unfolding int_of_text
to_int (int n) = ok n
to_int (text s) = int_of_text s
to_int (tuple l) = err type

-- Python's truth of a value: a text is true unless it is empty, `'0'` too.
unfoldable pub truth : Val → Bool
truth (int n) = not (is_zero n)
truth (text s) = not (s == "")
truth (tuple []) = false
truth (tuple (n ∷ l)) = true
