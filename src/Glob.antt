-- ===== src/Glob.antt =====
-- Node.py: how `ant_glob` carries its patterns down the folders.
pub mod Matching
pub mod Tests
use meguro.Base.{
  ℕ, zero, suc, String, List, [], ◌∷◌, ◌++◌, Option, none, some, Bool, true, false, if◌then◌else◌,
}

-- An entry of `accu` in `to_pat`: `**`, or what a compiled pattern says of a name.
pub data Part : Type 0 where
  stars : Part
  name_test : (String → Bool) → Part

abbrev pub Pattern : Type 0
Pattern = List Part

infixl 5 ◌>>=◌
abbrev ◌>>=◌ : {A : Type 0} {B : Type 0} → Option A → (A → Option B) → Option B
o >>= next = elim o [ none ↦ none | some a ↦ next a ]

-- The body of the loop of `filtre`. A `**` behind a `**` is a text, which has no `match`.
unfoldable pub filtre_one : String → Pattern → Option (List Pattern)
filtre_one name [] = some []
filtre_one name (stars ∷ []) = some ((stars ∷ []) ∷ [] ∷ [])
filtre_one name (stars ∷ name_test t ∷ lst) =
    some ((stars ∷ name_test t ∷ lst) ∷ (if t name then lst ∷ [] else []))
filtre_one name (stars ∷ stars ∷ lst) = none
filtre_one name (name_test t ∷ lst) = some (if t name then lst ∷ [] else [])

unfoldable pub filtre : String → List Pattern → Option (List Pattern)
unfolding filtre_one
filtre name [] = some []
filtre name (lst ∷ nn) = do a ← filtre_one name lst; ret ← filtre name nn; some (a ++ ret)

-- `[] in nn`
unfoldable pub has_empty : List Pattern → Bool
has_empty [] = false
has_empty ([] ∷ nn) = true
has_empty ((_ ∷ _) ∷ nn) = has_empty nn

abbrev pub is_nil : List Pattern → Bool
is_nil [] = true
is_nil (_ ∷ _) = false

-- `accept`, on what is left of the patterns to take and of those to leave out.
unfoldable pub accept : String → List Pattern × List Pattern → Option (List Pattern × List Pattern)
unfolding filtre has_empty
accept name pats = do
  nacc ← filtre name pats.0
  nrej ← filtre name pats.1
  some (if has_empty nrej then [] else nacc, nrej)

-- `ant_iter` along the names from its folder to a file: whether the file is accepted.
unfoldable pub ant_iter : ℕ → List String → List Pattern × List Pattern → Option Bool
unfolding accept
ant_iter maxdepth [] pats = some false
ant_iter maxdepth (name ∷ []) pats = do
  npats ← accept name pats
  some (if is_nil npats.0 then false else has_empty npats.0)
ant_iter zero (name ∷ m ∷ names) pats = do npats ← accept name pats; some false
ant_iter (suc maxdepth) (name ∷ m ∷ names) pats = do
  npats ← accept name pats
  if is_nil npats.0 then some false else ant_iter maxdepth (m ∷ names) npats
