-- ===== src/TaskGen/Counts.antt =====
-- TaskGen.py: how often a method stands in the lists that the sort of `apply` works on.
use meguro.Base.{
  string_eq, ℕ, ◌+◌, ◌≤◌, ◌<◌, String, List, [], ◌∷◌, none, true, false, if◌then◌else◌, ◌==◌, ◌≡◌,
  refl, ◌∙◌, length, mem, lookup, delete, lookup-delete, Bool-cases, inl, inr, arith,
}
use meguro.TaskGen.{Table, entry, waits_for, disconnected, release, size}

unfoldable pub times : String → List String → ℕ
times x [] = 0
times x (y ∷ l) = (if x == y then 1 else 0) + times x l

pub mem→lt-times : (x : String) (l : List String) → mem x l ≡ true → 0 < times x l
unfolding times
mem→lt-times x [] h = cc
mem→lt-times x (y ∷ l) h = ground (arith, mem→lt-times x l)

pub lt-times→mem : (x : String) (l : List String) → 0 < times x l → mem x l ≡ true
unfolding times
lt-times→mem x [] h = absurd (omega arith)
lt-times→mem x (y ∷ l) h = ground (arith, lt-times→mem x l)

-- In all the lists of a table.
unfoldable pub held : String → Table → ℕ
unfolding times
held x [] = 0
held x ((k, l) ∷ t) = times x l + held x t

pub waits_for→lt-held : (x : String) (t : Table) → waits_for x t ≡ true → 0 < held x t
unfolding waits_for held
waits_for→lt-held x [] h = cc
waits_for→lt-held x ((k, l) ∷ t) h = ground (arith, mem→lt-times x l, waits_for→lt-held x t)

pub waits_for→held_zero : (x : String) (t : Table) → waits_for x t ≡ false → held x t ≡ 0
unfolding waits_for held
waits_for→held_zero x [] h = refl
waits_for→held_zero x ((k, l) ∷ t) h = ground (arith, lt-times→mem x l, waits_for→held_zero x t)

pub times-release :
    (x : String) (nlst : List String) (t : Table) (tmp : List String)
    → times x (release nlst t tmp) ≡ (if waits_for x t then 0 else times x nlst) + times x tmp
unfolding release times
times-release x [] t tmp = ground arith
times-release x (y ∷ nlst) t tmp =
    ground (
      arith,
      times-release x nlst t (if waits_for y t then tmp else y ∷ tmp),
      string_eq.decides x y,
    )

pub length-release :
    (nlst : List String) (t : Table) (tmp : List String)
    → length (release nlst t tmp) ≤ length nlst + length tmp
unfolding release
length-release [] t tmp = omega arith
length-release (y ∷ nlst) t tmp =
    ground (arith, length-release nlst t (if waits_for y t then tmp else y ∷ tmp))

-- Both loops keep the methods that no list has.
pub disconnected-release :
    (keys : List String) (t : Table) (tmp : List String)
    → disconnected keys t tmp ≡ release keys t tmp
unfolding disconnected release
disconnected-release [] t tmp = refl
disconnected-release (y ∷ keys) t tmp =
    disconnected-release keys t (if waits_for y t then tmp else y ∷ tmp)

-- A table has one entry for a method.
abbrev pub IsDict : Table → Type 0
IsDict [] = Unit
IsDict ((k, l) ∷ t) = (lookup k t ≡ none) × IsDict t

pub entry-delete :
    (e k : String) (t : Table) → entry k (delete e t) ≡ (if e == k then [] else entry k t)
entry-delete e k t = ground (arith, lookup-delete e k t)

pub IsDict-delete : (e : String) (t : Table) → IsDict t → IsDict (delete e t)
unfolding delete
IsDict-delete e [] h = tt
IsDict-delete e ((k, l) ∷ t) (a, h) = elim (Bool-cases (k == e)) [
  | inl b ↦ rw b (IsDict-delete e t h)
  | inr b ↦
      rw b (lookup-delete e k t ∙ ground (arith, a, string_eq.decides e k), IsDict-delete e t h)
]

pub held-delete :
    (x e : String) (t : Table) → IsDict t → held x t ≡ times x (entry e t) + held x (delete e t)
unfolding delete held lookup times
held-delete x e [] h = refl
held-delete x e ((k, l) ∷ t) (a, h) = ground (arith, held-delete x e t h, string_eq.decides k e)

pub size-delete :
    (e : String) (t : Table) → IsDict t → size t ≡ length (entry e t) + size (delete e t)
unfolding delete lookup
size-delete e [] h = refl
size-delete e ((k, l) ∷ t) (a, h) = ground (arith, size-delete e t h, string_eq.decides k e)
