-- ===== src/TaskGen/Order.antt =====
-- TaskGen.py: what the sort of `apply` gives.
use meguro.Base.{
  string_eq, ℕ, zero, suc, ◌+◌, ◌≤◌, ◌<◌, String, List, [], ◌∷◌, Option, none, some, true, false,
  if◌then◌else◌, ◌==◌, ◌≡◌, ◌≢◌, refl, sym, ap, ◌∙◌, length, ltb, mem, lookup, delete,
  lookup-delete, Bool-cases, inl, inr, arith, ◌⊎◌, Option-cases, subst,
}
use meguro.TaskGen.{
  Table, entry, restrict, disconnected, release, size, sort, sort_methods, Ordered, meths, cycle,
  ordered,
}
use meguro.TaskGen.Counts.{
  times, held, mem→lt-times, lt-times→mem, waits_for→lt-held, waits_for→held_zero, times-release,
  length-release, disconnected-release, IsDict, entry-delete, IsDict-delete, held-delete,
  size-delete,
}

-- Each method stands behind those of `keys` that the table says must run before ... it waits for.
abbrev pub IsOrdered : List String → Table → List String → Type 0
IsOrdered keys t [] = Unit
IsOrdered keys t (x ∷ rest) =
    ((k : String) → mem k keys ≡ true → mem x (entry k t) ≡ true → mem k rest ≡ true)
    × IsOrdered keys t rest

module _ (keys : List String) where
  lookup-restrict :
      (k : String) (t : Table)
      → lookup k (restrict keys t) ≡ (if mem k keys then lookup k t else none)
  unfolding restrict lookup
  lookup-restrict k [] = ground arith
  lookup-restrict k ((j, l) ∷ t) = ground (arith, lookup-restrict k t, string_eq.decides j k)

  IsDict-restrict : (t : Table) → IsDict t → IsDict (restrict keys t)
  unfolding restrict
  IsDict-restrict [] h = tt
  IsDict-restrict ((j, l) ∷ t) (a, h) = elim (Bool-cases (mem j keys)) [
    | inl m ↦ rw m (ground (arith, lookup-restrict j t, a), IsDict-restrict t h)
    | inr m ↦ rw m (IsDict-restrict t h)
  ]

  entry-restrict :
      (k : String) (t : Table) → entry k (restrict keys t) ≡ (if mem k keys then entry k t else [])
  entry-restrict k t = ground (arith, lookup-restrict k t)

module _ (keys : List String) (t : Table) where
  abbrev put : String → List String → List String
  put e out = if mem e keys then e ∷ out else out

  times-put :
      (x e : String) (out : List String)
      → times x (put e out) ≡ (if mem e keys then if x == e then 1 else 0 else 0) + times x out
  unfolding times
  times-put x e out = ground arith

  record Inv (tmp : List String) (prec : Table) (out : List String) : Type 0 where
    dict : IsDict prec
    lists : (k x : String) → times x (entry k prec) ≤ 1
    free : (x : String) → 0 < times x tmp + times x out → held x prec ≡ 0
    once : (x : String) → times x tmp + times x out ≤ 1
    whole : (x : String) → mem x keys ≡ true → 0 < times x tmp + times x out + held x prec
    kept : (k : String) → mem k keys ≡ true → times k out ≡ 0 → entry k prec ≡ entry k t
    known : (x : String) → 0 < times x out → mem x keys ≡ true
    order : IsOrdered keys t out
    asked : (k : String) → mem k keys ≡ false → lookup k prec ≡ none
    gone : (k : String) → 0 < times k out → lookup k prec ≡ none

  -- What comes first in `tmp` may stand before all that is out.
  order-next :
      (e : String) (tmp : List String) (prec : Table) (out : List String)
      → Inv (e ∷ tmp) prec out
      → IsOrdered keys t (put e out)
  unfolding times
  order-next e tmp prec out v = elim (Bool-cases (mem e keys)) [
    | inl m ↦ rw m (
      λ k hk hm. lt-times→mem k out (
          ground (
            arith,
            v.kept k hk,
            mem→lt-times e (entry k t) hm,
            held-delete e k prec v.dict,
            v.free e,
            string_eq.decides e e,
          )),
      v.order,
    )
    | inr m ↦ rw m v.order
  ]

  Inv-none :
      (e : String) (tmp : List String) (prec : Table) (out : List String)
      → lookup e prec ≡ none
      → Inv (e ∷ tmp) prec out
      → Inv tmp prec (put e out)
  unfolding times
  Inv-none e tmp prec out n v = record {
    dict = v.dict;
    lists = v.lists;
    free = λ x h. ground (arith, v.free x, times-put x e out, h);
    once = λ x. ground (arith, v.once x, times-put x e out);
    whole = λ x h. ground (arith, v.whole x h, times-put x e out, string_eq.decides x e);
    kept = λ k h z. ground (arith, v.kept k h, times-put k e out);
    known = λ x h. ground (arith, v.known x, times-put x e out, string_eq.decides x e);
    order = order-next e tmp prec out v;
    asked = v.asked;
    gone = λ k h. ground (arith, v.gone k, times-put k e out, string_eq.decides k e);
  }

  Inv-some :
      (e : String) (nlst tmp : List String) (prec : Table) (out : List String)
      → lookup e prec ≡ some nlst
      → Inv (e ∷ tmp) prec out
      → Inv (release nlst (delete e prec) tmp) (delete e prec) (put e out)
  unfolding times
  Inv-some e nlst tmp prec out n v =
      let prec' = delete e prec in
      let listed : entry e prec ≡ nlst =
        ap (λ (o : Option (List String)). elim o [ none ↦ [] | some l ↦ l ]) n in
      let count = λ (x : String). times-release x nlst prec' tmp in
      let left = λ (x : String). held-delete x e prec v.dict in
      record {
        dict = IsDict-delete e prec v.dict;
        lists = λ k x. ground (arith, v.lists k x, entry-delete e k prec);
        free = λ x h.
            ground
              (arith, v.free x, times-put x e out, count x, left x, waits_for→held_zero x prec');
        once = λ x.
            ground (arith, v.once x, v.free x, times-put x e out, count x, left x, v.lists e x);
        whole = λ x h. ground (
          arith,
          v.whole x h,
          times-put x e out,
          string_eq.decides x e,
          count x,
          left x,
          waits_for→lt-held x prec',
        );
        kept = λ k h z. ground (
          arith,
          v.kept k h,
          times-put k e out,
          entry-delete e k prec,
          string_eq.decides e k,
          string_eq.decides k e,
        );
        known = λ x h. ground (arith, v.known x, times-put x e out, string_eq.decides x e);
        order = order-next e tmp prec out v;
        asked = λ k h. ground (arith, v.asked k h, lookup-delete e k prec);
        gone = λ k h. ground (
          arith,
          v.gone k,
          times-put k e out,
          lookup-delete e k prec,
          string_eq.decides k e,
          string_eq.decides e k,
        );
      }

  -- With fuel for what waits and for what the table lists, the loop ends, and with the invariant.
  sort-Inv :
      (f : ℕ) (tmp : List String) (prec : Table) (out : List String)
      → length tmp + size prec < f
      → Inv tmp prec out
      → (o : List String) × ((p : Table) × ((sort keys f tmp prec out ≡ some (o, p)) × Inv [] p o))
  unfolding sort
  sort-Inv zero tmp prec out h v = absurd (omega arith)
  sort-Inv (suc f) [] prec out h v = (out, (prec, (refl, v)))
  sort-Inv (suc f) (e ∷ tmp) prec out h v = elim (Option-cases (lookup e prec)) [
    | inl n ↦
        let (o, (p, (r, w))) =
          sort-Inv f tmp prec (put e out) (omega arith) (Inv-none e tmp prec out n v) in
        (o, (p, (rw (n, sort) r, w)))
    | inr (nlst, n) ↦
        let listed : entry e prec ≡ nlst =
          ap (λ (o : Option (List String)). elim o [ none ↦ [] | some l ↦ l ]) n in
        let small : length (release nlst (delete e prec) tmp) + size (delete e prec) < f = omega (
          arith,
          length-release nlst (delete e prec) tmp,
          size-delete e prec v.dict,
          ap length listed,
        ) in
        let (o, (p, (r, w))) =
          sort-Inv f (release nlst (delete e prec) tmp) (delete e prec) (put e out) small
            (Inv-some e nlst tmp prec out n v) in
        (o, (p, (rw (n, sort) r, w)))
  ]

  Inv-start :
      IsDict t
      → ((k x : String) → times x (entry k t) ≤ 1)
      → ((x : String) → times x keys ≤ 1)
      → Inv (disconnected keys (restrict keys t) []) (restrict keys t) []
  unfolding times
  Inv-start d l u =
      let prec = restrict keys t in
      let count = λ (x : String).
        ap (times x) (disconnected-release keys prec []) ∙ times-release x keys prec [] in
      record {
        dict = IsDict-restrict keys t d;
        lists = λ k x. ground (arith, l k x, entry-restrict keys k t);
        free = λ x h. ground (arith, count x, waits_for→held_zero x prec);
        once = λ x. ground (arith, count x, u x);
        whole = λ x h. ground (arith, count x, mem→lt-times x keys h, waits_for→lt-held x prec);
        kept = λ k h z. ground (arith, entry-restrict keys k t);
        known = λ x h. absurd (omega arith);
        order = tt;
        asked = λ k h. ground (arith, lookup-restrict keys k t);
        gone = λ k h. absurd (omega arith);
      }

-- The table's pairs of methods go up.
abbrev pub IsRanked : List String → Table → (String → ℕ) → Type 0
IsRanked keys t rank =
    (k x : String)
    → mem k keys ≡ true
    → mem x keys ≡ true
    → mem x (entry k t) ≡ true
    → rank x < rank k

-- What some list has, the list of some method has.
holder :
    (x : String) (t : Table)
    → IsDict t
    → 0 < held x t
    → (k : String) × ((lookup k t ≢ none) × (0 < times x (entry k t)))
unfolding held lookup
holder x [] d h = absurd (omega arith)
holder x ((k, l) ∷ t) (a, d) h = elim (Bool-cases (ltb 0 (times x l))) [
  | inl p ↦ (k, (λ e. ground (arith, string_eq.decides k k), ground (arith, string_eq.decides k k)))
  | inr p ↦
      let (j, (there, q)) = holder x t d (ground arith) in
      let other : (k == j) ≡ false = ground (arith, string_eq.decides k j, a, there) in
      (j, (λ e. ground (arith, there), ground arith))
]

-- No rank of the table's methods is above this.
ranks : (String → ℕ) → Table → ℕ
ranks rank [] = 0
ranks rank ((k, l) ∷ t) = rank k + ranks rank t

rank-le-ranks :
    (rank : String → ℕ) (k : String) (t : Table) → lookup k t ≢ none → rank k ≤ ranks rank t
unfolding ranks lookup
rank-le-ranks rank k [] h = absurd (h refl)
rank-le-ranks rank k ((j, l) ∷ t) h = elim (Bool-cases (j == k)) [
  | inl e ↦ ground (arith, string_eq.decides j k)
  | inr e ↦ omega (arith, rank-le-ranks rank k t (λ z. h (rw e z)))
]

module _ (keys : List String) (t : Table) (rank : String → ℕ) (ranked : IsRanked keys t rank) where
  -- A method whose entry is left waits for one whose entry is left.
  no_rest :
      (n : ℕ) (k : String) (prec : Table) (out : List String)
      → Inv keys t [] prec out
      → lookup k prec ≢ none
      → ranks rank prec < rank k + n
      → ⊥
  unfolding times
  no_rest zero k prec out v h b = absurd (omega (arith, rank-le-ranks rank k prec h))
  no_rest (suc n) k prec out v h b =
      let in_keys : mem k keys ≡ true = ground (arith, v.asked k, h) in
      let not_out : times k out ≡ 0 = ground (arith, v.gone k, h) in
      let (j, (there, q)) = holder k prec v.dict (ground (arith, v.whole k in_keys)) in
      let j_keys : mem j keys ≡ true = ground (arith, v.asked j, there) in
      let j_out : times j out ≡ 0 = ground (arith, v.gone j, there) in
      let same = v.kept j j_keys j_out in
      let below = ranked j k j_keys in_keys (lt-times→mem k (entry j t) (ground (arith, same))) in
      no_rest n j prec out v there (omega arith)

-- The answer, by what is left of the table.
Answer : List String → Table → Ordered → Type 0
Answer keys t r =
    ((out : List String) × ((r ≡ meths out)
        × (((x : String) → times x out ≡ (if mem x keys then 1 else 0)) × IsOrdered keys t out)))
    ⊎ ((p : Table) × ((r ≡ cycle p) × ((rank : String → ℕ) → ¬ IsRanked keys t rank)))

Answer-left :
    (keys : List String) (t p : Table) (out : List String)
    → Inv keys t [] p out
    → Answer keys t (ordered (some (out, p)))
unfolding Answer times held lookup
Answer-left keys t [] out v =
    inl (out, (refl, ((λ x. ground (arith, v.once x, v.whole x, v.known x)), v.order)))
Answer-left keys t ((k, l) ∷ p) out v = inr (
  (k, l) ∷ p,
  (
    refl,
    λ rank ranked.
        no_rest keys t rank ranked (suc (ranks rank ((k, l) ∷ p))) k ((k, l) ∷ p) out v
          (λ e. ground (arith, e, string_eq.decides k k)) (omega arith),
  ),
)

-- Where the table has one entry for a method, its lists and the methods are free of repetitions: the
-- sort gives each method once, each behind the methods that the table says must run before it, or it
-- reports a cycle, and then no ranking of the methods is in accord with the table.
pub sort_methods_lem :
    (keys : List String) (t : Table)
    → IsDict t
    → ((k x : String) → times x (entry k t) ≤ 1)
    → ((x : String) → times x keys ≤ 1)
    → ((out : List String) × ((sort_methods keys t ≡ meths out)
          × (((x : String) → times x out ≡ (if mem x keys then 1 else 0)) × IsOrdered keys t out)))
      ⊎ ((p : Table) × ((sort_methods keys t ≡ cycle p)
            × ((rank : String → ℕ) → ¬ IsRanked keys t rank)))
unfolding sort_methods Answer
sort_methods_lem keys t d l u =
    let prec = restrict keys t in
    let (o, (p, (r, v))) =
      sort-Inv keys t (suc (length keys + size prec)) (disconnected keys prec []) prec []
        (omega (arith, ap length (disconnected-release keys prec []), length-release keys prec []))
        (Inv-start keys t d l u) in
    subst (Answer keys t) (sym (ap ordered r)) (Answer-left keys t p o v)
