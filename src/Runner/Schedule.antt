-- ===== src/Runner/Schedule.antt =====
-- Runner.py: runs written down as lists of events, and the states that they reach.
use meguro.Base.{
  ℕ, ◌+◌, ◌≡◌, refl, subst, List, [], ◌∷◌, ◌++◌, Option, none, some, Bool, if◌then◌else◌, ltb,
  ltb→lt, length, Bool-cases, inl, inr,
}
use meguro.Runner.{
  Parallel, Verdict, Attempt, produce, take_ready, finish, Step, producer, take, end_attempt, put,
  Reach, here, next,
}

-- The consumers act on the first task of the queue or of their lists.
pub data Event : Type 0 where
  produces : Bool → Verdict → Event
  takes : Event
  ends : Attempt → Event
  puts : Event

module _ (numjobs : ℕ) (keep : Bool) (waits : ℕ → Bool) (run_after more_tasks : ℕ → List ℕ) where
  abbrev take_first : List ℕ → Parallel → Option Parallel
  take_first [] s = none
  take_first (x ∷ rest) s =
      if ltb (length s.running + length s.finishing) numjobs
      then some (take_ready numjobs keep waits run_after more_tasks x rest s)
      else none

  abbrev end_first : Attempt → List ℕ → Parallel → Option Parallel
  end_first result [] s = none
  end_first result (x ∷ rest) s =
      some (finish numjobs keep waits run_after more_tasks x result rest s)

  abbrev put_first : List ℕ → Parallel → Option Parallel
  put_first [] s = none
  put_first (x ∷ rest) s = some (record s { finishing = rest; out = s.out ++ x ∷ [] })

  abbrev on_event : Event → Parallel → Option Parallel
  on_event (produces front verdict) s =
      produce numjobs keep waits run_after more_tasks front verdict s.phase s
  on_event takes s = take_first s.ready s
  on_event (ends result) s = end_first result s.running s
  on_event puts s = put_first s.finishing s

  -- The state behind a list of events; `none` where one is not possible.
  unfoldable pub drive : List Event → Parallel → Option Parallel
  drive [] s = some s
  drive (e ∷ es) s = elim (on_event e s) [ none ↦ none | some s' ↦ drive es s' ]

  abbrev OnSome : (Parallel → Type 0) → Option Parallel → Type 0
  OnSome P none = Unit
  OnSome P (some s) = P s

  take_first-Step :
      (l : List ℕ) (s : Parallel)
      → s.ready ≡ l
      → OnSome (Step numjobs keep waits run_after more_tasks s) (take_first l s)
  take_first-Step [] s e = tt
  take_first-Step (x ∷ rest) s e =
      elim (Bool-cases (ltb (length s.running + length s.finishing) numjobs)) [
        | inl h ↦ rw h (take x rest e (ltb→lt _ _ h))
        | inr h ↦ rw h tt
      ]

  end_first-Step :
      (result : Attempt) (l : List ℕ) (s : Parallel)
      → s.running ≡ l
      → OnSome (Step numjobs keep waits run_after more_tasks s) (end_first result l s)
  end_first-Step result [] s e = tt
  end_first-Step result (x ∷ rest) s e = end_attempt x [] rest result e

  put_first-Step :
      (l : List ℕ) (s : Parallel)
      → s.finishing ≡ l
      → OnSome (Step numjobs keep waits run_after more_tasks s) (put_first l s)
  put_first-Step [] s e = tt
  put_first-Step (x ∷ rest) s e = put x [] rest e

  on_event-Step :
      (e : Event) (s : Parallel)
      → OnSome (Step numjobs keep waits run_after more_tasks s) (on_event e s)
  on_event-Step (produces front verdict) s = go _ refl
    where
      go :
          (o : Option Parallel)
          → produce numjobs keep waits run_after more_tasks front verdict s.phase s ≡ o
          → OnSome (Step numjobs keep waits run_after more_tasks s) o
      go none e = tt
      go (some s') e = producer front verdict e
  on_event-Step takes s = take_first-Step s.ready s refl
  on_event-Step (ends result) s = end_first-Step result s.running s refl
  on_event-Step puts s = put_first-Step s.finishing s refl

  OnSome-bind :
      (P Q : Parallel → Type 0) (o : Option Parallel) (f : Parallel → Option Parallel)
      → OnSome P o
      → ((s' : Parallel) → P s' → OnSome Q (f s'))
      → OnSome Q (elim o [ none ↦ none | some s' ↦ f s' ])
  OnSome-bind P Q none f h k = tt
  OnSome-bind P Q (some s') f h k = k s' h

  drive-Reach_from :
      (s : Parallel) (es : List Event) (t : Parallel)
      → Reach numjobs keep waits run_after more_tasks s t
      → OnSome (Reach numjobs keep waits run_after more_tasks s) (drive es t)
  unfolding drive
  drive-Reach_from s [] t r = r
  drive-Reach_from s (e ∷ es) t r =
      OnSome-bind (Step numjobs keep waits run_after more_tasks t)
        (Reach numjobs keep waits run_after more_tasks s) (on_event e t) (drive es)
        (on_event-Step e t) (λ t' st. drive-Reach_from s es t' (next r st))

  -- A state that a list of events leads to is reachable.
  pub drive-Reach :
      (es : List Event) (s t : Parallel)
      → drive es s ≡ some t
      → Reach numjobs keep waits run_after more_tasks s t
  drive-Reach es s t e =
      subst (OnSome (Reach numjobs keep waits run_after more_tasks s)) e
        (drive-Reach_from s es s here)
