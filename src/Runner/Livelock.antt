-- ===== src/Runner/Livelock.antt =====
-- Runner.py: tasks that wait for a task which never counts as run keep `start` turning for ever. A
-- task whose output is missing is such a task, since `post_run` sets `has_run` and not `hasrun`.
use meguro.Base.{
  ℕ, ◌≡◌, ◌≢◌, refl, sym, subst, ◌∙◌, List, [], ◌∷◌, ◌++◌, Option, none, some, Bool, true, false,
  not, ◌&&◌, ◌||◌, inl, inr, ◌==◌, nat_eq, if◌then◌else◌, arith, Bool-cases,
}
use meguro.Runner.{
  TaskState, Phase, Parallel, Verdict, looping, throttling, filling, picking, draining, ended,
  produce, Step, producer, take, end_attempt, put, Reach, here, next, take_out, get_out, thaw, pick,
  fill, consider, act, asked, postpone, over_limit, has_run, all_run,
}

module _ (waits : ℕ → Bool) (run_after : ℕ → List ℕ) where
  -- No task of the list has run, and each is one that waits, for one that has not.
  abbrev pub waiting : (ℕ → TaskState) → List ℕ → Bool
  waiting hasrun [] = true
  waiting hasrun (x ∷ xs) =
      not (has_run (hasrun x))
      && ((waits x && not (all_run hasrun (run_after x))) && waiting hasrun xs)

  waiting-append :
      (f : ℕ → TaskState) (xs ys : List ℕ) → waiting f (xs ++ ys) ≡ (waiting f xs && waiting f ys)
  waiting-append f [] ys = refl
  waiting-append f (x ∷ xs) ys = ground (arith, waiting-append f xs ys)

  -- The tasks to do that the phase leaves possible: some, and at `get_next` one at the front.
  abbrev pub SomeLeft : Phase → List ℕ → List ℕ → Type 0
  SomeLeft looping [] [] = ⊥
  SomeLeft throttling [] [] = ⊥
  SomeLeft filling [] [] = ⊥
  SomeLeft picking [] frozen = ⊥
  SomeLeft draining _ _ = ⊥
  SomeLeft ended _ _ = ⊥
  SomeLeft _ _ _ = Unit

  SomeLeft-frozen : (l f : List ℕ) (x : ℕ) → SomeLeft looping l (x ∷ f)
  SomeLeft-frozen [] f x = tt
  SomeLeft-frozen (y ∷ l) f x = tt

  SomeLeft-snoc : (l f : List ℕ) (x : ℕ) → SomeLeft looping l (f ++ x ∷ [])
  SomeLeft-snoc [] [] x = tt
  SomeLeft-snoc [] (y ∷ f) x = tt
  SomeLeft-snoc (z ∷ l) [] x = tt
  SomeLeft-snoc (z ∷ l) (y ∷ f) x = tt

  -- The first loops ask for the same.
  SomeLeft-throttling : (l f : List ℕ) → SomeLeft looping l f → SomeLeft throttling l f
  SomeLeft-throttling [] [] h = h
  SomeLeft-throttling [] (y ∷ f) h = tt
  SomeLeft-throttling (x ∷ l) [] h = tt
  SomeLeft-throttling (x ∷ l) (y ∷ f) h = tt

  SomeLeft-filling : (l f : List ℕ) → SomeLeft throttling l f → SomeLeft filling l f
  SomeLeft-filling [] [] h = h
  SomeLeft-filling [] (y ∷ f) h = tt
  SomeLeft-filling (x ∷ l) [] h = tt
  SomeLeft-filling (x ∷ l) (y ∷ f) h = tt

  -- Nothing is with the consumers, the build is not stopped, and all that is left waits.
  pub record IsStuck (s : Parallel) : Type 0 where
    pub goes_on : s.stop ≡ false
    pub idle : s.count ≡ 0
    pub ready : s.ready ≡ []
    pub running : s.running ≡ []
    pub finishing : s.finishing ≡ []
    pub out : s.out ≡ []
    pub outstanding : waiting s.hasrun s.outstanding ≡ true
    pub frozen : waiting s.hasrun s.frozen ≡ true
    pub left : SomeLeft s.phase s.outstanding s.frozen

  abbrev OnSome : (Parallel → Type 0) → Option Parallel → Type 0
  OnSome P none = Unit
  OnSome P (some s) = P s

  module _ (numjobs : ℕ) (keep : Bool) (more_tasks : ℕ → List ℕ) where
    thaw-IsStuck :
        (l : List ℕ) (s : Parallel)
        → s.frozen ≡ l
        → s.outstanding ≡ []
        → s.phase ≡ filling
        → IsStuck s
        → IsStuck (thaw l s)
    unfolding thaw
    thaw-IsStuck [] s e o p k = absurd (subst (λ q. q) (λ i. SomeLeft (p i) (o i) (e i)) k.left)
    thaw-IsStuck (x ∷ l) s e o p k = record {
      goes_on = k.goes_on;
      idle = k.idle;
      ready = k.ready;
      running = k.running;
      finishing = k.finishing;
      out = k.out;
      outstanding = ground (
        arith,
        k.outstanding,
        subst (λ f. waiting s.hasrun f ≡ true) e k.frozen,
        waiting-append s.hasrun s.outstanding (x ∷ l),
      );
      frozen = refl;
      left = subst (λ o'. SomeLeft filling (o' ++ x ∷ l) []) (sym o) tt;
    }

    postpone-IsStuck :
        (front : Bool) (x : ℕ) (l : List ℕ) (s : Parallel)
        → s.outstanding ≡ x ∷ l
        → IsStuck s
        → IsStuck (postpone front x (record s { outstanding = l }))
    unfolding postpone
    postpone-IsStuck front x l s e k =
        let all : waiting s.hasrun (x ∷ l) ≡ true =
          subst (λ f. waiting s.hasrun f ≡ true) e k.outstanding in
        record {
          goes_on = k.goes_on;
          idle = k.idle;
          ready = k.ready;
          running = k.running;
          finishing = k.finishing;
          out = k.out;
          outstanding = ground (arith, all);
          frozen = ground (arith, all, k.frozen, waiting-append s.hasrun s.frozen (x ∷ []));
          left =
              elim front
                as (λ b. SomeLeft looping l (if b then x ∷ s.frozen else s.frozen ++ x ∷ [])) [
                  | true ↦ SomeLeft-frozen l s.frozen x
                  | false ↦ SomeLeft-snoc l s.frozen x
                ];
        }

    pick-IsStuck :
        (front : Bool) (verdict : Verdict) (l : List ℕ) (s : Parallel)
        → s.outstanding ≡ l
        → s.phase ≡ picking
        → IsStuck s
        → IsStuck (pick numjobs keep waits run_after more_tasks front verdict l s)
    unfolding pick consider act asked
    pick-IsStuck front verdict [] s e p k =
        absurd (subst (λ q. q) (λ i. SomeLeft (p i) (e i) s.frozen) k.left)
    pick-IsStuck front verdict (x ∷ l) s e p k =
        let all : waiting s.hasrun (x ∷ l) ≡ true =
          subst (λ f. waiting s.hasrun f ≡ true) e k.outstanding in
        let fresh : has_run (s.hasrun x) ≡ false = ground (arith, all) in
        let blocked : (not (waits x) || all_run s.hasrun (run_after x)) ≡ false =
          ground (arith, all) in
        rw (fresh, blocked) (postpone-IsStuck front x l s e k)

    -- Only the phase changes.
    moved-IsStuck :
        (p : Phase) (s : Parallel)
        → SomeLeft p s.outstanding s.frozen
        → IsStuck s
        → IsStuck (record s { phase = p })
    moved-IsStuck p s left k = record {
      goes_on = k.goes_on;
      idle = k.idle;
      ready = k.ready;
      running = k.running;
      finishing = k.finishing;
      out = k.out;
      outstanding = k.outstanding;
      frozen = k.frozen;
      left = left;
    }

    take_out-IsStuck :
        (s : Parallel) (l : List ℕ)
        → s.out ≡ l
        → IsStuck s
        → OnSome IsStuck (take_out more_tasks l s)
    unfolding take_out
    take_out-IsStuck s [] e k = tt
    take_out-IsStuck s (x ∷ l) e k = cc (k.out)

    fill-IsStuck :
        (l : List ℕ) (s : Parallel)
        → s.outstanding ≡ l
        → s.phase ≡ filling
        → IsStuck s
        → OnSome IsStuck (fill numjobs keep waits run_after more_tasks l s)
    unfolding fill
    fill-IsStuck (x ∷ l) s e p k =
        moved-IsStuck picking s (subst (λ o. SomeLeft picking o s.frozen) (sym e) tt) k
    fill-IsStuck [] s e p k =
        let none_out : (s.count == 0) ≡ true = rw k.idle in
        rw none_out (thaw-IsStuck s.frozen s refl e p k)

    produce-IsStuck :
        (front : Bool) (verdict : Verdict) (p : Phase) (s : Parallel)
        → s.phase ≡ p
        → IsStuck s
        → OnSome IsStuck (produce numjobs keep waits run_after more_tasks front verdict p s)
    unfolding produce get_out
    produce-IsStuck front verdict looping s e k =
        let on : (if s.stop then draining else throttling) ≡ throttling = rw k.goes_on in
        subst (λ p. IsStuck (record s { phase = p })) (sym on)
          (moved-IsStuck throttling s
            (SomeLeft-throttling s.outstanding s.frozen
              (subst (λ p. SomeLeft p s.outstanding s.frozen) e k.left))
            k)
    produce-IsStuck front verdict throttling s e k =
        elim (Bool-cases (over_limit numjobs keep waits run_after more_tasks s)) [
          | inl o ↦ rw o (take_out-IsStuck s s.out refl k)
          | inr o ↦ rw o (
              moved-IsStuck filling s
                (SomeLeft-filling s.outstanding s.frozen
                  (subst (λ p. SomeLeft p s.outstanding s.frozen) e k.left))
                k)
        ]
    produce-IsStuck front verdict filling s e k = fill-IsStuck s.outstanding s refl e k
    produce-IsStuck front verdict picking s e k =
        pick-IsStuck front verdict s.outstanding s refl e k
    produce-IsStuck front verdict draining s e k =
        absurd (subst (λ p. SomeLeft p s.outstanding s.frozen) e k.left)
    produce-IsStuck front verdict ended s e k =
        absurd (subst (λ p. SomeLeft p s.outstanding s.frozen) e k.left)

    not_split : (before after : List ℕ) (x : ℕ) → before ++ x ∷ after ≢ []
    not_split [] after x = cc
    not_split (y ∷ before) after x = cc

    Step-IsStuck :
        {s s' : Parallel}
        → Step numjobs keep waits run_after more_tasks s s'
        → IsStuck s
        → IsStuck s'
    Step-IsStuck {s} (producer front verdict e) k =
        subst (OnSome IsStuck) e (produce-IsStuck front verdict s.phase s refl k)
    Step-IsStuck {s} (take x rest e h) k = cc (k.ready)
    Step-IsStuck {s} (end_attempt x before after result e) k =
        absurd (not_split before after x (sym e ∙ k.running))
    Step-IsStuck {s} (put x before after e) k =
        absurd (not_split before after x (sym e ∙ k.finishing))

    Reach-IsStuck :
        {s s' : Parallel}
        → Reach numjobs keep waits run_after more_tasks s s'
        → IsStuck s
        → IsStuck s'
    Reach-IsStuck here k = k
    Reach-IsStuck (next r st) k = Step-IsStuck st (Reach-IsStuck r k)

    -- From a state in which nothing is with the consumers, the build is not stopped, and all the
    -- tasks that are left (at least one) wait for one that has not run, no interleaving leads to the
    -- end of `start`.
    pub stuck-never_ended :
        (s s' : Parallel)
        → IsStuck s
        → Reach numjobs keep waits run_after more_tasks s s'
        → s'.phase ≢ ended
    stuck-never_ended s s' k r e =
        subst (λ p. SomeLeft p s'.outstanding s'.frozen) e (Reach-IsStuck r k).left
