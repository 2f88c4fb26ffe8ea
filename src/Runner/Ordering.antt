-- ===== src/Runner/Ordering.antt =====
-- Runner.py: a task is handed to the consumers only behind the tasks that it runs after.
use meguro.Base.{
  ℕ, ◌≡◌, refl, subst, List, [], ◌∷◌, ◌++◌, Option, none, some, Bool, true, not, ◌&&◌, ◌||◌, inl,
  inr, ◌==◌, nat_eq, nat_eqb_iff, arith, Bool-cases,
}
use meguro.Runner.{
  TaskState, Phase, Parallel, Verdict, Attempt, looping, throttling, filling, picking, draining,
  ended, produce, take_ready, finish, Step, producer, take, end_attempt, put, Reach, here, next,
  take_out, collected, get_out, thaw, thaw?, next_set, pick, fill, consider, act, over_limit,
  has_run, all_run, set_hasrun, start_state, skipped, exception, attempted, is_success, run_me,
  skip_me, raises, ask_later, asked, succeeds, no_output,
}

module _ (waits : ℕ → Bool) (run_after : ℕ → List ℕ) where
  -- The task does not wait, or what it runs after is behind it.
  abbrev pub behind : (ℕ → TaskState) → ℕ → Bool
  behind hasrun x = not (waits x) || all_run hasrun (run_after x)

  -- Every task of the list that waits has what it runs after behind it.
  abbrev pub ordered : (ℕ → TaskState) → List ℕ → Bool
  ordered hasrun [] = true
  ordered hasrun (x ∷ xs) = behind hasrun x && ordered hasrun xs

  ordered-append :
      (f : ℕ → TaskState) (xs ys : List ℕ) → ordered f (xs ++ ys) ≡ (ordered f xs && ordered f ys)
  ordered-append f [] ys = refl
  ordered-append f (x ∷ xs) ys = ground (arith, ordered-append f xs ys)

  -- The tasks that are in the hands of the consumers, or come back from them.
  pub record IsOrdered (s : Parallel) : Type 0 where
    pub ready : ordered s.hasrun s.ready ≡ true
    pub running : ordered s.hasrun s.running ≡ true
    pub finishing : ordered s.hasrun s.finishing ≡ true
    pub out : ordered s.hasrun s.out ≡ true

  -- A task that has run stays so.
  all_run-set_hasrun :
      (f : ℕ → TaskState) (x : ℕ) (st : TaskState) (ts : List ℕ)
      → (has_run (f x) ≡ true → has_run st ≡ true)
      → all_run f ts ≡ true
      → all_run (set_hasrun x st f) ts ≡ true
  unfolding all_run set_hasrun
  all_run-set_hasrun f x st [] keep h = refl
  all_run-set_hasrun f x st (t ∷ ts) keep h = elim (Bool-cases (t == x)) [
    | inl e ↦
        let same : t ≡ x = (nat_eqb_iff t x).0 e in
        ground (arith, all_run-set_hasrun f x st ts keep, e, keep, rw same at h)
    | inr e ↦ ground (arith, all_run-set_hasrun f x st ts keep, e, h)
  ]

  ordered-set_hasrun :
      (f : ℕ → TaskState) (x : ℕ) (st : TaskState) (xs : List ℕ)
      → (has_run (f x) ≡ true → has_run st ≡ true)
      → ordered f xs ≡ true
      → ordered (set_hasrun x st f) xs ≡ true
  ordered-set_hasrun f x st [] keep h = refl
  ordered-set_hasrun f x st (y ∷ xs) keep h =
      ground
        (arith, ordered-set_hasrun f x st xs keep, all_run-set_hasrun f x st (run_after y) keep)

  set_hasrun-IsOrdered :
      (s : Parallel) (x : ℕ) (st : TaskState)
      → (has_run (s.hasrun x) ≡ true → has_run st ≡ true)
      → IsOrdered s
      → IsOrdered (record s { hasrun = set_hasrun x st s.hasrun })
  set_hasrun-IsOrdered s x st keep o = record {
    ready = ordered-set_hasrun s.hasrun x st s.ready keep o.ready;
    running = ordered-set_hasrun s.hasrun x st s.running keep o.running;
    finishing = ordered-set_hasrun s.hasrun x st s.finishing keep o.finishing;
    out = ordered-set_hasrun s.hasrun x st s.out keep o.out;
  }

  -- The parts of the state that the property is about are the same.
  abbrev Same : Parallel → Parallel → Type 0
  Same s s' =
      (s'.hasrun ≡ s.hasrun)
      × (s'.ready ≡ s.ready)
      × (s'.running ≡ s.running)
      × (s'.finishing ≡ s.finishing)
      × (s'.out ≡ s.out)

  Same-IsOrdered : (s s' : Parallel) → Same s s' → IsOrdered s → IsOrdered s'
  Same-IsOrdered s s' (h, a, b, c, d) o = record {
    ready = rw (h, a) o.ready;
    running = rw (h, b) o.running;
    finishing = rw (h, c) o.finishing;
    out = rw (h, d) o.out;
  }

  next_set-Same : (l : List (ℕ × List ℕ)) (s : Parallel) → Same s (next_set l s)
  unfolding next_set
  next_set-Same [] s = (refl, refl, refl, refl, refl)
  next_set-Same (x ∷ l) s = (refl, refl, refl, refl, refl)

  thaw-Same : (l : List ℕ) (s : Parallel) → Same s (thaw l s)
  unfolding thaw
  thaw-Same (x ∷ l) s = (refl, refl, refl, refl, refl)
  thaw-Same [] s = elim (Bool-cases (s.count == 0)) [
    | inl e ↦ rw e (next_set-Same s.sets s)
    | inr e ↦ rw e (refl, refl, refl, refl, refl)
  ]

  abbrev pub OnSome : (Parallel → Type 0) → Option Parallel → Type 0
  OnSome P none = Unit
  OnSome P (some s) = P s

  module _ (numjobs : ℕ) (keep : Bool) (more_tasks : ℕ → List ℕ) where
    take_out-IsOrdered :
        (s : Parallel) (l : List ℕ)
        → s.out ≡ l
        → IsOrdered s
        → OnSome IsOrdered (take_out more_tasks l s)
    unfolding take_out collected
    take_out-IsOrdered s [] e o = tt
    take_out-IsOrdered s (x ∷ l) e o = record {
      ready = o.ready;
      running = o.running;
      finishing = o.finishing;
      out = ground (arith, o.out);
    }

    thaw?-IsOrdered : (o : Option Parallel) → OnSome IsOrdered o → OnSome IsOrdered (thaw? o)
    thaw?-IsOrdered none h = tt
    thaw?-IsOrdered (some s) h = Same-IsOrdered s _ (thaw-Same s.frozen s) h

    act-IsOrdered :
        (front : Bool) (verdict : Verdict) (x : ℕ) (s : Parallel)
        → behind s.hasrun x ≡ true
        → IsOrdered s
        → IsOrdered (act numjobs keep waits run_after more_tasks front verdict x s)
    unfolding act
    act-IsOrdered front ask_later x s d o = Same-IsOrdered s _ (refl, refl, refl, refl, refl) o
    act-IsOrdered front run_me x s d o = record {
      ready = ground (arith, o.ready, d, ordered-append s.hasrun s.ready (x ∷ []));
      running = o.running;
      finishing = o.finishing;
      out = o.out;
    }
    act-IsOrdered front skip_me x s d o =
        Same-IsOrdered _ _ (refl, refl, refl, refl, refl)
          (set_hasrun-IsOrdered s x skipped (λ _. refl) o)
    act-IsOrdered front raises x s d o =
        Same-IsOrdered _ _ (refl, refl, refl, refl, refl)
          (set_hasrun-IsOrdered s x exception (λ _. refl) o)

    consider-IsOrdered :
        (front : Bool) (verdict : Verdict) (x : ℕ) (s : Parallel)
        → IsOrdered s
        → IsOrdered (consider numjobs keep waits run_after more_tasks front verdict x s)
    unfolding consider act asked
    consider-IsOrdered front verdict x s o = elim (Bool-cases (has_run (s.hasrun x))) [
      | inl e ↦ rw e (Same-IsOrdered s _ (refl, refl, refl, refl, refl) o)
      | inr e ↦ elim (Bool-cases (behind s.hasrun x)) [
        | inl d ↦ rw (e, d) (act-IsOrdered front verdict x s d o)
        | inr d ↦ rw (e, d) (Same-IsOrdered s _ (refl, refl, refl, refl, refl) o)
      ]
    ]

    pick-IsOrdered :
        (front : Bool) (verdict : Verdict) (l : List ℕ) (s : Parallel)
        → IsOrdered s
        → IsOrdered (pick numjobs keep waits run_after more_tasks front verdict l s)
    unfolding pick
    pick-IsOrdered front verdict [] s o = Same-IsOrdered s _ (refl, refl, refl, refl, refl) o
    pick-IsOrdered front verdict (x ∷ l) s o =
        consider-IsOrdered front verdict x _ (Same-IsOrdered s _ (refl, refl, refl, refl, refl) o)

    get_out-IsOrdered : (s : Parallel) → IsOrdered s → OnSome IsOrdered (get_out more_tasks s)
    unfolding get_out
    get_out-IsOrdered s o = take_out-IsOrdered s s.out refl o

    fill-IsOrdered :
        (l : List ℕ) (s : Parallel)
        → IsOrdered s
        → OnSome IsOrdered (fill numjobs keep waits run_after more_tasks l s)
    unfolding fill
    fill-IsOrdered (x ∷ l) s o = Same-IsOrdered s _ (refl, refl, refl, refl, refl) o
    fill-IsOrdered [] s o = elim (Bool-cases (s.count == 0)) [
      | inl e ↦ rw e (Same-IsOrdered s _ (thaw-Same s.frozen s) o)
      | inr e ↦ rw e (thaw?-IsOrdered _ (get_out-IsOrdered s o))
    ]

    produce-IsOrdered :
        (front : Bool) (verdict : Verdict) (p : Phase) (s : Parallel)
        → IsOrdered s
        → OnSome IsOrdered (produce numjobs keep waits run_after more_tasks front verdict p s)
    unfolding produce
    produce-IsOrdered front verdict looping s o =
        Same-IsOrdered s _ (refl, refl, refl, refl, refl) o
    produce-IsOrdered front verdict throttling s o =
        elim (Bool-cases (over_limit numjobs keep waits run_after more_tasks s)) [
          | inl e ↦ rw e (get_out-IsOrdered s o)
          | inr e ↦ rw e (Same-IsOrdered s _ (refl, refl, refl, refl, refl) o)
        ]
    produce-IsOrdered front verdict filling s o = fill-IsOrdered s.outstanding s o
    produce-IsOrdered front verdict picking s o = pick-IsOrdered front verdict s.outstanding s o
    produce-IsOrdered front verdict draining s o =
        elim (Bool-cases (s.error && not (s.count == 0))) [
          | inl e ↦ rw e (get_out-IsOrdered s o)
          | inr e ↦ rw e (Same-IsOrdered s _ (refl, refl, refl, refl, refl) o)
        ]
    produce-IsOrdered front verdict ended s o = tt

    take_ready-IsOrdered :
        (x : ℕ) (rest : List ℕ) (s : Parallel)
        → s.ready ≡ x ∷ rest
        → IsOrdered s
        → IsOrdered (take_ready numjobs keep waits run_after more_tasks x rest s)
    unfolding take_ready
    take_ready-IsOrdered x rest s e o =
        let first : ordered s.hasrun (x ∷ rest) ≡ true = rw e at o.ready in
        ground (arith, first, o.running, o.finishing, o.out, ordered-append s.hasrun s.out (x ∷ []))

    attempted_keeps :
        (result : Attempt) (st : TaskState)
        → has_run st ≡ true
        → has_run (attempted result st) ≡ true
    attempted_keeps succeeds st h = refl
    attempted_keeps no_output st h = h
    attempted_keeps _ st h = refl

    -- A task in the middle of a list.
    ordered-split :
        (f : ℕ → TaskState) (before after : List ℕ) (x : ℕ) (l : List ℕ)
        → l ≡ before ++ x ∷ after
        → ordered f l ≡ true
        → (ordered f (before ++ after) ≡ true) × (behind f x ≡ true)
    ordered-split f before after x l e h =
        let h' : ordered f (before ++ x ∷ after) ≡ true = rw e at h in
        ground (arith, h', ordered-append f before (x ∷ after), ordered-append f before after)

    finish-IsOrdered :
        (x : ℕ) (result : Attempt) (before after : List ℕ) (s : Parallel)
        → s.running ≡ before ++ x ∷ after
        → IsOrdered s
        → IsOrdered (finish numjobs keep waits run_after more_tasks x result (before ++ after) s)
    unfolding finish
    finish-IsOrdered x result before after s e o =
        let (rest, held) = ordered-split s.hasrun before after x s.running e o.running in
        let moved : IsOrdered
            (record s { running = before ++ after; finishing = x ∷ s.finishing }) =
          record {
            ready = o.ready;
            running = rest;
            finishing = ground (arith, o.finishing, held);
            out = o.out;
          } in
        let written =
          set_hasrun-IsOrdered _ x (attempted result (s.hasrun x))
            (attempted_keeps result (s.hasrun x)) moved in
        elim (Bool-cases (is_success (attempted result (s.hasrun x)))) [
          | inl ok ↦ rw ok (Same-IsOrdered _ _ (refl, refl, refl, refl, refl) written)
          | inr bad ↦ rw bad (Same-IsOrdered _ _ (refl, refl, refl, refl, refl) written)
        ]

    Step-IsOrdered :
        {s s' : Parallel}
        → Step numjobs keep waits run_after more_tasks s s'
        → IsOrdered s
        → IsOrdered s'
    Step-IsOrdered {s} (producer front verdict e) o =
        subst (OnSome IsOrdered) e (produce-IsOrdered front verdict s.phase s o)
    Step-IsOrdered {s} (take x rest e h) o = take_ready-IsOrdered x rest s e o
    Step-IsOrdered {s} (end_attempt x before after result e) o =
        finish-IsOrdered x result before after s e o
    Step-IsOrdered {s} (put x before after e) o =
        let (rest, held) = ordered-split s.hasrun before after x s.finishing e o.finishing in
        record {
          ready = o.ready;
          running = o.running;
          finishing = rest;
          out = ground (arith, o.out, held, ordered-append s.hasrun s.out (x ∷ []));
        }

    Reach-IsOrdered_from :
        {s s' : Parallel}
        → Reach numjobs keep waits run_after more_tasks s s'
        → IsOrdered s
        → IsOrdered s'
    Reach-IsOrdered_from here o = o
    Reach-IsOrdered_from (next r st) o = Step-IsOrdered st (Reach-IsOrdered_from r o)

    -- However the threads interleave, a task whose `runnable_status` is that of the class Task, and that waits for a
    -- consumer, is being run or comes back from one, has every task of its `run_after` behind it, marked as run.
    pub Reach-IsOrdered :
        {s : Parallel} (total : ℕ) (sets : List (ℕ × List ℕ)) (hasrun : ℕ → TaskState)
        → Reach numjobs keep waits run_after more_tasks (start_state total sets hasrun) s
        → IsOrdered s
    unfolding start_state
    Reach-IsOrdered total sets hasrun r =
        Reach-IsOrdered_from r
          (record { ready = refl; running = refl; finishing = refl; out = refl })
