-- ===== src/Runner/Safety.antt =====
-- Runner.py: what holds in every state that the producer and the consumers reach.
use meguro.Base.{
  ℕ, suc, ◌+◌, ◌<◌, ◌≤◌, ◌≡◌, refl, sym, ap, subst, List, [], ◌∷◌, ◌++◌, Option, none, some, Bool,
  true, not, ◌&&◌, ◌⊎◌, inl, inr, ◌==◌, nat_eq, arith, length, length-append, Bool-cases,
}
use meguro.Runner.{
  TaskState, Phase, Parallel, Verdict, Attempt, looping, throttling, filling, picking, draining,
  ended, gap, produce, take_ready, finish, Step, producer, take, end_attempt, put, Reach, here,
  next, take_out, collected, get_out, thaw, thaw?, over_limit, next_set, pick, fill, consider, act,
  asked, start_state, attempted, is_success,
}

-- What the phases add: the count is within the limit on the way to `get_next`, and behind the main
-- loop nothing is out or the build was stopped.
abbrev pub PhaseOk : ℕ → Phase → Parallel → Type 0
PhaseOk numjobs looping s = Unit
PhaseOk numjobs throttling s = Unit
PhaseOk numjobs filling s = s.count ≤ numjobs + gap
PhaseOk numjobs picking s = s.count ≤ numjobs + gap
PhaseOk numjobs draining s = (s.count ≡ 0) ⊎ (s.stop ≡ true)
PhaseOk numjobs ended s = (s.count ≡ 0) ⊎ (s.stop ≡ true)

-- The counter and the queues.
pub record IsCounted (numjobs : ℕ) (s : Parallel) : Type 0 where
  pub counted : s.count ≡ length s.ready + length s.running + length s.finishing + length s.out
  pub limited : s.count ≤ numjobs + gap + 1
  pub busy : length s.running + length s.finishing ≤ numjobs

-- A property of the state that a step of the producer leads to, if it leads to one.
abbrev OnSome : (Parallel → Type 0) → Option Parallel → Type 0
OnSome P none = Unit
OnSome P (some s) = P s

OnSome-some :
    (P : Parallel → Type 0) {o : Option Parallel} {s : Parallel} → OnSome P o → o ≡ some s → P s
OnSome-some P h e = subst (OnSome P) e h

length-split : (xs ys : List ℕ) (x : ℕ) → length (xs ++ x ∷ ys) ≡ suc (length (xs ++ ys))
length-split [] ys x = refl
length-split (z ∷ xs) ys x = omega (arith, length-split xs ys x)

length-snoc : (xs : List ℕ) (x : ℕ) → length (xs ++ x ∷ []) ≡ suc (length xs)
length-snoc xs x = omega (arith, length-append xs (x ∷ []))

-- What holds of the counter and, where the producer stands, of the limit and of the end.
abbrev pub Good : ℕ → Parallel → Type 0
Good numjobs s = IsCounted numjobs s × PhaseOk numjobs s.phase s

PhaseOk-mono :
    (numjobs : ℕ) (p : Phase) (s s' : Parallel)
    → s'.count ≤ s.count
    → s'.stop ≡ s.stop
    → PhaseOk numjobs p s
    → PhaseOk numjobs p s'
PhaseOk-mono numjobs looping s s' h e ok = tt
PhaseOk-mono numjobs throttling s s' h e ok = tt
PhaseOk-mono numjobs filling s s' h e ok = omega arith
PhaseOk-mono numjobs picking s s' h e ok = omega arith
PhaseOk-mono numjobs draining s s' h e ok = ground arith
PhaseOk-mono numjobs ended s s' h e ok = ground arith

module _ (numjobs : ℕ) (more_tasks : ℕ → List ℕ) where
  collected-Good :
      (s : Parallel) (x : ℕ) (l : List ℕ)
      → s.out ≡ x ∷ l
      → Good numjobs s
      → Good numjobs (collected more_tasks x l s)
  unfolding collected
  collected-Good s x l e c = (
    record {
      counted = ground (arith, c.0.counted);
      limited = omega (arith, c.0.limited);
      busy = c.0.busy;
    },
    PhaseOk-mono numjobs s.phase s _ (omega arith) refl c.1,
  )

  take_out-Good :
      (s : Parallel) (l : List ℕ)
      → s.out ≡ l
      → Good numjobs s
      → OnSome (Good numjobs) (take_out more_tasks l s)
  unfolding take_out
  take_out-Good s [] e c = tt
  take_out-Good s (x ∷ l) e c = collected-Good s x l e c

  get_out-Good : (s : Parallel) → Good numjobs s → OnSome (Good numjobs) (get_out more_tasks s)
  unfolding get_out
  get_out-Good s c = take_out-Good s s.out refl c

next_set-IsCounted :
    (numjobs : ℕ) (sets : List (ℕ × List ℕ)) (s : Parallel)
    → IsCounted numjobs s
    → IsCounted numjobs (next_set sets s) × ((next_set sets s).count ≡ s.count)
unfolding next_set
next_set-IsCounted numjobs [] s c = (c, refl)
next_set-IsCounted numjobs ((jobs, tmp) ∷ sets) s c =
    (record { counted = c.counted; limited = c.limited; busy = c.busy }, refl)

thaw-Good :
    (numjobs : ℕ) (l : List ℕ) (s : Parallel)
    → IsCounted numjobs s
    → s.count ≤ numjobs + gap
    → Good numjobs (thaw l s)
unfolding thaw
thaw-Good numjobs (x ∷ l) s c h =
    (record { counted = c.counted; limited = c.limited; busy = c.busy }, h)
thaw-Good numjobs [] s c h = elim (Bool-cases (s.count == 0)) [
  | inl e ↦
      let (c', same) = next_set-IsCounted numjobs s.sets s c in
      rw e
        (record { counted = c'.counted; limited = c'.limited; busy = c'.busy }, omega (arith, same))
  | inr e ↦ rw e (record { counted = c.counted; limited = c.limited; busy = c.busy }, h)
]

module _ (numjobs : ℕ) (keep : Bool) (waits : ℕ → Bool) (run_after more_tasks : ℕ → List ℕ) where
  consider-Good :
      (front : Bool) (verdict : Verdict) (x : ℕ) (s : Parallel)
      → IsCounted numjobs s
      → s.count ≤ numjobs + gap
      → Good numjobs (consider numjobs keep waits run_after more_tasks front verdict x s)
  unfolding consider act asked
  consider-Good front verdict x s c h = ground (arith, length-snoc s.ready x)

  pick-Good :
      (front : Bool) (verdict : Verdict) (s : Parallel) (l : List ℕ)
      → IsCounted numjobs s
      → s.count ≤ numjobs + gap
      → Good numjobs (pick numjobs keep waits run_after more_tasks front verdict l s)
  unfolding pick
  pick-Good front verdict s [] c h = ground arith
  pick-Good front verdict s (x ∷ l) c h =
      consider-Good front verdict x _
        (record { counted = c.counted; limited = c.limited; busy = c.busy }) h

  -- `refill_task_list` behind its call of `get_out`.
  thaw?-Good :
      (s : Parallel) (l : List ℕ)
      → s.out ≡ l
      → IsCounted numjobs s
      → s.count ≤ numjobs + gap
      → OnSome (Good numjobs) (thaw? (take_out more_tasks l s))
  unfolding take_out collected
  thaw?-Good s [] e c h = tt
  thaw?-Good s (x ∷ l) e c h =
      let c' : Good numjobs (collected more_tasks x l (record s { phase = filling })) =
        collected-Good numjobs more_tasks (record s { phase = filling }) x l e
          (record { counted = c.counted; limited = c.limited; busy = c.busy }, h) in
      thaw-Good numjobs _ _
        (record { counted = c'.0.counted; limited = c'.0.limited; busy = c'.0.busy }) c'.1

  fill-Good :
      (s : Parallel) (l : List ℕ)
      → IsCounted numjobs s
      → s.count ≤ numjobs + gap
      → OnSome (Good numjobs) (fill numjobs keep waits run_after more_tasks l s)
  unfolding fill
  fill-Good s (x ∷ l) c h = (record { counted = c.counted; limited = c.limited; busy = c.busy }, h)
  fill-Good s [] c h = elim (Bool-cases (s.count == 0)) [
    | inl e ↦ rw e (thaw-Good numjobs s.frozen s c h)
    | inr e ↦ rw e (unfold get_out in thaw?-Good s s.out refl c h)
  ]

  produce-Good :
      (front : Bool) (verdict : Verdict) (p : Phase) (s : Parallel)
      → s.phase ≡ p
      → Good numjobs s
      → OnSome (Good numjobs) (produce numjobs keep waits run_after more_tasks front verdict p s)
  unfolding produce
  produce-Good front verdict looping s e c = elim (Bool-cases s.stop) [
    | inl e ↦
        rw e (record { counted = c.0.counted; limited = c.0.limited; busy = c.0.busy }, inr refl)
    | inr e ↦ rw e (record { counted = c.0.counted; limited = c.0.limited; busy = c.0.busy }, tt)
  ]
  produce-Good front verdict throttling s e c =
      elim (Bool-cases (over_limit numjobs keep waits run_after more_tasks s)) [
        | inl e ↦ rw e (get_out-Good numjobs more_tasks s c)
        | inr e ↦
            rw e (
              record { counted = c.0.counted; limited = c.0.limited; busy = c.0.busy },
              ground arith,
            )
      ]
  produce-Good front verdict filling s e c = fill-Good s s.outstanding c.0 (rw e at c.1)
  produce-Good front verdict picking s e c =
      pick-Good front verdict s s.outstanding c.0 (rw e at c.1)
  produce-Good front verdict draining s e c = elim (Bool-cases (s.error && not (s.count == 0))) [
    | inl e ↦ rw e (get_out-Good numjobs more_tasks s c)
    | inr e' ↦
        rw e'
          (record { counted = c.0.counted; limited = c.0.limited; busy = c.0.busy }, rw e at c.1)
  ]
  produce-Good front verdict ended s e c = tt

  take_ready-Good :
      (x : ℕ) (rest : List ℕ) (s : Parallel)
      → s.ready ≡ x ∷ rest
      → length s.running + length s.finishing < numjobs
      → Good numjobs s
      → Good numjobs (take_ready numjobs keep waits run_after more_tasks x rest s)
  unfolding take_ready
  take_ready-Good x rest s e h c = elim (Bool-cases s.stop) [
    | inl st ↦ rw st (
      record {
        counted = ground (arith, length-snoc s.out x, c.0.counted);
        limited = c.0.limited;
        busy = c.0.busy;
      },
      PhaseOk-mono numjobs s.phase s _ (omega arith) (sym st) c.1,
    )
    | inr st ↦ rw st (
      record { counted = ground (arith, c.0.counted); limited = c.0.limited; busy = omega arith },
      PhaseOk-mono numjobs s.phase s _ (omega arith) (sym st) c.1,
    )
  ]

  -- `stop` may be set: the end of the loop is as good as before.
  PhaseOk-stop :
      (p : Phase) (s s' : Parallel)
      → s'.count ≡ s.count
      → (s.stop ≡ true → s'.stop ≡ true)
      → PhaseOk numjobs p s
      → PhaseOk numjobs p s'
  PhaseOk-stop looping s s' e h ok = tt
  PhaseOk-stop throttling s s' e h ok = tt
  PhaseOk-stop filling s s' e h ok = omega arith
  PhaseOk-stop picking s s' e h ok = omega arith
  PhaseOk-stop draining s s' e h ok = ground arith
  PhaseOk-stop ended s s' e h ok = ground arith

  finish-Good :
      (x : ℕ) (result : Attempt) (before after : List ℕ) (s : Parallel)
      → s.running ≡ before ++ x ∷ after
      → Good numjobs s
      → Good numjobs (finish numjobs keep waits run_after more_tasks x result (before ++ after) s)
  unfolding finish
  finish-Good x result before after s e c =
      elim (Bool-cases (is_success (attempted result (s.hasrun x)))) [
        | inl ok ↦ rw ok (
          record {
            counted = omega (arith, c.0.counted, ap length e, length-split before after x);
            limited = c.0.limited;
            busy = omega (arith, c.0.busy, ap length e, length-split before after x);
          },
          PhaseOk-stop s.phase s _ refl (λ h. h) c.1,
        )
        | inr bad ↦ rw bad (
          record {
            counted = omega (arith, c.0.counted, ap length e, length-split before after x);
            limited = c.0.limited;
            busy = omega (arith, c.0.busy, ap length e, length-split before after x);
          },
          PhaseOk-stop s.phase s _ refl (λ h. rw h) c.1,
        )
      ]

  Step-Good :
      {s s' : Parallel}
      → Step numjobs keep waits run_after more_tasks s s'
      → Good numjobs s
      → Good numjobs s'
  Step-Good {s} (producer front verdict e) c =
      OnSome-some (Good numjobs) (produce-Good front verdict s.phase s refl c) e
  Step-Good {s} (take x rest e h) c = take_ready-Good x rest s e h c
  Step-Good {s} (end_attempt x before after result e) c = finish-Good x result before after s e c
  Step-Good {s} (put x before after e) c = (
    record {
      counted =
          omega (arith, c.0.counted, ap length e, length-split before after x, length-snoc s.out x);
      limited = c.0.limited;
      busy = omega (arith, c.0.busy, ap length e, length-split before after x);
    },
    PhaseOk-stop s.phase s _ refl (λ h. h) c.1,
  )

  Reach-Good :
      {s s' : Parallel}
      → Reach numjobs keep waits run_after more_tasks s s'
      → Good numjobs s
      → Good numjobs s'
  Reach-Good here c = c
  Reach-Good (next r st) c = Step-Good st (Reach-Good r c)

start_state-Good :
    (numjobs total : ℕ) (sets : List (ℕ × List ℕ)) (hasrun : ℕ → TaskState)
    → Good numjobs (start_state total sets hasrun)
unfolding start_state
start_state-Good numjobs total sets hasrun =
    (record { counted = omega arith; limited = omega arith; busy = omega arith }, tt)

module _ (numjobs : ℕ) (keep : Bool) (waits : ℕ → Bool) (run_after more_tasks : ℕ → List ℕ) where
  -- In every reachable state `count` is the number of tasks that the consumers have or have put
  -- back, at most `numjobs + GAP + 1` of them; at most `numjobs` are being run at once; and once
  -- the main loop of `start` is left, the closing assertion holds: `count` is 0 or `stop` is set.
  pub Reach-IsCounted :
      {s : Parallel} (total : ℕ) (sets : List (ℕ × List ℕ)) (hasrun : ℕ → TaskState)
      → Reach numjobs keep waits run_after more_tasks (start_state total sets hasrun) s
      → IsCounted numjobs s × (s.phase ≡ ended → (s.count ≡ 0) ⊎ (s.stop ≡ true))
  Reach-IsCounted {s} total sets hasrun r =
      let c =
        Reach-Good numjobs keep waits run_after more_tasks r
          (start_state-Good numjobs total sets hasrun) in
      (c.0, λ e. subst (λ p. PhaseOk numjobs p s) e c.1)
