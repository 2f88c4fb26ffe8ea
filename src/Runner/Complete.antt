-- ===== src/Runner/Complete.antt =====
-- Runner.py: no task is lost or made twice, and a build that ends of itself has seen every task.
use meguro.Base.{
  ℕ, ◌+◌, ◌≡◌, refl, sym, ap, ◌∙◌, subst, List, [], ◌∷◌, ◌++◌, Option, none, some, Bool, true,
  false, not, ◌&&◌, ◌⊎◌, inl, inr, ◌==◌, nat_eq, nat_eqb_iff, if◌then◌else◌, arith, length,
  Bool-cases, append-nil,
}
use meguro.Runner.{
  TaskState, Phase, Parallel, Verdict, looping, throttling, filling, picking, draining, ended,
  produce, take_ready, finish, Step, producer, take, end_attempt, put, Reach, here, next, take_out,
  collected, get_out, thaw, thaw?, next_set, pick, fill, consider, act, asked, over_limit,
  start_state, attempted, is_success, error_handler,
}
use meguro.Runner.Safety.{Reach-IsCounted}

-- How often a number stands in a list.
abbrev pub times : ℕ → List ℕ → ℕ
times x [] = 0
times x (y ∷ ys) = (if y == x then 1 else 0) + times x ys

abbrev pub times_sets : ℕ → List (ℕ × List ℕ) → ℕ
times_sets x [] = 0
times_sets x ((jobs, tmp) ∷ sets) = times x tmp + times_sets x sets

-- Every set that the manager gives holds a task.
abbrev pub NonEmpty : List (ℕ × List ℕ) → Type 0
NonEmpty [] = Unit
NonEmpty ((jobs, []) ∷ sets) = ⊥
NonEmpty ((jobs, t ∷ ts) ∷ sets) = NonEmpty sets

times-append : (x : ℕ) (xs ys : List ℕ) → times x (xs ++ ys) ≡ times x xs + times x ys
times-append x [] ys = omega arith
times-append x (y ∷ xs) ys = omega (arith, times-append x xs ys)

times-split :
    (x y : ℕ) (xs ys : List ℕ)
    → times x (xs ++ y ∷ ys) ≡ (if y == x then 1 else 0) + times x (xs ++ ys)
times-split x y [] ys = refl
times-split x y (z ∷ xs) ys = omega (arith, times-split x y xs ys)

times_nil : (x : ℕ) (xs : List ℕ) → length xs ≡ 0 → times x xs ≡ 0
times_nil x [] h = refl
times_nil x (y ∷ xs) h = absurd (omega arith)

-- Where a task may be.
abbrev held : ℕ → Parallel → ℕ
held x s =
    times x s.outstanding
    + times x s.frozen
    + times x s.ready
    + times x s.running
    + times x s.finishing
    + times x s.out
    + times x s.tasks_done
    + times_sets x s.sets

abbrev RestOk : Phase → Parallel → Type 0
RestOk picking s = s.outstanding ≡ [] → (s.frozen ≡ []) × (s.sets ≡ [])
RestOk draining s =
    s.stop ≡ false → (s.outstanding ≡ []) × (s.frozen ≡ []) × (s.sets ≡ []) × (s.count ≡ 0)
RestOk ended s =
    s.stop ≡ false → (s.outstanding ≡ []) × (s.frozen ≡ []) × (s.sets ≡ []) × (s.count ≡ 0)
RestOk _ s = Unit

-- In the first loop of `refill_task_list`, and after a stop, nothing is asked.
RestOk-loose :
    (p : Phase) (s : Parallel) → (p ≡ throttling) ⊎ ((p ≡ draining) × (s.stop ≡ true)) → RestOk p s
RestOk-loose looping s h = tt
RestOk-loose throttling s h = tt
RestOk-loose filling s h = tt
RestOk-loose picking s h = elim h [ inl e ↦ cc | inr (e, st) ↦ cc ]
RestOk-loose draining s h = elim h [ inl e ↦ cc | inr (e, st) ↦ λ f. cc ]
RestOk-loose ended s h = elim h [ inl e ↦ cc | inr (e, st) ↦ cc ]

module _ (x n : ℕ) where
  record IsKept (s : Parallel) : Type 0 where
    whole : held x s ≡ n
    sets_ok : NonEmpty s.sets
    rest : RestOk s.phase s

  abbrev Tally : Parallel → Type 0
  Tally s = (held x s ≡ n) × NonEmpty s.sets

  abbrev OnSome : (Parallel → Type 0) → Option Parallel → Type 0
  OnSome P none = Unit
  OnSome P (some s) = P s

  module _ (more_tasks : ℕ → List ℕ) (none_more : (t : ℕ) → more_tasks t ≡ []) where
    collected-Tally :
        (s : Parallel) (y : ℕ) (l : List ℕ)
        → s.out ≡ y ∷ l
        → Tally s
        → Tally (collected more_tasks y l s)
          × ((collected more_tasks y l s).outstanding ≡ s.outstanding)
    unfolding collected
    collected-Tally s y l e k =
        let more : List ℕ = if s.stop then [] else more_tasks y in
        let nothing : more ≡ [] = ground (arith, none_more y) in
        let same : s.outstanding ++ more ≡ s.outstanding = rw nothing (append-nil s.outstanding) in
        (
          (
            omega (
              arith,
              k.0,
              ap (times x) e,
              ap (times x) same,
              times-append x s.tasks_done (y ∷ []),
            ),
            k.1,
          ),
          same,
        )

  next_set-Tally :
      (l : List (ℕ × List ℕ)) (s : Parallel) → s.sets ≡ l → Tally s → Tally (next_set l s)
  unfolding next_set
  next_set-Tally [] s e k = k
  next_set-Tally ((jobs, []) ∷ l) s e k = absurd (subst NonEmpty e k.1)
  next_set-Tally ((jobs, y ∷ ts) ∷ l) s e k = (
    omega (arith, k.0, ap (times_sets x) e, times-append x s.outstanding (y ∷ ts)),
    subst NonEmpty e k.1,
  )

  next_set-RestOk :
      (l : List (ℕ × List ℕ)) (s : Parallel)
      → s.sets ≡ l
      → s.frozen ≡ []
      → s.outstanding ≡ []
      → NonEmpty l
      → (next_set l s).outstanding ≡ []
      → ((next_set l s).frozen ≡ []) × ((next_set l s).sets ≡ [])
  unfolding next_set
  next_set-RestOk [] s e f o k h = (f, e)
  next_set-RestOk ((jobs, []) ∷ l) s e f o k h = absurd k
  next_set-RestOk ((jobs, y ∷ ts) ∷ l) s e f o k h = ground (arith, h, o)

  thaw-IsKept :
      (l : List ℕ) (s : Parallel) → s.frozen ≡ l → s.outstanding ≡ [] → Tally s → IsKept (thaw l s)
  unfolding thaw
  thaw-IsKept (y ∷ l) s e o k = record {
    whole = omega (arith, k.0, ap (times x) e, times-append x s.outstanding (y ∷ l));
    sets_ok = k.1;
    rest = tt;
  }
  thaw-IsKept [] s e o k = elim (Bool-cases (s.count == 0)) [
    | inr c ↦ rw c (record { whole = k.0; sets_ok = k.1; rest = tt })
    | inl c ↦
        let k' = next_set-Tally s.sets s refl k in
        rw c (record { whole = k'.0; sets_ok = k'.1; rest = next_set-RestOk s.sets s refl e o k.1 })
  ]

  module _ (numjobs : ℕ) (keep : Bool) (waits : ℕ → Bool) (run_after more_tasks : ℕ → List ℕ)
      (none_more : (t : ℕ) → more_tasks t ≡ []) where
    take_out-IsKept :
        (s : Parallel) (l : List ℕ)
        → s.out ≡ l
        → (s.phase ≡ throttling) ⊎ ((s.phase ≡ draining) × (s.stop ≡ true))
        → Tally s
        → OnSome IsKept (take_out more_tasks l s)
    unfolding take_out collected
    take_out-IsKept s [] e ph k = tt
    take_out-IsKept s (y ∷ l) e ph k =
        let (k', same) = collected-Tally more_tasks none_more s y l e k in
        record { whole = k'.0; sets_ok = k'.1; rest = RestOk-loose s.phase _ ph }

    refill-IsKept :
        (s : Parallel) (l : List ℕ)
        → s.out ≡ l
        → s.outstanding ≡ []
        → Tally s
        → OnSome IsKept (thaw? (take_out more_tasks l s))
    unfolding take_out
    refill-IsKept s [] e o k = tt
    refill-IsKept s (y ∷ l) e o k =
        let (k', same) = collected-Tally more_tasks none_more s y l e k in
        thaw-IsKept _ (collected more_tasks y l s) refl (same ∙ o) k'

    consider-IsKept :
        (front : Bool) (verdict : Verdict) (y : ℕ) (s : Parallel)
        → held x (record s { outstanding = y ∷ s.outstanding }) ≡ n
        → NonEmpty s.sets
        → IsKept (consider numjobs keep waits run_after more_tasks front verdict y s)
    unfolding consider act asked
    consider-IsKept front verdict y s k ne = ground (
      arith,
      k,
      ne,
      times-append x s.tasks_done (y ∷ []),
      times-append x s.frozen (y ∷ []),
      times-append x s.ready (y ∷ []),
    )

    pick-IsKept :
        (front : Bool) (verdict : Verdict) (l : List ℕ) (s : Parallel)
        → s.outstanding ≡ l
        → s.phase ≡ picking
        → IsKept s
        → IsKept (pick numjobs keep waits run_after more_tasks front verdict l s)
    unfolding pick
    pick-IsKept front verdict [] s e p k =
        let rest : RestOk picking s = subst (λ q. RestOk q s) p k.rest in
        elim (Bool-cases (s.count == 0)) [
          | inl c ↦ rw c (record {
            whole = k.whole;
            sets_ok = k.sets_ok;
            rest = λ st. (e, (rest e).0, (rest e).1, (nat_eqb_iff s.count 0).0 c);
          })
          | inr c ↦ rw c (record { whole = k.whole; sets_ok = k.sets_ok; rest = tt })
        ]
    pick-IsKept front verdict (y ∷ l) s e p k =
        consider-IsKept front verdict y _ (omega (arith, k.whole, ap (times x) e)) k.sets_ok

    fill-IsKept :
        (l : List ℕ) (s : Parallel)
        → s.outstanding ≡ l
        → Tally s
        → OnSome IsKept (fill numjobs keep waits run_after more_tasks l s)
    unfolding fill get_out
    fill-IsKept (y ∷ l) s e k = record { whole = k.0; sets_ok = k.1; rest = λ o. cc }
    fill-IsKept [] s e k = elim (Bool-cases (s.count == 0)) [
      | inl c ↦ rw c (thaw-IsKept s.frozen s refl e k)
      | inr c ↦ rw c (refill-IsKept s s.out refl e k)
    ]

    produce-IsKept :
        (front : Bool) (verdict : Verdict) (p : Phase) (s : Parallel)
        → s.phase ≡ p
        → IsKept s
        → OnSome IsKept (produce numjobs keep waits run_after more_tasks front verdict p s)
    unfolding produce get_out
    produce-IsKept front verdict looping s e k = elim (Bool-cases s.stop) [
      | inl st ↦ rw st (record { whole = k.whole; sets_ok = k.sets_ok; rest = λ f. cc })
      | inr st ↦ rw st (record { whole = k.whole; sets_ok = k.sets_ok; rest = tt })
    ]
    produce-IsKept front verdict throttling s e k =
        elim (Bool-cases (over_limit numjobs keep waits run_after more_tasks s)) [
          | inl o ↦ rw o (take_out-IsKept s s.out refl (inl e) (k.whole, k.sets_ok))
          | inr o ↦ rw o (record { whole = k.whole; sets_ok = k.sets_ok; rest = tt })
        ]
    produce-IsKept front verdict filling s e k =
        fill-IsKept s.outstanding s refl (k.whole, k.sets_ok)
    produce-IsKept front verdict picking s e k = pick-IsKept front verdict s.outstanding s refl e k
    produce-IsKept front verdict draining s e k =
        let rest : RestOk draining s = subst (λ q. RestOk q s) e k.rest in
        elim (Bool-cases (s.error && not (s.count == 0))) [
          | inr b ↦ rw b (record { whole = k.whole; sets_ok = k.sets_ok; rest = rest })
          | inl b ↦ rw b (elim (Bool-cases s.stop) [
            | inl st ↦ take_out-IsKept s s.out refl (inr (e, st)) (k.whole, k.sets_ok)
            | inr st ↦ absurd (ground (arith, (rest st).3))
          ])
        ]
    produce-IsKept front verdict ended s e k = tt

    -- The consumers leave alone what the phases ask for, but that `stop` may be set.
    RestOk-consumer :
        (p : Phase) (s s' : Parallel)
        → (s'.outstanding ≡ s.outstanding)
          × (s'.frozen ≡ s.frozen)
          × (s'.sets ≡ s.sets)
          × (s'.count ≡ s.count)
        → (s.stop ≡ true → s'.stop ≡ true)
        → RestOk p s
        → RestOk p s'
    RestOk-consumer looping s s' e st k = tt
    RestOk-consumer throttling s s' e st k = tt
    RestOk-consumer filling s s' e st k = tt
    RestOk-consumer picking s s' (o, f, t, c) st k =
        λ h. let r = k (sym o ∙ h) in (f ∙ r.0, t ∙ r.1)
    RestOk-consumer draining s s' (o, f, t, c) st k =
        λ h. let r = k (ground (arith, h, st)) in (o ∙ r.0, f ∙ r.1, t ∙ r.2, c ∙ r.3)
    RestOk-consumer ended s s' (o, f, t, c) st k =
        λ h. let r = k (ground (arith, h, st)) in (o ∙ r.0, f ∙ r.1, t ∙ r.2, c ∙ r.3)

    Step-IsKept :
        {s s' : Parallel} → Step numjobs keep waits run_after more_tasks s s' → IsKept s → IsKept s'
    unfolding take_ready finish error_handler
    Step-IsKept {s} (producer front verdict e) k =
        subst (OnSome IsKept) e (produce-IsKept front verdict s.phase s refl k)
    Step-IsKept {s} (take y rest e h) k = elim (Bool-cases s.stop) [
      | inl st ↦ rw st (record {
        whole = omega (arith, k.whole, ap (times x) e, times-append x s.out (y ∷ []));
        sets_ok = k.sets_ok;
        rest = RestOk-consumer s.phase s _ (refl, refl, refl, refl) (λ _. refl) k.rest;
      })
      | inr st ↦ rw st (record {
        whole = omega (arith, k.whole, ap (times x) e);
        sets_ok = k.sets_ok;
        rest = RestOk-consumer s.phase s _ (refl, refl, refl, refl) (λ t. sym st ∙ t) k.rest;
      })
    ]
    Step-IsKept {s} (end_attempt y before after result e) k =
        elim (Bool-cases (is_success (attempted result (s.hasrun y)))) [
          | inl ok ↦ rw ok (record {
            whole = omega (arith, k.whole, ap (times x) e, times-split x y before after);
            sets_ok = k.sets_ok;
            rest = RestOk-consumer s.phase s _ (refl, refl, refl, refl) (λ t. t) k.rest;
          })
          | inr bad ↦ rw bad (record {
            whole = omega (arith, k.whole, ap (times x) e, times-split x y before after);
            sets_ok = k.sets_ok;
            rest = RestOk-consumer s.phase s _ (refl, refl, refl, refl) (λ t. rw t) k.rest;
          })
        ]
    Step-IsKept {s} (put y before after e) k = record {
      whole = omega (
        arith,
        k.whole,
        ap (times x) e,
        times-split x y before after,
        times-append x s.out (y ∷ []),
      );
      sets_ok = k.sets_ok;
      rest = RestOk-consumer s.phase s _ (refl, refl, refl, refl) (λ t. t) k.rest;
    }

    Reach-IsKept :
        {s s' : Parallel}
        → Reach numjobs keep waits run_after more_tasks s s'
        → IsKept s
        → IsKept s'
    Reach-IsKept here k = k
    Reach-IsKept (next r st) k = Step-IsKept st (Reach-IsKept r k)

start_state-IsKept :
    (x total : ℕ) (sets : List (ℕ × List ℕ)) (hasrun : ℕ → TaskState)
    → NonEmpty sets
    → IsKept x (times_sets x sets) (start_state total sets hasrun)
unfolding start_state
start_state-IsKept x total sets hasrun ne = record { whole = omega arith; sets_ok = ne; rest = tt }

module _ (numjobs : ℕ) (keep : Bool) (waits : ℕ → Bool) (run_after : ℕ → List ℕ) where
  -- Where no task makes new ones and the manager gives no empty set: a build that leaves `start`
  -- without having been stopped has finished each task as often as the manager gave it, none is
  -- left, and no consumer holds one.
  pub ended_complete :
      {s : Parallel} (total : ℕ) (sets : List (ℕ × List ℕ)) (hasrun : ℕ → TaskState) (x : ℕ)
      → NonEmpty sets
      → Reach numjobs keep waits run_after (λ _. []) (start_state total sets hasrun) s
      → s.phase ≡ ended
      → s.stop ≡ false
      → (times x s.tasks_done ≡ times_sets x sets) × (s.frozen ≡ []) × (s.count ≡ 0)
  ended_complete {s} total sets hasrun x ne r e st =
      let k =
        Reach-IsKept x (times_sets x sets) numjobs keep waits run_after (λ _. []) (λ _. refl) r
          (start_state-IsKept x total sets hasrun ne) in
      let (o, f, t, c) = subst (λ q. RestOk q s) e k.rest st in
      let counted =
        (Reach-IsCounted numjobs keep waits run_after (λ _. []) total sets hasrun r).0.counted in
      (
        omega (
          arith,
          k.whole,
          ap (times x) o,
          ap (times x) f,
          ap (times_sets x) t,
          times_nil x s.ready (omega (arith, counted, c)),
          times_nil x s.running (omega (arith, counted, c)),
          times_nil x s.finishing (omega (arith, counted, c)),
          times_nil x s.out (omega (arith, counted, c)),
        ),
        f,
        c,
      )
