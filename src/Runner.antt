-- ===== src/Runner.antt =====
-- tools/wafadmin/Runner.py: the class Parallel, a producer that hands tasks to consumer threads, and
-- the loop of TaskConsumer. A task is its number; the queues are lists. The threads interleave:
-- `Step` has one rule for each thing that the producer or a consumer does between two accesses to
-- what they share, a lapse of `start` or `refill_task_list` up to the next blocking call or loop test
-- being one step of the producer. A consumer that takes a task tests `stop` in the same step, and its
-- writes of `hasrun`, `stop` and `error` are one step, so that the threads have more interleavings
-- than the model there. What a task's `run` does is chosen by the environment.
pub mod Safety
pub mod Ordering
pub mod Complete
pub mod Livelock
pub mod Schedule
pub mod Tests
use meguro.Base.{
  ℕ, suc, ◌+◌, ◌-◌, ◌<◌, ◌≡◌, List, [], ◌∷◌, ◌++◌, Option, none, some, Bool, true, false, not, ◌&&◌,
  ◌||◌, ◌==◌, nat_eq, if◌then◌else◌, ltb, leb, length,
}

-- Constants.py: the values of `hasrun`.
pub data TaskState : Type 0 where
  not_run missing crashed exception skipped success : TaskState

-- `if tsk.hasrun`: NOT_RUN is 0.
abbrev pub has_run : TaskState → Bool
has_run not_run = false
has_run _ = true

abbrev pub gap : ℕ
gap = 15

-- Where the producer stands: at `while not self.stop`, in either loop of `refill_task_list`, at
-- `get_next`, in the last loop of `start`, or behind it.
pub data Phase : Type 0 where
  looping throttling filling picking draining ended : Phase

pub record Parallel : Type 0 where
  pub phase : Phase
  pub outstanding : List ℕ
  pub frozen : List ℕ
  pub ready : List ℕ
  pub running : List ℕ
  pub finishing : List ℕ
  pub out : List ℕ
  pub tasks_done : List ℕ
  pub count : ℕ
  pub maxjobs : ℕ
  pub total : ℕ
  pub processed : ℕ
  pub stop : Bool
  pub error : Bool
  pub hasrun : ℕ → TaskState
  -- What `manager.get_next_set` will give.
  pub sets : List (ℕ × List ℕ)

-- What `runnable_status` answers, or that it raises.
pub data Verdict : Type 0 where
  ask_later run_me skip_me raises : Verdict

-- How a consumer's attempt at a task ends. `no_output` is the WafError of `post_run`.
pub data Attempt : Type 0 where
  succeeds returns_error raises_in_run no_output raises_in_post_run : Attempt

unfoldable pub set_hasrun : ℕ → TaskState → (ℕ → TaskState) → ℕ → TaskState
set_hasrun x st f y = if y == x then st else f y

-- `hasrun` behind the attempt: `no_output` leaves it as it was.
abbrev pub attempted : Attempt → TaskState → TaskState
attempted succeeds old = success
attempted returns_error old = crashed
attempted raises_in_run old = exception
attempted no_output old = old
attempted raises_in_post_run old = exception

abbrev pub is_success : TaskState → Bool
is_success success = true
is_success _ = false

-- The command-line option `keep`.
module _ (keep : Bool) where
  unfoldable pub error_handler : Parallel → Parallel
  error_handler s = record s { stop = s.stop || not keep; error = true }

abbrev pub add_finished : ℕ → Parallel → Parallel
add_finished x s = record s { tasks_done = s.tasks_done ++ x ∷ [] }

module _ (more_tasks : ℕ → List ℕ) where
  -- The state behind `get_out`, for a first task `x` in the queue.
  unfoldable pub collected : ℕ → List ℕ → Parallel → Parallel
  collected x out s =
      let more : List ℕ = if s.stop then [] else more_tasks x in
      record s {
        out = out;
        tasks_done = s.tasks_done ++ x ∷ [];
        outstanding = s.outstanding ++ more;
        total = s.total + length more;
        count = s.count - 1;
      }

  -- `none` means that the queue is empty and the producer waits.
  unfoldable pub take_out : List ℕ → Parallel → Option Parallel
  take_out [] s = none
  take_out (x ∷ out) s = some (collected x out s)

  unfoldable pub get_out : Parallel → Option Parallel
  get_out s = take_out s.out s

-- `(jobs, tmp) = self.manager.get_next_set()` and what follows it.
unfoldable pub next_set : List (ℕ × List ℕ) → Parallel → Parallel
next_set [] s = s
next_set ((jobs, tmp) ∷ sets) s = record s {
  maxjobs = jobs;
  outstanding = s.outstanding ++ tmp;
  sets = sets;
}

-- The test of `frozen` in the second loop of `refill_task_list`.
unfoldable pub thaw : List ℕ → Parallel → Parallel
unfolding next_set
thaw [] s =
    if s.count == 0
    then record (next_set s.sets s) { phase = picking }
    else record s { phase = filling }
thaw (x ∷ frozen) s = record s {
  outstanding = s.outstanding ++ x ∷ frozen;
  frozen = [];
  phase = filling;
}

abbrev pub thaw? : Option Parallel → Option Parallel
thaw? none = none
thaw? (some s) = some (thaw s.frozen s)

-- `postpone`, by the random bit.
unfoldable pub postpone : Bool → ℕ → Parallel → Parallel
postpone front x s = record s {
  frozen = if front then x ∷ s.frozen else s.frozen ++ x ∷ [];
  phase = looping;
}

unfoldable pub all_run : (ℕ → TaskState) → List ℕ → Bool
all_run hasrun [] = true
all_run hasrun (t ∷ ts) = has_run (hasrun t) && all_run hasrun ts

module _ (numjobs : ℕ) (keep : Bool) (waits : ℕ → Bool) (run_after more_tasks : ℕ → List ℕ) where
  -- The task is put into the queue of the consumers.
  unfoldable pub launch : ℕ → Parallel → Parallel
  launch x s = record s {
    count = s.count + 1;
    ready = s.ready ++ x ∷ [];
    processed = s.processed + 1;
    phase = looping;
  }

  -- What `start` does on the answer of `runnable_status`.
  unfoldable pub act : Bool → Verdict → ℕ → Parallel → Parallel
  unfolding launch error_handler set_hasrun postpone
  act front ask_later x s = postpone front x s
  act front run_me x s = launch x s
  act front skip_me x s = add_finished x (record s {
    processed = s.processed + 1;
    hasrun = set_hasrun x skipped s.hasrun;
    phase = looping;
  })
  act front raises x s = add_finished x (
      error_handler keep (record s {
        processed = s.processed + 1;
        hasrun = set_hasrun x exception s.hasrun;
        phase = looping;
      }))

  -- The answer of `runnable_status`: that of the class Task first asks to come back later if a task of `run_after` has not
  -- run. A task that does not wait has a method of its own in its place, which answers without that test: those
  -- of TaskBase and of a class for `always_run`, and that of the command-output tasks that have no input.
  unfoldable pub asked : Verdict → ℕ → Parallel → Verdict
  asked verdict x s = if not (waits x) || all_run s.hasrun (run_after x) then verdict else ask_later

  -- The body of the loop of `start` from `if tsk.hasrun` on, for a task taken from `outstanding`.
  unfoldable pub consider : Bool → Verdict → ℕ → Parallel → Parallel
  unfolding act asked
  consider front verdict x s =
      if has_run (s.hasrun x)
      then add_finished x (record s { processed = s.processed + 1; phase = looping })
      else act front (asked verdict x s) x s

  -- `get_next`, and the tests on what it gives.
  unfoldable pub pick : Bool → Verdict → List ℕ → Parallel → Parallel
  pick front verdict [] s = record s { phase = if s.count == 0 then draining else looping }
  pick front verdict (x ∷ rest) s = consider front verdict x (record s { outstanding = rest })

  abbrev pub over_limit : Parallel → Bool
  over_limit s = ltb (numjobs + gap) s.count || leb s.maxjobs s.count

  unfoldable pub fill : List ℕ → Parallel → Option Parallel
  fill (x ∷ rest) s = some (record s { phase = picking })
  fill [] s = if s.count == 0 then some (thaw s.frozen s) else thaw? (get_out more_tasks s)

  -- One step of the producer; `none` where it waits for the queue or has ended.
  unfoldable pub produce : Bool → Verdict → Phase → Parallel → Option Parallel
  produce front verdict looping s =
      some (record s { phase = if s.stop then draining else throttling })
  produce front verdict throttling s =
      if over_limit s then get_out more_tasks s else some (record s { phase = filling })
  produce front verdict filling s = fill s.outstanding s
  produce front verdict picking s = some (pick front verdict s.outstanding s)
  produce front verdict draining s =
      if s.error && not (s.count == 0)
      then get_out more_tasks s
      else some (record s { phase = ended })
  produce front verdict ended s = none

  -- A consumer takes a task: it puts it back at once if the build is stopping.
  unfoldable pub take_ready : ℕ → List ℕ → Parallel → Parallel
  take_ready x rest s =
      if s.stop
      then record s { ready = rest; out = s.out ++ x ∷ [] }
      else record s { ready = rest; running = x ∷ s.running }

  -- A consumer's attempt ends: `hasrun` is written and `error_handler` is called.
  unfoldable pub finish : ℕ → Attempt → List ℕ → Parallel → Parallel
  unfolding error_handler set_hasrun
  finish x result others s =
      let st = attempted result (s.hasrun x) in
      let s' = record s {
        running = others;
        finishing = x ∷ s.finishing;
        hasrun = set_hasrun x st s.hasrun;
      } in
      if is_success st then s' else error_handler keep s'

  -- Any interleaving of the producer and the consumers.
  pub data Step (s : Parallel) : Parallel → Type 0 where
    producer :
        {s' : Parallel} (front : Bool) (verdict : Verdict)
        → produce front verdict s.phase s ≡ some s'
        → Step s s'
    take :
        (x : ℕ) (rest : List ℕ)
        → s.ready ≡ x ∷ rest
        → length s.running + length s.finishing < numjobs
        → Step s (take_ready x rest s)
    end_attempt :
        (x : ℕ) (before after : List ℕ) (result : Attempt)
        → s.running ≡ before ++ x ∷ after
        → Step s (finish x result (before ++ after) s)
    put :
        (x : ℕ) (before after : List ℕ)
        → s.finishing ≡ before ++ x ∷ after
        → Step s (record s { finishing = before ++ after; out = s.out ++ x ∷ [] })

  pub data Reach (s : Parallel) : Parallel → Type 0 where
    here : Reach s s
    next : {t u : Parallel} → Reach s t → Step t u → Reach s u

-- `Parallel.__init__`, for a manager that will give `sets` and holds `total` tasks.
unfoldable pub start_state : ℕ → List (ℕ × List ℕ) → (ℕ → TaskState) → Parallel
start_state total sets hasrun = record {
  phase = looping;
  outstanding = [];
  frozen = [];
  ready = [];
  running = [];
  finishing = [];
  out = [];
  tasks_done = [];
  count = 0;
  maxjobs = 99999999;
  total = total;
  processed = 1;
  stop = false;
  error = false;
  hasrun = hasrun;
  sets = sets;
}
