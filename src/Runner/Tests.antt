-- ===== src/Runner/Tests.antt =====
-- Runs of Runner.py's scheduler, and the theorems at states that they reach.
use meguro.Base.{
  ℕ, ◌≡◌, ◌≢◌, refl, List, [], ◌∷◌, Option, none, some, Bool, true, ◌⊎◌, ◌==◌, nat_eq,
  if◌then◌else◌,
}
use meguro.Runner.{
  Parallel, Reach, not_run, ended, run_me, succeeds, no_output, start_state, produce, fill, thaw,
  pick, consider, act, asked, take_ready, finish, get_out, take_out, collected, all_run, here,
}
use meguro.Runner.Schedule.{Event, produces, takes, ends, puts, drive, drive-Reach}
use meguro.Runner.Safety.{IsCounted, Reach-IsCounted}
use meguro.Runner.Ordering.{IsOrdered, Reach-IsOrdered}
use meguro.Runner.Complete.{ended_complete, times, times_sets}
use meguro.Runner.Livelock.{stuck-never_ended}

abbrev waits : ℕ → Bool
waits _ = true

-- Task 2 runs after task 1.
abbrev run_after : ℕ → List ℕ
run_after x = if x == 2 then 1 ∷ [] else []

abbrev sets : List (ℕ × List ℕ)
sets = (4, 2 ∷ 1 ∷ []) ∷ []

abbrev go : Event
go = produces true run_me

abbrev begin : Parallel
begin = start_state 2 sets (λ _. not_run)

-- Task 2 is put off, task 1 is launched and run, and then task 2.
abbrev script : List Event
script =
    go
    ∷ go
    ∷ go
    ∷ go
    ∷ go
    ∷ go
    ∷ go
    ∷ go
    ∷ takes
    ∷ ends succeeds
    ∷ puts
    ∷ go
    ∷ go
    ∷ go
    ∷ go
    ∷ go
    ∷ takes
    ∷ ends succeeds
    ∷ puts
    ∷ go
    ∷ go
    ∷ go
    ∷ go
    ∷ go
    ∷ []

-- Up to where task 1 is being run.
abbrev early : List Event
early = go ∷ go ∷ go ∷ go ∷ go ∷ go ∷ go ∷ go ∷ takes ∷ []

-- Task 1 leaves no output, under the option to keep going.
abbrev broken : List Event
broken = go ∷ go ∷ go ∷ go ∷ go ∷ go ∷ go ∷ go ∷ takes ∷ ends no_output ∷ puts ∷ go ∷ go ∷ go ∷ []

abbrev state_or : Option Parallel → Parallel
state_or none = begin
state_or (some s) = s

abbrev after : List Event → Parallel
after events = state_or (drive 2 true waits run_after (λ _. []) events begin)

-- What the runs below compute with.
runs : Unit {0}
unfolding drive produce fill thaw pick consider act asked all_run get_out take_out collected
    take_ready finish start_state
runs = tt

Reach-final : Reach 2 true waits run_after (λ _. []) begin (after script)
unfolding runs
Reach-final = drive-Reach 2 true waits run_after (λ _. []) script begin (after script) refl

Reach-early : Reach 2 true waits run_after (λ _. []) begin (after early)
unfolding runs
Reach-early = drive-Reach 2 true waits run_after (λ _. []) early begin (after early) refl

Reach-IsCounted_example :
    IsCounted 2 (after early)
    × ((after early).phase ≡ ended → ((after early).count ≡ 0) ⊎ ((after early).stop ≡ true))
Reach-IsCounted_example =
    Reach-IsCounted 2 true waits run_after (λ _. []) 2 sets (λ _. not_run) Reach-early

Reach-IsOrdered_example : IsOrdered waits run_after (after early)
Reach-IsOrdered_example =
    Reach-IsOrdered waits run_after 2 true (λ _. []) 2 sets (λ _. not_run) Reach-early

ended_complete_example :
    (times 2 (after script).tasks_done ≡ times_sets 2 sets)
    × ((after script).frozen ≡ [])
    × ((after script).count ≡ 0)
unfolding runs
ended_complete_example =
    ended_complete 2 true waits run_after 2 sets (λ _. not_run) 2 tt Reach-final refl refl

Reach-broken : Reach 2 true waits run_after (λ _. []) begin (after broken)
unfolding runs
Reach-broken = drive-Reach 2 true waits run_after (λ _. []) broken begin (after broken) refl

stuck-never_ended_example : (after broken).phase ≢ ended
unfolding runs
stuck-never_ended_example =
    stuck-never_ended waits run_after 2 true (λ _. []) (after broken) (after broken)
      (record {
        goes_on = refl;
        idle = refl;
        ready = refl;
        running = refl;
        finishing = refl;
        out = refl;
        outstanding = refl;
        frozen = refl;
        left = tt;
      })
      here
