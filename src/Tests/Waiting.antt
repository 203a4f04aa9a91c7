-- ===== src/Tests/Waiting.antt =====
-- The theorems on waiting lists and semaphores, on small systems.
use vrtos.Base.{if◌then◌else◌, ◌≤◌, ◌≡◌, inr, refl, arith, none, List, [], ◌∷◌, All}
use vrtos.State.{ready, Sys, success, timeout}
use vrtos.Sync.Semaphore.{wait, wait_resume, signal}
use vrtos.Sync.Semaphore.Laws.{
  SemWaiting, signal-SemWaiting, wait_resume-signal, wait_resume-timeout, wait-SemWaiting,
}
use vrtos.Sync.Semaphore.Count.{
  Call, inits, waits, signals, removes, resumes, run_all, IsBounded, run_all-IsBounded,
}
use vrtos.Kernel.{is_blocked}
use vrtos.Tests.{blank}

-- Nobody waits for semaphore 1.
nobody_waits : SemWaiting 1 blank []
nobody_waits = record {
  chain = refl;
  distinct = tt;
  small = tt;
  sorted = tt;
  object_is = tt;
  type_is = tt;
}

-- Task 5 runs and waits for it.
abbrev one_waits : Sys
one_waits = (wait 1 20 blank).0

wait-SemWaiting_example : ((wait 1 20 blank).1 ≡ none) × SemWaiting 1 one_waits (5 ∷ [])
wait-SemWaiting_example =
    wait-SemWaiting 1 5 20 blank [] nobody_waits refl (λ e. omega (arith, e)) refl (omega arith) tt

task_waits : SemWaiting 1 one_waits (5 ∷ [])
task_waits =
    (wait-SemWaiting 1 5 20 blank [] nobody_waits refl (λ e. omega (arith, e)) refl (omega arith)
      tt).1

signal-SemWaiting_example :
    let (s', status) = signal 1 one_waits in
    (status ≡ success)
    × (s'.semaphores.count 1 ≡ one_waits.semaphores.count 1)
    × SemWaiting 1 s' []
    × (s'.pool.blocked_on 5 ≡ none)
    × (s'.pool.state 5
        ≡ (if is_blocked (one_waits.pool.state 5) then ready else one_waits.pool.state 5))
    × All (λ y. one_waits.pool.priority y ≤ one_waits.pool.priority 5) []
signal-SemWaiting_example = signal-SemWaiting 1 5 one_waits [] task_waits

wait_resume-signal_example : let s' = (signal 1 one_waits).0 in wait_resume 1 5 s' ≡ (s', success)
wait_resume-signal_example = wait_resume-signal 1 5 one_waits [] task_waits

wait_resume-timeout_example :
    let (s', status) = wait_resume 1 5 one_waits in
    (status ≡ timeout)
    × SemWaiting 1 s' []
    × (s'.pool.blocked_on 5 ≡ none)
    × (s'.semaphores.count 1 ≡ one_waits.semaphores.count 1)
wait_resume-timeout_example =
    wait_resume-timeout 1 5 one_waits [] [] task_waits task_waits.object_is.0

blank-IsBounded : IsBounded blank.semaphores
blank-IsBounded k = inr (omega arith)

abbrev some_calls : List Call
some_calls =
    inits 1 1 2
    ∷ inits 2 3 1
    ∷ signals 1
    ∷ signals 1
    ∷ signals 1
    ∷ waits 1 20
    ∷ resumes 1 5
    ∷ removes 1 5
    ∷ []

run_all-IsBounded_example : IsBounded (run_all some_calls blank).semaphores
run_all-IsBounded_example = run_all-IsBounded some_calls blank blank-IsBounded
