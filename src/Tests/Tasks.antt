-- ===== src/Tests/Tasks.antt =====
-- The theorems on tasks and on timers, on small systems.
use vrtos.Base.{
  true, update, ℕ, ◌+◌, ◌≤◌, ◌≡◌, refl, arith, false, none, some, [], ◌∷◌, ◌==◌, if◌then◌else◌,
}
use vrtos.State.{Sys, success, ready, total_heap_size}
use vrtos.Task.Stack.{check_stack, align8_down}
use vrtos.Task.Creation.{allocate_tcb, effective_stack_size, create}
use vrtos.State.{kernel_inactive}
use vrtos.Task.Creation.Created.{create-Created}
use vrtos.Timer.{timer_tick}
use vrtos.Timer.Order.{ActiveTimers, up_to, later_than}
use vrtos.Timer.Settling.{settle}
use vrtos.Timer.Rounds.{Settled}
use vrtos.Timer.Ticking.{time_after, timer_tick-Settled}
use vrtos.Tests.{blank}

-- No task is there.
abbrev no_tasks : Sys
no_tasks = record blank { pool = record blank.pool { task_function = λ _. none } }

first_place : allocate_tcb no_tasks ≡ some 0
unfolding allocate_tcb
first_place = refl

fits : 0 + effective_stack_size 0 ≤ total_heap_size
unfolding effective_stack_size
fits = omega arith

create-Created_example :
    let (s', status, handle) = create false (some 77) none 0 0 3 no_tasks in
    (status ≡ success)
    × (handle ≡ some 0)
    × (s'.pool.state 0 ≡ ready)
    × (s'.pool.task_function 0 ≡ some 77)
    × (s'.pool.priority 0 ≡ 3)
    × (s'.heap_index ≡ 0 + effective_stack_size 0)
    × (0 ≤ effective_stack_size 0)
    × (256 ≤ effective_stack_size 0)
    × (s'.pool.stack_base 0 ≡ some (align8_down (536870916 + s'.heap_index)))
    × (check_stack (some 0) s' ≡ false)
create-Created_example =
    create-Created 0 77 0 0 3 none no_tasks (omega arith) (omega arith) (omega arith) first_place
      refl fits (omega arith)

-- Task 5 runs and holds mutex 1, for which task 3 waits.
abbrev holds_mutex : Sys
holds_mutex = record blank {
  pool = record blank.pool { held_mutex_list = λ t. if t == 5 then some 1 else none };
  mutexes = record blank.mutexes { owner = λ _. some 5; waiting_list = λ _. some 3 };
}

-- Timer 1 is active and expires at 10.
abbrev times : ℕ → ℕ
times x = if x == 2 then 20 else 10

abbrev one_active : Sys
one_active = record blank {
  timers = record blank.timers { expiry_time = times; active_timers = some 1 };
}

-- It has a period of 4, and the clock is at 17.
abbrev one_expired : Sys
one_expired = record one_active {
  kernel = record blank.kernel { tick_count = 17 };
  timers = record one_active.timers { auto_reload = λ _. true; active = λ _. true };
}

one_expired-ActiveTimers : ActiveTimers one_expired.timers times 5 (1 ∷ [])
one_expired-ActiveTimers = record {
  chain = (refl, refl);
  distinct = (tt, tt);
  short = omega arith;
  times = (refl, tt);
  sorted = (tt, tt);
  window = ((omega arith, omega arith), tt);
}

-- A callback that counts in a byte of memory.
abbrev count_call : ℕ → ℕ → ℕ → Sys → Sys
count_call f t p s = record s { bytes = update s.bytes 0 (s.bytes 0 + 1) }

timer_tick-Settled_example :
    let next = time_after times one_expired.timers.period 17 in
    Settled next 5 17
      (settle next one_expired.timers.auto_reload
        (up_to times 17 (1 ∷ []))
        (later_than times 17 (1 ∷ [])))
      (timer_tick count_call 2 one_expired)
timer_tick-Settled_example =
    timer_tick-Settled count_call 2 5 17 times one_expired (1 ∷ []) (λ f t p s. (refl, refl))
      one_expired-ActiveTimers refl (omega arith) (omega arith) ((omega arith, omega arith), tt)
      (omega arith)

-- Before the start.
abbrev powered_on : Sys
powered_on = record blank {
  kernel = record blank.kernel { state = kernel_inactive };
  scheduler = record blank.scheduler { initialized = false };
}
