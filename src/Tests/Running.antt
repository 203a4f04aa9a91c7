-- ===== src/Tests/Running.antt =====
-- The theorems on the running system, on a small one: the idle task and a worker of priority 3.
use vrtos.Base.{
  find_tail, ℕ, ◌+◌, ◌≡◌, ◌≢◌, ◌⊎◌, ◌<◌, ◌≤◌, refl, arith, false, none, some, leb, if◌then◌else◌,
  set_bit, has_bit, clear_bit,
}
use vrtos.State.{Sys, ready, running, blocked, kernel_inactive, preemptive_sp, max_delay}
use vrtos.Kernel.{tick_handler, switch_context, delay_ticks, start_scheduler}
use vrtos.Kernel.Validity.{Sound, IsTask}
use vrtos.Kernel.Clock.{IsQuiet}
use vrtos.Timer.Quiet.{pass, pass-IsQuiet}
use vrtos.Kernel.Elapse.{Passes, at_once, a_tick, a_switch, delay_ticks-elapses}
use vrtos.Kernel.Tick.{tick_handler-Sound}
use vrtos.Kernel.Keeping.{IsAwake}
use vrtos.Kernel.Turn.{IsHighest}
use vrtos.Scheduler
use vrtos.Scheduler.PreemptiveSp
use vrtos.Memory
use vrtos.Task.Stack.{allocate_stack}
use vrtos.Task.Creation.{init_system, create, init_kernel, allocate_tcb, effective_stack_size}
use vrtos.System.{
  idle_task, Booting, init, create_task, tick, switch, delay, Reachable, start, later,
  start_scheduler-Booting, Reachable-Sound, Reachable-IsHighest,
}
use vrtos.Sync.Semaphore.{wait}
use vrtos.Sync.Semaphore.Forever.{wait-switch_context}
use vrtos.Tests.{blank}

-- Before the start, with nothing in use.
abbrev powered_on : Sys
powered_on = record blank {
  kernel = record blank.kernel { state = kernel_inactive };
  scheduler = record blank.scheduler { initialized = false };
}

abbrev booted : Sys
booted = (init_kernel preemptive_sp 4096 none powered_on).0

booted-Booting : Booting booted
booted-Booting = init 4096 none powered_on refl refl

abbrev with_worker : Sys
with_worker = (create false (some 8192) none 512 0 3 booted).0

with_worker-Booting : Booting with_worker
unfolding create init_kernel Scheduler.init init_system Memory.init Scheduler.find_interface
    allocate_tcb allocate_stack Memory.malloc Memory.align8_up effective_stack_size
    Scheduler.add_to_ready_list PreemptiveSp.add_to_ready_list set_bit
with_worker-Booting = create_task 8192 512 0 3 none booted-Booting refl

start_scheduler-Booting_example :
    let (s', status) = start_scheduler with_worker in
    (status ≡ none) × Sound idle_task s' × IsHighest s'
start_scheduler-Booting_example = start_scheduler-Booting with_worker with_worker-Booting

abbrev started : Sys
started = (start_scheduler with_worker).0

-- The worker runs first.
worker_runs : (started.kernel.current_task ≡ some 1) × (started.pool.state 1 ≡ running)
unfolding start_scheduler create init_kernel Scheduler.init init_system Memory.init
    Scheduler.find_interface allocate_tcb allocate_stack Memory.malloc Memory.align8_up
    effective_stack_size Scheduler.add_to_ready_list PreemptiveSp.add_to_ready_list
    Scheduler.get_next_task PreemptiveSp.get_next_task set_bit has_bit clear_bit
    Scheduler.remove_from_ready_list PreemptiveSp.remove_from_ready_list
worker_runs = (refl, refl)

not_idle : 1 ≢ idle_task
not_idle e = omega arith

not_zero : ◌≢◌ {A = ℕ} 2 0
not_zero e = omega arith

-- The software timers, with a callback that does nothing, and more rounds than there can be timers
abbrev timers : Sys → Sys
timers = pass (λ f t p s. s) 257

timers-IsQuiet : IsQuiet timers
timers-IsQuiet = pass-IsQuiet (λ f t p s. s) (λ f t p s. refl) 257

started-Reachable : Reachable started
started-Reachable = start with_worker-Booting

-- The worker is delayed for 2 ticks, and another task runs.
abbrev delayed : Sys
delayed = switch_context (delay_ticks 2 started)

delayed-Reachable : Reachable delayed
delayed-Reachable =
    later
      (later started-Reachable
        (delay 1 2 worker_runs.0 worker_runs.1 not_idle not_zero (omega arith)))
      switch

Reachable-Sound_example : Sound idle_task (tick_handler timers delayed)
Reachable-Sound_example = Reachable-Sound (later delayed-Reachable (tick timers timers-IsQuiet))

not_suspended : started.kernel.scheduler_suspended ≡ 0
unfolding start_scheduler create init_kernel Scheduler.init init_system Memory.init
    Scheduler.find_interface allocate_tcb allocate_stack Memory.malloc Memory.align8_up
    effective_stack_size Scheduler.add_to_ready_list PreemptiveSp.add_to_ready_list
    Scheduler.get_next_task PreemptiveSp.get_next_task set_bit has_bit clear_bit
    Scheduler.remove_from_ready_list PreemptiveSp.remove_from_ready_list
not_suspended = refl

Reachable-IsHighest_example : IsHighest (switch_context started)
Reachable-IsHighest_example = Reachable-IsHighest started-Reachable not_suspended

-- The switch that the delay asks for, one tick, and the switch after it
one_tick_later : Passes (delay_ticks 2 started) 1 (switch_context (tick_handler timers delayed))
one_tick_later = a_switch (a_tick timers timers-IsQuiet (a_switch at_once))

delay_ticks-elapses_example :
    let st = (switch_context (tick_handler timers delayed)).pool.state 1 in
    ((1 < 2) × (st ≡ blocked)) ⊎ ((2 ≤ 1) × IsAwake st)
delay_ticks-elapses_example =
    delay_ticks-elapses idle_task 1 2 started (Reachable-Sound started-Reachable) worker_runs.0
      worker_runs.1 not_idle not_zero (omega arith) one_tick_later

tick_handler-Sound_example :
    let s' = tick_handler timers started in
    let h = Reachable-Sound started-Reachable in
    (h' : Sound idle_task s') × (h'.now ≡ h.now + 1)
    × (h'.due ≡ h.due)
    × ((t : ℕ)
        → IsTask started t
        → started.pool.state t ≡ blocked
        → s'.pool.state t ≡ (if leb (h.due t) (h.now + 1) then ready else blocked))
    × ((t : ℕ)
        → IsTask started t
        → started.pool.state t ≢ blocked
        → s'.pool.state t ≡ started.pool.state t)
tick_handler-Sound_example =
    tick_handler-Sound idle_task timers started (Reachable-Sound started-Reachable) timers-IsQuiet

-- Two workers of the same priority: the second runs after a switch, with the first READY.
abbrev two_workers : Sys
two_workers = (create false (some 8448) none 512 0 3 with_worker).0

two_workers-Booting : Booting two_workers
unfolding create init_kernel Scheduler.init init_system Memory.init Scheduler.find_interface
    allocate_tcb allocate_stack Memory.malloc Memory.align8_up effective_stack_size
    Scheduler.add_to_ready_list PreemptiveSp.add_to_ready_list set_bit
two_workers-Booting = create_task 8448 512 0 3 none with_worker-Booting refl

abbrev two_started : Sys
two_started = (start_scheduler two_workers).0

second_runs :
    let s = switch_context two_started in
    (two_started.kernel.scheduler_suspended ≡ 0)
    × (s.kernel.current_task ≡ some 2)
    × (s.semaphores.count 1 ≡ 0)
    × (s.pool.state 1 ≡ ready)
    × (s.pool.priority 1 ≡ s.pool.priority 2)
unfolding switch_context start_scheduler create init_kernel Scheduler.init init_system Memory.init
    Scheduler.find_interface allocate_tcb allocate_stack Memory.malloc Memory.align8_up
    effective_stack_size Scheduler.add_to_ready_list PreemptiveSp.add_to_ready_list
    Scheduler.get_next_task PreemptiveSp.get_next_task set_bit has_bit clear_bit
    Scheduler.remove_from_ready_list PreemptiveSp.remove_from_ready_list Scheduler.task_completed
    find_tail
second_runs = (refl, refl, refl, refl, refl)

wait-switch_context_example :
    let s' = (wait 1 max_delay (switch_context two_started)).0 in
    (s'.pool.state 1 ≡ ready)
    × (s'.preemptive.ready_lists (s'.pool.priority 1) ≡ none)
    × (has_bit s'.preemptive.ready_priorities (s'.pool.priority 1) ≡ false)
wait-switch_context_example =
    wait-switch_context idle_task 1 2 1 two_started (Reachable-Sound (start two_workers-Booting))
      second_runs.0 second_runs.1 second_runs.2 second_runs.3 second_runs.4
