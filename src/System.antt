-- ===== src/System.antt =====
-- The kernel's part of the running system under the preemptive scheduler: the handlers of src/core/kernel.c
-- and src/task/task.c as steps in any order, from `rtos_init` on.
--
-- A handler is one step: it runs in a critical section or in an interrupt that no other handler of the
-- kernel interrupts. Of a wait for an object with a time limit, the part of the kernel,
-- `rtos_kernel_task_block`, is a step, and so is the one of its end, `rtos_kernel_task_unblock`. No steps are here:
-- waits without a time limit, which take the running task out of a ready list that it is not in, changes of
-- priority, deletions, creations after the start, and callbacks of timers that touch tasks.
use vrtos.Base.{ℕ, ◌<◌, ◌^◌, ◌≡◌, ◌≢◌, subst, sym, true, false, Option, none, some, []}
use vrtos.State.{Sys, success, running, kernel_inactive, preemptive_sp}
use vrtos.Kernel.{
  tick_handler, switch_context, yield, delay_ticks, task_block, task_unblock, start_scheduler,
}
use vrtos.Kernel.Validity.{IsTask, Sound, Sound-pendsv}
use vrtos.Kernel.Clock.{IsQuiet}
use vrtos.Kernel.Tick.{tick_handler-Sound}
use vrtos.Kernel.Turn.{IsHighest, switch_context-IsHighest, switch_context-Sound}
use vrtos.Kernel.Changes.{delay_ticks-Sound, task_block-delay}
use vrtos.Kernel.Readying.{task_unblock-Sound}
use vrtos.Kernel.Begin.{start_scheduler-IsHighest}
use vrtos.Task.Creation.{create, init_kernel}
use vrtos.Task.Creation.Waiting.{Waiting, Waiting-Valid, init_kernel-Waiting, create-Waiting}
use vrtos.Task.Life.{suspend, resume, named}
use vrtos.Task.Life.Suspension.{suspend-Sound, resume-Sound}

-- Task 0, the first that `rtos_init` creates.
abbrev pub idle_task : ℕ
idle_task = 0

-- The calls before the start: `rtos_init`, and `rtos_task_create` where it succeeds.
pub data Booting : Sys → Type 0 where
  init :
      (idle_function : ℕ) (idle_name : Option ℕ) (s : Sys)
      → s.kernel.state ≡ kernel_inactive
      → s.scheduler.initialized ≡ false
      → Booting (init_kernel preemptive_sp idle_function idle_name s).0
  create_task :
      {s : Sys} (task_function stack_size parameter priority : ℕ) (name : Option ℕ)
      → Booting s
      → (create false (some task_function) name stack_size parameter priority s).1 ≡ success
      → Booting (create false (some task_function) name stack_size parameter priority s).0

-- The SysTick interrupt, the PendSV interrupt, and the calls of tasks and interrupts. The idle task neither
-- delays, blocks nor suspends itself, and no task suspends it.
pub data Step (s : Sys) : Sys → Type 0 where
  tick : (timer_tick : Sys → Sys) → IsQuiet timer_tick → Step s (tick_handler timer_tick s)
  switch : Step s (switch_context s)
  ask : Step s (yield s)
  delay :
      (c ticks : ℕ)
      → s.kernel.current_task ≡ some c
      → s.pool.state c ≡ running
      → c ≢ idle_task
      → ticks ≢ 0
      → ticks < 2 ^ 31
      → Step s (delay_ticks ticks s)
  block :
      (c ticks : ℕ)
      → s.kernel.current_task ≡ some c
      → s.pool.state c ≡ running
      → c ≢ idle_task
      → ticks ≢ 0
      → ticks < 2 ^ 31
      → Step s (task_block c ticks s)
  unblock : (t : ℕ) → IsTask s t → Step s (task_unblock t s)
  suspend_task :
      (t : ℕ) (handle : Option ℕ)
      → named handle s ≡ some t
      → IsTask s t
      → t ≢ idle_task
      → Step s (suspend handle s).0
  resume_task : (t : ℕ) → IsTask s t → Step s (resume (some t) s).0

-- From the start of the scheduler on.
pub data Reachable : Sys → Type 0 where
  start : {s : Sys} → Booting s → Reachable (start_scheduler s).0
  later : {s s' : Sys} → Reachable s → Step s s' → Reachable s'

Booting-Waiting : {s : Sys} → Booting s → Waiting idle_task s
Booting-Waiting (init idle_function idle_name s inactive fresh) =
    init_kernel-Waiting idle_function idle_name s inactive fresh
Booting-Waiting (create_task {s} task_function stack_size parameter priority name b ok) =
    create-Waiting idle_task task_function stack_size parameter priority name s (Booting-Waiting b)
      ok

-- After `rtos_init` of an inactive kernel without a scheduler, for the preemptive one, and any calls that create
-- tasks, each of which succeeds, the start of the scheduler succeeds, its lists are in order, and no
-- READY task has a higher priority than the first task to run.
pub start_scheduler-Booting :
    (s : Sys)
    → Booting s
    → let (s', status) = start_scheduler s in (status ≡ none) × Sound idle_task s' × IsHighest s'
start_scheduler-Booting s b =
    let w = Booting-Waiting b in
    start_scheduler-IsHighest idle_task s w.place w.lists [] (λ t. 0) 0 (Waiting-Valid s w) w.off
      w.filling.all_ready

Step-Sound : {s s' : Sys} → Step s s' → Sound idle_task s → Sound idle_task s'
Step-Sound {s} (tick timer_tick quiet) h = (tick_handler-Sound idle_task timer_tick s h quiet).0
Step-Sound {s} switch h = switch_context-Sound idle_task s h
Step-Sound {s} ask h = Sound-pendsv true s h
Step-Sound {s} (delay c ticks current runs busy some_ticks near) h =
    (delay_ticks-Sound idle_task c ticks s h current runs busy some_ticks near).0
Step-Sound {s} (block c ticks current runs busy some_ticks near) h =
    subst (λ s'. Sound idle_task s') (sym (task_block-delay c ticks s current runs some_ticks))
      (delay_ticks-Sound idle_task c ticks s h current runs busy some_ticks near).0
Step-Sound {s} (unblock t is) h = task_unblock-Sound idle_task t s h is
Step-Sound {s} (suspend_task t handle names is busy) h =
    suspend-Sound idle_task t handle s h names is busy
Step-Sound {s} (resume_task t is) h = resume-Sound idle_task t s h is

-- `rtos_init` of an inactive kernel without a scheduler, for the preemptive one, calls that create tasks and
-- succeed, and the start; then any sequence of these steps: ticks whose timers touch no task, switches and
-- requests of one, delays of the running task and blocks of it with a time limit, by 1 to 2^31 - 1
-- ticks, and calls that unblock, suspend or resume a task, where the idle task is not delayed, blocked
-- or suspended. After each step the lists of the scheduler are in order, with exactly the tasks in them
-- that belong there: the READY ones in the list of their priority, the BLOCKED ones in the delayed
-- list by their times, which are to come, and any other in none; a task that runs is the current one,
-- and the idle task is READY or RUNNING.
pub Reachable-Sound : {s : Sys} → Reachable s → Sound idle_task s
Reachable-Sound (start {s} b) = (start_scheduler-Booting s b).1
Reachable-Sound (later r st) = Step-Sound st (Reachable-Sound r)

-- `rtos_init` of an inactive kernel without a scheduler, for the preemptive one, calls that create tasks and
-- succeed, and the start; then ticks whose timers touch no task, switches, delays and blocks with a time
-- limit of 1 to 2^31 - 1 ticks, and calls that unblock, suspend or resume a task, in any order, the idle
-- task not delayed, blocked or suspended, and nothing else (no wait without a time limit, no change of a priority,
-- no deletion and no creation). With the scheduler not suspended, a switch then makes a task the
-- running one such that no READY task has a higher priority.
pub Reachable-IsHighest :
    {s : Sys} → Reachable s → s.kernel.scheduler_suspended ≡ 0 → IsHighest (switch_context s)
Reachable-IsHighest {s} r free = (switch_context-IsHighest idle_task s (Reachable-Sound r) free).1
