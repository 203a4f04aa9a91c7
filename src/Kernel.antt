-- ===== src/Kernel.antt =====
-- The kernel, src/core/kernel.c: state transitions of tasks, delays, the tick and the switch of tasks.
--
-- A handler runs to its end or to the point where it yields: `rtos_yield` sets the PENDSVSET bit
-- (src/port/cortex_m4/port.c), and the switch, `switch_context`, is a step of its own. A handler is one step.
pub mod Frame
pub mod Waking
pub mod Switch
pub mod Delay
pub mod Tracking
pub mod Seen
pub mod Validity
pub mod Dispatch
pub mod Keeping
pub mod Turn
pub mod Changes
pub mod Readying
pub mod Begin
pub mod Elapse
pub mod Awaking
pub mod Clock
pub mod Tick
use vrtos.Base.{
  ℕ, zero, suc, ◌+◌, ◌-◌, ◌/◌, Bool, true, false, not, ◌&&◌, Option, none, some, ltb, leb, ◌==◌,
  ◌==?◌, if◌then◌else◌, is_null, ◌▷◌, add32, sub32,
}
use vrtos.State.{
  Sys, Status, success, invalid_state, general, TaskState, ready, running, blocked, suspended,
  deleted, KernelState, kernel_inactive, kernel_ready, kernel_running, kernel_suspended, max_tasks,
  idle_task_priority,
}
use vrtos.State.Setters.{
  set_state, set_ready_timestamp, set_current_task, set_next_task, set_tick_count,
}
use vrtos.Scheduler

-- `rtos_yield`
abbrev pub yield : Sys → Sys
yield s = record s { pendsv = true }

abbrev pub yield_if : Bool → Sys → Sys
yield_if b s = record s { pendsv = (if b then true else s.pendsv) }

-- `rtos_kernel_validate_transition`, the task's state first.
unfoldable pub validate_transition : TaskState → TaskState → Bool
validate_transition ready running = true
validate_transition ready suspended = true
validate_transition ready deleted = true
validate_transition running ready = true
validate_transition running blocked = true
validate_transition running suspended = true
validate_transition running deleted = true
validate_transition blocked ready = true
validate_transition blocked suspended = true
validate_transition blocked deleted = true
validate_transition suspended ready = true
validate_transition suspended deleted = true
validate_transition _ _ = false

is_running : KernelState → Bool
is_running kernel_running = true
is_running _ = false

-- The profiling time stamp of a task that becomes READY, above the idle priority only.
abbrev stamp_ready : ℕ → Sys → Sys
stamp_ready t s =
    set_ready_timestamp t (if ltb 0 (s.pool.priority t) then s.cycles else s.pool.ready_timestamp t)
      s

preempt_for : ℕ → Sys → Sys
preempt_for t s = let (s', preempt) = Scheduler.should_preempt (some t) s in yield_if preempt s'

-- `rtos_kernel_task_ready`
unfoldable pub task_ready : ℕ → Sys → Sys
unfolding is_running preempt_for
task_ready t s =
    let s₁ = s ▷ set_state t ready ▷ stamp_ready t ▷ Scheduler.add_to_ready_list t in
    if validate_transition (s.pool.state t) ready
    then (if is_running s₁.kernel.state then preempt_for t s₁ else s₁)
    else s

unfoldable pub is_ready : TaskState → Bool
is_ready ready = true
is_ready _ = false

unfoldable pub is_blocked : TaskState → Bool
is_blocked blocked = true
is_blocked _ = false

is_running_task : TaskState → Bool
is_running_task running = true
is_running_task _ = false

-- `rtos_kernel_task_block`
unfoldable pub task_block : ℕ → ℕ → Sys → Sys
unfolding is_ready
task_block t delay_ticks s =
    let s₁ = if is_ready (s.pool.state t) then Scheduler.remove_from_ready_list t s else s in
    let s₂ = set_state t blocked s₁ in
    let s₃ = if ltb 0 delay_ticks then Scheduler.add_to_delayed_list t delay_ticks s₂ else s₂ in
    if validate_transition (s.pool.state t) blocked
    then yield_if (s.kernel.current_task ==? t) s₃
    else s

-- `rtos_kernel_task_unblock`
unfoldable pub task_unblock : ℕ → Sys → Sys
unfolding is_blocked
task_unblock t s =
    if is_blocked (s.pool.state t)
    then (s ▷ Scheduler.remove_from_delayed_list t ▷ task_ready t)
    else s

-- The current task, if there is one, is delayed.
delay_task : Option ℕ → ℕ → Sys → Sys
delay_task none ticks s = s
delay_task (some t) ticks s =
    if ticks == 0
    then s
    else (s ▷ set_state t blocked ▷ Scheduler.add_to_delayed_list t ticks ▷ yield)

-- `rtos_delay_ticks`
unfoldable pub delay_ticks : ℕ → Sys → Sys
unfolding delay_task
delay_ticks ticks s = delay_task s.kernel.current_task ticks s

-- `rtos_delay_ms`, at a tick period of `period` milliseconds (RTOS_TICK_PERIOD_MS).
unfoldable pub delay_ms : ℕ → ℕ → Sys → Sys
delay_ms period ms s = let ticks = ms / period in delay_ticks (if ticks == 0 then 1 else ticks) s

-- `rtos_delay_until`: the new state, and the new `*prev_wake_time`.
unfoldable pub delay_until : ℕ → ℕ → Sys → Sys × ℕ
delay_until prev_wake_time time_increment s =
    let elapsed = sub32 s.kernel.tick_count prev_wake_time in
    let wait = time_increment - elapsed in
    let s₁ : Sys = elim s.kernel.current_task [
      | none ↦ s
      | some t ↦ s ▷ set_state t blocked ▷ Scheduler.add_to_delayed_list t wait ▷ yield
    ] in
    if time_increment == 0 then (s, prev_wake_time) else (
      if ltb elapsed 2147483648 && ltb elapsed time_increment then s₁ else s,
      add32 prev_wake_time time_increment,
    )

-- `rtos_start_scheduler`, up to the start of the first task, which does not return; the status is
-- that of an early return.
start_with : Option ℕ → Sys → Sys × Option Status
start_with none s = (set_next_task none s, some general)
start_with (some t) s =
    let s₁ = s ▷ set_next_task (some t) ▷ set_current_task (some t) in
    let s₂ = s₁ ▷ set_state t running ▷ Scheduler.remove_from_ready_list t in
    if is_ready (s.pool.state t)
    then (record s₂ { kernel = record s₂.kernel { state = kernel_running } }, none)
    else (s₁, some invalid_state)

is_kernel_ready : KernelState → Bool
is_kernel_ready kernel_ready = true
is_kernel_ready _ = false

unfoldable pub start_scheduler : Sys → Sys × Option Status
unfolding start_with is_kernel_ready is_ready
start_scheduler s =
    let (s₁, next) = Scheduler.get_next_task s in
    if is_kernel_ready s.kernel.state then start_with next s₁ else (s, some invalid_state)

-- `rtos_kernel_tick_handler`. `timer_tick` is `rtos_timer_tick`, with the callbacks that it runs.
tick_scheduler : Sys → Sys
tick_scheduler s =
    let s₁ = Scheduler.update_delayed_tasks s in
    let (s₂, next) = Scheduler.get_next_task s₁ in
    let (s₃, preempt) = Scheduler.should_preempt next s₂ in yield_if preempt s₃

unfoldable pub tick_handler : (Sys → Sys) → Sys → Sys
unfolding tick_scheduler is_running
tick_handler timer_tick s =
    let s₁ = s ▷ set_tick_count (add32 s.kernel.tick_count 1) ▷ timer_tick in
    if is_running s₁.kernel.state && s₁.scheduler.initialized then tick_scheduler s₁ else s₁

-- `rtos_task_get_idle_task` (src/task/task.c): the first created task of the idle priority, remembered
-- once it is found.
find_idle : ℕ → ℕ → Sys → Option ℕ
find_idle zero i s = none
find_idle (suc f) i s =
    let rest = find_idle f (i + 1) s in
    if not (is_null (s.pool.task_function i)) && s.pool.priority i == idle_task_priority
    then some i
    else rest

keep_idle : Option ℕ → Sys → Sys × Option ℕ
keep_idle none s = (s, none)
keep_idle (some t) s = (record s { idle_task_cache = some t }, some t)

unfoldable pub get_idle_task : Sys → Sys × Option ℕ
unfolding find_idle keep_idle
get_idle_task s = elim s.idle_task_cache [
  | none ↦ keep_idle (find_idle max_tasks 0 s) s
  | some t ↦ (s, some t)
]

-- The first half of `rtos_kernel_switch_context`: the task that ran goes back to the ready list.
pub put_back : Option ℕ → Sys → Sys
put_back none s = s
put_back (some t) s =
    let s₁ =
      if is_running_task (s.pool.state t)
      then (s ▷ set_state t ready ▷ Scheduler.add_to_ready_list t)
      else s in
    Scheduler.task_completed t s₁

run_idle : Sys × Option ℕ → Sys
run_idle (s, none) = set_current_task none s
run_idle (s, some t) =
    s ▷ set_current_task (some t) ▷ Scheduler.remove_from_ready_list t ▷ set_state t running

-- The second half: the next task, or the idle task when there is none. With no idle task either the
-- source waits for interrupts for ever, and the state stays as it is.
pub run_next : Option ℕ → Sys → Sys
run_next (some t) s =
    s
    ▷ set_next_task (some t)
    ▷ Scheduler.remove_from_ready_list t
    ▷ set_ready_timestamp t 0
    ▷ set_state t running
    ▷ set_current_task (some t)
run_next none s = run_idle (get_idle_task (set_next_task none s))

-- `rtos_kernel_switch_context`
unfoldable pub switch_context : Sys → Sys
unfolding put_back run_next run_idle is_running_task
switch_context s =
    let (s₁, next) = Scheduler.get_next_task (put_back s.kernel.current_task s) in
    if ltb 0 s.kernel.scheduler_suspended then s else run_next next s₁
