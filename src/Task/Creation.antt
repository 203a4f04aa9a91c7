-- ===== src/Task/Creation.antt =====
-- The task pool, the creation of tasks, and `rtos_init` of src/core/kernel.c.
pub mod Created
pub mod Start
pub mod Filled
pub mod Waiting
use vrtos.Base.{
  ℕ, zero, suc, ◌+◌, ◌*◌, ◌/◌, ◌%◌, Bool, true, false, Option, none, some, ltb, leb, ◌==◌, ◌||◌,
  if◌then◌else◌, is_null, ◌▷◌, update,
}
use vrtos.State.{
  Sys, Pool, Status, success, invalid_param, no_memory, invalid_state, ready, sync_none,
  KernelState, kernel_inactive, kernel_ready, SchedulerType, max_tasks, max_task_priorities,
  default_task_stack_size, minimum_task_stack_size, time_slice_ticks, idle_task_priority,
}
use vrtos.Memory
use vrtos.Scheduler
use vrtos.Task.Stack.{write_word, stack_canary_value, init_task_stack, allocate_stack}

-- `memset(g_task_pool, 0, sizeof(g_task_pool))`; state 0 is READY.
abbrev pub empty_pool : Pool
empty_pool = record {
  task_function = λ _. none;
  name = λ _. none;
  state = λ _. ready;
  priority = λ _. 0;
  base_priority = λ _. 0;
  delay_until = λ _. 0;
  next = λ _. none;
  prev = λ _. none;
  next_waiting = λ _. none;
  blocked_on = λ _. none;
  blocked_on_type = λ _. sync_none;
  held_mutex_list = λ _. none;
  notification_value = λ _. 0;
  notification_pending = λ _. 0;
  event_wait_bits = λ _. 0;
  event_wait_all = λ _. false;
  event_clear_on_exit = λ _. false;
  ready_timestamp = λ _. 0;
  task_id = λ _. 0;
  parameter = λ _. 0;
  stack_pointer = λ _. 0;
  stack_base = λ _. none;
  stack_top = λ _. 0;
  stack_size = λ _. 0;
  time_slice_remaining = λ _. 0;
}

-- `rtos_task_init_system`
unfoldable pub init_system : Sys → Sys × Status
init_system s = (record s { pool = empty_pool; task_count = 0 }, success)

find_free : ℕ → ℕ → (ℕ → Option ℕ) → Option ℕ
find_free zero i task_function = none
find_free (suc f) i task_function =
    let rest = find_free f (i + 1) task_function in
    if is_null (task_function i) then some i else rest

-- `rtos_task_allocate_tcb`
unfoldable pub allocate_tcb : Sys → Option ℕ
unfolding find_free
allocate_tcb s = find_free max_tasks 0 s.pool.task_function

-- The size that is asked for, brought to the bounds and to a multiple of 8, in 16 bits.
unfoldable pub effective_stack_size : ℕ → ℕ
effective_stack_size stack_size =
    let chosen = if stack_size == 0 then default_task_stack_size else stack_size in
    let least = if ltb chosen minimum_task_stack_size then minimum_task_stack_size else chosen in
    (least + 7) / 8 * 8 % 65536

-- The fields of a new task, its canary and its first stack frame.
unfoldable pub fill_task : ℕ → ℕ → Option ℕ → ℕ → ℕ → ℕ → ℕ → Sys → Sys
fill_task t task_function name stack_size parameter priority top s =
    let bytes = write_word top stack_canary_value s.bytes in
    let (framed, stack_pointer) = init_task_stack top task_function parameter bytes in
    record s {
      bytes = framed;
      pool = record s.pool {
        task_id = update s.pool.task_id t (t % 256);
        name = update s.pool.name t name;
        task_function = update s.pool.task_function t (some task_function);
        parameter = update s.pool.parameter t parameter;
        state = update s.pool.state t ready;
        priority = update s.pool.priority t priority;
        base_priority = update s.pool.base_priority t priority;
        stack_base = update s.pool.stack_base t (some top);
        stack_size = update s.pool.stack_size t stack_size;
        stack_top = update s.pool.stack_top t top;
        delay_until = update s.pool.delay_until t 0;
        time_slice_remaining = update s.pool.time_slice_remaining t time_slice_ticks;
        next = update s.pool.next t none;
        prev = update s.pool.prev t none;
        next_waiting = update s.pool.next_waiting t none;
        blocked_on = update s.pool.blocked_on t none;
        blocked_on_type = update s.pool.blocked_on_type t sync_none;
        held_mutex_list = update s.pool.held_mutex_list t none;
        stack_pointer = update s.pool.stack_pointer t stack_pointer;
      };
    }

with_stack : ℕ → ℕ → Option ℕ → ℕ → ℕ → ℕ → Sys × Option ℕ → Sys × Status × Option ℕ
with_stack t task_function name stack_size parameter priority (s, none) = (
  record s { pool = record s.pool { task_function = update s.pool.task_function t none } },
  no_memory,
  none,
)
with_stack t task_function name stack_size parameter priority (s, some top) =
    let s₁ =
      s
      ▷ fill_task t task_function name stack_size parameter priority top
      ▷ Scheduler.add_to_ready_list t in
    (record s₁ { task_count = (s₁.task_count + 1) % 256 }, success, some t)

create_in : Option ℕ → ℕ → Option ℕ → ℕ → ℕ → ℕ → Sys → Sys × Status × Option ℕ
create_in none task_function name stack_size parameter priority s = (s, no_memory, none)
create_in (some t) task_function name stack_size parameter priority s =
    with_stack t task_function name stack_size parameter priority (allocate_stack stack_size s)

checked : Option ℕ → Option ℕ → ℕ → ℕ → ℕ → Sys → Sys × Status × Option ℕ
checked none name stack_size parameter priority s = (s, invalid_param, none)
checked (some task_function) name stack_size parameter priority s =
    let size = effective_stack_size stack_size in
    if leb max_task_priorities priority
    then (s, invalid_param, none)
    else (if leb max_tasks s.task_count
        then (s, no_memory, none)
        else create_in (allocate_tcb s) task_function name size parameter priority s)

-- `rtos_task_create`: the status, and the handle that it writes; `null` says that `task_handle` is NULL.
unfoldable pub create : Bool → Option ℕ → Option ℕ → ℕ → ℕ → ℕ → Sys → Sys × Status × Option ℕ
unfolding checked create_in with_stack fill_task
create null task_function name stack_size parameter priority s =
    if null
    then (s, invalid_param, none)
    else checked task_function name stack_size parameter priority s

is_inactive : KernelState → Bool
is_inactive kernel_inactive = true
is_inactive _ = false

-- The kernel's fields as they are before the first tick.
pub reset_kernel : Sys → Sys
reset_kernel s = record s {
  kernel = record {
    current_task = none;
    next_task = none;
    state = kernel_inactive;
    tick_count = 0;
    scheduler_suspended = 0;
  };
}

finish_start : Sys × Status × Option ℕ → Sys × Status
finish_start (s, success, idle_task) =
    (record s { kernel = record s.kernel { state = kernel_ready } }, success)
finish_start (s, status, idle_task) = (s, status)

create_idle : ℕ → Option ℕ → Sys × Status → Sys × Status
create_idle idle_function idle_name (s, success) =
    finish_start (create false (some idle_function) idle_name 0 0 idle_task_priority s)
create_idle idle_function idle_name (s, status) = (s, status)

-- `rtos_init` with the scheduler `type`, without the start of the log, of the profiling and of the
-- hardware (`klog_init`, `rtos_profiling_init`, `rtos_port_init`), which write elsewhere and succeed.
unfoldable pub init_kernel : SchedulerType → ℕ → Option ℕ → Sys → Sys × Status
unfolding is_inactive reset_kernel create_idle finish_start
init_kernel type idle_function idle_name s =
    let s₁ = (init_system (s ▷ reset_kernel ▷ Memory.init)).0 in
    if is_inactive s.kernel.state
    then create_idle idle_function idle_name (Scheduler.init type s₁)
    else (s, invalid_state)
