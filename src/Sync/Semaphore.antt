-- ===== src/Sync/Semaphore.antt =====
-- Counting semaphores, src/sync/semaphore/semaphore.c. A call that blocks ends where the task yields,
-- with no status; `wait_resume` is the rest of it, when the task runs again.
pub mod Laws
pub mod Count
pub mod Forever
use vrtos.Base.{
  ℕ, ◌+◌, ◌-◌, Bool, not, ◌&&◌, Option, none, some, ltb, leb, ◌==◌, if◌then◌else◌, is_null, ◌▷◌,
  update, add32,
}
use vrtos.State.{Sys, Status, success, invalid_param, timeout, general, semaphore, sync_semaphore}
use vrtos.Kernel
use vrtos.Sync.WaitList
use vrtos.Sync.WaitList.{start_wait}
use vrtos.Sync.Blocking.{block_current, is_blocked_on}

abbrev set_count : ℕ → ℕ → Sys → Sys
set_count m v s = record s {
  semaphores = record s.semaphores { count = update s.semaphores.count m v };
}

abbrev set_waiting_list : ℕ → Option ℕ → Sys → Sys
set_waiting_list m v s = record s {
  semaphores = record s.semaphores { waiting_list = update s.semaphores.waiting_list m v };
}

-- `sem_add_to_waiting_list`
unfoldable pub add_to_waiting_list : ℕ → ℕ → Sys → Sys
add_to_waiting_list m t s =
    let (s₁, head) =
      WaitList.insert (s.semaphores.waiting_list m) t
        (start_wait (semaphore m) sync_semaphore t s) in
    set_waiting_list m head s₁

-- `sem_remove_from_waiting_list`, which is also `rtos_sem_remove_task_from_wait`
unfoldable pub remove_from_waiting_list : ℕ → ℕ → Sys → Sys
remove_from_waiting_list m t s =
    let (s₁, head) = WaitList.remove (s.semaphores.waiting_list m) t s in set_waiting_list m head s₁

-- `sem_pop_highest_priority_waiter`
unfoldable pub pop_waiter : ℕ → Sys → Sys × Option ℕ
pop_waiter m s =
    let (s₁, head, waiter) = WaitList.pop (s.semaphores.waiting_list m) s in
    (set_waiting_list m head s₁, waiter)

-- `rtos_semaphore_init`
unfoldable pub init : ℕ → ℕ → ℕ → Sys → Sys × Status
init m initial_count max_count s =
    if not (max_count == 0) && ltb max_count initial_count then (s, invalid_param) else (
      record s {
        semaphores = record {
          count = update s.semaphores.count m initial_count;
          max_count = update s.semaphores.max_count m max_count;
          waiting_list = update s.semaphores.waiting_list m none;
        };
      },
      success,
    )

-- The slow path of `rtos_semaphore_wait`, when the count is 0 and the call may block.
wait_blocked : ℕ → ℕ → Option ℕ → Sys → Sys × Option Status
wait_blocked m timeout_ticks none s = (s, some invalid_param)
wait_blocked m timeout_ticks (some t) s =
    (s ▷ add_to_waiting_list m t ▷ block_current t timeout_ticks, none)

-- `rtos_semaphore_wait`, up to the point where the task blocks
unfoldable pub wait : ℕ → ℕ → Sys → Sys × Option Status
unfolding wait_blocked
wait m timeout_ticks s =
    if ltb 0 (s.semaphores.count m)
    then (set_count m (s.semaphores.count m - 1) s, some success)
    else (if timeout_ticks == 0
        then (s, some timeout)
        else wait_blocked m timeout_ticks s.kernel.current_task s)

-- `rtos_semaphore_wait` of the task `t`, from the point where it runs again
unfoldable pub wait_resume : ℕ → ℕ → Sys → Sys × Status
wait_resume m t s =
    if is_blocked_on (s.pool.blocked_on t) (semaphore m)
    then (remove_from_waiting_list m t s, timeout)
    else (s, success)

signal_to : ℕ → Sys × Option ℕ → Sys × Status
signal_to m (s, some waiter) = (Kernel.task_unblock waiter s, success)
signal_to m (s, none) =
    if not (s.semaphores.max_count m == 0) && leb (s.semaphores.max_count m) (s.semaphores.count m)
    then (s, general)
    else (set_count m (add32 (s.semaphores.count m) 1) s, success)

-- `rtos_semaphore_signal`
unfoldable pub signal : ℕ → Sys → Sys × Status
unfolding signal_to pop_waiter
signal m s = signal_to m (pop_waiter m s)

-- `rtos_semaphore_try_wait`
unfoldable pub try_wait : ℕ → Sys → Sys × Option Status
try_wait m s = wait m 0 s
