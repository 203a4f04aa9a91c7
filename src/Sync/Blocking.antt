-- ===== src/Sync/Blocking.antt =====
-- How the current task blocks on an object, the same in every blocking call. The source leaves its critical
-- section before `rtos_kernel_task_block`; here the call goes on to its end as one step.
use vrtos.Base.{ℕ, Bool, false, ◌==◌, ◌≡◌, if◌then◌else◌, Option, some, ◌▷◌}
use vrtos.State.{Sys, Object, task, mutex, semaphore, queue, event_group, blocked, max_delay}
use vrtos.State.Setters.{set_state}
use vrtos.Scheduler
use vrtos.Kernel
use vrtos.Scheduler.Frame.{view, view_if, view-remove_from_ready_list}
use vrtos.Kernel.Frame.{view-task_block}

-- For ever, without a place in the delayed list, or with a time limit.
unfoldable pub block_current : ℕ → ℕ → Sys → Sys
block_current t timeout_ticks s =
    if timeout_ticks == max_delay
    then (s ▷ set_state t blocked ▷ Scheduler.remove_from_ready_list t ▷ Kernel.yield)
    else Kernel.task_block t timeout_ticks s

-- `task->blocked_on == object`
unfoldable pub is_blocked_on : Option Object → Object → Bool
is_blocked_on (some (task a)) (task b) = a == b
is_blocked_on (some (mutex a)) (mutex b) = a == b
is_blocked_on (some (semaphore a)) (semaphore b) = a == b
is_blocked_on (some (queue a)) (queue b) = a == b
is_blocked_on (some (event_group a)) (event_group b) = a == b
is_blocked_on _ _ = false

pub view-block_current :
    (t timeout_ticks : ℕ) (s : Sys) → view (block_current t timeout_ticks s) ≡ view s
unfolding block_current
view-block_current t timeout_ticks s =
    view_if (timeout_ticks == max_delay) _ (Kernel.task_block t timeout_ticks s) (view s)
      (view-remove_from_ready_list t (set_state t blocked s)) (view-task_block t timeout_ticks s)
