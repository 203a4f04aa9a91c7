-- ===== src/Task/Life.antt =====
-- Suspension, resumption and deletion of tasks.
pub mod Release
pub mod Leaving
pub mod Suspension
use vrtos.Base.{
  ℕ, zero, suc, Bool, true, false, Option, none, some, ◌==◌, ◌==?◌, if◌then◌else◌, ◌▷◌, not,
}
use vrtos.State.{
  Sys, Status, success, invalid_param, invalid_state, TaskState, ready, blocked, suspended, deleted,
  SyncType, sync_none, sync_mutex, sync_semaphore, sync_queue, sync_event_group, Object, mutex,
  semaphore, queue, event_group, idle_task_priority,
}
use vrtos.State.Setters.{
  set_state, set_next_waiting, set_blocked_on, set_blocked_on_type, set_held_mutex_list,
  set_current_task,
}
use vrtos.Scheduler
use vrtos.Kernel
use vrtos.Kernel.{is_blocked, is_ready}
use vrtos.Sync.WaitList.{clear_wait}
use vrtos.Sync.Mutex
use vrtos.Sync.Mutex.{set_owner, set_waiting_list, set_next_held, set_lock_count}
use vrtos.Sync.Semaphore
use vrtos.Sync.Queue
use vrtos.Sync.EventGroup

-- The task that a handle names: NULL is the current task.
abbrev pub named : Option ℕ → Sys → Option ℕ
named none s = s.kernel.current_task
named (some t) s = some t

is_suspended : TaskState → Bool
is_suspended suspended = true
is_suspended _ = false

unfoldable pub is_deleted : TaskState → Bool
is_deleted deleted = true
is_deleted _ = false

suspend_task : Option ℕ → Sys → Sys × Status
suspend_task none s = (s, invalid_param)
suspend_task (some t) s =
    let s₁ = if is_ready (s.pool.state t) then Scheduler.remove_from_ready_list t s else s in
    let s₂ = if is_blocked (s₁.pool.state t) then Scheduler.remove_from_delayed_list t s₁ else s₁ in
    let s₃ = set_state t suspended s₂ in
    if Kernel.validate_transition (s.pool.state t) suspended
    then (if s₃.kernel.current_task ==? t then Kernel.yield s₃ else s₃, success)
    else (s, invalid_state)

-- `rtos_task_suspend`
unfoldable pub suspend : Option ℕ → Sys → Sys × Status
unfolding suspend_task
suspend handle s = suspend_task (named handle s) s

-- `rtos_task_resume`
unfoldable pub resume : Option ℕ → Sys → Sys × Status
unfolding is_suspended
resume none s = (s, invalid_param)
resume (some t) s =
    if is_suspended (s.pool.state t) then (Kernel.task_ready t s, success) else (s, invalid_state)

-- The `switch` on the type of what a blocked task waits for. A type that does not fit the object
-- does not occur.
unfoldable pub leave_object : SyncType → Option Object → ℕ → Sys → Sys
leave_object sync_mutex (some (mutex m)) t s = Mutex.remove_from_waiting_list m t s
leave_object sync_semaphore (some (semaphore m)) t s = Semaphore.remove_from_waiting_list m t s
leave_object sync_queue (some (queue m)) t s = Queue.remove_task_from_wait m t s
leave_object sync_event_group (some (event_group e)) t s = EventGroup.remove_from_waiting_list e t s
leave_object _ _ t s = s

leave_lists : ℕ → Sys → Sys
leave_lists t s =
    let s₁ = Scheduler.remove_from_delayed_list t s in
    if is_ready (s.pool.state t)
    then Scheduler.remove_from_ready_list t s
    else (if is_blocked (s.pool.state t)
        then leave_object (s₁.pool.blocked_on_type t) (s₁.pool.blocked_on t) t s₁
        else s)

-- One mutex goes to the first of the tasks that wait for it, or is free.
unfoldable pub pass_on : ℕ → Option ℕ → Sys → Sys
pass_on m none s = s ▷ set_owner m none ▷ set_lock_count m 0
pass_on m (some waiter) s =
    s
    ▷ set_waiting_list m (s.pool.next_waiting waiter)
    ▷ clear_wait waiter
    ▷ set_owner m (some waiter)
    ▷ set_lock_count m 1
    ▷ set_next_held m (s.pool.held_mutex_list waiter)
    ▷ set_held_mutex_list waiter (some m)
    ▷ Scheduler.remove_from_delayed_list waiter
    ▷ set_state waiter ready
    ▷ Scheduler.add_to_ready_list waiter

-- The loop over the mutexes that a task holds, on fuel.
unfoldable pub release_held : ℕ → ℕ → Option ℕ → Sys → Sys
release_held zero t held s = s
release_held (suc f) t none s = s
release_held (suc f) t (some m) s =
    let s₁ = s ▷ set_held_mutex_list t (s.mutexes.next_held m) ▷ set_next_held m none in
    let s₂ = pass_on m (s₁.mutexes.waiting_list m) s₁ in
    release_held f t (s₂.pool.held_mutex_list t) s₂

end_task : ℕ → Sys → Sys
end_task t s =
    let s₁ = set_state t deleted s in
    if s₁.kernel.current_task ==? t then (s₁ ▷ set_current_task none ▷ Kernel.yield) else s₁

delete_task : ℕ → Option ℕ → Sys → Sys × Status
delete_task fuel none s = (s, invalid_param)
delete_task fuel (some t) s =
    let s₁ = s ▷ leave_lists t ▷ clear_wait t in
    let s₂ = release_held fuel t (s₁.pool.held_mutex_list t) s₁ in
    if is_deleted (s.pool.state t)
    then (s, invalid_state)
    else (if s.pool.priority t == idle_task_priority
        then (s, invalid_state)
        else (end_task t s₂, success))

-- `rtos_task_delete`; `fuel` bounds the number of mutexes that the task holds.
unfoldable pub delete : ℕ → Option ℕ → Sys → Sys × Status
unfolding delete_task leave_lists end_task is_deleted
delete fuel handle s = delete_task fuel (named handle s) s
