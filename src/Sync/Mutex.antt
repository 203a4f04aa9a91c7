-- ===== src/Sync/Mutex.antt =====
-- Mutexes, src/sync/mutex/mutex.c: recursive, with priority inheritance along the chain of owners, and
-- a list of the held mutexes for each task.
--
-- A call that blocks ends where the task yields, with no status; `lock_resume` is the rest of it. The
-- number of mutexes has no bound, so the loops over the held mutexes of a task take fuel as an
-- argument.
pub mod Inheritance
pub mod Ownership
use vrtos.Base.{
  ℕ, zero, suc, ◌+◌, ◌-◌, Bool, true, false, not, Option, none, some, ltb, ◌==◌, ◌==?◌,
  if◌then◌else◌, ◌▷◌, update,
}
use vrtos.State.{
  Sys, Status, success, invalid_param, timeout, general, Object, mutex, TaskState, ready, blocked,
  SyncType, sync_mutex,
}
use vrtos.State.Setters.{set_priority, set_held_mutex_list}
use vrtos.Scheduler
use vrtos.Kernel
use vrtos.Sync.WaitList
use vrtos.Sync.WaitList.{start_wait}
use vrtos.Sync.Blocking.{block_current, is_blocked_on}

abbrev pub set_owner : ℕ → Option ℕ → Sys → Sys
set_owner m v s = record s { mutexes = record s.mutexes { owner = update s.mutexes.owner m v } }

abbrev pub set_lock_count : ℕ → ℕ → Sys → Sys
set_lock_count m v s = record s {
  mutexes = record s.mutexes { lock_count = update s.mutexes.lock_count m v };
}

abbrev pub set_next_held : ℕ → Option ℕ → Sys → Sys
set_next_held m v s = record s {
  mutexes = record s.mutexes { next_held = update s.mutexes.next_held m v };
}

abbrev pub set_waiting_list : ℕ → Option ℕ → Sys → Sys
set_waiting_list m v s = record s {
  mutexes = record s.mutexes { waiting_list = update s.mutexes.waiting_list m v };
}

-- `mutex_add_to_waiting_list`
unfoldable pub add_to_waiting_list : ℕ → ℕ → Sys → Sys
add_to_waiting_list m t s =
    let (s₁, head) =
      WaitList.insert (s.mutexes.waiting_list m) t (start_wait (mutex m) sync_mutex t s) in
    set_waiting_list m head s₁

-- `mutex_remove_from_waiting_list`, which is also `rtos_mutex_remove_task_from_wait`
unfoldable pub remove_from_waiting_list : ℕ → ℕ → Sys → Sys
remove_from_waiting_list m t s =
    let (s₁, head) = WaitList.remove (s.mutexes.waiting_list m) t s in set_waiting_list m head s₁

-- `mutex_pop_highest_priority_waiter`
unfoldable pub pop_waiter : ℕ → Sys → Sys × Option ℕ
pop_waiter m s =
    let (s₁, head, waiter) = WaitList.pop (s.mutexes.waiting_list m) s in
    (set_waiting_list m head s₁, waiter)

is_ready : TaskState → Bool
is_ready ready = true
is_ready _ = false

-- One owner of the chain gets the priority `boost`, and moves to its ready list when it is ready.
raise : ℕ → ℕ → Sys → Sys
raise t boost s =
    if is_ready (s.pool.state t)
    then (s
        ▷ Scheduler.remove_from_ready_list t
        ▷ set_priority t boost
        ▷ Scheduler.add_to_ready_list t)
    else set_priority t boost s

-- The owner of the mutex that a task is blocked on, if it is.
unfoldable pub owner_above : TaskState → SyncType → Option Object → (ℕ → Option ℕ) → Option ℕ
owner_above blocked sync_mutex (some (mutex m)) owner = owner m
owner_above _ _ _ owner = none

abbrev pub chained : Sys → ℕ → Option ℕ
chained s t =
    owner_above (s.pool.state t) (s.pool.blocked_on_type t) (s.pool.blocked_on t) s.mutexes.owner

inherit : ℕ → Option ℕ → ℕ → Sys → Sys
inherit zero target boost s = s
inherit (suc f) none boost s = s
inherit (suc f) (some t) boost s =
    let p = s.pool.priority t in
    let s₁ = if ltb p boost then raise t boost s else s in
    inherit f (chained s₁ t) (if ltb boost p then p else boost) s₁

-- `mutex_apply_priority_inheritance`: at most 16 owners.
unfoldable pub apply_priority_inheritance : ℕ → ℕ → Sys → Sys
unfolding inherit raise is_ready owner_above
apply_priority_inheritance m waiter s = inherit 16 (s.mutexes.owner m) (s.pool.priority waiter) s

-- `while (cur != NULL && cur->next_held != m) { cur = cur->next_held; }`
find_held : ℕ → (ℕ → Option ℕ) → ℕ → Option ℕ → Option ℕ
find_held zero next_held m cur = cur
find_held (suc f) next_held m none = none
find_held (suc f) next_held m (some c) =
    let rest = find_held f next_held m (next_held c) in if next_held c ==? m then some c else rest

unlink_held : Option ℕ → Option ℕ → Sys → Sys
unlink_held none after s = s
unlink_held (some c) after s = set_next_held c after s

-- `mutex_remove_from_held_list`
unfoldable pub remove_from_held_list : ℕ → ℕ → ℕ → Sys → Sys
unfolding find_held unlink_held
remove_from_held_list fuel t m s =
    let after = s.mutexes.next_held m in
    let s₁ =
      if s.pool.held_mutex_list t ==? m
      then set_held_mutex_list t after s
      else unlink_held (find_held fuel s.mutexes.next_held m (s.pool.held_mutex_list t)) after s in
    set_next_held m none s₁

-- The highest of `prio` and the priority of the first waiter.
with_waiter : (ℕ → ℕ) → Option ℕ → ℕ → ℕ
with_waiter priority none prio = prio
with_waiter priority (some w) prio = if ltb prio (priority w) then priority w else prio

highest : ℕ → Option ℕ → ℕ → Sys → ℕ
highest zero held prio s = prio
highest (suc f) none prio s = prio
highest (suc f) (some m) prio s =
    highest f (s.mutexes.next_held m) (with_waiter s.pool.priority (s.mutexes.waiting_list m) prio)
      s

-- `mutex_restore_priority`
unfoldable pub restore_priority : ℕ → ℕ → Sys → Sys
unfolding highest with_waiter
restore_priority fuel t s =
    set_priority t (highest fuel (s.pool.held_mutex_list t) (s.pool.base_priority t) s) s

-- `rtos_mutex_init`
unfoldable pub init : ℕ → Sys → Sys × Status
init m s = (
  s ▷ set_owner m none ▷ set_waiting_list m none ▷ set_next_held m none ▷ set_lock_count m 0,
  success,
)

-- A mutex becomes the first of those that a task holds.
take : ℕ → ℕ → Sys → Sys
take m t s =
    s
    ▷ set_owner m (some t)
    ▷ set_lock_count m 1
    ▷ set_next_held m (s.pool.held_mutex_list t)
    ▷ set_held_mutex_list t (some m)

lock_again : ℕ → Sys → Sys × Option Status
lock_again m s =
    if ltb (s.mutexes.lock_count m) 255
    then (set_lock_count m (s.mutexes.lock_count m + 1) s, some success)
    else (s, some general)

-- The slow path: inheritance, the waiting list, and blocking.
lock_blocked : ℕ → ℕ → ℕ → Sys → Sys × Option Status
lock_blocked m timeout_ticks t s = if timeout_ticks == 0 then (s, some timeout) else (
  s ▷ apply_priority_inheritance m t ▷ add_to_waiting_list m t ▷ block_current t timeout_ticks,
  none,
)

lock_by : ℕ → ℕ → Option ℕ → Option ℕ → Sys → Sys × Option Status
lock_by m timeout_ticks none owner s = (s, some invalid_param)
lock_by m timeout_ticks (some t) none s = (take m t s, some success)
lock_by m timeout_ticks (some t) (some o) s =
    if o == t then lock_again m s else lock_blocked m timeout_ticks t s

-- `rtos_mutex_lock`, up to the point where the task blocks
unfoldable pub lock : ℕ → ℕ → Sys → Sys × Option Status
unfolding lock_by lock_again lock_blocked take
lock m timeout_ticks s = lock_by m timeout_ticks s.kernel.current_task (s.mutexes.owner m) s

-- `rtos_mutex_lock` of the task `t`, from the point where it runs again
unfoldable pub lock_resume : ℕ → ℕ → Sys → Sys × Status
lock_resume m t s =
    if is_blocked_on (s.pool.blocked_on t) (mutex m)
    then (remove_from_waiting_list m t s, timeout)
    else (s, success)

hand_over : ℕ → Sys × Option ℕ → Sys
hand_over m (s, none) = s ▷ set_owner m none ▷ set_lock_count m 0
hand_over m (s, some waiter) = s ▷ take m waiter ▷ Kernel.task_unblock waiter

-- The last unlock of the task that owns the mutex.
release : ℕ → ℕ → ℕ → Sys → Sys
release fuel m t s =
    let s₁ = s ▷ remove_from_held_list fuel t m ▷ restore_priority fuel t in
    let s₂ =
      if is_ready (s₁.pool.state t)
      then (s₁ ▷ Scheduler.remove_from_ready_list t ▷ Scheduler.add_to_ready_list t)
      else s₁ in
    hand_over m (pop_waiter m s₂)

-- With no current task and no owner the source reads through NULL: no status.
unlock_by : ℕ → ℕ → Option ℕ → Option ℕ → Sys → Sys × Option Status
unlock_by fuel m none none s = (s, none)
unlock_by fuel m none (some o) s = (s, some invalid_param)
unlock_by fuel m (some t) none s = (s, some invalid_param)
unlock_by fuel m (some t) (some o) s =
    let count = s.mutexes.lock_count m in
    if not (o == t)
    then (s, some invalid_param)
    else (if ltb 1 count
        then (set_lock_count m (count - 1) s, some success)
        else (release fuel m t s, some success))

-- `rtos_mutex_unlock`
unfoldable pub unlock : ℕ → ℕ → Sys → Sys × Option Status
unfolding unlock_by release hand_over take is_ready
unlock fuel m s = unlock_by fuel m s.kernel.current_task (s.mutexes.owner m) s
