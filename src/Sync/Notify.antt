-- ===== src/Sync/Notify.antt =====
-- Task notifications, src/task/task_notify.c: a value and a flag of each task, which another task
-- changes and the task itself waits for. A call that blocks ends where the task yields, with no
-- status; the `…_resume` functions are the rest of it. A waiting task is blocked on itself.
pub mod Delivery
use vrtos.Base.{
  ℕ, Bool, true, false, Option, none, some, ◌==◌, if◌then◌else◌, ltb, ◌▷◌, ◌&&◌, update, bit_or,
  add32, sub32, without,
}
use vrtos.State.{
  Sys, Status, success, invalid_param, timeout, SyncType, sync_none, sync_notification, task,
}
use vrtos.State.Setters.{
  set_blocked_on, set_blocked_on_type, set_notification_value, set_notification_pending,
}
use vrtos.Kernel
use vrtos.Kernel.{is_blocked}
use vrtos.Sync.Blocking.{block_current, is_blocked_on}

-- `rtos_notify_action_t`, and any other value of it.
pub data NotifyAction : Type 0 where
  action_none action_set_bits action_increment action_overwrite action_other : NotifyAction

-- What the action makes of the value; nothing if it is not known.
unfoldable pub apply_action : NotifyAction → ℕ → ℕ → Option ℕ
apply_action action_none value old = some old
apply_action action_set_bits value old = some (bit_or old value)
apply_action action_increment value old = some (add32 old 1)
apply_action action_overwrite value old = some value
apply_action action_other value old = none

is_notification : SyncType → Bool
is_notification sync_notification = true
is_notification _ = false

abbrev pub clear_blocked : ℕ → Sys → Sys
clear_blocked t s = s ▷ set_blocked_on t none ▷ set_blocked_on_type t sync_none

-- The rest of `rtos_task_notify` after the value is known.
deliver : ℕ → Option ℕ → Sys → Sys × Status
deliver t none s = (s, invalid_param)
deliver t (some v) s =
    let s₁ = s ▷ set_notification_value t v ▷ set_notification_pending t 1 in
    let woken = s₁ ▷ clear_blocked t ▷ Kernel.task_unblock t in
    if is_blocked (s.pool.state t) && is_notification (s.pool.blocked_on_type t)
    then (woken, success)
    else (s₁, success)

-- `rtos_task_notify`
unfoldable pub notify : ℕ → ℕ → NotifyAction → Sys → Sys × Status
unfolding deliver is_notification
notify t value action s = deliver t (apply_action action value (s.pool.notification_value t)) s

-- `rtos_task_notify_give`
unfoldable pub notify_give : ℕ → Sys → Sys × Status
notify_give t s = notify t 0 action_increment s

-- The task blocks on itself.
unfoldable pub block_on_self : ℕ → ℕ → Sys → Sys
block_on_self t timeout_ticks s =
    s
    ▷ set_blocked_on t (some (task t))
    ▷ set_blocked_on_type t sync_notification
    ▷ block_current t timeout_ticks

-- The value is handed over: the status, the value, and the bits that are cleared after that.
unfoldable pub collect : ℕ → ℕ → Sys → Sys × Status × Option ℕ
collect t exit_clear_bits s =
    let v = s.pool.notification_value t in
    (
      s ▷ set_notification_value t (without v exit_clear_bits) ▷ set_notification_pending t 0,
      success,
      some v,
    )

to_wait : Sys × Status × Option ℕ → Sys × Option Status × Option ℕ
to_wait (s, status, value) = (s, some status, value)

wait_as : Option ℕ → ℕ → ℕ → ℕ → Sys → Sys × Option Status × Option ℕ
wait_as none entry_clear_bits exit_clear_bits timeout_ticks s = (s, some invalid_param, none)
wait_as (some t) entry_clear_bits exit_clear_bits timeout_ticks s =
    let s₁ = set_notification_value t (without (s.pool.notification_value t) entry_clear_bits) s in
    if ltb 0 (s₁.pool.notification_pending t)
    then to_wait (collect t exit_clear_bits s₁)
    else (if timeout_ticks == 0
        then (s₁, some timeout, none)
        else (block_on_self t timeout_ticks s₁, none, none))

-- `rtos_task_notify_wait`, up to the point where the task blocks
unfoldable pub notify_wait : ℕ → ℕ → ℕ → Sys → Sys × Option Status × Option ℕ
unfolding wait_as to_wait
notify_wait entry_clear_bits exit_clear_bits timeout_ticks s =
    wait_as s.kernel.current_task entry_clear_bits exit_clear_bits timeout_ticks s

-- `rtos_task_notify_wait` of the task `t`, from the point where it runs again
unfoldable pub notify_wait_resume : ℕ → ℕ → Sys → Sys × Status × Option ℕ
notify_wait_resume t exit_clear_bits s =
    if is_blocked_on (s.pool.blocked_on t) (task t)
    then (clear_blocked t s, timeout, none)
    else collect t exit_clear_bits s

-- The value is counted down, or cleared.
unfoldable pub consume : ℕ → Bool → Sys → Sys
consume t clear_on_exit s =
    let v = if clear_on_exit then 0 else sub32 (s.pool.notification_value t) 1 in
    s ▷ set_notification_value t v ▷ set_notification_pending t 0

take_as : Option ℕ → Bool → ℕ → Sys → Sys × Option Status
take_as none clear_on_exit timeout_ticks s = (s, some invalid_param)
take_as (some t) clear_on_exit timeout_ticks s =
    if ltb 0 (s.pool.notification_value t)
    then (consume t clear_on_exit s, some success)
    else (if timeout_ticks == 0 then (s, some timeout) else (block_on_self t timeout_ticks s, none))

-- `rtos_task_notify_take`, up to the point where the task blocks
unfoldable pub notify_take : Bool → ℕ → Sys → Sys × Option Status
unfolding take_as
notify_take clear_on_exit timeout_ticks s =
    take_as s.kernel.current_task clear_on_exit timeout_ticks s

-- `rtos_task_notify_take` of the task `t`, from the point where it runs again
unfoldable pub notify_take_resume : ℕ → Bool → Sys → Sys × Status
notify_take_resume t clear_on_exit s =
    if is_blocked_on (s.pool.blocked_on t) (task t)
    then (clear_blocked t s, timeout)
    else (consume t clear_on_exit s, success)
