-- ===== src/Sync/Notify/Delivery.antt =====
-- What a notification brings to the task that waits for it.
use vrtos.Base.{
  ℕ, ◌<◌, ◌^◌, ◌-◌, ◌≡◌, refl, ◌∙◌, ap, true, false, none, some, arith, ◌==◌, if◌then◌else◌, ltb,
  update_self, without, add32, sub32,
}
use vrtos.State.{Sys, success, timeout, blocked, sync_notification}
use vrtos.State.Setters.{set_notification_value, set_notification_pending}
use vrtos.Kernel
use vrtos.Kernel.{is_blocked}
use vrtos.Scheduler.Frame.{view}
use vrtos.Kernel.Frame.{view-task_unblock}
use vrtos.Sync.Blocking.{is_blocked_on}
use vrtos.Sync.Notify.{
  NotifyAction, apply_action, clear_blocked, notify, deliver, is_notification, take_as,
  block_on_self, notify_give, notify_wait_resume, collect, consume, notify_take,
}

collected :
    (t exit_clear_bits v : ℕ) (s : Sys)
    → s.pool.blocked_on t ≡ none
    → s.pool.notification_value t ≡ v
    → let (s₂, status, received) = notify_wait_resume t exit_clear_bits s in
      (status ≡ success)
      × (received ≡ some v)
      × (s₂.pool.notification_value t ≡ without v exit_clear_bits)
      × (s₂.pool.notification_pending t ≡ 0)
      × (s₂.pool.blocked_on t ≡ none)
unfolding notify_wait_resume collect is_blocked_on
collected t exit_clear_bits v s free e = rw free (
  refl,
  ap some e,
  update_self s.pool.notification_value t _ ∙ ap (λ x. without x exit_clear_bits) e,
  update_self s.pool.notification_pending t 0,
  free,
)

-- A known action on a task that is blocked in a wait for a notification succeeds; when that task
-- runs again its wait succeeds, hands over the value that the action makes of the old one, clears the
-- exit bits from it, and leaves no notification pending.
pub notify_wait_resume-notify :
    (t value exit_clear_bits v : ℕ) (action : NotifyAction) (s : Sys)
    → s.pool.state t ≡ blocked
    → s.pool.blocked_on_type t ≡ sync_notification
    → apply_action action value (s.pool.notification_value t) ≡ some v
    → let (s₁, sent) = notify t value action s in
      let (s₂, status, received) = notify_wait_resume t exit_clear_bits s₁ in
      (sent ≡ success)
      × (status ≡ success)
      × (received ≡ some v)
      × (s₂.pool.notification_value t ≡ without v exit_clear_bits)
      × (s₂.pool.notification_pending t ≡ 0)
      × (s₂.pool.blocked_on t ≡ none)
unfolding notify deliver is_notification is_blocked
notify_wait_resume-notify t value exit_clear_bits v action s state type known =
    rw sent (refl, resumed.0, resumed.1, resumed.2, resumed.3, resumed.4)
  where
    s₁ : Sys
    s₁ = clear_blocked t (set_notification_pending t 1 (set_notification_value t v s))

    sent : notify t value action s ≡ (Kernel.task_unblock t s₁, success)
    sent = ap (λ a. deliver t a s) known ∙ rw (state, type) refl

    same : view (Kernel.task_unblock t s₁) ≡ view s₁
    same = view-task_unblock t s₁

    resumed :
        let (s₂, status, received) =
          notify_wait_resume t exit_clear_bits (Kernel.task_unblock t s₁) in
        (status ≡ success)
        × (received ≡ some v)
        × (s₂.pool.notification_value t ≡ without v exit_clear_bits)
        × (s₂.pool.notification_pending t ≡ 0)
        × (s₂.pool.blocked_on t ≡ none)
    resumed =
        collected t exit_clear_bits v (Kernel.task_unblock t s₁)
          (ap (λ w. w.blocked_on t) same ∙ update_self s.pool.blocked_on t none)
          (ap (λ w. w.notification_value t) same ∙ update_self s.pool.notification_value t v)

-- The current task counts a notification down that it has given itself: with a value below
-- 2^32 - 1 both calls succeed, the value is as it was, and no notification is pending.
pub notify_take-notify_give :
    (t timeout_ticks : ℕ) (s : Sys)
    → s.kernel.current_task ≡ some t
    → is_blocked (s.pool.state t) ≡ false
    → s.pool.notification_value t < 2 ^ 32 - 1
    → let (s₁, given) = notify_give t s in
      let (s₂, taken) = notify_take false timeout_ticks s₁ in
      (given ≡ success)
      × (taken ≡ some success)
      × (s₂.pool.notification_value t ≡ s.pool.notification_value t)
      × (s₂.pool.notification_pending t ≡ 0)
unfolding notify_give notify deliver apply_action notify_take take_as consume
notify_take-notify_give t timeout_ticks s current awake small =
    rw (given, taken)
      (
        refl,
        refl,
        update_self s₁.pool.notification_value t _ ∙ ap (λ v. sub32 v 1) value ∙ round_trip,
        update_self s₁.pool.notification_pending t 0,
      )
  where
    old : ℕ
    old = s.pool.notification_value t

    s₁ : Sys
    s₁ = set_notification_pending t 1 (set_notification_value t (add32 old 1) s)

    value : s₁.pool.notification_value t ≡ add32 old 1
    value = update_self s.pool.notification_value t (add32 old 1)

    given : notify_give t s ≡ (s₁, success)
    given = rw awake refl

    positive : ltb 0 (s₁.pool.notification_value t) ≡ true
    positive = ap (ltb 0) value ∙ ground arith

    taken : notify_take false timeout_ticks s₁ ≡ (consume t false s₁, some success)
    taken =
        ap (λ c. take_as c false timeout_ticks s₁) current
        ∙ ap
            (λ b.
              if b
              then (consume t false s₁, some success)
              else (if timeout_ticks == 0
                  then (s₁, some timeout)
                  else (block_on_self t timeout_ticks s₁, none)))
            positive

    round_trip : sub32 (add32 old 1) 1 ≡ old
    round_trip = ground arith
