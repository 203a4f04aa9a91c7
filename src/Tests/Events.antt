-- ===== src/Tests/Events.antt =====
-- The theorems on event groups and on task notifications, on small systems.
use vrtos.Base.{◌≡◌, refl, arith, false, none, some, [], ◌∷◌, ◌==◌, if◌then◌else◌, bit_or, without}
use vrtos.State.{Sys, success, blocked, event_group, sync_event_group, sync_notification, task}
use vrtos.Kernel.{is_blocked}
use vrtos.Sync.WaitList.Laws.{Waiting}
use vrtos.Sync.EventGroup.{set_bits}
use vrtos.Sync.EventGroup.Wakeups.{Awakened, set_bits-Awakened}
use vrtos.Sync.Notify.{
  action_increment, apply_action, notify, notify_give, notify_take, notify_wait_resume,
}
use vrtos.Sync.Notify.Delivery.{notify_wait_resume-notify, notify_take-notify_give}
use vrtos.Tests.{blank}

-- Task 5 waits for bit 0 of event group 0, and task 3 for bit 1.
abbrev two_wait : Sys
two_wait = record blank {
  pool = record blank.pool {
    state = λ _. blocked;
    next_waiting = λ t. if t == 5 then some 3 else none;
    blocked_on = λ _. some (event_group 0);
    blocked_on_type = λ _. sync_event_group;
    event_wait_bits = λ t. if t == 5 then 1 else 2;
  };
  event_groups = record blank.event_groups { waiting_list = λ _. some 5 };
}

both_wait : Waiting two_wait (event_group 0) sync_event_group (some 5) (5 ∷ 3 ∷ [])
both_wait = record {
  chain = (refl, (refl, refl));
  distinct = (((λ e. omega (arith, e)), tt), (tt, tt));
  small = (omega arith, (omega arith, tt));
  sorted = ((omega arith, tt), (tt, tt));
  object_is = (refl, (refl, tt));
  type_is = (refl, (refl, tt));
}

set_bits-Awakened_example : Awakened 0 (bit_or 0 1) two_wait (5 ∷ 3 ∷ []) (set_bits 0 1 two_wait)
set_bits-Awakened_example = set_bits-Awakened 0 1 two_wait (5 ∷ 3 ∷ []) both_wait

-- Task 3 waits for a notification.
abbrev one_waits : Sys
one_waits = record blank {
  pool = record blank.pool {
    state = λ _. blocked;
    blocked_on = λ t. some (task t);
    blocked_on_type = λ _. sync_notification;
  };
}

incremented : apply_action action_increment 0 0 ≡ some 1
unfolding apply_action
incremented = refl

notify_wait_resume-notify_example :
    let (s₁, sent) = notify 3 0 action_increment one_waits in
    let (s₂, status, received) = notify_wait_resume 3 1 s₁ in
    (sent ≡ success)
    × (status ≡ success)
    × (received ≡ some 1)
    × (s₂.pool.notification_value 3 ≡ without 1 1)
    × (s₂.pool.notification_pending 3 ≡ 0)
    × (s₂.pool.blocked_on 3 ≡ none)
notify_wait_resume-notify_example =
    notify_wait_resume-notify 3 0 1 1 action_increment one_waits refl refl incremented

runs : is_blocked (blank.pool.state 5) ≡ false
unfolding is_blocked
runs = refl

notify_take-notify_give_example :
    let (s₁, given) = notify_give 5 blank in
    let (s₂, taken) = notify_take false 0 s₁ in
    (given ≡ success)
    × (taken ≡ some success)
    × (s₂.pool.notification_value 5 ≡ 0)
    × (s₂.pool.notification_pending 5 ≡ 0)
notify_take-notify_give_example = notify_take-notify_give 5 0 blank refl runs (omega arith)
