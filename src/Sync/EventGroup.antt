-- ===== src/Sync/EventGroup.antt =====
-- Event groups, src/sync/event_group/event_group.c: 32 flags, and the tasks that wait for any or all
-- of some of them. A wait that blocks ends where the task yields, with no status; `wait_resume` is the
-- rest of it.
pub mod Scan
pub mod Wakeups
use vrtos.Base.{
  ℕ, zero, suc, Bool, true, false, not, Option, none, some, ◌==◌, if◌then◌else◌, is_null, ◌▷◌,
  update, update?, bit_and, bit_or, without,
}
use vrtos.State.{
  Sys, Status, success, invalid_param, timeout, event_group, sync_none, sync_event_group, max_tasks,
}
use vrtos.State.Setters.{
  set_next_waiting, set_blocked_on, set_blocked_on_type, set_event_wait_bits, set_event_wait_all,
  set_event_clear_on_exit,
}
use vrtos.Kernel
use vrtos.Sync.WaitList
use vrtos.Sync.WaitList.{start_wait}
use vrtos.Sync.Blocking.{block_current, is_blocked_on}

abbrev pub set_bits_of : ℕ → ℕ → Sys → Sys
set_bits_of e v s = record s {
  event_groups = record s.event_groups { bits = update s.event_groups.bits e v };
}

abbrev pub set_waiting_list : ℕ → Option ℕ → Sys → Sys
set_waiting_list e v s = record s {
  event_groups = record s.event_groups { waiting_list = update s.event_groups.waiting_list e v };
}

-- `eg_condition_met`
unfoldable pub condition_met : ℕ → ℕ → Bool → Bool
condition_met current_bits wait_bits wait_all =
    if wait_all
    then bit_and current_bits wait_bits == wait_bits
    else not (bit_and current_bits wait_bits == 0)

-- `eg_add_to_waiting_list`
unfoldable pub add_to_waiting_list : ℕ → ℕ → ℕ → Bool → Bool → Sys → Sys
add_to_waiting_list e t bits_to_wait wait_all clear_on_exit s =
    let s₁ =
      s
      ▷ start_wait (event_group e) sync_event_group t
      ▷ set_event_wait_bits t bits_to_wait
      ▷ set_event_wait_all t wait_all
      ▷ set_event_clear_on_exit t clear_on_exit in
    let (s₂, head) = WaitList.insert (s₁.event_groups.waiting_list e) t s₁ in
    set_waiting_list e head s₂

-- `eg_remove_from_waiting_list`, which is also `rtos_event_group_remove_task_from_wait`
unfoldable pub remove_from_waiting_list : ℕ → ℕ → Sys → Sys
remove_from_waiting_list e t s =
    let (s₁, head) = WaitList.remove (s.event_groups.waiting_list e) t s in
    set_waiting_list e head s₁

-- A task whose condition is met leaves the list for the list of those to be woken.
unfoldable pub take_out : ℕ → Option ℕ → ℕ → Option ℕ → Sys → Sys
take_out e prev c wake_list s =
    let next = s.pool.next_waiting c in
    let head = if is_null prev then next else s.event_groups.waiting_list e in
    record s {
      pool = record s.pool {
        event_wait_bits = update s.pool.event_wait_bits c (s.event_groups.bits e);
        next_waiting = update (update? s.pool.next_waiting prev next) c wake_list;
        blocked_on = update s.pool.blocked_on c none;
        blocked_on_type = update s.pool.blocked_on_type c sync_none;
      };
    }
    ▷ set_waiting_list e head

-- What a scan of the waiting list has found: the list to be woken, and the bits to clear.
pub record Found : Type 0 where
  pub wake_list : Option ℕ
  pub bits_to_clear : ℕ

unfoldable pub found : ℕ → Sys → Found → Found
found c s w = record {
  wake_list = some c;
  bits_to_clear =
      if s.pool.event_clear_on_exit c
      then bit_or w.bits_to_clear (s.pool.event_wait_bits c)
      else w.bits_to_clear;
}

unfoldable pub scan : ℕ → ℕ → Option ℕ → Option ℕ → Found → Sys → Sys × Found
unfolding found
scan zero e prev current w s = (s, w)
scan (suc f) e prev none w s = (s, w)
scan (suc f) e prev (some c) w s =
    let next = s.pool.next_waiting c in
    let taken = scan f e prev next (found c s w) (take_out e prev c w.wake_list s) in
    let kept = scan f e (some c) next w s in
    if condition_met (s.event_groups.bits e) (s.pool.event_wait_bits c) (s.pool.event_wait_all c)
    then taken
    else kept

-- `eg_set_bits_internal`: the state, and the list of the tasks to be woken.
unfoldable pub set_bits_internal : ℕ → ℕ → Sys → Sys × Option ℕ
set_bits_internal e bits_to_set s =
    let s₁ = set_bits_of e (bit_or (s.event_groups.bits e) bits_to_set) s in
    let (s₂, w) =
      scan max_tasks e none (s₁.event_groups.waiting_list e)
        (record { wake_list = none; bits_to_clear = 0 }) s₁ in
    (set_bits_of e (without (s₂.event_groups.bits e) w.bits_to_clear) s₂, w.wake_list)

-- `rtos_event_group_init`
unfoldable pub init : ℕ → Sys → Sys × Status
init e s = (s ▷ set_bits_of e 0 ▷ set_waiting_list e none, success)

wait_blocked : ℕ → ℕ → Bool → Bool → ℕ → Option ℕ → Sys → Sys × Option Status
wait_blocked e bits_to_wait wait_all clear_on_exit timeout_ticks none s = (s, some invalid_param)
wait_blocked e bits_to_wait wait_all clear_on_exit timeout_ticks (some t) s = (
  s ▷ add_to_waiting_list e t bits_to_wait wait_all clear_on_exit ▷ block_current t timeout_ticks,
  none,
)

-- `rtos_event_group_wait_bits`, up to the point where the task blocks: the status, and `*bits_out` where it
-- is written.
unfoldable pub wait_bits : ℕ → ℕ → Bool → Bool → ℕ → Sys → Sys × Option Status × Option ℕ
unfolding wait_blocked
wait_bits e bits_to_wait wait_all clear_on_exit timeout_ticks s =
    let bits = s.event_groups.bits e in
    let cleared = if clear_on_exit then set_bits_of e (without bits bits_to_wait) s else s in
    let (blocked, status) =
      wait_blocked e bits_to_wait wait_all clear_on_exit timeout_ticks s.kernel.current_task s in
    if bits_to_wait == 0
    then (s, some invalid_param, none)
    else (if condition_met bits bits_to_wait wait_all
        then (cleared, some success, some bits)
        else (if timeout_ticks == 0 then (s, some timeout, none) else (blocked, status, none)))

-- `rtos_event_group_wait_bits` of the task `t`, from the point where it runs again
unfoldable pub wait_resume : ℕ → ℕ → Sys → Sys × Status × Option ℕ
wait_resume e t s =
    if is_blocked_on (s.pool.blocked_on t) (event_group e)
    then (remove_from_waiting_list e t s, timeout, none)
    else (s, success, some (s.pool.event_wait_bits t))

-- The loop over the tasks to be woken, on fuel.
unfoldable pub wake_all : ℕ → Option ℕ → Sys → Sys
wake_all zero wake_list s = s
wake_all (suc f) none s = s
wake_all (suc f) (some t) s =
    wake_all f (s.pool.next_waiting t) (s ▷ set_next_waiting t none ▷ Kernel.task_unblock t)

-- `rtos_event_group_set_bits`. The tasks are woken after the critical section; here that is the same step.
unfoldable pub set_bits : ℕ → ℕ → Sys → Sys × Status
set_bits e bits_to_set s =
    let (s₁, wake_list) = set_bits_internal e bits_to_set s in
    (wake_all max_tasks wake_list s₁, success)

-- `rtos_event_group_set_bits_from_isr`, which does the same under another critical section
unfoldable pub set_bits_from_isr : ℕ → ℕ → Sys → Sys × Status
set_bits_from_isr e bits_to_set s =
    let (s₁, wake_list) = set_bits_internal e bits_to_set s in
    (wake_all max_tasks wake_list s₁, success)

-- `rtos_event_group_clear_bits`
unfoldable pub clear_bits : ℕ → ℕ → Sys → Sys × Status
clear_bits e bits_to_clear s =
    (set_bits_of e (without (s.event_groups.bits e) bits_to_clear) s, success)
