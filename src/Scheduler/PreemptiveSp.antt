-- ===== src/Scheduler/PreemptiveSp.antt =====
-- The preemptive static-priority scheduler, src/scheduler/scheduler_types/preemptive_sp.c: a doubly
-- linked ready list for each priority, a map of the priorities that have one, and a delayed list in
-- the order of the wake-up times, all through the tasks' `next` and `prev`.
--
-- The dispatcher passes `&g_scheduler_instance`, which is never NULL. The loops over a list run on
-- fuel `max_tasks`, the number of tasks that a list can hold.
pub mod Lists
pub mod Ready
pub mod Removal
pub mod Delayed
pub mod Choice
pub mod Wakeups
pub mod Timing
use vrtos.Base.{
  ℕ, zero, suc, ◌+◌, ◌-◌, ◌≡◌, Bool, true, false, not, ◌&&◌, Option, none, some, List, [], ◌∷◌, ltb,
  leb, ◌==◌, ◌==?◌, if◌then◌else◌, is_null, ◌▷◌, update, find_tail, walk, add32, signed_le,
  signed_ge, has_bit, set_bit, clear_bit,
}
use vrtos.State.{
  Sys, Status, success, TaskState, ready, preemptive_sp, max_tasks, max_task_priorities,
}
use vrtos.State.Setters.{
  set_next, set_prev, set_next?, set_prev?, set_delay_until, set_state, set_ready_timestamp,
}

abbrev pub set_ready_list : ℕ → Option ℕ → Sys → Sys
set_ready_list p v s = record s {
  preemptive = record s.preemptive { ready_lists = update s.preemptive.ready_lists p v };
}

abbrev pub set_ready_priorities : ℕ → Sys → Sys
set_ready_priorities v s = record s { preemptive = record s.preemptive { ready_priorities = v } }

abbrev pub set_delayed_list : Option ℕ → Sys → Sys
set_delayed_list v s = record s { preemptive = record s.preemptive { delayed_list = v } }

-- The end of a priority's list: FIFO within one priority.
unfoldable pub append_ready : ℕ → ℕ → Option ℕ → Sys → Sys
append_ready t p none s =
    s ▷ set_ready_list p (some t) ▷ set_ready_priorities (set_bit s.preemptive.ready_priorities p)
append_ready t p (some head) s =
    let current = find_tail s.pool.next max_tasks head in
    s ▷ set_next current (some t) ▷ set_prev t (some current)

-- `preemptive_sp_add_to_ready_list_internal`
unfoldable pub add_to_ready_list : ℕ → Sys → Sys
unfolding append_ready
add_to_ready_list t s =
    let p = s.pool.priority t in
    if leb max_task_priorities p
    then s
    else (s ▷ set_next t none ▷ set_prev t none ▷ append_ready t p (s.preemptive.ready_lists p))

-- `preemptive_sp_remove_from_ready_list_internal`
unfoldable pub remove_from_ready_list : ℕ → Sys → Sys
remove_from_ready_list t s =
    let p = s.pool.priority t in
    let before = s.pool.prev t in
    let after = s.pool.next t in
    let head = if is_null before then after else s.preemptive.ready_lists p in
    let map = s.preemptive.ready_priorities in
    if leb max_task_priorities p
    then s
    else (s
        ▷ set_next? before after
        ▷ set_ready_list p head
        ▷ set_prev? after before
        ▷ set_ready_priorities (if is_null head then clear_bit map p else map)
        ▷ set_next t none
        ▷ set_prev t none)

-- Where the scan of the delayed list stops: the node before the new task and the one after it.
delay_position : ℕ → Sys → Option ℕ × Option ℕ
delay_position due s =
    walk (λ c. signed_le (s.pool.delay_until c) due) s.pool.next max_tasks none
      s.preemptive.delayed_list

link_delayed : ℕ → Option ℕ → Option ℕ → Sys → Sys
link_delayed t before after s =
    s
    ▷ set_next t after
    ▷ set_prev t before
    ▷ set_delayed_list (if is_null before then some t else s.preemptive.delayed_list)
    ▷ set_next? before (some t)
    ▷ set_prev? after (some t)

-- `preemptive_sp_add_to_delayed_list_internal`. On an empty list the scan finds NULL on both sides,
-- and the links are those of the source's early return.
unfoldable pub add_to_delayed_list : ℕ → ℕ → Sys → Sys
unfolding delay_position link_delayed
add_to_delayed_list t delay_ticks s =
    let due = add32 s.kernel.tick_count delay_ticks in
    let s₁ = s ▷ set_delay_until t due ▷ set_next t none ▷ set_prev t none in
    let (before, after) = delay_position due s₁ in link_delayed t before after s₁

-- `preemptive_sp_remove_from_delayed_list_internal`
unfoldable pub remove_from_delayed_list : ℕ → Sys → Sys
remove_from_delayed_list t s =
    let before = s.pool.prev t in
    let after = s.pool.next t in
    let head = s.preemptive.delayed_list in
    s
    ▷ set_next? before after
    ▷ set_delayed_list (if is_null before && head ==? t then after else head)
    ▷ set_prev? after before
    ▷ set_next t none
    ▷ set_prev t none

-- One expired task: `remove`, READY, the profiling time stamp, `add`.
unfoldable pub wake : ℕ → Sys → Sys
wake t s =
    s
    ▷ remove_from_delayed_list t
    ▷ set_state t ready
    ▷ set_ready_timestamp t
        (if ltb 0 (s.pool.priority t) then s.cycles else s.pool.ready_timestamp t)
    ▷ add_to_ready_list t

unfoldable pub wake_expired : ℕ → Option ℕ → Sys → Sys
wake_expired zero task s = s
wake_expired (suc f) none s = s
wake_expired (suc f) (some t) s =
    let rest = wake_expired f (s.pool.next t) (wake t s) in
    if signed_ge s.kernel.tick_count (s.pool.delay_until t) then rest else s

-- `preemptive_sp_update_delayed_tasks_internal`
unfoldable pub update_delayed_tasks : Sys → Sys
unfolding wake_expired
update_delayed_tasks s = wake_expired max_tasks s.preemptive.delayed_list s

-- The scan over the priorities from the highest down, `n` of them left.
scan_priorities : ℕ → Sys → Option ℕ
scan_priorities zero s = none
scan_priorities (suc p) s =
    if has_bit s.preemptive.ready_priorities p
    then s.preemptive.ready_lists p
    else scan_priorities p s

-- `preemptive_sp_get_highest_priority_ready`
unfoldable pub get_next_task : Sys → Option ℕ
unfolding scan_priorities
get_next_task s =
    if s.preemptive.ready_priorities == 0 then none else scan_priorities max_task_priorities s

-- `preemptive_sp_should_preempt`
unfoldable pub should_preempt : Option ℕ → Option ℕ → Sys → Bool
should_preempt none current s = false
should_preempt (some t) none s = false
should_preempt (some t) (some c) s = not (t == c) && ltb (s.pool.priority c) (s.pool.priority t)

-- `preemptive_sp_init`
unfoldable pub init : Sys → Sys × Status
init s = (
  record s {
    preemptive = record { ready_lists = λ _. none; delayed_list = none; ready_priorities = 0 };
    scheduler = record s.scheduler { private_data = some preemptive_sp };
  },
  success,
)
