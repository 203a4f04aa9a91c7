-- ===== src/Scheduler/Cooperative.antt =====
-- The cooperative scheduler, src/scheduler/scheduler_types/cooperative.c: one doubly linked FIFO ready
-- list, a delayed list in the order of the wake-up times, and their lengths as `uint8_t` counters.
--
-- As in the preemptive scheduler, loops run on fuel `max_tasks`, and the links of a task are read
-- before its neighbours are written (no task is its own neighbour).
pub mod Lists
use vrtos.Base.{
  ℕ, zero, suc, ◌+◌, ◌-◌, ◌%◌, Bool, true, false, not, ◌&&◌, Option, none, some, ltb, leb, ◌==◌,
  ◌==?◌, if◌then◌else◌, is_null, ◌▷◌, find_tail, walk, add32, signed_le, signed_ge,
}
use vrtos.State.{
  Sys, Status, success, TaskState, ready, running, CooperativeData, cooperative, max_tasks,
}
use vrtos.State.Setters.{
  set_next, set_prev, set_next?, set_prev?, set_delay_until, set_state, set_ready_timestamp,
}
use vrtos.Scheduler.RoundRobin.{count_up, count_down}

abbrev with_data : (CooperativeData → CooperativeData) → Sys → Sys
with_data f s = record s { coop = f s.coop }

-- `cooperative_add_to_ready_list_internal`
unfoldable pub append_ready : ℕ → Option ℕ → Sys → Sys
append_ready t none s = s ▷ with_data (λ d. record d { ready_list = some t })
append_ready t (some head) s =
    let current = find_tail s.pool.next max_tasks head in
    s ▷ set_next current (some t) ▷ set_prev t (some current)

unfoldable pub add_to_ready_list : ℕ → Sys → Sys
unfolding append_ready
add_to_ready_list t s =
    s
    ▷ set_next t none
    ▷ set_prev t none
    ▷ append_ready t s.coop.ready_list
    ▷ with_data (λ d. record d { ready_count = count_up d.ready_count })

-- `cooperative_remove_from_ready_list_internal`
unfoldable pub remove_from_ready_list : ℕ → Sys → Sys
remove_from_ready_list t s =
    let before = s.pool.prev t in
    let after = s.pool.next t in
    let head = if is_null before then after else s.coop.ready_list in
    if is_null s.coop.ready_list
    then s
    else (s
        ▷ set_next? before after
        ▷ set_prev? after before
        ▷ with_data (λ d. record d { ready_list = head; ready_count = count_down d.ready_count })
        ▷ set_next t none
        ▷ set_prev t none)

-- Where the scan of the delayed list stops: the node before the new task and the one after it.
delay_position : ℕ → Sys → Option ℕ × Option ℕ
delay_position due s =
    walk (λ c. signed_le (s.pool.delay_until c) due) s.pool.next max_tasks none s.coop.delayed_list

link_delayed : ℕ → Option ℕ → Option ℕ → Sys → Sys
link_delayed t before after s =
    let head = if is_null before then some t else s.coop.delayed_list in
    let count = if is_null s.coop.delayed_list then 1 else count_up s.coop.delayed_count in
    s
    ▷ set_next t after
    ▷ set_prev t before
    ▷ with_data (λ d. record d { delayed_list = head; delayed_count = count })
    ▷ set_next? before (some t)
    ▷ set_prev? after (some t)

-- `cooperative_add_to_delayed_list_internal`. On an empty list the scan finds NULL on both sides, and
-- the links are those of the source's early return, which sets the count to 1.
unfoldable pub add_to_delayed_list : ℕ → ℕ → Sys → Sys
unfolding delay_position link_delayed
add_to_delayed_list t delay_ticks s =
    let due = add32 s.kernel.tick_count delay_ticks in
    let s₁ = s ▷ set_delay_until t due ▷ set_next t none ▷ set_prev t none in
    let (before, after) = delay_position due s₁ in link_delayed t before after s₁

-- `cooperative_remove_from_delayed_list_internal`
unfoldable pub remove_from_delayed_list : ℕ → Sys → Sys
remove_from_delayed_list t s =
    let before = s.pool.prev t in
    let after = s.pool.next t in
    let head = if is_null before then after else s.coop.delayed_list in
    if is_null s.coop.delayed_list
    then s
    else (s
        ▷ set_next? before after
        ▷ set_prev? after before
        ▷ with_data
            (λ d. record d { delayed_list = head; delayed_count = count_down d.delayed_count })
        ▷ set_next t none
        ▷ set_prev t none)

-- One expired task: `remove`, READY, the profiling time stamp, `add`.
wake : ℕ → Sys → Sys
wake t s =
    s
    ▷ remove_from_delayed_list t
    ▷ set_state t ready
    ▷ set_ready_timestamp t
        (if ltb 0 (s.pool.priority t) then s.cycles else s.pool.ready_timestamp t)
    ▷ add_to_ready_list t

wake_expired : ℕ → Option ℕ → Sys → Sys
wake_expired zero task s = s
wake_expired (suc f) none s = s
wake_expired (suc f) (some t) s =
    let rest = wake_expired f (s.pool.next t) (wake t s) in
    if signed_ge s.kernel.tick_count (s.pool.delay_until t) then rest else s

-- `cooperative_update_delayed_tasks_internal`
unfoldable pub update_delayed_tasks : Sys → Sys
unfolding wake_expired wake
update_delayed_tasks s = wake_expired max_tasks s.coop.delayed_list s

-- `cooperative_get_next_task`
unfoldable pub get_next_task : Sys → Option ℕ
get_next_task s = s.coop.ready_list

is_ready : TaskState → Bool
is_ready ready = true
is_ready _ = false

-- `cooperative_task_completed`
unfoldable pub task_completed : ℕ → Sys → Sys
unfolding is_ready
task_completed t s =
    if is_ready (s.pool.state t) then (s ▷ remove_from_ready_list t ▷ add_to_ready_list t) else s

-- `cooperative_init`
unfoldable pub init : Sys → Sys × Status
init s = (
  record s {
    coop = record { ready_list = none; delayed_list = none; ready_count = 0; delayed_count = 0 };
    scheduler = record s.scheduler { private_data = some cooperative };
  },
  success,
)
