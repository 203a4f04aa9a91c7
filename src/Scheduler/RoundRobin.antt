-- ===== src/Scheduler/RoundRobin.antt =====
-- The round-robin scheduler, src/scheduler/scheduler_types/round_robin.c: one doubly linked ready list
-- with a tail pointer, a delayed list in the order of the wake-up times, their lengths as `uint8_t`
-- counters, and the rest of the running task's time slice.
--
-- As in the preemptive scheduler, loops run on fuel `max_tasks`, and the links of a task are read
-- before its neighbours are written (no task is its own neighbour).
pub mod Lists
use vrtos.Base.{
  ℕ, zero, suc, ◌+◌, ◌-◌, ◌%◌, Bool, true, false, not, ◌&&◌, Option, none, some, ltb, leb, ◌==◌,
  ◌==?◌, if◌then◌else◌, is_null, ◌▷◌, find_tail, walk, add32, signed_le, signed_ge,
}
use vrtos.State.{
  Sys, Status, success, TaskState, ready, running, RoundRobinData, round_robin, max_tasks,
  time_slice_ticks,
}
use vrtos.State.Setters.{
  set_next, set_prev, set_next?, set_prev?, set_delay_until, set_state, set_ready_timestamp,
}

abbrev with_data : (RoundRobinData → RoundRobinData) → Sys → Sys
with_data f s = record s { rr = f s.rr }

-- `count++` and `if (count > 0) count--` on a `uint8_t`.
abbrev pub count_up : ℕ → ℕ
count_up n = (n + 1) % 256

abbrev pub count_down : ℕ → ℕ
count_down n = if ltb 0 n then n - 1 else n

-- `round_robin_add_to_ready_list_internal`
unfoldable pub append_ready : ℕ → Option ℕ → Sys → Sys
append_ready t none s =
    s ▷ with_data (λ d. record d { ready_list = some t; ready_list_tail = some t })
append_ready t (some _) s =
    s
    ▷ set_next? s.rr.ready_list_tail (some t)
    ▷ set_prev t s.rr.ready_list_tail
    ▷ with_data (λ d. record d { ready_list_tail = some t })

unfoldable pub add_to_ready_list : ℕ → Sys → Sys
unfolding append_ready
add_to_ready_list t s =
    s
    ▷ set_next t none
    ▷ set_prev t none
    ▷ append_ready t s.rr.ready_list
    ▷ with_data (λ d. record d { ready_count = count_up d.ready_count })

-- `round_robin_remove_from_ready_list_internal`
unfoldable pub remove_from_ready_list : ℕ → Sys → Sys
remove_from_ready_list t s =
    let before = s.pool.prev t in
    let after = s.pool.next t in
    let head = if is_null before then after else s.rr.ready_list in
    let tail = if is_null after then before else s.rr.ready_list_tail in
    if is_null s.rr.ready_list
    then s
    else (s
        ▷ set_next? before after
        ▷ set_prev? after before
        ▷ with_data (λ d. record d {
          ready_list = head;
          ready_list_tail = tail;
          ready_count = count_down d.ready_count;
        })
        ▷ set_next t none
        ▷ set_prev t none)

-- Where the scan of the delayed list stops: the node before the new task and the one after it.
delay_position : ℕ → Sys → Option ℕ × Option ℕ
delay_position due s =
    walk (λ c. signed_le (s.pool.delay_until c) due) s.pool.next max_tasks none s.rr.delayed_list

link_delayed : ℕ → Option ℕ → Option ℕ → Sys → Sys
link_delayed t before after s =
    let head = if is_null before then some t else s.rr.delayed_list in
    let count = if is_null s.rr.delayed_list then 1 else count_up s.rr.delayed_count in
    s
    ▷ set_next t after
    ▷ set_prev t before
    ▷ with_data (λ d. record d { delayed_list = head; delayed_count = count })
    ▷ set_next? before (some t)
    ▷ set_prev? after (some t)

-- `round_robin_add_to_delayed_list_internal`. On an empty list the scan finds NULL on both sides, and
-- the links are those of the source's early return, which sets the count to 1.
unfoldable pub add_to_delayed_list : ℕ → ℕ → Sys → Sys
unfolding delay_position link_delayed
add_to_delayed_list t delay_ticks s =
    let due = add32 s.kernel.tick_count delay_ticks in
    let s₁ = s ▷ set_delay_until t due ▷ set_next t none ▷ set_prev t none in
    let (before, after) = delay_position due s₁ in link_delayed t before after s₁

-- `round_robin_remove_from_delayed_list_internal`
unfoldable pub remove_from_delayed_list : ℕ → Sys → Sys
remove_from_delayed_list t s =
    let before = s.pool.prev t in
    let after = s.pool.next t in
    let head = if is_null before then after else s.rr.delayed_list in
    if is_null s.rr.delayed_list
    then s
    else (s
        ▷ set_next? before after
        ▷ set_prev? after before
        ▷ with_data
            (λ d. record d { delayed_list = head; delayed_count = count_down d.delayed_count })
        ▷ set_next t none
        ▷ set_prev t none)

-- One expired task: `remove`, READY, the profiling time stamp, `add`.
wake : ℕ → Sys → Sys
wake t s =
    s
    ▷ remove_from_delayed_list t
    ▷ set_state t ready
    ▷ set_ready_timestamp t
        (if ltb 0 (s.pool.priority t) then s.cycles else s.pool.ready_timestamp t)
    ▷ add_to_ready_list t

wake_expired : ℕ → Option ℕ → Sys → Sys
wake_expired zero task s = s
wake_expired (suc f) none s = s
wake_expired (suc f) (some t) s =
    let rest = wake_expired f (s.pool.next t) (wake t s) in
    if signed_ge s.kernel.tick_count (s.pool.delay_until t) then rest else s

-- `round_robin_update_delayed_tasks_internal`
unfoldable pub update_delayed_tasks : Sys → Sys
unfolding wake_expired wake
update_delayed_tasks s = wake_expired max_tasks s.rr.delayed_list s

-- `round_robin_get_next_task`: the head of the ready list, remembered in the private data.
unfoldable pub get_next_task : Sys → Sys × Option ℕ
get_next_task s =
    let next = s.rr.ready_list in
    (
      s
          ▷ with_data
              (λ d. record d { current_task = if is_null next then d.current_task else next }),
      next,
    )

-- `new_task == g_kernel.current_task`, on pointers.
abbrev pub same_task : Option ℕ → Option ℕ → Bool
same_task none none = true
same_task none (some _) = false
same_task (some a) p = p ==? a

-- `round_robin_should_preempt`: it also counts the time slice down.
unfoldable pub should_preempt : Option ℕ → Sys → Sys × Bool
should_preempt new_task s =
    let slice = count_down s.rr.slice_remaining in
    let s₁ = s ▷ with_data (λ d. record d { slice_remaining = slice }) in
    if same_task new_task s.kernel.current_task
    then (s₁, slice == 0 && ltb 1 s.rr.ready_count)
    else (s, false)

is_ready : TaskState → Bool
is_ready ready = true
is_ready _ = false

-- `round_robin_task_completed`
unfoldable pub task_completed : ℕ → Sys → Sys
unfolding is_ready
task_completed t s =
    if is_ready (s.pool.state t)
    then (s
        ▷ remove_from_ready_list t
        ▷ add_to_ready_list t
        ▷ with_data (λ d. record d { slice_remaining = time_slice_ticks; current_task = none }))
    else s

-- `round_robin_init`
unfoldable pub init : Sys → Sys × Status
init s = (
  record s {
    rr = record {
      ready_list = none;
      ready_list_tail = none;
      delayed_list = none;
      current_task = none;
      slice_remaining = time_slice_ticks;
      ready_count = 0;
      delayed_count = 0;
    };
    scheduler = record s.scheduler { private_data = some round_robin };
  },
  success,
)
