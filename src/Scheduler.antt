-- ===== src/Scheduler.antt =====
-- The scheduler manager, src/scheduler/scheduler.c: the registry, the one instance, and the calls
-- through its table of functions to the scheduler that was chosen.
pub mod Places
pub mod PreemptiveSp
pub mod RoundRobin
pub mod Cooperative
pub mod Frame
pub mod Start
use vrtos.Base.{ℕ, Bool, true, false, ◌&&◌, Option, none, some, List, [], ◌∷◌, if◌then◌else◌}
use vrtos.State.{
  Sys, Instance, Status, success, invalid_param, invalid_state, SchedulerType, preemptive_sp,
  cooperative, round_robin,
}

abbrev registry : List SchedulerType
registry = preemptive_sp ∷ cooperative ∷ round_robin ∷ []

same_type : SchedulerType → SchedulerType → Bool
same_type preemptive_sp preemptive_sp = true
same_type cooperative cooperative = true
same_type round_robin round_robin = true
same_type _ _ = false

find_in : SchedulerType → List SchedulerType → Option SchedulerType
find_in type [] = none
find_in type (t ∷ ts) = if same_type t type then some t else find_in type ts

-- `rtos_scheduler_find_interface`
unfoldable pub find_interface : SchedulerType → Option SchedulerType
unfolding find_in same_type
find_interface type = find_in type registry

abbrev set_instance : Instance → Sys → Sys
set_instance i s = record s { scheduler = i }

init_interface : SchedulerType → Sys → Sys × Status
init_interface preemptive_sp s = PreemptiveSp.init s
init_interface cooperative s = Cooperative.init s
init_interface round_robin s = RoundRobin.init s

finish_init : Sys × Status → Sys × Status
finish_init (s, success) = (set_instance (record s.scheduler { initialized = true }) s, success)
finish_init (s, status) =
    (set_instance (record s.scheduler { vtable = none; private_data = none }) s, status)

-- `rtos_scheduler_init`
unfoldable pub init : SchedulerType → Sys → Sys × Status
unfolding init_interface finish_init PreemptiveSp.init Cooperative.init RoundRobin.init
init type s =
    let chosen = find_interface type in
    if s.scheduler.initialized then (s, invalid_state) else (elim chosen [
      | none ↦ (s, invalid_param)
      | some interface ↦ finish_init (
          init_interface interface (
            set_instance
              (record {
                vtable = some interface;
                type = type;
                private_data = none;
                initialized = false;
              })
              s))
    ])

-- The table that a call goes through: none before the initialisation.
abbrev pub active : Sys → Option SchedulerType
active s = if s.scheduler.initialized then s.scheduler.vtable else none

get_next_by : Option SchedulerType → Sys → Sys × Option ℕ
get_next_by none s = (s, none)
get_next_by (some preemptive_sp) s = (s, PreemptiveSp.get_next_task s)
get_next_by (some cooperative) s = (s, Cooperative.get_next_task s)
get_next_by (some round_robin) s = RoundRobin.get_next_task s

-- `rtos_scheduler_get_next_task`
unfoldable pub get_next_task : Sys → Sys × Option ℕ
unfolding get_next_by
get_next_task s = get_next_by (active s) s

should_preempt_by : Option SchedulerType → Option ℕ → Sys → Sys × Bool
should_preempt_by none new_task s = (s, false)
should_preempt_by (some preemptive_sp) new_task s =
    (s, PreemptiveSp.should_preempt new_task s.kernel.current_task s)
should_preempt_by (some cooperative) new_task s = (s, false)
should_preempt_by (some round_robin) new_task s = RoundRobin.should_preempt new_task s

-- `rtos_scheduler_should_preempt`
unfoldable pub should_preempt : Option ℕ → Sys → Sys × Bool
unfolding should_preempt_by
should_preempt new_task s = should_preempt_by (active s) new_task s

task_completed_by : Option SchedulerType → ℕ → Sys → Sys
task_completed_by none t s = s
task_completed_by (some preemptive_sp) t s = s
task_completed_by (some cooperative) t s = Cooperative.task_completed t s
task_completed_by (some round_robin) t s = RoundRobin.task_completed t s

-- `rtos_scheduler_task_completed`
unfoldable pub task_completed : ℕ → Sys → Sys
unfolding task_completed_by
task_completed t s = task_completed_by (active s) t s

add_to_ready_by : Option SchedulerType → ℕ → Sys → Sys
add_to_ready_by none t s = s
add_to_ready_by (some preemptive_sp) t s = PreemptiveSp.add_to_ready_list t s
add_to_ready_by (some cooperative) t s = Cooperative.add_to_ready_list t s
add_to_ready_by (some round_robin) t s = RoundRobin.add_to_ready_list t s

-- `rtos_scheduler_add_to_ready_list`, and so on, for a task that is not NULL.
unfoldable pub add_to_ready_list : ℕ → Sys → Sys
unfolding add_to_ready_by
add_to_ready_list t s = add_to_ready_by (active s) t s

remove_from_ready_by : Option SchedulerType → ℕ → Sys → Sys
remove_from_ready_by none t s = s
remove_from_ready_by (some preemptive_sp) t s = PreemptiveSp.remove_from_ready_list t s
remove_from_ready_by (some cooperative) t s = Cooperative.remove_from_ready_list t s
remove_from_ready_by (some round_robin) t s = RoundRobin.remove_from_ready_list t s

unfoldable pub remove_from_ready_list : ℕ → Sys → Sys
unfolding remove_from_ready_by
remove_from_ready_list t s = remove_from_ready_by (active s) t s

add_to_delayed_by : Option SchedulerType → ℕ → ℕ → Sys → Sys
add_to_delayed_by none t ticks s = s
add_to_delayed_by (some preemptive_sp) t ticks s = PreemptiveSp.add_to_delayed_list t ticks s
add_to_delayed_by (some cooperative) t ticks s = Cooperative.add_to_delayed_list t ticks s
add_to_delayed_by (some round_robin) t ticks s = RoundRobin.add_to_delayed_list t ticks s

unfoldable pub add_to_delayed_list : ℕ → ℕ → Sys → Sys
unfolding add_to_delayed_by
add_to_delayed_list t ticks s = add_to_delayed_by (active s) t ticks s

remove_from_delayed_by : Option SchedulerType → ℕ → Sys → Sys
remove_from_delayed_by none t s = s
remove_from_delayed_by (some preemptive_sp) t s = PreemptiveSp.remove_from_delayed_list t s
remove_from_delayed_by (some cooperative) t s = Cooperative.remove_from_delayed_list t s
remove_from_delayed_by (some round_robin) t s = RoundRobin.remove_from_delayed_list t s

unfoldable pub remove_from_delayed_list : ℕ → Sys → Sys
unfolding remove_from_delayed_by
remove_from_delayed_list t s = remove_from_delayed_by (active s) t s

update_delayed_by : Option SchedulerType → Sys → Sys
update_delayed_by none s = s
update_delayed_by (some preemptive_sp) s = PreemptiveSp.update_delayed_tasks s
update_delayed_by (some cooperative) s = Cooperative.update_delayed_tasks s
update_delayed_by (some round_robin) s = RoundRobin.update_delayed_tasks s

-- `rtos_scheduler_update_delayed_tasks`
unfoldable pub update_delayed_tasks : Sys → Sys
unfolding update_delayed_by
update_delayed_tasks s = update_delayed_by (active s) s
