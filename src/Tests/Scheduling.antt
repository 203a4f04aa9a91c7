-- ===== src/Tests/Scheduling.antt =====
-- The theorems on the schedulers and on the switch of tasks, on small systems.
use vrtos.Base.{true, ℕ, ◌<◌, ◌≡◌, refl, arith, List, [], ◌∷◌, ◌++◌, update, walk, All}
use vrtos.State.{blocked, Sys, max_task_priorities}
use vrtos.Kernel.{switch_context, delay_ticks}
use vrtos.Kernel.Delay.{delay_ticks-Holds}
use vrtos.Kernel.Switch.{Switched, switch_context-Switched}
use vrtos.Scheduler.PreemptiveSp.{
  add_to_ready_list, remove_from_ready_list, add_to_delayed_list, update_delayed_tasks,
  get_next_task,
}
use vrtos.Scheduler.PreemptiveSp.Lists.{Holds, IsTimed, Place, nowhere, in_ready, in_delayed}
use vrtos.Scheduler.PreemptiveSp.Ready.{add_to_ready_list-Holds}
use vrtos.Scheduler.PreemptiveSp.Removal.{remove_from_ready_list-Holds}
use vrtos.Scheduler.PreemptiveSp.Choice.{Chosen, get_next_task-Chosen}
use vrtos.Scheduler.PreemptiveSp.Delayed.{earlier, later, add_to_delayed_list-Holds}
use vrtos.Scheduler.PreemptiveSp.Wakeups.{enqueue, settle, make_ready, update_delayed_tasks-Holds}
use vrtos.Tests.{blank, nobody, no_lists, blank-Holds}

-- Task 4, of priority 2, is ready.
abbrev one_ready : Sys
one_ready = add_to_ready_list 4 blank

abbrev one_place : ℕ → Place
one_place = update nobody 4 (in_ready 2)

abbrev one_list : ℕ → List ℕ
one_list = update no_lists 2 ([] ++ 4 ∷ [])

add_to_ready_list-Holds_example : Holds one_ready one_place one_list []
add_to_ready_list-Holds_example =
    add_to_ready_list-Holds 4 blank nobody no_lists [] blank-Holds (omega arith) (omega arith) refl

one_ready-Holds : Holds one_ready one_place one_list []
one_ready-Holds =
    add_to_ready_list-Holds 4 blank nobody no_lists [] blank-Holds (omega arith) (omega arith) refl

remove_from_ready_list-Holds_example :
    Holds
      (remove_from_ready_list 4 one_ready)
      (update one_place 4 nowhere)
      (update one_list 2 [])
      []
unfolding add_to_ready_list
remove_from_ready_list-Holds_example =
    remove_from_ready_list-Holds 4 [] [] one_ready one_place one_list [] one_ready-Holds
      (omega arith) refl

get_next_task-Chosen_example : Chosen one_list max_task_priorities (get_next_task one_ready)
get_next_task-Chosen_example = get_next_task-Chosen one_ready one_place one_list [] one_ready-Holds

-- Task 5, of the same priority, runs.
switch_context-Switched_example :
    Switched
      (update one_list 2 (one_list 2 ++ 5 ∷ []))
      (update one_place 5 (in_ready 2))
      []
      (switch_context one_ready)
unfolding add_to_ready_list
switch_context-Switched_example =
    switch_context-Switched 5 one_ready one_place one_list [] refl one_ready-Holds refl refl refl
      refl (omega arith) (omega arith)

-- Task 6 is delayed for 3 ticks.
abbrev one_delayed : Sys
one_delayed = add_to_delayed_list 6 3 one_ready

abbrev delayed_place : ℕ → Place
delayed_place = update one_place 6 in_delayed

one_delayed-Holds : Holds one_delayed delayed_place one_list (6 ∷ [])
one_delayed-Holds =
    add_to_delayed_list-Holds 6 3 one_ready one_place one_list [] one_ready-Holds (omega arith) refl

abbrev never_due : ℕ → ℕ
never_due t = 0

no_delays : IsTimed one_ready never_due 0 []
unfolding add_to_ready_list
no_delays = record { tick = refl; near = tt; sorted = tt }

-- At tick 3, the delay of task 6 is over.
abbrev at_three : Sys
at_three = record one_delayed { kernel = record one_delayed.kernel { tick_count = 3 } }

at_three-Holds : Holds at_three delayed_place one_list (6 ∷ [])
unfolding add_to_delayed_list
at_three-Holds = record {
  ready_list = one_delayed-Holds.ready_list;
  delayed_list = one_delayed-Holds.delayed_list;
  ready_place = one_delayed-Holds.ready_place;
  delayed_place = one_delayed-Holds.delayed_place;
  ready_priority = one_delayed-Holds.ready_priority;
  map_small = one_delayed-Holds.map_small;
  map = one_delayed-Holds.map;
}

update_delayed_tasks-Holds_example :
    Holds
      (update_delayed_tasks at_three)
      (settle at_three.pool.priority (6 ∷ []) delayed_place)
      (enqueue at_three.pool.priority (6 ∷ []) one_list)
      []
    × ((update_delayed_tasks at_three).pool.state ≡ make_ready (6 ∷ []) at_three.pool.state)
    × All (λ x. 3 < update never_due 6 3 x) []
unfolding add_to_delayed_list add_to_ready_list walk
update_delayed_tasks-Holds_example =
    update_delayed_tasks-Holds at_three delayed_place one_list (6 ∷ []) (update never_due 6 3) 3
      at_three-Holds
      (record { tick = refl; near = ((refl, omega arith, omega arith), tt); sorted = (tt, tt) })
      (omega arith, tt)

-- Task 5 runs and delays itself by 8 ticks, while task 4 is ready.
delay_ticks-Holds_example :
    let s' = delay_ticks 8 one_ready in
    (s'.pool.state 5 ≡ blocked)
    × (s'.pendsv ≡ true)
    × Holds s'
        (update one_place 5 in_delayed)
        one_list
        (earlier 5 8 one_ready [] ++ 5 ∷ later 5 8 one_ready [])
    × IsTimed s' (update never_due 5 8) 0 (earlier 5 8 one_ready [] ++ 5 ∷ later 5 8 one_ready [])
unfolding add_to_ready_list
delay_ticks-Holds_example =
    delay_ticks-Holds 5 8 0 one_ready one_place one_list [] never_due refl refl one_ready-Holds
      no_delays (omega arith) refl (λ e. omega (arith, e)) (omega arith)
