-- ===== src/Task/Creation/Start.antt =====
-- The system after `rtos_init`.
use vrtos.Base.{
  ℕ, ◌+◌, ◌%◌, ◌≡◌, refl, sym, ◌∙◌, ap, false, Option, some, List, [], ◌∷◌, arith, ◌▷◌, update,
  if◌then◌else◌, has_bit-zero, subst,
}
use vrtos.State.{Sys, success, invalid_state, ready, kernel_inactive, kernel_ready, preemptive_sp}
use vrtos.Memory
use vrtos.Scheduler
use vrtos.Scheduler.Frame.{view-add_to_ready_list, add_to_ready_list-state}
use vrtos.Scheduler.Start.{started, init-started, add_to_ready_list-started}
use vrtos.Scheduler.PreemptiveSp.Lists.{Holds, Place, nowhere, in_ready}
use vrtos.Scheduler.PreemptiveSp.Ready.{add_to_ready_list-Holds}
use vrtos.Task.Creation.{
  init_system, allocate_tcb, effective_stack_size, fill_task, init_kernel, is_inactive,
  reset_kernel, create_idle, finish_start,
}
use vrtos.Memory.{align8_up}
use vrtos.Task.Creation.Created.{HasRoom, filled, create-filled}

-- The state in which the idle task is created.
abbrev pub prepared : Sys → Sys
prepared s = started (init_system (s ▷ reset_kernel ▷ Memory.init)).0

pub first_free : (s : Sys) → allocate_tcb (prepared s) ≡ some 0
unfolding allocate_tcb init_system
first_free s = refl

idle_room : (s : Sys) → HasRoom (effective_stack_size 0) (prepared s)
unfolding init_system Memory.init effective_stack_size align8_up
idle_room s = refl

-- The idle task, before it goes to its ready list.
abbrev pub idle_filled : ℕ → Option ℕ → Sys → Sys
idle_filled idle_function idle_name s =
    filled 0 idle_function (effective_stack_size 0) 0 0 idle_name (prepared s)

idle_filled-Holds :
    (idle_function : ℕ) (idle_name : Option ℕ) (s : Sys)
    → Holds (idle_filled idle_function idle_name s) (λ t. nowhere) (λ p. []) []
unfolding fill_task init_system Memory.init reset_kernel
idle_filled-Holds idle_function idle_name s = record {
  ready_list = λ p lt. record { chain = refl; back = tt; distinct = tt; small = tt };
  delayed_list = record { chain = refl; back = tt; distinct = tt; small = tt };
  ready_place = λ p. tt;
  delayed_place = tt;
  ready_priority = λ p. tt;
  map_small = omega arith;
  map = λ p lt. has_bit-zero p lt;
}

-- The kernel is ready and counts its first task.
abbrev pub finished : Sys → Sys
finished s = record s {
  task_count = (s.task_count + 1) % 256;
  kernel = record s.kernel { state = kernel_ready };
}

pub Holds-finished :
    (s : Sys) (place : ℕ → Place) (ready_at : ℕ → List ℕ) (delayed : List ℕ)
    → Holds s place ready_at delayed
    → Holds (finished s) place ready_at delayed
Holds-finished s place ready_at delayed h = record {
  ready_list = h.ready_list;
  delayed_list = h.delayed_list;
  ready_place = h.ready_place;
  delayed_place = h.delayed_place;
  ready_priority = h.ready_priority;
  map_small = h.map_small;
  map = h.map;
}

-- The idle task is made as any other.
create_idle-prepared :
    (idle_function : ℕ) (idle_name : Option ℕ) (s : Sys)
    → create_idle idle_function idle_name (prepared s, success)
      ≡ (finished (Scheduler.add_to_ready_list 0 (idle_filled idle_function idle_name s)), success)
unfolding create_idle finish_start init_system Memory.init
create_idle-prepared idle_function idle_name s = ap finish_start (
    create-filled 0 idle_function 0 0 0 idle_name (prepared s) (omega arith) (omega arith)
      (first_free s) (idle_room s))

pub init_kernel-finished :
    (idle_function : ℕ) (idle_name : Option ℕ) (s : Sys)
    → s.kernel.state ≡ kernel_inactive
    → s.scheduler.initialized ≡ false
    → init_kernel preemptive_sp idle_function idle_name s
      ≡ (finished (Scheduler.add_to_ready_list 0 (idle_filled idle_function idle_name s)), success)
unfolding init_kernel is_inactive init_system Memory.init reset_kernel
init_kernel-finished idle_function idle_name s inactive fresh =
    ap
      (λ k.
        if is_inactive k
        then create_idle idle_function idle_name (Scheduler.init preemptive_sp s₀)
        else (s, invalid_state))
      inactive
    ∙ ap (create_idle idle_function idle_name) (init-started s₀ fresh)
    ∙ create_idle-prepared idle_function idle_name s
  where
    s₀ : Sys
    s₀ = (init_system (s ▷ reset_kernel ▷ Memory.init)).0

-- With the preemptive scheduler and from the state before any start, `rtos_init` succeeds: the kernel is READY to
-- start, the idle task is there and READY, and the lists of the scheduler are in order, with the idle
-- task alone in the ready list of the lowest priority.
pub init_kernel-Holds :
    (idle_function : ℕ) (idle_name : Option ℕ) (s : Sys)
    → s.kernel.state ≡ kernel_inactive
    → s.scheduler.initialized ≡ false
    → let (s', status) = init_kernel preemptive_sp idle_function idle_name s in
      (status ≡ success)
      × (s'.kernel.state ≡ kernel_ready)
      × (s'.pool.state 0 ≡ ready)
      × (s'.pool.task_function 0 ≡ some idle_function)
      × Holds s' (update (λ t. nowhere) 0 (in_ready 0)) (update (λ p. []) 0 (0 ∷ [])) []
unfolding fill_task
init_kernel-Holds idle_function idle_name s inactive fresh =
    rw (init_kernel-finished idle_function idle_name s inactive fresh) (
      refl,
      refl,
      ap (λ f. f 0) (add_to_ready_list-state 0 before),
      ap (λ v. v.task_function 0) (view-add_to_ready_list 0 before),
      Holds-finished (Scheduler.add_to_ready_list 0 before) place' ready' [] (
          subst (λ x. Holds x place' ready' []) (sym (add_to_ready_list-started 0 before refl))
            (add_to_ready_list-Holds 0 before (λ t. nowhere) (λ p. []) []
              (idle_filled-Holds idle_function idle_name s) (omega arith) (omega arith) refl)),
    )
  where
    before : Sys
    before = idle_filled idle_function idle_name s

    place' : ℕ → Place
    place' = update (λ t. nowhere) 0 (in_ready 0)

    ready' : ℕ → List ℕ
    ready' = update (λ p. []) 0 (0 ∷ [])
