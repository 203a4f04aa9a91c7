-- ===== src/Task/Creation/Waiting.antt =====
-- The kernel before `rtos_start_scheduler`: `rtos_init` and `rtos_task_create` on the state that waits for
-- the start.
use vrtos.Base.{
  ℕ, ◌+◌, ◌%◌, ◌<◌, ◌≡◌, inl, inr, refl, sym, ◌∙◌, ap, subst, true, false, Option, none, some, List,
  [], ◌∷◌, ◌++◌, arith, ◌==◌, if◌then◌else◌, is_null, update, update_self, Bool-cases, ==-eq,
  has_bit-zero,
}
use vrtos.State.{
  Sys, KernelState, ready, kernel_ready, kernel_inactive, preemptive_sp, max_tasks,
  max_task_priorities, max_tasks, success,
}
use vrtos.Memory
use vrtos.Scheduler
use vrtos.Scheduler.{active}
use vrtos.Scheduler.PreemptiveSp
use vrtos.Scheduler.PreemptiveSp.Lists.{Holds, Place, nowhere, in_ready}
use vrtos.Kernel.Switch.{Holds-same, add_by_preemptive}
use vrtos.Kernel.Seen.{
  seen, seen-add_to_ready_list, state-add_to_ready_list, kernel-add_to_ready_list,
}
use vrtos.Kernel.Tracking.{Tracked, Tracked-fields}
use vrtos.Kernel.Validity.{IsTask, Valid}
use vrtos.Task.Creation.{
  create, init_kernel, init_system, reset_kernel, allocate_tcb, effective_stack_size, fill_task,
}
use vrtos.Task.Creation.Created.{filled, Fits, create-filled, create-success}
use vrtos.Task.Creation.Filled.{allocate_tcb-lt, added-Holds, added-Tracked}
use vrtos.Task.Creation.Start.{prepared, idle_filled, init_kernel-finished}

-- Every task is READY and in the list of its priority, and none is delayed.
pub record Filling (s : Sys) (place : ℕ → Place) (lists : ℕ → List ℕ) : Type 0 where
  pub chosen : active s ≡ some preemptive_sp
  pub small : (t : ℕ) → IsTask s t → t < max_tasks
  pub in_range : (t : ℕ) → IsTask s t → s.pool.priority t < max_task_priorities
  pub holds : Holds s place lists []
  pub clock : s.kernel.tick_count ≡ 0
  pub tracked : Tracked s.pool.task_function s.pool.priority s.pool.state place lists []
  pub all_ready : (t : ℕ) → IsTask s t → s.pool.state t ≡ ready

-- The kernel is READY to start, with an idle task.
pub record Waiting (idle : ℕ) (s : Sys) : Type 0 where
  pub place : ℕ → Place
  pub lists : ℕ → List ℕ
  pub filling : Filling s place lists
  pub off : s.kernel.state ≡ kernel_ready
  pub idle_is : IsTask s idle

pub Waiting-Valid :
    {idle : ℕ} (s : Sys) (w : Waiting idle s) → Valid idle s w.place w.lists [] (λ t. 0) 0
Waiting-Valid s w = record {
  steady = record {
    chosen = w.filling.chosen;
    small = w.filling.small;
    in_range = w.filling.in_range;
    idle_is = w.idle_is;
  };
  holds = w.filling.holds;
  timed = record { tick = w.filling.clock; near = tt; sorted = tt };
  ahead = λ t at. absurd (no_member (w.filling.tracked.in_the_delayed t at));
  tracked = w.filling.tracked;
}
  where
    no_member : false ≡ true → ⊥
    no_member e = cc

module _ (t task_function size parameter priority : ℕ) (name : Option ℕ) (s : Sys)
    (place : ℕ → Place) (lists : ℕ → List ℕ) (w : Filling s place lists) (small : t < max_tasks)
    (low : priority < max_task_priorities) (unused : is_null (s.pool.task_function t) ≡ true) where
  abbrev entered : Sys
  entered = filled t task_function size parameter priority name s

  abbrev added : Sys
  added = PreemptiveSp.add_to_ready_list t entered

  same : seen added ≡ seen entered
  same = seen-add_to_ready_list t entered

  function_is : added.pool.task_function ≡ update s.pool.task_function t (some task_function)
  unfolding fill_task
  function_is = ap (λ o. o.task_function) same

  priority_is : added.pool.priority ≡ update s.pool.priority t priority
  unfolding fill_task
  priority_is = ap (λ o. o.priority) same

  state_is : added.pool.state ≡ update s.pool.state t ready
  unfolding fill_task
  state_is = state-add_to_ready_list t entered

  -- A task is the new one or was one before.
  old_task : (x : ℕ) → (x == t) ≡ false → IsTask added x → IsTask s x
  old_task x e is = sym (ap (λ f. is_null (f x)) function_is ∙ rw e refl) ∙ is

  kept_task : (x : ℕ) → IsTask s x → IsTask added x
  kept_task x is = elim (Bool-cases (x == t)) [
    | inl e ↦ ap (λ f. is_null (f x)) function_is ∙ rw e refl
    | inr e ↦ ap (λ f. is_null (f x)) function_is ∙ rw e is
  ]

  new_task : IsTask added t
  new_task =
      ap (λ f. is_null (f t)) function_is
      ∙ ap (λ o. is_null o) (update_self s.pool.task_function t (some task_function))

  added-Filling :
      Filling added
        (update place t (in_ready priority))
        (update lists priority (lists priority ++ t ∷ []))
  unfolding fill_task
  added-Filling = record {
    chosen = ap (λ o. if o.scheduler.initialized then o.scheduler.vtable else none) same ∙ w.chosen;
    small = λ x is. elim (Bool-cases (x == t)) [
      | inl e ↦ rw (==-eq x t e) small
      | inr e ↦ w.small x (old_task x e is)
    ];
    in_range = λ x is.
        subst (λ (f : ℕ → ℕ). f x < max_task_priorities) (sym priority_is)
          (elim (Bool-cases (x == t)) [
            | inl e ↦ rw e low
            | inr e ↦ rw e (w.in_range x (old_task x e is))
          ]);
    holds =
        added-Holds t task_function size parameter priority name s place lists []
          (w.tracked.free t unused) small low w.holds;
    clock = ap (λ k. k.tick_count) (kernel-add_to_ready_list t entered) ∙ w.clock;
    tracked = Tracked-fields _ _ _ _ _ _ function_is priority_is state_is (
        added-Tracked t task_function size parameter priority name s place lists [] unused
          w.tracked);
    all_ready = λ x is. ap (λ f. f x) state_is ∙ (elim (Bool-cases (x == t)) [
      | inl e ↦ rw e refl
      | inr e ↦ rw e (w.all_ready x (old_task x e is))
    ]);
  }

-- The number of tasks and the state of the kernel are of no concern to the tasks.
abbrev with_count : ℕ → KernelState → Sys → Sys
with_count n k s = record s { task_count = n; kernel = record s.kernel { state = k } }

Filling-count :
    {place : ℕ → Place} {lists : ℕ → List ℕ} (n : ℕ) (k : KernelState) (s : Sys)
    → Filling s place lists
    → Filling (with_count n k s) place lists
Filling-count {place} {lists} n k s f = record {
  chosen = f.chosen;
  small = f.small;
  in_range = f.in_range;
  holds = Holds-same s (with_count n k s) place lists [] refl refl refl refl f.holds;
  clock = f.clock;
  tracked = f.tracked;
  all_ready = f.all_ready;
}

-- Creating a task, with success, keeps the kernel waiting for its start.
pub create-Waiting :
    (idle task_function stack_size parameter priority : ℕ) (name : Option ℕ) (s : Sys)
    → Waiting idle s
    → (create false (some task_function) name stack_size parameter priority s).1 ≡ success
    → Waiting idle (create false (some task_function) name stack_size parameter priority s).0
unfolding fill_task
create-Waiting idle task_function stack_size parameter priority name s w ok =
    rw
      (create-filled t task_function stack_size parameter priority name s low found.1 free fit.room)
      (rw by (record {
        place = _;
        lists = _;
        filling = Filling-count ((added₁.task_count + 1) % 256) added₁.kernel.state added₁ (
            added-Filling t task_function size parameter priority name s w.place w.lists w.filling
              (allocate_tcb-lt t s free).0 low (allocate_tcb-lt t s free).1);
        off = ap (λ k. k.state) (kernel-add_to_ready_list t entered₁) ∙ w.off;
        idle_is =
            kept_task t task_function size parameter priority name s w.place w.lists w.filling
              (allocate_tcb-lt t s free).0 low (allocate_tcb-lt t s free).1 idle w.idle_is;
      }))
  where
    found :
        (priority < max_task_priorities)
        × (s.task_count < max_tasks)
        × Fits (effective_stack_size stack_size) s (allocate_tcb s)
    found = create-success task_function stack_size parameter priority name s ok

    low : priority < max_task_priorities
    low = found.0

    fit : Fits (effective_stack_size stack_size) s (allocate_tcb s)
    fit = found.2

    t : ℕ
    t = fit.task

    free : allocate_tcb s ≡ some t
    free = fit.free

    size : ℕ
    size = effective_stack_size stack_size

    entered₁ : Sys
    entered₁ = filled t task_function size parameter priority name s

    added₁ : Sys
    added₁ = PreemptiveSp.add_to_ready_list t entered₁

    by : Scheduler.add_to_ready_list t entered₁ ≡ PreemptiveSp.add_to_ready_list t entered₁
    by = add_by_preemptive t entered₁ w.filling.chosen

-- Before the idle task, there is none.
prepared-unused : (s : Sys) → is_null ((prepared s).pool.task_function 0) ≡ true
unfolding init_system
prepared-unused s = refl

prepared-Filling : (s : Sys) → Filling (prepared s) (λ t. nowhere) (λ p. [])
unfolding init_system Memory.init reset_kernel
prepared-Filling s = record {
  chosen = refl;
  small = λ t is. cc;
  in_range = λ t is. cc;
  holds = record {
    ready_list = λ p lt. record { chain = refl; back = tt; distinct = tt; small = tt };
    delayed_list = record { chain = refl; back = tt; distinct = tt; small = tt };
    ready_place = λ p. tt;
    delayed_place = tt;
    ready_priority = λ p. tt;
    map_small = omega arith;
    map = λ p lt. has_bit-zero p lt;
  };
  clock = refl;
  tracked = record {
    agrees = λ t is. cc;
    free = λ t null. refl;
    in_its_list = λ t p at. cc;
    in_the_delayed = λ t at. cc;
  };
  all_ready = λ t is. cc;
}

-- With the preemptive scheduler and from the state before any start, `rtos_init` leaves a kernel that waits
-- for its start, with task 0 as the idle task.
pub init_kernel-Waiting :
    (idle_function : ℕ) (idle_name : Option ℕ) (s : Sys)
    → s.kernel.state ≡ kernel_inactive
    → s.scheduler.initialized ≡ false
    → Waiting 0 (init_kernel preemptive_sp idle_function idle_name s).0
unfolding fill_task
init_kernel-Waiting idle_function idle_name s inactive fresh =
    rw (init_kernel-finished idle_function idle_name s inactive fresh) (
      rw by (record {
        place = _;
        lists = _;
        filling = Filling-count ((added₁.task_count + 1) % 256) kernel_ready added₁ (
            added-Filling 0 idle_function (effective_stack_size 0) 0 0 idle_name (prepared s)
              (λ t. nowhere) (λ p. []) (prepared-Filling s) (omega arith) (omega arith)
              (prepared-unused s));
        off = refl;
        idle_is =
            new_task 0 idle_function (effective_stack_size 0) 0 0 idle_name (prepared s)
              (λ t. nowhere) (λ p. []) (prepared-Filling s) (omega arith) (omega arith)
              (prepared-unused s);
      }))
  where
    entered₁ : Sys
    entered₁ = idle_filled idle_function idle_name s

    added₁ : Sys
    added₁ = PreemptiveSp.add_to_ready_list 0 entered₁

    by : Scheduler.add_to_ready_list 0 entered₁ ≡ added₁
    by = add_by_preemptive 0 entered₁ refl
