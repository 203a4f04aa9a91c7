-- ===== src/Task/Creation/Created.antt =====
-- What `rtos_task_create` leaves.
use vrtos.Base.{
  ℕ, ◌+◌, ◌%◌, ◌≤◌, ◌<◌, ◌≡◌, refl, ◌∙◌, ap, ap₂, false, Option, some, arith, ltb, leb, update_self,
  add32, Bool-cases, inl, inr, none, ◌^◌,
}
use vrtos.State.{Sys, success, ready, max_tasks, max_task_priorities, total_heap_size}
use vrtos.Memory.{align8_up, malloc}
use vrtos.Scheduler
use vrtos.Scheduler.Frame.{view, view-add_to_ready_list, add_to_ready_list-state}
use vrtos.Task.Stack.{align8_down, allocate_stack, top_of, check_stack, has_overflowed}
use vrtos.Task.Stack.Frame.{init_task_stack-canary}
use vrtos.Task.Creation.{
  allocate_tcb, effective_stack_size, fill_task, with_stack, create_in, checked, create,
}

-- A size is rounded up to a multiple of 8, in 16 bits; one of up to 65528 bytes is raised to 256 bytes at least.
effective_stack_size-even : (n : ℕ) → effective_stack_size n % 8 ≡ 0
unfolding effective_stack_size
effective_stack_size-even n = ground arith

effective_stack_size-bounds :
    (n : ℕ)
    → n ≤ 65528
    → (256 ≤ effective_stack_size n)
      × (effective_stack_size n ≤ 65528)
      × (n ≤ effective_stack_size n)
unfolding effective_stack_size
effective_stack_size-bounds n small = (ground arith, ground arith, ground arith)

-- There is room for a block of `size` bytes.
abbrev pub HasRoom : ℕ → Sys → Type 0
HasRoom size s = ltb total_heap_size (add32 s.heap_index (align8_up size)) ≡ false

-- The top of the next block, of `size` bytes.
abbrev pub next_top : ℕ → Sys → ℕ
next_top size s = align8_down (s.heap_base + s.heap_index + size)

abbrev pub allocated : ℕ → Sys → Sys
allocated size s = record s { heap_index = add32 s.heap_index (align8_up size) }

allocate_stack-top :
    (size : ℕ) (s : Sys)
    → HasRoom size s
    → allocate_stack size s ≡ (allocated size s, some (next_top size s))
unfolding allocate_stack malloc top_of
allocate_stack-top size s room = rw room refl

-- The state before a new task goes to its ready list.
abbrev pub filled : ℕ → ℕ → ℕ → ℕ → ℕ → Option ℕ → Sys → Sys
filled t task_function size parameter priority name s =
    fill_task t task_function name size parameter priority (next_top size s) (allocated size s)

pub create-filled :
    (t task_function stack_size parameter priority : ℕ) (name : Option ℕ) (s : Sys)
    → priority < max_task_priorities
    → s.task_count < max_tasks
    → allocate_tcb s ≡ some t
    → HasRoom (effective_stack_size stack_size) s
    → let s' =
        Scheduler.add_to_ready_list t
          (filled t task_function (effective_stack_size stack_size) parameter priority name s) in
      create false (some task_function) name stack_size parameter priority s
      ≡ (record s' { task_count = (s'.task_count + 1) % 256 }, success, some t)
unfolding create checked create_in with_stack
create-filled t task_function stack_size parameter priority name s low few free room =
    rw (leb_low, leb_few)
      (ap (λ p. create_in p task_function name size parameter priority s) free
        ∙ ap (with_stack t task_function name size parameter priority)
            (allocate_stack-top size s room))
  where
    size : ℕ
    size = effective_stack_size stack_size

    leb_low : leb max_task_priorities priority ≡ false
    leb_low = ground arith

    leb_few : leb max_tasks s.task_count ≡ false
    leb_few = ground arith

-- What a call that succeeds has found.
pub record Fits (size : ℕ) (s : Sys) (place : Option ℕ) : Type 0 where
  pub task : ℕ
  pub free : place ≡ some task
  pub room : HasRoom size s

create_in-Fits :
    (place : Option ℕ) (task_function size parameter priority : ℕ) (name : Option ℕ) (s : Sys)
    → (create_in place task_function name size parameter priority s).1 ≡ success
    → Fits size s place
unfolding create_in with_stack allocate_stack malloc top_of
create_in-Fits none task_function size parameter priority name s ok = cc
create_in-Fits (some t) task_function size parameter priority name s ok =
    elim (Bool-cases (ltb total_heap_size (add32 s.heap_index (align8_up size)))) [
      | inl full ↦ cc (rw full at ok)
      | inr room ↦ record { task = t; free = refl; room = room }
    ]

pub create-success :
    (task_function stack_size parameter priority : ℕ) (name : Option ℕ) (s : Sys)
    → (create false (some task_function) name stack_size parameter priority s).1 ≡ success
    → (priority < max_task_priorities)
      × (s.task_count < max_tasks)
      × Fits (effective_stack_size stack_size) s (allocate_tcb s)
unfolding create checked
create-success task_function stack_size parameter priority name s ok =
    elim (Bool-cases (leb max_task_priorities priority)) [
      | inl high ↦ cc (rw high at ok)
      | inr low ↦ elim (Bool-cases (leb max_tasks s.task_count)) [
        | inl many ↦ cc (rw (low, many) at ok)
        | inr few ↦ (
          ground arith,
          ground arith,
          create_in-Fits (allocate_tcb s) task_function (effective_stack_size stack_size) parameter
              priority name s (rw (low, few) at ok),
        )
      ]
    ]

-- Creating a task with a place to write its handle to, a function, a priority below 8 and a stack of at most 65528
-- bytes, with fewer than 10 tasks, a free place `t` in the pool and room in the heap, whose index is a
-- multiple of 8 and which ends below 2^32: the call succeeds. The task `t` is READY, with this function
-- and priority; its stack is the next block of the heap, of at least the size that is asked for and
-- at least 256 bytes; the canary is written where the block ends, that address rounded down to a
-- multiple of 8; and the check of its stack passes.
pub create-Created :
    (t task_function stack_size parameter priority : ℕ) (name : Option ℕ) (s : Sys)
    → stack_size ≤ 65528
    → priority < max_task_priorities
    → s.task_count < max_tasks
    → allocate_tcb s ≡ some t
    → s.heap_index % 8 ≡ 0
    → s.heap_index + effective_stack_size stack_size ≤ total_heap_size
    → s.heap_base + total_heap_size < 2 ^ 32
    → let (s', status, handle) =
        create false (some task_function) name stack_size parameter priority s in
      (status ≡ success)
      × (handle ≡ some t)
      × (s'.pool.state t ≡ ready)
      × (s'.pool.task_function t ≡ some task_function)
      × (s'.pool.priority t ≡ priority)
      × (s'.heap_index ≡ s.heap_index + effective_stack_size stack_size)
      × (stack_size ≤ effective_stack_size stack_size)
      × (256 ≤ effective_stack_size stack_size)
      × (s'.pool.stack_base t ≡ some (align8_down (s.heap_base + s'.heap_index)))
      × (check_stack (some t) s' ≡ false)
unfolding fill_task check_stack align8_up
create-Created t task_function stack_size parameter priority name s short low few free aligned fits
      below =
    rw (create-filled t task_function stack_size parameter priority name s low few free room) (
      refl,
      refl,
      ap (λ f. f t) (add_to_ready_list-state t before) ∙ update_self s.pool.state t ready,
      ap (λ v. v.task_function t) same ∙ update_self s.pool.task_function t (some task_function),
      ap (λ v. v.priority t) same ∙ update_self s.pool.priority t priority,
      index,
      sizes.2,
      sizes.0,
      base ∙ ap (λ n. some (align8_down n)) end,
      ap₂ has_overflowed base (ap (λ v. v.bytes) same)
          ∙ init_task_stack-canary top task_function parameter s.bytes (omega arith)
              (omega (arith, sizes.0)) (omega (arith, fits, below)),
    )
  where
    size : ℕ
    size = effective_stack_size stack_size

    sizes : (256 ≤ size) × (size ≤ 65528) × (stack_size ≤ size)
    sizes = effective_stack_size-bounds stack_size short

    top : ℕ
    top = next_top size s

    sum : add32 s.heap_index (align8_up size) ≡ s.heap_index + size
    sum = let even = effective_stack_size-even stack_size in omega (arith, fits, even)

    room : HasRoom size s
    room = ground (arith, sum, fits)

    before : Sys
    before = filled t task_function size parameter priority name s

    s' : Sys
    s' = Scheduler.add_to_ready_list t before

    same : view s' ≡ view before
    same = view-add_to_ready_list t before

    index : s'.heap_index ≡ s.heap_index + size
    index = ap (λ v. v.heap_index) same ∙ sum

    end : s.heap_base + s.heap_index + size ≡ s.heap_base + s'.heap_index
    end = omega (arith, index)

    base : s'.pool.stack_base t ≡ some top
    base = ap (λ v. v.stack_base t) same ∙ update_self s.pool.stack_base t (some top)
