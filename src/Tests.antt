-- ===== src/Tests.antt =====
-- A small system to try the theorems on: ten tasks, task `t` with priority `t / 2`, in no list and
-- waiting for nothing.
pub mod Running
pub mod Logs
pub mod Scheduling
pub mod Turns
pub mod Waiting
pub mod Locking
pub mod Heap
pub mod Messages
pub mod Events
pub mod Tasks
use vrtos.Base.{
  ℕ, ◌+◌, ◌/◌, ◌%◌, ◌<◌, ◌≡◌, refl, arith, Bool, true, false, Option, none, some, List, [], ◌∷◌,
  has_bit, has_bit-zero,
}
use vrtos.State.{Sys, ready, running, sync_none, kernel_running, preemptive_sp, max_task_priorities}
use vrtos.Scheduler.PreemptiveSp.Lists.{Holds, Place, nowhere}

abbrev pub blank : Sys
blank = record {
  pool = record {
    task_function = λ _. some 0;
    name = λ _. none;
    state = λ _. running;
    priority = λ t. t / 2;
    base_priority = λ t. t / 2;
    delay_until = λ _. 0;
    next = λ _. none;
    prev = λ _. none;
    next_waiting = λ _. none;
    blocked_on = λ _. none;
    blocked_on_type = λ _. sync_none;
    held_mutex_list = λ _. none;
    notification_value = λ _. 0;
    notification_pending = λ _. 0;
    event_wait_bits = λ _. 0;
    event_wait_all = λ _. false;
    event_clear_on_exit = λ _. false;
    ready_timestamp = λ _. 0;
    task_id = λ t. t;
    parameter = λ _. 0;
    stack_pointer = λ _. 0;
    stack_base = λ _. none;
    stack_top = λ _. 0;
    stack_size = λ _. 0;
    time_slice_remaining = λ _. 0;
  };
  kernel = record {
    current_task = some 5;
    next_task = none;
    state = kernel_running;
    tick_count = 0;
    scheduler_suspended = 0;
  };
  preemptive = record { ready_lists = λ _. none; delayed_list = none; ready_priorities = 0 };
  rr = record {
    ready_list = none;
    ready_list_tail = none;
    delayed_list = none;
    current_task = none;
    slice_remaining = 1;
    ready_count = 0;
    delayed_count = 0;
  };
  coop = record { ready_list = none; delayed_list = none; ready_count = 0; delayed_count = 0 };
  scheduler = record {
    vtable = some preemptive_sp;
    type = preemptive_sp;
    private_data = some preemptive_sp;
    initialized = true;
  };
  mutexes = record {
    owner = λ _. none;
    waiting_list = λ _. none;
    next_held = λ _. none;
    lock_count = λ _. 0;
  };
  semaphores = record { count = λ _. 0; max_count = λ _. 2; waiting_list = λ _. none };
  event_groups = record { bits = λ _. 0; waiting_list = λ _. none };
  queues = record {
    buffer = λ _. 0;
    read_ptr = λ _. 0;
    write_ptr = λ _. 0;
    item_size = λ _. 4;
    length = λ _. 2;
    count = λ _. 0;
    sender_wait_list = λ _. none;
    receiver_wait_list = λ _. none;
  };
  timers = record {
    name = λ _. none;
    period = λ _. 4;
    expiry_time = λ _. 0;
    auto_reload = λ _. false;
    callback = λ _. some 0;
    parameter = λ _. 0;
    active = λ _. false;
    next = λ _. none;
    active_timers = none;
  };
  task_count = 0;
  bytes = λ _. 0;
  cycles = 0;
  pendsv = false;
  idle_task_cache = none;
  heap_base = 536870916;
  heap_index = 0;
}

abbrev pub nobody : ℕ → Place
nobody t = nowhere

abbrev pub no_lists : ℕ → List ℕ
no_lists p = []

-- No list holds a task.
pub blank-Holds : Holds blank nobody no_lists []
blank-Holds = record {
  ready_list = λ p lt. record { chain = refl; back = tt; distinct = tt; small = tt };
  delayed_list = record { chain = refl; back = tt; distinct = tt; small = tt };
  ready_place = λ p. tt;
  delayed_place = tt;
  ready_priority = λ p. tt;
  map_small = omega arith;
  map = λ p lt. has_bit-zero p lt;
}
