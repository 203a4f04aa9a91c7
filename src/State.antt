-- ===== src/State.antt =====
-- The state of the kernel: the globals of src/, and the structures that they point to.
--
-- A pool of structures is kept field by field: `pool.next t` is `g_task_pool[t].next`, and a write
-- to a field of one task changes that function at one address. A pointer is an `Option ℕ`, with
-- `none` for NULL; a task's address is its index in `g_task_pool`, and a mutex, a semaphore, a queue
-- and an event group have addresses of their own kind.
--
-- Covered here: include/rtos_types.h, src/task/task_priv.h, src/core/kernel_priv.h, the private data
-- of the schedulers, and the structures of include/mutex.h, semaphore.h, event_group.h,
-- src/sync/queue/queue_priv.h and src/timer/timer_priv.h.
pub mod Setters
use vrtos.Base.{ℕ, ◌^◌, ◌-◌, Bool, true, false, Option, none, some}

-- The board's configuration (config/stm32f446re/rtos_config.h, include/config.h).
abbrev pub max_tasks : ℕ
max_tasks = 10

abbrev pub max_task_priorities : ℕ
max_task_priorities = 8

abbrev pub idle_task_priority : ℕ
idle_task_priority = 0

abbrev pub total_heap_size : ℕ
total_heap_size = 8192

abbrev pub time_slice_ticks : ℕ
time_slice_ticks = 1

abbrev pub default_task_stack_size : ℕ
default_task_stack_size = 768

abbrev pub minimum_task_stack_size : ℕ
minimum_task_stack_size = 256

-- `(rtos_tick_t) -1`: wait for ever.
abbrev pub max_delay : ℕ
max_delay = 2 ^ 32 - 1

pub data Status : Type 0 where
  success invalid_param no_memory task_not_found invalid_state timeout full empty general : Status

pub data TaskState : Type 0 where
  ready running blocked suspended deleted : TaskState

pub data KernelState : Type 0 where
  kernel_inactive kernel_ready kernel_running kernel_suspended : KernelState

pub data SyncType : Type 0 where
  sync_none sync_mutex sync_semaphore sync_queue sync_notification sync_event_group : SyncType

pub data SchedulerType : Type 0 where
  preemptive_sp cooperative round_robin : SchedulerType

-- What `blocked_on`, a `void *`, can point to.
pub data Object : Type 0 where
  task mutex semaphore queue event_group : ℕ → Object

pub record Pool : Type 0 where
  pub task_function : ℕ → Option ℕ
  pub name : ℕ → Option ℕ
  pub state : ℕ → TaskState
  pub priority : ℕ → ℕ
  pub base_priority : ℕ → ℕ
  pub delay_until : ℕ → ℕ
  pub next : ℕ → Option ℕ
  pub prev : ℕ → Option ℕ
  pub next_waiting : ℕ → Option ℕ
  pub blocked_on : ℕ → Option Object
  pub blocked_on_type : ℕ → SyncType
  pub held_mutex_list : ℕ → Option ℕ
  pub notification_value : ℕ → ℕ
  pub notification_pending : ℕ → ℕ
  pub event_wait_bits : ℕ → ℕ
  pub event_wait_all : ℕ → Bool
  pub event_clear_on_exit : ℕ → Bool
  pub ready_timestamp : ℕ → ℕ
  pub task_id : ℕ → ℕ
  pub parameter : ℕ → ℕ
  pub stack_pointer : ℕ → ℕ
  pub stack_base : ℕ → Option ℕ
  pub stack_top : ℕ → ℕ
  pub stack_size : ℕ → ℕ
  pub time_slice_remaining : ℕ → ℕ

pub record Kernel : Type 0 where
  pub current_task : Option ℕ
  pub next_task : Option ℕ
  pub state : KernelState
  pub tick_count : ℕ
  pub scheduler_suspended : ℕ

pub record PreemptiveData : Type 0 where
  pub ready_lists : ℕ → Option ℕ
  pub delayed_list : Option ℕ
  pub ready_priorities : ℕ

pub record RoundRobinData : Type 0 where
  pub ready_list : Option ℕ
  pub ready_list_tail : Option ℕ
  pub delayed_list : Option ℕ
  pub current_task : Option ℕ
  pub slice_remaining : ℕ
  pub ready_count : ℕ
  pub delayed_count : ℕ

pub record CooperativeData : Type 0 where
  pub ready_list : Option ℕ
  pub delayed_list : Option ℕ
  pub ready_count : ℕ
  pub delayed_count : ℕ

pub record Instance : Type 0 where
  pub vtable : Option SchedulerType
  pub type : SchedulerType
  pub private_data : Option SchedulerType
  pub initialized : Bool

pub record Mutexes : Type 0 where
  pub owner : ℕ → Option ℕ
  pub waiting_list : ℕ → Option ℕ
  pub next_held : ℕ → Option ℕ
  pub lock_count : ℕ → ℕ

pub record Semaphores : Type 0 where
  pub count : ℕ → ℕ
  pub max_count : ℕ → ℕ
  pub waiting_list : ℕ → Option ℕ

pub record EventGroups : Type 0 where
  pub bits : ℕ → ℕ
  pub waiting_list : ℕ → Option ℕ

-- `buffer`, `read_ptr` and `write_ptr` are addresses of bytes.
pub record Queues : Type 0 where
  pub buffer : ℕ → ℕ
  pub read_ptr : ℕ → ℕ
  pub write_ptr : ℕ → ℕ
  pub item_size : ℕ → ℕ
  pub length : ℕ → ℕ
  pub count : ℕ → ℕ
  pub sender_wait_list : ℕ → Option ℕ
  pub receiver_wait_list : ℕ → Option ℕ

-- The software timers; `auto_reload` is the mode.
pub record Timers : Type 0 where
  pub name : ℕ → Option ℕ
  pub period : ℕ → ℕ
  pub expiry_time : ℕ → ℕ
  pub auto_reload : ℕ → Bool
  pub callback : ℕ → Option ℕ
  pub parameter : ℕ → ℕ
  pub active : ℕ → Bool
  pub next : ℕ → Option ℕ
  pub active_timers : Option ℕ

-- `cycles` is what DWT->CYCCNT reads, `pendsv` the PENDSVSET bit that `rtos_port_yield` sets, and
-- `bytes` the memory that the queues' buffers lie in; `heap_index` is src/core/memory.c's, and
-- `heap_base` the address that the linker gives to `g_heap_memory`.
pub record Sys : Type 0 where
  pub pool : Pool
  pub kernel : Kernel
  pub preemptive : PreemptiveData
  pub rr : RoundRobinData
  pub coop : CooperativeData
  pub scheduler : Instance
  pub mutexes : Mutexes
  pub semaphores : Semaphores
  pub event_groups : EventGroups
  pub queues : Queues
  pub timers : Timers
  pub task_count : ℕ
  pub bytes : ℕ → ℕ
  pub cycles : ℕ
  pub pendsv : Bool
  pub idle_task_cache : Option ℕ
  pub heap_base : ℕ
  pub heap_index : ℕ
