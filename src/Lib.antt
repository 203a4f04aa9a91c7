-- ===== src/Lib.antt =====
-- VRTOS: a real-time kernel for one core (an ARM Cortex-M4), with a choice of three schedulers and
-- the usual objects that tasks synchronise by.
--
-- The parts, and where they are modelled:
--
-- - include/rtos_types.h, src/task/task_priv.h, src/core/kernel_priv.h and the structures of the
--   objects: State. The globals of the C code are one record, `Sys`, and a function that changes them
--   is a function on `Sys`. A pool of structures is kept field by field, and a pointer is an
--   `Option ℕ`, with `none` for NULL.
-- - src/scheduler/scheduler.c: Scheduler, the calls that go through the table of the chosen
--   scheduler. src/scheduler/scheduler_types/preemptive_sp.c, round_robin.c and cooperative.c:
--   Scheduler/PreemptiveSp, Scheduler/RoundRobin and Scheduler/Cooperative. A function of the C code
--   `preemptive_sp_add_to_ready_list_internal` is `Scheduler.PreemptiveSp.add_to_ready_list`, and so
--   on. Scheduler/Frame says what the calls leave alone.
-- - src/core/kernel.c: Kernel. `rtos_kernel_task_ready` is `task_ready`, `rtos_delay_ticks` is
--   `delay_ticks`, and so on. The tick and the switch of tasks are steps of their own: `rtos_yield`
--   sets the PENDSVSET bit, and the exception that it raises runs `switch_context`.
-- - src/core/memory.c: Memory. An address counts from `heap_base`, where the linker puts the heap.
-- - src/sync/semaphore/semaphore.c: Sync/Semaphore; src/sync/mutex/mutex.c: Sync/Mutex;
--   src/sync/queue/queue.c: Sync/Queue; src/sync/event_group/event_group.c: Sync/EventGroup;
--   src/task/task_notify.c: Sync/Notify. What all objects share, the list of waiting tasks and the way
--   to block, is Sync/WaitList and Sync/Blocking. A call that blocks is two functions, the one up to
--   the point where the task yields, and the rest of it, when the task runs again (`wait_resume`,
--   `send_resume`, and so on).
-- - src/task/task.c: Task, with `create`, `suspend`, `resume`, `delete` and the look-ups, and with
--   `rtos_init` of src/core/kernel.c as `init_kernel` and `rtos_port_init_task_stack` of
--   src/port/cortex_m4/port.c as `init_task_stack`. A stack lies in the bytes of the heap.
-- - src/timer/timer.c and timer_list.c: Timer. The callbacks of the application are a parameter.
-- - src/utils/ring_buffer.c: Utils/RingBuffer. What klog.c and prof_trace.c do with it alike, records of
--   a fixed size and the loop that takes them out, is Logging/Records.
-- - src/logging/klog.c: Logging/Klog. src/logging/uart_tx.c: Logging/UartTx, where `_write` goes in
--   steps between which the interrupt may run, and the hardware is its status bits and the bytes that
--   its data register gets.
-- - src/profiling/profiling.c: Profiling; prof_trace.c: Profiling/Trace.
-- - The critical sections of src/port/cortex_m4/port.c: Port.
-- - System puts Task and Kernel together: from `rtos_init` and the calls that create tasks over the start
--   of the scheduler to any sequence of ticks, switches and calls. The invariant that these steps are
--   about is in Kernel/Tracking, Seen and Validity; Dispatch, Keeping, Turn, Changes, Readying, Begin, Clock,
--   Awaking, Tick and Elapse of Kernel treat one handler each, Task/Life/Suspension the calls of task.c,
--   and Task/Creation/Waiting the state before the start. Timer/Quiet has the tick of the timers as the
--   part that it is of the tick handler.
-- - Base holds what the parts share: Boolean tests and pools (Tests), lists (Lists, Members), linked
--   lists through a link field (Chains, Splices, DoublyLinked, Loops), sorted lists (Sorted), bits of a byte
--   (Bits), masks as remainders (Masks), bytes of memory (Bytes) and the tick counter modulo
--   2^32 (Ticks).
--
-- Bounds: the configuration is that of config/stm32f446re/rtos_config.h, with ten tasks, eight
-- priorities and a heap of 8192 bytes. A tick is a number modulo 2^32. The loops that follow a linked
-- list run on fuel 10, the number of tasks: a list of distinct tasks is no longer. The walk along the
-- owners of mutexes takes 16 steps, as in the source; the loops over the mutexes that a task holds take
-- their fuel as an argument. The lists of timers run on fuel 256, as many timers as the heap has room
-- for; the loop that reloads a timer on 2^31 rounds, more than there are periods of one tick between
-- two times that the signed comparison can tell apart; the loop of the timer tick on the fuel that it is
-- given, for a callback may start timers without end. The log keeps 127 records of 16 bytes; the loop
-- that empties the ring of the UART takes fuel too, and 511 rounds are the bytes that the ring has room
-- for.
--
-- A function but `_write` is one step, although its critical section does not always hold all of it: a wait leaves
-- the section before it calls `rtos_kernel_task_block`, `rtos_event_group_set_bits` wakes the tasks that it
-- has taken out one by one after its section, and a snapshot tests the count before its own. What an
-- interrupt could do in between is not modelled. The sections and the counter by which they nest are
-- modelled apart, in Port. The logging calls in the kernel, its profiling hooks but the time stamp, and
-- the assertions are left out. Not modelled: ulog.c and log_flush_task.c, which format text and print
-- it; the printed reports of profiling.c and the statistics of scheduler.c, which nothing in the kernel
-- reads; the rest of the port, in assembly, and the set-up of the hardware; the examples and the tests of
-- the repository. System takes of a wait with a time limit the calls of the kernel that it makes, and
-- leaves out waits without one, changes of priority, deletions, creations after the start and timers
-- whose callbacks touch tasks. Tests holds small systems to evaluate the definitions on.
pub mod Base
pub mod State
pub mod Scheduler
pub mod Kernel
pub mod Memory
pub mod Sync
pub mod Timer
pub mod Task
pub mod Utils
pub mod System
pub mod Logging
pub mod Profiling
pub mod Port
pub mod Tests
