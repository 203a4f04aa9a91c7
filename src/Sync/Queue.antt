-- ===== src/Sync/Queue.antt =====
-- Message queues, src/sync/queue/queue.c: a circular buffer of items of one size, and two lists of
-- waiting tasks. A queue's address, `m`, is that of its structure; items are copied in the memory
-- `bytes`. A call that blocks ends where the task yields, with no status; `send_resume` and
-- `receive_resume` are the rest of it, when the task runs again.
pub mod Slots
pub mod Fifo
pub mod Creation
use vrtos.Base.{
  ℕ, zero, suc, ◌+◌, ◌-◌, ◌*◌, ◌%◌, ◌^◌, Bool, true, false, not, ◌||◌, Option, none, some, ltb, leb,
  ◌==◌, if◌then◌else◌, is_null, ◌▷◌, update, add32, sub32, memcpy,
}
use vrtos.State.{
  Sys, Status, success, invalid_param, invalid_state, no_memory, timeout, full, empty, queue,
  sync_queue, max_tasks,
}
use vrtos.Kernel
use vrtos.Memory
use vrtos.Sync.WaitList
use vrtos.Sync.WaitList.{start_wait}
use vrtos.Sync.Blocking.{block_current, is_blocked_on}

abbrev pub mul32 : ℕ → ℕ → ℕ
mul32 a b = a * b % 2 ^ 32

abbrev pub set_sender_wait_list : ℕ → Option ℕ → Sys → Sys
set_sender_wait_list m v s = record s {
  queues = record s.queues { sender_wait_list = update s.queues.sender_wait_list m v };
}

abbrev pub set_receiver_wait_list : ℕ → Option ℕ → Sys → Sys
set_receiver_wait_list m v s = record s {
  queues = record s.queues { receiver_wait_list = update s.queues.receiver_wait_list m v };
}

-- `queue_add_to_waiting_list`: the list is given by its head, and the new head returned.
unfoldable pub add_to_waiting_list : Option ℕ → ℕ → ℕ → Sys → Sys × Option ℕ
add_to_waiting_list head t m s = WaitList.insert head t (start_wait (queue m) sync_queue t s)

-- `queue_remove_from_waiting_list`
unfoldable pub remove_from_waiting_list : Option ℕ → ℕ → Sys → Sys × Option ℕ
remove_from_waiting_list head t s = WaitList.remove head t s

-- `queue_pop_highest_priority_waiter`
unfoldable pub pop_waiter : Option ℕ → Sys → Sys × Option ℕ × Option ℕ
pop_waiter head s = WaitList.pop head s

-- `rtos_queue_remove_task_from_wait`
unfoldable pub remove_task_from_wait : ℕ → ℕ → Sys → Sys
remove_task_from_wait m t s =
    let (s₁, senders) = remove_from_waiting_list (s.queues.sender_wait_list m) t s in
    let s₂ = set_sender_wait_list m senders s₁ in
    let (s₃, receivers) = remove_from_waiting_list (s₂.queues.receiver_wait_list m) t s₂ in
    set_receiver_wait_list m receivers s₃

-- The fields of a new queue, with its storage at `buffer`.
set_fields : ℕ → ℕ → ℕ → ℕ → Sys → Sys
set_fields m item_count item_size buffer s = record s {
  queues = record {
    buffer = update s.queues.buffer m buffer;
    read_ptr = update s.queues.read_ptr m buffer;
    write_ptr = update s.queues.write_ptr m buffer;
    item_size = update s.queues.item_size m item_size;
    length = update s.queues.length m item_count;
    count = update s.queues.count m 0;
    sender_wait_list = update s.queues.sender_wait_list m none;
    receiver_wait_list = update s.queues.receiver_wait_list m none;
  };
}

-- `buffer` is written before it is looked at.
abbrev pub null_pointer : ℕ
null_pointer = 0

abbrev pub set_buffer : ℕ → ℕ → Sys → Sys
set_buffer m buffer s = record s {
  queues = record s.queues { buffer = update s.queues.buffer m buffer };
}

init_with : ℕ → ℕ → ℕ → Sys × Option ℕ → Sys × Status
init_with m item_count item_size (s, none) = (set_buffer m null_pointer s, no_memory)
init_with m item_count item_size (s, some buffer) =
    (set_fields m item_count item_size buffer s, success)

-- `rtos_queue_init`
unfoldable pub init : ℕ → ℕ → ℕ → Sys → Sys × Status
unfolding init_with set_fields
init m item_count item_size s =
    if item_count == 0 || item_size == 0
    then (s, invalid_param)
    else init_with m item_count item_size (Memory.malloc (mul32 item_count item_size) s)

-- `sizeof(rtos_queue_t)`: eight fields of four bytes.
abbrev pub queue_bytes : ℕ
queue_bytes = 32

handle_of : Status → ℕ → Option ℕ
handle_of success m = some m
handle_of _ m = none

create_with : ℕ → ℕ → Sys × Option ℕ → Sys × Status × Option ℕ
create_with item_count item_size (s, none) = (s, no_memory, none)
create_with item_count item_size (s, some m) =
    let (s', status) = init m item_count item_size s in (s', status, handle_of status m)

-- `rtos_queue_create`: the state, the status, and the handle where there is one.
unfoldable pub create : ℕ → ℕ → Sys → Sys × Status × Option ℕ
unfolding create_with handle_of
create item_count item_size s = create_with item_count item_size (Memory.malloc queue_bytes s)

-- The task that was popped, if any, is woken.
unfoldable pub wake : Sys × Option ℕ → Sys
wake (s, none) = s
wake (s, some t) = Kernel.task_unblock t s

-- The receiver, or the sender, with the highest priority is taken out of its list.
unfoldable pub pop_receiver : ℕ → Sys → Sys × Option ℕ
pop_receiver m s =
    let (s₁, head, waiter) = pop_waiter (s.queues.receiver_wait_list m) s in
    (set_receiver_wait_list m head s₁, waiter)

unfoldable pub pop_sender : ℕ → Sys → Sys × Option ℕ
pop_sender m s =
    let (s₁, head, waiter) = pop_waiter (s.queues.sender_wait_list m) s in
    (set_sender_wait_list m head s₁, waiter)

-- A pointer moves on by one item, and back to the start at the end of the storage.
abbrev pub advance : ℕ → ℕ → Sys → ℕ
advance m ptr s =
    let next = add32 ptr (s.queues.item_size m) in
    let end = add32 (s.queues.buffer m) (mul32 (s.queues.length m) (s.queues.item_size m)) in
    if leb end next then s.queues.buffer m else next

-- `copy_data` of a send: the item is copied in, and a waiting receiver is woken.
unfoldable pub put : ℕ → ℕ → Sys → Sys
put m item_ptr s = record s {
  bytes = memcpy (s.queues.write_ptr m) item_ptr (s.queues.item_size m) s.bytes;
  queues = record s.queues {
    write_ptr = update s.queues.write_ptr m (advance m (s.queues.write_ptr m) s);
    count = update s.queues.count m (add32 (s.queues.count m) 1);
  };
}

unfoldable pub send_copy : ℕ → ℕ → Sys → Sys
send_copy m item_ptr s = wake (pop_receiver m (put m item_ptr s))

send_blocked : ℕ → ℕ → Option ℕ → Sys → Sys × Option Status
send_blocked m timeout_ticks none s = (s, some invalid_state)
send_blocked m timeout_ticks (some t) s =
    let (s₁, head) = add_to_waiting_list (s.queues.sender_wait_list m) t m s in
    (s₁ ▷ set_sender_wait_list m head ▷ block_current t timeout_ticks, none)

-- `rtos_queue_send`, up to the point where the task blocks
unfoldable pub send : ℕ → ℕ → ℕ → Sys → Sys × Option Status
unfolding send_blocked
send m item_ptr timeout_ticks s =
    if ltb (s.queues.count m) (s.queues.length m)
    then (send_copy m item_ptr s, some success)
    else (if timeout_ticks == 0
        then (s, some full)
        else send_blocked m timeout_ticks s.kernel.current_task s)

-- `rtos_queue_send` of the task `t`, from the point where it runs again
unfoldable pub send_resume : ℕ → ℕ → ℕ → Sys → Sys × Status
send_resume m item_ptr t s =
    let (s₁, head) = remove_from_waiting_list (s.queues.sender_wait_list m) t s in
    if is_blocked_on (s.pool.blocked_on t) (queue m)
    then (set_sender_wait_list m head s₁, timeout)
    else (if leb (s.queues.length m) (s.queues.count m)
        then (s, full)
        else (send_copy m item_ptr s, success))

-- `copy_data` of a receive: the oldest item is copied out, and a waiting sender is woken. The count is
-- not 0 here.
unfoldable pub get : ℕ → ℕ → Sys → Sys
get m buffer s = record s {
  bytes = memcpy buffer (s.queues.read_ptr m) (s.queues.item_size m) s.bytes;
  queues = record s.queues {
    read_ptr = update s.queues.read_ptr m (advance m (s.queues.read_ptr m) s);
    count = update s.queues.count m (sub32 (s.queues.count m) 1);
  };
}

unfoldable pub receive_copy : ℕ → ℕ → Sys → Sys
receive_copy m buffer s = wake (pop_sender m (get m buffer s))

receive_blocked : ℕ → ℕ → Option ℕ → Sys → Sys × Option Status
receive_blocked m timeout_ticks none s = (s, some invalid_state)
receive_blocked m timeout_ticks (some t) s =
    let (s₁, head) = add_to_waiting_list (s.queues.receiver_wait_list m) t m s in
    (s₁ ▷ set_receiver_wait_list m head ▷ block_current t timeout_ticks, none)

-- `rtos_queue_receive`, up to the point where the task blocks
unfoldable pub receive : ℕ → ℕ → ℕ → Sys → Sys × Option Status
unfolding receive_blocked
receive m buffer timeout_ticks s =
    if ltb 0 (s.queues.count m)
    then (receive_copy m buffer s, some success)
    else (if timeout_ticks == 0
        then (s, some empty)
        else receive_blocked m timeout_ticks s.kernel.current_task s)

-- `rtos_queue_receive` of the task `t`, from the point where it runs again
unfoldable pub receive_resume : ℕ → ℕ → ℕ → Sys → Sys × Status
receive_resume m buffer t s =
    let (s₁, head) = remove_from_waiting_list (s.queues.receiver_wait_list m) t s in
    if is_blocked_on (s.pool.blocked_on t) (queue m)
    then (set_receiver_wait_list m head s₁, timeout)
    else (if s.queues.count m == 0 then (s, empty) else (receive_copy m buffer s, success))

-- The three queries.
unfoldable pub spaces_available : ℕ → Sys → ℕ
spaces_available m s = sub32 (s.queues.length m) (s.queues.count m)

unfoldable pub is_full : ℕ → Sys → Bool
is_full m s = leb (s.queues.length m) (s.queues.count m)

unfoldable pub is_empty : ℕ → Sys → Bool
is_empty m s = s.queues.count m == 0

-- The two loops of a reset, on fuel: every waiting sender, every waiting receiver is woken.
wake_senders : ℕ → ℕ → Sys → Sys
wake_senders zero m s = s
wake_senders (suc f) m s =
    let rest = wake_senders f m (wake (pop_sender m s)) in
    if is_null (s.queues.sender_wait_list m) then s else rest

wake_receivers : ℕ → ℕ → Sys → Sys
wake_receivers zero m s = s
wake_receivers (suc f) m s =
    let rest = wake_receivers f m (wake (pop_receiver m s)) in
    if is_null (s.queues.receiver_wait_list m) then s else rest

-- `rtos_queue_reset`
unfoldable pub reset : ℕ → Sys → Sys × Status
unfolding wake_senders wake_receivers
reset m s =
    let buffer = s.queues.buffer m in
    (
      record s {
        queues = record s.queues {
          count = update s.queues.count m 0;
          read_ptr = update s.queues.read_ptr m buffer;
          write_ptr = update s.queues.write_ptr m buffer;
        };
      }
          ▷ wake_senders max_tasks m
          ▷ wake_receivers max_tasks m,
      success,
    )
