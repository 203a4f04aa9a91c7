-- ===== src/Tests/Messages.antt =====
-- The theorems on queues and on the ring buffer, on small ones.
use vrtos.Base.{◌+◌, ◌<◌, ◌≤◌, ◌≡◌, ◌⊎◌, inl, refl, arith, true, some, [], ◌∷◌, ◌++◌, read_bytes}
use vrtos.State.{Sys, success, no_memory, total_heap_size}
use vrtos.Memory.{align8_up}
use vrtos.Sync.Queue
use vrtos.Sync.Queue.{send, receive, set_buffer, null_pointer}
use vrtos.Sync.Queue.Fifo.{QueueHolds, send-QueueHolds, receive-QueueHolds}
use vrtos.Sync.Queue.Creation.{init-QueueHolds}
use vrtos.Utils.RingBuffer.{RingBuffer, write, read}
use vrtos.Utils.RingBuffer.Fifo.{Holds, read-write}
use vrtos.Tests.{blank}

init-QueueHolds_example :
    let (s', status) = Queue.init 1 2 4 blank in
    let end = 0 + align8_up 8 in
    ((end ≤ total_heap_size)
      × (status ≡ success)
      × QueueHolds 1 s' []
      × (s'.queues.buffer 1 ≡ 536870916 + 0)
      × (s'.heap_index ≡ end))
    ⊎ ((total_heap_size < end) × (status ≡ no_memory) × (s' ≡ set_buffer 1 null_pointer blank))
init-QueueHolds_example =
    init-QueueHolds 1 2 4 blank (λ e. omega (arith, e)) (λ e. omega (arith, e)) (omega arith)
      (omega arith) (omega arith)

-- Memory in which every address holds its own number, and a queue of two items of 4 bytes at 0.
abbrev numbered : Sys
numbered = record blank { bytes = λ a. a }

empty_queue : QueueHolds 1 numbered []
empty_queue = record {
  first = 0;
  in_range = omega arith;
  sized = omega arith;
  room = omega arith;
  fits = omega arith;
  read = refl;
  write = refl;
  holds = refl;
}

send-QueueHolds_example :
    let (s', status) = send 1 100 0 numbered in
    (status ≡ some success) × QueueHolds 1 s' ([] ++ read_bytes numbered.bytes 100 4 ∷ [])
send-QueueHolds_example = send-QueueHolds 1 100 0 numbered [] empty_queue (omega arith)

-- The queue with the bytes 4 to 7, in its second slot, as its item.
abbrev one_item : Sys
one_item = record numbered {
  queues = record numbered.queues { read_ptr = λ _. 4; write_ptr = λ _. 0; count = λ _. 1 };
}

holds_one : QueueHolds 1 one_item ((4 ∷ 5 ∷ 6 ∷ 7 ∷ []) ∷ [])
holds_one = record {
  first = 1;
  in_range = omega arith;
  sized = omega arith;
  room = omega arith;
  fits = omega arith;
  read = refl;
  write = refl;
  holds = refl;
}

receive-QueueHolds_example :
    let (s', status) = receive 1 200 0 one_item in
    (status ≡ some success) × (read_bytes s'.bytes 200 4 ≡ 4 ∷ 5 ∷ 6 ∷ 7 ∷ []) × QueueHolds 1 s' []
receive-QueueHolds_example =
    receive-QueueHolds 1 200 0 one_item (4 ∷ 5 ∷ 6 ∷ 7 ∷ []) [] holds_one (inl (omega arith))

-- A ring of 8 bytes that holds the byte in its last slot and the one in its first.
abbrev wrapped : RingBuffer
wrapped = record { buf = λ a. a; mask = 7; head = 1; tail = 7 }

wrapped-Holds : Holds 3 wrapped (7 ∷ 0 ∷ [])
wrapped-Holds = record {
  width = omega arith;
  mask = refl;
  tail = omega arith;
  head = refl;
  room = omega arith;
  bytes = refl;
}

read-write_example :
    let (rb₁, written) = write (50 ∷ 51 ∷ []) wrapped in
    let (rb₂, bytes, number) = read 10 rb₁ in
    (written ≡ true) × (bytes ≡ 7 ∷ 0 ∷ 50 ∷ 51 ∷ []) × (number ≡ 4) × Holds 3 rb₂ []
read-write_example =
    read-write 3 10 wrapped (7 ∷ 0 ∷ []) (50 ∷ 51 ∷ []) wrapped-Holds (omega arith) (omega arith)
