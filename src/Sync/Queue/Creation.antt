-- ===== src/Sync/Queue/Creation.antt =====
-- A new queue: `rtos_queue_init` of src/sync/queue/queue.c over the allocator.
use vrtos.Base.{
  ℕ, ◌+◌, ◌*◌, ◌%◌, ◌^◌, ◌<◌, ◌≤◌, ◌≡◌, ◌≢◌, ◌⊎◌, refl, true, false, [], arith, ltb, ==_ne,
  Bool-cases, inl, inr, update_self, add32,
}
use vrtos.State.{Sys, success, no_memory, total_heap_size}
use vrtos.Memory.{malloc, align8_up}
use vrtos.Memory.Blocks.{align8_up-bounds}
use vrtos.Sync.Queue.{mul32, init, init_with, set_fields, set_buffer, null_pointer}
use vrtos.Sync.Queue.Fifo.{QueueHolds}

-- Making a queue of `n` items of `size` bytes, neither of them 0 and their product at most 2^31, with the
-- index of the allocator inside the heap, which ends below 2^32: when the product, rounded up, fits into the rest of
-- the heap, it succeeds and the new queue holds nothing, with its storage from the old index of the heap to the new one;
-- otherwise it fails, and changes nothing but the `buffer` of the queue, which is NULL.
pub init-QueueHolds :
    (m n size : ℕ) (s : Sys)
    → n ≢ 0
    → size ≢ 0
    → n * size ≤ 2 ^ 31
    → s.heap_index ≤ total_heap_size
    → s.heap_base + total_heap_size < 2 ^ 32
    → let (s', status) = init m n size s in
      let end = s.heap_index + align8_up (n * size) in
      ((end ≤ total_heap_size)
        × (status ≡ success)
        × QueueHolds m s' []
        × (s'.queues.buffer m ≡ s.heap_base + s.heap_index)
        × (s'.heap_index ≡ end))
      ⊎ ((total_heap_size < end) × (status ≡ no_memory) × (s' ≡ set_buffer m null_pointer s))
unfolding init init_with set_fields malloc
init-QueueHolds m n size s some_items some_bytes small inside below =
    rw (==_ne n 0 some_items, ==_ne size 0 some_bytes, product)
      (go (Bool-cases (ltb total_heap_size (add32 s.heap_index (align8_up (n * size))))))
  where
    bytes : ℕ
    bytes = align8_up (n * size)

    rounded : (n * size ≤ bytes) × (bytes < n * size + 8) × (bytes % 8 ≡ 0)
    rounded = align8_up-bounds (n * size) (omega (arith, small))

    product : mul32 n size ≡ n * size
    product = omega (arith, small)

    sum : add32 s.heap_index bytes ≡ s.heap_index + bytes
    sum = omega (arith, rounded, small, inside)

    go :
        let full = ltb total_heap_size (add32 s.heap_index bytes) in
        (full ≡ true) ⊎ (full ≡ false)
        → let (s', status) = init_with m n size (malloc (n * size) s) in
          ((s.heap_index + bytes ≤ total_heap_size)
            × (status ≡ success)
            × QueueHolds m s' []
            × (s'.queues.buffer m ≡ s.heap_base + s.heap_index)
            × (s'.heap_index ≡ s.heap_index + bytes))
          ⊎ ((total_heap_size < s.heap_index + bytes)
              × (status ≡ no_memory)
              × (s' ≡ set_buffer m null_pointer s))
    go (inl full) = rw full (inr (ground (arith, sum), refl, refl))
    go (inr fits) =
        let room : s.heap_index + bytes ≤ total_heap_size = ground (arith, sum) in
        rw fits (
          inl (
            room,
            refl,
            rw
                (
                  update_self s.queues.buffer m,
                  update_self s.queues.item_size m,
                  update_self s.queues.length m,
                  update_self s.queues.read_ptr m,
                  update_self s.queues.write_ptr m,
                  update_self s.queues.count m,
                )
                (record {
                  first = 0;
                  in_range = omega (arith, some_items);
                  sized = omega (arith, some_bytes);
                  room = omega (arith, room, rounded, below);
                  fits = omega arith;
                  read = omega arith;
                  write = omega arith;
                  holds = refl;
                }),
            update_self s.queues.buffer m (s.heap_base + s.heap_index),
            sum,
          ))
