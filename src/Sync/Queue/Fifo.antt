-- ===== src/Sync/Queue/Fifo.antt =====
-- A queue as a list of items: what `rtos_queue_init`, `rtos_queue_send` and `rtos_queue_receive` of
-- src/sync/queue/queue.c do to it.
use vrtos.Base.{
  ℕ, zero, suc, ◌+◌, ◌*◌, ◌<◌, ◌≡◌, refl, sym, ap, subst, ◌∙◌, true, Option, none, some, List, [],
  ◌∷◌, ◌++◌, arith, ltb, Option-cases, inl, inr, update_self, read_bytes, memcpy, Disjoint,
  read_bytes-memcpy, add32, sub32,
}
use vrtos.State.{Sys, success, Queues}
use vrtos.Kernel.Frame.{view-task_unblock}
use vrtos.Sync.WaitList
use vrtos.Sync.Queue.{
  wake, pop_waiter, pop_receiver, pop_sender, put, get, advance, send_copy, receive_copy, send,
  receive,
}
use vrtos.Sync.Queue.Slots.{
  Circular, contents, contents-put, contents-outside, next_slot, next_slot-lt, slot_after,
  slot_after-suc, slot_after-lt, advance_lem, len_small,
}

-- The queue `m` holds `items`, the oldest first.
abbrev CircularIn : Queues → (ℕ → ℕ) → ℕ → List (List ℕ) → Type 0
CircularIn q bytes m items =
    Circular bytes (q.buffer m) (q.item_size m) (q.length m) (q.read_ptr m) (q.write_ptr m)
      (q.count m) items

abbrev pub QueueHolds : ℕ → Sys → List (List ℕ) → Type 0
QueueHolds m s items = CircularIn s.queues s.bytes m items

-- Waking a task that waited is of no concern to the items.
wake-QueueHolds :
    (m : ℕ) (s : Sys) (t : Option ℕ) (items : List (List ℕ))
    → QueueHolds m s items
    → QueueHolds m (wake (s, t)) items
unfolding wake
wake-QueueHolds m s none items h = h
wake-QueueHolds m s (some t) items h =
    subst (λ v. CircularIn v.queues v.bytes m items) (sym (view-task_unblock t s)) h

wake-bytes : (s : Sys) (t : Option ℕ) → (wake (s, t)).bytes ≡ s.bytes
unfolding wake
wake-bytes s none = refl
wake-bytes s (some t) = ap (λ v. v.bytes) (view-task_unblock t s)

pop_receiver-QueueHolds :
    (m : ℕ) (s : Sys) (items : List (List ℕ))
    → QueueHolds m s items
    → QueueHolds m (pop_receiver m s).0 items
unfolding pop_receiver pop_waiter WaitList.pop
pop_receiver-QueueHolds m s items h = elim (Option-cases (s.queues.receiver_wait_list m)) [
  | inl e ↦ rw e h
  | inr (x, e) ↦ rw e h
]

pop_sender-QueueHolds :
    (m : ℕ) (s : Sys) (items : List (List ℕ))
    → QueueHolds m s items
    → QueueHolds m (pop_sender m s).0 items
unfolding pop_sender pop_waiter WaitList.pop
pop_sender-QueueHolds m s items h = elim (Option-cases (s.queues.sender_wait_list m)) [
  | inl e ↦ rw e h
  | inr (x, e) ↦ rw e h
]

pop_sender-bytes : (m : ℕ) (s : Sys) → (pop_sender m s).0.bytes ≡ s.bytes
unfolding pop_sender pop_waiter WaitList.pop
pop_sender-bytes m s = elim (Option-cases (s.queues.sender_wait_list m)) [
  | inl e ↦ rw e refl
  | inr (x, e) ↦ rw e refl
]

put-QueueHolds :
    (m item_ptr : ℕ) (s : Sys) (items : List (List ℕ))
    → QueueHolds m s items
    → s.queues.count m < s.queues.length m
    → QueueHolds m
        (put m item_ptr s)
        (items ++ read_bytes s.bytes item_ptr (s.queues.item_size m) ∷ [])
unfolding put
put-QueueHolds m item_ptr s items h free =
    rw (update_self s.queues.write_ptr m, update_self s.queues.count m, counted)
      (record {
        first = h.first;
        in_range = h.in_range;
        sized = h.sized;
        room = h.room;
        fits = omega (arith, free);
        read = h.read;
        write =
            ap (λ p. advance m p s) h.write
            ∙ advance_lem (buffer m) (size m) (len m) w
                (slot_after-lt (len m) (count m) h.first h.in_range) h.sized h.room
            ∙ ap (λ k. buffer m + k * size m) (sym (slot_after-suc (len m) (count m) h.first));
        holds =
            subst
              (λ p.
                contents (buffer m) (size m) (len m) (memcpy p item_ptr (size m) s.bytes)
                  (suc (count m)) h.first
                ≡ items ++ read_bytes s.bytes item_ptr (size m) ∷ [])
              (sym h.write)
              (contents-put (buffer m) (size m) (len m) s.bytes item_ptr (count m) h.first w
                  h.in_range free refl
                ∙ ap (λ xs. xs ++ read_bytes s.bytes item_ptr (size m) ∷ []) h.holds);
      })
  where
    open s.queues use {buffer, item_size as size, length as len, count}

    counted : add32 (count m) 1 ≡ suc (count m)
    counted = omega (arith, free, len_small (buffer m) (size m) (len m) h.sized h.room)

    w : ℕ
    w = slot_after (len m) (count m) h.first

get-QueueHolds :
    (m dst : ℕ) (s : Sys) (item : List ℕ) (items : List (List ℕ))
    → QueueHolds m s (item ∷ items)
    → Disjoint
        (s.queues.buffer m)
        (s.queues.length m * s.queues.item_size m)
        dst
        (s.queues.item_size m)
    → (read_bytes (get m dst s).bytes dst (s.queues.item_size m) ≡ item)
      × QueueHolds m (get m dst s) items
unfolding get
get-QueueHolds m dst s item items h apart =
    rw (update_self s.queues.read_ptr m, update_self s.queues.count m) (go (count m) refl h.holds)
  where
    open s.queues use {buffer, item_size as size, length as len, count}

    next : ℕ
    next = next_slot (len m) h.first

    go :
        (n : ℕ)
        → count m ≡ n
        → contents (buffer m) (size m) (len m) s.bytes n h.first ≡ item ∷ items
        → (read_bytes (memcpy dst (s.queues.read_ptr m) (size m) s.bytes) dst (size m) ≡ item)
          × Circular
              (memcpy dst (s.queues.read_ptr m) (size m) s.bytes)
              (buffer m)
              (size m)
              (len m)
              (advance m (s.queues.read_ptr m) s)
              (s.queues.write_ptr m)
              (sub32 (count m) 1)
              items
    go zero is e = cc
    go (suc n) is e = (
      read_bytes-memcpy dst (s.queues.read_ptr m) (size m) s.bytes
          ∙ ap (λ p. read_bytes s.bytes p (size m)) h.read
          ∙ (cc),
      rw (counted) (record {
        first = next;
        in_range = next_slot-lt (len m) h.first h.in_range;
        sized = h.sized;
        room = h.room;
        fits = omega (arith, h.fits, is);
        read =
            ap (λ p. advance m p s) h.read
            ∙ advance_lem (buffer m) (size m) (len m) h.first h.in_range h.sized h.room;
        write = h.write ∙ ap (λ c. buffer m + slot_after (len m) c h.first * size m) is;
        holds =
            contents-outside (buffer m) (size m) (len m) s.bytes dst (s.queues.read_ptr m) n next
              apart (next_slot-lt (len m) h.first h.in_range)
            ∙ (cc);
      }),
    )
      where
        counted : sub32 (count m) 1 ≡ n
        counted = omega (arith, is, h.fits, len_small (buffer m) (size m) (len m) h.sized h.room)

-- A send to a queue that holds `items` and is not full succeeds and puts the item, which `item_ptr` points to, behind them,
-- whether or not a receiver is woken.
pub send-QueueHolds :
    (m item_ptr timeout_ticks : ℕ) (s : Sys) (items : List (List ℕ))
    → QueueHolds m s items
    → s.queues.count m < s.queues.length m
    → let (s', status) = send m item_ptr timeout_ticks s in
      (status ≡ some success)
      × QueueHolds m s' (items ++ read_bytes s.bytes item_ptr (s.queues.item_size m) ∷ [])
unfolding send send_copy
send-QueueHolds m item_ptr timeout_ticks s items h free = rw has_room (
  refl,
  wake-QueueHolds m (pop_receiver m s₁).0 (pop_receiver m s₁).1 _
      (pop_receiver-QueueHolds m s₁ _ (put-QueueHolds m item_ptr s items h free)),
)
  where
    s₁ : Sys
    s₁ = put m item_ptr s

    has_room : ltb (s.queues.count m) (s.queues.length m) ≡ true
    has_room = ground arith

-- A receive from a queue that holds an item succeeds, copies the oldest item to `dst`, which lies outside the storage of the
-- queue, and leaves the others in their order, whether or not a sender is woken.
pub receive-QueueHolds :
    (m dst timeout_ticks : ℕ) (s : Sys) (item : List ℕ) (items : List (List ℕ))
    → QueueHolds m s (item ∷ items)
    → Disjoint
        (s.queues.buffer m)
        (s.queues.length m * s.queues.item_size m)
        dst
        (s.queues.item_size m)
    → let (s', status) = receive m dst timeout_ticks s in
      (status ≡ some success)
      × (read_bytes s'.bytes dst (s.queues.item_size m) ≡ item)
      × QueueHolds m s' items
unfolding receive receive_copy
receive-QueueHolds m dst timeout_ticks s item items h apart = rw not_empty (
  refl,
  ap (λ b. read_bytes b dst (s.queues.item_size m))
        (wake-bytes (pop_sender m s₁).0 (pop_sender m s₁).1 ∙ pop_sender-bytes m s₁)
      ∙ (got.0),
  wake-QueueHolds m (pop_sender m s₁).0 (pop_sender m s₁).1 items
      (pop_sender-QueueHolds m s₁ items got.1),
)
  where
    s₁ : Sys
    s₁ = get m dst s

    got : (read_bytes s₁.bytes dst (s.queues.item_size m) ≡ item) × QueueHolds m s₁ items
    got = get-QueueHolds m dst s item items h apart

    some_count :
        (n : ℕ)
        → contents (s.queues.buffer m) (s.queues.item_size m) (s.queues.length m) s.bytes n h.first
          ≡ item ∷ items
        → ltb 0 n ≡ true
    some_count zero e = cc
    some_count (suc n) e = ground arith

    not_empty : ltb 0 (s.queues.count m) ≡ true
    not_empty = some_count (s.queues.count m) h.holds
