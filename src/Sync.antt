-- ===== src/Sync.antt =====
-- What the synchronisation objects share: the list of waiting tasks through `next_waiting`, in the
-- order of the priorities, and the end of every blocking call.
--
-- The functions of the waiting lists stand four times in the source with the same text: in
-- src/sync/semaphore/semaphore.c, mutex/mutex.c, queue/queue.c and event_group/event_group.c.
pub mod Semaphore
pub mod Mutex
pub mod Queue
pub mod EventGroup
pub mod Notify
pub mod WaitList
pub mod Blocking
