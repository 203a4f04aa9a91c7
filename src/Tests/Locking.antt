-- ===== src/Tests/Locking.antt =====
-- The theorems on mutexes, on small systems.
use vrtos.Base.{◌≤◌, ◌≡◌, refl, arith, ◌==◌, if◌then◌else◌, none, some, [], ◌∷◌, All, update}
use vrtos.State.{Sys, success, mutex, sync_mutex, blocked}
use vrtos.Sync.Mutex.{lock, unlock, owner_above}
use vrtos.Sync.Mutex.Inheritance.{lock-Owners}
use vrtos.Sync.Mutex.Ownership.{MutexWaiting, unlock-hands_over}
use vrtos.Tests.{blank}

-- Task 7 waits for mutex 1, which task 5 owns.
abbrev waited_for : Sys
waited_for = record blank {
  pool = record blank.pool {
    state = update blank.pool.state 7 blocked;
    blocked_on = update blank.pool.blocked_on 7 (some (mutex 1));
    blocked_on_type = update blank.pool.blocked_on_type 7 sync_mutex;
    held_mutex_list = update blank.pool.held_mutex_list 5 (some 1);
  };
  mutexes = record {
    owner = update blank.mutexes.owner 1 (some 5);
    waiting_list = update blank.mutexes.waiting_list 1 (some 7);
    next_held = blank.mutexes.next_held;
    lock_count = update blank.mutexes.lock_count 1 1;
  };
}

task_waits : MutexWaiting 1 waited_for (7 ∷ [])
task_waits = record {
  chain = (refl, refl);
  distinct = (tt, tt);
  small = (omega arith, tt);
  sorted = (tt, tt);
  object_is = (refl, tt);
  type_is = (refl, tt);
}

unlock-hands_over_example :
    let (s', status) = unlock 3 1 waited_for in
    (status ≡ some success)
    × (s'.mutexes.owner 1 ≡ some 7)
    × (s'.mutexes.lock_count 1 ≡ 1)
    × (s'.pool.held_mutex_list 7 ≡ some 1)
    × MutexWaiting 1 s' []
    × (s'.pool.blocked_on 7 ≡ none)
    × All (λ y. s'.pool.priority y ≤ s'.pool.priority 7) []
unlock-hands_over_example =
    unlock-hands_over 3 1 5 7 waited_for [] refl refl (omega arith) refl
      ((λ e. omega (arith, e)), tt) task_waits

-- Task 3 owns mutex 1 and is blocked on mutex 2, which task 2 owns.
abbrev nested : Sys
nested = record blank {
  pool = record blank.pool {
    state = update blank.pool.state 3 blocked;
    blocked_on = update blank.pool.blocked_on 3 (some (mutex 2));
    blocked_on_type = update blank.pool.blocked_on_type 3 sync_mutex;
  };
  mutexes = record blank.mutexes { owner = λ m. if m == 1 then some 3 else some 2 };
}

lock-Owners_example : All (λ x. 2 ≤ (lock 1 20 nested).0.pool.priority x) (3 ∷ 2 ∷ [])
unfolding owner_above
lock-Owners_example =
    lock-Owners 1 20 5 3 nested (3 ∷ 2 ∷ []) refl refl (λ e. omega (arith, e))
      (λ e. omega (arith, e)) (refl, (refl, tt)) (omega arith)
