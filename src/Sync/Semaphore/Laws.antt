-- ===== src/Sync/Semaphore/Laws.antt =====
-- What the semaphore's operations do to the count and to the waiting list.
use vrtos.Base.{
  ℕ, ◌<◌, ◌≤◌, ◌≡◌, ◌≢◌, refl, sym, ap, subst, Option, none, some, List, ◌∷◌, ◌++◌, update_self,
  All, NotIn, ◌∙◌, if◌then◌else◌, ==_self, ==_ne,
}
use vrtos.State.{Sys, ready, success, timeout, semaphore, sync_semaphore, max_tasks}
use vrtos.Kernel.{is_blocked}
use vrtos.Kernel.Frame.{view-task_unblock}
use vrtos.Kernel.Waking.{task_unblock-state}
use vrtos.Sync.WaitList.{start_wait}
use vrtos.Sync.Blocking.{block_current, is_blocked_on, view-block_current}
use vrtos.Sync.WaitList
use vrtos.Sync.WaitList.Laws.{
  Waiting, WaitsIn, insert-Waiting, pop-Waiting, remove-objects, before_waiter, after_waiter,
}
use vrtos.Sync.WaitList.Removal.{remove-Waiting}
use vrtos.Sync.Semaphore.{
  wait, wait_blocked, wait_resume, signal, signal_to, pop_waiter, set_waiting_list,
  add_to_waiting_list, remove_from_waiting_list,
}

-- The tasks `xs` wait for the semaphore `m`.
abbrev pub SemWaiting : ℕ → Sys → List ℕ → Type 0
SemWaiting m s xs = Waiting s (semaphore m) sync_semaphore (s.semaphores.waiting_list m) xs

-- The first of the tasks that wait, in the state without it.
signal_first :
    (m x : ℕ) (s : Sys) (xs : List ℕ)
    → SemWaiting m s (x ∷ xs)
    → let (s', status) = signal m s in
      (status ≡ success)
      × (s'.semaphores.count m ≡ s.semaphores.count m)
      × SemWaiting m s' xs
      × (s'.pool.blocked_on x ≡ none)
      × All (λ y. s.pool.priority y ≤ s.pool.priority x) xs
unfolding signal signal_to pop_waiter WaitList.pop
signal_first m x s xs w = rw popped (
    subst
      (λ v.
        (success ≡ success)
        × (v.semaphores.count m ≡ s.semaphores.count m)
        × WaitsIn v (semaphore m) sync_semaphore (v.semaphores.waiting_list m) xs
        × (v.blocked_on x ≡ none)
        × All (λ y. s.pool.priority y ≤ s.pool.priority x) xs)
      (sym (view-task_unblock x s₁))
      (
        refl,
        refl,
        rw (update_self s.semaphores.waiting_list m (s.pool.next_waiting x)) popped_.1,
        popped_.2,
        popped_.3,
      ))
  where
    s₁ : Sys
    s₁ = set_waiting_list m (s.pool.next_waiting x) (WaitList.clear_wait x s)

    popped_ :
        (some x ≡ some x)
        × Waiting (WaitList.clear_wait x s) (semaphore m) sync_semaphore (s.pool.next_waiting x) xs
        × ((WaitList.clear_wait x s).pool.blocked_on x ≡ none)
        × All (λ y. s.pool.priority y ≤ s.pool.priority x) xs
    popped_ = pop-Waiting x s (semaphore m) sync_semaphore (some x) xs (rw (← w.chain.0) w)

    popped : pop_waiter m s ≡ (s₁, some x)
    popped = rw w.chain.0 refl

-- A signal of a semaphore that tasks wait for in order succeeds and goes to the first of them,
-- which waits for nothing any more and is READY if it was BLOCKED: the count stays, the others keep waiting in their order, and
-- none of them has a higher priority than the one that is woken.
pub signal-SemWaiting :
    (m x : ℕ) (s : Sys) (xs : List ℕ)
    → SemWaiting m s (x ∷ xs)
    → let (s', status) = signal m s in
      (status ≡ success)
      × (s'.semaphores.count m ≡ s.semaphores.count m)
      × SemWaiting m s' xs
      × (s'.pool.blocked_on x ≡ none)
      × (s'.pool.state x ≡ (if is_blocked (s.pool.state x) then ready else s.pool.state x))
      × All (λ y. s.pool.priority y ≤ s.pool.priority x) xs
unfolding signal signal_to pop_waiter WaitList.pop
signal-SemWaiting m x s xs w =
    let (ok, count, waiting, free, order) = signal_first m x s xs w in
    (ok, count, waiting, free, woken, order)
  where
    s₁ : Sys
    s₁ = set_waiting_list m (s.pool.next_waiting x) (WaitList.clear_wait x s)

    popped : pop_waiter m s ≡ (s₁, some x)
    popped = rw w.chain.0 refl

    woken :
        (signal m s).0.pool.state x
        ≡ (if is_blocked (s.pool.state x) then ready else s.pool.state x)
    woken =
        ap (λ (p : Sys × Option ℕ). (signal_to m p).0.pool.state x) popped ∙ task_unblock-state x s₁

-- The first of the tasks that wait for a semaphore in order returns with success when it runs
-- right after a signal.
pub wait_resume-signal :
    (m x : ℕ) (s : Sys) (xs : List ℕ)
    → SemWaiting m s (x ∷ xs)
    → let s' = (signal m s).0 in wait_resume m x s' ≡ (s', success)
unfolding wait_resume is_blocked_on
wait_resume-signal m x s xs w = rw (signal-SemWaiting m x s xs w).3 refl

-- A task that is still in the list of a semaphore when it runs again times out and waits for
-- nothing any more; the others keep waiting in their order, and the count stays.
pub wait_resume-timeout :
    (m t : ℕ) (s : Sys) (xs ys : List ℕ)
    → SemWaiting m s (xs ++ t ∷ ys)
    → s.pool.blocked_on t ≡ some (semaphore m)
    → let (s', status) = wait_resume m t s in
      (status ≡ timeout)
      × SemWaiting m s' (xs ++ ys)
      × (s'.pool.blocked_on t ≡ none)
      × (s'.semaphores.count m ≡ s.semaphores.count m)
unfolding wait_resume is_blocked_on remove_from_waiting_list
wait_resume-timeout m t s xs ys w e =
    rw (e, ==_self m)
      (
        refl,
        rw
            (update_self
              (WaitList.remove (s.semaphores.waiting_list m) t s).0.semaphores.waiting_list m
              (WaitList.remove (s.semaphores.waiting_list m) t s).1)
            removed.0,
        removed.1,
        ap (λ o. o.1.count m) (remove-objects (s.semaphores.waiting_list m) t s),
      )
  where
    removed :
        let (s', head') = WaitList.remove (s.semaphores.waiting_list m) t s in
        Waiting s' (semaphore m) sync_semaphore head' (xs ++ ys) × (s'.pool.blocked_on t ≡ none)
    removed = remove-Waiting t s (semaphore m) sync_semaphore (s.semaphores.waiting_list m) xs ys w

-- A wait at count 0, with a time limit other than 0, puts the current task (its index in range,
-- not yet waiting for the semaphore) into the list of those that wait in order: behind the leading
-- waiters of the same or a higher priority, and before the rest; the call has no result yet.
pub wait-SemWaiting :
    (m t timeout_ticks : ℕ) (s : Sys) (xs : List ℕ)
    → SemWaiting m s xs
    → s.semaphores.count m ≡ 0
    → timeout_ticks ≢ 0
    → s.kernel.current_task ≡ some t
    → t < max_tasks
    → NotIn t xs
    → let (s', status) = wait m timeout_ticks s in
      (status ≡ none) × SemWaiting m s' (before_waiter s t xs ++ t ∷ after_waiter s t xs)
unfolding wait wait_blocked add_to_waiting_list
wait-SemWaiting m t timeout_ticks s xs w empty blocks current small away = rw blocked (
  refl,
  subst
      (λ v.
        WaitsIn v (semaphore m) sync_semaphore (v.semaphores.waiting_list m)
          (before_waiter s t xs ++ t ∷ after_waiter s t xs))
      (sym (view-block_current t timeout_ticks (add_to_waiting_list m t s)))
      (rw (update_self s₁.semaphores.waiting_list m head) (
        insert-Waiting t s (semaphore m) sync_semaphore (s.semaphores.waiting_list m) xs w small
          away)),
)
  where
    s₁ : Sys
    s₁ =
        (WaitList.insert (s.semaphores.waiting_list m) t
          (start_wait (semaphore m) sync_semaphore t s)).0

    head : Option ℕ
    head =
        (WaitList.insert (s.semaphores.waiting_list m) t
          (start_wait (semaphore m) sync_semaphore t s)).1

    blocked :
        wait m timeout_ticks s ≡ (block_current t timeout_ticks (add_to_waiting_list m t s), none)
    blocked =
        rw (empty, ==_ne timeout_ticks 0 blocks)
          (ap (λ c. wait_blocked m timeout_ticks c s) current)
