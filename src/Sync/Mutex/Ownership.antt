-- ===== src/Sync/Mutex/Ownership.antt =====
-- The owner of a mutex over a lock and an unlock (src/sync/mutex/mutex.c).
use vrtos.Base.{
  ℕ, ◌≤◌, ◌≡◌, ◌≢◌, ◌⊎◌, inl, inr, refl, sym, ap, subst, ◌∙◌, false, Option, none, some, List, [],
  ◌∷◌, arith, ltb, ◌==◌, ◌==?◌, ==_self, ==-eq, if◌then◌else◌, Bool-cases, update, update_self,
  update_ne, All, NotIn, IsSorted-agree,
}
use vrtos.State.{Sys, success, Object, SyncType, mutex, sync_mutex, running, TaskState}
use vrtos.Kernel
use vrtos.Kernel.Frame.{view-task_unblock}
use vrtos.Sync.WaitList
use vrtos.Sync.WaitList.Laws.{Waiting, Waits, WaitsIn, pop-Waiting}
use vrtos.Sync.Mutex.{
  set_waiting_list, is_ready, find_held, unlink_held, remove_from_held_list, restore_priority,
  pop_waiter, lock, lock_by, lock_again, lock_blocked, take, hand_over, release, unlock, unlock_by,
}

lock_again-owner : (m : ℕ) (s : Sys) → (lock_again m s).0.mutexes.owner ≡ s.mutexes.owner
unfolding lock_again
lock_again-owner m s = elim (Bool-cases (ltb (s.mutexes.lock_count m) 255)) [
  | inl e ↦ rw e refl
  | inr e ↦ rw e refl
]

lock_blocked-fails :
    (m timeout_ticks t : ℕ) (s : Sys) → (lock_blocked m timeout_ticks t s).1 ≢ some success
unfolding lock_blocked
lock_blocked-fails m timeout_ticks t s = elim (Bool-cases (timeout_ticks == 0)) [
  | inl e ↦ rw e (λ h. cc)
  | inr e ↦ rw e (λ h. cc)
]

-- A lock that succeeds at once makes the current task the owner, and finds the mutex free or its own:
-- never one that another task owns.
pub lock-owner :
    (m timeout_ticks : ℕ) (s : Sys)
    → (lock m timeout_ticks s).1 ≡ some success
    → ((lock m timeout_ticks s).0.mutexes.owner m ≡ s.kernel.current_task)
      × ((s.mutexes.owner m ≡ none) ⊎ (s.mutexes.owner m ≡ s.kernel.current_task))
unfolding lock lock_by lock_again lock_blocked take
lock-owner m timeout_ticks s = go s.kernel.current_task (s.mutexes.owner m) refl
  where
    go :
        (current owner : Option ℕ)
        → s.mutexes.owner m ≡ owner
        → (lock_by m timeout_ticks current owner s).1 ≡ some success
        → ((lock_by m timeout_ticks current owner s).0.mutexes.owner m ≡ current)
          × ((owner ≡ none) ⊎ (owner ≡ current))
    go none owner is e = cc
    go (some t) none is e = (update_self s.mutexes.owner m (some t), inl refl)
    go (some t) (some o) is e = elim (Bool-cases (o == t)) [
      | inl same ↦ rw same (
        ap (λ f. f m) (lock_again-owner m s) ∙ is ∙ ap some (==-eq o t same),
        inr (ap some (==-eq o t same)),
      )
      | inr other ↦ absurd (
          lock_blocked-fails m timeout_ticks t s (
            subst
              (λ b.
                (if b then lock_again m s else lock_blocked m timeout_ticks t s).1 ≡ some success)
              other e))
    ]

-- What an unlock works on before it hands the mutex over: all but the list of the held mutexes.
abbrev kept :
    Sys
    → (ℕ → TaskState)
      × (ℕ → Option ℕ)
      × (ℕ → Option Object)
      × (ℕ → SyncType)
      × (ℕ → ℕ)
      × (ℕ → Option ℕ)
kept s = (
  s.pool.state, s.pool.next_waiting, s.pool.blocked_on, s.pool.blocked_on_type, s.pool.priority,
  s.mutexes.waiting_list,
)

remove_from_held_list-kept :
    (fuel t m : ℕ) (s : Sys) → kept (remove_from_held_list fuel t m s) ≡ kept s
unfolding remove_from_held_list unlink_held
remove_from_held_list-kept fuel t m s = elim (Bool-cases (s.pool.held_mutex_list t ==? m)) [
  | inl e ↦ rw e refl
  | inr e ↦ rw e (unlinked (find_held fuel s.mutexes.next_held m (s.pool.held_mutex_list t)))
]
  where
    unlinked : (found : Option ℕ) → kept (unlink_held found (s.mutexes.next_held m) s) ≡ kept s
    unlinked none = refl
    unlinked (some c) = refl

All-update :
    {A : Type 0} (f : ℕ → A) (t : ℕ) (v : A) (xs : List ℕ)
    → NotIn t xs
    → All (λ x. update f t v x ≡ f x) xs
All-update f t v [] n = tt
All-update f t v (x ∷ xs) n = (update_ne f t x v n.0, All-update f t v xs n.1)

-- The tasks `xs` wait for the mutex `m`.
abbrev pub MutexWaiting : ℕ → Sys → List ℕ → Type 0
MutexWaiting m s xs = Waiting s (mutex m) sync_mutex (s.mutexes.waiting_list m) xs

-- The state in which an unlock hands the mutex over: the waiters are the same, since the task that unlocks is
-- none of them.
prepared :
    (fuel m t : ℕ) (s : Sys) (xs : List ℕ)
    → MutexWaiting m s xs
    → NotIn t xs
    → let s₁ = restore_priority fuel t (remove_from_held_list fuel t m s) in
      MutexWaiting m s₁ xs × (s₁.pool.state ≡ s.pool.state)
unfolding restore_priority
prepared fuel m t s xs w away = (
  record {
    chain = w₁.chain;
    distinct = w₁.distinct;
    small = w₁.small;
    sorted =
        IsSorted-agree (λ a b. b ≤ a) (update s₁.pool.priority t _) s₁.pool.priority xs
          (All-update s₁.pool.priority t _ xs away) w₁.sorted;
    object_is = w₁.object_is;
    type_is = w₁.type_is;
  },
  ap (λ k. k.0) (remove_from_held_list-kept fuel t m s),
)
  where
    s₁ : Sys
    s₁ = remove_from_held_list fuel t m s

    w₁ : MutexWaiting m s₁ xs
    w₁ =
        subst (λ k. Waits k.1 k.4 k.2 k.3 (mutex m) sync_mutex (k.5 m) xs)
          (sym (remove_from_held_list-kept fuel t m s)) w

-- The last unlock (at a lock count of at most 1) by the owner, a RUNNING task that does not wait
-- for the mutex itself, while others wait for it in order: the first waiter becomes the owner, at
-- a lock count of 1; it waits for nothing any more, the mutex is the first of those that it holds,
-- the others keep waiting in their order, and none of them has a higher priority.
pub unlock-hands_over :
    (fuel m t x : ℕ) (s : Sys) (xs : List ℕ)
    → s.kernel.current_task ≡ some t
    → s.mutexes.owner m ≡ some t
    → s.mutexes.lock_count m ≤ 1
    → s.pool.state t ≡ running
    → NotIn t (x ∷ xs)
    → MutexWaiting m s (x ∷ xs)
    → let (s', status) = unlock fuel m s in
      (status ≡ some success)
      × (s'.mutexes.owner m ≡ some x)
      × (s'.mutexes.lock_count m ≡ 1)
      × (s'.pool.held_mutex_list x ≡ some m)
      × MutexWaiting m s' xs
      × (s'.pool.blocked_on x ≡ none)
      × All (λ y. s'.pool.priority y ≤ s'.pool.priority x) xs
unfolding unlock unlock_by release hand_over take is_ready pop_waiter WaitList.pop
unlock-hands_over fuel m t x s xs current owner once runs away w = rw steps (
    subst
      (λ v.
        (some success ≡ some success)
        × (v.mutexes.owner m ≡ some x)
        × (v.mutexes.lock_count m ≡ 1)
        × (v.held_mutex_list x ≡ some m)
        × WaitsIn v (mutex m) sync_mutex (v.mutexes.waiting_list m) xs
        × (v.blocked_on x ≡ none)
        × All (λ y. v.priority y ≤ v.priority x) xs)
      (sym (view-task_unblock x s₃))
      (
        refl,
        update_self s₂.mutexes.owner m (some x),
        update_self s₂.mutexes.lock_count m 1,
        update_self s₂.pool.held_mutex_list x (some m),
        rw (update_self s₁.mutexes.waiting_list m (s₁.pool.next_waiting x)) popped.1,
        popped.2,
        popped.3,
      ))
  where
    s₁ : Sys
    s₁ = restore_priority fuel t (remove_from_held_list fuel t m s)

    ready₁ : MutexWaiting m s₁ (x ∷ xs) × (s₁.pool.state ≡ s.pool.state)
    ready₁ = prepared fuel m t s (x ∷ xs) w away

    s₂ : Sys
    s₂ = set_waiting_list m (s₁.pool.next_waiting x) (WaitList.clear_wait x s₁)

    s₃ : Sys
    s₃ = take m x s₂

    popped :
        (some x ≡ some x)
        × Waiting (WaitList.clear_wait x s₁) (mutex m) sync_mutex (s₁.pool.next_waiting x) xs
        × ((WaitList.clear_wait x s₁).pool.blocked_on x ≡ none)
        × All (λ y. s₁.pool.priority y ≤ s₁.pool.priority x) xs
    popped = pop-Waiting x s₁ (mutex m) sync_mutex (some x) xs (rw (← ready₁.0.chain.0) ready₁.0)

    pop_first : pop_waiter m s₁ ≡ (s₂, some x)
    pop_first = rw ready₁.0.chain.0 refl

    not_ready : is_ready (s₁.pool.state t) ≡ false
    not_ready = ap (λ f. is_ready (f t)) ready₁.1 ∙ ap is_ready runs

    released : release fuel m t s ≡ Kernel.task_unblock x s₃
    released = rw not_ready (ap (hand_over m) pop_first)

    single : ltb 1 (s.mutexes.lock_count m) ≡ false
    single = ground arith

    steps : unlock fuel m s ≡ (Kernel.task_unblock x s₃, some success)
    steps =
        ap (λ c. unlock_by fuel m c (s.mutexes.owner m) s) current
        ∙ ap (λ o. unlock_by fuel m (some t) o s) owner
        ∙ rw (==_self t, single) (ap (λ r. (r, some success)) released)
