-- ===== src/Sync/Semaphore/Count.antt =====
-- The count of a semaphore over sequences of calls (src/sync/semaphore/semaphore.c).
use vrtos.Base.{
  ℕ, ◌+◌, ◌-◌, ◌≤◌, ◌≡◌, ◌⊎◌, inl, inr, sym, ap, subst, true, false, not, ◌&&◌, Option, none, some,
  List, [], ◌∷◌, arith, ltb, leb, ◌==◌, Bool-cases, Option-cases, update, update-both, update-get,
  add32, ==-eq, lt_of_leb, ◌%◌, ◌^◌,
}
use vrtos.State.{Sys, semaphore, sync_semaphore, Semaphores}
use vrtos.Kernel.Frame.{view-task_unblock}
use vrtos.Sync.WaitList.{start_wait}
use vrtos.Sync.Blocking.{is_blocked_on, view-block_current}
use vrtos.Sync.WaitList
use vrtos.Sync.WaitList.Laws.{insert-objects, remove-objects}
use vrtos.Sync.Semaphore.{
  init, wait, wait_blocked, wait_resume, signal, signal_to, pop_waiter, set_waiting_list,
  add_to_waiting_list, remove_from_waiting_list,
}

-- What can be called on a semaphore; `resumes` is the end of a call that blocked, and `removes` the way out of
-- the list when a task is deleted.
pub data Call : Type 0 where
  inits : ℕ → ℕ → ℕ → Call
  waits : ℕ → ℕ → Call
  resumes removes : ℕ → ℕ → Call
  signals : ℕ → Call

unfoldable pub run : Call → Sys → Sys
run (inits m initial_count max_count) s = (init m initial_count max_count s).0
run (waits m ticks) s = (wait m ticks s).0
run (resumes m t) s = (wait_resume m t s).0
run (removes m t) s = remove_from_waiting_list m t s
run (signals m) s = (signal m s).0

unfoldable pub run_all : List Call → Sys → Sys
run_all [] s = s
run_all (c ∷ cs) s = run_all cs (run c s)

-- A maximum of 0 stands for none.
abbrev pub InRange : ℕ → ℕ → Type 0
InRange max count = (max ≡ 0) ⊎ (count ≤ max)

abbrev pub IsBounded : Semaphores → Type 0
IsBounded d = (k : ℕ) → InRange (d.max_count k) (d.count k)

keep :
    (c c' x x' : ℕ → ℕ)
    → c' ≡ c
    → x' ≡ x
    → ((k : ℕ) → InRange (x k) (c k))
    → (k : ℕ) → InRange (x' k) (c' k)
keep c c' x x' p q b = λ k. rw (p, q) (b k)

lower :
    (d : Semaphores) (m v : ℕ)
    → InRange (d.max_count m) v
    → IsBounded d
    → IsBounded (record d { count = update d.count m v })
lower d m v r b = λ k.
    subst (λ max. InRange (max k) (update d.count m v k)) (update-get d.max_count m)
      (update-both (λ k count max. InRange max count) d.count d.max_count m k v (d.max_count m) r
        (λ _. b k))

down : (max count : ℕ) → InRange max count → InRange max (count - 1)
down max count (inl e) = inl e
down max count (inr l) = inr (omega (arith, l))

up : (max count : ℕ) → (not (max == 0) && leb max count) ≡ false → InRange max (add32 count 1)
up max count e = elim (Bool-cases (max == 0)) [
  | inl z ↦ inl (==-eq max 0 z)
  | inr z ↦ inr (below (subst (λ b. (not b && leb max count) ≡ false) z e))
]
  where
    below : leb max count ≡ false → (count + 1) % 2 ^ 32 ≤ max
    below l = let lt = lt_of_leb max count l in omega arith

remove-IsBounded :
    (m t : ℕ) (s : Sys)
    → IsBounded s.semaphores
    → IsBounded (remove_from_waiting_list m t s).semaphores
unfolding remove_from_waiting_list
remove-IsBounded m t s =
    keep s.semaphores.count _ s.semaphores.max_count _
      (ap (λ o. o.1.count) (remove-objects (s.semaphores.waiting_list m) t s))
      (ap (λ o. o.1.max_count) (remove-objects (s.semaphores.waiting_list m) t s))

signal-IsBounded : (m : ℕ) (s : Sys) → IsBounded s.semaphores → IsBounded (signal m s).0.semaphores
unfolding signal signal_to pop_waiter WaitList.pop
signal-IsBounded m s b = elim (Option-cases (s.semaphores.waiting_list m)) [
  | inl e ↦ rw e (
      free (
        Bool-cases (
          not (s.semaphores.max_count m == 0)
          && leb (s.semaphores.max_count m) (s.semaphores.count m))))
  | inr (x, e) ↦ rw e (subst (λ v. IsBounded v.semaphores) (sym (view-task_unblock x _)) b)
]
  where
    free :
        let c =
          not (s.semaphores.max_count m == 0)
          && leb (s.semaphores.max_count m) (s.semaphores.count m) in
        (c ≡ true) ⊎ (c ≡ false)
        → IsBounded (signal_to m (set_waiting_list m none s, none)).0.semaphores
    free (inl e) = rw e b
    free (inr e) = rw e (
        lower s.semaphores m (add32 (s.semaphores.count m) 1)
          (up (s.semaphores.max_count m) (s.semaphores.count m) e) b)

wait-IsBounded :
    (m ticks : ℕ) (s : Sys) → IsBounded s.semaphores → IsBounded (wait m ticks s).0.semaphores
unfolding wait wait_blocked add_to_waiting_list
wait-IsBounded m ticks s b =
    go (Bool-cases (ltb 0 (s.semaphores.count m))) (Bool-cases (ticks == 0))
  where
    slow : (current : Option ℕ) → IsBounded (wait_blocked m ticks current s).0.semaphores
    slow none = b
    slow (some t) =
        subst (λ v. IsBounded v.semaphores)
          (sym (view-block_current t ticks (add_to_waiting_list m t s)))
          (keep s.semaphores.count _ s.semaphores.max_count _
            (ap (λ o. o.1.count)
              (insert-objects (s.semaphores.waiting_list m) t
                (start_wait (semaphore m) sync_semaphore t s)))
            (ap (λ o. o.1.max_count)
              (insert-objects (s.semaphores.waiting_list m) t
                (start_wait (semaphore m) sync_semaphore t s)))
            b)

    go :
        let c = ltb 0 (s.semaphores.count m) in
        let z = ticks == 0 in
        (c ≡ true) ⊎ (c ≡ false)
        → (z ≡ true) ⊎ (z ≡ false)
        → IsBounded (wait m ticks s).0.semaphores
    go (inl e) z = rw e (
        lower s.semaphores m (s.semaphores.count m - 1)
          (down (s.semaphores.max_count m) (s.semaphores.count m) (b m)) b)
    go (inr e) (inl z) = rw (e, z) b
    go (inr e) (inr z) = rw (e, z) (slow s.kernel.current_task)

wait_resume-IsBounded :
    (m t : ℕ) (s : Sys) → IsBounded s.semaphores → IsBounded (wait_resume m t s).0.semaphores
unfolding wait_resume
wait_resume-IsBounded m t s b =
    elim (Bool-cases (is_blocked_on (s.pool.blocked_on t) (semaphore m))) [
      | inl e ↦ rw e (remove-IsBounded m t s b)
      | inr e ↦ rw e b
    ]

initial : (max count : ℕ) → (not (max == 0) && ltb max count) ≡ false → InRange max count
initial max count e = ground (arith, e)

-- A count and a maximum that go together are stored.
init-IsBounded :
    (m initial_count max_count : ℕ) (s : Sys)
    → IsBounded s.semaphores
    → IsBounded (init m initial_count max_count s).0.semaphores
unfolding init
init-IsBounded m initial_count max_count s b =
    elim (Bool-cases (not (max_count == 0) && ltb max_count initial_count)) [
      | inl e ↦ rw e b
      | inr e ↦ rw e (λ k.
          update-both (λ k count max. InRange max count) s.semaphores.count s.semaphores.max_count m
            k initial_count max_count (initial max_count initial_count e) (λ _. b k))
    ]

run-IsBounded : (c : Call) (s : Sys) → IsBounded s.semaphores → IsBounded (run c s).semaphores
unfolding run
run-IsBounded (inits m initial_count max_count) s = init-IsBounded m initial_count max_count s
run-IsBounded (waits m ticks) s = wait-IsBounded m ticks s
run-IsBounded (resumes m t) s = wait_resume-IsBounded m t s
run-IsBounded (removes m t) s = remove-IsBounded m t s
run-IsBounded (signals m) s = signal-IsBounded m s

-- Whatever is called on the semaphores, initialisations among them, in any order: when no count is above its maximum at first,
-- none is afterwards, a maximum of 0 standing for none.
pub run_all-IsBounded :
    (cs : List Call) (s : Sys) → IsBounded s.semaphores → IsBounded (run_all cs s).semaphores
unfolding run_all
run_all-IsBounded [] s b = b
run_all-IsBounded (c ∷ cs) s b = run_all-IsBounded cs (run c s) (run-IsBounded c s b)
