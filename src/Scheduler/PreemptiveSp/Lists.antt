-- ===== src/Scheduler/PreemptiveSp/Lists.antt =====
-- What the ready lists, the priority map and the delayed list of preemptive_sp.c hold.
use vrtos.Base.{
  ℕ, ◌<◌, ◌≡◌, Bool, true, false, not, List, [], ◌∷◌, Dll, All, IsSorted, ◌+◌, ◌%◌, ◌^◌, ◌≤◌,
  has_bit,
}
pub use vrtos.Scheduler.Places.{Place, nowhere, in_ready, in_delayed}
use vrtos.State.{Sys, max_tasks, max_task_priorities}

abbrev pub is_nil : List ℕ → Bool
is_nil [] = true
is_nil (_ ∷ _) = false

-- The ready list of each priority holds `ready p`, the delayed list `delayed`; the map has the bit of
-- a priority set exactly when its list is not empty; `place` says where each task is linked, so that
-- no task is in two lists.
pub record Holds (s : Sys) (place : ℕ → Place) (ready : ℕ → List ℕ) (delayed : List ℕ)
    : Type 0 where
  pub ready_list :
      (p : ℕ)
      → p < max_task_priorities
      → Dll max_tasks s.pool.next s.pool.prev (s.preemptive.ready_lists p) (ready p)
  pub delayed_list : Dll max_tasks s.pool.next s.pool.prev s.preemptive.delayed_list delayed
  pub ready_place : (p : ℕ) → All (λ x. place x ≡ in_ready p) (ready p)
  pub delayed_place : All (λ x. place x ≡ in_delayed) delayed
  pub ready_priority : (p : ℕ) → All (λ x. s.pool.priority x ≡ p) (ready p)
  pub map_small : s.preemptive.ready_priorities < 256
  pub map :
      (p : ℕ)
      → p < max_task_priorities
      → has_bit s.preemptive.ready_priorities p ≡ not (is_nil (ready p))

-- The delayed tasks on the unbounded clock: `due x` is when `x` is to be woken, not before `now` and less
-- than 2^31 ticks ahead of it, and the list is in the order of these times.
pub record IsTimed (s : Sys) (due : ℕ → ℕ) (now : ℕ) (delayed : List ℕ) : Type 0 where
  pub tick : s.kernel.tick_count ≡ now % 2 ^ 32
  pub near :
      All
        (λ x. (s.pool.delay_until x ≡ due x % 2 ^ 32) × (now ≤ due x) × (due x < now + 2 ^ 31))
        delayed
  pub sorted : IsSorted (λ x y. due x ≤ due y) delayed
