-- ===== src/Scheduler/Places.antt =====
-- Where a task can be linked, for the invariants of the three schedulers.
use vrtos.Base.{ℕ}

-- The ready list that a task is in by its number (a priority, or 0 where there is one list).
pub data Place : Type 0 where
  nowhere : Place
  in_ready : ℕ → Place
  in_delayed : Place
