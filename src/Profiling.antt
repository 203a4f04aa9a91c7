-- ===== src/Profiling.antt =====
-- The statistics of src/profiling/profiling.c. A pointer to a statistic or to a snapshot is `none` when it
-- is NULL. A call is one step, although a snapshot tests the count just before its critical section.
pub mod Summary
pub mod Trace
use vrtos.Base.{
  ℕ, ◌+◌, ◌-◌, ◌/◌, ◌%◌, ◌^◌, Bool, Option, none, some, List, [], ◌∷◌, ltb, ◌==◌, if◌then◌else◌,
  add32,
}

-- `rtos_profile_stat_t`
pub record Stat : Type 0 where
  pub min_cycles : ℕ
  pub max_cycles : ℕ
  pub total_cycles : ℕ
  pub count : ℕ
  pub name : Option ℕ

-- `rtos_profile_snapshot_t`
pub record Snapshot : Type 0 where
  pub min_cycles : ℕ
  pub max_cycles : ℕ
  pub avg_cycles : ℕ
  pub count : ℕ
  pub min_us : Option ℕ
  pub max_us : Option ℕ
  pub avg_us : Option ℕ

abbrev pub empty_stat : Option ℕ → Stat
empty_stat name = record {
  min_cycles = 2 ^ 32 - 1;
  max_cycles = 0;
  total_cycles = 0;
  count = 0;
  name = name;
}

-- `rtos_profiling_reset_stat`
unfoldable pub reset_stat : Option ℕ → Option Stat → Option Stat
reset_stat name none = none
reset_stat name (some stat) = some (empty_stat name)

abbrev pub with_cycles : ℕ → Stat → Stat
with_cycles cycles stat = record stat {
  min_cycles = (if ltb cycles stat.min_cycles then cycles else stat.min_cycles);
  max_cycles = (if ltb stat.max_cycles cycles then cycles else stat.max_cycles);
  total_cycles = add32 stat.total_cycles cycles;
  count = add32 stat.count 1;
}

-- `rtos_profiling_record`
unfoldable pub record_cycles : ℕ → Option Stat → Option Stat
record_cycles cycles none = none
record_cycles cycles (some stat) = some (with_cycles cycles stat)

-- `cycles_to_us` at the clock SystemCoreClock; `none` is the division by 0 of a clock below 1 MHz.
unfoldable pub cycles_to_us : ℕ → ℕ → Option ℕ
cycles_to_us clock cycles =
    if clock == 0
    then some 0
    else (if clock / 1000000 == 0 then none else some (cycles / (clock / 1000000)))

-- `rtos_profiling_snapshot`, which leaves `*out` where it returns early.
unfoldable pub snapshot : ℕ → Option Stat → Option Snapshot → Option Snapshot
snapshot clock none out = out
snapshot clock (some stat) none = none
snapshot clock (some stat) (some out) =
    let avg_cycles = stat.total_cycles / stat.count in
    if stat.count == 0
    then some out
    else some (record {
      min_cycles = stat.min_cycles;
      max_cycles = stat.max_cycles;
      avg_cycles = avg_cycles;
      count = stat.count;
      min_us = cycles_to_us clock stat.min_cycles;
      max_us = cycles_to_us clock stat.max_cycles;
      avg_us = cycles_to_us clock avg_cycles;
    })
