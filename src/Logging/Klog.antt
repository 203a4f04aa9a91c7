-- ===== src/Logging/Klog.antt =====
-- The kernel's log, src/logging/klog.c: binary records of 16 bytes in a ring buffer of 2048, written and
-- drained with the interrupts disabled.
pub mod Drained
use vrtos.Base.{ℕ, ◌%◌, Bool, true, false, List, [], ◌++◌, ◌==◌, ◌||◌, if◌then◌else◌}
use vrtos.Utils.RingBuffer
use vrtos.Utils.RingBuffer.{RingBuffer}
use vrtos.Logging.Records.{le_bytes, drain_records}

-- `klog_record_t`
pub record KlogRecord : Type 0 where
  pub timestamp_cycles : ℕ
  pub event_id : ℕ
  pub level : ℕ
  pub cpu_context : ℕ
  pub arg0 : ℕ
  pub arg1 : ℕ

-- The packed struct in memory
unfoldable pub record_bytes : KlogRecord → List ℕ
record_bytes r =
    le_bytes 4 r.timestamp_cycles
    ++ (le_bytes 2 r.event_id
        ++ (le_bytes 1 r.level
            ++ (le_bytes 1 r.cpu_context ++ (le_bytes 4 r.arg0 ++ le_bytes 4 r.arg1))))

-- KLOG_BUFFER_SIZE
abbrev pub klog_buffer_size : ℕ
klog_buffer_size = 2048

-- `klog_init`
unfoldable pub klog_init : (ℕ → ℕ) → RingBuffer
klog_init buf = RingBuffer.init buf klog_buffer_size

-- A call of `klog_write`: its arguments, the cycle counter, IPSR, which names the interrupt that runs, and
-- the id of the current task.
pub record Call : Type 0 where
  pub cyccnt : ℕ
  pub ipsr : ℕ
  pub task_id : ℕ
  pub level : ℕ
  pub event_id : ℕ
  pub arg0 : ℕ
  pub arg1 : ℕ

-- The record that a call makes
unfoldable pub new_record : Call → KlogRecord
new_record c = record {
  timestamp_cycles = c.cyccnt;
  event_id = c.event_id;
  level = c.level % 256;
  cpu_context = (if c.ipsr == 0 then c.task_id else c.ipsr % 256);
  arg0 = c.arg0;
  arg1 = c.arg1;
}

-- `klog_write`: the result of the write to the ring is not looked at.
unfoldable pub klog_write : Call → RingBuffer → RingBuffer
klog_write c rb = (RingBuffer.write (record_bytes (new_record c)) rb).0

-- `klog_drain` with room for `max_records`; `null` says that `out` is NULL.
unfoldable pub klog_drain : Bool → ℕ → RingBuffer → RingBuffer × List (List ℕ)
klog_drain null max_records rb =
    if null || max_records == 0 then (rb, []) else drain_records 16 max_records rb
