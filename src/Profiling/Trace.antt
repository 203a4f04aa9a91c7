-- ===== src/Profiling/Trace.antt =====
-- The trace of src/profiling/prof_trace.c: records of 8 bytes in a ring buffer of 512.
pub mod Drained
use vrtos.Base.{ℕ, Bool, List, [], ◌++◌, ◌==◌, ◌||◌, if◌then◌else◌}
use vrtos.Utils.RingBuffer
use vrtos.Utils.RingBuffer.{RingBuffer}
use vrtos.Logging.Records.{le_bytes, drain_records}

-- `prof_record_t`, without `_pad`, which is 0.
pub record ProfRecord : Type 0 where
  pub cyccnt : ℕ
  pub event_id : ℕ
  pub entity_id : ℕ

-- The packed struct in memory
unfoldable pub record_bytes : ProfRecord → List ℕ
record_bytes r =
    le_bytes 4 r.cyccnt ++ (le_bytes 2 r.event_id ++ (le_bytes 1 r.entity_id ++ le_bytes 1 0))

-- `prof_trace_init`, with PROF_TRACE_BUFFER_SIZE
unfoldable pub prof_trace_init : (ℕ → ℕ) → RingBuffer
prof_trace_init buf = RingBuffer.init buf 512

-- `prof_trace_emit` of a record
unfoldable pub prof_trace_emit : ProfRecord → RingBuffer → RingBuffer
prof_trace_emit r rb = (RingBuffer.write (record_bytes r) rb).0

-- `prof_trace_drain` with room for `max_records`; `null` says that `out` is NULL.
unfoldable pub prof_trace_drain : Bool → ℕ → RingBuffer → RingBuffer × List (List ℕ)
prof_trace_drain null max_records rb =
    if null || max_records == 0 then (rb, []) else drain_records 8 max_records rb
