-- ===== src/Logging/Records.antt =====
-- Records of a fixed size in a ring buffer: what klog.c of src/logging and prof_trace.c of src/profiling
-- share, the struct as its bytes and the loop that takes records out.
pub mod Queue
use vrtos.Base.{ℕ, zero, suc, ◌+◌, ◌/◌, ◌%◌, List, [], ◌∷◌, ltb, if◌then◌else◌}
use vrtos.Utils.RingBuffer
use vrtos.Utils.RingBuffer.{RingBuffer}

-- The `n` bytes of a number in memory, the lowest first.
abbrev pub le_bytes : ℕ → ℕ → List ℕ
le_bytes zero v = []
le_bytes (suc n) v = v % 256 ∷ le_bytes n (v / 256)

-- The loop of `klog_drain` and of `prof_trace_drain`, for records of `size` bytes and at most `n` of them; the
-- result is what has been written to `out`.
unfoldable pub drain_records : ℕ → ℕ → RingBuffer → RingBuffer × List (List ℕ)
drain_records size zero rb = (rb, [])
drain_records size (suc n) rb =
    let (rb', bytes, number) = RingBuffer.read size rb in
    let (rb'', rest) = drain_records size n rb' in
    if ltb number size then (rb', []) else (rb'', bytes ∷ rest)
