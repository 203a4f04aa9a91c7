-- ===== src/Profiling/Trace/Drained.antt =====
-- What src/profiling/prof_trace.c gives back of the records that it is given.
use vrtos.Base.{ℕ, ◌<◌, ◌≡◌, refl, false, List, [], ◌∷◌, arith, length, ◌==◌}
use vrtos.Utils.RingBuffer
use vrtos.Utils.RingBuffer.{RingBuffer}
use vrtos.Logging.Records.Queue.{
  take, drop, encoded, Stored, keep_all, write_all, keep_all-Stored, drain-Stored,
}
use vrtos.Profiling.Trace.{
  ProfRecord, record_bytes, prof_trace_init, prof_trace_emit, prof_trace_drain,
}

length-record_bytes : (r : ProfRecord) → length (record_bytes r) ≡ 8
unfolding record_bytes
length-record_bytes r = refl

-- The trace holds the records, 63 at most.
abbrev pub Traced : RingBuffer → List ProfRecord → Type 0
Traced rb rs = Stored record_bytes 9 rb rs

abbrev pub emit_records : List ProfRecord → RingBuffer → RingBuffer
emit_records [] rb = rb
emit_records (r ∷ more) rb = emit_records more (prof_trace_emit r rb)

emit_records-write_all :
    (rs : List ProfRecord) (rb : RingBuffer) → emit_records rs rb ≡ write_all record_bytes rs rb
unfolding prof_trace_emit
emit_records-write_all [] rb = refl
emit_records-write_all (r ∷ rs) rb = emit_records-write_all rs (prof_trace_emit r rb)

prof_trace_init-Traced : (buf : ℕ → ℕ) → Traced (prof_trace_init buf) []
unfolding prof_trace_init RingBuffer.init
prof_trace_init-Traced buf = record {
  width = omega arith;
  mask = refl;
  tail = omega arith;
  head = refl;
  room = omega arith;
  bytes = refl;
}

-- From the initialisation on, after any records `rs`, a drain of up to `n` records, more than 0 and not to
-- NULL, gives the first `n` of those that the trace has kept, whole and in their order, where it
-- keeps a record when it holds fewer than 63; what is left stays for the next drain.
pub prof_trace_drain-keep_all :
    (buf : ℕ → ℕ) (rs : List ProfRecord) (n : ℕ)
    → 0 < n
    → let (rb, out) = prof_trace_drain false n (emit_records rs (prof_trace_init buf)) in
      (out ≡ encoded record_bytes (take n (keep_all record_bytes 63 [] rs)))
      × Traced rb (drop n (keep_all record_bytes 63 [] rs))
unfolding prof_trace_drain
prof_trace_drain-keep_all buf rs n positive =
    let some_room : (n == 0) ≡ false = ground arith in
    rw (some_room, emit_records-write_all rs (prof_trace_init buf))
      (drain-Stored record_bytes 8 length-record_bytes 9 n
        (write_all record_bytes rs (prof_trace_init buf)) (keep_all record_bytes 63 [] rs)
        (omega arith)
        (keep_all-Stored record_bytes 8 length-record_bytes 9 63 (λ n lt. omega arith)
          (λ n le. omega arith) rs [] (prof_trace_init buf) (prof_trace_init-Traced buf)))
