-- ===== src/Logging/Klog/Drained.antt =====
-- What src/logging/klog.c gives back of the records that it is given.
use vrtos.Base.{ℕ, ◌<◌, ◌≡◌, refl, false, List, [], ◌∷◌, arith, length, ◌==◌}
use vrtos.Utils.RingBuffer
use vrtos.Utils.RingBuffer.{RingBuffer}
use vrtos.Logging.Records.Queue.{
  take, drop, encoded, Stored, keep_all, write_all, keep_all-Stored, drain-Stored,
}
use vrtos.Logging.Klog.{Call, new_record, record_bytes, klog_init, klog_write, klog_drain}

-- The bytes of the record that a call makes
abbrev pub call_bytes : Call → List ℕ
call_bytes c = record_bytes (new_record c)

length-call_bytes : (c : Call) → length (call_bytes c) ≡ 16
unfolding record_bytes
length-call_bytes c = refl

-- The log holds the records of the calls, 127 at most.
abbrev pub Logged : RingBuffer → List Call → Type 0
Logged rb cs = Stored call_bytes 11 rb cs

abbrev pub write_calls : List Call → RingBuffer → RingBuffer
write_calls [] rb = rb
write_calls (c ∷ more) rb = write_calls more (klog_write c rb)

write_calls-write_all :
    (cs : List Call) (rb : RingBuffer) → write_calls cs rb ≡ write_all call_bytes cs rb
unfolding klog_write
write_calls-write_all [] rb = refl
write_calls-write_all (c ∷ cs) rb = write_calls-write_all cs (klog_write c rb)

klog_init-Logged : (buf : ℕ → ℕ) → Logged (klog_init buf) []
unfolding klog_init RingBuffer.init
klog_init-Logged buf = record {
  width = omega arith;
  mask = refl;
  tail = omega arith;
  head = refl;
  room = omega arith;
  bytes = refl;
}

-- From the initialisation on, after any calls `cs` of `klog_write`, a drain of up to `n` records, more than 0
-- and not to NULL, gives the first `n` of the records that the log has kept, whole and in the order
-- of their calls, where it keeps a record when it holds fewer than 127; what is left stays for the
-- next drain.
pub klog_drain-keep_all :
    (buf : ℕ → ℕ) (cs : List Call) (n : ℕ)
    → 0 < n
    → let (rb, out) = klog_drain false n (write_calls cs (klog_init buf)) in
      (out ≡ encoded call_bytes (take n (keep_all call_bytes 127 [] cs)))
      × Logged rb (drop n (keep_all call_bytes 127 [] cs))
unfolding klog_drain
klog_drain-keep_all buf cs n positive =
    let some_room : (n == 0) ≡ false = ground arith in
    rw (some_room, write_calls-write_all cs (klog_init buf))
      (drain-Stored call_bytes 16 length-call_bytes 11 n (write_all call_bytes cs (klog_init buf))
        (keep_all call_bytes 127 [] cs) (omega arith)
        (keep_all-Stored call_bytes 16 length-call_bytes 11 127 (λ n lt. omega arith)
          (λ n le. omega arith) cs [] (klog_init buf) (klog_init-Logged buf)))
