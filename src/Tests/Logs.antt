-- ===== src/Tests/Logs.antt =====
-- The theorems on the logs, the statistics and the critical sections, at small inputs.
use vrtos.Base.{
  ℕ, zero, suc, ◌≤◌, ◌%◌, ◌^◌, ◌≡◌, refl, arith, true, false, none, some, List, [], ◌∷◌, length,
  elem, All, inl,
}
use vrtos.Logging.UartTx.{
  Uart, init, Place, outside, testing, write_step, tx_count, tx_free, irq_handler, flush, Reach,
  power_on, call, go, interrupt,
}
use vrtos.Logging.UartTx.Waiting.{Delivers}
use vrtos.Logging.UartTx.Delivery.{Reach-Delivers, flush-sends}
use vrtos.Logging.Records.Queue.{take, drop, encoded, keep_all}
use vrtos.Logging.Klog.{Call, klog_init, klog_drain}
use vrtos.Logging.Klog.Drained.{Logged, call_bytes, write_calls, klog_drain-keep_all}
use vrtos.Profiling.{Stat, Snapshot, empty_stat, reset_stat, snapshot}
use vrtos.Profiling.Summary.{record_all, sum, record_all-Summary, snapshot-Between}
use vrtos.Port.{Port}
use vrtos.Port.Sections.{Code, done, section, isr_section, run, Restores, run-Restores}

abbrev silent : Uart
silent = record { tx_buf = λ _. 0; tx_head = 7; tx_tail = 9; txeie = false; dr = [] }

-- The states while the bytes 65 and 66 are written: what waits before the step `n` of `_write`.
abbrev writing : ℕ → Uart × Place
writing zero = (init silent, testing (65 ∷ 66 ∷ []))
writing (suc n) = write_step (writing n).1 (writing n).0

writing-Reach : (n : ℕ) → Reach (writing n).0 (writing n).1 (65 ∷ 66 ∷ [])
writing-Reach zero = call (65 ∷ 66 ∷ []) (power_on silent refl)
writing-Reach (suc n) = go (writing-Reach n)

-- The first byte is in the ring, and the second is stored but does not count yet.
Reach-Delivers_example : Delivers (irq_handler true (writing 3).0) (writing 3).1 (65 ∷ 66 ∷ [])
Reach-Delivers_example = Reach-Delivers (interrupt true (writing-Reach 3))

written : Reach (writing 5).0 outside (65 ∷ 66 ∷ [])
unfolding write_step tx_free tx_count
written = writing-Reach 5

flush-sends_example : (flush 511 (writing 5).0).dr ≡ 65 ∷ 66 ∷ []
flush-sends_example = flush-sends 511 written (omega arith)

-- One call by task 1, and one in the interrupt 15
abbrev two_calls : List Call
two_calls =
    record { cyccnt = 70000; ipsr = 0; task_id = 1; level = 2; event_id = 258; arg0 = 5; arg1 = 0 }
    ∷ record {
      cyccnt = 70400;
      ipsr = 15;
      task_id = 1;
      level = 3;
      event_id = 259;
      arg0 = 5;
      arg1 = 1;
    }
    ∷ []

klog_drain-keep_all_example :
    let (rb, out) = klog_drain false 1 (write_calls two_calls (klog_init (λ _. 0))) in
    (out ≡ encoded call_bytes (take 1 (keep_all call_bytes 127 [] two_calls)))
    × Logged rb (drop 1 (keep_all call_bytes 127 [] two_calls))
klog_drain-keep_all_example = klog_drain-keep_all (λ _. 0) two_calls 1 (omega arith)

abbrev readings : List ℕ
readings = 30 ∷ 10 ∷ []

record_all-Summary_example :
    (s : Stat) × (record_all readings (reset_stat none (some (empty_stat none))) ≡ some s)
    × All (λ y. s.min_cycles ≤ y) readings
    × (elem s.min_cycles readings ≡ true)
    × All (λ y. y ≤ s.max_cycles) readings
    × (elem s.max_cycles readings ≡ true)
    × (s.total_cycles ≡ sum readings % 2 ^ 32)
    × (s.count ≡ length readings % 2 ^ 32)
record_all-Summary_example =
    record_all-Summary none (empty_stat none) 30 (10 ∷ []) (omega arith, (omega arith, tt))

abbrev blank : Snapshot
blank = record {
  min_cycles = 0;
  max_cycles = 0;
  avg_cycles = 0;
  count = 0;
  min_us = none;
  max_us = none;
  avg_us = none;
}

snapshot-Between_example :
    (o : Snapshot) × (snapshot 16000000
        (record_all readings (reset_stat none (some (empty_stat none))))
        (some blank)
      ≡ some o)
    × (o.count ≡ length readings)
    × (o.min_cycles ≤ o.avg_cycles)
    × (o.avg_cycles ≤ o.max_cycles)
snapshot-Between_example =
    snapshot-Between 16000000 none (empty_stat none) blank 30 (10 ∷ []) (omega arith) (omega arith)
      (omega arith, (omega arith, tt))

abbrev unmasked : Port
unmasked = record { basepri = 0; critical_nesting = 0; critical_basepri = 3 }

-- A section with another in it, which an interrupt of the kernel's own interrupts, and one after it
abbrev nested : Code
nested = section (section (isr_section (section done done) done) done) (section done done)

run-Restores_example : Restores unmasked (run 80 nested unmasked)
run-Restores_example = run-Restores 80 nested unmasked (omega arith) (inl refl)
