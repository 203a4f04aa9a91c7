-- ===== src/Logging/UartTx/Delivery.antt =====
-- What reaches the UART, of what `_write` of src/logging/uart_tx.c is given.
use vrtos.Base.{
  ℕ, zero, suc, ◌≤◌, ◌≡◌, inl, refl, sym, ◌∙◌, ap, arith, true, false, List, [], ◌∷◌, ◌++◌,
  append-nil, ◌==◌, length,
}
use vrtos.Logging.UartTx.Waiting.{Delivers, write-Delivers, irq-Delivers, sent-Delivers, head_test}
use vrtos.Logging.UartTx.{
  Uart, Place, outside, testing, send_byte, flush_loop, flush, Reach, power_on, call, go, interrupt,
}

-- Whatever the order of the calls of `_write`, its steps and the interrupts is: what the UART has got, then what
-- the ring holds, fewer than 512 bytes, then what `_write` has left are all the bytes that it was
-- given, in their order; and outside of `_write`, bytes that wait have the interrupt enabled.
pub Reach-Delivers :
    {u : Uart} {place : Place} {asked : List ℕ} → Reach u place asked → Delivers u place asked
Reach-Delivers (power_on u nothing) = record {
  sent = 0;
  queue = [];
  tail = refl;
  head = refl;
  ring = tt;
  fits = omega arith;
  behind = tt;
  armed = inl refl;
  all = append-nil _ ∙ append-nil _ ∙ nothing;
}
Reach-Delivers (call {u} {asked} xs r) =
    let d = Reach-Delivers r in
    record {
      sent = d.sent;
      queue = d.queue;
      tail = d.tail;
      head = d.head;
      ring = d.ring;
      fits = d.fits;
      behind = tt;
      armed = tt;
      all = ap (λ zs. zs ++ xs) (sym (append-nil _) ∙ d.all);
    }
Reach-Delivers (go {u} {place} {asked} r) = write-Delivers u place asked (Reach-Delivers r)
Reach-Delivers (interrupt {u} {place} {asked} txe r) =
    irq-Delivers txe u place asked (Reach-Delivers r)

-- With nothing in the ring, everything is sent.
all_sent :
    (u : Uart) (asked : List ℕ) (d : Delivers u (testing []) asked) → d.queue ≡ [] → u.dr ≡ asked
all_sent u asked d eq =
    sym (append-nil u.dr)
    ∙ sym (append-nil (u.dr ++ []))
    ∙ ap (λ q. (u.dr ++ q) ++ []) (sym eq)
    ∙ d.all

flush_loop-Delivers :
    (f : ℕ) (u : Uart) (asked : List ℕ) (d : Delivers u (testing []) asked) (q : List ℕ)
    → d.queue ≡ q
    → length q ≤ f
    → (flush_loop f u).dr ≡ asked
unfolding flush_loop sent-Delivers
flush_loop-Delivers zero u asked d [] eq enough = all_sent u asked d eq
flush_loop-Delivers zero u asked d (x ∷ xs) eq enough = absurd (omega arith)
flush_loop-Delivers (suc f) u asked d [] eq enough =
    let test : (u.tx_head == u.tx_tail) ≡ true =
      head_test u (testing []) asked d ∙ ap (λ q. length q == 0) eq in
    rw test (all_sent u asked d eq)
flush_loop-Delivers (suc f) u asked d (x ∷ xs) eq enough =
    let test : (u.tx_head == u.tx_tail) ≡ false =
      head_test u (testing []) asked d ∙ ap (λ q. length q == 0) eq ∙ ground arith in
    rw test (
      flush_loop-Delivers f (send_byte u) asked (sent-Delivers u (testing []) asked d x xs eq tt) xs
        refl (omega arith))

-- Outside of `_write`, `uart_tx_flush` sends what waits, and 511 rounds are enough: after it the UART has got every
-- byte that `_write` was given, in their order.
pub flush-sends :
    {u : Uart} {asked : List ℕ} (fuel : ℕ)
    → Reach u outside asked
    → 511 ≤ fuel
    → (flush fuel u).dr ≡ asked
unfolding flush
flush-sends {u} {asked} fuel r enough =
    let d = Reach-Delivers r in
    flush_loop-Delivers fuel (record u { txeie = false }) asked
      (record {
        sent = d.sent;
        queue = d.queue;
        tail = d.tail;
        head = d.head;
        ring = d.ring;
        fits = d.fits;
        behind = tt;
        armed = tt;
        all = d.all;
      })
      d.queue refl (omega (arith, d.fits, enough))
