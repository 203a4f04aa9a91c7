-- ===== src/Logging/UartTx.antt =====
-- The transmission of the log, src/logging/uart_tx.c: `_write` puts bytes into a ring, and the USART2
-- interrupt takes them out, one each time.
--
-- The hardware is the status bits that it shows, arguments here, and the bytes that are written to its
-- data register, in their order. An interrupt runs to its end between two steps of `_write`; a step ends
-- where the next access to what both share begins.
pub mod Ring
pub mod Waiting
pub mod Delivery
use vrtos.Base.{
  ℕ, zero, suc, ◌+◌, ◌-◌, ◌%◌, ◌^◌, ◌≡◌, Bool, true, false, not, ◌&&◌, List, [], ◌∷◌, ◌++◌, ◌==◌,
  if◌then◌else◌, update, add32, sub32,
}

-- UART_TX_BUF_SIZE, a power of 2: `& (UART_TX_BUF_SIZE - 1)` is the rest of the division by it.
abbrev pub uart_tx_buf_size : ℕ
uart_tx_buf_size = 512

-- `tx_buf`, `tx_head` and `tx_tail`; the TXEIE bit of CR1; and what DR has got so far.
pub record Uart : Type 0 where
  pub tx_buf : ℕ → ℕ
  pub tx_head : ℕ
  pub tx_tail : ℕ
  pub txeie : Bool
  pub dr : List ℕ

-- The ring after `log_uart_init`
abbrev pub init : Uart → Uart
init u = record u { tx_head = 0; tx_tail = 0 }

unfoldable pub tx_count : Uart → ℕ
tx_count u = sub32 u.tx_head u.tx_tail % uart_tx_buf_size

unfoldable pub tx_free : Uart → ℕ
tx_free u = uart_tx_buf_size - 1 - tx_count u

-- Where `_write` is, with the bytes that are left: at the test of the loops, between the two writes of the
-- body, or outside.
pub data Place : Type 0 where
  outside : Place
  testing : List ℕ → Place
  stored : ℕ → List ℕ → Place

-- One step of `_write`
unfoldable pub write_step : Place → Uart → Uart × Place
write_step outside u = (u, outside)
write_step (testing []) u = (record u { txeie = true }, outside)
write_step (testing (x ∷ xs)) u =
    if tx_free u == 0
    then (record u { txeie = true }, testing (x ∷ xs))
    else (record u { tx_buf = update u.tx_buf (u.tx_head % uart_tx_buf_size) x }, stored x xs)
write_step (stored x xs) u = (record u { tx_head = add32 u.tx_head 1 }, testing xs)

abbrev pub send_byte : Uart → Uart
send_byte u = record u {
  dr = u.dr ++ u.tx_buf (u.tx_tail % uart_tx_buf_size) ∷ [];
  tx_tail = add32 u.tx_tail 1;
}

-- `USART2_IRQHandler`, with the TXE bit of SR
unfoldable pub irq_handler : Bool → Uart → Uart
irq_handler txe u =
    if txe && u.txeie
    then (if not (u.tx_head == u.tx_tail) then send_byte u else record u { txeie = false })
    else u

-- The loop of `uart_tx_flush`, on fuel; the hardware is ready again before each byte.
unfoldable pub flush_loop : ℕ → Uart → Uart
flush_loop zero u = u
flush_loop (suc f) u =
    let rest = flush_loop f (send_byte u) in if not (u.tx_head == u.tx_tail) then rest else u

-- `uart_tx_flush`
unfoldable pub flush : ℕ → Uart → Uart
flush fuel u = flush_loop fuel (record u { txeie = false })

-- The application's calls of `_write`, one at a time, and the interrupts, in any order. `asked` is
-- all that `_write` has been given.
pub data Reach : Uart → Place → List ℕ → Type 0 where
  power_on : (u : Uart) → u.dr ≡ [] → Reach (init u) outside []
  call :
      {u : Uart} {asked : List ℕ} (xs : List ℕ)
      → Reach u outside asked
      → Reach u (testing xs) (asked ++ xs)
  go :
      {u : Uart} {place : Place} {asked : List ℕ}
      → Reach u place asked
      → Reach (write_step place u).0 (write_step place u).1 asked
  interrupt :
      {u : Uart} {place : Place} {asked : List ℕ} (txe : Bool)
      → Reach u place asked
      → Reach (irq_handler txe u) place asked
