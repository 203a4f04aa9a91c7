-- ===== src/Port.antt =====
-- The critical sections of src/port/cortex_m4/port.c: the BASEPRI register, which masks the interrupts of
-- the kernel, and the counter of the sections that are open.
pub mod Sections
use vrtos.Base.{ℕ, ◌+◌, ◌-◌, ltb, ◌==◌, if◌then◌else◌, add32, sub32}

-- `basepri` is the register; `mask` is PORT_MAX_INTERRUPT_PRIORITY; the others are globals of the file.
pub record Port : Type 0 where
  pub basepri : ℕ
  pub critical_nesting : ℕ
  pub critical_basepri : ℕ

-- `rtos_port_enter_critical`
unfoldable pub enter_critical : ℕ → Port → Port
enter_critical mask p =
    let nesting = add32 p.critical_nesting 1 in
    record {
      basepri = mask;
      critical_nesting = nesting;
      critical_basepri = (if nesting == 1 then p.basepri else p.critical_basepri);
    }

-- `rtos_port_exit_critical`
unfoldable pub exit_critical : Port → Port
exit_critical p =
    let nesting = sub32 p.critical_nesting 1 in
    if ltb 0 p.critical_nesting
    then record p {
      critical_nesting = nesting;
      basepri = (if nesting == 0 then p.critical_basepri else p.basepri);
    }
    else p

-- `rtos_port_enter_critical_from_isr`, with the saved value
unfoldable pub enter_critical_from_isr : ℕ → Port → Port × ℕ
enter_critical_from_isr mask p = (record p { basepri = mask }, p.basepri)

-- `rtos_port_exit_critical_from_isr`
unfoldable pub exit_critical_from_isr : ℕ → Port → Port
exit_critical_from_isr saved_priority p = record p { basepri = saved_priority }
