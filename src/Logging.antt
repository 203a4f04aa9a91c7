-- ===== src/Logging.antt =====
-- The logging of src/logging: the bytes to the UART, the records of the kernel's log, and the lines of the
-- user's log.
pub mod UartTx
pub mod Records
pub mod Klog
