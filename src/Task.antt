-- ===== src/Task.antt =====
-- Task management, src/task/task.c, with the first stack frame of src/port/cortex_m4/port.c. A stack
-- lies in the heap of src/core/memory.c, and an address is an offset into it.
pub mod Stack
pub mod Creation
pub mod Lookup
pub mod Life
