-- ===== src/Memory.antt =====
-- The bump allocator, src/core/memory.c, over the `total_heap_size` bytes from `heap_base`, the
-- address of `g_heap_memory`, on; an array of bytes may lie at any address. `size_t` is 32 bits wide.
pub mod Blocks
use vrtos.Base.{
  ℕ, ◌+◌, ◌-◌, ◌*◌, ◌/◌, ◌%◌, ◌^◌, Option, none, some, ltb, leb, ◌&&◌, if◌then◌else◌, add32,
}
use vrtos.State.{Sys, total_heap_size}

-- `ALIGN8_UP(size)`: `(size + 7) & ~7`, in 32 bits.
unfoldable pub align8_up : ℕ → ℕ
align8_up size = add32 size 7 / 8 * 8

-- `rtos_malloc`
unfoldable pub malloc : ℕ → Sys → Sys × Option ℕ
malloc size s =
    let aligned = align8_up size in
    if ltb total_heap_size (add32 s.heap_index aligned)
    then (s, none)
    else (record s { heap_index = add32 s.heap_index aligned }, some (s.heap_base + s.heap_index))

-- `rtos_memory_init`
unfoldable pub init : Sys → Sys
init s = record s {
  heap_index = 0;
  bytes = λ a. if leb s.heap_base a && ltb a (s.heap_base + total_heap_size) then 0 else s.bytes a;
}
