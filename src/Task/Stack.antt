-- ===== src/Task/Stack.antt =====
-- The stack of a new task, and the canary: words of 32 bits in memory, the low byte first.
pub mod Frame
use vrtos.Base.{
  ℕ, zero, suc, ◌+◌, ◌-◌, ◌*◌, ◌/◌, ◌%◌, ◌^◌, Bool, true, false, not, ◌&&◌, ◌||◌, Option, none,
  some, List, [], ◌∷◌, ◌==◌, if◌then◌else◌, is_null, ◌▷◌, update, bit_or, sub32,
}
use vrtos.State.{Sys, max_tasks}
use vrtos.Memory.{malloc}

unfoldable pub write_word : ℕ → ℕ → (ℕ → ℕ) → ℕ → ℕ
write_word a v bytes =
    update
      (update (update (update bytes a (v % 256)) (a + 1) (v / 256 % 256)) (a + 2) (v / 65536 % 256))
      (a + 3) (v / 16777216 % 256)

unfoldable pub read_word : (ℕ → ℕ) → ℕ → ℕ
read_word bytes a = bytes a + bytes (a + 1) * 256 + bytes (a + 2) * 65536 + bytes (a + 3) * 16777216

abbrev pub stack_canary_value : ℕ
stack_canary_value = 3235823838

abbrev pub initial_xpsr : ℕ
initial_xpsr = 16777216

abbrev pub initial_exc_return : ℕ
initial_exc_return = 4294967293

-- `ALIGN_DOWN(value, 8)`
abbrev pub align8_down : ℕ → ℕ
align8_down a = a / 8 * 8

-- `*--stack_ptr = v` for each of the values.
unfoldable pub push_words : List ℕ → ℕ → (ℕ → ℕ) → (ℕ → ℕ) × ℕ
push_words [] stack_ptr bytes = (bytes, stack_ptr)
push_words (v ∷ vs) stack_ptr bytes =
    let next = sub32 stack_ptr 4 in push_words vs next (write_word next v bytes)

-- xPSR, PC, LR, R12, R3 to R0, EXC_RETURN and R11 to R4.
abbrev pub first_frame : ℕ → ℕ → List ℕ
first_frame task_function parameter =
    initial_xpsr
    ∷ bit_or task_function 1
    ∷ initial_exc_return
    ∷ 0
    ∷ 0
    ∷ 0
    ∷ 0
    ∷ parameter
    ∷ initial_exc_return
    ∷ 0
    ∷ 0
    ∷ 0
    ∷ 0
    ∷ 0
    ∷ 0
    ∷ 0
    ∷ 0
    ∷ []

-- `rtos_port_init_task_stack`: the memory, and the stack pointer.
unfoldable pub init_task_stack : ℕ → ℕ → ℕ → (ℕ → ℕ) → (ℕ → ℕ) × ℕ
init_task_stack stack_top task_function parameter bytes =
    push_words (first_frame task_function parameter) (align8_down stack_top) bytes

-- `rtos_task_allocate_stack`: the top of the block.
unfoldable pub top_of : ℕ → Sys × Option ℕ → Sys × Option ℕ
top_of size (s, none) = (s, none)
top_of size (s, some stack_block) = (s, some (align8_down (stack_block + size)))

unfoldable pub allocate_stack : ℕ → Sys → Sys × Option ℕ
unfolding top_of
allocate_stack size s = top_of size (malloc size s)

-- Whether the word at the base of a stack is not the canary.
unfoldable pub has_overflowed : Option ℕ → (ℕ → ℕ) → Bool
has_overflowed none bytes = false
has_overflowed (some a) bytes = not (read_word bytes a == stack_canary_value)

any_overflowed : ℕ → ℕ → Sys → Bool
any_overflowed zero i s = false
any_overflowed (suc f) i s =
    (not (is_null (s.pool.task_function i)) && has_overflowed (s.pool.stack_base i) s.bytes)
    || any_overflowed f (i + 1) s

-- `rtos_task_check_stack`
unfoldable pub check_stack : Option ℕ → Sys → Bool
unfolding has_overflowed any_overflowed
check_stack none s = any_overflowed max_tasks 0 s
check_stack (some t) s = has_overflowed (s.pool.stack_base t) s.bytes
