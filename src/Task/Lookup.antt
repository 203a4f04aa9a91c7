-- ===== src/Task/Lookup.antt =====
-- The look-ups of src/task/task.c.
use vrtos.Base.{
  ℕ, zero, suc, ◌+◌, Bool, false, not, ◌&&◌, Option, none, some, ltb, leb, if◌then◌else◌, is_null,
}
use vrtos.State.{Sys, TaskState, deleted, max_tasks}

-- `rtos_get_current_task_id`
unfoldable pub get_current_task_id : Sys → ℕ
get_current_task_id s = elim s.kernel.current_task [ none ↦ 255 | some t ↦ s.pool.task_id t ]

-- `rtos_task_get_name`, with `none` for the name "?".
unfoldable pub get_name : ℕ → Sys → Option ℕ
get_name task_id s = if ltb task_id s.task_count then s.pool.name task_id else none

-- `rtos_task_get_state`, `rtos_task_get_priority`
unfoldable pub get_state : Option ℕ → Sys → TaskState
get_state none s = deleted
get_state (some t) s = s.pool.state t

unfoldable pub get_priority : Option ℕ → Sys → ℕ
get_priority none s = 0
get_priority (some t) s = s.pool.priority t

-- `rtos_task_get_by_id`
unfoldable pub get_by_id : ℕ → Sys → Option ℕ
get_by_id task_id s =
    if leb max_tasks task_id
    then none
    else (if is_null (s.pool.task_function task_id) then none else some task_id)

-- `same a b` is `strcmp(a, b) == 0` on the strings at two addresses.
has_name : (ℕ → ℕ → Bool) → Option ℕ → ℕ → Bool
has_name same none name = false
has_name same (some n) name = same n name

find_name : (ℕ → ℕ → Bool) → ℕ → ℕ → ℕ → Sys → Option ℕ
find_name same zero i name s = none
find_name same (suc f) i name s =
    let rest = find_name same f (i + 1) name s in
    if not (is_null (s.pool.task_function i)) && has_name same (s.pool.name i) name
    then some i
    else rest

-- `rtos_task_get_by_name`
unfoldable pub get_by_name : (ℕ → ℕ → Bool) → Option ℕ → Sys → Option ℕ
unfolding find_name has_name
get_by_name same none s = none
get_by_name same (some name) s = find_name same max_tasks 0 name s
