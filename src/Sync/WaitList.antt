-- ===== src/Sync/WaitList.antt =====
-- The list of waiting tasks of one object. The functions take the list's head and return the new one
-- beside the state. Loops run on fuel `max_tasks`, the number of tasks that can wait.
pub mod Laws
pub mod Removal
use vrtos.Base.{
  ℕ, Bool, true, false, Option, none, some, leb, ◌==◌, ◌==?◌, if◌then◌else◌, is_null, ◌▷◌, update,
  walk, find_before,
}
use vrtos.State.{Sys, Object, SyncType, sync_none, max_tasks}
use vrtos.State.Setters.{set_next_waiting, set_blocked_on, set_blocked_on_type}

abbrev pub clear_wait : ℕ → Sys → Sys
clear_wait t s =
    s ▷ set_next_waiting t none ▷ set_blocked_on t none ▷ set_blocked_on_type t sync_none

abbrev pub start_wait : Object → SyncType → ℕ → Sys → Sys
start_wait object type t s =
    s ▷ set_next_waiting t none ▷ set_blocked_on t (some object) ▷ set_blocked_on_type t type

-- Whether a waiting task stays before a new one of priority `p`.
abbrev pub stays_before : Sys → ℕ → ℕ → Bool
stays_before s p c = leb p (s.pool.priority c)

link_waiter : Option ℕ → ℕ → Option ℕ × Option ℕ → Sys → Sys × Option ℕ
link_waiter head t (none, after) s = (set_next_waiting t head s, some t)
link_waiter head t (some before, after) s =
    (s ▷ set_next_waiting t after ▷ set_next_waiting before (some t), head)

-- `…_add_to_waiting_list`, after the fields of the task are set. On an empty list the scan finds
-- nothing and the task becomes the head, as in the source's early return.
unfoldable pub insert : Option ℕ → ℕ → Sys → Sys × Option ℕ
unfolding link_waiter
insert head t s =
    link_waiter head t
      (walk (stays_before s (s.pool.priority t)) s.pool.next_waiting max_tasks none head) s

unlink_waiter : ℕ → ℕ → Sys → Sys
unlink_waiter current t s =
    let links = update s.pool.next_waiting current (s.pool.next_waiting t) in
    let next_waiting = if s.pool.next_waiting current ==? t then links else s.pool.next_waiting in
    record s { pool = record s.pool { next_waiting = next_waiting } }

remove_from : Option ℕ → ℕ → Sys → Sys × Option ℕ
remove_from none t s = (s, none)
remove_from (some h) t s =
    let current = find_before (λ n. n == t) s.pool.next_waiting max_tasks h in
    if h == t
    then (clear_wait t s, s.pool.next_waiting t)
    else (clear_wait t (unlink_waiter current t s), some h)

-- `…_remove_from_waiting_list`
unfoldable pub remove : Option ℕ → ℕ → Sys → Sys × Option ℕ
unfolding remove_from unlink_waiter
remove head t s = remove_from head t s

-- `…_pop_highest_priority_waiter`: the state, the new head, and the task.
unfoldable pub pop : Option ℕ → Sys → Sys × Option ℕ × Option ℕ
pop none s = (s, none, none)
pop (some t) s = (clear_wait t s, s.pool.next_waiting t, some t)
