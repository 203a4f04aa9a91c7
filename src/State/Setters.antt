-- ===== src/State/Setters.antt =====
-- Assignments to one field of one structure: `set_next t v` is `t->next = v`. Those with a `?`
-- go through a pointer and do nothing where it is NULL.
use vrtos.Base.{ℕ, Option, Bool, update, update?}
use vrtos.State.{Sys, TaskState, SyncType, Object}

abbrev pub set_state : ℕ → TaskState → Sys → Sys
set_state t v s = record s { pool = record s.pool { state = update s.pool.state t v } }

abbrev pub set_priority : ℕ → ℕ → Sys → Sys
set_priority t v s = record s { pool = record s.pool { priority = update s.pool.priority t v } }

abbrev pub set_delay_until : ℕ → ℕ → Sys → Sys
set_delay_until t v s = record s {
  pool = record s.pool { delay_until = update s.pool.delay_until t v };
}

abbrev pub set_next : ℕ → Option ℕ → Sys → Sys
set_next t v s = record s { pool = record s.pool { next = update s.pool.next t v } }

abbrev pub set_prev : ℕ → Option ℕ → Sys → Sys
set_prev t v s = record s { pool = record s.pool { prev = update s.pool.prev t v } }

abbrev pub set_next_waiting : ℕ → Option ℕ → Sys → Sys
set_next_waiting t v s = record s {
  pool = record s.pool { next_waiting = update s.pool.next_waiting t v };
}

abbrev pub set_blocked_on : ℕ → Option Object → Sys → Sys
set_blocked_on t v s = record s {
  pool = record s.pool { blocked_on = update s.pool.blocked_on t v };
}

abbrev pub set_blocked_on_type : ℕ → SyncType → Sys → Sys
set_blocked_on_type t v s = record s {
  pool = record s.pool { blocked_on_type = update s.pool.blocked_on_type t v };
}

abbrev pub set_held_mutex_list : ℕ → Option ℕ → Sys → Sys
set_held_mutex_list t v s = record s {
  pool = record s.pool { held_mutex_list = update s.pool.held_mutex_list t v };
}

abbrev pub set_notification_value : ℕ → ℕ → Sys → Sys
set_notification_value t v s = record s {
  pool = record s.pool { notification_value = update s.pool.notification_value t v };
}

abbrev pub set_notification_pending : ℕ → ℕ → Sys → Sys
set_notification_pending t v s = record s {
  pool = record s.pool { notification_pending = update s.pool.notification_pending t v };
}

abbrev pub set_event_wait_bits : ℕ → ℕ → Sys → Sys
set_event_wait_bits t v s = record s {
  pool = record s.pool { event_wait_bits = update s.pool.event_wait_bits t v };
}

abbrev pub set_event_wait_all : ℕ → Bool → Sys → Sys
set_event_wait_all t v s = record s {
  pool = record s.pool { event_wait_all = update s.pool.event_wait_all t v };
}

abbrev pub set_event_clear_on_exit : ℕ → Bool → Sys → Sys
set_event_clear_on_exit t v s = record s {
  pool = record s.pool { event_clear_on_exit = update s.pool.event_clear_on_exit t v };
}

abbrev pub set_ready_timestamp : ℕ → ℕ → Sys → Sys
set_ready_timestamp t v s = record s {
  pool = record s.pool { ready_timestamp = update s.pool.ready_timestamp t v };
}

abbrev pub set_next? : Option ℕ → Option ℕ → Sys → Sys
set_next? p v s = record s { pool = record s.pool { next = update? s.pool.next p v } }

abbrev pub set_prev? : Option ℕ → Option ℕ → Sys → Sys
set_prev? p v s = record s { pool = record s.pool { prev = update? s.pool.prev p v } }

abbrev pub set_current_task : Option ℕ → Sys → Sys
set_current_task v s = record s { kernel = record s.kernel { current_task = v } }

abbrev pub set_next_task : Option ℕ → Sys → Sys
set_next_task v s = record s { kernel = record s.kernel { next_task = v } }

abbrev pub set_tick_count : ℕ → Sys → Sys
set_tick_count v s = record s { kernel = record s.kernel { tick_count = v } }
