-- ===== src/Timer.antt =====
-- Software timers, src/timer/timer.c and timer_list.c: the list of the active timers in the order in
-- which they expire, and the tick that runs the callbacks. A timer is the address of its block. A
-- callback is code of the application: `callback f t p` is the call of the function `f` with the timer
-- `t` and the parameter `p`.
pub mod Reload
pub mod Order
pub mod Settling
pub mod Expiry
pub mod Rounds
pub mod Ticking
pub mod Quiet
use vrtos.Base.{
  ℕ, zero, suc, Bool, true, false, Option, none, some, ◌==◌, ◌==?◌, if◌then◌else◌, is_null, ◌||◌,
  ◌▷◌, update, find_before, add32, signed_le, signed_lt,
}
use vrtos.State.{Sys, Status, success, invalid_param, no_memory}
use vrtos.Memory.{malloc}

abbrev pub set_active_timers : Option ℕ → Sys → Sys
set_active_timers v s = record s { timers = record s.timers { active_timers = v } }

abbrev pub set_timer_next : ℕ → Option ℕ → Sys → Sys
set_timer_next t v s = record s { timers = record s.timers { next = update s.timers.next t v } }

abbrev pub set_expiry_time : ℕ → ℕ → Sys → Sys
set_expiry_time t v s = record s {
  timers = record s.timers { expiry_time = update s.timers.expiry_time t v };
}

abbrev pub set_active : ℕ → Bool → Sys → Sys
set_active t v s = record s { timers = record s.timers { active = update s.timers.active t v } }

abbrev pub set_period : ℕ → ℕ → Sys → Sys
set_period t v s = record s { timers = record s.timers { period = update s.timers.period t v } }

-- As many blocks of `sizeof(rtos_timer_t)` as the heap holds.
abbrev pub max_timers : ℕ
max_timers = 256

abbrev pub timer_size : ℕ
timer_size = 32

-- Whether the timer `t` expires before `n`: `time_before(t->expiry_time, n->expiry_time)`.
abbrev pub expires_before : Sys → ℕ → ℕ → Bool
expires_before s t n = signed_lt (s.timers.expiry_time t) (s.timers.expiry_time n)

insert_from : ℕ → Option ℕ → Sys → Sys
insert_from t none s = s ▷ set_active_timers (some t) ▷ set_timer_next t none
insert_from t (some h) s =
    let current = find_before (expires_before s t) s.timers.next max_timers h in
    if expires_before s t h
    then (s ▷ set_timer_next t (some h) ▷ set_active_timers (some t))
    else (s ▷ set_timer_next t (s.timers.next current) ▷ set_timer_next current (some t))

-- `timer_insert_active_list`
unfoldable pub timer_insert_active_list : ℕ → Sys → Sys
unfolding insert_from
timer_insert_active_list t s = insert_from t s.timers.active_timers s

remove_from : ℕ → Option ℕ → Sys → Sys
remove_from t none s = s
remove_from t (some h) s =
    let current = find_before (λ n. n == t) s.timers.next max_timers h in
    if h == t
    then (s ▷ set_active_timers (s.timers.next t) ▷ set_timer_next t none)
    else (if s.timers.next current ==? t
        then (s ▷ set_timer_next current (s.timers.next t) ▷ set_timer_next t none)
        else s)

-- `timer_remove_active_list`
unfoldable pub timer_remove_active_list : ℕ → Sys → Sys
unfolding remove_from
timer_remove_active_list t s = remove_from t s.timers.active_timers s

-- The next expiry in the future: periods are added until there is one. `none`: not within the fuel.
unfoldable pub reload : ℕ → ℕ → ℕ → ℕ → Option ℕ
reload zero period now expiry = none
reload (suc f) period now expiry =
    let expiry' = add32 expiry period in
    let rest = reload f period now expiry' in if signed_le expiry' now then rest else some expiry'

-- A period is at least 1 tick and the comparison looks 2^31 ticks back.
abbrev pub reload_rounds : ℕ
reload_rounds = 2147483648

insert_again : ℕ → Option ℕ → Sys → Option Sys
insert_again t none s = none
insert_again t (some expiry) s = some (s ▷ set_expiry_time t expiry ▷ timer_insert_active_list t)

unfoldable pub call_back : (ℕ → ℕ → ℕ → Sys → Sys) → ℕ → Option ℕ → Sys → Sys
call_back callback t none s = s
call_back callback t (some f) s = callback f t (s.timers.parameter t) s

-- A timer that has expired, and heads the list, is handled; `none` when its next expiry is not found.
unfoldable pub expire : (ℕ → ℕ → ℕ → Sys → Sys) → ℕ → Sys → Option Sys
unfolding insert_again call_back
expire callback t s =
    let s₁ = s ▷ set_active_timers (s.timers.next t) ▷ set_timer_next t none in
    let s₂ = call_back callback t (s₁.timers.callback t) s₁ in
    let again =
      insert_again t
        (reload reload_rounds (s₂.timers.period t) s₂.kernel.tick_count (s₂.timers.expiry_time t))
        s₂ in
    if s₂.timers.auto_reload t then again else some (set_active t false s₂)

-- The loop of `rtos_timer_tick`, on fuel; `none` when it is not enough.
unfoldable pub tick_from : (ℕ → ℕ → ℕ → Sys → Sys) → ℕ → ℕ → Option ℕ → Sys → Option Sys
tick_from callback zero current_tick head s = none
tick_from callback (suc f) current_tick none s = some s
tick_from callback (suc f) current_tick (some t) s =
    elim (signed_le (s.timers.expiry_time t) current_tick) [
      | false ↦ some s
      | true ↦ elim (expire callback t s) [
        | none ↦ none
        | some s' ↦ tick_from callback f current_tick s'.timers.active_timers s'
      ]
    ]

-- `rtos_timer_tick`. With no active timer the early return is the loop's own end.
unfoldable pub timer_tick : (ℕ → ℕ → ℕ → Sys → Sys) → ℕ → Sys → Option Sys
timer_tick callback rounds s =
    tick_from callback rounds s.kernel.tick_count s.timers.active_timers s

create_at : Option ℕ → ℕ → Bool → Option ℕ → ℕ → Sys × Option ℕ → Sys × Status × Option ℕ
create_at name period_ticks auto_reload callback parameter (s, none) = (s, no_memory, none)
create_at name period_ticks auto_reload callback parameter (s, some t) =
    let s₁ = record s {
      timers = record s.timers {
        name = update s.timers.name t name;
        period = update s.timers.period t period_ticks;
        expiry_time = update s.timers.expiry_time t 0;
        auto_reload = update s.timers.auto_reload t auto_reload;
        callback = update s.timers.callback t callback;
        parameter = update s.timers.parameter t parameter;
        active = update s.timers.active t false;
        next = update s.timers.next t none;
      };
    } in
    (s₁, success, some t)

-- `rtos_timer_create`: the status, and the handle that it writes.
unfoldable pub timer_create : Option ℕ → ℕ → Bool → Option ℕ → ℕ → Sys → Sys × Status × Option ℕ
unfolding create_at
timer_create name period_ticks auto_reload callback parameter s =
    if is_null callback || period_ticks == 0
    then (s, invalid_param, none)
    else create_at name period_ticks auto_reload callback parameter (malloc timer_size s)

restart : ℕ → Sys → Sys
restart t s =
    s
    ▷ set_expiry_time t (add32 s.kernel.tick_count (s.timers.period t))
    ▷ set_active t true
    ▷ timer_insert_active_list t

-- `rtos_timer_start`
unfoldable pub timer_start : ℕ → Sys → Sys × Status
unfolding restart
timer_start t s =
    (restart t (if s.timers.active t then timer_remove_active_list t s else s), success)

-- `rtos_timer_stop`
unfoldable pub timer_stop : ℕ → Sys → Sys × Status
timer_stop t s = (
  if s.timers.active t then (s ▷ timer_remove_active_list t ▷ set_active t false) else s,
  success,
)

move_expiry : ℕ → Sys → Sys
move_expiry t s =
    s
    ▷ set_expiry_time t (add32 s.kernel.tick_count (s.timers.period t))
    ▷ timer_insert_active_list t

-- `rtos_timer_change_period`
unfoldable pub timer_change_period : ℕ → ℕ → Sys → Sys × Status
unfolding move_expiry
timer_change_period t new_period_ticks s =
    let s₁ = set_period t new_period_ticks s in
    if new_period_ticks == 0 then (s, invalid_param) else (
      if s₁.timers.active t then (s₁ ▷ timer_remove_active_list t ▷ move_expiry t) else s₁,
      success,
    )

-- `rtos_timer_delete`; `rtos_free` gives nothing back.
unfoldable pub timer_delete : ℕ → Sys → Sys × Status
timer_delete t s = ((timer_stop t s).0, success)
