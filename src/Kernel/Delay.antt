-- ===== src/Kernel/Delay.antt =====
-- `rtos_delay_ticks` of src/core/kernel.c under the preemptive scheduler.
use vrtos.Base.{
  ℕ, ◌+◌, ◌<◌, ◌^◌, ◌≡◌, ◌≢◌, refl, sym, ap, ◌∙◌, true, some, List, ◌∷◌, ◌++◌, ==_ne, update,
  update_self, NotIn-place,
}
use vrtos.State.{Sys, blocked, preemptive_sp, max_tasks}
use vrtos.State.Setters.{set_state}
use vrtos.Scheduler
use vrtos.Scheduler.{active}
use vrtos.Scheduler.PreemptiveSp
use vrtos.Scheduler.PreemptiveSp.Lists.{Holds, IsTimed, Place, nowhere, in_delayed}
use vrtos.Scheduler.PreemptiveSp.Delayed.{earlier, later, add_to_delayed_list-Holds}
use vrtos.Scheduler.PreemptiveSp.Timing.{add_to_delayed_list-IsTimed}
use vrtos.Kernel.{delay_ticks, delay_task, yield}
use vrtos.Kernel.Switch.{Holds-same}

pub delayed_by_preemptive :
    (t ticks : ℕ) (s : Sys)
    → active s ≡ some preemptive_sp
    → Scheduler.add_to_delayed_list t ticks s ≡ PreemptiveSp.add_to_delayed_list t ticks s
unfolding Scheduler.add_to_delayed_list
delayed_by_preemptive t ticks s a = rw a refl

delayed-state :
    (t ticks : ℕ) (s : Sys) → (PreemptiveSp.add_to_delayed_list t ticks s).pool.state ≡ s.pool.state
unfolding PreemptiveSp.add_to_delayed_list
delayed-state t ticks s = refl

-- The times depend on the tick and on the wake-up times of the tasks only.
pub IsTimed-same :
    (s s' : Sys) (due : ℕ → ℕ) (now : ℕ) (delayed : List ℕ)
    → s'.kernel.tick_count ≡ s.kernel.tick_count
    → s'.pool.delay_until ≡ s.pool.delay_until
    → IsTimed s due now delayed
    → IsTimed s' due now delayed
IsTimed-same s s' due now delayed k d h =
    rw (k, d) (record { tick = h.tick; near = h.near; sorted = h.sorted })

-- A delay by its parts.
pub delay_ticks-by_preemptive :
    (t ticks : ℕ) (s : Sys)
    → active s ≡ some preemptive_sp
    → s.kernel.current_task ≡ some t
    → ticks ≢ 0
    → delay_ticks ticks s ≡ yield (PreemptiveSp.add_to_delayed_list t ticks (set_state t blocked s))
unfolding delay_ticks delay_task
delay_ticks-by_preemptive t ticks s a current some_ticks =
    ap (λ c. delay_task c ticks s) current
    ∙ rw (==_ne ticks 0 some_ticks)
        (ap yield (delayed_by_preemptive t ticks (set_state t blocked s) a))

-- Under the preemptive scheduler, with its lists in order and the delayed ones sorted by their
-- times: a delay of the current task, which is in no list, by at least 1 and less than 2^31 ticks
-- blocks it and asks for a switch; the task stands in the delayed list by its wake-up time,
-- `ticks` after now, and the lists, their order and the map stay right.
pub delay_ticks-Holds :
    (t ticks now : ℕ) (s : Sys) (place : ℕ → Place) (lists : ℕ → List ℕ) (delayed : List ℕ)
    (due : ℕ → ℕ)
    → active s ≡ some preemptive_sp
    → s.kernel.current_task ≡ some t
    → Holds s place lists delayed
    → IsTimed s due now delayed
    → t < max_tasks
    → place t ≡ nowhere
    → ticks ≢ 0
    → ticks < 2 ^ 31
    → let s' = delay_ticks ticks s in
      let delayed' = earlier t ticks s delayed ++ t ∷ later t ticks s delayed in
      (s'.pool.state t ≡ blocked)
      × (s'.pendsv ≡ true)
      × Holds s' (update place t in_delayed) lists delayed'
      × IsTimed s' (update due t (now + ticks)) now delayed'
delay_ticks-Holds t ticks now s place lists delayed due a current h timed small away some_ticks
      near =
    rw steps (
      ap (λ f. f t) (delayed-state t ticks s₁) ∙ update_self s.pool.state t blocked,
      refl,
      holds,
      timed',
    )
  where
    differ : in_delayed ≢ nowhere
    differ e = cc

    s₁ : Sys
    s₁ = set_state t blocked s

    h₁ : Holds s₁ place lists delayed
    h₁ = Holds-same s s₁ place lists delayed refl refl refl refl h

    s₂ : Sys
    s₂ = PreemptiveSp.add_to_delayed_list t ticks s₁

    steps : delay_ticks ticks s ≡ yield s₂
    steps = delay_ticks-by_preemptive t ticks s a current some_ticks

    holds :
        Holds
          (yield s₂)
          (update place t in_delayed)
          lists
          (earlier t ticks s delayed ++ t ∷ later t ticks s delayed)
    holds =
        Holds-same s₂ (yield s₂) _ lists _ refl refl refl refl
          (add_to_delayed_list-Holds t ticks s₁ place lists delayed h₁ small away)

    timed' :
        IsTimed
          (yield s₂)
          (update due t (now + ticks))
          now
          (earlier t ticks s delayed ++ t ∷ later t ticks s delayed)
    timed' = IsTimed-same s₂ (yield s₂) (update due t (now + ticks)) now _ refl refl (
        add_to_delayed_list-IsTimed t ticks s₁ due now delayed
          (IsTimed-same s s₁ due now delayed refl refl timed) near
          (NotIn-place place in_delayed t delayed h.delayed_place (λ e. differ (sym e ∙ away)))
          h₁.delayed_list)
