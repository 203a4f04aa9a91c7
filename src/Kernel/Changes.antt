-- ===== src/Kernel/Changes.antt =====
-- The steps of src/core/kernel.c that change the state of one task, between sound states.
use vrtos.Base.{
  ℕ, ◌+◌, ◌<◌, ◌^◌, ◌≡◌, ◌≢◌, inl, inr, ◌∙◌, refl, sym, ap, subst, arith, true, some, ◌∷◌, ◌++◌,
  ◌==◌, is_null, update, update_self, Bool-cases, take_while-drop_while, ltb, ==_ne, ==_self,
}
use vrtos.State.{preemptive_sp, Sys, ready, running, blocked}
use vrtos.State.Setters.{set_state}
use vrtos.Scheduler.{active}
use vrtos.Scheduler.PreemptiveSp
use vrtos.Scheduler.PreemptiveSp.Lists.{Holds, IsTimed, nowhere, in_delayed}
use vrtos.Scheduler.PreemptiveSp.Delayed.{earlier, later, due_by}
use vrtos.Kernel.{delay_ticks, delay_task, task_block, is_ready, validate_transition, yield}
use vrtos.Kernel.Delay.{delay_ticks-Holds, delay_ticks-by_preemptive}
use vrtos.Kernel.Seen.{outline}
use vrtos.Kernel.Tracking.{block-Tracked, other_apart}
use vrtos.Kernel.Validity.{IsTask, Sound, Steady-seen, Tracked-outline, Sound-changed}

ready_apart : running ≡ ready → ⊥
ready_apart e = cc

blocked_apart : running ≡ blocked → ⊥
blocked_apart e = cc

-- A delay of the current task, not the idle one, by at least 1 and less than 2^31 ticks.
delay_current-Sound :
    (idler ticks : ℕ) (s : Sys) (h : Sound idler s)
    → s.pool.state h.current ≡ running
    → h.current ≢ idler
    → ticks ≢ 0
    → ticks < 2 ^ 31
    → (h' : Sound idler (delay_ticks ticks s)) × (h'.now ≡ h.now)
      × (h'.due h.current ≡ h.now + ticks)
unfolding Sound-changed PreemptiveSp.add_to_delayed_list
delay_current-Sound idler ticks s h runs busy some_ticks near = (
  Sound-changed s s' t blocked h (ap outline steps) (ap (λ s. s.kernel.current_task) steps)
      (ap (λ s. s.pool.state) steps) (λ e. cc) (inl busy)
      (record {
        steady = Steady-seen s s' (ap outline steps) h.valid.steady;
        holds = result.2;
        timed = result.3;
        ahead = ahead;
        tracked =
            Tracked-outline s s' (update s.pool.state t blocked) (ap outline steps)
              (ap (λ s. s.pool.state) steps)
              (block-Tracked t h.is_task h.valid.tracked (earlier t ticks s h.delayed)
                (later t ticks s h.delayed) whole);
      }),
  refl,
  update_self h.due t (h.now + ticks),
)
  where
    t : ℕ
    t = h.current

    s' : Sys
    s' = delay_ticks ticks s

    steps : s' ≡ yield (PreemptiveSp.add_to_delayed_list t ticks (set_state t blocked s))
    steps = delay_ticks-by_preemptive t ticks s h.valid.steady.chosen h.current_is some_ticks

    away : h.place t ≡ nowhere
    away =
        other_apart t h.valid.tracked h.is_task (λ e. ready_apart (sym runs ∙ e))
          (λ e. blocked_apart (sym runs ∙ e))

    result :
        (s'.pool.state t ≡ blocked)
        × (s'.pendsv ≡ true)
        × Holds s'
            (update h.place t in_delayed)
            h.lists
            (earlier t ticks s h.delayed ++ t ∷ later t ticks s h.delayed)
        × IsTimed s'
            (update h.due t (h.now + ticks))
            h.now
            (earlier t ticks s h.delayed ++ t ∷ later t ticks s h.delayed)
    result =
        delay_ticks-Holds t ticks h.now s h.place h.lists h.delayed h.due h.valid.steady.chosen
          h.current_is h.valid.holds h.valid.timed (h.valid.steady.small t h.is_task) away
          some_ticks near

    whole : earlier t ticks s h.delayed ++ later t ticks s h.delayed ≡ h.delayed
    whole = take_while-drop_while (due_by (update s.pool.delay_until t _) _) h.delayed

    ahead :
        (x : ℕ)
        → update h.place t in_delayed x ≡ in_delayed
        → h.now < update h.due t (h.now + ticks) x
    ahead x at = elim (Bool-cases (x == t)) [
      | inl e ↦ rw e (omega arith)
      | inr e ↦ rw e (h.valid.ahead x (rw e at at))
    ]

pub delay_ticks-Sound :
    (idler c ticks : ℕ) (s : Sys) (h : Sound idler s)
    → s.kernel.current_task ≡ some c
    → s.pool.state c ≡ running
    → c ≢ idler
    → ticks ≢ 0
    → ticks < 2 ^ 31
    → (h' : Sound idler (delay_ticks ticks s)) × (h'.now ≡ h.now)
      × (h'.due c ≡ h.now + ticks)
      × IsTask s c
delay_ticks-Sound idler c ticks s h current runs busy some_ticks near =
    subst
      (λ c.
        s.pool.state c ≡ running
        → c ≢ idler
        → (h' : Sound idler (delay_ticks ticks s)) × (h'.now ≡ h.now)
          × (h'.due c ≡ h.now + ticks)
          × IsTask s c)
      same
      (λ runs busy.
        let (h', clock, due) = delay_current-Sound idler ticks s h runs busy some_ticks near in
        (h', clock, due, h.is_task))
      runs busy
  where
    same : h.current ≡ c
    same = cc (sym h.current_is ∙ current)

-- The delayed task is BLOCKED.
module _ (t ticks : ℕ) (s : Sys) (a : active s ≡ some preemptive_sp)
    (current : s.kernel.current_task ≡ some t) (some_ticks : ticks ≢ 0) where
  pub delay_ticks-blocked : (delay_ticks ticks s).pool.state t ≡ blocked
  unfolding PreemptiveSp.add_to_delayed_list
  delay_ticks-blocked =
      ap (λ s. s.pool.state t) (delay_ticks-by_preemptive t ticks s a current some_ticks)
      ∙ update_self s.pool.state t blocked

  pub delay_ticks-IsTask : IsTask s t → IsTask (delay_ticks ticks s) t
  unfolding PreemptiveSp.add_to_delayed_list
  delay_ticks-IsTask is =
      ap (λ s. is_null (s.pool.task_function t))
        (delay_ticks-by_preemptive t ticks s a current some_ticks)
      ∙ is

-- For the current task, which runs, `rtos_kernel_task_block` with a time limit does what a delay does.
pub task_block-delay :
    (c ticks : ℕ) (s : Sys)
    → s.kernel.current_task ≡ some c
    → s.pool.state c ≡ running
    → ticks ≢ 0
    → task_block c ticks s ≡ delay_ticks ticks s
unfolding task_block delay_ticks delay_task is_ready validate_transition
task_block-delay c ticks s current runs some_ticks =
    let limited : ltb 0 ticks ≡ true = ground (arith, some_ticks) in
    rw (runs, current, limited, ==_ne ticks 0 some_ticks, ==_self c) refl
