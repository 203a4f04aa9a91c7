-- ===== src/Kernel/Elapse.antt =====
-- A delay of src/core/kernel.c from its call to its end, over the ticks and the switches in between.
use vrtos.Base.{
  some, ℕ, suc, ◌+◌, ◌<◌, ◌≤◌, ◌^◌, ◌≡◌, ◌≢◌, ◌⊎◌, inl, inr, refl, sym, ◌∙◌, ap, arith, leb,
  Bool-cases, subst,
}
use vrtos.State.{Sys, TaskState, ready, running, blocked}
use vrtos.Kernel.{tick_handler, switch_context, delay_ticks}
use vrtos.Kernel.Tracking.{blocked_stands}
use vrtos.Kernel.Validity.{IsTask, Sound}
use vrtos.Kernel.Clock.{IsQuiet}
use vrtos.Kernel.Tick.{tick_handler-Sound, tick_handler-IsTask}
use vrtos.Kernel.Keeping.{IsAwake}
use vrtos.Kernel.Turn.{switch_context-Turned}
use vrtos.Kernel.Changes.{delay_ticks-Sound, delay_ticks-blocked, delay_ticks-IsTask}

-- From `s₀` on, ticks, `n` of them, and switches, in any order; the timers of a tick touch no task.
pub data Passes (s₀ : Sys) : ℕ → Sys → Type 0 where
  at_once : Passes s₀ 0 s₀
  a_tick :
      {n : ℕ} {s : Sys} (timer_tick : Sys → Sys)
      → IsQuiet timer_tick
      → Passes s₀ n s
      → Passes s₀ (suc n) (tick_handler timer_tick s)
  a_switch : {n : ℕ} {s : Sys} → Passes s₀ n s → Passes s₀ n (switch_context s)

module _ (idler c start ticks : ℕ) where
  -- `n` ticks after `start`, the task waits for its time, or that has come.
  record Delayed (n : ℕ) (s : Sys) : Type 0 where
    sound : Sound idler s
    task : IsTask s c
    clock : sound.now ≡ start + n
    phase :
        ((s.pool.state c ≡ blocked) × (sound.due c ≡ start + ticks))
        ⊎ (IsAwake (s.pool.state c) × (ticks ≤ n))

  awake_apart : (st : TaskState) → IsAwake st → st ≢ blocked
  awake_apart st (inl e) at = ready_apart (sym e ∙ at)
    where
      ready_apart : ready ≡ blocked → ⊥
      ready_apart e = cc
  awake_apart st (inr e) at = running_apart (sym e ∙ at)
    where
      running_apart : running ≡ blocked → ⊥
      running_apart e = cc

  tick-Delayed :
      (n : ℕ) (timer_tick : Sys → Sys) (s : Sys)
      → IsQuiet timer_tick
      → Delayed n s
      → Delayed (suc n) (tick_handler timer_tick s)
  tick-Delayed n timer_tick s quiet d =
      let (h', clock, same, woken, others) = tick_handler-Sound idler timer_tick s d.sound quiet in
      record {
        sound = h';
        task = tick_handler-IsTask idler timer_tick s d.sound quiet c d.task;
        clock = omega (arith, clock, d.clock);
        phase = elim d.phase [
          | inl waits ↦ elim (Bool-cases (leb (d.sound.due c) (d.sound.now + 1))) [
            | inl e ↦
                inr (inl (woken c d.task waits.0 ∙ rw e refl), ground (arith, e, waits.1, d.clock))
            | inr e ↦ inl (woken c d.task waits.0 ∙ rw e refl, ap (λ f. f c) same ∙ waits.1)
          ]
          | inr up ↦ inr (
            subst (λ st. IsAwake st) (sym (others c d.task (awake_apart (s.pool.state c) up.0)))
                up.0,
            omega (arith, up.1),
          )
        ];
      }

  switch-Delayed : (n : ℕ) (s : Sys) → Delayed n s → Delayed n (switch_context s)
  switch-Delayed n s d =
      let (h', due, now, kept) = switch_context-Turned idler s d.sound in
      record {
        sound = h';
        task = kept.task c d.task;
        clock = now ∙ d.clock;
        phase = elim d.phase [
          | inl waits ↦ inl (kept.asleep c d.task waits.0, ap (λ f. f c) due ∙ waits.1)
          | inr up ↦ inr (kept.awake c up.0, up.1)
        ];
      }

  Passes-Delayed : {s₀ s : Sys} {n : ℕ} → Delayed 0 s₀ → Passes s₀ n s → Delayed n s
  Passes-Delayed d at_once = d
  Passes-Delayed d (a_tick {n} {s} timer_tick quiet p) =
      tick-Delayed n timer_tick s quiet (Passes-Delayed d p)
  Passes-Delayed d (a_switch {n} {s} p) = switch-Delayed n s (Passes-Delayed d p)

  -- A BLOCKED task has its time to come.
  by_phase :
      (n : ℕ) (s : Sys)
      → Delayed n s
      → ((n < ticks) × (s.pool.state c ≡ blocked)) ⊎ ((ticks ≤ n) × IsAwake (s.pool.state c))
  by_phase n s d = elim d.phase [
    | inl waits ↦
        let ahead = d.sound.valid.ahead c (blocked_stands c d.sound.valid.tracked d.task waits.0) in
        inl (omega (arith, ahead, waits.1, d.clock), waits.0)
    | inr up ↦ inr (up.1, up.0)
  ]

-- A delay, between two steps of the kernel, of the current task, which runs and is not the idle one, by `ticks`, at
-- least 1 and less than 2^31. After it come `n` ticks, with passes over the timers that touch no task, and any
-- number of switches, in any order, and nothing else: the task is BLOCKED while `n` is less than `ticks`,
-- and READY or RUNNING from the tick `ticks` on.
pub delay_ticks-elapses :
    {n : ℕ} {s' : Sys} (idler c ticks : ℕ) (s : Sys)
    → Sound idler s
    → s.kernel.current_task ≡ some c
    → s.pool.state c ≡ running
    → c ≢ idler
    → ticks ≢ 0
    → ticks < 2 ^ 31
    → Passes (delay_ticks ticks s) n s'
    → ((n < ticks) × (s'.pool.state c ≡ blocked)) ⊎ ((ticks ≤ n) × IsAwake (s'.pool.state c))
delay_ticks-elapses {n} {s'} idler c ticks s h current runs busy some_ticks near passes =
    let (h', clock, due, is) =
      delay_ticks-Sound idler c ticks s h current runs busy some_ticks near in
    by_phase idler c h.now ticks n s' (
      Passes-Delayed idler c h.now ticks
        (record {
          sound = h';
          task = delay_ticks-IsTask c ticks s h.valid.steady.chosen current some_ticks is;
          clock = omega (arith, clock);
          phase = inl (delay_ticks-blocked c ticks s h.valid.steady.chosen current some_ticks, due);
        })
        passes)
