-- ===== src/Kernel/Clock.antt =====
-- The tick, `rtos_kernel_tick_handler` of src/core/kernel.c, between sound states.
use vrtos.Base.{
  ℕ, ◌+◌, ◌<◌, ◌≤◌, ◌%◌, ◌^◌, ◌≡◌, inl, inr, refl, sym, ap, subst, ◌∙◌, arith, Bool, true, ◌&&◌,
  Option, none, some, List, [], ◌∷◌, if◌then◌else◌, add32, Bool-cases, All,
}
use vrtos.State.{Sys, Instance, SchedulerType, kernel_running, preemptive_sp}
use vrtos.State.Setters.{set_tick_count}
use vrtos.Scheduler
use vrtos.Scheduler.{active}
use vrtos.Scheduler.PreemptiveSp
use vrtos.Scheduler.PreemptiveSp.Lists.{IsTimed}
use vrtos.Kernel.{tick_handler, tick_scheduler, yield_if, is_running}
use vrtos.Kernel.Switch.{next_by_preemptive}
use vrtos.Kernel.Seen.{seen-update_delayed_tasks}

-- A pass over the software timers whose callbacks touch no task.
pub record IsQuiet (timer_tick : Sys → Sys) : Type 0 where
  pub pool : (s : Sys) → (timer_tick s).pool ≡ s.pool
  pub kernel : (s : Sys) → (timer_tick s).kernel ≡ s.kernel
  pub preemptive : (s : Sys) → (timer_tick s).preemptive ≡ s.preemptive
  pub scheduler : (s : Sys) → (timer_tick s).scheduler ≡ s.scheduler

update_by_preemptive :
    (s : Sys)
    → active s ≡ some preemptive_sp
    → Scheduler.update_delayed_tasks s ≡ PreemptiveSp.update_delayed_tasks s
unfolding Scheduler.update_delayed_tasks
update_by_preemptive s a = rw a refl

preempt_by_preemptive :
    (t : Option ℕ) (s : Sys)
    → active s ≡ some preemptive_sp
    → Scheduler.should_preempt t s ≡ (s, PreemptiveSp.should_preempt t s.kernel.current_task s)
unfolding Scheduler.should_preempt
preempt_by_preemptive t s a = rw a refl

-- A tick by its parts: `b` says whether it asks for a switch.
tick_scheduler_by :
    (s : Sys)
    → active s ≡ some preemptive_sp
    → (b : Bool) × (tick_scheduler s ≡ yield_if b (PreemptiveSp.update_delayed_tasks s))
unfolding tick_scheduler
tick_scheduler_by s a =
    let r = PreemptiveSp.update_delayed_tasks s in
    let a' : active r ≡ some preemptive_sp =
      ap (λ o. if o.scheduler.initialized then o.scheduler.vtable else none)
        (seen-update_delayed_tasks s)
      ∙ a in
    let next = PreemptiveSp.get_next_task r in
    (
      PreemptiveSp.should_preempt next r.kernel.current_task r,
      ap
            (λ u.
              let (s₂, next) = Scheduler.get_next_task u in
              let (s₃, preempt) = Scheduler.should_preempt next s₂ in yield_if preempt s₃)
            (update_by_preemptive s a)
          ∙ ap (λ p. let (s₃, preempt) = Scheduler.should_preempt p.1 p.0 in yield_if preempt s₃)
              (next_by_preemptive r a')
          ∙ ap (λ p. yield_if p.1 p.0) (preempt_by_preemptive next r a'),
    )

is_initialized :
    (i : Instance)
    → (if i.initialized then i.vtable else none) ≡ some preemptive_sp
    → i.initialized ≡ true
is_initialized i a = elim (Bool-cases i.initialized) [
  | inl e ↦ e
  | inr e ↦ absurd (apart (rw e at a))
]
  where
    apart : ◌≡◌ {A = Option SchedulerType} none (some preemptive_sp) → ⊥
    apart e = cc

module _ (timer_tick : Sys → Sys) (quiet : IsQuiet timer_tick) (s : Sys) where
  -- The state when the delayed list is looked at.
  abbrev pub ticked : Sys
  ticked = timer_tick (set_tick_count (add32 s.kernel.tick_count 1) s)

  pub tick_by :
      active s ≡ some preemptive_sp
      → s.kernel.state ≡ kernel_running
      → (b : Bool) × (tick_handler timer_tick s
          ≡ yield_if b (PreemptiveSp.update_delayed_tasks ticked))
  unfolding tick_handler is_running
  tick_by a on =
      let now = set_tick_count (add32 s.kernel.tick_count 1) s in
      let is_on : ticked.kernel.state ≡ kernel_running =
        ap (λ k. k.state) (quiet.kernel now) ∙ on in
      let a' : active ticked ≡ some preemptive_sp =
        ap (λ i. if i.initialized then i.vtable else none) (quiet.scheduler now) ∙ a in
      let (b, eq) = tick_scheduler_by ticked a' in
      (
        b,
        ap
              (λ k.
                if is_running k && ticked.scheduler.initialized
                then tick_scheduler ticked
                else ticked)
              is_on
            ∙ ap (λ i. if i then tick_scheduler ticked else ticked)
                (is_initialized ticked.scheduler a')
            ∙ eq,
      )

-- The clock is one further, and nobody is woken too early.
pub one_later :
    (s s' : Sys) (due : ℕ → ℕ) (now : ℕ) (delayed : List ℕ)
    → IsTimed s due now delayed
    → All (λ x. now < due x) delayed
    → s'.kernel.tick_count ≡ add32 s.kernel.tick_count 1
    → s'.pool.delay_until ≡ s.pool.delay_until
    → IsTimed s' due (now + 1) delayed
one_later s s' due now delayed h ahead clock delays = record {
  tick = clock ∙ omega (arith, h.tick);
  near =
      subst
        (λ (f : ℕ → ℕ).
          All (λ x. (f x ≡ due x % 2 ^ 32) × (now + 1 ≤ due x) × (due x < now + 1 + 2 ^ 31))
            delayed)
        (sym delays) (go delayed h.near ahead);
  sorted = h.sorted;
}
  where
    go :
        (xs : List ℕ)
        → All
            (λ x. (s.pool.delay_until x ≡ due x % 2 ^ 32) × (now ≤ due x) × (due x < now + 2 ^ 31))
            xs
        → All (λ x. now < due x) xs
        → All
            (λ x.
              (s.pool.delay_until x ≡ due x % 2 ^ 32)
              × (now + 1 ≤ due x)
              × (due x < now + 1 + 2 ^ 31))
            xs
    go [] a b = tt
    go (x ∷ xs) a b = ((a.0.0, omega arith, omega arith), go xs a.1 b.1)
