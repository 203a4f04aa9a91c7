-- ===== src/Timer/Quiet.antt =====
-- The tick of the timers as a step of the tick handler: the part of `rtos_timer_tick` of
-- src/timer/timer_list.c in `rtos_kernel_tick_handler`, with callbacks that touch no task.
use vrtos.Base.{
  ℕ, zero, suc, ◌≡◌, refl, ◌∙◌, ap, Bool, true, false, Option, none, some, Bool-cases, inl, inr,
  signed_le,
}
use vrtos.State.{Sys, Pool, Kernel, PreemptiveData, Instance}
use vrtos.Kernel.Clock.{IsQuiet}
use vrtos.Timer.{
  timer_insert_active_list, insert_from, insert_again, reload, call_back, expire, tick_from,
  timer_tick, set_expiry_time, set_active_timers, set_timer_next, expires_before, reload_rounds,
}

-- What the kernel works on besides the timers.
abbrev pub kept : Sys → Pool × Kernel × PreemptiveData × Instance
kept s = (s.pool, s.kernel, s.preemptive, s.scheduler)

abbrev pub Keeps : Sys → Option Sys → Type 0
Keeps s none = Unit
Keeps s (some s') = kept s' ≡ kept s

-- The tick of the timers, with the state as it was where the fuel is not enough.
abbrev pub pass : (ℕ → ℕ → ℕ → Sys → Sys) → ℕ → Sys → Sys
pass callback rounds s = elim (timer_tick callback rounds s) [ none ↦ s | some s' ↦ s' ]

insert-kept : (t : ℕ) (s : Sys) → kept (timer_insert_active_list t s) ≡ kept s
unfolding timer_insert_active_list insert_from
insert-kept t s = go s.timers.active_timers
  where
    go : (head : Option ℕ) → kept (insert_from t head s) ≡ kept s
    go none = refl
    go (some h) = elim (Bool-cases (expires_before s t h)) [ inl e ↦ rw e refl | inr e ↦ rw e refl ]

module _ (callback : ℕ → ℕ → ℕ → Sys → Sys)
    (quiet : (f t p : ℕ) (s : Sys) → kept (callback f t p s) ≡ kept s) where
  call_back-kept : (t : ℕ) (f : Option ℕ) (s : Sys) → kept (call_back callback t f s) ≡ kept s
  unfolding call_back
  call_back-kept t none s = refl
  call_back-kept t (some f) s = quiet f t (s.timers.parameter t) s

  expire-Keeps : (t : ℕ) (s : Sys) → Keeps s (expire callback t s)
  unfolding expire insert_again
  expire-Keeps t s = elim (Bool-cases (s₂.timers.auto_reload t)) [
    | inl e ↦ rw e (
        again (
          reload reload_rounds (s₂.timers.period t) s₂.kernel.tick_count (s₂.timers.expiry_time t)))
    | inr e ↦ rw e same
  ]
    where
      s₁ : Sys
      s₁ = set_timer_next t none (set_active_timers (s.timers.next t) s)

      s₂ : Sys
      s₂ = call_back callback t (s₁.timers.callback t) s₁

      same : kept s₂ ≡ kept s
      same = call_back-kept t (s₁.timers.callback t) s₁

      again : (expiry : Option ℕ) → Keeps s (insert_again t expiry s₂)
      again none = tt
      again (some expiry) = insert-kept t (set_expiry_time t expiry s₂) ∙ same

  tick_from-Keeps :
      (rounds now : ℕ) (head : Option ℕ) (s : Sys) → Keeps s (tick_from callback rounds now head s)
  unfolding tick_from
  tick_from-Keeps zero now head s = tt
  tick_from-Keeps (suc f) now none s = refl
  tick_from-Keeps (suc f) now (some t) s =
      go (signed_le (s.timers.expiry_time t) now)
        (λ s'. tick_from-Keeps f now s'.timers.active_timers s')
    where
      later : (s' : Sys) (r : Option Sys) → kept s' ≡ kept s → Keeps s' r → Keeps s r
      later s' none e k = tt
      later s' (some s'') e k = k ∙ e

      Rest : Type 0
      Rest = (s' : Sys) → Keeps s' (tick_from callback f now s'.timers.active_timers s')

      next :
          (r : Option Sys)
          → Rest
          → Keeps s r
          → Keeps s (elim r [
            | none ↦ none
            | some s' ↦ tick_from callback f now s'.timers.active_timers s'
          ])
      next none rest k = tt
      next (some s') rest k =
          later s' (tick_from callback f now s'.timers.active_timers s') k (rest s')

      go :
          (due : Bool)
          → Rest
          → Keeps s (elim due [
            | false ↦ some s
            | true ↦ elim (expire callback t s) [
              | none ↦ none
              | some s' ↦ tick_from callback f now s'.timers.active_timers s'
            ]
          ])
      go false rest = refl
      go true rest = next (expire callback t s) rest (expire-Keeps t s)

  pass-kept : (rounds : ℕ) (s : Sys) → kept (pass callback rounds s) ≡ kept s
  unfolding timer_tick
  pass-kept rounds s =
      go (timer_tick callback rounds s)
        (tick_from-Keeps rounds s.kernel.tick_count s.timers.active_timers s)
    where
      go : (r : Option Sys) → Keeps s r → kept (elim r [ none ↦ s | some s' ↦ s' ]) ≡ kept s
      go none k = refl
      go (some s') k = k

  -- A pass of the timers, with callbacks that touch no task, touches none.
  pub pass-IsQuiet : (rounds : ℕ) → IsQuiet (pass callback rounds)
  pass-IsQuiet rounds = record {
    pool = λ s. ap (λ k. k.0) (pass-kept rounds s);
    kernel = λ s. ap (λ k. k.1) (pass-kept rounds s);
    preemptive = λ s. ap (λ k. k.2) (pass-kept rounds s);
    scheduler = λ s. ap (λ k. k.3) (pass-kept rounds s);
  }
