-- ===== src/Timer/Rounds.antt =====
-- The loop of `rtos_timer_tick` of src/timer/timer_list.c, round by round.
use vrtos.Base.{
  ℕ, zero, suc, ◌+◌, ◌-◌, ◌*◌, ◌/◌, ◌%◌, ◌^◌, ◌≤◌, ◌<◌, ◌≡◌, refl, sym, ◌∙◌, ap, Bool, true, false,
  Option, none, some, List, [], ◌∷◌, ◌++◌, inl, inr, arith, leb, if◌then◌else◌, update, length, All,
  All-map, Bool-cases, signed_le, signed_le_of_near, subst,
}
use vrtos.State.{Sys}
use vrtos.Timer.{timer_insert_active_list, set_expiry_time, set_active, expire, tick_from}
use vrtos.Timer.Reload.{reload-ends}
use vrtos.Timer.Order.{ActiveTimers, up_to, later_than}
use vrtos.Timer.Settling.{LeavesTimers, settle, ActiveTimers-agree}
use vrtos.Timer.Expiry.{
  called, called-timers, called-clock, expire-once, expire-periodic, All-values, Ticking,
  Ticking-once, Ticking-again,
}

pub record Settled (due : ℕ → ℕ) (low now : ℕ) (ys : List ℕ) (r : Option Sys) : Type 0 where
  pub final : Sys
  pub done : r ≡ some final
  pub active : ActiveTimers final.timers due low ys
  pub future : All (λ x. now < due x) ys

-- One round of the loop, with what holds of the rest of it.
tick_from-round :
    (R : Option Sys → Type 0) (callback : ℕ → ℕ → ℕ → Sys → Sys) (f current_tick t : ℕ) (s s' : Sys)
    → signed_le (s.timers.expiry_time t) current_tick ≡ true
    → expire callback t s ≡ some s'
    → R (tick_from callback f current_tick s'.timers.active_timers s')
    → R (tick_from callback (suc f) current_tick (some t) s)
unfolding tick_from
tick_from-round R callback f current_tick t s s' expired done rest =
    rw (tick_from, expired, done) rest

tick_from-end :
    (R : Option Sys → Type 0) (callback : ℕ → ℕ → ℕ → Sys → Sys) (f current_tick t : ℕ) (s : Sys)
    → signed_le (s.timers.expiry_time t) current_tick ≡ false
    → R (some s)
    → R (tick_from callback (suc f) current_tick (some t) s)
unfolding tick_from
tick_from-end R callback f current_tick t s waits rest = rw (tick_from, waits) rest

tick_from-none :
    (R : Option Sys → Type 0) (callback : ℕ → ℕ → ℕ → Sys → Sys) (f current_tick : ℕ) (s : Sys)
    → R (some s)
    → R (tick_from callback (suc f) current_tick none s)
unfolding tick_from
tick_from-none R callback f current_tick s rest = rest

-- The comparison of a timer's expiry with the tick, on the clock that does not wrap.
expired-lem :
    (t low now due : ℕ) (s : Sys)
    → s.timers.expiry_time t ≡ due % 2 ^ 32
    → low ≤ now
    → now < low + 2 ^ 31
    → low ≤ due
    → due < low + 2 ^ 31
    → signed_le (s.timers.expiry_time t) (now % 2 ^ 32) ≡ leb due now
expired-lem t low now due s at start near above below =
    ap (λ v. signed_le v (now % 2 ^ 32)) at
    ∙ signed_le_of_near due now (omega (arith, start, below)) (omega (arith, near, above))

module _ (callback : ℕ → ℕ → ℕ → Sys → Sys) (leaves : LeavesTimers callback) (periodic : ℕ → Bool)
    (period next : ℕ → ℕ) (low now : ℕ) (start : low ≤ now) (near : now < low + 2 ^ 31) where
  -- Where the next round begins, by the mode of the first timer.
  after_round : ℕ → Sys → Sys
  after_round e s =
      if periodic e
      then timer_insert_active_list e (set_expiry_time e (next e % 2 ^ 32) (called callback e s))
      else set_active e false (called callback e s)

  module _ (e : ℕ) (s : Sys) (due : ℕ → ℕ) (es bs : List ℕ)
      (k : Ticking periodic period next low now s due (e ∷ es) bs) where
    lasts : s.timers.period e ≡ period e
    lasts = ap (λ p. p e) k.lengths

    mode : s.timers.auto_reload e ≡ periodic e
    mode = ap (λ p. p e) k.modes

    short : period e < 2 ^ 31
    short = omega (arith, k.periods.0.1, start)

    close : now < due e + 2 ^ 31
    close = omega (arith, near, k.active.window.0.0)

    bounds : (now < next e) × (next e ≤ now + period e)
    bounds =
        let r = reload-ends (period e) (due e) now k.periods.0.0 short k.late.0 close in
        (
          subst (λ d. now < d) (sym k.goes_to.0) r.1,
          subst (λ d. d ≤ now + period e) (sym k.goes_to.0) r.2,
        )

    expired : signed_le (s.timers.expiry_time e) (now % 2 ^ 32) ≡ true
    expired =
        expired-lem e low now (due e) s k.active.times.0 start near k.active.window.0.0
          k.active.window.0.1
        ∙ ground (arith, k.late.0)

    handled : expire callback e s ≡ some (after_round e s)
    unfolding after_round
    handled = elim (Bool-cases (periodic e)) [
      | inl y ↦ rw y (
          expire-periodic callback leaves e s (due e) now (mode ∙ y) k.active.times.0 k.clock
            (subst (λ p. 0 < p) (sym lasts) k.periods.0.0)
            (subst (λ p. p < 2 ^ 31) (sym lasts) short) k.late.0 close
          ∙ ap
              (λ d.
                some (
                  timer_insert_active_list e
                    (set_expiry_time e (d % 2 ^ 32) (called callback e s))))
              (ap (λ p. due e + suc ((now - due e) / p) * p) lasts ∙ sym k.goes_to.0))
      | inr n ↦ rw n (expire-once callback leaves e s (mode ∙ n))
    ]

  pub tick_from-Settled :
      (f : ℕ) (s : Sys) (due : ℕ → ℕ) (es bs : List ℕ)
      → Ticking periodic period next low now s due es bs
      → length es < f
      → Settled next low now
          (settle next periodic es bs)
          (tick_from callback f (now % 2 ^ 32) s.timers.active_timers s)
  unfolding after_round
  tick_from-Settled zero s due es bs k enough = absurd (omega arith)
  tick_from-Settled (suc f) s due [] bs k enough = finish bs k
    where
      here :
          (ys : List ℕ)
          → Ticking periodic period next low now s due [] ys
          → Settled next low now ys (some s)
      here ys k = record {
        final = s;
        done = refl;
        active =
            ActiveTimers-agree s.timers due next low ys
              (All-map (λ x. due x ≡ next x) (λ x. next x ≡ due x) ys (λ x e. sym e) k.settled)
              k.active;
        future =
            All-values (λ x v. now < v) due next ys
              (All-map (λ x. due x ≡ next x) (λ x. next x ≡ due x) ys (λ x e. sym e) k.settled)
              k.early;
      }

      finish :
          (ys : List ℕ)
          → Ticking periodic period next low now s due [] ys
          → Settled next low now ys
              (tick_from callback (suc f) (now % 2 ^ 32) s.timers.active_timers s)
      finish [] k =
          subst (λ h. Settled next low now [] (tick_from callback (suc f) (now % 2 ^ 32) h s))
            (sym k.active.chain)
            (tick_from-none (Settled next low now []) callback f (now % 2 ^ 32) s (here [] k))
      finish (y ∷ ys) k =
          subst (λ h. Settled next low now (y ∷ ys) (tick_from callback (suc f) (now % 2 ^ 32) h s))
            (sym k.active.chain.0)
            (tick_from-end (Settled next low now (y ∷ ys)) callback f (now % 2 ^ 32) y s
              (expired-lem y low now (due y) s k.active.times.0 start near k.active.window.0.0
                  k.active.window.0.1
                ∙ ground (arith, k.early.0))
              (here (y ∷ ys) k))
  tick_from-Settled (suc f) s due (e ∷ es) bs k enough =
      subst
        (λ h.
          Settled next low now (settle next periodic (e ∷ es) bs)
            (tick_from callback (suc f) (now % 2 ^ 32) h s))
        (sym k.active.chain.0)
        (tick_from-round (Settled next low now (settle next periodic (e ∷ es) bs)) callback f
          (now % 2 ^ 32) e s (after_round e s) (expired e s due es bs k) (handled e s due es bs k)
          (elim (Bool-cases (periodic e)) [
            | inl y ↦ rw y (
                tick_from-Settled f
                  (timer_insert_active_list e
                    (set_expiry_time e (next e % 2 ^ 32) (called callback e s)))
                  (update due e (next e)) es
                  (up_to next (next e) bs ++ e ∷ later_than next (next e) bs)
                  (Ticking-again periodic period next low now e s (called callback e s) due es bs
                    start k (bounds e s due es bs k).0 (bounds e s due es bs k).1
                    (called-timers callback leaves e s) (called-clock callback leaves e s))
                  (omega arith))
            | inr n ↦ rw n (
                tick_from-Settled f (set_active e false (called callback e s)) due es bs
                  (Ticking-once periodic period next low now e s (called callback e s) due es bs k
                    (called-timers callback leaves e s) (called-clock callback leaves e s))
                  (omega arith))
          ]))
