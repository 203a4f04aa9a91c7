-- ===== src/Timer/Expiry.antt =====
-- One expired timer of the tick: its callback, and its way to its next place.
use vrtos.Base.{
  ℕ, suc, ◌+◌, ◌-◌, ◌*◌, ◌/◌, ◌%◌, ◌^◌, ◌≤◌, ◌<◌, ◌≡◌, ◌≢◌, refl, sym, ◌∙◌, ap, ap₂, Bool, true,
  false, Option, none, some, List, [], ◌∷◌, ◌++◌, arith, leb, update, update_self, update-All, All,
  All-map, All-append, All-left, All-right, NotIn, take_while-agree, All-take_while, All-drop_while,
  subst, append_assoc,
}
use vrtos.State.{Sys}
use vrtos.Timer.{
  timer_insert_active_list, reload, reload_rounds, set_expiry_time, set_active, expire,
  insert_again, call_back,
}
use vrtos.Timer.Reload.{reload-ends}
use vrtos.Timer.Order.{ActiveTimers, up_to, later_than}
use vrtos.Timer.Settling.{
  LeavesTimers, detached, detached-ActiveTimers, reinsert-ActiveTimers, insert-settings,
}

pub call_back-leaves :
    (callback : ℕ → ℕ → ℕ → Sys → Sys) (t : ℕ) (f : Option ℕ) (s : Sys)
    → LeavesTimers callback
    → ((call_back callback t f s).timers ≡ s.timers)
      × ((call_back callback t f s).kernel.tick_count ≡ s.kernel.tick_count)
unfolding call_back
call_back-leaves callback t none s leaves = (refl, refl)
call_back-leaves callback t (some f) s leaves = leaves f t (s.timers.parameter t) s

-- The state after the callback of a timer.
abbrev pub called : (ℕ → ℕ → ℕ → Sys → Sys) → ℕ → Sys → Sys
called callback t s = call_back callback t (s.timers.callback t) (detached t s)

module _ (callback : ℕ → ℕ → ℕ → Sys → Sys) (leaves : LeavesTimers callback) (t : ℕ) (s : Sys) where
  pub called-timers : (called callback t s).timers ≡ (detached t s).timers
  called-timers = (call_back-leaves callback t (s.timers.callback t) (detached t s) leaves).0

  pub called-clock : (called callback t s).kernel.tick_count ≡ s.kernel.tick_count
  called-clock = (call_back-leaves callback t (s.timers.callback t) (detached t s) leaves).1

  pub expire-once :
      s.timers.auto_reload t ≡ false
      → expire callback t s ≡ some (set_active t false (called callback t s))
  unfolding expire
  expire-once once = rw (ap (λ v. v.auto_reload t) called-timers ∙ once) refl

  pub expire-periodic :
      (due now : ℕ)
      → s.timers.auto_reload t ≡ true
      → s.timers.expiry_time t ≡ due % 2 ^ 32
      → s.kernel.tick_count ≡ now % 2 ^ 32
      → 0 < s.timers.period t
      → s.timers.period t < 2 ^ 31
      → due ≤ now
      → now < due + 2 ^ 31
      → let next = due + suc ((now - due) / s.timers.period t) * s.timers.period t in
        expire callback t s
        ≡ some
            (timer_insert_active_list t (set_expiry_time t (next % 2 ^ 32) (called callback t s)))
  unfolding expire insert_again
  expire-periodic due now periodic at clock positive short late near =
      rw (ap (λ v. v.auto_reload t) called-timers ∙ periodic) (
        ap (λ e. insert_again t e (called callback t s))
          (ap₂ (λ v c. reload reload_rounds (v.period t) c (v.expiry_time t)) called-timers
              (called-clock ∙ clock)
            ∙ ap (reload reload_rounds (s.timers.period t) (now % 2 ^ 32)) at
            ∙ (reload-ends (s.timers.period t) due now positive short late near).0))

-- The places among `es`, all before the time `d`, and `bs`, by two functions that agree on `bs`.
pub up_to-append :
    (due due' : ℕ → ℕ) (d : ℕ) (es bs : List ℕ)
    → All (λ x. due x ≤ d) es
    → All (λ x. due x ≡ due' x) bs
    → (up_to due d (es ++ bs) ≡ es ++ up_to due' d bs)
      × (later_than due d (es ++ bs) ≡ later_than due' d bs)
up_to-append due due' d [] bs a same =
    take_while-agree (λ x. leb (due x) d) (λ x. leb (due' x) d) bs (tests bs same)
  where
    tests :
        (ys : List ℕ) → All (λ x. due x ≡ due' x) ys → All (λ x. leb (due x) d ≡ leb (due' x) d) ys
    tests [] e = tt
    tests (y ∷ ys) e = (ap (λ v. leb v d) e.0, tests ys e.1)
up_to-append due due' d (e ∷ es) bs a same =
    let rest = up_to-append due due' d es bs a.1 same in
    let yes : leb (due e) d ≡ true = ground (arith, a.0) in rw yes (ap (◌∷◌ e) rest.0, rest.1)

-- Facts on the values of a function go over to one that agrees with it.
pub All-values :
    (P : ℕ → ℕ → Type 0) (f g : ℕ → ℕ) (xs : List ℕ)
    → All (λ x. g x ≡ f x) xs
    → All (λ x. P x (f x)) xs
    → All (λ x. P x (g x)) xs
All-values P f g [] e a = tt
All-values P f g (x ∷ xs) e a = (subst (P x) (sym e.0) a.0, All-values P f g xs e.1 a.1)

-- In the middle of the tick: the timers `es` have expired, by `now`, and `bs` have not; `next` is where
-- each of them will stand in the end.
pub record Ticking (periodic : ℕ → Bool) (period next : ℕ → ℕ) (low now : ℕ) (s : Sys) (due : ℕ → ℕ)
    (es bs : List ℕ) : Type 0 where
  pub active : ActiveTimers s.timers due low (es ++ bs)
  pub late : All (λ x. due x ≤ now) es
  pub early : All (λ x. now < due x) bs
  pub settled : All (λ x. due x ≡ next x) bs
  pub goes_to : All (λ x. next x ≡ due x + suc ((now - due x) / period x) * period x) es
  pub periods : All (λ x. (0 < period x) × (now + period x < low + 2 ^ 31)) es
  pub clock : s.kernel.tick_count ≡ now % 2 ^ 32
  pub modes : s.timers.auto_reload ≡ periodic
  pub lengths : s.timers.period ≡ period

module _ (periodic : ℕ → Bool) (period next : ℕ → ℕ) (low now : ℕ) where
  -- A timer that expired has gone, with all else as it was.
  pub Ticking-once :
      (t : ℕ) (s s' : Sys) (due : ℕ → ℕ) (es bs : List ℕ)
      → Ticking periodic period next low now s due (t ∷ es) bs
      → s'.timers ≡ (detached t s).timers
      → s'.kernel.tick_count ≡ s.kernel.tick_count
      → Ticking periodic period next low now (set_active t false s') due es bs
  Ticking-once t s s' due es bs k same clock = record {
    active =
        let a =
          subst (λ v. ActiveTimers v due low (es ++ bs)) (sym same)
            (detached-ActiveTimers t due low s (es ++ bs) k.active) in
        record {
          chain = a.chain;
          distinct = a.distinct;
          short = a.short;
          times = a.times;
          sorted = a.sorted;
          window = a.window;
        };
    late = k.late.1;
    early = k.early;
    settled = k.settled;
    goes_to = k.goes_to.1;
    periods = k.periods.1;
    clock = clock ∙ k.clock;
    modes = ap (λ v. v.auto_reload) same ∙ k.modes;
    lengths = ap (λ v. v.period) same ∙ k.lengths;
  }

  -- A timer that expired has gone to its next place.
  pub Ticking-again :
      (t : ℕ) (s s' : Sys) (due : ℕ → ℕ) (es bs : List ℕ)
      → low ≤ now
      → Ticking periodic period next low now s due (t ∷ es) bs
      → now < next t
      → next t ≤ now + period t
      → s'.timers ≡ (detached t s).timers
      → s'.kernel.tick_count ≡ s.kernel.tick_count
      → Ticking periodic period next low now
          (timer_insert_active_list t (set_expiry_time t (next t % 2 ^ 32) s'))
          (update due t (next t))
          es
          (up_to next (next t) bs ++ t ∷ later_than next (next t) bs)
  Ticking-again t s s' due es bs start k after within same clock = record {
    active = subst (ActiveTimers s₂.timers due' low) order (
        reinsert-ActiveTimers t (next t) due low s' (es ++ bs)
          (subst (λ v. ActiveTimers v due low (es ++ bs)) (sym same)
            (detached-ActiveTimers t due low s (es ++ bs) k.active))
          k.active.distinct.0 (omega (arith, k.active.short)) (omega (arith, start, after))
          (omega (arith, within, k.periods.0.1)));
    late = moved (λ x v. v ≤ now) es others.0 k.late.1;
    early = placed (λ x v. now < v) after k.early;
    settled = placed (λ x v. v ≡ next x) refl k.settled;
    goes_to =
        moved (λ x v. next x ≡ v + suc ((now - v) / period x) * period x) es others.0 k.goes_to.1;
    periods = k.periods.1;
    clock = kept.2 ∙ clock ∙ k.clock;
    modes = kept.1 ∙ ap (λ v. v.auto_reload) same ∙ k.modes;
    lengths = kept.0 ∙ ap (λ v. v.period) same ∙ k.lengths;
  }
    where
      due' : ℕ → ℕ
      due' = update due t (next t)

      s₁ : Sys
      s₁ = set_expiry_time t (next t % 2 ^ 32) s'

      s₂ : Sys
      s₂ = timer_insert_active_list t s₁

      kept :
          (s₂.timers.period ≡ s₁.timers.period)
          × (s₂.timers.auto_reload ≡ s₁.timers.auto_reload)
          × (s₂.kernel.tick_count ≡ s₁.kernel.tick_count)
      kept = insert-settings t s₁

      others : NotIn t es × NotIn t bs
      others = (
        All-left (λ x. x ≢ t) es bs k.active.distinct.0,
        All-right (λ x. x ≢ t) es bs k.active.distinct.0,
      )

      moved :
          (P : ℕ → ℕ → Type 0) (xs : List ℕ)
          → NotIn t xs
          → All (λ x. P x (due x)) xs
          → All (λ x. P x (due' x)) xs
      moved P xs n h = All-values P due due' xs (update-All due t (next t) xs n) h

      placed :
          (P : ℕ → ℕ → Type 0)
          → P t (next t)
          → All (λ x. P x (due x)) bs
          → All (λ x. P x (due' x)) (up_to next (next t) bs ++ t ∷ later_than next (next t) bs)
      placed P p h =
          let h' = moved P bs others.1 h in
          All-append (λ x. P x (due' x)) (up_to next (next t) bs) (t ∷ later_than next (next t) bs)
            (All-take_while (λ x. P x (due' x)) (λ x. leb (next x) (next t)) bs h')
            (
              subst (P t) (sym (update_self due t (next t))) p,
              All-drop_while (λ x. P x (due' x)) (λ x. leb (next x) (next t)) bs h',
            )

      places :
          (up_to due' (next t) (es ++ bs) ≡ es ++ up_to next (next t) bs)
          × (later_than due' (next t) (es ++ bs) ≡ later_than next (next t) bs)
      places =
          up_to-append due' next (next t) es bs
            (moved (λ x v. v ≤ next t) es others.0
              (All-map (λ x. due x ≤ now) (λ x. due x ≤ next t) es
                (λ x le. omega (arith, le, after)) k.late.1))
            (moved (λ x v. v ≡ next x) bs others.1 k.settled)

      order :
          up_to due' (next t) (es ++ bs) ++ t ∷ later_than due' (next t) (es ++ bs)
          ≡ es ++ (up_to next (next t) bs ++ t ∷ later_than next (next t) bs)
      order =
          ap₂ (λ a b. a ++ t ∷ b) places.0 places.1
          ∙ append_assoc es (up_to next (next t) bs) (t ∷ later_than next (next t) bs)
