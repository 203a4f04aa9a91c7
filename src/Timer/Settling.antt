-- ===== src/Timer/Settling.antt =====
-- Where the timers go that expire, on the clock that does not wrap.
use vrtos.Base.{
  ℕ, suc, ◌+◌, ◌-◌, ◌*◌, ◌/◌, ◌%◌, ◌^◌, ◌≤◌, ◌<◌, ◌≡◌, refl, sym, ◌∙◌, ap, Bool, true, false,
  Option, none, some, List, [], ◌∷◌, ◌++◌, arith, if◌then◌else◌, update, update_self, update_ne,
  update-All, length, All, NotIn, Seg-update, IsSorted-agree, subst, ◌▷◌,
}
use vrtos.State.{Sys, Timers}
use vrtos.Timer.{
  max_timers, timer_insert_active_list, set_active_timers, set_timer_next, set_expiry_time,
  insert_from, expires_before,
}
use vrtos.Timer.Order.{ActiveTimers, up_to, later_than, insert-ActiveTimers}

-- Callbacks that neither use the timers nor change the clock.
abbrev pub LeavesTimers : (ℕ → ℕ → ℕ → Sys → Sys) → Type 0
LeavesTimers callback =
    (f t p : ℕ) (s : Sys)
    → ((callback f t p s).timers ≡ s.timers)
      × ((callback f t p s).kernel.tick_count ≡ s.kernel.tick_count)

-- The next time of a timer: the first behind `now` that is a whole number of periods behind its own.
abbrev pub next_due : (ℕ → ℕ) → (ℕ → ℕ) → ℕ → ℕ → ℕ
next_due due period now x = due x + suc ((now - due x) / period x) * period x

-- The timers `es` have expired: the periodic ones go to their new places among `bs`, the others leave.
abbrev pub settle : (ℕ → ℕ) → (ℕ → Bool) → List ℕ → List ℕ → List ℕ
settle due periodic [] bs = bs
settle due periodic (e ∷ es) bs =
    settle due periodic es
      (if periodic e then up_to due (due e) bs ++ e ∷ later_than due (due e) bs else bs)

pub ActiveTimers-agree :
    (v : Timers) (due due' : ℕ → ℕ) (low : ℕ) (xs : List ℕ)
    → All (λ x. due' x ≡ due x) xs
    → ActiveTimers v due low xs
    → ActiveTimers v due' low xs
ActiveTimers-agree v due due' low xs same a = record {
  chain = a.chain;
  distinct = a.distinct;
  short = a.short;
  times = times xs same a.times;
  sorted = IsSorted-agree (λ m n. m ≤ n) due' due xs same a.sorted;
  window = window xs same a.window;
}
  where
    times :
        (ys : List ℕ)
        → All (λ x. due' x ≡ due x) ys
        → All (λ x. v.expiry_time x ≡ due x % 2 ^ 32) ys
        → All (λ x. v.expiry_time x ≡ due' x % 2 ^ 32) ys
    times [] e h = tt
    times (y ∷ ys) e h = (h.0 ∙ ap (λ d. d % 2 ^ 32) (sym e.0), times ys e.1 h.1)

    window :
        (ys : List ℕ)
        → All (λ x. due' x ≡ due x) ys
        → All (λ x. (low ≤ due x) × (due x < low + 2 ^ 31)) ys
        → All (λ x. (low ≤ due' x) × (due' x < low + 2 ^ 31)) ys
    window [] e h = tt
    window (y ∷ ys) e h = (rw e.0 h.0, window ys e.1 h.1)

-- The first of the active timers is detached.
abbrev pub detached : ℕ → Sys → Sys
detached t s = s ▷ set_active_timers (s.timers.next t) ▷ set_timer_next t none

pub detached-ActiveTimers :
    (t : ℕ) (due : ℕ → ℕ) (low : ℕ) (s : Sys) (xs : List ℕ)
    → ActiveTimers s.timers due low (t ∷ xs)
    → ActiveTimers (detached t s).timers due low xs
detached-ActiveTimers t due low s xs a = record {
  chain = Seg-update s.timers.next t none (s.timers.next t) none xs a.distinct.0 a.chain.1;
  distinct = a.distinct.1;
  short = omega (arith, a.short);
  times = a.times.1;
  sorted = a.sorted.1;
  window = a.window.1;
}

-- What is inserted again is among those of its own time or an earlier one, and before the later ones.
pub reinsert-ActiveTimers :
    (t d : ℕ) (due : ℕ → ℕ) (low : ℕ) (s : Sys) (xs : List ℕ)
    → ActiveTimers s.timers due low xs
    → NotIn t xs
    → length xs < max_timers
    → low ≤ d
    → d < low + 2 ^ 31
    → let due' = update due t d in
      ActiveTimers
        (timer_insert_active_list t (set_expiry_time t (d % 2 ^ 32) s)).timers
        due'
        low
        (up_to due' d xs ++ t ∷ later_than due' d xs)
reinsert-ActiveTimers t d due low s xs a away room above below =
    subst (λ c. ActiveTimers s₂.timers due' low (up_to due' c xs ++ t ∷ later_than due' c xs)) here
      (insert-ActiveTimers t due' low s₁ xs moved away room
        (update_self s.timers.expiry_time t _ ∙ ap (λ c. c % 2 ^ 32) (sym here))
        (subst (λ c. low ≤ c) (sym here) above) (subst (λ c. c < low + 2 ^ 31) (sym here) below))
  where
    due' : ℕ → ℕ
    due' = update due t d

    s₁ : Sys
    s₁ = set_expiry_time t (d % 2 ^ 32) s

    s₂ : Sys
    s₂ = timer_insert_active_list t s₁

    here : due' t ≡ d
    here = update_self due t d

    times :
        (ys : List ℕ)
        → NotIn t ys
        → All (λ x. s.timers.expiry_time x ≡ due x % 2 ^ 32) ys
        → All (λ x. s₁.timers.expiry_time x ≡ due x % 2 ^ 32) ys
    times [] n h = tt
    times (y ∷ ys) n h = (update_ne s.timers.expiry_time t y _ n.0 ∙ h.0, times ys n.1 h.1)

    moved : ActiveTimers s₁.timers due' low xs
    moved = ActiveTimers-agree s₁.timers due due' low xs (update-All due t d xs away) (record {
      chain = a.chain;
      distinct = a.distinct;
      short = a.short;
      times = times xs away a.times;
      sorted = a.sorted;
      window = a.window;
    })

-- What the insertion leaves alone.
pub insert-settings :
    (t : ℕ) (s : Sys)
    → let s' = timer_insert_active_list t s in
      (s'.timers.period ≡ s.timers.period)
      × (s'.timers.auto_reload ≡ s.timers.auto_reload)
      × (s'.kernel.tick_count ≡ s.kernel.tick_count)
unfolding timer_insert_active_list insert_from
insert-settings t s = go s.timers.active_timers
  where
    either :
        (b : Bool) (x y : Sys)
        → ((x.timers.period ≡ s.timers.period)
            × (x.timers.auto_reload ≡ s.timers.auto_reload)
            × (x.kernel.tick_count ≡ s.kernel.tick_count))
        → ((y.timers.period ≡ s.timers.period)
            × (y.timers.auto_reload ≡ s.timers.auto_reload)
            × (y.kernel.tick_count ≡ s.kernel.tick_count))
        → let r = if b then x else y in
          (r.timers.period ≡ s.timers.period)
          × (r.timers.auto_reload ≡ s.timers.auto_reload)
          × (r.kernel.tick_count ≡ s.kernel.tick_count)
    either true x y p q = p
    either false x y p q = q

    go :
        (head : Option ℕ)
        → let s' = insert_from t head s in
          (s'.timers.period ≡ s.timers.period)
          × (s'.timers.auto_reload ≡ s.timers.auto_reload)
          × (s'.kernel.tick_count ≡ s.kernel.tick_count)
    go none = (refl, refl, refl)
    go (some h) = either (expires_before s t h) _ _ (refl, refl, refl) (refl, refl, refl)
