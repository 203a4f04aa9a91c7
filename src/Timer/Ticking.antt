-- ===== src/Timer/Ticking.antt =====
-- The tick of the timers, on the clock that does not wrap.
use vrtos.Base.{
  ℕ, ◌+◌, ◌%◌, ◌^◌, ◌≤◌, ◌<◌, ◌≡◌, refl, sym, ap, Bool, true, List, [], ◌∷◌, ◌++◌, inl, inr, arith,
  leb, if◌then◌else◌, length, length-append, All, All-map, IsSorted, take_while-drop_while,
  take_while-All, leb→le, lt_of_leb, All-take_while, Bool-cases, subst,
}
use vrtos.State.{Sys}
use vrtos.Timer.{tick_from, timer_tick}
use vrtos.Timer.Order.{ActiveTimers, up_to, later_than}
use vrtos.Timer.Settling.{LeavesTimers, next_due, settle}
use vrtos.Timer.Expiry.{Ticking}
use vrtos.Timer.Rounds.{Settled, tick_from-Settled}

-- Those that have not expired, in a list in order.
later_than-late :
    (due : ℕ → ℕ) (now : ℕ) (xs : List ℕ)
    → IsSorted (λ x y. due x ≤ due y) xs
    → All (λ x. now < due x) (later_than due now xs)
later_than-late due now [] s = tt
later_than-late due now (x ∷ xs) s = elim (Bool-cases (leb (due x) now)) [
  | inl e ↦ rw e (later_than-late due now xs s.1)
  | inr e ↦
      let waits = lt_of_leb (due x) now e in
      rw e (
        waits,
        All-map (λ y. due x ≤ due y) (λ y. now < due y) xs (λ y le. omega (arith, waits, le)) s.0,
      )
]

-- The time of each timer after the tick: its own, or the next one if it has expired.
abbrev pub time_after : (ℕ → ℕ) → (ℕ → ℕ) → ℕ → ℕ → ℕ
time_after due period now x = if leb (due x) now then next_due due period now x else due x

-- With callbacks that leave the timers and the clock alone, the active timers in order, the clock at `now`, and
-- every period at least 1 and short enough that the next times lie in the same 2^31 ticks: more
-- rounds than there are active timers are enough for the tick to end. Then the active timers are in
-- order, and all of them expire after `now`: those that had not expired, at their times, and the
-- periodic ones among those that had, at the first whole number of periods behind their times.
pub timer_tick-Settled :
    (callback : ℕ → ℕ → ℕ → Sys → Sys) (rounds low now : ℕ) (due : ℕ → ℕ) (s : Sys) (xs : List ℕ)
    → LeavesTimers callback
    → ActiveTimers s.timers due low xs
    → s.kernel.tick_count ≡ now % 2 ^ 32
    → low ≤ now
    → now < low + 2 ^ 31
    → All (λ x. (0 < s.timers.period x) × (now + s.timers.period x < low + 2 ^ 31)) xs
    → length xs < rounds
    → let next = time_after due s.timers.period now in
      Settled next low now
        (settle next s.timers.auto_reload (up_to due now xs) (later_than due now xs))
        (timer_tick callback rounds s)
unfolding timer_tick
timer_tick-Settled callback rounds low now due s xs leaves a clock start near periods enough =
    subst
      (λ c.
        Settled next low now (settle next s.timers.auto_reload es bs)
          (tick_from callback rounds c s.timers.active_timers s))
      (sym clock)
      (tick_from-Settled callback leaves s.timers.auto_reload s.timers.period next low now start
        near rounds s due es bs ticking few)
  where
    next : ℕ → ℕ
    next = time_after due s.timers.period now

    go : ℕ → Bool
    go x = leb (due x) now

    es : List ℕ
    es = up_to due now xs

    bs : List ℕ
    bs = later_than due now xs

    whole : es ++ bs ≡ xs
    whole = take_while-drop_while go xs

    goes : All (λ x. go x ≡ true) es
    goes = take_while-All go xs

    behind : All (λ x. now < due x) bs
    behind = later_than-late due now xs a.sorted

    few : length es < rounds
    few = omega (arith, length-append es bs, ap length whole, enough)

    ticking : Ticking s.timers.auto_reload s.timers.period next low now s due es bs
    ticking = record {
      active = subst (ActiveTimers s.timers due low) (sym whole) a;
      late = All-map (λ x. go x ≡ true) (λ x. due x ≤ now) es (λ x e. leb→le _ _ e) goes;
      early = behind;
      settled =
          All-map (λ x. now < due x) (λ x. due x ≡ next x) bs (λ x lt. ground (arith, lt)) behind;
      goes_to =
          All-map (λ x. go x ≡ true) (λ x. next x ≡ next_due due s.timers.period now x) es
            (λ x e. rw e refl) goes;
      periods = All-take_while _ go xs periods;
      clock = clock;
      modes = refl;
      lengths = refl;
    }
