-- ===== src/Scheduler/PreemptiveSp/Timing.antt =====
-- The order of the delayed list of preemptive_sp.c on the unbounded clock.
use vrtos.Base.{
  ℕ, ◌+◌, ◌%◌, ◌^◌, ◌<◌, ◌≤◌, ◌≡◌, sym, ap, ◌∙◌, Bool, true, false, List, [], ◌∷◌, ◌++◌, arith, leb,
  leb→le, lt_of_leb, update, update_self, update_ne, All, All-append, NotIn, IsSorted,
  IsSorted-agree, IsSorted-insert, All-take_while, All-drop_while, take_while, drop_while,
  take_while-agree, take_while-drop_while, signed_le_of_near, add32,
}
use vrtos.State.{Sys, max_tasks}
use vrtos.Scheduler.PreemptiveSp.{add_to_delayed_list}
use vrtos.Scheduler.PreemptiveSp.Lists.{IsTimed}
use vrtos.Scheduler.PreemptiveSp.Delayed.{earlier, later, due_by, add_as_inserted}
use vrtos.Base.{Dll}

abbrev Near : (ℕ → ℕ) → (ℕ → ℕ) → ℕ → ℕ → Type 0
Near delay_until due now x =
    (delay_until x ≡ due x % 2 ^ 32) × (now ≤ due x) × (due x < now + 2 ^ 31)

All-update :
    {A : Type 0} (f : ℕ → A) (t : ℕ) (v : A) (xs : List ℕ)
    → NotIn t xs
    → All (λ x. update f t v x ≡ f x) xs
All-update f t v [] n = tt
All-update f t v (x ∷ xs) n = (update_ne f t x v n.0, All-update f t v xs n.1)

module _ (t ticks : ℕ) (s : Sys) (dues : ℕ → ℕ) (now : ℕ) where
  abbrev delay' : ℕ → ℕ
  delay' = update s.pool.delay_until t (add32 s.kernel.tick_count ticks)

  abbrev dues' : ℕ → ℕ
  dues' = update dues t (now + ticks)

  near' :
      (xs : List ℕ)
      → NotIn t xs
      → All (Near s.pool.delay_until dues now) xs
      → All (Near delay' dues' now) xs
  near' [] o a = tt
  near' (x ∷ xs) o a =
      (rw (update_ne s.pool.delay_until t x _ o.0, update_ne dues t x _ o.0) a.0, near' xs o.1 a.1)

  end_is :
      s.kernel.tick_count ≡ now % 2 ^ 32 → add32 s.kernel.tick_count ticks ≡ (now + ticks) % 2 ^ 32
  end_is tick = rw tick (omega arith)

  scan-agree :
      (xs : List ℕ)
      → s.kernel.tick_count ≡ now % 2 ^ 32
      → ticks < 2 ^ 31
      → NotIn t xs
      → All (Near s.pool.delay_until dues now) xs
      → All
          (λ x. due_by delay' (add32 s.kernel.tick_count ticks) x ≡ leb (dues' x) (now + ticks))
          xs
  scan-agree [] tick lt o a = tt
  scan-agree (x ∷ xs) tick lt o a = (
    rw (update_ne s.pool.delay_until t x _ o.0, update_ne dues t x _ o.0, a.0.0, end_is tick)
        (signed_le_of_near (dues x) (now + ticks) (omega arith) (omega arith)),
    scan-agree xs tick lt o.1 a.1,
  )

  -- When the delayed tasks are sorted by their wake-up times, all less than 2^31 ticks ahead, a
  -- task outside the list that is delayed by less than 2^31 ticks comes to stand in the order of
  -- these times, although the tick counter wraps.
  pub add_to_delayed_list-IsTimed :
      (delayed : List ℕ)
      → IsTimed s dues now delayed
      → ticks < 2 ^ 31
      → NotIn t delayed
      → Dll max_tasks s.pool.next s.pool.prev s.preemptive.delayed_list delayed
      → IsTimed
          (add_to_delayed_list t ticks s)
          dues'
          now
          (earlier t ticks s delayed ++ t ∷ later t ticks s delayed)
  add_to_delayed_list-IsTimed delayed h lt o d =
      rw (add_as_inserted t ticks s delayed o d) (record {
        tick = h.tick;
        near =
            All-append (Near delay' dues' now) xs (t ∷ ys)
              (All-take_while (Near delay' dues' now) go delayed n)
              (
                (
                  update_self s.pool.delay_until t _
                      ∙ end_is h.tick
                      ∙ ap (λ (k : ℕ). k % 2 ^ 32) (sym own),
                  omega (arith, own),
                  omega (arith, own),
                ),
                All-drop_while (Near delay' dues' now) go delayed n,
              );
        sorted =
            rw (places.0, places.1)
              (IsSorted-insert R t go' stop (λ c d r q. omega arith) delayed pass parts kept);
      })
    where
      go : ℕ → Bool
      go = due_by delay' (add32 s.kernel.tick_count ticks)

      xs : List ℕ
      xs = earlier t ticks s delayed

      ys : List ℕ
      ys = later t ticks s delayed

      n : All (Near delay' dues' now) delayed
      n = near' delayed o h.near

      R : ℕ → ℕ → Type 0
      R x y = dues' x ≤ dues' y

      own : dues' t ≡ now + ticks
      own = update_self dues t (now + ticks)

      go' : ℕ → Bool
      go' x = leb (dues' x) (now + ticks)

      places : (xs ≡ take_while go' delayed) × (ys ≡ drop_while go' delayed)
      places = take_while-agree go go' delayed (scan-agree delayed h.tick lt o h.near)

      pass : (c : ℕ) → go' c ≡ true → R c t
      pass c e =
          let le : dues' c ≤ now + ticks = leb→le (dues' c) (now + ticks) e in omega (arith, own)

      stop : (c : ℕ) → go' c ≡ false → R t c
      stop c e =
          let lt : now + ticks < dues' c = lt_of_leb (dues' c) (now + ticks) e in omega (arith, own)

      kept : IsSorted R delayed
      kept =
          IsSorted-agree (λ a b. a ≤ b) dues' dues delayed
            (All-update dues t (now + ticks) delayed o) h.sorted

      parts : IsSorted R (take_while go' delayed ++ drop_while go' delayed)
      parts = rw (take_while-drop_while go' delayed) kept
