-- ===== src/Kernel/Tick.antt =====
-- Who is READY after a tick, `rtos_kernel_tick_handler` of src/core/kernel.c.
use vrtos.Base.{
  ℕ, ◌+◌, ◌<◌, ◌≡◌, ◌≢◌, ◌⊎◌, inl, inr, refl, sym, ap, subst, ◌∙◌, Bool, true, List, ◌++◌,
  if◌then◌else◌, is_null, leb, add32, Bool-cases, elem, elem-left, All, All-map, All-elem, All-left,
  All-drop_while, take_while, drop_while, take_while-drop_while,
}
use vrtos.State.{Sys, Pool, ready, running, blocked, max_task_priorities}
use vrtos.State.Setters.{set_tick_count}
use vrtos.Scheduler.PreemptiveSp
use vrtos.Scheduler.PreemptiveSp.Lists.{Holds, IsTimed, nowhere, in_delayed}
use vrtos.Scheduler.PreemptiveSp.Wakeups.{enqueue, settle, make_ready, update_delayed_tasks-Holds}
use vrtos.Kernel.{tick_handler, yield_if}
use vrtos.Kernel.Switch.{Holds-same}
use vrtos.Kernel.Delay.{IsTimed-same}
use vrtos.Kernel.Seen.{outline, seen-update_delayed_tasks, kernel-update_delayed_tasks}
use vrtos.Kernel.Tracking.{Tracked, Agree, blocked_stands}
use vrtos.Kernel.Awaking.{
  settle-Tracked, make_ready-running, make_ready-awake, make_ready-woken, make_ready-other,
  IsSorted-drop_while, take_while-due,
}
use vrtos.Kernel.Validity.{IsTask, Valid, Sound, Steady-seen, Tracked-outline}
use vrtos.Kernel.Clock.{IsQuiet, ticked, tick_by, one_later}

module _ {idler : ℕ} (timer_tick : Sys → Sys) (quiet : IsQuiet timer_tick) (s : Sys)
    (h : Sound idler s) where
  open h use {place, lists, delayed, due, now}

  abbrev before : Sys
  before = set_tick_count (add32 s.kernel.tick_count 1) s

  abbrev s₁ : Sys
  s₁ = ticked timer_tick quiet s

  abbrev over : ℕ → Bool
  over x = leb (due x) (now + 1)

  abbrev woken : List ℕ
  woken = take_while over delayed

  abbrev waiting : List ℕ
  waiting = drop_while over delayed

  -- Every delayed task is a task, and its time is to come.
  delayed_ahead : All (λ x. now < due x) delayed
  delayed_ahead =
      All-map (λ x. place x ≡ in_delayed) _ delayed h.valid.ahead h.valid.holds.delayed_place

  is_task : (x : ℕ) → place x ≡ in_delayed → IsTask s x
  is_task x at = elim (Bool-cases (is_null (s.pool.task_function x))) [
    | inl null ↦ absurd (apart (sym at ∙ h.valid.tracked.free x null))
    | inr is ↦ is
  ]
    where
      apart : in_delayed ≡ nowhere → ⊥
      apart e = cc

  delayed_tasks : All (λ x. IsTask s x) delayed
  delayed_tasks = All-map (λ x. place x ≡ in_delayed) _ delayed is_task h.valid.holds.delayed_place

  pool_same : s₁.pool ≡ s.pool
  pool_same = quiet.pool before

  timed₁ : IsTimed s₁ due (now + 1) delayed
  timed₁ =
      one_later s s₁ due now delayed h.valid.timed delayed_ahead
        (ap (λ k. k.tick_count) (quiet.kernel before)) (ap (λ p. p.delay_until) pool_same)

  abbrev after : Sys
  after = PreemptiveSp.update_delayed_tasks s₁

  result :
      Holds after
        (settle s₁.pool.priority woken place)
        (enqueue s₁.pool.priority woken lists)
        waiting
      × (after.pool.state ≡ make_ready woken s₁.pool.state)
      × All (λ x. now + 1 < due x) waiting
  result =
      update_delayed_tasks-Holds s₁ place lists delayed due (now + 1)
        (Holds-same s s₁ place lists delayed (ap (λ p. p.next) pool_same)
          (ap (λ p. p.prev) pool_same) (ap (λ p. p.priority) pool_same) (quiet.preemptive before)
          h.valid.holds)
        timed₁ in_range
    where
      in_range : All (λ x. s₁.pool.priority x < max_task_priorities) delayed
      in_range =
          subst (λ (f : ℕ → ℕ). All (λ x. f x < max_task_priorities) delayed)
            (sym (ap (λ p. p.priority) pool_same))
            (All-map (λ x. IsTask s x) _ delayed h.valid.steady.in_range delayed_tasks)

  outline₁ : outline s₁ ≡ outline s
  outline₁ i = record {
    scheduler = quiet.scheduler before i;
    kernel_state = (quiet.kernel before i).state;
    task_function = (pool_same i).task_function;
    priority = (pool_same i).priority;
  }

  tracked₁ : Tracked s₁.pool.task_function s₁.pool.priority s₁.pool.state place lists delayed
  tracked₁ =
      Tracked-outline s s₁ s.pool.state outline₁ (ap (λ p. p.state) pool_same) h.valid.tracked

  whole : woken ++ waiting ≡ delayed
  whole = take_while-drop_while over delayed

  null : (x : ℕ) → is_null (s₁.pool.task_function x) ≡ is_null (s.pool.task_function x)
  null x = ap (λ o. is_null (o.task_function x)) outline₁

  after-Valid :
      Valid idler after
        (settle s₁.pool.priority woken place)
        (enqueue s₁.pool.priority woken lists)
        waiting
        due
        (now + 1)
  after-Valid = record {
    steady = Steady-seen s after (outline₂ ∙ outline₁) h.valid.steady;
    holds = result.0;
    timed =
        IsTimed-same s₁ after due (now + 1) waiting
          (ap (λ k. k.tick_count) (kernel-update_delayed_tasks s₁))
          (ap (λ o. o.delay_until) (seen-update_delayed_tasks s₁))
          (record {
            tick = timed₁.tick;
            near = All-drop_while _ over delayed timed₁.near;
            sorted = IsSorted-drop_while _ over delayed timed₁.sorted;
          });
    ahead =
        λ x at. All-elem (λ x. now + 1 < due x) x waiting result.2 (tracked₂.in_the_delayed x at);
    tracked = Tracked-outline s₁ after (make_ready woken s₁.pool.state) outline₂ result.1 tracked₂;
  }
    where
      outline₂ : outline after ≡ outline s₁
      outline₂ = ap (λ o. o.outline_of) (seen-update_delayed_tasks s₁)

      tracked₂ :
          Tracked s₁.pool.task_function s₁.pool.priority
            (make_ready woken s₁.pool.state)
            (settle s₁.pool.priority woken place)
            (enqueue s₁.pool.priority woken lists)
            waiting
      tracked₂ =
          settle-Tracked s₁.pool.state place lists woken waiting
            (All-left _ woken waiting (
              subst (λ ds. All (λ x. IsTask s₁ x) ds) (sym whole)
                (All-map (λ x. IsTask s x) _ delayed (λ x is. null x ∙ is) delayed_tasks)))
            (subst
              (λ ds. Tracked s₁.pool.task_function s₁.pool.priority s₁.pool.state place lists ds)
              (sym whole) tracked₁)

  states : after.pool.state ≡ make_ready woken s.pool.state
  states = result.1 ∙ ap (λ (p : Pool). make_ready woken p.state) pool_same

  is_before : (t : ℕ) → is_null (after.pool.task_function t) ≡ is_null (s.pool.task_function t)
  is_before t = ap (λ o. is_null (o.task_function t)) (seen-update_delayed_tasks s₁) ∙ null t

  -- What the tick leaves, whether it asks for a switch or not.
  after-Sound : (b : Bool) → Sound idler (yield_if b after)
  after-Sound b = record {
    place = settle s₁.pool.priority woken place;
    lists = enqueue s₁.pool.priority woken lists;
    delayed = waiting;
    due = due;
    now = now + 1;
    valid = record {
      steady = Steady-seen after (yield_if b after) refl after-Valid.steady;
      holds = Holds-same after (yield_if b after) _ _ waiting refl refl refl refl after-Valid.holds;
      timed =
          IsTimed-same after (yield_if b after) due (now + 1) waiting refl refl after-Valid.timed;
      ahead = after-Valid.ahead;
      tracked = after-Valid.tracked;
    };
    is_on = ap (λ k. k.state) (kernel-update_delayed_tasks s₁ ∙ quiet.kernel before) ∙ h.is_on;
    current = h.current;
    current_is =
        ap (λ k. k.current_task) (kernel-update_delayed_tasks s₁ ∙ quiet.kernel before)
        ∙ h.current_is;
    is_task = is_before h.current ∙ h.is_task;
    one_runs = λ t is st.
        h.one_runs t (sym (is_before t) ∙ is)
          (make_ready-running woken s.pool.state t (sym (ap (λ f. f t) states) ∙ st));
    awake =
        subst (λ f. (f idler ≡ ready) ⊎ (f idler ≡ running)) (sym states)
          (make_ready-awake woken s.pool.state idler h.awake);
  }

  -- A delayed task is READY from its time on, and stays BLOCKED before; any other keeps its state.
  after-blocked :
      (t : ℕ)
      → IsTask s t
      → s.pool.state t ≡ blocked
      → after.pool.state t ≡ (if leb (due t) (now + 1) then ready else blocked)
  after-blocked t is st = ap (λ f. f t) states ∙ (elim (Bool-cases (leb (due t) (now + 1))) [
    | inl e ↦ rw e (make_ready-woken woken s.pool.state t (among ∙ e))
    | inr e ↦ rw e (make_ready-other woken s.pool.state t (among ∙ e) ∙ st)
  ])
    where
      among : elem t woken ≡ leb (due t) (now + 1)
      among =
          take_while-due due (now + 1) t delayed
            (h.valid.tracked.in_the_delayed t (blocked_stands t h.valid.tracked is st)) result.2

  after-other :
      (t : ℕ) → IsTask s t → s.pool.state t ≢ blocked → after.pool.state t ≡ s.pool.state t
  after-other t is ne = ap (λ f. f t) states ∙ (elim (Bool-cases (elem t woken)) [
    | inl e ↦
        absurd (
          ne
            (is_blocked_there (subst (λ ds. elem t ds ≡ true) whole (elem-left t woken waiting e))))
    | inr e ↦ make_ready-other woken s.pool.state t e
  ])
    where
      is_blocked_there : elem t delayed ≡ true → s.pool.state t ≡ blocked
      is_blocked_there e =
          subst (λ pl. Agree pl (s.pool.state t) (s.pool.priority t))
            (All-elem _ t delayed h.valid.holds.delayed_place e) (h.valid.tracked.agrees t is)

-- Between two steps of the kernel, with a pass over the timers that touches no task, a tick leads to a sound state
-- again, one tick later by the clock, with the same wake-up times; a delayed task is READY after it when its time is no later than the new tick and BLOCKED
-- as before otherwise, and no other task changes its state.
pub tick_handler-Sound :
    (idler : ℕ) (timer_tick : Sys → Sys) (s : Sys) (h : Sound idler s)
    → IsQuiet timer_tick
    → let s' = tick_handler timer_tick s in
      (h' : Sound idler s') × (h'.now ≡ h.now + 1)
      × (h'.due ≡ h.due)
      × ((t : ℕ)
          → IsTask s t
          → s.pool.state t ≡ blocked
          → s'.pool.state t ≡ (if leb (h.due t) (h.now + 1) then ready else blocked))
      × ((t : ℕ) → IsTask s t → s.pool.state t ≢ blocked → s'.pool.state t ≡ s.pool.state t)
unfolding after-Sound
tick_handler-Sound idler timer_tick s h quiet =
    let (b, by) = tick_by timer_tick quiet s h.valid.steady.chosen h.is_on in
    rw by (
      after-Sound timer_tick quiet s h b,
      refl,
      refl,
      after-blocked timer_tick quiet s h,
      after-other timer_tick quiet s h,
    )

-- The tasks stay the same.
pub tick_handler-IsTask :
    (idler : ℕ) (timer_tick : Sys → Sys) (s : Sys)
    → Sound idler s
    → IsQuiet timer_tick
    → (t : ℕ) → IsTask s t
    → IsTask (tick_handler timer_tick s) t
tick_handler-IsTask idler timer_tick s h quiet t is =
    let (b, by) = tick_by timer_tick quiet s h.valid.steady.chosen h.is_on in
    rw by (is_before timer_tick quiet s h t ∙ is)
