-- ===== src/Scheduler/PreemptiveSp/Wakeups.antt =====
-- The tick's pass over the delayed list of preemptive_sp.c: who is woken, and where they go.
use vrtos.Base.{
  ℕ, zero, suc, ◌+◌, ◌%◌, ◌^◌, ◌<◌, ◌≤◌, ◌≡◌, refl, sym, ap, ◌∙◌, Bool, Option, none, some, List,
  [], ◌∷◌, ◌++◌, inl, inr, arith, ltb, leb, if◌then◌else◌, update, update-update, length, first,
  All, Dll-length, Chain-head, take_while, drop_while, take_while-agree, IsSorted, All-map, subst,
  signed_ge, signed_ge_of_near, Bool-cases, update_self,
}
use vrtos.State.{Sys, TaskState, Kernel, ready, max_tasks, max_task_priorities}
use vrtos.State.Setters.{set_next, set_prev, set_state, set_ready_timestamp}
use vrtos.Scheduler.PreemptiveSp.{
  append_ready, add_to_ready_list, remove_from_delayed_list, wake, wake_expired,
  update_delayed_tasks,
}
use vrtos.Scheduler.PreemptiveSp.Lists.{Place, nowhere, in_ready, Holds, IsTimed}
use vrtos.Scheduler.PreemptiveSp.Ready.{add_to_ready_list-Holds}
use vrtos.Scheduler.PreemptiveSp.Delayed.{remove_from_delayed_list-Holds}

-- The fields that the list operations leave alone, with their values.
record Keeps (s : Sys) (state : ℕ → TaskState) (priority delay_until : ℕ → ℕ) (kernel : Kernel)
    (cycles : ℕ) : Type 0 where
  state_is : s.pool.state ≡ state
  priority_is : s.pool.priority ≡ priority
  delay_is : s.pool.delay_until ≡ delay_until
  kernel_is : s.kernel ≡ kernel
  cycles_is : s.cycles ≡ cycles

abbrev KeepsAll : Sys → Sys → (ℕ → TaskState) → Type 0
KeepsAll s s' state = Keeps s' state s.pool.priority s.pool.delay_until s.kernel s.cycles

append_ready-Keeps :
    (t p : ℕ) (head : Option ℕ) (s : Sys) → KeepsAll s (append_ready t p head s) s.pool.state
unfolding append_ready
append_ready-Keeps t p none s = record {
  state_is = refl;
  priority_is = refl;
  delay_is = refl;
  kernel_is = refl;
  cycles_is = refl;
}
append_ready-Keeps t p (some h) s = record {
  state_is = refl;
  priority_is = refl;
  delay_is = refl;
  kernel_is = refl;
  cycles_is = refl;
}

add_to_ready_list-Keeps : (t : ℕ) (s : Sys) → KeepsAll s (add_to_ready_list t s) s.pool.state
unfolding add_to_ready_list
add_to_ready_list-Keeps t s = elim (Bool-cases (leb max_task_priorities (s.pool.priority t))) [
  | inl e ↦ rw e (record {
    state_is = refl;
    priority_is = refl;
    delay_is = refl;
    kernel_is = refl;
    cycles_is = refl;
  })
  | inr e ↦ rw e (
      append_ready-Keeps t (s.pool.priority t) (s.preemptive.ready_lists (s.pool.priority t))
        (set_prev t none (set_next t none s)))
]

wake-Keeps : (t : ℕ) (s : Sys) → KeepsAll s (wake t s) (update s.pool.state t ready)
unfolding wake remove_from_delayed_list
wake-Keeps t s = add_to_ready_list-Keeps t _

-- The task, READY and in no list.
abbrev taken_out : ℕ → Sys → Sys
taken_out t s =
    set_ready_timestamp t (if ltb 0 (s.pool.priority t) then s.cycles else s.pool.ready_timestamp t)
      (set_state t ready (remove_from_delayed_list t s))

taken_out-Holds :
    (t : ℕ) (rest : List ℕ) (s : Sys) (place : ℕ → Place) (lists : ℕ → List ℕ)
    → Holds s place lists (t ∷ rest)
    → Holds (taken_out t s) (update place t nowhere) lists rest
taken_out-Holds t rest s place lists h =
    let h₁ = remove_from_delayed_list-Holds t [] rest s place lists h in
    record {
      ready_list = h₁.ready_list;
      delayed_list = h₁.delayed_list;
      ready_place = h₁.ready_place;
      delayed_place = h₁.delayed_place;
      ready_priority = h₁.ready_priority;
      map_small = h₁.map_small;
      map = h₁.map;
    }

wake-Holds :
    (t : ℕ) (rest : List ℕ) (s : Sys) (place : ℕ → Place) (lists : ℕ → List ℕ)
    → Holds s place lists (t ∷ rest)
    → s.pool.priority t < max_task_priorities
    → let p = s.pool.priority t in
      Holds (wake t s) (update place t (in_ready p)) (update lists p (lists p ++ t ∷ [])) rest
unfolding wake remove_from_delayed_list
wake-Holds t rest s place lists h lt =
    rw (update-update place t nowhere (in_ready (s.pool.priority t))) at (
      add_to_ready_list-Holds t (taken_out t s) (update place t nowhere) lists rest
        (taken_out-Holds t rest s place lists h) h.delayed_list.small.0 lt
        (update_self place t nowhere))

module _ (priority : ℕ → ℕ) where
  -- The lists, the places and the states after the tasks `ws` are woken in that order.
  abbrev pub enqueue : List ℕ → (ℕ → List ℕ) → ℕ → List ℕ
  enqueue [] lists = lists
  enqueue (w ∷ ws) lists = enqueue ws (update lists (priority w) (lists (priority w) ++ w ∷ []))

  abbrev pub settle : List ℕ → (ℕ → Place) → ℕ → Place
  settle [] place = place
  settle (w ∷ ws) place = settle ws (update place w (in_ready (priority w)))

abbrev pub make_ready : List ℕ → (ℕ → TaskState) → ℕ → TaskState
make_ready [] state = state
make_ready (w ∷ ws) state = make_ready ws (update state w ready)

-- The tasks whose delay is over at `now`: the list is in the order of the wake-up times, so they are
-- its first ones.
abbrev pub over_at : ℕ → (ℕ → ℕ) → ℕ → Bool
over_at now delay_until c = signed_ge now (delay_until c)

wake_expired-Holds :
    (f : ℕ) (s : Sys) (place : ℕ → Place) (lists : ℕ → List ℕ) (delayed : List ℕ)
    (priority delay_until : ℕ → ℕ) (kernel : Kernel) (state : ℕ → TaskState) (cycles : ℕ)
    → length delayed ≤ f
    → Holds s place lists delayed
    → Keeps s state priority delay_until kernel cycles
    → All (λ x. priority x < max_task_priorities) delayed
    → let over = over_at kernel.tick_count delay_until in
      let ws = take_while over delayed in
      let s' = wake_expired f (first delayed) s in
      Holds s' (settle priority ws place) (enqueue priority ws lists) (drop_while over delayed)
      × Keeps s' (make_ready ws state) priority delay_until kernel cycles
unfolding wake_expired
wake_expired-Holds zero s place lists [] priority delay_until kernel state cycles len h k lt =
    (h, k)
wake_expired-Holds zero s place lists (x ∷ xs) priority delay_until kernel state cycles len h k lt =
    absurd (omega arith)
wake_expired-Holds (suc f) s place lists [] priority delay_until kernel state cycles len h k lt =
    (h, k)
wake_expired-Holds (suc f) s place lists (x ∷ xs) priority delay_until kernel state cycles len h k
      lt =
    elim (Bool-cases (signed_ge kernel.tick_count (delay_until x))) [
      | inl e ↦
          rw (test ∙ e, e, after)
            (wake_expired-Holds f (wake x s) (update place x (in_ready (priority x)))
              (update lists (priority x) (lists (priority x) ++ x ∷ [])) xs priority delay_until
              kernel (update state x ready) cycles (omega arith) woken kept lt.1)
      | inr e ↦ rw (test ∙ e, e) (h, k)
    ]
  where
    after : s.pool.next x ≡ first xs
    after = Chain-head s.pool.next (s.pool.next x) xs h.delayed_list.chain.1

    same : s.pool.priority x ≡ priority x
    same = ap (λ (f : ℕ → ℕ). f x) k.priority_is

    test :
        signed_ge s.kernel.tick_count (s.pool.delay_until x)
        ≡ signed_ge kernel.tick_count (delay_until x)
    test =
        ap (λ (c : Kernel). signed_ge c.tick_count (s.pool.delay_until x)) k.kernel_is
        ∙ ap (λ (f : ℕ → ℕ). signed_ge kernel.tick_count (f x)) k.delay_is

    woken :
        Holds
          (wake x s)
          (update place x (in_ready (priority x)))
          (update lists (priority x) (lists (priority x) ++ x ∷ []))
          xs
    woken =
        subst
          (λ q.
            Holds (wake x s) (update place x (in_ready q)) (update lists q (lists q ++ x ∷ [])) xs)
          same
          (wake-Holds x xs s place lists h (subst (λ q. q < max_task_priorities) (sym same) lt.0))

    kept : Keeps (wake x s) (update state x ready) priority delay_until kernel cycles
    kept =
        let w = wake-Keeps x s in
        record {
          state_is = w.state_is ∙ ap (λ (f : ℕ → TaskState). update f x ready) k.state_is;
          priority_is = w.priority_is ∙ k.priority_is;
          delay_is = w.delay_is ∙ k.delay_is;
          kernel_is = w.kernel_is ∙ k.kernel_is;
          cycles_is = w.cycles_is ∙ k.cycles_is;
        }

over-agree :
    (s : Sys) (due : ℕ → ℕ) (now : ℕ) (delayed : List ℕ)
    → s.kernel.tick_count ≡ now % 2 ^ 32
    → All
        (λ x. (s.pool.delay_until x ≡ due x % 2 ^ 32) × (now ≤ due x) × (due x < now + 2 ^ 31))
        delayed
    → All (λ x. over_at s.kernel.tick_count s.pool.delay_until x ≡ leb (due x) now) delayed
over-agree s due now [] tick near = tt
over-agree s due now (x ∷ xs) tick near = (
  rw (tick, near.0.0) (signed_ge_of_near now (due x) (omega arith) (omega arith)),
  over-agree s due now xs tick near.1,
)

later_than :
    (due : ℕ → ℕ) (now : ℕ) (xs : List ℕ)
    → IsSorted (λ x y. due x ≤ due y) xs
    → All (λ x. now < due x) (drop_while (λ x. leb (due x) now) xs)
later_than due now [] s = tt
later_than due now (x ∷ xs) s = elim (Bool-cases (leb (due x) now)) [
  | inl e ↦ rw e (later_than due now xs s.1)
  | inr e ↦
      let behind : now < due x = ground arith in
      rw e (behind, All-map (λ y. due x ≤ due y) (λ y. now < due y) xs (λ y le. omega arith) s.0)
]

-- With the lists in order and the delayed tasks sorted by their times, of priorities in range, a
-- tick wakes exactly those whose time has come: they become READY, each goes in the order of the
-- times to the end of the ready list of its priority, and the later ones stay delayed; no other
-- task changes its state.
pub update_delayed_tasks-Holds :
    (s : Sys) (place : ℕ → Place) (lists : ℕ → List ℕ) (delayed : List ℕ) (due : ℕ → ℕ) (now : ℕ)
    → Holds s place lists delayed
    → IsTimed s due now delayed
    → All (λ x. s.pool.priority x < max_task_priorities) delayed
    → let ws = take_while (λ x. leb (due x) now) delayed in
      let s' = update_delayed_tasks s in
      Holds s'
        (settle s.pool.priority ws place)
        (enqueue s.pool.priority ws lists)
        (drop_while (λ x. leb (due x) now) delayed)
      × (s'.pool.state ≡ make_ready ws s.pool.state)
      × All (λ x. now < due x) (drop_while (λ x. leb (due x) now) delayed)
unfolding update_delayed_tasks
update_delayed_tasks-Holds s place lists delayed due now h timed lt =
    let ws : List ℕ = take_while (λ x. leb (due x) now) delayed in
    let agree =
      take_while-agree _ (λ x. leb (due x) now) delayed
        (over-agree s due now delayed timed.tick timed.near) in
    let all =
      wake_expired-Holds max_tasks s place lists delayed s.pool.priority s.pool.delay_until s.kernel
        s.pool.state s.cycles (Dll-length max_tasks _ _ _ delayed h.delayed_list) h
        (record {
          state_is = refl;
          priority_is = refl;
          delay_is = refl;
          kernel_is = refl;
          cycles_is = refl;
        })
        lt in
    let all' =
      subst
        (λ q.
          Holds (wake_expired max_tasks q s) (settle s.pool.priority ws place)
            (enqueue s.pool.priority ws lists) (drop_while (λ x. leb (due x) now) delayed)
          × Keeps (wake_expired max_tasks q s) (make_ready ws s.pool.state) s.pool.priority
              s.pool.delay_until s.kernel s.cycles)
        (sym (Chain-head _ _ delayed h.delayed_list.chain)) (rw (agree.0, agree.1) at all) in
    (all'.0, all'.1.state_is, later_than due now delayed timed.sorted)
