-- ===== src/Kernel/Readying.antt =====
-- `rtos_kernel_task_ready` and `rtos_kernel_task_unblock` of src/core/kernel.c, between sound states.
use vrtos.Base.{
  ℕ, ◌<◌, ◌≤◌, ◌≡◌, inl, inr, ◌∙◌, refl, sym, ap, subst, Bool, true, false, none, some, List, [],
  ◌∷◌, ◌++◌, ◌==◌, if◌then◌else◌, update, update_self, update-update, Bool-cases, elem,
  elem_removed, elem-split, All-left, All-right, All-append, IsSorted-remove,
}
use vrtos.State.{
  Sys, TaskState, ready, running, blocked, suspended, deleted, kernel_running, preemptive_sp,
  max_task_priorities,
}
use vrtos.State.Setters.{set_state}
use vrtos.Scheduler
use vrtos.Scheduler.{active}
use vrtos.Scheduler.PreemptiveSp
use vrtos.Scheduler.PreemptiveSp.Lists.{Holds, IsTimed, Place, nowhere, in_ready, in_delayed}
use vrtos.Scheduler.PreemptiveSp.Ready.{add_to_ready_list-Holds}
use vrtos.Scheduler.PreemptiveSp.Delayed.{remove_from_delayed_list-Holds}
use vrtos.Kernel.{
  validate_transition, stamp_ready, preempt_for, is_running, is_blocked, task_ready, task_unblock,
  yield_if,
}
use vrtos.Kernel.Switch.{Holds-same, add_by_preemptive}
use vrtos.Kernel.Seen.{
  seen, seen-add_to_ready_list, state-add_to_ready_list, kernel-add_to_ready_list,
}
use vrtos.Kernel.Tracking.{ready-Tracked, other_apart, blocked_stands, elsewhere}
use vrtos.Kernel.Validity.{IsTask, Sound, Valid-seen, Sound-changed}

-- The task that is readied, in the list of its priority.
abbrev readied : ℕ → Sys → Sys
readied t s = PreemptiveSp.add_to_ready_list t (stamp_ready t (set_state t ready s))

-- What `rtos_kernel_task_ready` does for a task that may become READY, up to the request of a switch.
task_ready_by :
    (t : ℕ) (s : Sys)
    → active s ≡ some preemptive_sp
    → s.kernel.state ≡ kernel_running
    → validate_transition (s.pool.state t) ready ≡ true
    → (b : Bool) × (task_ready t s ≡ yield_if b (readied t s))
unfolding task_ready preempt_for is_running Scheduler.should_preempt
task_ready_by t s a on ok = (
  PreemptiveSp.should_preempt (some t) r.kernel.current_task r,
  rw ok (
      ap (λ s₁. if is_running s₁.kernel.state then preempt_for t s₁ else s₁)
        (add_by_preemptive t (stamp_ready t (set_state t ready s)) a)
      ∙ ap (λ k. if is_running k then preempt_for t r else r) running_still
      ∙ preempt),
)
  where
    r : Sys
    r = readied t s

    same : seen r ≡ seen s
    same = seen-add_to_ready_list t (stamp_ready t (set_state t ready s))

    running_still : r.kernel.state ≡ kernel_running
    running_still = ap (λ o. o.kernel_state) same ∙ on

    preempt :
        preempt_for t r ≡ yield_if (PreemptiveSp.should_preempt (some t) r.kernel.current_task r) r
    preempt =
        rw (ap (λ o. if o.scheduler.initialized then o.scheduler.vtable else none) same ∙ a) refl

-- A task that becomes READY out of `s₀`, the state `s` without it in its lists.
readied-Sound :
    {idler : ℕ} {place₀ : ℕ → Place} {delayed' : List ℕ} (t : ℕ) (s s₀ : Sys) (b : Bool)
    (h : Sound idler s)
    → IsTask s t
    → seen s₀ ≡ seen s
    → s₀.kernel.current_task ≡ s.kernel.current_task
    → s₀.pool.state ≡ s.pool.state
    → Holds s₀ place₀ h.lists delayed'
    → place₀ t ≡ nowhere
    → update place₀ t (in_ready (s.pool.priority t))
      ≡ update h.place t (in_ready (s.pool.priority t))
    → IsTimed s h.due h.now delayed'
    → ((x : ℕ) → (x == t) ≡ false → elem x h.delayed ≡ true → elem x delayed' ≡ true)
    → Sound idler (yield_if b (readied t s₀))
readied-Sound {place₀} {delayed'} t s s₀ b h is same cur states holds away places timed others =
    Sound-changed s s' t ready h (ap (λ o. o.outline_of) same') (kernel_current ∙ cur) states'
      (λ e. cc) (inr refl)
      (Valid-seen s s' (update s.pool.state t ready) same' states' h.valid holds'
        (ready-Tracked t is h.valid.tracked delayed' others) timed
        (λ x at.
          h.valid.ahead x (elsewhere h.place t x (in_ready (s.pool.priority t)) (λ e. cc) at)))
  where
    s' : Sys
    s' = yield_if b (readied t s₀)

    same' : seen s' ≡ seen s
    same' = seen-add_to_ready_list t (stamp_ready t (set_state t ready s₀)) ∙ same

    states' : s'.pool.state ≡ update s.pool.state t ready
    states' =
        state-add_to_ready_list t (stamp_ready t (set_state t ready s₀))
        ∙ ap (λ f. update f t ready) states

    p₀ : s₀.pool.priority t ≡ s.pool.priority t
    p₀ = ap (λ o. o.priority t) same

    kernel_current : s'.kernel.current_task ≡ s₀.kernel.current_task
    kernel_current =
        ap (λ k. k.current_task) (kernel-add_to_ready_list t (stamp_ready t (set_state t ready s₀)))

    added :
        let q = s₀.pool.priority t in
        Holds
          (readied t s₀)
          (update place₀ t (in_ready q))
          (update h.lists q (h.lists q ++ t ∷ []))
          delayed'
    added =
        add_to_ready_list-Holds t (stamp_ready t (set_state t ready s₀)) place₀ h.lists delayed'
          (Holds-same s₀ (stamp_ready t (set_state t ready s₀)) place₀ h.lists delayed' refl refl
            refl refl holds)
          (h.valid.steady.small t is)
          (subst (λ q. q < max_task_priorities) (sym p₀) (h.valid.steady.in_range t is)) away

    holds' :
        let p = s.pool.priority t in
        Holds s' (update h.place t (in_ready p)) (update h.lists p (h.lists p ++ t ∷ [])) delayed'
    holds' =
        let p : ℕ = s.pool.priority t in
        Holds-same (readied t s₀) s' _ _ delayed' refl refl refl refl (
          subst (λ pl. Holds (readied t s₀) pl (update h.lists p (h.lists p ++ t ∷ [])) delayed')
            places
            (subst
              (λ q.
                Holds (readied t s₀) (update place₀ t (in_ready q))
                  (update h.lists q (h.lists q ++ t ∷ [])) delayed')
              p₀ added))

-- A task that is SUSPENDED is READY when it is resumed.
pub task_ready-Sound :
    (idler t : ℕ) (s : Sys)
    → Sound idler s
    → IsTask s t
    → s.pool.state t ≡ suspended
    → Sound idler (task_ready t s)
unfolding validate_transition
task_ready-Sound idler t s h is st =
    let (b, by) = task_ready_by t s h.valid.steady.chosen h.is_on (rw st refl) in
    rw by (
      readied-Sound t s s b h is refl refl refl h.valid.holds
        (other_apart t h.valid.tracked is (λ e. ready_apart (sym st ∙ e))
          (λ e. blocked_apart (sym st ∙ e)))
        refl h.valid.timed (λ x ne at. at))
  where
    ready_apart : suspended ≡ ready → ⊥
    ready_apart e = cc

    blocked_apart : suspended ≡ blocked → ⊥
    blocked_apart e = cc

-- Without one of the delayed tasks, the others keep their times and their order.
pub IsTimed-remove :
    (t : ℕ) (before after : List ℕ) (s : Sys) (due : ℕ → ℕ) (now : ℕ)
    → IsTimed s due now (before ++ t ∷ after)
    → IsTimed s due now (before ++ after)
IsTimed-remove t before after s due now h = record {
  tick = h.tick;
  near =
      All-append _ before after (All-left _ before (t ∷ after) h.near)
        (All-right _ before (t ∷ after) h.near).1;
  sorted = IsSorted-remove (λ x y. due x ≤ due y) t before after h.sorted;
}

blocked_is : (st : TaskState) → is_blocked st ≡ true → st ≡ blocked
unfolding is_blocked
blocked_is blocked e = refl
blocked_is ready e = cc
blocked_is running e = cc
blocked_is suspended e = cc
blocked_is deleted e = cc

unblocked-Sound :
    (idler t : ℕ) (s : Sys)
    → Sound idler s
    → IsTask s t
    → s.pool.state t ≡ blocked
    → Sound idler (task_ready t (PreemptiveSp.remove_from_delayed_list t s))
unfolding validate_transition PreemptiveSp.remove_from_delayed_list
unblocked-Sound idler t s h is st =
    let at : h.place t ≡ in_delayed = blocked_stands t h.valid.tracked is st in
    let (before, after, eq) = elem-split t h.delayed (h.valid.tracked.in_the_delayed t at) in
    let s₀ = PreemptiveSp.remove_from_delayed_list t s in
    let (b, by) = task_ready_by t s₀ h.valid.steady.chosen h.is_on (rw st refl) in
    rw by (
      readied-Sound t s s₀ b h is refl refl refl
        (remove_from_delayed_list-Holds t before after s h.place h.lists
          (subst (λ ds. Holds s h.place h.lists ds) eq h.valid.holds))
        (update_self h.place t nowhere)
        (update-update h.place t nowhere (in_ready (s.pool.priority t)))
        (IsTimed-remove t before after s h.due h.now
          (subst (λ ds. IsTimed s h.due h.now ds) eq h.valid.timed))
        (λ x ne there. elem_removed t x before after ne (subst (λ ds. elem x ds ≡ true) eq there)))

pub task_unblock-Sound :
    (idler t : ℕ) (s : Sys) → Sound idler s → IsTask s t → Sound idler (task_unblock t s)
unfolding task_unblock Scheduler.remove_from_delayed_list
task_unblock-Sound idler t s h is = elim (Bool-cases (is_blocked (s.pool.state t))) [
  | inl e ↦ rw (e, h.valid.steady.chosen) (unblocked-Sound idler t s h is (blocked_is _ e))
  | inr e ↦ rw e h
]
