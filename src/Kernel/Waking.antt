-- ===== src/Kernel/Waking.antt =====
-- The task that `rtos_kernel_task_unblock` of src/core/kernel.c wakes, under any scheduler.
use vrtos.Base.{
  ℕ, ◌≡◌, refl, ◌∙◌, ap, Bool, true, false, some, if◌then◌else◌, update, update_self, Bool-cases,
  inl, inr,
}
use vrtos.State.{Sys, TaskState, ready, running, blocked, suspended, deleted}
use vrtos.State.Setters.{set_state}
use vrtos.Scheduler
use vrtos.Scheduler.Frame.{
  add_to_ready_list-state, remove_from_delayed_list-state, should_preempt-pool,
}
use vrtos.Kernel.{
  validate_transition, stamp_ready, preempt_for, is_running, is_blocked, task_ready, task_unblock,
}

task_ready-state :
    (t : ℕ) (s : Sys)
    → validate_transition (s.pool.state t) ready ≡ true
    → (task_ready t s).pool.state ≡ update s.pool.state t ready
unfolding task_ready preempt_for
task_ready-state t s ok = rw ok (either (is_running s₁.kernel.state))
  where
    s₁ : Sys
    s₁ = Scheduler.add_to_ready_list t (stamp_ready t (set_state t ready s))

    states : s₁.pool.state ≡ update s.pool.state t ready
    states = add_to_ready_list-state t (stamp_ready t (set_state t ready s))

    either :
        (b : Bool) → (if b then preempt_for t s₁ else s₁).pool.state ≡ update s.pool.state t ready
    either true = ap (λ p. p.state) (should_preempt-pool (some t) s₁) ∙ states
    either false = states

of_blocked : (st : TaskState) → is_blocked st ≡ true → validate_transition st ready ≡ true
unfolding is_blocked validate_transition
of_blocked blocked e = refl
of_blocked ready e = cc
of_blocked running e = cc
of_blocked suspended e = refl
of_blocked deleted e = cc

-- A BLOCKED task is READY after it; any other stays as it is.
pub task_unblock-state :
    (t : ℕ) (s : Sys)
    → (task_unblock t s).pool.state t
      ≡ (if is_blocked (s.pool.state t) then ready else s.pool.state t)
unfolding task_unblock
task_unblock-state t s = elim (Bool-cases (is_blocked (s.pool.state t))) [
  | inl e ↦ rw e (
      ap (λ f. f t)
        (task_ready-state t r
          (ap (λ f. validate_transition (f t) ready) kept ∙ of_blocked (s.pool.state t) e))
      ∙ update_self r.pool.state t ready)
  | inr e ↦ rw e refl
]
  where
    r : Sys
    r = Scheduler.remove_from_delayed_list t s

    kept : r.pool.state ≡ s.pool.state
    kept = remove_from_delayed_list-state t s
