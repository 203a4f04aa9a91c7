-- ===== src/Kernel/Frame.antt =====
-- What blocking and unblocking a task leave alone: the calls of kernel.c change what the synchronisation
-- code works on nowhere.
use vrtos.Base.{ℕ, ◌≡◌, refl, ◌∙◌, some, ltb, if◌then◌else◌}
use vrtos.State.{Sys, ready, blocked}
use vrtos.State.Setters.{set_state}
use vrtos.Scheduler
use vrtos.Scheduler.Frame.{
  view, view_if, view-add_to_ready_list, view-remove_from_ready_list, view-add_to_delayed_list,
  view-remove_from_delayed_list, view-should_preempt,
}
use vrtos.Kernel.{
  validate_transition, stamp_ready, preempt_for, is_running, task_ready, task_block, task_unblock,
  is_ready, is_blocked,
}

pub view-task_ready : (t : ℕ) (s : Sys) → view (task_ready t s) ≡ view s
unfolding task_ready
view-task_ready t s =
    view_if (validate_transition (s.pool.state t) ready) _ s (view s)
      (view_if (is_running s₁.kernel.state) (preempt_for t s₁) s₁ (view s)
        (view-should_preempt (some t) s₁ ∙ added) added)
      refl
  where
    s₁ : Sys
    s₁ = Scheduler.add_to_ready_list t (stamp_ready t (set_state t ready s))

    added : view s₁ ≡ view s
    added = view-add_to_ready_list t (stamp_ready t (set_state t ready s))

pub view-task_block : (t ticks : ℕ) (s : Sys) → view (task_block t ticks s) ≡ view s
unfolding task_block
view-task_block t ticks s =
    view_if (validate_transition (s.pool.state t) blocked) _ s (view s)
      (view_if (ltb 0 ticks) (Scheduler.add_to_delayed_list t ticks (set_state t blocked s₁))
        (set_state t blocked s₁) (view s)
        (view-add_to_delayed_list t ticks (set_state t blocked s₁) ∙ removed) removed)
      refl
  where
    s₁ : Sys
    s₁ = if is_ready (s.pool.state t) then Scheduler.remove_from_ready_list t s else s

    removed : view s₁ ≡ view s
    removed =
        view_if (is_ready (s.pool.state t)) (Scheduler.remove_from_ready_list t s) s (view s)
          (view-remove_from_ready_list t s) refl

pub view-task_unblock : (t : ℕ) (s : Sys) → view (task_unblock t s) ≡ view s
unfolding task_unblock
view-task_unblock t s =
    view_if (is_blocked (s.pool.state t)) _ s (view s)
      (view-task_ready t (Scheduler.remove_from_delayed_list t s)
        ∙ view-remove_from_delayed_list t s)
      refl
