-- ===== src/Task/Life/Suspension.antt =====
-- `rtos_task_suspend` and `rtos_task_resume` of src/task/task.c between sound states of the kernel.
use vrtos.Base.{
  ℕ, ◌≡◌, ◌≢◌, inl, inr, ◌∙◌, refl, sym, ap, subst, Bool, true, false, Option, some, ◌==?◌,
  if◌then◌else◌, Bool-cases,
}
use vrtos.State.{Sys, TaskState, ready, running, blocked, suspended, deleted, Status, preemptive_sp}
use vrtos.State.Setters.{set_state}
use vrtos.Kernel
use vrtos.Scheduler
use vrtos.Scheduler.{active}
use vrtos.Scheduler.PreemptiveSp
use vrtos.Kernel.Switch.{remove_by_preemptive}
use vrtos.Kernel.Seen.{state-remove_from_ready_list}
use vrtos.Kernel.Readying.{task_ready-Sound}
use vrtos.Kernel.Validity.{IsTask, Sound, Sound-pendsv}
use vrtos.Task.Life.{suspend, resume, suspend_task, is_suspended, named}
use vrtos.Task.Life.Leaving.{suspend-ready, suspend-blocked, suspend-running}

-- The task out of the list that its state says it is in, and the request of a switch.
abbrev taken_out : ℕ → Sys → Sys
taken_out t s =
    let s₁ = if Kernel.is_ready (s.pool.state t) then Scheduler.remove_from_ready_list t s else s in
    if Kernel.is_blocked (s₁.pool.state t) then Scheduler.remove_from_delayed_list t s₁ else s₁

abbrev asking : ℕ → Sys → Sys
asking t s = if s.kernel.current_task ==? t then Kernel.yield s else s

asking-Sound : {idler : ℕ} (t : ℕ) (s : Sys) → Sound idler s → Sound idler (asking t s)
asking-Sound t s h = elim (Bool-cases (s.kernel.current_task ==? t)) [
  | inl e ↦ rw e (Sound-pendsv true s h)
  | inr e ↦ rw e h
]

-- Either result of the check of the transition.
allowed-Sound :
    {idler : ℕ} (b : Bool) (x y : Sys) (a c : Status)
    → Sound idler x
    → Sound idler y
    → let r : Sys × Status = if b then (x, a) else (y, c) in Sound idler r.0
allowed-Sound true x y a c hx hy = hx
allowed-Sound false x y a c hx hy = hy

module _ (t : ℕ) (s : Sys) (a : active s ≡ some preemptive_sp) where
  taken_out-ready : s.pool.state t ≡ ready → taken_out t s ≡ PreemptiveSp.remove_from_ready_list t s
  unfolding Kernel.is_ready Kernel.is_blocked
  taken_out-ready st =
      ap
        (λ st.
          let s₁ = if Kernel.is_ready st then Scheduler.remove_from_ready_list t s else s in
          if Kernel.is_blocked (s₁.pool.state t)
          then Scheduler.remove_from_delayed_list t s₁
          else s₁)
        st
      ∙ ap
          (λ s₁.
            if Kernel.is_blocked (s₁.pool.state t)
            then Scheduler.remove_from_delayed_list t s₁
            else s₁)
          (remove_by_preemptive t s a)
      ∙ ap
          (λ st.
            if Kernel.is_blocked st
            then Scheduler.remove_from_delayed_list t (PreemptiveSp.remove_from_ready_list t s)
            else PreemptiveSp.remove_from_ready_list t s)
          (ap (λ f. f t) (state-remove_from_ready_list t s) ∙ st)

  taken_out-blocked :
      s.pool.state t ≡ blocked → taken_out t s ≡ PreemptiveSp.remove_from_delayed_list t s
  unfolding Kernel.is_ready Kernel.is_blocked Scheduler.remove_from_delayed_list
  taken_out-blocked st =
      ap
        (λ st.
          let s₁ = if Kernel.is_ready st then Scheduler.remove_from_ready_list t s else s in
          if Kernel.is_blocked (s₁.pool.state t)
          then Scheduler.remove_from_delayed_list t s₁
          else s₁)
        st
      ∙ ap (λ st. if Kernel.is_blocked st then Scheduler.remove_from_delayed_list t s else s) st
      ∙ rw a refl

  taken_out-running : s.pool.state t ≡ running → taken_out t s ≡ s
  unfolding Kernel.is_ready Kernel.is_blocked
  taken_out-running st =
      ap
        (λ st.
          let s₁ = if Kernel.is_ready st then Scheduler.remove_from_ready_list t s else s in
          if Kernel.is_blocked (s₁.pool.state t)
          then Scheduler.remove_from_delayed_list t s₁
          else s₁)
        st
      ∙ ap (λ st. if Kernel.is_blocked st then Scheduler.remove_from_delayed_list t s else s) st

-- What is left of the task, when the check of the transition lets it go.
suspend_from :
    (idler t : ℕ) (s s₀ : Sys)
    → Sound idler s
    → taken_out t s ≡ s₀
    → Sound idler (set_state t suspended s₀)
    → Sound idler (suspend_task (some t) s).0
unfolding suspend_task Kernel.validate_transition
suspend_from idler t s s₀ h taken left =
    allowed-Sound (Kernel.validate_transition (s.pool.state t) suspended) _ s _ _
      (asking-Sound t (set_state t suspended (taken_out t s))
        (subst (λ x. Sound idler (set_state t suspended x)) (sym taken) left))
      h

-- The task, not the idle one, as its state has it.
suspend_by :
    (idler t : ℕ) (s : Sys) (st : TaskState) (h : Sound idler s)
    → IsTask s t
    → t ≢ idler
    → s.pool.state t ≡ st
    → Sound idler (suspend_task (some t) s).0
unfolding suspend_task Kernel.validate_transition
suspend_by idler t s ready h is busy st =
    suspend_from idler t s _ h (taken_out-ready t s h.valid.steady.chosen st)
      (suspend-ready idler t s h is busy st)
suspend_by idler t s running h is busy st =
    suspend_from idler t s _ h (taken_out-running t s h.valid.steady.chosen st)
      (suspend-running idler t s h is busy st)
suspend_by idler t s blocked h is busy st =
    suspend_from idler t s _ h (taken_out-blocked t s h.valid.steady.chosen st)
      (suspend-blocked idler t s h is busy st)
suspend_by idler t s suspended h is busy st = rw st h
suspend_by idler t s deleted h is busy st = rw st h

-- Between two steps of the kernel, suspending a task that is not the idle one leads to a sound state.
pub suspend-Sound :
    (idler t : ℕ) (handle : Option ℕ) (s : Sys)
    → Sound idler s
    → named handle s ≡ some t
    → IsTask s t
    → t ≢ idler
    → Sound idler (suspend handle s).0
unfolding suspend
suspend-Sound idler t handle s h names is busy =
    subst (λ o. Sound idler (suspend_task o s).0) (sym names)
      (suspend_by idler t s (s.pool.state t) h is busy refl)

is_suspended_is : (st : TaskState) → is_suspended st ≡ true → st ≡ suspended
unfolding is_suspended
is_suspended_is suspended e = refl
is_suspended_is ready e = cc
is_suspended_is running e = cc
is_suspended_is blocked e = cc
is_suspended_is deleted e = cc

-- Resuming a task leads to a sound state as well; it does nothing to one that is not SUSPENDED.
pub resume-Sound :
    (idler t : ℕ) (s : Sys) → Sound idler s → IsTask s t → Sound idler (resume (some t) s).0
unfolding resume
resume-Sound idler t s h is = elim (Bool-cases (is_suspended (s.pool.state t))) [
  | inl e ↦ rw e (task_ready-Sound idler t s h is (is_suspended_is _ e))
  | inr e ↦ rw e h
]
