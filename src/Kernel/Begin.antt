-- ===== src/Kernel/Begin.antt =====
-- The start of the scheduler, `rtos_start_scheduler` of src/core/kernel.c.
use vrtos.Base.{
  All, subst, ℕ, ◌<◌, ◌≡◌, refl, sym, ◌∙◌, ap, Option, none, some, List, [], ◌∷◌, if◌then◌else◌,
  elem-nil,
}
use vrtos.State.{
  Sys, invalid_state, ready, running, KernelState, kernel_ready, kernel_running,
  max_task_priorities,
}
use vrtos.State.Setters.{set_state, set_next_task, set_current_task}
use vrtos.Scheduler
use vrtos.Scheduler.PreemptiveSp
use vrtos.Scheduler.PreemptiveSp.Lists.{Place}
use vrtos.Scheduler.PreemptiveSp.Choice.{Chosen, idle, pick, get_next_task-Chosen}
use vrtos.Kernel.{start_scheduler, start_with, is_kernel_ready, is_ready}
use vrtos.Kernel.Switch.{Holds-same, first_removed, next_by_preemptive, remove_by_preemptive}
use vrtos.Kernel.Delay.{IsTimed-same}
use vrtos.Kernel.Seen.{
  Seen, seen-remove_from_ready_list, state-remove_from_ready_list, kernel-remove_from_ready_list,
}
use vrtos.Kernel.Tracking.{ready_stands}
use vrtos.Kernel.Validity.{IsTask, Valid, Sound}
use vrtos.Scheduler.PreemptiveSp.Removal.{remove_from_ready_list-links}
use vrtos.Kernel.Dispatch.{Runs, first_is_task, first-Runs}
use vrtos.Kernel.Turn.{IsHighest, Runs-IsHighest, Runs-Sound}

-- The state with the kernel in another state.
abbrev kept_in : KernelState → Sys → Sys
kept_in k s = record s { kernel = record s.kernel { state = k } }

kept_in-Valid :
    {idler : ℕ} {place : ℕ → Place} {lists : ℕ → List ℕ} {delayed : List ℕ} {due : ℕ → ℕ} {now : ℕ}
    (k : KernelState) (s : Sys)
    → Valid idler s place lists delayed due now
    → Valid idler (kept_in k s) place lists delayed due now
kept_in-Valid {place} {lists} {delayed} {due} {now} k s v = record {
  steady = record {
    chosen = v.steady.chosen;
    small = v.steady.small;
    in_range = v.steady.in_range;
    idle_is = v.steady.idle_is;
  };
  holds = Holds-same s (kept_in k s) place lists delayed refl refl refl refl v.holds;
  timed = IsTimed-same s (kept_in k s) due now delayed refl refl v.timed;
  ahead = v.ahead;
  tracked = v.tracked;
}

module _ {idler : ℕ} {s : Sys} {place : ℕ → Place} {lists : ℕ → List ℕ} {delayed : List ℕ}
    {due : ℕ → ℕ} {now : ℕ} (v : Valid idler s place lists delayed due now) where
  -- What is started: the task, and the state after the call.
  abbrev begun : ℕ → Sys
  begun t =
      let s₁ = set_state t running (set_current_task (some t) (set_next_task (some t) s)) in
      kept_in kernel_running (PreemptiveSp.remove_from_ready_list t s₁)

  begun-Runs :
      (p t : ℕ) (rest : List ℕ)
      → p < max_task_priorities
      → lists p ≡ t ∷ rest
      → ((q : ℕ) → p < q → q < max_task_priorities → lists q ≡ [])
      → Runs idler (kept_in kernel_running s) place lists delayed due now (begun t)
  begun-Runs p t rest lt is above =
      first-Runs (kept_in-Valid kernel_running s v) p t rest (begun t) is above
        (ap (λ k. k.current_task) (kernel-remove_from_ready_list t s₁))
        (ap
          (λ (o : Seen). record o {
            outline_of = record o.outline_of { kernel_state = kernel_running };
          })
          (seen-remove_from_ready_list t s₁))
        (state-remove_from_ready_list t s₁)
        (remove_from_ready_list-links t s₁ (
          subst (λ q. q < max_task_priorities)
            (sym
              (subst (λ xs. All (λ x. s.pool.priority x ≡ p) xs) is (v.holds.ready_priority p)).0)
            lt))
        (Holds-same (PreemptiveSp.remove_from_ready_list t s₁) (begun t) _ _ delayed refl refl refl
          refl
          (first_removed p t rest s₁ place lists delayed
            (Holds-same s s₁ place lists delayed refl refl refl refl v.holds) lt is))
    where
      s₁ : Sys
      s₁ = set_state t running (set_current_task (some t) (set_next_task (some t) s))

  start_with-begun : (t : ℕ) → s.pool.state t ≡ ready → start_with (some t) s ≡ (begun t, none)
  unfolding start_with is_ready
  start_with-begun t st =
      let s₁ = set_current_task (some t) (set_next_task (some t) s) in
      ap
        (λ state.
          if is_ready state
          then (
            kept_in kernel_running (Scheduler.remove_from_ready_list t (set_state t running s₁)),
            none,
          )
          else (s₁, some invalid_state))
        st
      ∙ ap (λ r. (kept_in kernel_running r, none))
          (remove_by_preemptive t (set_state t running s₁) v.steady.chosen)

-- With every task READY and the lists in order, a start succeeds: the kernel runs, the first task of the
-- highest priority is the current one, RUNNING, and no READY task has a higher priority.
pub start_scheduler-IsHighest :
    (idler : ℕ) (s : Sys) (place : ℕ → Place) (lists : ℕ → List ℕ) (delayed : List ℕ) (due : ℕ → ℕ)
    (now : ℕ)
    → Valid idler s place lists delayed due now
    → s.kernel.state ≡ kernel_ready
    → ((t : ℕ) → IsTask s t → s.pool.state t ≡ ready)
    → let (s', status) = start_scheduler s in (status ≡ none) × Sound idler s' × IsHighest s'
unfolding start_scheduler is_kernel_ready
start_scheduler-IsHighest idler s place lists delayed due now v off all_ready =
    rw steps (
      by_choice (PreemptiveSp.get_next_task s) (get_next_task-Chosen s place lists delayed v.holds))
  where
    steps : start_scheduler s ≡ start_with (PreemptiveSp.get_next_task s) s
    steps =
        ap
          (λ r.
            if is_kernel_ready s.kernel.state then start_with r.1 r.0 else (s, some invalid_state))
          (next_by_preemptive s v.steady.chosen)
        ∙ ap
            (λ k.
              if is_kernel_ready k
              then start_with (PreemptiveSp.get_next_task s) s
              else (s, some invalid_state))
            off

    apart : ready ≡ running → ⊥
    apart e = cc

    by_choice :
        (next : Option ℕ)
        → Chosen lists max_task_priorities next
        → let (s', status) = start_with next s in (status ≡ none) × Sound idler s' × IsHighest s'
    by_choice next (idle none_next all) = absurd (
        elem-nil idler (lists (s.pool.priority idler))
          (all (s.pool.priority idler) (v.steady.in_range idler v.steady.idle_is))
          (ready_stands idler v.tracked v.steady.idle_is (all_ready idler v.steady.idle_is)))
    by_choice next (pick p t rest got lt is above) =
        let r = begun-Runs v p t rest lt is above in
        let is_task : IsTask s t = first_is_task v p t rest is in
        rw (got, start_with-begun v t (all_ready t is_task))
          (
            refl,
            (Runs-Sound r (λ x is_x st. apart (sym (all_ready x is_x) ∙ st))
                (all_ready idler v.steady.idle_is) refl).0,
            Runs-IsHighest r,
          )
