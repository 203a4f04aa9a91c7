-- ===== src/Kernel/Dispatch.antt =====
-- The switch of tasks again, between valid states: `rtos_kernel_switch_context` of src/core/kernel.c with
-- a current task in any state.
use vrtos.Base.{
  ℕ, ◌<◌, ◌≡◌, inl, inr, ◌∙◌, refl, sym, ap, subst, true, Option, none, some, List, [], ◌∷◌, ◌++◌,
  is_null, update, Bool-cases, elem, elem-nil, All,
}
use vrtos.State.{Sys, ready, running, max_task_priorities}
use vrtos.State.Setters.{set_state, set_next_task}
use vrtos.Scheduler
use vrtos.Scheduler.{active}
use vrtos.Scheduler.PreemptiveSp
use vrtos.Scheduler.PreemptiveSp.Lists.{Holds, Place, nowhere, in_ready}
use vrtos.Scheduler.PreemptiveSp.Ready.{add_to_ready_list-Holds}
use vrtos.Scheduler.PreemptiveSp.Removal.{remove_from_ready_list-links}
use vrtos.Scheduler.PreemptiveSp.Choice.{Chosen, idle, pick, get_next_task-Chosen}
use vrtos.Kernel.{run_next}
use vrtos.Kernel.Switch.{Holds-same, running_first, remove_by_preemptive}
use vrtos.Kernel.Seen.{
  seen, seen-add_to_ready_list, state-add_to_ready_list, seen-remove_from_ready_list,
  state-remove_from_ready_list,
}
use vrtos.Kernel.Tracking.{ready-Tracked, run-Tracked, elsewhere}
use vrtos.Kernel.Validity.{IsTask, Valid, Valid-seen}

module _ {idler : ℕ} {s : Sys} {place : ℕ → Place} {lists : ℕ → List ℕ} {delayed : List ℕ}
    {due : ℕ → ℕ} {now : ℕ} (v : Valid idler s place lists delayed due now) where
  -- The task that ran is READY again, at the end of the list of its priority.
  abbrev pub rejoined : ℕ → Sys
  rejoined c = PreemptiveSp.add_to_ready_list c (set_state c ready s)

  pub rejoined-Valid :
      (c : ℕ)
      → IsTask s c
      → place c ≡ nowhere
      → let p = s.pool.priority c in
        Valid idler
          (rejoined c)
          (update place c (in_ready p))
          (update lists p (lists p ++ c ∷ []))
          delayed
          due
          now
  rejoined-Valid c is away =
      Valid-seen s (rejoined c) (update s.pool.state c ready)
        (seen-add_to_ready_list c (set_state c ready s))
        (state-add_to_ready_list c (set_state c ready s)) v
        (add_to_ready_list-Holds c (set_state c ready s) place lists delayed
          (Holds-same s (set_state c ready s) place lists delayed refl refl refl refl v.holds)
          (v.steady.small c is) (v.steady.in_range c is) away)
        (ready-Tracked c is v.tracked delayed (λ x ne at. at)) v.timed
        (λ t at. v.ahead t (elsewhere place c t (in_ready (s.pool.priority c)) (λ e. cc) at))

-- What `run_next` leaves of the state `s₀`: the first task of the highest priority that
-- has one runs, and is in no list.
pub record Runs (idler : ℕ) (s₀ : Sys) (place : ℕ → Place) (lists : ℕ → List ℕ) (delayed : List ℕ)
    (due : ℕ → ℕ) (now : ℕ) (s : Sys) : Type 0 where
  pub level : ℕ
  pub task : ℕ
  pub rest : List ℕ
  pub is_first : lists level ≡ task ∷ rest
  pub above : (q : ℕ) → level < q → q < max_task_priorities → lists q ≡ []
  pub is_task : IsTask s task
  pub priority_is : s.pool.priority task ≡ level
  pub current_is : s.kernel.current_task ≡ some task
  pub kernel_is : s.kernel.state ≡ s₀.kernel.state
  pub function_is : s.pool.task_function ≡ s₀.pool.task_function
  pub state_is : s.pool.state ≡ update s₀.pool.state task running
  pub unlinked : (s.pool.next task ≡ none) × (s.pool.prev task ≡ none)
  pub valid : Valid idler s (update place task nowhere) (update lists level rest) delayed due now

module _ {idler : ℕ} {s : Sys} {place : ℕ → Place} {lists : ℕ → List ℕ} {delayed : List ℕ}
    {due : ℕ → ℕ} {now : ℕ} (v : Valid idler s place lists delayed due now) where
  -- The first of a ready list is a task.
  pub first_is_task : (p t : ℕ) (rest : List ℕ) → lists p ≡ t ∷ rest → IsTask s t
  first_is_task p t rest is = elim (Bool-cases (is_null (s.pool.task_function t))) [
    | inl null ↦ absurd (apart (sym at ∙ v.tracked.free t null))
    | inr task ↦ task
  ]
    where
      at : place t ≡ in_ready p
      at = (subst (λ xs. All (λ x. place x ≡ in_ready p) xs) is (v.holds.ready_place p)).0

      apart : in_ready p ≡ nowhere → ⊥
      apart e = cc

  -- A state `s'` in which the first task of the highest priority runs.
  pub first-Runs :
      (p t : ℕ) (rest : List ℕ) (s' : Sys)
      → lists p ≡ t ∷ rest
      → ((q : ℕ) → p < q → q < max_task_priorities → lists q ≡ [])
      → s'.kernel.current_task ≡ some t
      → seen s' ≡ seen s
      → s'.pool.state ≡ update s.pool.state t running
      → (s'.pool.next t ≡ none) × (s'.pool.prev t ≡ none)
      → Holds s' (update place t nowhere) (update lists p rest) delayed
      → Runs idler s place lists delayed due now s'
  first-Runs p t rest s' is above current' same states unlinked holds = record {
    level = p;
    task = t;
    rest = rest;
    is_first = is;
    above = above;
    is_task = ap (λ o. is_null (o.task_function t)) same ∙ first_is_task p t rest is;
    priority_is = ap (λ o. o.priority t) same ∙ of_level;
    current_is = current';
    kernel_is = ap (λ o. o.kernel_state) same;
    function_is = ap (λ o. o.task_function) same;
    state_is = states;
    unlinked = unlinked;
    valid =
        Valid-seen s s' (update s.pool.state t running) same states v holds
          (run-Tracked t (first_is_task p t rest is) v.tracked p rest is) v.timed
          (λ x at. v.ahead x (elsewhere place t x nowhere (λ e. cc) at));
  }
    where
      of_level : s.pool.priority t ≡ p
      of_level = (subst (λ xs. All (λ x. s.pool.priority x ≡ p) xs) is (v.holds.ready_priority p)).0

  dispatched :
      (p t : ℕ) (rest : List ℕ)
      → p < max_task_priorities
      → lists p ≡ t ∷ rest
      → ((q : ℕ) → p < q → q < max_task_priorities → lists q ≡ [])
      → Runs idler s place lists delayed due now (run_next (some t) s)
  unfolding run_next
  dispatched p t rest lt is above =
      let (current', running', holds) =
        running_first p t rest s place lists delayed v.steady.chosen v.holds lt is in
      first-Runs p t rest (run_next (some t) s) is above current'
        (ap seen by_preemptive ∙ seen-remove_from_ready_list t s₁)
        (ap (λ r. update r.pool.state t running) by_preemptive
          ∙ ap (λ f. update f t running) (state-remove_from_ready_list t s₁))
        (subst (λ r. (r.pool.next t ≡ none) × (r.pool.prev t ≡ none)) (sym by_preemptive)
          (remove_from_ready_list-links t s₁ (rw own lt)))
        holds
    where
      s₁ : Sys
      s₁ = set_next_task (some t) s

      own : s.pool.priority t ≡ p
      own = (subst (λ xs. All (λ x. s.pool.priority x ≡ p) xs) is (v.holds.ready_priority p)).0

      by_preemptive :
          Scheduler.remove_from_ready_list t s₁ ≡ PreemptiveSp.remove_from_ready_list t s₁
      by_preemptive = remove_by_preemptive t s₁ v.steady.chosen

  -- With a task in one of the lists, there is a task to run.
  pub next-Runs :
      (t p : ℕ)
      → p < max_task_priorities
      → elem t (lists p) ≡ true
      → Runs idler s place lists delayed due now (run_next (PreemptiveSp.get_next_task s) s)
  next-Runs t p lt there =
      by_choice (PreemptiveSp.get_next_task s) (get_next_task-Chosen s place lists delayed v.holds)
    where
      by_choice :
          (next : Option ℕ)
          → Chosen lists max_task_priorities next
          → Runs idler s place lists delayed due now (run_next next s)
      by_choice next (idle none_next all) = absurd (elem-nil t (lists p) (all p lt) there)
      by_choice next (pick q u rest got small is above) =
          rw got (dispatched q u rest small is above)
