-- ===== src/Task/Life/Leaving.antt =====
-- A task that `rtos_task_suspend` of src/task/task.c takes out of its list, by the state that it is in.
use vrtos.Base.{
  ℕ, ◌≡◌, ◌≢◌, inl, inr, ◌∙◌, refl, sym, ap, subst, true, false, List, ◌++◌, ◌==◌, update,
  update_same, Bool-cases, ==-eq, elem, elem_removed, elem-split,
}
use vrtos.State.{Sys, ready, running, blocked, suspended}
use vrtos.State.Setters.{set_state}
use vrtos.Scheduler.PreemptiveSp
use vrtos.Scheduler.PreemptiveSp.Lists.{Holds, IsTimed, nowhere, in_delayed}
use vrtos.Scheduler.PreemptiveSp.Removal.{remove_from_ready_list-Holds}
use vrtos.Scheduler.PreemptiveSp.Delayed.{remove_from_delayed_list-Holds}
use vrtos.Kernel.Switch.{Holds-same}
use vrtos.Kernel.Seen.{
  seen, seen-remove_from_ready_list, state-remove_from_ready_list, kernel-remove_from_ready_list,
}
use vrtos.Kernel.Readying.{IsTimed-remove}
use vrtos.Kernel.Tracking.{move-Tracked, elsewhere, ready_stands, blocked_stands, other_apart}
use vrtos.Kernel.Validity.{IsTask, Sound, Valid-seen, Sound-changed}

-- A task that is SUSPENDED out of `s₀`, the state `s` without it in its list.
suspended-Sound :
    {idler : ℕ} {lists' : ℕ → List ℕ} {delayed' : List ℕ} (t : ℕ) (s s₀ : Sys) (h : Sound idler s)
    → IsTask s t
    → t ≢ idler
    → seen s₀ ≡ seen s
    → s₀.kernel ≡ s.kernel
    → s₀.pool.state ≡ s.pool.state
    → Holds s₀ (update h.place t nowhere) lists' delayed'
    → IsTimed s h.due h.now delayed'
    → ((x p : ℕ) → (x == t) ≡ false → elem x (h.lists p) ≡ true → elem x (lists' p) ≡ true)
    → ((x : ℕ) → (x == t) ≡ false → elem x h.delayed ≡ true → elem x delayed' ≡ true)
    → Sound idler (set_state t suspended s₀)
suspended-Sound {lists'} {delayed'} t s s₀ h is busy same kernel states holds timed kept
      kept_delayed =
    Sound-changed s s' t suspended h (ap (λ o. o.outline_of) same) (ap (λ k. k.current_task) kernel)
      states' (λ e. cc) (inl busy)
      (Valid-seen s s' (update s.pool.state t suspended) same states' h.valid
        (Holds-same s₀ s' (update h.place t nowhere) lists' delayed' refl refl refl refl holds)
        (move-Tracked t is h.valid.tracked suspended nowhere lists' delayed' ((λ e. cc), (λ e. cc))
          (λ p e. cc) (λ e. cc) kept kept_delayed)
        timed (λ x at. h.valid.ahead x (elsewhere h.place t x nowhere (λ e. cc) at)))
  where
    s' : Sys
    s' = set_state t suspended s₀

    states' : s'.pool.state ≡ update s.pool.state t suspended
    states' = ap (λ f. update f t suspended) states

-- What stands in a list stands in it after another list is written.
update-elem :
    (p q : ℕ) (xs : List ℕ) (lists : ℕ → List ℕ) (x : ℕ)
    → elem x (lists q) ≡ true
    → (elem x (lists p) ≡ true → elem x xs ≡ true)
    → elem x (update lists p xs q) ≡ true
update-elem p q xs lists x there keep = elim (Bool-cases (q == p)) [
  | inl e ↦ rw e (keep (subst (λ r. elem x (lists r) ≡ true) (==-eq q p e) there))
  | inr e ↦ rw e there
]

pub suspend-ready :
    (idler t : ℕ) (s : Sys) (h : Sound idler s)
    → IsTask s t
    → t ≢ idler
    → s.pool.state t ≡ ready
    → Sound idler (set_state t suspended (PreemptiveSp.remove_from_ready_list t s))
suspend-ready idler t s h is busy st =
    let p : ℕ = s.pool.priority t in
    let (before, after, eq) = elem-split t (h.lists p) (ready_stands t h.valid.tracked is st) in
    suspended-Sound t s (PreemptiveSp.remove_from_ready_list t s) h is busy
      (seen-remove_from_ready_list t s) (kernel-remove_from_ready_list t s)
      (state-remove_from_ready_list t s)
      (remove_from_ready_list-Holds t before after s h.place h.lists h.delayed h.valid.holds
        (h.valid.steady.in_range t is) eq)
      h.valid.timed
      (λ x q ne there.
        update-elem p q (before ++ after) h.lists x there
          (λ here. elem_removed t x before after ne (subst (λ xs. elem x xs ≡ true) eq here)))
      (λ x ne there. there)

pub suspend-blocked :
    (idler t : ℕ) (s : Sys) (h : Sound idler s)
    → IsTask s t
    → t ≢ idler
    → s.pool.state t ≡ blocked
    → Sound idler (set_state t suspended (PreemptiveSp.remove_from_delayed_list t s))
unfolding PreemptiveSp.remove_from_delayed_list
suspend-blocked idler t s h is busy st =
    let at : h.place t ≡ in_delayed = blocked_stands t h.valid.tracked is st in
    let (before, after, eq) = elem-split t h.delayed (h.valid.tracked.in_the_delayed t at) in
    suspended-Sound t s (PreemptiveSp.remove_from_delayed_list t s) h is busy refl refl refl
      (remove_from_delayed_list-Holds t before after s h.place h.lists
        (subst (λ ds. Holds s h.place h.lists ds) eq h.valid.holds))
      (IsTimed-remove t before after s h.due h.now
        (subst (λ ds. IsTimed s h.due h.now ds) eq h.valid.timed))
      (λ x p ne there. there)
      (λ x ne there. elem_removed t x before after ne (subst (λ ds. elem x ds ≡ true) eq there))

pub suspend-running :
    (idler t : ℕ) (s : Sys) (h : Sound idler s)
    → IsTask s t
    → t ≢ idler
    → s.pool.state t ≡ running
    → Sound idler (set_state t suspended s)
suspend-running idler t s h is busy st =
    suspended-Sound t s s h is busy refl refl refl
      (subst (λ pl. Holds s pl h.lists h.delayed) (sym (update_same h.place t nowhere away))
        h.valid.holds)
      h.valid.timed (λ x p ne there. there) (λ x ne there. there)
  where
    not_ready : running ≡ ready → ⊥
    not_ready e = cc

    not_blocked : running ≡ blocked → ⊥
    not_blocked e = cc

    away : h.place t ≡ nowhere
    away =
        other_apart t h.valid.tracked is (λ e. not_ready (sym st ∙ e))
          (λ e. not_blocked (sym st ∙ e))
