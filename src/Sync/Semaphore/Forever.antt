-- ===== src/Sync/Semaphore/Forever.antt =====
-- A wait without a time limit, `rtos_semaphore_wait` of src/sync/semaphore/semaphore.c, under the preemptive
-- scheduler.
use vrtos.Base.{
  if◌then◌else◌, ℕ, ◌<◌, ◌≡◌, sym, ◌∙◌, ap, subst, false, none, some, inl, inr, ◌==◌, update,
  Bool-cases, ==-eq, has_bit,
}
use vrtos.State.{
  Sys, ready, running, blocked, max_delay, preemptive_sp, max_task_priorities, semaphore,
  sync_semaphore,
}
use vrtos.State.Setters.{set_state}
use vrtos.Scheduler
use vrtos.Scheduler.PreemptiveSp
use vrtos.Scheduler.PreemptiveSp.Removal.{remove_from_ready_list-unlinked}
use vrtos.Kernel.{switch_context, yield}
use vrtos.Kernel.Switch.{remove_by_preemptive}
use vrtos.Kernel.Seen.{seen-remove_from_ready_list, state-remove_from_ready_list}
use vrtos.Kernel.Validity.{IsTask, Sound}
use vrtos.Kernel.Turn.{IsHighest, switch_context-IsHighest, switch_context-IsUnlinked}
use vrtos.Sync.WaitList.{start_wait}
use vrtos.Sync.WaitList.Laws.{scheduled, insert-scheduled}
use vrtos.Sync.Blocking.{block_current}
use vrtos.Sync.Semaphore.{wait, wait_blocked, add_to_waiting_list}

waiting-scheduled : (m t : ℕ) (s : Sys) → scheduled (add_to_waiting_list m t s) ≡ scheduled s
unfolding add_to_waiting_list
waiting-scheduled m t s =
    insert-scheduled (s.semaphores.waiting_list m) t (start_wait (semaphore m) sync_semaphore t s)

-- The state after the wait, by its parts.
wait-forever :
    (m c : ℕ) (s : Sys)
    → s.kernel.current_task ≡ some c
    → s.semaphores.count m ≡ 0
    → Scheduler.active s ≡ some preemptive_sp
    → let s₁ = set_state c blocked (add_to_waiting_list m c s) in
      (wait m max_delay s).0 ≡ yield (PreemptiveSp.remove_from_ready_list c s₁)
unfolding wait wait_blocked block_current
wait-forever m c s current empty chosen = rw empty (
    ap (λ cur. (wait_blocked m max_delay cur s).0) current
    ∙ ap (λ r. yield r)
        (remove_by_preemptive c (set_state c blocked (add_to_waiting_list m c s)) (
          ap (λ d. if d.5.initialized then d.5.vtable else none) (waiting-scheduled m c s)
          ∙ chosen)))

-- Under the preemptive scheduler, not suspended, between two steps of the kernel: a switch makes the task `c` the
-- current one, and `c` waits for a semaphore at count 0 without a time limit. Then the ready list of its
-- priority is empty and the bit of that priority is clear, although a task `x` of this priority that was
-- READY before the wait is READY after it.
pub wait-switch_context :
    (idler m c x : ℕ) (s : Sys) (h : Sound idler s)
    → s.kernel.scheduler_suspended ≡ 0
    → (switch_context s).kernel.current_task ≡ some c
    → (switch_context s).semaphores.count m ≡ 0
    → (switch_context s).pool.state x ≡ ready
    → (switch_context s).pool.priority x ≡ (switch_context s).pool.priority c
    → let s' = (wait m max_delay (switch_context s)).0 in
      (s'.pool.state x ≡ ready)
      × (s'.preemptive.ready_lists (s'.pool.priority x) ≡ none)
      × (has_bit s'.preemptive.ready_priorities (s'.pool.priority x) ≡ false)
wait-switch_context idler m c x s h free current empty waits same =
    rw (wait-forever m c s₁ current empty h'.valid.steady.chosen) (
      ap (λ f. f x) states ∙ (rw other kept ∙ waits),
      subst (λ q. removed.preemptive.ready_lists q ≡ none) (sym of_x) lost.0,
      subst (λ q. has_bit removed.preemptive.ready_priorities q ≡ false) (sym of_x) lost.1,
    )
  where
    s₁ : Sys
    s₁ = switch_context s

    turned : Sound idler s₁ × IsHighest s₁
    turned = switch_context-IsHighest idler s h free

    h' : Sound idler s₁
    h' = turned.0

    it_is : turned.1.current ≡ c
    it_is = cc (sym turned.1.current_is ∙ current)

    is_task : IsTask s₁ c
    is_task =
        let same : h'.current ≡ c = cc (sym h'.current_is ∙ current) in
        subst (λ t. IsTask s₁ t) same h'.is_task

    runs : s₁.pool.state c ≡ running
    runs = subst (λ t. s₁.pool.state t ≡ running) it_is turned.1.state_is

    s₂ : Sys
    s₂ = set_state c blocked (add_to_waiting_list m c s₁)

    removed : Sys
    removed = PreemptiveSp.remove_from_ready_list c s₂

    same_data : scheduled (add_to_waiting_list m c s₁) ≡ scheduled s₁
    same_data = waiting-scheduled m c s₁

    priority_is : s₂.pool.priority ≡ s₁.pool.priority
    priority_is = ap (λ d. d.2) same_data

    links : (s₁.pool.next c ≡ none) × (s₁.pool.prev c ≡ none)
    links = switch_context-IsUnlinked idler s h free c current

    lost :
        (removed.preemptive.ready_lists (s₂.pool.priority c) ≡ none)
        × (has_bit removed.preemptive.ready_priorities (s₂.pool.priority c) ≡ false)
    lost =
        remove_from_ready_list-unlinked c s₂
          (subst (λ f. f c < max_task_priorities) (sym priority_is)
            (h'.valid.steady.in_range c is_task))
          (subst (λ d. d.ready_priorities < 256) (sym (ap (λ d. d.4) same_data))
            h'.valid.holds.map_small)
          (ap (λ d. d.0 c) same_data ∙ links.0) (ap (λ d. d.1 c) same_data ∙ links.1)

    of_x : removed.pool.priority x ≡ s₂.pool.priority c
    of_x =
        ap (λ o. o.priority x) (seen-remove_from_ready_list c s₂)
        ∙ ap (λ f. f x) priority_is
        ∙ same
        ∙ sym (ap (λ f. f c) priority_is)

    states : removed.pool.state ≡ update (add_to_waiting_list m c s₁).pool.state c blocked
    states = state-remove_from_ready_list c s₂

    kept : (add_to_waiting_list m c s₁).pool.state x ≡ s₁.pool.state x
    kept = ap (λ d. d.3 x) same_data

    apart : running ≡ ready → ⊥
    apart e = cc

    other : (x == c) ≡ false
    other = elim (Bool-cases (x == c)) [
      | inl e ↦ absurd (apart (sym runs ∙ ap (λ t. s₁.pool.state t) (sym (==-eq x c e)) ∙ waits))
      | inr e ↦ e
    ]
