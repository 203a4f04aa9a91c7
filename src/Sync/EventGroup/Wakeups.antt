-- ===== src/Sync/EventGroup/Wakeups.antt =====
-- Setting bits of an event group against the list of the tasks that wait.
use vrtos.Base.{
  ℕ, zero, suc, ◌≤◌, ◌≡◌, refl, sym, ◌∙◌, ap, ap₂, Bool, Option, none, List, [], ◌∷◌, arith,
  update_self, length, All, NotIn, IsDistinct, Chain, Chain-head, Seg-update, subst, bit_or,
  without, length-le_of_distinct,
}
use vrtos.State.{Sys, Object, SyncType, Status, success, event_group, sync_event_group, max_tasks}
use vrtos.State.Setters.{set_next_waiting}
use vrtos.Scheduler.Frame.{View, view}
use vrtos.Kernel
use vrtos.Kernel.Frame.{view-task_unblock}
use vrtos.Sync.WaitList.Laws.{Waiting, WaitsIn}
use vrtos.Sync.EventGroup.{set_bits_of, Found, scan, set_bits_internal, wake_all, set_bits}
use vrtos.Sync.EventGroup.Scan.{kept, woken, asked, met_by, Scanning, Ended, scan-Ended}

-- The loop that unblocks the tasks `ws` keeps the waiting lists that they are not in.
record Woken (v : View) (s' : Sys) (o : Object) (type : SyncType) (head : Option ℕ) (xs : List ℕ)
    : Type 0 where
  waiting : Waiting s' o type head xs
  event_groups : s'.event_groups ≡ v.event_groups
  blocked_on : s'.pool.blocked_on ≡ v.blocked_on
  event_wait_bits : s'.pool.event_wait_bits ≡ v.event_wait_bits

wake_all-Woken :
    (f : ℕ) (s : Sys) (o : Object) (type : SyncType) (head wake : Option ℕ) (xs ws : List ℕ)
    → length ws ≤ f
    → Chain (view s).next_waiting wake ws
    → All (λ t. NotIn t xs) ws
    → IsDistinct ws
    → WaitsIn (view s) o type head xs
    → Woken (view s) (wake_all f wake s) o type head xs
unfolding wake_all
wake_all-Woken zero s o type head wake xs [] l c a d w = record {
  waiting = w;
  event_groups = refl;
  blocked_on = refl;
  event_wait_bits = refl;
}
wake_all-Woken zero s o type head wake xs (t ∷ ts) l c a d w = absurd (omega arith)
wake_all-Woken (suc f) s o type head wake xs [] l c a d w =
    rw c (record { waiting = w; event_groups = refl; blocked_on = refl; event_wait_bits = refl })
wake_all-Woken (suc f) s o type head wake xs (t ∷ ts) l c a d w =
    let s₁ = set_next_waiting t none s in
    let same = view-task_unblock t s₁ in
    let rest =
      wake_all-Woken f (Kernel.task_unblock t s₁) o type head (s.pool.next_waiting t) xs ts
        (omega arith)
        (subst (λ v. Chain v.next_waiting (s.pool.next_waiting t) ts) (sym same)
          (Seg-update s.pool.next_waiting t none (s.pool.next_waiting t) none ts d.0 c.1))
        a.1 d.1
        (subst (λ v. WaitsIn v o type head xs) (sym same)
          (record {
            chain = Seg-update s.pool.next_waiting t none head none xs a.0 w.chain;
            distinct = w.distinct;
            small = w.small;
            sorted = w.sorted;
            object_is = w.object_is;
            type_is = w.type_is;
          })) in
    rw c.0 (record {
      waiting = rest.waiting;
      event_groups = rest.event_groups ∙ ap (λ v. v.event_groups) same;
      blocked_on = rest.blocked_on ∙ ap (λ v. v.blocked_on) same;
      event_wait_bits = rest.event_wait_bits ∙ ap (λ v. v.event_wait_bits) same;
    })

-- With `xs` on the waiting list of an event group and its bits set to `bits`: a call of
-- `rtos_event_group_set_bits` has taken the tasks out whose condition is met.
pub record Awakened (e bits : ℕ) (s : Sys) (xs : List ℕ) (r : Sys × Status) : Type 0 where
  pub status : r.1 ≡ success
  pub waiting :
      Waiting r.0
        (event_group e)
        sync_event_group
        (r.0.event_groups.waiting_list e)
        (kept (met_by bits s.pool.event_wait_all s.pool.event_wait_bits) xs)
  pub freed :
      All
        (λ t. r.0.pool.blocked_on t ≡ none)
        (woken (met_by bits s.pool.event_wait_all s.pool.event_wait_bits) [] xs)
  pub snapshots :
      All
        (λ t. r.0.pool.event_wait_bits t ≡ bits)
        (woken (met_by bits s.pool.event_wait_all s.pool.event_wait_bits) [] xs)
  pub bits_left :
      r.0.event_groups.bits e
      ≡ without bits (
          asked
            (met_by bits s.pool.event_wait_all s.pool.event_wait_bits)
            s.pool.event_clear_on_exit
            s.pool.event_wait_bits
            0
            xs)

awaken :
    (e : ℕ) (wait : ℕ → ℕ) (s : Sys) (xs ws : List ℕ) (b : ℕ) (r : Sys × Found)
    → Ended e wait s xs ws b r
    → let s₁ = set_bits_of e (without (r.0.event_groups.bits e) r.1.bits_to_clear) r.0 in
      let s₂ = wake_all max_tasks r.1.wake_list s₁ in
      Waiting s₂ (event_group e) sync_event_group (s₂.event_groups.waiting_list e) xs
      × All (λ t. s₂.pool.blocked_on t ≡ none) ws
      × All (λ t. s₂.pool.event_wait_bits t ≡ s.event_groups.bits e) ws
      × (s₂.event_groups.bits e ≡ without (s.event_groups.bits e) b)
awaken e wait s xs ws b (s', w') (r, cleared, frame) =
    let s₁ = set_bits_of e (without (s'.event_groups.bits e) w'.bits_to_clear) s' in
    let bits = ap (λ x. x.event_groups.bits e) frame in
    let woke =
      wake_all-Woken max_tasks s₁ (event_group e) sync_event_group (s'.event_groups.waiting_list e)
        w'.wake_list xs ws (length-le_of_distinct max_tasks ws r.small r.distinct) r.wakes r.apart
        r.distinct r.waiting in
    (
      subst
          (λ g.
            Waiting (wake_all max_tasks w'.wake_list s₁) (event_group e) sync_event_group
              (g.waiting_list e) xs)
          (sym woke.event_groups) woke.waiting,
      subst (λ f. All (λ t. f t ≡ none) ws) (sym woke.blocked_on) r.freed,
      subst (λ f. All (λ t. f t ≡ s.event_groups.bits e) ws) (sym woke.event_wait_bits)
          (subst (λ v. All (λ t. s'.pool.event_wait_bits t ≡ v) ws) bits r.snapshots),
      ap (λ g. g.bits e) woke.event_groups
          ∙ update_self s'.event_groups.bits e _
          ∙ ap₂ without bits cleared,
    )

-- With the waiters in order, setting bits succeeds. Those tasks whose condition the new bits meet
-- leave the waiting list, wait for nothing any more and find the new bits; the others keep their
-- order. Then the bits are cleared that those who left and ask for a clear on exit waited for.
pub set_bits-Awakened :
    (e bits_to_set : ℕ) (s : Sys) (xs : List ℕ)
    → Waiting s (event_group e) sync_event_group (s.event_groups.waiting_list e) xs
    → Awakened e (bit_or (s.event_groups.bits e) bits_to_set) s xs (set_bits e bits_to_set s)
unfolding set_bits set_bits_internal
set_bits-Awakened e bits_to_set s xs w = record {
  status = refl;
  waiting = end.0;
  freed = end.1;
  snapshots = end.2;
  bits_left = end.3;
}
  where
    bits : ℕ
    bits = bit_or (s.event_groups.bits e) bits_to_set

    s₁ : Sys
    s₁ = set_bits_of e bits s

    set : s₁.event_groups.bits e ≡ bits
    set = update_self s.event_groups.bits e bits

    scanned : Sys × Found
    scanned =
        scan max_tasks e none (s.event_groups.waiting_list e)
          (record { wake_list = none; bits_to_clear = 0 }) s₁

    s₂ : Sys
    s₂ =
        wake_all max_tasks scanned.1.wake_list (
          set_bits_of e (without (scanned.0.event_groups.bits e) scanned.1.bits_to_clear) scanned.0)

    Outcome : ℕ → Type 0
    Outcome v =
        let met = met_by v s.pool.event_wait_all s.pool.event_wait_bits in
        Waiting s₂ (event_group e) sync_event_group (s₂.event_groups.waiting_list e) (kept met xs)
        × All (λ t. s₂.pool.blocked_on t ≡ none) (woken met [] xs)
        × All (λ t. s₂.pool.event_wait_bits t ≡ v) (woken met [] xs)
        × (s₂.event_groups.bits e
            ≡ without v (asked met s.pool.event_clear_on_exit s.pool.event_wait_bits 0 xs))

    same : (ys : List ℕ) → All (λ x. s.pool.event_wait_bits x ≡ s.pool.event_wait_bits x) ys
    same [] = tt
    same (y ∷ ys) = (refl, same ys)

    start :
        Scanning e s.pool.event_wait_bits s₁
          (record { wake_list = none; bits_to_clear = 0 })
          xs
          xs
          []
    start = record {
      waiting = w;
      wakes = refl;
      apart = tt;
      distinct = tt;
      small = tt;
      asks = same xs;
      freed = tt;
      snapshots = tt;
    }

    met : ℕ → Bool
    met = met_by (s₁.event_groups.bits e) s.pool.event_wait_all s.pool.event_wait_bits

    ended :
        Ended e s.pool.event_wait_bits s₁
          (kept met xs)
          (woken met [] xs)
          (asked met s.pool.event_clear_on_exit s.pool.event_wait_bits 0 xs)
          scanned
    ended =
        subst
          (λ head.
            Ended e s.pool.event_wait_bits s₁ (kept met xs) (woken met [] xs)
              (asked met s.pool.event_clear_on_exit s.pool.event_wait_bits 0 xs)
              (scan max_tasks e none head (record { wake_list = none; bits_to_clear = 0 }) s₁))
          (sym (Chain-head s.pool.next_waiting (s.event_groups.waiting_list e) xs w.chain))
          (scan-Ended max_tasks e s.pool.event_wait_bits s₁
            (record { wake_list = none; bits_to_clear = 0 }) [] xs []
            (length-le_of_distinct max_tasks xs w.small w.distinct) start)

    end : Outcome bits
    end = subst Outcome set (
        awaken e s.pool.event_wait_bits s₁ (kept met xs) (woken met [] xs)
          (asked met s.pool.event_clear_on_exit s.pool.event_wait_bits 0 xs) scanned ended)
