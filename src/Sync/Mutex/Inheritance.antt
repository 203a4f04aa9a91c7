-- ===== src/Sync/Mutex/Inheritance.antt =====
-- Priority inheritance along the chain of owners (src/sync/mutex/mutex.c).
use vrtos.Base.{
  ℕ, zero, suc, ◌≤◌, ◌≡◌, ◌≢◌, refl, sym, ap, subst, ◌∙◌, true, inl, inr, Option, none, some, List,
  [], ◌∷◌, arith, ltb, ◌==◌, ==_ne, ==-eq, if◌then◌else◌, Bool-cases, update, update_self, All,
  All-map, length,
}
use vrtos.State.{Sys, mutex, sync_mutex}
use vrtos.State.Setters.{set_priority}
use vrtos.Scheduler
use vrtos.Scheduler.Frame.{
  view, view-add_to_ready_list, view-remove_from_ready_list, add_to_ready_list-state,
  remove_from_ready_list-state,
}
use vrtos.Sync.WaitList.{start_wait}
use vrtos.Sync.WaitList.Laws.{insert-objects}
use vrtos.Sync.Blocking.{block_current, view-block_current}
use vrtos.Sync.Mutex.{
  is_ready, raise, chained, owner_above, inherit, apply_priority_inheritance, add_to_waiting_list,
  lock, lock_by, lock_blocked,
}

-- The tasks `ts` are the owners from `target` on: each but the last is blocked on a mutex that the next one owns.
abbrev pub Owners : Sys → Option ℕ → List ℕ → Type 0
Owners s target [] = Unit
Owners s target (t ∷ ts) = (target ≡ some t) × Owners s (chained s t) ts

-- A raise sets one priority, and nothing else that the walk reads.
record Raised (t boost : ℕ) (s s' : Sys) : Type 0 where
  priority : s'.pool.priority ≡ update s.pool.priority t boost
  owners : (x : ℕ) → chained s' x ≡ chained s x

raise-Raised : (t boost : ℕ) (s : Sys) → Raised t boost s (raise t boost s)
unfolding raise
raise-Raised t boost s = elim (Bool-cases (is_ready (s.pool.state t))) [
  | inl e ↦ rw e moved
  | inr e ↦ rw e (record { priority = refl; owners = λ x. refl })
]
  where
    s₁ : Sys
    s₁ = Scheduler.remove_from_ready_list t s

    s₂ : Sys
    s₂ = set_priority t boost s₁

    s₃ : Sys
    s₃ = Scheduler.add_to_ready_list t s₂

    out : view s₁ ≡ view s
    out = view-remove_from_ready_list t s

    into : view s₃ ≡ view s₂
    into = view-add_to_ready_list t s₂

    states : s₃.pool.state ≡ s.pool.state
    states = add_to_ready_list-state t s₂ ∙ remove_from_ready_list-state t s

    moved : Raised t boost s s₃
    moved = record {
      priority = ap (λ v. v.priority) into ∙ ap (λ v. update v.priority t boost) out;
      owners = λ x.
          ap
            (λ v.
              owner_above (s₃.pool.state x) (v.blocked_on_type x) (v.blocked_on x) v.mutexes.owner)
            into
          ∙ ap
              (λ v.
                owner_above (s₃.pool.state x) (v.blocked_on_type x) (v.blocked_on x)
                  v.mutexes.owner)
              out
          ∙ ap
              (λ f.
                owner_above (f x) (s.pool.blocked_on_type x) (s.pool.blocked_on x) s.mutexes.owner)
              states;
    }

-- One round: the owner `t` has at least the priority `boost`, nobody has a lower one than before, and the chain is
-- the same.
record Round (t boost : ℕ) (s s' : Sys) : Type 0 where
  reached : boost ≤ s'.pool.priority t
  rises : (x : ℕ) → s.pool.priority x ≤ s'.pool.priority x
  owners : (x : ℕ) → chained s' x ≡ chained s x

raised_or_kept :
    (t boost : ℕ) (s : Sys)
    → Round t boost s (if ltb (s.pool.priority t) boost then raise t boost s else s)
raised_or_kept t boost s = elim (Bool-cases (ltb (s.pool.priority t) boost)) [
  | inl e ↦
      let r = raise-Raised t boost s in
      rw e (record {
        reached = rw (r.priority, update_self s.pool.priority t boost) (omega arith);
        rises = λ x. rw r.priority (up e x);
        owners = r.owners;
      })
  | inr e ↦ rw e (record { reached = ground arith; rises = λ x. omega arith; owners = λ x. refl })
]
  where
    up :
        ltb (s.pool.priority t) boost ≡ true
        → (x : ℕ) → s.pool.priority x ≤ update s.pool.priority t boost x
    up e x = elim (Bool-cases (x == t)) [
      | inl same ↦ rw same (rw (==-eq x t same) (ground arith))
      | inr other ↦ rw other (omega arith)
    ]

inherit-rises :
    (f : ℕ) (target : Option ℕ) (boost : ℕ) (s : Sys) (x : ℕ)
    → s.pool.priority x ≤ (inherit f target boost s).pool.priority x
unfolding inherit
inherit-rises zero target boost s x = omega arith
inherit-rises (suc f) none boost s x = omega arith
inherit-rises (suc f) (some t) boost s x = omega (
  arith,
  (raised_or_kept t boost s).rises x,
  inherit-rises f _ _ (if ltb (s.pool.priority t) boost then raise t boost s else s) x,
)

Owners-same :
    (s s' : Sys) (ts : List ℕ) (target target' : Option ℕ)
    → ((x : ℕ) → chained s' x ≡ chained s x)
    → target' ≡ target
    → Owners s target ts
    → Owners s' target' ts
Owners-same s s' [] target target' h e o = tt
Owners-same s s' (t ∷ ts) target target' h e o =
    (e ∙ o.0, Owners-same s s' ts (chained s t) (chained s' t) h (h t) o.1)

inherit-Owners :
    (f : ℕ) (target : Option ℕ) (boost : ℕ) (s : Sys) (ts : List ℕ)
    → length ts ≤ f
    → Owners s target ts
    → All (λ x. boost ≤ (inherit f target boost s).pool.priority x) ts
unfolding inherit
inherit-Owners f target boost s [] short o = tt
inherit-Owners zero target boost s (t ∷ ts) short o = absurd (omega arith)
inherit-Owners (suc f) target boost s (t ∷ ts) short o =
    subst (λ g. All (λ x. boost ≤ (inherit (suc f) g boost s).pool.priority x) (t ∷ ts)) (sym o.0)
      (
        omega (arith, r.reached, inherit-rises f (chained s₁ t) boost' s₁ t),
        All-map (λ x. boost' ≤ (inherit f (chained s₁ t) boost' s₁).pool.priority x)
            (λ x. boost ≤ (inherit f (chained s₁ t) boost' s₁).pool.priority x) ts
            (λ x le. omega (arith, more, le))
            (inherit-Owners f (chained s₁ t) boost' s₁ ts (omega (arith, short))
              (Owners-same s s₁ ts (chained s t) (chained s₁ t) r.owners (r.owners t) o.1)),
      )
  where
    s₁ : Sys
    s₁ = if ltb (s.pool.priority t) boost then raise t boost s else s

    boost' : ℕ
    boost' = if ltb boost (s.pool.priority t) then s.pool.priority t else boost

    more : boost ≤ boost'
    more = ground arith

    r : Round t boost s s₁
    r = raised_or_kept t boost s

-- When the current task locks a mutex of another owner and may block, each of up to 16 owners
-- above it, the owner of this mutex, the owner of the mutex that that one is blocked on, and so
-- on, has at least its priority afterwards.
pub lock-Owners :
    (m timeout_ticks t o : ℕ) (s : Sys) (ts : List ℕ)
    → s.kernel.current_task ≡ some t
    → s.mutexes.owner m ≡ some o
    → o ≢ t
    → timeout_ticks ≢ 0
    → Owners s (some o) ts
    → length ts ≤ 16
    → All (λ x. s.pool.priority t ≤ (lock m timeout_ticks s).0.pool.priority x) ts
unfolding lock lock_by lock_blocked apply_priority_inheritance add_to_waiting_list
lock-Owners m timeout_ticks t o s ts current owner other blocks owners short =
    subst (λ r. All (λ x. s.pool.priority t ≤ r.0.pool.priority x) ts) (sym blocked)
      (subst (λ p. All (λ x. s.pool.priority t ≤ p x) ts) (sym kept)
        (inherit-Owners 16 (s.mutexes.owner m) (s.pool.priority t) s ts short
          (subst (λ g. Owners s g ts) (sym owner) owners)))
  where
    s₁ : Sys
    s₁ = apply_priority_inheritance m t s

    s₂ : Sys
    s₂ = add_to_waiting_list m t s₁

    blocked : lock m timeout_ticks s ≡ (block_current t timeout_ticks s₂, none)
    blocked =
        ap (λ c. lock_by m timeout_ticks c (s.mutexes.owner m) s) current
        ∙ ap (λ h. lock_by m timeout_ticks (some t) h s) owner
        ∙ rw (==_ne o t other, ==_ne timeout_ticks 0 blocks) refl

    kept : (block_current t timeout_ticks s₂).pool.priority ≡ s₁.pool.priority
    kept =
        ap (λ v. v.priority) (view-block_current t timeout_ticks s₂)
        ∙ ap (λ o. o.4)
            (insert-objects (s₁.mutexes.waiting_list m) t (start_wait (mutex m) sync_mutex t s₁))
