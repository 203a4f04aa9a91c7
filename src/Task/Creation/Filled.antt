-- ===== src/Task/Creation/Filled.antt =====
-- A new task among the others: `rtos_task_create` of src/task/task.c on the lists and the bookkeeping of
-- the preemptive scheduler.
use vrtos.Base.{
  ℕ, zero, suc, ◌+◌, ◌<◌, ◌≡◌, ◌≢◌, inl, inr, refl, sym, ◌∙◌, subst, true, Option, none, some, List,
  [], ◌∷◌, ◌++◌, arith, ◌==◌, is_null, update, update_self, Bool-cases, ==-eq, All, NotIn,
  NotIn-place, All-place_update, Dll-update, elem, elem-left, elem-last,
}
use vrtos.State.{Sys, ready, max_tasks, max_task_priorities}
use vrtos.Scheduler.PreemptiveSp
use vrtos.Scheduler.PreemptiveSp.Lists.{Holds, Place, nowhere, in_ready, in_delayed}
use vrtos.Scheduler.PreemptiveSp.Ready.{add_to_ready_list-Holds}
use vrtos.Kernel.Tracking.{Tracked}
use vrtos.Task.Creation.{allocate_tcb, find_free, fill_task}
use vrtos.Task.Creation.Created.{filled}

-- The entry that is given out is in the pool, and is not in use.
find_free-lt :
    (f i t : ℕ) (function : ℕ → Option ℕ)
    → find_free f i function ≡ some t
    → (t < i + f) × (is_null (function t) ≡ true)
unfolding find_free
find_free-lt zero i t function e = cc
find_free-lt (suc f) i t function e = elim (Bool-cases (is_null (function i))) [
  | inl null ↦
      let same : i ≡ t = cc (rw null at e) in
      (omega arith, subst (λ x. is_null (function x) ≡ true) same null)
  | inr used ↦ let rest = find_free-lt f (i + 1) t function (rw used at e) in (omega arith, rest.1)
]

pub allocate_tcb-lt :
    (t : ℕ) (s : Sys)
    → allocate_tcb s ≡ some t
    → (t < max_tasks) × (is_null (s.pool.task_function t) ≡ true)
unfolding allocate_tcb
allocate_tcb-lt t s e = find_free-lt max_tasks 0 t s.pool.task_function e

module _ (t task_function size parameter priority : ℕ) (name : Option ℕ) (s : Sys)
    (place : ℕ → Place) (lists : ℕ → List ℕ) (delayed : List ℕ) where
  abbrev fresh : Sys
  fresh = filled t task_function size parameter priority name s

  fresh-Holds : place t ≡ nowhere → Holds s place lists delayed → Holds fresh place lists delayed
  unfolding fill_task
  fresh-Holds away h = record {
    ready_list = λ p lt.
        Dll-update max_tasks s.pool.next s.pool.prev t none none _ (lists p)
          (outside (in_ready p) (lists p) (h.ready_place p) (λ e. cc)) (h.ready_list p lt);
    delayed_list =
        Dll-update max_tasks s.pool.next s.pool.prev t none none _ delayed
          (outside in_delayed delayed h.delayed_place (λ e. cc)) h.delayed_list;
    ready_place = h.ready_place;
    delayed_place = h.delayed_place;
    ready_priority = λ p.
        All-place_update s.pool.priority t p priority (lists p)
          (outside (in_ready p) (lists p) (h.ready_place p) (λ e. cc)) (h.ready_priority p);
    map_small = h.map_small;
    map = h.map;
  }
    where
      outside : (a : Place) (zs : List ℕ) → All (λ x. place x ≡ a) zs → a ≢ nowhere → NotIn t zs
      outside a zs at ne = NotIn-place place a t zs at (λ e. ne (sym e ∙ away))

  pub added-Holds :
      place t ≡ nowhere
      → t < max_tasks
      → priority < max_task_priorities
      → Holds s place lists delayed
      → Holds
          (PreemptiveSp.add_to_ready_list t fresh)
          (update place t (in_ready priority))
          (update lists priority (lists priority ++ t ∷ []))
          delayed
  unfolding fill_task
  added-Holds away small low h =
      subst
        (λ p.
          Holds (PreemptiveSp.add_to_ready_list t fresh) (update place t (in_ready p))
            (update lists p (lists p ++ t ∷ [])) delayed)
        own
        (add_to_ready_list-Holds t fresh place lists delayed (fresh-Holds away h) small
          (subst (λ p. p < max_task_priorities) (sym own) low) away)
    where
      own : fresh.pool.priority t ≡ priority
      own = update_self s.pool.priority t priority

  pub added-Tracked :
      is_null (s.pool.task_function t) ≡ true
      → Tracked s.pool.task_function s.pool.priority s.pool.state place lists delayed
      → Tracked
          (update s.pool.task_function t (some task_function))
          (update s.pool.priority t priority)
          (update s.pool.state t ready)
          (update place t (in_ready priority))
          (update lists priority (lists priority ++ t ∷ []))
          delayed
  added-Tracked free h = record {
    agrees = λ x is. elim (Bool-cases (x == t)) [
      | inl e ↦ rw e (refl, refl)
      | inr e ↦ rw e (h.agrees x (rw e at is))
    ];
    free = λ x null. elim (Bool-cases (x == t)) [
      | inl e ↦ absurd (used (rw e at null))
      | inr e ↦ rw e (h.free x (rw e at null))
    ];
    in_its_list = λ x p at. elim (Bool-cases (x == t)) [
      | inl e ↦ rw (==-eq x t e) (its_end p (rw e at at))
      | inr e ↦ at_end x p (h.in_its_list x p (rw e at at))
    ];
    in_the_delayed = λ x at. elim (Bool-cases (x == t)) [
      | inl e ↦ absurd (apart (rw e at at))
      | inr e ↦ h.in_the_delayed x (rw e at at)
    ];
  }
    where
      used : is_null (some task_function) ≡ true → ⊥
      used e = cc

      apart : in_ready priority ≡ in_delayed → ⊥
      apart e = cc

      at_end :
          (x p : ℕ)
          → elem x (lists p) ≡ true
          → elem x (update lists priority (lists priority ++ t ∷ []) p) ≡ true
      at_end x p there = elim (Bool-cases (p == priority)) [
        | inl e ↦ rw e (
            elem-left x (lists priority) (t ∷ [])
              (subst (λ q. elem x (lists q) ≡ true) (==-eq p priority e) there))
        | inr e ↦ rw e there
      ]

      its_end :
          (p : ℕ)
          → in_ready priority ≡ in_ready p
          → elem t (update lists priority (lists priority ++ t ∷ []) p) ≡ true
      its_end p e =
          let same : priority ≡ p = cc in
          rw (← same) (
            rw (update_self lists priority (lists priority ++ t ∷ []))
              (elem-last t (lists priority)))
