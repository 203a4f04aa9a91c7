-- ===== src/Task/Life/Release.antt =====
-- What becomes of the mutexes of a task that is deleted.
use vrtos.Base.{
  ℕ, zero, suc, ◌≤◌, ◌≡◌, ◌≢◌, refl, sym, ◌∙◌, ap, Option, none, some, List, [], ◌∷◌, arith, ◌▷◌,
  update, update_self, update_ne, length, All, NotIn, IsDistinct, Chain, Seg-update, subst,
}
use vrtos.State.{Sys, Mutexes, ready}
use vrtos.State.Setters.{set_held_mutex_list, set_state}
use vrtos.Scheduler
use vrtos.Scheduler.Frame.{View, view, view-add_to_ready_list, view-remove_from_delayed_list}
use vrtos.Sync.WaitList.{clear_wait}
use vrtos.Sync.Mutex.{set_owner, set_waiting_list, set_next_held, set_lock_count}
use vrtos.Kernel
use vrtos.Task.Life.{pass_on, release_held}

-- From `s` to `v`, the mutex `m` of the task `t` has gone to the first task that waits for it.
record Passed (m t : ℕ) (s : Sys) (v : View) : Type 0 where
  links :
      (p : Option ℕ) (xs : List ℕ)
      → NotIn m xs
      → Chain s.mutexes.next_held p xs
      → Chain v.mutexes.next_held p xs
  held : v.held_mutex_list t ≡ s.mutexes.next_held m
  owner : v.mutexes.owner m ≡ s.mutexes.waiting_list m
  owners : (x : ℕ) → x ≢ m → v.mutexes.owner x ≡ s.mutexes.owner x
  waits : (x : ℕ) → x ≢ m → v.mutexes.waiting_list x ≡ s.mutexes.waiting_list x

-- The mutex is taken off the list of those that `t` holds.
abbrev dropped : ℕ → ℕ → Sys → Sys
dropped m t s = s ▷ set_held_mutex_list t (s.mutexes.next_held m) ▷ set_next_held m none

-- What is written before the new owner is made ready.
abbrev handed : ℕ → ℕ → Sys → Sys
handed m waiter s =
    s
    ▷ set_waiting_list m (s.pool.next_waiting waiter)
    ▷ clear_wait waiter
    ▷ set_owner m (some waiter)
    ▷ set_lock_count m 1
    ▷ set_next_held m (s.pool.held_mutex_list waiter)
    ▷ set_held_mutex_list waiter (some m)

view-pass_on :
    (m waiter : ℕ) (s : Sys) → view (pass_on m (some waiter) s) ≡ view (handed m waiter s)
unfolding pass_on
view-pass_on m waiter s =
    let s₁ = Scheduler.remove_from_delayed_list waiter (handed m waiter s) in
    view-add_to_ready_list waiter (set_state waiter ready s₁)
    ∙ view-remove_from_delayed_list waiter (handed m waiter s)

pass_on-Passed :
    (m t : ℕ) (first_waiter : Option ℕ) (s : Sys)
    → first_waiter ≡ s.mutexes.waiting_list m
    → first_waiter ≢ some t
    → Passed m t s (view (pass_on m first_waiter (dropped m t s)))
unfolding pass_on
pass_on-Passed m t none s e n = record {
  links = λ p xs far c. Seg-update s.mutexes.next_held m none p none xs far c;
  held = update_self s.pool.held_mutex_list t _;
  owner = update_self s.mutexes.owner m none ∙ e;
  owners = λ x ne. update_ne s.mutexes.owner m x none ne;
  waits = λ x ne. refl;
}
pass_on-Passed m t (some w) s e n =
    subst (Passed m t s) (sym (view-pass_on m w (dropped m t s))) (record {
      links = λ p xs far c.
          Seg-update (update s.mutexes.next_held m none) m _ p none xs far
            (Seg-update s.mutexes.next_held m none p none xs far c);
      held =
          update_ne (update s.pool.held_mutex_list t (s.mutexes.next_held m)) w t (some m)
            (λ same. n (ap some (sym same)))
          ∙ update_self s.pool.held_mutex_list t _;
      owner = update_self s.mutexes.owner m (some w) ∙ e;
      owners = λ x ne. update_ne s.mutexes.owner m x (some w) ne;
      waits = λ x ne. update_ne s.mutexes.waiting_list m x _ ne;
    })

abbrev pub Gone : ℕ → List ℕ → Mutexes → Mutexes → (ℕ → Option ℕ) → Type 0
Gone t xs mutexes mutexes' held =
    All (λ m. mutexes'.owner m ≡ mutexes.waiting_list m) xs
    × (held t ≡ none)
    × ((x : ℕ) → NotIn x xs → mutexes'.owner x ≡ mutexes.owner x)

abbrev pub Released : ℕ → List ℕ → Sys → Sys → Type 0
Released t xs s s' = Gone t xs s.mutexes s'.mutexes s'.pool.held_mutex_list

-- A task that holds the mutexes `xs`, in that order and each once, and waits for none of them: each
-- goes to the first task that waits for it, or has no owner; the task holds none any more, and the
-- owners of other mutexes stay. The fuel is at least the number of the mutexes.
pub release_held-Released :
    (f t : ℕ) (held : Option ℕ) (xs : List ℕ) (s : Sys)
    → length xs ≤ f
    → held ≡ s.pool.held_mutex_list t
    → Chain s.mutexes.next_held held xs
    → IsDistinct xs
    → All (λ m. s.mutexes.waiting_list m ≢ some t) xs
    → Released t xs s (release_held f t held s)
unfolding release_held
release_held-Released zero t held [] s l h c d w = (tt, sym h ∙ c, λ x n. refl)
release_held-Released zero t held (m ∷ ms) s l h c d w = absurd (omega arith)
release_held-Released (suc f) t held [] s l h c d w = rw c (tt, sym h ∙ c, λ x n. refl)
release_held-Released (suc f) t held (m ∷ ms) s l h c d w =
    let rest =
      release_held-Released f t (s₂.pool.held_mutex_list t) ms s₂ (omega arith) refl
        (subst (λ p. Chain s₂.mutexes.next_held p ms) (sym passed.held)
          (passed.links (s.mutexes.next_held m) ms d.0 c.1))
        d.1 (unmoved ms d.0 w.1) in
    subst (λ p. Released t (m ∷ ms) s (release_held (suc f) t p s)) (sym c.0)
      (
        (rest.2 m d.0 ∙ passed.owner, settled _ ms d.0 rest.0),
        rest.1,
        λ x n. rest.2 x n.1 ∙ passed.owners x (λ e. n.0 (sym e)),
      )
  where
    s₂ : Sys
    s₂ = pass_on m (s.mutexes.waiting_list m) (dropped m t s)

    passed : Passed m t s (view s₂)
    passed = pass_on-Passed m t (s.mutexes.waiting_list m) s refl w.0

    settled :
        (g : ℕ → Option ℕ) (ys : List ℕ)
        → NotIn m ys
        → All (λ x. g x ≡ s₂.mutexes.waiting_list x) ys
        → All (λ x. g x ≡ s.mutexes.waiting_list x) ys
    settled g [] n a = tt
    settled g (y ∷ ys) n a = (a.0 ∙ passed.waits y n.0, settled g ys n.1 a.1)

    unmoved :
        (ys : List ℕ)
        → NotIn m ys
        → All (λ x. s.mutexes.waiting_list x ≢ some t) ys
        → All (λ x. s₂.mutexes.waiting_list x ≢ some t) ys
    unmoved [] n a = tt
    unmoved (y ∷ ys) n a = ((λ e. a.0 (sym (passed.waits y n.0) ∙ e)), unmoved ys n.1 a.1)
