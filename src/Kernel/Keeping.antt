-- ===== src/Kernel/Keeping.antt =====
-- What a switch of tasks keeps of their states: `rtos_kernel_switch_context` of src/core/kernel.c.
use vrtos.Base.{
  ℕ, ◌≡◌, ◌≢◌, ◌⊎◌, inl, inr, ◌∙◌, sym, ap, subst, ◌==◌, is_null, update, Bool-cases, ==-eq,
}
use vrtos.State.{Sys, TaskState, ready, running, blocked}
use vrtos.Kernel.Validity.{IsTask}

abbrev pub IsAwake : TaskState → Type 0
IsAwake st = (st ≡ ready) ⊎ (st ≡ running)

-- Tasks stay tasks, BLOCKED ones stay BLOCKED, and those that are READY or RUNNING are one or the other.
pub record Keeps (s s' : Sys) : Type 0 where
  pub task : (t : ℕ) → IsTask s t → IsTask s' t
  pub asleep : (t : ℕ) → IsTask s t → s.pool.state t ≡ blocked → s'.pool.state t ≡ blocked
  pub awake : (t : ℕ) → IsAwake (s.pool.state t) → IsAwake (s'.pool.state t)

pub Keeps-same : (s : Sys) → Keeps s s
Keeps-same s = record { task = λ t is. is; asleep = λ t is e. e; awake = λ t a. a }

pub Keeps-trans : {s s' s'' : Sys} → Keeps s s' → Keeps s' s'' → Keeps s s''
Keeps-trans a b = record {
  task = λ t is. b.task t (a.task t is);
  asleep = λ t is e. b.asleep t (a.task t is) (a.asleep t is e);
  awake = λ t w. b.awake t (a.awake t w);
}

-- One task, which is not BLOCKED, becomes READY or RUNNING.
pub Keeps-changed :
    (s s' : Sys) (c : ℕ) (st : TaskState)
    → s'.pool.task_function ≡ s.pool.task_function
    → s'.pool.state ≡ update s.pool.state c st
    → s.pool.state c ≢ blocked
    → IsAwake st
    → Keeps s s'
Keeps-changed s s' c st functions states not_blocked up = record {
  task = λ t is. ap (λ f. is_null (f t)) functions ∙ is;
  asleep = λ t is e. elim (Bool-cases (t == c)) [
    | inl same ↦ absurd (not_blocked (subst (λ x. s.pool.state x ≡ blocked) (==-eq t c same) e))
    | inr other ↦ ap (λ f. f t) states ∙ rw other e
  ];
  awake = λ t a.
      subst (λ f. IsAwake (f t)) (sym states)
        (elim (Bool-cases (t == c)) [ inl same ↦ rw same up | inr other ↦ rw other a ]);
}
