-- ===== src/Kernel/Validity.antt =====
-- What holds of the kernel's state while the tasks run under the preemptive scheduler.
use vrtos.Base.{
  ℕ, ◌<◌, ◌≡◌, ◌≢◌, ◌⊎◌, inl, inr, refl, ◌==◌, ==-eq, Bool-cases, update, ap, sym, subst, ◌∙◌,
  if◌then◌else◌, Bool, true, false, none, some, List, is_null,
}
use vrtos.State.{
  Sys, TaskState, ready, running, kernel_running, preemptive_sp, max_tasks, max_task_priorities,
}
use vrtos.Scheduler.{active}
use vrtos.Scheduler.PreemptiveSp.Lists.{Holds, IsTimed, Place, in_delayed}
use vrtos.Kernel.Switch.{Holds-same}
use vrtos.Kernel.Delay.{IsTimed-same}
use vrtos.Kernel.Seen.{outline, seen}
use vrtos.Kernel.Tracking.{Tracked, Tracked-fields}

-- An entry of the task pool that is in use.
abbrev pub IsTask : Sys → ℕ → Type 0
IsTask s t = is_null (s.pool.task_function t) ≡ false

-- What no step of the kernel changes: the preemptive scheduler is the chosen one, and the tasks, `idle` among them, have indices and priorities in range.
pub record Steady (idle : ℕ) (s : Sys) : Type 0 where
  pub chosen : active s ≡ some preemptive_sp
  pub small : (t : ℕ) → IsTask s t → t < max_tasks
  pub in_range : (t : ℕ) → IsTask s t → s.pool.priority t < max_task_priorities
  pub idle_is : IsTask s idle

-- The lists are in order, with the tasks that belong there by their states, and the delayed ones come
-- after now.
pub record Valid (idle : ℕ) (s : Sys) (place : ℕ → Place) (lists : ℕ → List ℕ) (delayed : List ℕ)
    (due : ℕ → ℕ) (now : ℕ) : Type 0 where
  pub steady : Steady idle s
  pub holds : Holds s place lists delayed
  pub timed : IsTimed s due now delayed
  pub ahead : (t : ℕ) → place t ≡ in_delayed → now < due t
  pub tracked : Tracked s.pool.task_function s.pool.priority s.pool.state place lists delayed

-- Between two steps of the running kernel, a task that runs is the current one, and the idle task is READY or RUNNING.
pub record Sound (idle : ℕ) (s : Sys) : Type 0 where
  pub place : ℕ → Place
  pub lists : ℕ → List ℕ
  pub delayed : List ℕ
  pub due : ℕ → ℕ
  pub now : ℕ
  pub valid : Valid idle s place lists delayed due now
  pub is_on : s.kernel.state ≡ kernel_running
  pub current : ℕ
  pub current_is : s.kernel.current_task ≡ some current
  pub is_task : IsTask s current
  pub one_runs : (t : ℕ) → IsTask s t → s.pool.state t ≡ running → t ≡ current
  pub awake : (s.pool.state idle ≡ ready) ⊎ (s.pool.state idle ≡ running)

pub Steady-seen : {idle : ℕ} (s s' : Sys) → outline s' ≡ outline s → Steady idle s → Steady idle s'
Steady-seen {idle} s s' same h = record {
  chosen = ap (λ o. if o.scheduler.initialized then o.scheduler.vtable else none) same ∙ h.chosen;
  small = λ t is. h.small t (sym (null t) ∙ is);
  in_range = λ t is.
      subst (λ p. p t < max_task_priorities) (sym (ap (λ o. o.priority) same))
        (h.in_range t (sym (null t) ∙ is));
  idle_is = null idle ∙ h.idle_is;
}
  where
    null : (t : ℕ) → is_null (s'.pool.task_function t) ≡ is_null (s.pool.task_function t)
    null t = ap (λ o. is_null (o.task_function t)) same

pub Tracked-outline :
    {place : ℕ → Place} {lists : ℕ → List ℕ} {delayed : List ℕ} (s s' : Sys) (state : ℕ → TaskState)
    → outline s' ≡ outline s
    → s'.pool.state ≡ state
    → Tracked s.pool.task_function s.pool.priority state place lists delayed
    → Tracked s'.pool.task_function s'.pool.priority s'.pool.state place lists delayed
Tracked-outline s s' state same st tracked =
    Tracked-fields _ _ _ _ state _ (ap (λ o. o.task_function) same) (ap (λ o. o.priority) same) st
      tracked

-- A call of the scheduler that leaves what `seen` shows, and has done `state`, to the places and the lists
-- that go with them.
pub Valid-seen :
    {idle : ℕ} {place place' : ℕ → Place} {lists lists' : ℕ → List ℕ} {delayed delayed' : List ℕ}
    {due : ℕ → ℕ} {now : ℕ} (s s' : Sys) (state : ℕ → TaskState)
    → seen s' ≡ seen s
    → s'.pool.state ≡ state
    → Valid idle s place lists delayed due now
    → Holds s' place' lists' delayed'
    → Tracked s.pool.task_function s.pool.priority state place' lists' delayed'
    → IsTimed s due now delayed'
    → ((t : ℕ) → place' t ≡ in_delayed → now < due t)
    → Valid idle s' place' lists' delayed' due now
Valid-seen {idle} {place'} {lists'} {delayed'} {due} {now} s s' state same st v holds tracked timed
      ahead =
    record {
      steady = Steady-seen s s' (ap (λ o. o.outline_of) same) v.steady;
      holds = holds;
      timed =
          IsTimed-same s s' due now delayed' (ap (λ o. o.tick_count) same)
            (ap (λ o. o.delay_until) same) timed;
      ahead = ahead;
      tracked = Tracked-outline s s' state (ap (λ o. o.outline_of) same) st tracked;
    }

-- One task has changed its state, not to RUNNING, and the idle task has not left READY or RUNNING.
unfoldable pub Sound-changed :
    {idle : ℕ} {place : ℕ → Place} {lists : ℕ → List ℕ} {delayed : List ℕ} {due : ℕ → ℕ} {now : ℕ}
    (s s' : Sys) (t : ℕ) (st : TaskState)
    → Sound idle s
    → outline s' ≡ outline s
    → s'.kernel.current_task ≡ s.kernel.current_task
    → s'.pool.state ≡ update s.pool.state t st
    → st ≢ running
    → (t ≢ idle) ⊎ (st ≡ ready)
    → Valid idle s' place lists delayed due now
    → Sound idle s'
Sound-changed {idle} s s' t st h same cur states calm idle_kept v = record {
  place = _;
  lists = _;
  delayed = _;
  due = _;
  now = _;
  valid = v;
  is_on = ap (λ o. o.kernel_state) same ∙ h.is_on;
  current = h.current;
  current_is = cur ∙ h.current_is;
  is_task = null h.current ∙ h.is_task;
  one_runs = λ x is at. elim (Bool-cases (x == t)) [
    | inl e ↦ absurd (calm (sym (ap (λ f. f x) states ∙ rw e refl) ∙ at))
    | inr e ↦ h.one_runs x (sym (null x) ∙ is) (sym (ap (λ f. f x) states ∙ rw e refl) ∙ at)
  ];
  awake = elim (Bool-cases (idle == t)) [
    | inl e ↦ inl (ap (λ f. f idle) states ∙ rw e (is_ready e idle_kept))
    | inr e ↦
        let kept : s'.pool.state idle ≡ s.pool.state idle = ap (λ f. f idle) states ∙ rw e refl in
        rw kept h.awake
  ];
}
  where
    null : (x : ℕ) → is_null (s'.pool.task_function x) ≡ is_null (s.pool.task_function x)
    null x = ap (λ o. is_null (o.task_function x)) same

    is_ready : (idle == t) ≡ true → (t ≢ idle) ⊎ (st ≡ ready) → st ≡ ready
    is_ready e (inl ne) = absurd (ne (sym (==-eq idle t e)))
    is_ready e (inr r) = r

-- A request for a switch changes nothing else.
pub Sound-pendsv :
    {idle : ℕ} (b : Bool) (s : Sys) → Sound idle s → Sound idle (record s { pendsv = b })
Sound-pendsv b s h = record {
  place = h.place;
  lists = h.lists;
  delayed = h.delayed;
  due = h.due;
  now = h.now;
  valid =
      Valid-seen s (record s { pendsv = b }) s.pool.state refl refl h.valid
        (Holds-same s (record s { pendsv = b }) h.place h.lists h.delayed refl refl refl refl
          h.valid.holds)
        h.valid.tracked h.valid.timed h.valid.ahead;
  is_on = h.is_on;
  current = h.current;
  current_is = h.current_is;
  is_task = h.is_task;
  one_runs = h.one_runs;
  awake = h.awake;
}
