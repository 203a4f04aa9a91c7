-- ===== src/Kernel/Turn.antt =====
-- Whose turn it is after a switch between two sound states: `rtos_kernel_switch_context` of
-- src/core/kernel.c.
use vrtos.Base.{
  ℕ, ◌<◌, ◌≤◌, ◌≡◌, ◌≢◌, All, inl, inr, ◌∙◌, refl, sym, ap, subst, arith, true, false, none, some,
  List, ◌==◌, ltb, is_null, update, update_self, Bool-cases, ==-eq, leb, leb→le, lt_of_leb,
  update_ne, elem, elem-nil,
}
use vrtos.State.{kernel_running, Sys, TaskState, ready, running, blocked, suspended, deleted}
use vrtos.State.Setters.{set_state}
use vrtos.Scheduler.PreemptiveSp.Lists.{Place, nowhere, in_ready, in_delayed}
use vrtos.Kernel.{switch_context, put_back, is_running_task}
use vrtos.Kernel.Switch.{put_back-running, add_by_preemptive, completed_by_preemptive, switch_by}
use vrtos.Kernel.Seen.{seen, seen-add_to_ready_list, state-add_to_ready_list}
use vrtos.Kernel.Tracking.{ready_stands, blocked_stands, other_apart}
use vrtos.Kernel.Validity.{IsTask, Valid, Sound}
use vrtos.Kernel.Keeping.{Keeps, Keeps-same, Keeps-trans, Keeps-changed}
use vrtos.Kernel.Dispatch.{Runs, rejoined, rejoined-Valid, next-Runs}

-- The current task runs, and no READY task has a higher priority.
pub record IsHighest (s : Sys) : Type 0 where
  pub current : ℕ
  pub current_is : s.kernel.current_task ≡ some current
  pub state_is : s.pool.state current ≡ running
  pub highest :
      (t : ℕ) → IsTask s t → s.pool.state t ≡ ready → s.pool.priority t ≤ s.pool.priority current

-- The current task has no links.
abbrev pub IsUnlinked : Sys → Type 0
IsUnlinked s =
    (c : ℕ) → s.kernel.current_task ≡ some c → (s.pool.next c ≡ none) × (s.pool.prev c ≡ none)

-- What a switch leads to from `s`: a sound state with the same wake-up times at the same tick.
abbrev pub Turned : ℕ → (ℕ → ℕ) → ℕ → Sys → Sys → Type 0
Turned idler due now s s' = (h : Sound idler s') × (h.due ≡ due) × (h.now ≡ now) × Keeps s s'

module _ {idler : ℕ} {s₀ : Sys} {place : ℕ → Place} {lists : ℕ → List ℕ} {delayed : List ℕ}
    {due : ℕ → ℕ} {now : ℕ} {s : Sys} (r : Runs idler s₀ place lists delayed due now s) where
  pub Runs-IsHighest : IsHighest s
  Runs-IsHighest = record {
    current = r.task;
    current_is = r.current_is;
    state_is = ap (λ f. f r.task) r.state_is ∙ update_self s₀.pool.state r.task running;
    highest =
        λ t is st. highest t (ready_stands t r.valid.tracked is st) (r.valid.steady.in_range t is);
  }
    where
      highest :
          (t : ℕ)
          → elem t (update lists r.level r.rest (s.pool.priority t)) ≡ true
          → s.pool.priority t < 8
          → s.pool.priority t ≤ s.pool.priority r.task
      highest t there lt = elim (Bool-cases (leb (s.pool.priority t) r.level)) [
        | inl e ↦ rw r.priority_is (leb→le _ _ e)
        | inr e ↦
            let over : r.level < s.pool.priority t = lt_of_leb _ _ e in
            let same = update_ne lists r.level (s.pool.priority t) r.rest (λ eq. omega arith) in
            absurd (
              elem-nil t (lists (s.pool.priority t)) (r.above (s.pool.priority t) over lt)
                (subst (λ xs. elem t xs ≡ true) same there))
      ]

  pub Runs-IsUnlinked : IsUnlinked s
  Runs-IsUnlinked c at =
      let same : r.task ≡ c = cc (sym r.current_is ∙ at) in rw (← same) r.unlinked

  pub Runs-Sound :
      ((t : ℕ) → IsTask s₀ t → s₀.pool.state t ≢ running)
      → s₀.pool.state idler ≡ ready
      → s₀.kernel.state ≡ kernel_running
      → (h : Sound idler s) × (h.due ≡ due) × (h.now ≡ now)
  Runs-Sound none_runs waits on = (
    record {
      place = _;
      lists = _;
      delayed = delayed;
      due = due;
      now = now;
      valid = r.valid;
      is_on = r.kernel_is ∙ on;
      current = r.task;
      current_is = r.current_is;
      is_task = r.is_task;
      one_runs = λ t is st. elim (Bool-cases (t == r.task)) [
        | inl e ↦ ==-eq t r.task e
        | inr e ↦ absurd (
            none_runs t (ap (λ f. is_null (f t)) (sym r.function_is) ∙ is)
              (sym (ap (λ f. f t) r.state_is ∙ rw e refl) ∙ st))
      ];
      awake = elim (Bool-cases (idler == r.task)) [
        | inl e ↦ inr (ap (λ f. f idler) r.state_is ∙ rw e refl)
        | inr e ↦ inl (ap (λ f. f idler) r.state_is ∙ rw e waits)
      ];
    },
    refl,
    refl,
  )

  -- The task that runs was READY, and no other changes its state.
  pub Runs-Keeps : Valid idler s₀ place lists delayed due now → Keeps s₀ s
  Runs-Keeps v = Keeps-changed s₀ s r.task running r.function_is r.state_is not_blocked (inr refl)
    where
      stands : place r.task ≡ in_ready r.level
      stands =
          (subst (λ xs. All (λ x. place x ≡ in_ready r.level) xs) r.is_first
            (v.holds.ready_place r.level)).0

      apart : in_ready r.level ≡ in_delayed → ⊥
      apart e = cc

      not_blocked : s₀.pool.state r.task ≢ blocked
      not_blocked e = apart (
          sym stands
          ∙ blocked_stands r.task v.tracked
              (ap (λ f. is_null (f r.task)) (sym r.function_is) ∙ r.is_task) e)

-- What a switch needs of `s₁`, the state after its first half, in which no task runs.
switched :
    {idler c : ℕ} {place : ℕ → Place} {lists : ℕ → List ℕ} {delayed : List ℕ} {due : ℕ → ℕ}
    {now : ℕ} (s s₁ : Sys)
    → s.kernel.scheduler_suspended ≡ 0
    → s.kernel.current_task ≡ some c
    → put_back (some c) s ≡ s₁
    → Valid idler s₁ place lists delayed due now
    → ((t : ℕ) → IsTask s₁ t → s₁.pool.state t ≢ running)
    → s₁.pool.state idler ≡ ready
    → s₁.kernel.state ≡ kernel_running
    → Keeps s s₁
    → Turned idler due now s (switch_context s)
      × IsHighest (switch_context s)
      × IsUnlinked (switch_context s)
switched {idler} {c} s s₁ free current put v none_runs waits on kept =
    let r =
      next-Runs v idler (s₁.pool.priority idler) (v.steady.in_range idler v.steady.idle_is)
        (ready_stands idler v.tracked v.steady.idle_is waits) in
    rw (switch_by c s s₁ free current put v.steady.chosen) (
      let (h, due_is, now_is) = Runs-Sound r none_runs waits on in
          (h, due_is, now_is, Keeps-trans kept (Runs-Keeps r v)),
      Runs-IsHighest r,
      Runs-IsUnlinked r,
    )

module _ {idler : ℕ} {s : Sys} (h : Sound idler s) where
  open h use {current}

  -- The idle task waits when it is not the current one, which alone can run.
  idle_waits : current ≢ idler → s.pool.state idler ≡ ready
  idle_waits ne = elim h.awake [
    | inl e ↦ e
    | inr e ↦ absurd (ne (sym (h.one_runs idler h.valid.steady.idle_is e)))
  ]

  away : s.pool.state current ≡ running → h.place current ≡ nowhere
  away runs =
      other_apart current h.valid.tracked h.is_task (λ e. not_ready (sym runs ∙ e))
        (λ e. not_blocked (sym runs ∙ e))
    where
      not_ready : running ≡ ready → ⊥
      not_ready e = cc

      not_blocked : running ≡ blocked → ⊥
      not_blocked e = cc

  differ : {a b : ℕ} → (a == b) ≡ false → a ≡ b → ⊥
  differ e eq = ground arith

  switch-running :
      s.kernel.scheduler_suspended ≡ 0
      → s.pool.state current ≡ running
      → Turned idler h.due h.now s (switch_context s)
        × IsHighest (switch_context s)
        × IsUnlinked (switch_context s)
  switch-running free runs =
      switched s (rejoined h.valid current) free h.current_is put
        (rejoined-Valid h.valid current h.is_task (away runs)) none_runs waits
        (ap (λ o. o.kernel_state) same ∙ h.is_on)
        (Keeps-changed s (rejoined h.valid current) current ready (ap (λ o. o.task_function) same)
          states (λ e. blocked_apart (sym runs ∙ e)) (inl refl))
    where
      put : put_back (some current) s ≡ rejoined h.valid current
      put =
          put_back-running current s h.valid.steady.chosen runs
          ∙ add_by_preemptive current (set_state current ready s) h.valid.steady.chosen

      same : seen (rejoined h.valid current) ≡ seen s
      same = seen-add_to_ready_list current (set_state current ready s)

      states : (rejoined h.valid current).pool.state ≡ update s.pool.state current ready
      states = state-add_to_ready_list current (set_state current ready s)

      apart : ready ≡ running → ⊥
      apart e = cc

      blocked_apart : running ≡ blocked → ⊥
      blocked_apart e = cc

      none_runs :
          (t : ℕ)
          → IsTask (rejoined h.valid current) t
          → (rejoined h.valid current).pool.state t ≡ running
          → ⊥
      none_runs t is st = elim (Bool-cases (t == current)) [
        | inl e ↦ apart (sym (ap (λ f. f t) states ∙ rw e refl) ∙ st)
        | inr e ↦
            let eq =
              h.one_runs t (sym (ap (λ o. is_null (o.task_function t)) same) ∙ is)
                (sym (ap (λ f. f t) states ∙ rw e refl) ∙ st) in
            differ e eq
      ]

      waits : (rejoined h.valid current).pool.state idler ≡ ready
      waits = elim (Bool-cases (idler == current)) [
        | inl e ↦ ap (λ f. f idler) states ∙ rw e refl
        | inr e ↦ ap (λ f. f idler) states ∙ rw e (idle_waits (λ eq. differ e (sym eq)))
      ]

  switch-waiting :
      s.kernel.scheduler_suspended ≡ 0
      → is_running_task (s.pool.state current) ≡ false
      → Turned idler h.due h.now s (switch_context s)
        × IsHighest (switch_context s)
        × IsUnlinked (switch_context s)
  unfolding is_running_task put_back
  switch-waiting free waits =
      switched s s free h.current_is put h.valid none_runs idle_free h.is_on (Keeps-same s)
    where
      put : put_back (some current) s ≡ s
      put = rw waits (completed_by_preemptive current s h.valid.steady.chosen)

      apart : is_running_task running ≡ false → ⊥
      apart e = cc

      not_running : s.pool.state current ≢ running
      not_running e = apart (sym (ap is_running_task e) ∙ waits)

      none_runs : (t : ℕ) → IsTask s t → s.pool.state t ≢ running
      none_runs t is st =
          not_running (subst (λ x. s.pool.state x ≡ running) (h.one_runs t is st) st)

      idle_free : s.pool.state idler ≡ ready
      idle_free = elim h.awake [
        | inl e ↦ e
        | inr e ↦ absurd (none_runs idler h.valid.steady.idle_is e)
      ]

runs : (st : TaskState) → is_running_task st ≡ true → st ≡ running
unfolding is_running_task
runs running e = refl
runs ready e = cc
runs blocked e = cc
runs suspended e = cc
runs deleted e = cc

switch_free :
    (idler : ℕ) (s : Sys) (h : Sound idler s)
    → s.kernel.scheduler_suspended ≡ 0
    → Turned idler h.due h.now s (switch_context s)
      × IsHighest (switch_context s)
      × IsUnlinked (switch_context s)
switch_free idler s h free = elim (Bool-cases (is_running_task (s.pool.state h.current))) [
  | inl e ↦ switch-running h free (runs (s.pool.state h.current) e)
  | inr e ↦ switch-waiting h free e
]

-- Between two steps of the kernel, with the preemptive scheduler not suspended, a switch leads to a
-- sound state again, and there the current task runs and no READY task has a higher priority.
pub switch_context-IsHighest :
    (idler : ℕ) (s : Sys)
    → Sound idler s
    → s.kernel.scheduler_suspended ≡ 0
    → Sound idler (switch_context s) × IsHighest (switch_context s)
switch_context-IsHighest idler s h free =
    let (turned, highest, unlinked) = switch_free idler s h free in (turned.0, highest)

-- The links of the task that runs after a switch are NULL.
pub switch_context-IsUnlinked :
    (idler : ℕ) (s : Sys)
    → Sound idler s
    → s.kernel.scheduler_suspended ≡ 0
    → IsUnlinked (switch_context s)
switch_context-IsUnlinked idler s h free = (switch_free idler s h free).2

-- The same for a scheduler that may be suspended, with what a switch keeps.
pub switch_context-Turned :
    (idler : ℕ) (s : Sys) (h : Sound idler s) → Turned idler h.due h.now s (switch_context s)
unfolding switch_context
switch_context-Turned idler s h = elim (Bool-cases (ltb 0 s.kernel.scheduler_suspended)) [
  | inl e ↦ rw e (h, refl, refl, Keeps-same s)
  | inr e ↦ (switch_free idler s h (ground arith)).0
]

pub switch_context-Sound : (idler : ℕ) (s : Sys) → Sound idler s → Sound idler (switch_context s)
switch_context-Sound idler s h = (switch_context-Turned idler s h).0
