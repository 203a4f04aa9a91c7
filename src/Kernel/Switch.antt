-- ===== src/Kernel/Switch.antt =====
-- The switch of tasks, `rtos_kernel_switch_context` of src/core/kernel.c, under the preemptive
-- scheduler.
use vrtos.Base.{
  ℕ, ◌<◌, ◌≡◌, ◌∙◌, refl, sym, ap, subst, false, Option, none, some, List, [], ◌∷◌, ◌++◌, ltb,
  if◌then◌else◌, update, update_self, All,
}
use vrtos.State.{Sys, ready, running, preemptive_sp, SchedulerType, max_tasks, max_task_priorities}
use vrtos.State.Setters.{set_state, set_next_task}
use vrtos.Scheduler
use vrtos.Scheduler.{active}
use vrtos.Scheduler.Frame.{View, view-add_to_ready_list}
use vrtos.Scheduler.PreemptiveSp
use vrtos.Scheduler.PreemptiveSp.Lists.{Holds, Place, nowhere, in_ready}
use vrtos.Scheduler.PreemptiveSp.Ready.{add_to_ready_list-Holds}
use vrtos.Scheduler.PreemptiveSp.Removal.{remove_from_ready_list-Holds}
use vrtos.Scheduler.PreemptiveSp.Choice.{Chosen, idle, pick, get_next_task-Chosen}
use vrtos.Kernel.{switch_context, put_back, run_next, is_running_task}

-- The states and the time stamps of the tasks, and what the kernel itself holds, are of no concern to the
-- lists.
pub Holds-same :
    (s s' : Sys) (place : ℕ → Place) (lists : ℕ → List ℕ) (delayed : List ℕ)
    → s'.pool.next ≡ s.pool.next
    → s'.pool.prev ≡ s.pool.prev
    → s'.pool.priority ≡ s.pool.priority
    → s'.preemptive ≡ s.preemptive
    → Holds s place lists delayed
    → Holds s' place lists delayed
Holds-same s s' place lists delayed n p r d h =
    rw (n, p, r, d)
      (record {
        ready_list = h.ready_list;
        delayed_list = h.delayed_list;
        ready_place = h.ready_place;
        delayed_place = h.delayed_place;
        ready_priority = h.ready_priority;
        map_small = h.map_small;
        map = h.map;
      })

-- With the preemptive scheduler, the calls of scheduler.c are its own.
pub add_by_preemptive :
    (t : ℕ) (s : Sys)
    → active s ≡ some preemptive_sp
    → Scheduler.add_to_ready_list t s ≡ PreemptiveSp.add_to_ready_list t s
unfolding Scheduler.add_to_ready_list
add_by_preemptive t s a = rw a refl

pub remove_by_preemptive :
    (t : ℕ) (s : Sys)
    → active s ≡ some preemptive_sp
    → Scheduler.remove_from_ready_list t s ≡ PreemptiveSp.remove_from_ready_list t s
unfolding Scheduler.remove_from_ready_list
remove_by_preemptive t s a = rw a refl

pub completed_by_preemptive :
    (t : ℕ) (s : Sys) → active s ≡ some preemptive_sp → Scheduler.task_completed t s ≡ s
unfolding Scheduler.task_completed
completed_by_preemptive t s a = rw a refl

pub next_by_preemptive :
    (s : Sys)
    → active s ≡ some preemptive_sp
    → Scheduler.get_next_task s ≡ (s, PreemptiveSp.get_next_task s)
unfolding Scheduler.get_next_task
next_by_preemptive s a = rw a refl

abbrev pub active_in : View → Option SchedulerType
active_in v = if v.scheduler.initialized then v.scheduler.vtable else none

-- The task that ran goes to the end of the list of its priority.
pub put_back-running :
    (c : ℕ) (s : Sys)
    → active s ≡ some preemptive_sp
    → s.pool.state c ≡ running
    → put_back (some c) s ≡ Scheduler.add_to_ready_list c (set_state c ready s)
unfolding put_back is_running_task
put_back-running c s a r = rw r (
    completed_by_preemptive c _ (ap active_in (view-add_to_ready_list c (set_state c ready s)) ∙ a))

-- A switch by its two halves.
pub switch_by :
    (c : ℕ) (s s₁ : Sys)
    → s.kernel.scheduler_suspended ≡ 0
    → s.kernel.current_task ≡ some c
    → put_back (some c) s ≡ s₁
    → active s₁ ≡ some preemptive_sp
    → switch_context s ≡ run_next (PreemptiveSp.get_next_task s₁) s₁
unfolding switch_context
switch_by c s s₁ not_suspended current put a = rw not_locked (
    ap (λ t. let (s', next) = Scheduler.get_next_task (put_back t s) in run_next next s') current
    ∙ ap (λ s. let (s', next) = Scheduler.get_next_task s in run_next next s') put
    ∙ ap (λ r. run_next r.1 r.0) (next_by_preemptive s₁ a))
  where
    not_locked : ltb 0 s.kernel.scheduler_suspended ≡ false
    not_locked = ap (λ n. ltb 0 n) not_suspended

-- The first task of a list leaves it.
pub first_removed :
    (p t : ℕ) (rest : List ℕ) (s : Sys) (place : ℕ → Place) (lists : ℕ → List ℕ) (delayed : List ℕ)
    → Holds s place lists delayed
    → p < max_task_priorities
    → lists p ≡ t ∷ rest
    → Holds
        (PreemptiveSp.remove_from_ready_list t s)
        (update place t nowhere)
        (update lists p rest)
        delayed
first_removed p t rest s place lists delayed h lt is =
    subst
      (λ q.
        q < max_task_priorities
        → lists q ≡ t ∷ rest
        → Holds (PreemptiveSp.remove_from_ready_list t s) (update place t nowhere)
            (update lists q rest) delayed)
      same (λ small eq. remove_from_ready_list-Holds t [] rest s place lists delayed h small eq) lt
      is
  where
    same : s.pool.priority t ≡ p
    same = (subst (λ xs. All (λ x. s.pool.priority x ≡ p) xs) is (h.ready_priority p)).0

pub running_first :
    (p t : ℕ) (rest : List ℕ) (s : Sys) (place : ℕ → Place) (lists : ℕ → List ℕ) (delayed : List ℕ)
    → active s ≡ some preemptive_sp
    → Holds s place lists delayed
    → p < max_task_priorities
    → lists p ≡ t ∷ rest
    → let s' = run_next (some t) s in
      (s'.kernel.current_task ≡ some t)
      × (s'.pool.state t ≡ running)
      × Holds s' (update place t nowhere) (update lists p rest) delayed
unfolding run_next
running_first p t rest s place lists delayed a h lt is = (
  refl,
  update_self (Scheduler.remove_from_ready_list t s₁).pool.state t running,
  Holds-same (PreemptiveSp.remove_from_ready_list t s₁) _ _ _ delayed
      (ap (λ s. s.pool.next) by_preemptive) (ap (λ s. s.pool.prev) by_preemptive)
      (ap (λ s. s.pool.priority) by_preemptive) (ap (λ s. s.preemptive) by_preemptive)
      (first_removed p t rest s₁ place lists delayed
        (Holds-same s s₁ place lists delayed refl refl refl refl h) lt is),
)
  where
    s₁ : Sys
    s₁ = set_next_task (some t) s

    by_preemptive : Scheduler.remove_from_ready_list t s₁ ≡ PreemptiveSp.remove_from_ready_list t s₁
    by_preemptive = remove_by_preemptive t s₁ a

-- What a switch leaves: `t` is the first task of the highest priority among the ready tasks `lists`, the one that
-- ran before included; it is the one that runs now, and it is in no list.
pub data Switched (lists : ℕ → List ℕ) (place : ℕ → Place) (delayed : List ℕ) (s : Sys)
    : Type 0 where
  switched :
      (p t : ℕ) (rest : List ℕ)
      → p < max_task_priorities
      → lists p ≡ t ∷ rest
      → ((q : ℕ) → p < q → q < max_task_priorities → lists q ≡ [])
      → s.kernel.current_task ≡ some t
      → s.pool.state t ≡ running
      → Holds s (update place t nowhere) (update lists p rest) delayed
      → Switched lists place delayed s

-- Under the preemptive scheduler, not suspended, with its lists and its map in order: when the
-- current task `c` is RUNNING and in no list (its index and its priority in range), a switch puts
-- it behind the ready tasks of its priority, and makes the first task of the highest priority the
-- current one, RUNNING and in no list; the lists and the map stay in order.
pub switch_context-Switched :
    (c : ℕ) (s : Sys) (place : ℕ → Place) (lists : ℕ → List ℕ) (delayed : List ℕ)
    → active s ≡ some preemptive_sp
    → Holds s place lists delayed
    → s.kernel.scheduler_suspended ≡ 0
    → s.kernel.current_task ≡ some c
    → s.pool.state c ≡ running
    → place c ≡ nowhere
    → c < max_tasks
    → s.pool.priority c < max_task_priorities
    → let p = s.pool.priority c in
      Switched
        (update lists p (lists p ++ c ∷ []))
        (update place c (in_ready p))
        delayed
        (switch_context s)
switch_context-Switched c s place lists delayed a h not_suspended current runs away small in_range =
    rw steps
      (by_choice (PreemptiveSp.get_next_task s₁) (get_next_task-Chosen s₁ place₁ lists₁ delayed h₁))
  where
    p : ℕ
    p = s.pool.priority c

    s₁ : Sys
    s₁ = PreemptiveSp.add_to_ready_list c (set_state c ready s)

    lists₁ : ℕ → List ℕ
    lists₁ = update lists p (lists p ++ c ∷ [])

    place₁ : ℕ → Place
    place₁ = update place c (in_ready p)

    h₁ : Holds s₁ place₁ lists₁ delayed
    h₁ =
        add_to_ready_list-Holds c (set_state c ready s) place lists delayed
          (Holds-same s (set_state c ready s) place lists delayed refl refl refl refl h) small
          in_range away

    by_preemptive : Scheduler.add_to_ready_list c (set_state c ready s) ≡ s₁
    by_preemptive = add_by_preemptive c (set_state c ready s) a

    a₁ : active s₁ ≡ some preemptive_sp
    a₁ =
        ap (λ s. active s) (sym by_preemptive)
        ∙ ap active_in (view-add_to_ready_list c (set_state c ready s))
        ∙ a

    steps : switch_context s ≡ run_next (PreemptiveSp.get_next_task s₁) s₁
    steps = switch_by c s s₁ not_suspended current (put_back-running c s a runs ∙ by_preemptive) a₁

    no_end : (xs : List ℕ) → xs ++ c ∷ [] ≡ [] → ⊥
    no_end [] e = cc
    no_end (x ∷ xs) e = cc

    by_choice :
        (next : Option ℕ)
        → Chosen lists₁ max_task_priorities next
        → Switched lists₁ place₁ delayed (run_next next s₁)
    by_choice next (idle none_next all) =
        absurd (no_end (lists p) (sym (update_self lists p (lists p ++ c ∷ [])) ∙ all p in_range))
    by_choice next (pick q t rest got lt is above) =
        let (current', running', holds) =
          running_first q t rest s₁ place₁ lists₁ delayed a₁ h₁ lt is in
        rw got (switched q t rest lt is above current' running' holds)
