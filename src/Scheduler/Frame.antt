-- ===== src/Scheduler/Frame.antt =====
-- What the scheduler's calls leave alone: the fields of the tasks and of the objects that the
-- synchronisation code works on. The calls of scheduler.c go to one of three schedulers, and each of
-- them writes to the links, the states and the private data only.
use vrtos.Base.{ℕ, ◌≡◌, refl, Bool, true, false, Option, none, some, leb, if◌then◌else◌, is_null}
use vrtos.State.{
  Sys, Kernel, Instance, Object, SyncType, SchedulerType, preemptive_sp, cooperative, round_robin,
  Mutexes, Semaphores, EventGroups, Queues,
}
use vrtos.Scheduler.{
  active, add_to_ready_list, remove_from_ready_list, add_to_delayed_list, remove_from_delayed_list,
  should_preempt, add_to_ready_by, remove_from_ready_by, add_to_delayed_by, remove_from_delayed_by,
  should_preempt_by,
}
use vrtos.Scheduler.PreemptiveSp
use vrtos.Scheduler.RoundRobin
use vrtos.Scheduler.Cooperative

pub record View : Type 0 where
  pub next_waiting : ℕ → Option ℕ
  pub blocked_on : ℕ → Option Object
  pub blocked_on_type : ℕ → SyncType
  pub priority : ℕ → ℕ
  pub base_priority : ℕ → ℕ
  pub held_mutex_list : ℕ → Option ℕ
  pub event_wait_bits : ℕ → ℕ
  pub notification_value : ℕ → ℕ
  pub notification_pending : ℕ → ℕ
  pub task_function : ℕ → Option ℕ
  pub stack_base : ℕ → Option ℕ
  pub stack_top : ℕ → ℕ
  pub mutexes : Mutexes
  pub semaphores : Semaphores
  pub event_groups : EventGroups
  pub queues : Queues
  pub bytes : ℕ → ℕ
  pub heap_index : ℕ
  pub kernel : Kernel
  pub scheduler : Instance

abbrev pub view : Sys → View
view s = record {
  next_waiting = s.pool.next_waiting;
  blocked_on = s.pool.blocked_on;
  blocked_on_type = s.pool.blocked_on_type;
  priority = s.pool.priority;
  base_priority = s.pool.base_priority;
  held_mutex_list = s.pool.held_mutex_list;
  event_wait_bits = s.pool.event_wait_bits;
  notification_value = s.pool.notification_value;
  notification_pending = s.pool.notification_pending;
  task_function = s.pool.task_function;
  stack_base = s.pool.stack_base;
  stack_top = s.pool.stack_top;
  mutexes = s.mutexes;
  semaphores = s.semaphores;
  event_groups = s.event_groups;
  queues = s.queues;
  bytes = s.bytes;
  heap_index = s.heap_index;
  kernel = s.kernel;
  scheduler = s.scheduler;
}

-- Either branch of a conditional.
pub view_if :
    (b : Bool) (x y : Sys) (v : View) → view x ≡ v → view y ≡ v → view (if b then x else y) ≡ v
view_if true x y v p q = p
view_if false x y v p q = q

preemptive_add :
    (t p : ℕ) (head : Option ℕ) (s : Sys) → view (PreemptiveSp.append_ready t p head s) ≡ view s
unfolding PreemptiveSp.append_ready
preemptive_add t p none s = refl
preemptive_add t p (some h) s = refl

cooperative_add :
    (t : ℕ) (head : Option ℕ) (s : Sys) → view (Cooperative.append_ready t head s) ≡ view s
unfolding Cooperative.append_ready
cooperative_add t none s = refl
cooperative_add t (some h) s = refl

round_robin_add :
    (t : ℕ) (head : Option ℕ) (s : Sys) → view (RoundRobin.append_ready t head s) ≡ view s
unfolding RoundRobin.append_ready
round_robin_add t none s = refl
round_robin_add t (some h) s = refl

-- A task is put into the ready list: what the view shows stays.
pub view-add_to_ready_list : (t : ℕ) (s : Sys) → view (add_to_ready_list t s) ≡ view s
unfolding add_to_ready_list PreemptiveSp.add_to_ready_list Cooperative.add_to_ready_list
    RoundRobin.add_to_ready_list
view-add_to_ready_list t s = go (active s)
  where
    go : (a : Option SchedulerType) → view (add_to_ready_by a t s) ≡ view s
    go none = refl
    go (some preemptive_sp) =
        view_if (leb 8 (s.pool.priority t)) s _ (view s) refl
          (preemptive_add t (s.pool.priority t) (s.preemptive.ready_lists (s.pool.priority t)) _)
    go (some cooperative) = cooperative_add t s.coop.ready_list _
    go (some round_robin) = round_robin_add t s.rr.ready_list _

pub view-remove_from_ready_list : (t : ℕ) (s : Sys) → view (remove_from_ready_list t s) ≡ view s
unfolding remove_from_ready_list PreemptiveSp.remove_from_ready_list
    Cooperative.remove_from_ready_list RoundRobin.remove_from_ready_list
view-remove_from_ready_list t s = go (active s)
  where
    go : (a : Option SchedulerType) → view (remove_from_ready_by a t s) ≡ view s
    go none = refl
    go (some preemptive_sp) = view_if (leb 8 (s.pool.priority t)) s _ (view s) refl refl
    go (some cooperative) = view_if (is_null s.coop.ready_list) s _ (view s) refl refl
    go (some round_robin) = view_if (is_null s.rr.ready_list) s _ (view s) refl refl

pub view-add_to_delayed_list :
    (t ticks : ℕ) (s : Sys) → view (add_to_delayed_list t ticks s) ≡ view s
unfolding add_to_delayed_list PreemptiveSp.add_to_delayed_list Cooperative.add_to_delayed_list
    RoundRobin.add_to_delayed_list
view-add_to_delayed_list t ticks s = go (active s)
  where
    go : (a : Option SchedulerType) → view (add_to_delayed_by a t ticks s) ≡ view s
    go none = refl
    go (some preemptive_sp) = refl
    go (some cooperative) = refl
    go (some round_robin) = refl

pub view-remove_from_delayed_list : (t : ℕ) (s : Sys) → view (remove_from_delayed_list t s) ≡ view s
unfolding remove_from_delayed_list PreemptiveSp.remove_from_delayed_list
    Cooperative.remove_from_delayed_list RoundRobin.remove_from_delayed_list
view-remove_from_delayed_list t s = go (active s)
  where
    go : (a : Option SchedulerType) → view (remove_from_delayed_by a t s) ≡ view s
    go none = refl
    go (some preemptive_sp) = refl
    go (some cooperative) = view_if (is_null s.coop.delayed_list) s _ (view s) refl refl
    go (some round_robin) = view_if (is_null s.rr.delayed_list) s _ (view s) refl refl

-- The decision to preempt may count the time slice down: what the view shows stays.
pub view-should_preempt :
    (new_task : Option ℕ) (s : Sys) → view (should_preempt new_task s).0 ≡ view s
unfolding should_preempt RoundRobin.should_preempt
view-should_preempt new_task s = go (active s)
  where
    slice :
        (b : Bool) (x y : Sys × Bool)
        → view x.0 ≡ view s
        → view y.0 ≡ view s
        → view (if b then x else y).0 ≡ view s
    slice true x y p q = p
    slice false x y p q = q

    go : (a : Option SchedulerType) → view (should_preempt_by a new_task s).0 ≡ view s
    go none = refl
    go (some preemptive_sp) = refl
    go (some cooperative) = refl
    go (some round_robin) =
        slice (RoundRobin.same_task new_task s.kernel.current_task) _ (s, false) refl refl

-- Moving a task in or out of the ready list leaves the states of the tasks too.
pub add_to_ready_list-state : (t : ℕ) (s : Sys) → (add_to_ready_list t s).pool.state ≡ s.pool.state
unfolding add_to_ready_list PreemptiveSp.add_to_ready_list Cooperative.add_to_ready_list
    RoundRobin.add_to_ready_list PreemptiveSp.append_ready Cooperative.append_ready
    RoundRobin.append_ready
add_to_ready_list-state t s = go (active s)
  where
    by_priority :
        (b : Bool) (x : Sys)
        → x.pool.state ≡ s.pool.state
        → (if b then s else x).pool.state ≡ s.pool.state
    by_priority true x e = refl
    by_priority false x e = e

    preemptive :
        (p : ℕ) (head : Option ℕ) (r : Sys)
        → (PreemptiveSp.append_ready t p head r).pool.state ≡ r.pool.state
    preemptive p none r = refl
    preemptive p (some h) r = refl

    cooperatively :
        (head : Option ℕ) (r : Sys) → (Cooperative.append_ready t head r).pool.state ≡ r.pool.state
    cooperatively none r = refl
    cooperatively (some h) r = refl

    in_turn :
        (head : Option ℕ) (r : Sys) → (RoundRobin.append_ready t head r).pool.state ≡ r.pool.state
    in_turn none r = refl
    in_turn (some h) r = refl

    go : (a : Option SchedulerType) → (add_to_ready_by a t s).pool.state ≡ s.pool.state
    go none = refl
    go (some preemptive_sp) =
        by_priority (leb 8 (s.pool.priority t)) _
          (preemptive (s.pool.priority t) (s.preemptive.ready_lists (s.pool.priority t)) _)
    go (some cooperative) = cooperatively s.coop.ready_list _
    go (some round_robin) = in_turn s.rr.ready_list _

pub remove_from_ready_list-state :
    (t : ℕ) (s : Sys) → (remove_from_ready_list t s).pool.state ≡ s.pool.state
unfolding remove_from_ready_list PreemptiveSp.remove_from_ready_list
    Cooperative.remove_from_ready_list RoundRobin.remove_from_ready_list
remove_from_ready_list-state t s = go (active s)
  where
    either :
        (b : Bool) (x : Sys)
        → x.pool.state ≡ s.pool.state
        → (if b then s else x).pool.state ≡ s.pool.state
    either true x e = refl
    either false x e = e

    go : (a : Option SchedulerType) → (remove_from_ready_by a t s).pool.state ≡ s.pool.state
    go none = refl
    go (some preemptive_sp) = either (leb 8 (s.pool.priority t)) _ refl
    go (some cooperative) = either (is_null s.coop.ready_list) _ refl
    go (some round_robin) = either (is_null s.rr.ready_list) _ refl

pub remove_from_delayed_list-state :
    (t : ℕ) (s : Sys) → (remove_from_delayed_list t s).pool.state ≡ s.pool.state
unfolding remove_from_delayed_list PreemptiveSp.remove_from_delayed_list
    Cooperative.remove_from_delayed_list RoundRobin.remove_from_delayed_list
remove_from_delayed_list-state t s = go (active s)
  where
    either :
        (b : Bool) (x : Sys)
        → x.pool.state ≡ s.pool.state
        → (if b then s else x).pool.state ≡ s.pool.state
    either true x e = refl
    either false x e = e

    go : (a : Option SchedulerType) → (remove_from_delayed_by a t s).pool.state ≡ s.pool.state
    go none = refl
    go (some preemptive_sp) = refl
    go (some cooperative) = either (is_null s.coop.delayed_list) _ refl
    go (some round_robin) = either (is_null s.rr.delayed_list) _ refl

-- The decision to preempt leaves all tasks.
pub should_preempt-pool :
    (new_task : Option ℕ) (s : Sys) → (should_preempt new_task s).0.pool ≡ s.pool
unfolding should_preempt RoundRobin.should_preempt
should_preempt-pool new_task s = go (active s)
  where
    slice :
        (b : Bool) (x y : Sys × Bool)
        → x.0.pool ≡ s.pool
        → y.0.pool ≡ s.pool
        → (if b then x else y).0.pool ≡ s.pool
    slice true x y p q = p
    slice false x y p q = q

    go : (a : Option SchedulerType) → (should_preempt_by a new_task s).0.pool ≡ s.pool
    go none = refl
    go (some preemptive_sp) = refl
    go (some cooperative) = refl
    go (some round_robin) =
        slice (RoundRobin.same_task new_task s.kernel.current_task) _ (s, false) refl refl
