-- ===== src/Kernel/Seen.antt =====
-- What the calls of preemptive_sp.c leave alone, as the invariant of the kernel needs it, and the states,
-- where a call leaves them.
use vrtos.Base.{
  ℕ, zero, suc, ◌∙◌, ◌≡◌, refl, Bool, true, false, Option, none, some, leb, if◌then◌else◌,
  signed_ge,
}
use vrtos.State.{Sys, Kernel, Instance, KernelState, TaskState, max_tasks, max_task_priorities}
use vrtos.Scheduler.PreemptiveSp.{
  append_ready, add_to_ready_list, remove_from_ready_list, remove_from_delayed_list, wake,
  wake_expired, update_delayed_tasks,
}

pub record Outline : Type 0 where
  pub scheduler : Instance
  pub kernel_state : KernelState
  pub task_function : ℕ → Option ℕ
  pub priority : ℕ → ℕ

pub record Seen : Type 0 where
  pub outline_of : Outline
  pub open outline_of use *
  pub tick_count : ℕ
  pub delay_until : ℕ → ℕ

abbrev pub outline : Sys → Outline
outline s = record {
  scheduler = s.scheduler;
  kernel_state = s.kernel.state;
  task_function = s.pool.task_function;
  priority = s.pool.priority;
}

abbrev pub seen : Sys → Seen
seen s = record {
  outline_of = outline s;
  tick_count = s.kernel.tick_count;
  delay_until = s.pool.delay_until;
}

-- Either branch of a conditional.
either :
    {A : Type 0} (f : Sys → A) (b : Bool) (x y : Sys) (v : A)
    → f x ≡ v
    → f y ≡ v
    → f (if b then x else y) ≡ v
either f true x y v p q = p
either f false x y v p q = q

abbrev states : Sys → ℕ → TaskState
states s = s.pool.state

abbrev kernel_of : Sys → Kernel
kernel_of s = s.kernel

seen-append : (t p : ℕ) (head : Option ℕ) (s : Sys) → seen (append_ready t p head s) ≡ seen s
unfolding append_ready
seen-append t p none s = refl
seen-append t p (some h) s = refl

state-append : (t p : ℕ) (head : Option ℕ) (s : Sys) → states (append_ready t p head s) ≡ states s
unfolding append_ready
state-append t p none s = refl
state-append t p (some h) s = refl

pub seen-add_to_ready_list : (t : ℕ) (s : Sys) → seen (add_to_ready_list t s) ≡ seen s
unfolding add_to_ready_list
seen-add_to_ready_list t s =
    either seen (leb max_task_priorities (s.pool.priority t)) s _ (seen s) refl
      (seen-append t (s.pool.priority t) (s.preemptive.ready_lists (s.pool.priority t)) _)

pub state-add_to_ready_list : (t : ℕ) (s : Sys) → (add_to_ready_list t s).pool.state ≡ s.pool.state
unfolding add_to_ready_list
state-add_to_ready_list t s =
    either states (leb max_task_priorities (s.pool.priority t)) s _ (states s) refl
      (state-append t (s.pool.priority t) (s.preemptive.ready_lists (s.pool.priority t)) _)

kernel-append :
    (t p : ℕ) (head : Option ℕ) (s : Sys) → kernel_of (append_ready t p head s) ≡ kernel_of s
unfolding append_ready
kernel-append t p none s = refl
kernel-append t p (some h) s = refl

pub kernel-add_to_ready_list : (t : ℕ) (s : Sys) → (add_to_ready_list t s).kernel ≡ s.kernel
unfolding add_to_ready_list
kernel-add_to_ready_list t s =
    either kernel_of (leb max_task_priorities (s.pool.priority t)) s _ (kernel_of s) refl
      (kernel-append t (s.pool.priority t) (s.preemptive.ready_lists (s.pool.priority t)) _)

pub kernel-remove_from_ready_list :
    (t : ℕ) (s : Sys) → (remove_from_ready_list t s).kernel ≡ s.kernel
unfolding remove_from_ready_list
kernel-remove_from_ready_list t s =
    either kernel_of (leb max_task_priorities (s.pool.priority t)) s _ (kernel_of s) refl refl

pub seen-remove_from_ready_list : (t : ℕ) (s : Sys) → seen (remove_from_ready_list t s) ≡ seen s
unfolding remove_from_ready_list
seen-remove_from_ready_list t s =
    either seen (leb max_task_priorities (s.pool.priority t)) s _ (seen s) refl refl

pub state-remove_from_ready_list :
    (t : ℕ) (s : Sys) → (remove_from_ready_list t s).pool.state ≡ s.pool.state
unfolding remove_from_ready_list
state-remove_from_ready_list t s =
    either states (leb max_task_priorities (s.pool.priority t)) s _ (states s) refl refl

pub seen-remove_from_delayed_list : (t : ℕ) (s : Sys) → seen (remove_from_delayed_list t s) ≡ seen s
unfolding remove_from_delayed_list
seen-remove_from_delayed_list t s = refl

pub state-remove_from_delayed_list :
    (t : ℕ) (s : Sys) → (remove_from_delayed_list t s).pool.state ≡ s.pool.state
unfolding remove_from_delayed_list
state-remove_from_delayed_list t s = refl

seen-wake : (t : ℕ) (s : Sys) → seen (wake t s) ≡ seen s
unfolding wake remove_from_delayed_list
seen-wake t s = seen-add_to_ready_list t _

seen-wake_expired : (f : ℕ) (p : Option ℕ) (s : Sys) → seen (wake_expired f p s) ≡ seen s
unfolding wake_expired
seen-wake_expired zero p s = refl
seen-wake_expired (suc f) none s = refl
seen-wake_expired (suc f) (some t) s =
    either seen (signed_ge s.kernel.tick_count (s.pool.delay_until t)) _ s (seen s)
      (seen-wake_expired f (s.pool.next t) (wake t s) ∙ seen-wake t s) refl

-- The pass of a tick over the delayed list.
pub seen-update_delayed_tasks : (s : Sys) → seen (update_delayed_tasks s) ≡ seen s
unfolding update_delayed_tasks
seen-update_delayed_tasks s = seen-wake_expired max_tasks s.preemptive.delayed_list s

kernel-wake : (t : ℕ) (s : Sys) → kernel_of (wake t s) ≡ kernel_of s
unfolding wake remove_from_delayed_list
kernel-wake t s = kernel-add_to_ready_list t _

kernel-wake_expired :
    (f : ℕ) (p : Option ℕ) (s : Sys) → kernel_of (wake_expired f p s) ≡ kernel_of s
unfolding wake_expired
kernel-wake_expired zero p s = refl
kernel-wake_expired (suc f) none s = refl
kernel-wake_expired (suc f) (some t) s =
    either kernel_of (signed_ge s.kernel.tick_count (s.pool.delay_until t)) _ s (kernel_of s)
      (kernel-wake_expired f (s.pool.next t) (wake t s) ∙ kernel-wake t s) refl

pub kernel-update_delayed_tasks : (s : Sys) → (update_delayed_tasks s).kernel ≡ s.kernel
unfolding update_delayed_tasks
kernel-update_delayed_tasks s = kernel-wake_expired max_tasks s.preemptive.delayed_list s
