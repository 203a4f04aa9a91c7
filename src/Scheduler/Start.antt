-- ===== src/Scheduler/Start.antt =====
-- The scheduler after its initialisation, where the preemptive one is chosen.
use vrtos.Base.{ℕ, ◌≡◌, refl, false, true, none, some, ap, if◌then◌else◌}
use vrtos.State.{Sys, success, preemptive_sp}
use vrtos.Scheduler.{
  init, find_interface, find_in, same_type, init_interface, finish_init, add_to_ready_list,
  add_to_ready_by,
}
use vrtos.Scheduler.PreemptiveSp

-- Empty lists, and calls that go to the preemptive scheduler.
abbrev pub started : Sys → Sys
started s = record s {
  preemptive = record { ready_lists = λ _. none; delayed_list = none; ready_priorities = 0 };
  scheduler = record {
    vtable = some preemptive_sp;
    type = preemptive_sp;
    private_data = some preemptive_sp;
    initialized = true;
  };
}

pub init-started :
    (s : Sys) → s.scheduler.initialized ≡ false → init preemptive_sp s ≡ (started s, success)
unfolding init find_interface find_in same_type init_interface finish_init PreemptiveSp.init
init-started s fresh = rw fresh refl

pub add_to_ready_list-started :
    (t : ℕ) (s : Sys)
    → s.scheduler ≡ (started s).scheduler
    → add_to_ready_list t s ≡ PreemptiveSp.add_to_ready_list t s
unfolding add_to_ready_list add_to_ready_by
add_to_ready_list-started t s e =
    ap (λ i. add_to_ready_by (if i.initialized then i.vtable else none) t s) e
