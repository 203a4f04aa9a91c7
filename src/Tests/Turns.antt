-- ===== src/Tests/Turns.antt =====
-- The theorems on the round-robin and the cooperative scheduler, on small systems.
use vrtos.Base.{ℕ, refl, arith, [], ◌∷◌, update}
use vrtos.State.{ready, Sys}
use vrtos.Scheduler.PreemptiveSp.Lists.{Place, nowhere, in_ready}
use vrtos.Scheduler.RoundRobin
use vrtos.Scheduler.RoundRobin.Lists.{InTurn, add_to_ready_list-InTurn, task_completed-InTurn}
use vrtos.Scheduler.Cooperative
use vrtos.Scheduler.Cooperative.Lists.{InLine, add_to_ready_list-InLine, task_completed-InLine}
use vrtos.Tests.{blank, nobody}

-- The round-robin lists: no task is in either, then task 4 is ready.
blank-InTurn : InTurn blank nobody [] []
blank-InTurn = record {
  ready_list = record { chain = refl; back = tt; distinct = tt; small = tt };
  tail = refl;
  ready_count = refl;
  delayed_list = record { chain = refl; back = tt; distinct = tt; small = tt };
  delayed_count = refl;
  ready_place = tt;
  delayed_place = tt;
}

abbrev first_turn : Sys
first_turn = RoundRobin.add_to_ready_list 4 blank

abbrev first_place : ℕ → Place
first_place = update nobody 4 (in_ready 0)

abbrev both_ready : Sys
both_ready = record (RoundRobin.add_to_ready_list 6 first_turn) {
  pool = record (RoundRobin.add_to_ready_list 6 first_turn).pool { state = λ _. ready };
}

both-InTurn :
    InTurn
      (RoundRobin.add_to_ready_list 6 first_turn)
      (update first_place 6 (in_ready 0))
      (4 ∷ 6 ∷ [])
      []
both-InTurn =
    add_to_ready_list-InTurn 6 first_turn first_place (4 ∷ []) []
      (add_to_ready_list-InTurn 4 blank nobody [] [] blank-InTurn (omega arith) refl) (omega arith)
      refl

all_ready-InTurn : InTurn both_ready (update first_place 6 (in_ready 0)) (4 ∷ 6 ∷ []) []
all_ready-InTurn = record {
  ready_list = both-InTurn.ready_list;
  tail = both-InTurn.tail;
  ready_count = both-InTurn.ready_count;
  delayed_list = both-InTurn.delayed_list;
  delayed_count = both-InTurn.delayed_count;
  ready_place = both-InTurn.ready_place;
  delayed_place = both-InTurn.delayed_place;
}

task_completed-InTurn_example :
    InTurn
      (RoundRobin.task_completed 4 both_ready)
      (update (update (update first_place 6 (in_ready 0)) 4 nowhere) 4 (in_ready 0))
      (6 ∷ 4 ∷ [])
      []
task_completed-InTurn_example =
    task_completed-InTurn 4 [] (6 ∷ []) both_ready (update first_place 6 (in_ready 0)) []
      all_ready-InTurn refl (omega arith)

-- The lists of the cooperative scheduler: no task is in either, then task 4 is ready.
blank-InLine : InLine blank nobody [] []
blank-InLine = record {
  ready_list = record { chain = refl; back = tt; distinct = tt; small = tt };
  ready_count = refl;
  delayed_list = record { chain = refl; back = tt; distinct = tt; small = tt };
  delayed_count = refl;
  ready_place = tt;
  delayed_place = tt;
}

abbrev first_in_line : Sys
first_in_line = Cooperative.add_to_ready_list 4 blank

abbrev line_place : ℕ → Place
line_place = update nobody 4 (in_ready 0)

abbrev both_in_line : Sys
both_in_line = record (Cooperative.add_to_ready_list 6 first_in_line) {
  pool = record (Cooperative.add_to_ready_list 6 first_in_line).pool { state = λ _. ready };
}

both-InLine :
    InLine
      (Cooperative.add_to_ready_list 6 first_in_line)
      (update line_place 6 (in_ready 0))
      (4 ∷ 6 ∷ [])
      []
both-InLine =
    add_to_ready_list-InLine 6 first_in_line line_place (4 ∷ []) []
      (add_to_ready_list-InLine 4 blank nobody [] [] blank-InLine (omega arith) refl) (omega arith)
      refl

all_ready-InLine : InLine both_in_line (update line_place 6 (in_ready 0)) (4 ∷ 6 ∷ []) []
all_ready-InLine = record {
  ready_list = both-InLine.ready_list;
  ready_count = both-InLine.ready_count;
  delayed_list = both-InLine.delayed_list;
  delayed_count = both-InLine.delayed_count;
  ready_place = both-InLine.ready_place;
  delayed_place = both-InLine.delayed_place;
}

task_completed-InLine_example :
    InLine
      (Cooperative.task_completed 4 both_in_line)
      (update (update (update line_place 6 (in_ready 0)) 4 nowhere) 4 (in_ready 0))
      (6 ∷ 4 ∷ [])
      []
task_completed-InLine_example =
    task_completed-InLine 4 [] (6 ∷ []) both_in_line (update line_place 6 (in_ready 0)) []
      all_ready-InLine refl (omega arith)
