-- ===== src/Process/Tests.antt =====
-- The theorems of the process queue and the scheduler at three processes.
use deprecat_os.Prelude.{◌*◌, ◌≡◌, refl, [], ◌∷◌, arith}
use deprecat_os.Circular.{window}
use deprecat_os.Process.Queue.{ProcessQueue}
use deprecat_os.Process.Queue.Refine.{IsValid, waiting, Refines, queue-Refines}
use deprecat_os.Process.Scheduler.{Scheduler}
use deprecat_os.Process.Scheduler.RoundRobin.{history, ticks, order, full_round}

-- Processes 1 and 2 wait, and 0 runs.
abbrev two_waiting : ProcessQueue
two_waiting = record { queue = λ k. k; head = 3; tail = 1 }

two_waiting-IsValid : IsValid two_waiting
two_waiting-IsValid = record { head_in = omega arith; tail_in = omega arith }

abbrev three : Scheduler
three = record {
  process = λ p. record { esp = 100 * p; stack_addr = 0; malloc_addr = 32768 * p };
  current = 0;
  ready = two_waiting;
  tss_esp = 0;
}

order_waiting : waiting two_waiting ≡ 1 ∷ 2 ∷ []
unfolding waiting window
order_waiting = refl

queue-Refines_example : Refines two_waiting
queue-Refines_example = queue-Refines two_waiting-IsValid

full_round_example :
    (history three (10 ∷ 20 ∷ 30 ∷ []) ≡ order three)
    × (order (ticks three (10 ∷ 20 ∷ 30 ∷ [])) ≡ order three)
    × IsValid (ticks three (10 ∷ 20 ∷ 30 ∷ [])).ready
unfolding waiting window
full_round_example =
    full_round three 1 (2 ∷ []) (10 ∷ 20 ∷ 30 ∷ []) two_waiting-IsValid order_waiting (omega arith)
      refl
