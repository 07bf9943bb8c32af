-- ===== src/Semaphores/Examples.antt =====
-- A run of the programs of cpp/qt/SystemSemaphore.
use code_study_example.Semaphores.{System, waiting, acquiring, created, asks, Run, here, then_step}
use code_study_example.Semaphores.Turns.{waits_for_previous}
use code_study_example.Shared.{suc, ◌≤◌, ◌↔◌, refl}

abbrev asked_once : System
asked_once = record {
  start = 1;
  end = 1;
  server = acquiring;
  client = waiting;
  begun = 0;
  captured = 0;
  asked = 1;
  reported = 0;
}

asks_once : Run asked_once
unfolding created
asks_once = then_step created asked_once here (asks refl)

-- The wait for the first capture can end before one has begun.
waits_for_previous_example : (1 ≤ asked_once.end) ↔ (asked_once.asked ≤ suc asked_once.captured)
waits_for_previous_example = waits_for_previous asked_once asks_once refl
