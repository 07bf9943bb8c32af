-- ===== src/TaskThread/Examples.antt =====
-- Runs of the task thread of cpp/ex/task_thread/task_thread.hpp.
use mathlib.Core.List.{Perm}
use code_study_example.TaskThread.{
  TaskItem, TaskThread, locking, waiting, executing, stopped, absent, joining, joined, construct,
  go_on, take_task, return_from_task, tick, post, post_sync, Steps, here, next, post_delayed_task,
  post_task_sync,
}
use code_study_example.TaskThread.Due.{each_task_once}
use code_study_example.TaskThread.Order.{Drain, none_yet, then, Ordered, starts_in_order}
use code_study_example.TaskThread.Draining.{all_tasks_start}
use code_study_example.TaskThread.Shutdown.{destructor_returns_iff, lost_wake_up}
use code_study_example.Shared.{
  ℕ, ◌≤◌, ◌≡◌, ◌≢◌, ◌↔◌, refl, List, [], ◌∷◌, ◌++◌, All, map, arith, true, false,
}
use code_study_example.Shared.Int.{pos}

abbrev item : ℕ → ℕ → TaskItem
item task exec_time = record { task = task; exec_time = exec_time }

-- Task 1 was posted for 2000 ms later and task 2 for now; task 2 has been started.
abbrev second_started : TaskThread
second_started = record {
  running = true;
  loop = executing (item 2 50);
  destructor = absent;
  task_queue = item 1 2050 ∷ [];
  now = 50;
  started = (item 2 50, 50) ∷ [];
  posted = item 2 50 ∷ item 1 2050 ∷ [];
  unsent = 2;
}

run_second : Steps false (construct 50) second_started
unfolding post_delayed_task post_task_sync
run_second =
    next (next (next (next here (post 1 (pos 2000) refl)) (post_sync 2 refl)) (go_on refl refl))
      (take_task [] (item 1 2050 ∷ []) (item 2 50) refl refl (omega arith) (omega arith))

each_task_once_example :
    Perm second_started.posted (map (λ p. p.0) second_started.started ++ second_started.task_queue)
each_task_once_example = each_task_once run_second

all_tasks_start_example :
    (t : TaskThread) × Steps false second_started t
    × (t.task_queue ≡ [])
    × Perm second_started.posted (map (λ p. p.0) t.started)
all_tasks_start_example = all_tasks_start run_second refl

abbrev drained : TaskThread
drained = record second_started {
  loop = executing (item 1 2050);
  task_queue = [];
  now = 2050;
  started = (item 1 2050, 2050) ∷ (item 2 50, 50) ∷ [];
}

run_drained : Drain false second_started drained
run_drained =
    then
      (then (then (then none_yet (return_from_task (item 2 50) refl) refl) (go_on refl refl) refl)
        (tick 2000) refl)
      (take_task [] [] (item 1 2050) refl refl tt (omega arith)) refl

starts_in_order_example :
    (fresh : List (TaskItem × ℕ)) × (drained.started ≡ fresh ++ second_started.started)
    × Ordered fresh
    × All (λ i. All (λ p. p.0.exec_time ≤ i.exec_time) fresh) drained.task_queue
starts_in_order_example = starts_in_order run_drained

-- The worker has read `running_` as true when the destructor clears it and notifies.
abbrev joined_too_early : TaskThread
joined_too_early = record (construct 0) { running = false; loop = locking; destructor = joining }

destructor_returns_iff_example :
    ((t : TaskThread) × Steps false joined_too_early t × (t.destructor ≡ joined))
    ↔ ((locking ≢ waiting) × ¬ ((locking ≡ locking) × (joined_too_early.task_queue ≡ [])))
destructor_returns_iff_example =
    destructor_returns_iff joined_too_early (record { cleared = refl; joins = refl; sent = refl })

lost_wake_up_example :
    (t : TaskThread) × Steps false (record (construct 0) { loop = locking }) t
    × ((u : TaskThread) → Steps false t u → (u.destructor ≡ joining) × (u.loop ≢ stopped))
lost_wake_up_example = lost_wake_up (record (construct 0) { loop = locking }) refl refl refl refl
