-- ===== src/ThreadTool.antt =====
-- `ThreadTool::test1` and its tasks in cpp/qt/thread/threadtool.h, with the receiver `MainMsg` of
-- cpp/qt/thread/InstanceSignal.h.
pub mod Workers
pub mod Signals
pub mod Serving
pub mod Room
pub mod Deadlock
pub mod Examples
use code_study_example.Shared.{
  ℕ, zero, suc, ◌≤◌, ◌<◌, ◌≡◌, ◌⊎◌, List, [], ◌∷◌, ◌++◌, Bool, true, false, length,
}

-- A task in `run`: how many seconds of its loop are over, and then in `emit`.
pub data Task : Type 0 where
  working : ℕ → Task
  emitting : Task

-- The main thread in `test1`: how many tasks it has started, in the destructor of the pool, which
-- waits for all tasks, and after it, when it comes to its event loop.
pub data Main : Type 0 where
  starting : ℕ → Main
  in_destructor : Main
  returned : Main

-- `connected` is whether there is a `MainMsg`: it lives in the main thread, and its connection is a
-- Qt::BlockingQueuedConnection.
pub record Pool : Type 0 where
  pub connected : Bool
  pub main : Main
  pub active : List Task
  pub queue : ℕ

abbrev pub max_thread_count : ℕ
max_thread_count = 3

abbrev pub task_count : ℕ
task_count = 6

unfoldable pub new_pool : Bool → Pool
new_pool connected = record { connected = connected; main = starting 0; active = []; queue = 0 }

-- A thread that has finished a task takes the next one from the queue.
unfoldable pub next_task : List Task → ℕ → List Task × ℕ
next_task active zero = (active, zero)
next_task active (suc queue) = (active ++ working 0 ∷ [], queue)

pub data Step (s : Pool) : Pool → Type 0 where
  starts :
      (n : ℕ)
      → s.main ≡ starting n
      → n < task_count
      → length s.active < max_thread_count
      → Step s (record s { main = starting (suc n); active = s.active ++ working 0 ∷ [] })
  queues :
      (n : ℕ)
      → s.main ≡ starting n
      → n < task_count
      → max_thread_count ≤ length s.active
      → Step s (record s { main = starting (suc n); queue = suc s.queue })
  leaves : s.main ≡ starting task_count → Step s (record s { main = in_destructor })
  works :
      (n : ℕ) (before after : List Task)
      → s.active ≡ before ++ working n ∷ after
      → n < 2
      → Step s (record s { active = before ++ working (suc n) ∷ after })
  emits :
      (before after : List Task)
      → s.active ≡ before ++ working 2 ∷ after
      → Step s (record s { active = before ++ emitting ∷ after })
  -- `emit` returns: at once where nobody is connected, and else when the event loop of the main
  -- thread has called the slot.
  finishes :
      (before after : List Task)
      → s.active ≡ before ++ emitting ∷ after
      → (s.connected ≡ false) ⊎ (s.main ≡ returned)
      → Step s (record s {
        active = (next_task (before ++ after) s.queue).0;
        queue = (next_task (before ++ after) s.queue).1;
      })
  leaves_destructor :
      s.main ≡ in_destructor → s.active ≡ [] → s.queue ≡ 0 → Step s (record s { main = returned })

pub data Run (connected : Bool) : Pool → Type 0 where
  here : Run connected (new_pool connected)
  then_step : {s t : Pool} → Run connected s → Step s t → Run connected t
