-- ===== src/TaskThread.antt =====
-- The task thread of cpp/ex/task_thread/task_thread.hpp: its worker loop, the threads that post
-- tasks and the destructor, interleaved. A section under the mutex is one step. The priority queue
-- is a list whose order says nothing: which of several earliest tasks `top` gives is left open.
pub mod Due
pub mod Order
pub mod Stuck
pub mod Returning
pub mod Shutdown
pub mod Awake
pub mod Draining
mod Examples
use code_study_example.Shared.{
  ℕ, suc, ◌+◌, ◌-◌, ◌≤◌, ◌<◌, ◌≡◌, Bool, true, false, List, [], ◌∷◌, ◌++◌, All,
}
use code_study_example.Shared.Int.{ℤ, pos, negsuc}

-- `TaskItem`; `task` stands for `func`. Its field `id` is never set or read.
pub record TaskItem : Type 0 where
  pub task : ℕ
  pub exec_time : ℕ

-- Where the worker stands in `ThreadLoop`.
pub data Loop : Type 0 where
  checking : Loop  -- `while (running_)`
  locking : Loop  -- before the lock, with the test passed
  waiting : Loop  -- in `cv_.wait`
  waiting_until : ℕ → Loop  -- in `cv_.wait_until`
  executing : TaskItem → Loop  -- in `task()`
  stopped : Loop

-- Where the thread that destroys the object stands.
pub data Destructor : Type 0 where
  absent : Destructor
  flagged : Destructor  -- `running_` is cleared
  joining : Destructor  -- in `thread_.join()`
  joined : Destructor

-- `now` is the steady clock; `started` lists the tasks that were taken, with the time, latest first,
-- and `posted` all that were ever put into the queue. `unsent` counts the threads that have put a
-- task into the queue and have not called `notify_one` yet.
pub record TaskThread : Type 0 where
  pub running : Bool
  pub loop : Loop
  pub destructor : Destructor
  pub task_queue : List TaskItem
  pub now : ℕ
  pub started : List (TaskItem × ℕ)
  pub posted : List TaskItem
  pub unsent : ℕ

-- The constructor of the class; the worker has just been started.
abbrev pub construct : ℕ → TaskThread
construct now = record {
  running = true;
  loop = checking;
  destructor = absent;
  task_queue = [];
  now = now;
  started = [];
  posted = [];
  unsent = 0;
}

-- For the worker, `notify_one` and `notify_all`, with the worker as the only thread that waits: it goes on to
-- `continue` and so to the test of the loop.
abbrev pub notify : Loop → Loop
notify waiting = checking
notify (waiting_until t) = checking
notify l = l

-- `steady_clock::now() + milliseconds(delay_ms)`, in milliseconds.
unfoldable pub exec_time_of : ℕ → ℤ → ℕ
exec_time_of now (pos delay) = now + delay
exec_time_of now (negsuc n) = now - suc n

abbrev pub post_item : TaskItem → TaskThread → TaskThread
post_item i s = record s {
  task_queue = i ∷ s.task_queue;
  posted = i ∷ s.posted;
  unsent = suc s.unsent;
}

unfoldable pub post_delayed_task : ℕ → ℤ → TaskThread → TaskThread
unfolding exec_time_of
post_delayed_task task delay_ms s =
    post_item (record { task = task; exec_time = exec_time_of s.now delay_ms }) s

unfoldable pub post_task : ℕ → TaskThread → TaskThread
unfolding post_delayed_task
post_task task s = post_delayed_task task (pos 0) s

-- What `PostTaskSync` does before it notifies and blocks on its future.
unfoldable pub post_task_sync : ℕ → TaskThread → TaskThread
post_task_sync task s = post_item (record { task = task; exec_time = s.now }) s

-- No item of the list is due before `i`.
abbrev pub Earliest : TaskItem → List TaskItem → Type 0
Earliest i = All (λ j. i.exec_time ≤ j.exec_time)

-- `spurious` says whether a wait may end with neither a notification nor its time. Posting to an
-- object whose destructor has begun is not a step: the caller may not do it.
pub data Step (spurious : Bool) (s : TaskThread) : TaskThread → Type 0 where
  go_on : s.loop ≡ checking → s.running ≡ true → Step spurious s (record s { loop = locking })
  leave : s.loop ≡ checking → s.running ≡ false → Step spurious s (record s { loop = stopped })
  sleep : s.loop ≡ locking → s.task_queue ≡ [] → Step spurious s (record s { loop = waiting })
  sleep_until :
      (xs ys : List TaskItem) (i : TaskItem)
      → s.loop ≡ locking
      → s.task_queue ≡ xs ++ (i ∷ ys)
      → Earliest i (xs ++ ys)
      → s.now < i.exec_time
      → Step spurious s (record s { loop = waiting_until i.exec_time })
  take_task :
      (xs ys : List TaskItem) (i : TaskItem)
      → s.loop ≡ locking
      → s.task_queue ≡ xs ++ (i ∷ ys)
      → Earliest i (xs ++ ys)
      → i.exec_time ≤ s.now
      → Step spurious s
          (record s { loop = executing i; task_queue = xs ++ ys; started = (i, s.now) ∷ s.started })
  return_from_task :
      (i : TaskItem) → s.loop ≡ executing i → Step spurious s (record s { loop = checking })
  time_out :
      (t : ℕ)
      → s.loop ≡ waiting_until t
      → t ≤ s.now
      → Step spurious s (record s { loop = checking })
  wake : spurious ≡ true → Step spurious s (record s { loop = notify s.loop })
  tick : (n : ℕ) → Step spurious s (record s { now = s.now + n })
  post :
      (task : ℕ) (delay_ms : ℤ)
      → s.destructor ≡ absent
      → Step spurious s (post_delayed_task task delay_ms s)
  post_sync : (task : ℕ) → s.destructor ≡ absent → Step spurious s (post_task_sync task s)
  notify_one :
      (n : ℕ) → s.unsent ≡ suc n → Step spurious s (record s { unsent = n; loop = notify s.loop })
  clear_running :
      s.destructor ≡ absent → Step spurious s (record s { destructor = flagged; running = false })
  notify_all :
      s.destructor ≡ flagged
      → Step spurious s (record s { destructor = joining; loop = notify s.loop })
  join :
      s.destructor ≡ joining → s.loop ≡ stopped → Step spurious s (record s { destructor = joined })

pub data Steps (spurious : Bool) (s : TaskThread) : TaskThread → Type 0 where
  here : Steps spurious s s
  next : {t u : TaskThread} → Steps spurious s t → Step spurious t u → Steps spurious s u
