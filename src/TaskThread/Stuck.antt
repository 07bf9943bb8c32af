-- ===== src/TaskThread/Stuck.antt =====
-- The worker of cpp/ex/task_thread/task_thread.hpp asleep under a destructor that joins it.
use code_study_example.TaskThread.{
  TaskItem, TaskThread, locking, waiting, joining, Step, go_on, leave, sleep, sleep_until,
  take_task, return_from_task, time_out, wake, tick, post, post_sync, notify_one, clear_running,
  notify_all, join, Steps, here, next, post_delayed_task, post_task_sync,
}
use code_study_example.Shared.{
  ◌≡◌, ◌≢◌, ◌⊎◌, inl, inr, refl, false, List, [], ◌∷◌, ◌++◌, arith, sym, ◌∙◌,
}

-- The destructor is in `join`, and every thread that posted has notified.
pub record IsJoining (s : TaskThread) : Type 0 where
  pub cleared : s.running ≡ false
  pub joins : s.destructor ≡ joining
  pub sent : s.unsent ≡ 0

abbrev pub Stuck : TaskThread → Type 0
Stuck s = (s.loop ≡ waiting) ⊎ ((s.loop ≡ locking) × (s.task_queue ≡ []))

abbrev pub IsStuck : TaskThread → Type 0
IsStuck s = IsJoining s × Stuck s

middle-ne-nil : (xs ys : List TaskItem) (i : TaskItem) → xs ++ (i ∷ ys) ≢ []
middle-ne-nil [] ys i e = cc
middle-ne-nil (x ∷ xs) ys i e = cc

not-Stuck :
    (s : TaskThread) (xs ys : List TaskItem) (i : TaskItem)
    → s.loop ≡ locking
    → s.task_queue ≡ xs ++ (i ∷ ys)
    → ¬ (Stuck s)
not-Stuck s xs ys i l q (inl w) = cc
not-Stuck s xs ys i l q (inr (k, e)) = middle-ne-nil xs ys i (sym q ∙ e)

Step-IsStuck : {s t : TaskThread} → Step false s t → IsStuck s → IsStuck t
unfolding post_delayed_task post_task_sync
Step-IsStuck (go_on c r) (j, w) = absurd (ground arith)
Step-IsStuck (leave c r) (j, w) = absurd (ground arith)
Step-IsStuck (sleep l q) (j, w) =
    (record { cleared = j.cleared; joins = j.joins; sent = j.sent }, inl refl)
Step-IsStuck {s} (sleep_until xs ys i l q e u) (j, w) = absurd (not-Stuck s xs ys i l q w)
Step-IsStuck {s} (take_task xs ys i l q e u) (j, w) = absurd (not-Stuck s xs ys i l q w)
Step-IsStuck (return_from_task i l) (j, w) = absurd (ground arith)
Step-IsStuck (time_out t l u) (j, w) = absurd (ground arith)
Step-IsStuck (wake e) (j, w) = absurd (ground arith)
Step-IsStuck (tick n) (j, w) = (record { cleared = j.cleared; joins = j.joins; sent = j.sent }, w)
Step-IsStuck (post task d a) (j, w) = absurd (ground arith)
Step-IsStuck (post_sync task a) (j, w) = absurd (ground arith)
Step-IsStuck (notify_one n e) (j, w) = absurd (ground arith)
Step-IsStuck (clear_running a) (j, w) = absurd (ground arith)
Step-IsStuck (notify_all a) (j, w) = absurd (ground arith)
Step-IsStuck (join d l) (j, w) = absurd (ground arith)

pub Steps-IsStuck : {s t : TaskThread} → Steps false s t → IsStuck s → IsStuck t
Steps-IsStuck here w = w
Steps-IsStuck (next r st) w = Step-IsStuck st (Steps-IsStuck r w)
