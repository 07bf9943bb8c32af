-- ===== src/TaskThread/Due.antt =====
-- No task of cpp/ex/task_thread/task_thread.hpp starts early, is lost or starts twice.
use mathlib.Core.List.{Perm, perm_middle}
use mathlib.Core.List.Perm
use code_study_example.TaskThread.{
  TaskItem, TaskThread, construct, Step, take_task, post, post_sync, Steps, here, next,
  post_delayed_task, post_task_sync,
}
use code_study_example.Shared.{ℕ, ◌≤◌, ◌≡◌, List, [], ◌∷◌, ◌++◌, All, map, append_assoc, Bool}

-- Every task that was started was due.
abbrev pub AllDue : List (TaskItem × ℕ) → Type 0
AllDue = All (λ p. p.0.exec_time ≤ p.1)

Step-AllDue : {sp : Bool} {s t : TaskThread} → Step sp s t → AllDue s.started → AllDue t.started
unfolding post_delayed_task post_task_sync
Step-AllDue (take_task xs ys i at q least due) d = (due, d)
Step-AllDue _ d = d

-- No task starts before the time at which it is to be executed, in whatever order the threads run.
pub starts_when_due :
    {sp : Bool} {now : ℕ} {t : TaskThread}
    → Steps sp (construct now) t
    → All (λ p. p.0.exec_time ≤ p.1) t.started
starts_when_due here = tt
starts_when_due (next r st) = Step-AllDue st (starts_when_due r)

abbrev started_items : TaskThread → List TaskItem
started_items s = map (λ p. p.0) s.started

abbrev pub Kept : TaskThread → Type 0
Kept s = Perm s.posted (started_items s ++ s.task_queue)

post-Kept :
    (i : TaskItem) (ps ls q : List TaskItem) → Perm ps (ls ++ q) → Perm (i ∷ ps) (ls ++ (i ∷ q))
post-Kept i ps ls q h = Perm.trans (Perm.cons i h) (Perm.symm (perm_middle ls q))

take-Kept :
    (i : TaskItem) (ps ls xs ys q : List TaskItem)
    → q ≡ xs ++ (i ∷ ys)
    → Perm ps (ls ++ q)
    → Perm ps ((i ∷ ls) ++ (xs ++ ys))
take-Kept i ps ls xs ys q e h =
    Perm.trans h
      (rw (e, ← append_assoc ls xs (i ∷ ys), ← append_assoc ls xs ys) (perm_middle (ls ++ xs) ys))

pub Step-Kept : {sp : Bool} {s t : TaskThread} → Step sp s t → Kept s → Kept t
unfolding post_delayed_task post_task_sync
Step-Kept {s} (take_task xs ys i at q least due) k =
    take-Kept i s.posted (started_items s) xs ys s.task_queue q k
Step-Kept {s} (post task delay d) k = post-Kept _ s.posted (started_items s) s.task_queue k
Step-Kept {s} (post_sync task d) k = post-Kept _ s.posted (started_items s) s.task_queue k
Step-Kept _ k = k

-- The tasks that were started and those in the queue are together exactly those that were posted,
-- each as often as it was posted: none is lost and none starts twice.
pub each_task_once :
    {sp : Bool} {now : ℕ} {t : TaskThread}
    → Steps sp (construct now) t
    → Perm t.posted (map (λ p. p.0) t.started ++ t.task_queue)
each_task_once here = Perm.refl []
each_task_once (next r st) = Step-Kept st (each_task_once r)
