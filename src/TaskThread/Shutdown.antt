-- ===== src/TaskThread/Shutdown.antt =====
-- When the destructor of cpp/ex/task_thread/task_thread.hpp returns. `running_` is cleared and
-- `notify_all` is called without the mutex, so both can fall between the worker's test of
-- `running_` and its wait.
use code_study_example.TaskThread.Stuck.{IsJoining, Stuck, IsStuck, Steps-IsStuck}
use code_study_example.TaskThread.Returning.{by_loop}
use code_study_example.TaskThread.{
  TaskThread, locking, waiting, stopped, absent, joining, joined, notify, sleep, clear_running,
  notify_all, Steps, here, next,
}
use code_study_example.Shared.{◌≡◌, ◌≢◌, ◌↔◌, inl, inr, refl, ap, false, [], arith, sym, ◌∙◌}

-- A destructor that is in `join`, with no notification outstanding and no wake-up that comes from
-- nowhere, can return exactly if the worker is not in `cv_.wait` and not between its test of
-- `running_` and the lock with an empty queue before it.
pub destructor_returns_iff :
    (s : TaskThread)
    → IsJoining s
    → ((t : TaskThread) × Steps false s t × (t.destructor ≡ joined))
      ↔ ((s.loop ≢ waiting) × ¬ ((s.loop ≡ locking) × (s.task_queue ≡ [])))
destructor_returns_iff s j = (
  λ (t, r, e). (
    λ w. joined-not-Stuck t (Steps-IsStuck r (j, inl w)) e,
    λ w. joined-not-Stuck t (Steps-IsStuck r (j, inr w)) e,
  ),
  λ (a, b). by_loop s s.loop refl j (either a b),
)
  where
    joined-not-Stuck : (t : TaskThread) → IsStuck t → t.destructor ≡ joined → ⊥
    joined-not-Stuck t (k, w) e = absurd (cc (sym e ∙ k.joins))

    either : s.loop ≢ waiting → ¬ ((s.loop ≡ locking) × (s.task_queue ≡ [])) → ¬ (Stuck s)
    either a b (inl w) = a w
    either a b (inr w) = b w

abbrev deserted : TaskThread → TaskThread
deserted s = record s { running = false; destructor = joining; loop = waiting }

-- The lost wake-up: from every state in which the worker has read `running_` as true and has an
-- empty queue before it, the destructor can clear `running_`, notify nobody and join a worker that
-- then goes to sleep for good.
pub lost_wake_up :
    (s : TaskThread)
    → s.loop ≡ locking
    → s.task_queue ≡ []
    → s.destructor ≡ absent
    → s.unsent ≡ 0
    → (t : TaskThread) × Steps false s t
      × ((u : TaskThread) → Steps false t u → (u.destructor ≡ joining) × (u.loop ≢ stopped))
lost_wake_up s l q d z = (
  deserted s,
  to_sleep,
  λ u r. for_good u (Steps-IsStuck r (record { cleared = refl; joins = refl; sent = z }, inl refl)),
)
  where
    for_good : (u : TaskThread) → IsStuck u → (u.destructor ≡ joining) × (u.loop ≢ stopped)
    for_good u (k, w) = (k.joins, λ e. ground arith)

    to_sleep : Steps false s (deserted s)
    to_sleep = next (next (next here (clear_running d)) (notify_all refl)) (sleep (ap notify l) q)
