-- ===== src/TaskThread/Order.antt =====
-- The order in which the tasks of cpp/ex/task_thread/task_thread.hpp start.
use code_study_example.TaskThread.{
  TaskItem, TaskThread, Step, take_task, post, post_sync, Earliest, post_delayed_task,
  post_task_sync,
}
use code_study_example.Shared.{ℕ, ◌≤◌, ◌≡◌, refl, ap, List, [], ◌∷◌, ◌++◌, All, length, arith, Bool}

-- A run in which nobody posts.
pub data Drain (spurious : Bool) (s : TaskThread) : TaskThread → Type 0 where
  none_yet : Drain spurious s s
  then :
      {t u : TaskThread}
      → Drain spurious s t
      → Step spurious t u
      → u.posted ≡ t.posted
      → Drain spurious s u

abbrev Before : TaskItem → List (TaskItem × ℕ) → Type 0
Before i = All (λ p. p.0.exec_time ≤ i.exec_time)

-- Latest first: nothing in the list was to be executed after what was started behind it.
abbrev pub Ordered : List (TaskItem × ℕ) → Type 0
Ordered [] = Unit {0}
Ordered ((i, t) ∷ ps) = Before i ps × Ordered ps

abbrev AllBefore : List (TaskItem × ℕ) → List TaskItem → Type 0
AllBefore ps q = All (λ i. Before i ps) q

abbrev Sorted : List (TaskItem × ℕ) → List (TaskItem × ℕ) → TaskThread → Type 0
Sorted old fresh t = (t.started ≡ fresh ++ old) × Ordered fresh × AllBefore fresh t.task_queue

All-middle {ℓ κ} :
    {A : Type ℓ} (P : A → Type κ) (xs ys : List A) (a : A)
    → All P (xs ++ (a ∷ ys))
    → P a × All P (xs ++ ys)
All-middle P [] ys a h = h
All-middle P (x ∷ xs) ys a h = let (here, rest) = All-middle P xs ys a h.1 in (here, (h.0, rest))

Earliest-Before :
    (i : TaskItem) (now : ℕ) (ps : List (TaskItem × ℕ)) (q : List TaskItem)
    → Earliest i q
    → AllBefore ps q
    → AllBefore ((i, now) ∷ ps) q
Earliest-Before i now ps [] e h = tt
Earliest-Before i now ps (j ∷ q) e h = ((e.0, h.0), Earliest-Before i now ps q e.1 h.1)

take-Sorted :
    (old fresh : List (TaskItem × ℕ)) (t : TaskThread) (i : TaskItem) (xs ys : List TaskItem)
    → t.task_queue ≡ xs ++ (i ∷ ys)
    → Earliest i (xs ++ ys)
    → Sorted old fresh t
    → (((i, t.now) ∷ t.started) ≡ ((i, t.now) ∷ fresh) ++ old)
      × Ordered ((i, t.now) ∷ fresh)
      × AllBefore ((i, t.now) ∷ fresh) (xs ++ ys)
take-Sorted old fresh t i xs ys q least (e, ordered, before) =
    let (mine, rest) = All-middle (λ j. Before j fresh) xs ys i (rw q at before) in
    (ap (◌∷◌ (i, t.now)) e, (mine, ordered), Earliest-Before i t.now fresh (xs ++ ys) least rest)

not-longer : (i : TaskItem) (ps : List TaskItem) → (i ∷ ps) ≡ ps → ⊥
not-longer i ps e = omega (arith, ap length e)

abbrev Fresh : List (TaskItem × ℕ) → TaskThread → Type 0
Fresh old t = (fresh : List (TaskItem × ℕ)) × Sorted old fresh t

Step-Sorted :
    {sp : Bool} {t u : TaskThread} (old : List (TaskItem × ℕ))
    → Step sp t u
    → u.posted ≡ t.posted
    → Fresh old t
    → Fresh old u
unfolding post_delayed_task post_task_sync
Step-Sorted {t} old (take_task xs ys i at q least due) e (fresh, h) =
    ((i, t.now) ∷ fresh, take-Sorted old fresh t i xs ys q least h)
Step-Sorted {t} old (post task delay d) e h = absurd (not-longer _ t.posted e)
Step-Sorted {t} old (post_sync task d) e h = absurd (not-longer _ t.posted e)
Step-Sorted old _ e h = h

All-nil-Before : (q : List TaskItem) → AllBefore [] q
All-nil-Before [] = tt
All-nil-Before (i ∷ q) = (tt, All-nil-Before q)

Drain-Fresh : {sp : Bool} {s t : TaskThread} → Drain sp s t → Fresh s.started t
Drain-Fresh {s} none_yet = ([], (refl, tt, All-nil-Before s.task_queue))
Drain-Fresh {s} (then r st e) = Step-Sorted s.started st e (Drain-Fresh r)

-- While nobody posts, tasks start in the order of the times at which they are to be executed, and
-- before every task that is still in the queue.
pub starts_in_order :
    {sp : Bool} {s t : TaskThread}
    → Drain sp s t
    → (fresh : List (TaskItem × ℕ)) × (t.started ≡ fresh ++ s.started)
      × Ordered fresh
      × All (λ i. All (λ p. p.0.exec_time ≤ i.exec_time) fresh) t.task_queue
starts_in_order r = let (fresh, sorted) = Drain-Fresh r in (fresh, sorted.0, sorted.1, sorted.2)
