-- ===== src/TaskThread/Draining.antt =====
-- That the worker of cpp/ex/task_thread/task_thread.hpp comes to every task.
use mathlib.Core.List.{Perm}
use code_study_example.TaskThread.Awake.{Awake, Steps-Awake, construct-Awake}
use code_study_example.TaskThread.Due.{each_task_once, Kept, Step-Kept}
use code_study_example.TaskThread.Returning.{Steps-trans, earliest_item, Split}
use code_study_example.TaskThread.{
  TaskItem, TaskThread, construct, Loop, checking, locking, waiting, waiting_until, executing,
  stopped, absent, Step, go_on, take_task, return_from_task, time_out, tick, notify_one, notify,
  Steps, here, next,
}
use code_study_example.Shared.{
  ℕ, zero, suc, ◌+◌, ◌≡◌, ◌≢◌, inl, inr, refl, sym, ap, subst, ◌∙◌, Bool, true, false, List, [],
  ◌∷◌, ◌++◌, map, length, length-append, append-nil, arith,
}

-- A run leads to where the queue is empty and nothing more was posted.
abbrev Drains : TaskThread → Type 0
Drains s = (t : TaskThread) × Steps false s t × (t.task_queue ≡ []) × (t.posted ≡ s.posted)

then_Drains : (s t : TaskThread) → Step false s t → t.posted ≡ s.posted → Drains t → Drains s
then_Drains s t st p (u, r, e, q) = (u, Steps-trans (next here st) r, e, q ∙ p)

length-split :
    (xs ys : List TaskItem) (i : TaskItem) → length (xs ++ (i ∷ ys)) ≡ suc (length (xs ++ ys))
length-split xs ys i = omega (arith, length-append xs (i ∷ ys), length-append xs ys)

-- The clock goes on until the first task is due; then it is taken and run.
take_one :
    (s : TaskThread)
    → s.loop ≡ locking
    → s.running ≡ true
    → ((xs ys : List TaskItem) (i : TaskItem)
        → s.task_queue ≡ xs ++ (i ∷ ys)
        → (t : TaskThread) → t.task_queue ≡ xs ++ ys
        → t.loop ≡ locking
        → t.running ≡ true
        → t.posted ≡ s.posted
        → Drains t)
    → Split s.task_queue
    → Drains s
take_one s l r continue (xs, ys, i, e, h) =
    let later : TaskThread = record s { now = s.now + i.exec_time } in
    let taken : TaskThread = record later {
      loop = executing i;
      task_queue = xs ++ ys;
      started = (i, later.now) ∷ s.started;
    } in
    let back : TaskThread = record taken { loop = checking } in
    then_Drains s later (tick i.exec_time) refl (
      then_Drains later taken (take_task xs ys i l e h (omega arith)) refl (
        then_Drains taken back (return_from_task i refl) refl (
          then_Drains back (record back { loop = locking }) (go_on refl r) refl
            (continue xs ys i e (record back { loop = locking }) refl refl r refl))))

drain :
    (n : ℕ) (s : TaskThread) (q : List TaskItem)
    → s.task_queue ≡ q
    → length q ≡ n
    → s.loop ≡ locking
    → s.running ≡ true
    → Drains s
drain n s [] e len l r = (s, here, e, refl)
drain zero s (i ∷ q) e len l r = absurd (omega (arith, len))
drain (suc n) s (i ∷ q) e len l r =
    let (xs, ys, k, p, h) = earliest_item i q in
    take_one s l r
      (λ xs' ys' j f t tq tl tr tp.
        let (u, run, none_left, same) =
          drain n t (xs' ++ ys') tq
            (omega (arith, len, ap length (sym e ∙ f), length-split xs' ys' j)) tl tr in
        (u, run, none_left, same))
      (xs, ys, k, e ∙ p, h)

checking-Drains : (s : TaskThread) → s.loop ≡ checking → s.running ≡ true → Drains s
checking-Drains s l r =
    then_Drains s (record s { loop = locking }) (go_on l r) refl
      (drain (length s.task_queue) (record s { loop = locking }) s.task_queue refl refl refl r)

positive : (n : ℕ) → n ≢ 0 → (m : ℕ) × (n ≡ suc m)
positive zero h = absurd (h refl)
positive (suc m) h = (m, refl)

by_loop : (s : TaskThread) (l : Loop) → s.loop ≡ l → s.destructor ≡ absent → Awake s → Drains s
by_loop s checking l d h = checking-Drains s l (h.runs d)
by_loop s locking l d h = drain (length s.task_queue) s s.task_queue refl refl l (h.runs d)
by_loop s waiting l d h = elim (h.woken l) [
  | inl e ↦ (s, here, e, refl)
  | inr n ↦
      let (m, e) = positive s.unsent n in
      then_Drains s (record s { unsent = m; loop = notify s.loop }) (notify_one m e) refl
        (checking-Drains (record s { unsent = m; loop = notify s.loop }) (ap notify l) (h.runs d))
]
by_loop s (waiting_until t) l d h =
    let later : TaskThread = record s { now = s.now + t } in
    then_Drains s later (tick t) refl (
      then_Drains later (record later { loop = checking }) (time_out t l (omega arith)) refl
        (checking-Drains (record later { loop = checking }) refl (h.runs d)))
by_loop s (executing i) l d h =
    then_Drains s (record s { loop = checking }) (return_from_task i l) refl
      (checking-Drains (record s { loop = checking }) refl (h.runs d))
by_loop s stopped l d h = absurd (h.lives d l)

Steps-Kept : {s t : TaskThread} → Steps false s t → Kept s → Kept t
Steps-Kept here k = k
Steps-Kept (next r st) k = Step-Kept st (Steps-Kept r k)

-- No wake-up is lost while the object lives: from every state that a new object reaches before its
-- destructor begins, a run in which the tasks return, and nothing but notifications and the clock
-- ends a wait, leads to where all tasks that were posted until then have started, each as often as
-- it was posted.
pub all_tasks_start :
    {sp : Bool} {now : ℕ} {s : TaskThread}
    → Steps sp (construct now) s
    → s.destructor ≡ absent
    → (t : TaskThread) × Steps false s t
      × (t.task_queue ≡ [])
      × Perm s.posted (map (λ p. p.0) t.started)
all_tasks_start {sp} {now} {s} r d =
    let (t, run, empty, same) = by_loop s s.loop refl d (Steps-Awake r (construct-Awake now)) in
    (
      t,
      run,
      empty,
      subst (λ x. Perm x (map (λ p. p.0) t.started)) same
          (subst (Perm t.posted)
            (ap (λ (q : List TaskItem). map (λ (p : TaskItem × ℕ). p.0) t.started ++ q) empty
              ∙ append-nil (map (λ (p : TaskItem × ℕ). p.0) t.started))
            (Steps-Kept run (each_task_once r))),
    )
