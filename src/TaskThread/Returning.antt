-- ===== src/TaskThread/Returning.antt =====
-- How the destructor of cpp/ex/task_thread/task_thread.hpp comes to return.
use code_study_example.TaskThread.Stuck.{IsJoining, Stuck}
use code_study_example.TaskThread.{
  TaskItem, TaskThread, Loop, checking, locking, waiting, waiting_until, executing, stopped, joined,
  Step, leave, sleep_until, take_task, return_from_task, time_out, tick, join, Steps, here, next,
  Earliest,
}
use code_study_example.Shared.{
  ℕ, ◌+◌, ◌≤◌, ◌≡◌, inl, inr, refl, ap, Bool, false, List, [], ◌∷◌, ◌++◌, All, arith, dec_lt, sym,
  ◌∙◌, subst,
}

pub Steps-trans : {sp : Bool} {s t u : TaskThread} → Steps sp s t → Steps sp t u → Steps sp s u
Steps-trans r here = r
Steps-trans r (next q st) = next (Steps-trans r q) st

abbrev Returns : TaskThread → Type 0
Returns s = (t : TaskThread) × Steps false s t × (t.destructor ≡ joined)

then_Returns : (s t : TaskThread) → Step false s t → Returns t → Returns s
then_Returns s t st (u, r, e) = (u, Steps-trans (next here st) r, e)

stopped-Returns : (s : TaskThread) → IsJoining s → s.loop ≡ stopped → Returns s
stopped-Returns s j l = (_, next here (join j.joins l), refl)

checking-Returns : (s : TaskThread) → IsJoining s → s.loop ≡ checking → Returns s
checking-Returns s j l =
    then_Returns s (record s { loop = stopped }) (leave l j.cleared)
      (stopped-Returns (record s { loop = stopped })
        (record { cleared = j.cleared; joins = j.joins; sent = j.sent }) refl)

executing-Returns : (s : TaskThread) (i : TaskItem) → IsJoining s → s.loop ≡ executing i → Returns s
executing-Returns s i j l =
    then_Returns s (record s { loop = checking }) (return_from_task i l)
      (checking-Returns (record s { loop = checking })
        (record { cleared = j.cleared; joins = j.joins; sent = j.sent }) refl)

timed-Returns : (s : TaskThread) (t : ℕ) → IsJoining s → s.loop ≡ waiting_until t → Returns s
timed-Returns s t j l =
    let later : TaskThread = record s { now = s.now + t } in
    then_Returns s later (tick t) (
      then_Returns later (record later { loop = checking }) (time_out t l (omega arith))
        (checking-Returns (record later { loop = checking })
          (record { cleared = j.cleared; joins = j.joins; sent = j.sent }) refl))

All-insert {ℓ κ} :
    {A : Type ℓ} (P : A → Type κ) (xs ys : List A) (a : A)
    → P a
    → All P (xs ++ ys)
    → All P (xs ++ (a ∷ ys))
All-insert P [] ys a h k = (h, k)
All-insert P (x ∷ xs) ys a h k = (k.0, All-insert P xs ys a h k.1)

Earliest-trans :
    (i j : TaskItem) (q : List TaskItem) → i.exec_time ≤ j.exec_time → Earliest j q → Earliest i q
Earliest-trans i j [] le h = tt
Earliest-trans i j (k ∷ q) le h = (omega arith, Earliest-trans i j q le h.1)

abbrev pub Split : List TaskItem → Type 0
Split q =
    (xs : List TaskItem) × (ys : List TaskItem) × (i : TaskItem) × (q ≡ xs ++ (i ∷ ys))
    × Earliest i (xs ++ ys)

-- `top` of a queue that is not empty.
pub earliest_item : (i : TaskItem) (q : List TaskItem) → Split (i ∷ q)
earliest_item i [] = ([], [], i, refl, tt)
earliest_item i (k ∷ q) = compare_head (earliest_item k q)
  where
    compare_head : Split (k ∷ q) → Split (i ∷ k ∷ q)
    compare_head (xs, ys, j, e, h) = elim (dec_lt j.exec_time i.exec_time) [
      | yes lt ↦ (i ∷ xs, ys, j, ap (◌∷◌ i) e, (omega arith, h))
      | no ge ↦ (
        [],
        k ∷ q,
        i,
        refl,
        subst (λ x. Earliest i x) (sym e)
            (All-insert (λ x. i.exec_time ≤ x.exec_time) xs ys j (omega arith)
              (Earliest-trans i j (xs ++ ys) (omega arith) h)),
      )
    ]

busy-Returns : (s : TaskThread) → IsJoining s → s.loop ≡ locking → Split s.task_queue → Returns s
busy-Returns s j l (xs, ys, i, e, h) = elim (dec_lt s.now i.exec_time) [
  | yes soon ↦
      then_Returns s (record s { loop = waiting_until i.exec_time })
        (sleep_until xs ys i l e h soon)
        (timed-Returns (record s { loop = waiting_until i.exec_time }) i.exec_time
          (record { cleared = j.cleared; joins = j.joins; sent = j.sent }) refl)
  | no due ↦
      then_Returns s
        (record s { loop = executing i; task_queue = xs ++ ys; started = (i, s.now) ∷ s.started })
        (take_task xs ys i l e h (omega arith))
        (executing-Returns
          (record s { loop = executing i; task_queue = xs ++ ys; started = (i, s.now) ∷ s.started })
          i (record { cleared = j.cleared; joins = j.joins; sent = j.sent }) refl)
]

by_queue :
    (s : TaskThread) (q : List TaskItem)
    → s.task_queue ≡ q
    → s.loop ≡ locking
    → IsJoining s
    → ¬ (Stuck s)
    → Returns s
by_queue s [] e l j free = absurd (free (inr (l, e)))
by_queue s (i ∷ q) e l j free =
    busy-Returns s j l (let (xs, ys, k, p, h) = earliest_item i q in (xs, ys, k, e ∙ p, h))

pub by_loop : (s : TaskThread) (l : Loop) → s.loop ≡ l → IsJoining s → ¬ (Stuck s) → Returns s
by_loop s checking e j free = checking-Returns s j e
by_loop s locking e j free = by_queue s s.task_queue refl e j free
by_loop s waiting e j free = absurd (free (inl e))
by_loop s (waiting_until t) e j free = timed-Returns s t j e
by_loop s (executing i) e j free = executing-Returns s i j e
by_loop s stopped e j free = stopped-Returns s j e
